-- ===== src/Worktree/Holder.antt =====
-- `observeMutexHolder` in internal/host/worktreelock.go. What is outside is a parameter: the processes
-- that `syscall.Kill(pid, 0)` reaches, and the time, in seconds.
use claude_contained.Worktree.Fields.{
  flush, fields, fields_onto, fields_onto-append, fields_onto-space, flush_word, is_graphic,
  is_word,
}
use claude_contained.Base.{ℕ, zero, suc, ◌+◌, ◌-◌, ◌≤◌, ◌<◌, ◌≡◌, refl, ap, ◌∙◌, inl, inr}
use claude_contained.Base.{
  Bool, true, false, not, ◌&&◌, ◌||◌, Option, none, some, arith, ltb, leb, ◌==◌, if◌then◌else◌,
  Bool-cases,
}
use claude_contained.Base.{List, [], ◌∷◌, ◌++◌, is_nil, every}
use claude_contained.Base.{
  Bytes, bytes, is_digit, decimal, decimal_value, decimal_value-decimal, decimal-is_digits,
  decimal-not_nil,
}

-- Go's signed integers, unbounded; `parse_int` keeps them within 64 bits.
pub data ℤ : Type 0 where
  pos negsuc : ℕ → ℤ

abbrev pub max_int : ℕ
max_int = 9223372036854775807

abbrev lesser : ℕ → ℕ → ℕ
lesser a b = if leb a b then a else b

abbrev negative : ℕ → ℤ
negative zero = pos 0
negative (suc n) = negsuc n

-- An unsigned numeral, and zero if it is none.
abbrev is_numeral : Bytes → Bool
is_numeral s = not (is_nil s) && every is_digit s

abbrev parse_negative : Bytes → ℤ
parse_negative s = if is_numeral s then negative (lesser (decimal_value s) (max_int + 1)) else pos 0

abbrev parse_positive : Bytes → ℤ
parse_positive s = if is_numeral s then pos (lesser (decimal_value s) max_int) else pos 0

-- What `strconv.Atoi` and `strconv.ParseInt` return beside the error that the caller drops: zero for what
-- is no integer, the nearest one for an integer that 64 bits do not hold.
unfoldable pub parse_int : Bytes → ℤ
unfolding decimal_value
parse_int [] = pos 0
parse_int (c ∷ s) =
    if c == b'-'
    then parse_negative s
    else if c == b'+'
    then parse_positive s
    else parse_positive (c ∷ s)

-- `mutexHolderObservation`, without the error; the age is in seconds.
pub record Observation : Type 0 where
  pub stale : Bool
  pub reason : Bytes
  pub pid : ℤ
  pub age : ℕ

abbrev pub mutex_stale_after : ℕ
mutex_stale_after = 30

abbrev is_zero : ℤ → Bool
is_zero (pos zero) = true
is_zero (pos (suc n)) = false
is_zero (negsuc n) = false

-- The first two fields, each zero if it is missing.
abbrev holder_of : List Bytes → ℤ × ℤ
holder_of [] = (pos 0, pos 0)
holder_of (p ∷ []) = (parse_int p, pos 0)
holder_of (p ∷ t ∷ more) = (parse_int p, parse_int t)

-- What is left to look at once the process is there.
unfoldable pub observe_age : ℕ → ℤ → ℤ → Observation
observe_age now pid (negsuc t) = record {
  stale = false;
  reason = bytes "holder-active";
  pid = pid;
  age = 0;
}
observe_age now pid (pos t) =
    if ltb 0 t && ltb t now
    then (if leb mutex_stale_after (now - t)
        then record { stale = true; reason = bytes "holder-expired"; pid = pid; age = now - t }
        else record { stale = false; reason = bytes "holder-active"; pid = pid; age = now - t })
    else record { stale = false; reason = bytes "holder-active"; pid = pid; age = 0 }

module _ (reaches : ℤ → Bool) (now : ℕ) where
  unfoldable pub observe_record : ℤ → ℤ → Observation
  unfolding observe_age
  observe_record pid t =
      if not (is_zero pid) && not (reaches pid)
      then record { stale = true; reason = bytes "holder-unreachable"; pid = pid; age = 0 }
      else observe_age now pid t

  -- With the content of the owner file, if it can be read.
  unfoldable pub observe_mutex_holder : Option Bytes → Observation
  unfolding observe_record fields parse_int
  observe_mutex_holder none = record {
    stale = true;
    reason = bytes "owner-unreadable";
    pid = pos 0;
    age = 0;
  }
  observe_mutex_holder (some content) =
      let (pid, t) = holder_of (fields content) in observe_record pid t

-- What the holder writes into the owner file.
unfoldable pub owner_record : ℕ → ℕ → Bytes
unfolding decimal
owner_record pid t = decimal pid ++ b' ' ∷ (decimal t ++ b'\n' ∷ [])

digits-graphic : (s : Bytes) → every is_digit s ≡ true → every is_graphic s ≡ true
digits-graphic [] h = refl
digits-graphic (c ∷ s) h = ground (arith, digits-graphic s)

decimal-is_word : (n : ℕ) → is_word (decimal n) ≡ true
decimal-is_word n = rw (digits-graphic (decimal n) (decimal-is_digits n), decimal-not_nil n) refl

fields-owner_record : (pid t : ℕ) → fields (owner_record pid t) ≡ decimal pid ∷ decimal t ∷ []
unfolding fields owner_record fields_onto
fields-owner_record pid t =
    fields_onto-append [] (decimal pid) (b' ' ∷ (decimal t ++ b'\n' ∷ []))
      (digits-graphic (decimal pid) (decimal-is_digits pid))
    ∙ fields_onto-space (decimal pid) (decimal t ++ b'\n' ∷ [])
    ∙ ap (flush (decimal pid)) (
        fields_onto-append [] (decimal t) (b'\n' ∷ [])
          (digits-graphic (decimal t) (decimal-is_digits t))
        ∙ flush_word (decimal t) [] (decimal-is_word t))
    ∙ flush_word (decimal pid) (decimal t ∷ []) (decimal-is_word pid)

parse_int-digits :
    (s : Bytes)
    → every is_digit s ≡ true
    → is_nil s ≡ false
    → parse_int s ≡ pos (lesser (decimal_value s) max_int)
unfolding parse_int
parse_int-digits [] h n = cc
parse_int-digits (c ∷ s) h n = ground arith

parse_int-decimal : (n : ℕ) → n ≤ 9223372036854775807 → parse_int (decimal n) ≡ pos n
parse_int-decimal n h =
    parse_int-digits (decimal n) (decimal-is_digits n) (decimal-not_nil n)
    ∙ ap (λ v. pos (lesser v max_int)) (decimal_value-decimal n)
    ∙ ground arith

observe_age-pos :
    (now t : ℕ) (pid : ℤ) → 0 < t → (observe_age now pid (pos t)).stale ≡ leb (t + 30) now
unfolding observe_age
observe_age-pos now t pid u = ground arith

-- A holder that recorded its process and its time, both positive and within 64 bits, is seen to be
-- stale exactly when its process is not reached or the time is at least 30 seconds past.
pub observe_mutex_holder-owner_record :
    (reaches : ℤ → Bool) (now pid t : ℕ)
    → 0 < pid
    → pid ≤ 9223372036854775807
    → 0 < t
    → t ≤ 9223372036854775807
    → (observe_mutex_holder reaches now (some (owner_record pid t))).stale
      ≡ (not (reaches (pos pid)) || leb (t + 30) now)
unfolding observe_mutex_holder observe_record observe_age
observe_mutex_holder-owner_record reaches now zero t p pb u tb = absurd (omega (arith, p))
observe_mutex_holder-owner_record reaches now (suc pid) t p pb u tb =
    rw (fields-owner_record (suc pid) t, parse_int-decimal (suc pid) pb, parse_int-decimal t tb)
      (elim (Bool-cases (reaches (pos (suc pid)))) [
        | inl r ↦ rw r (observe_age-pos now t (pos (suc pid)) u)
        | inr r ↦ rw r refl
      ])
