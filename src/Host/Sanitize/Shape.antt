-- ===== src/Host/Sanitize/Shape.antt =====
-- The shape of a sanitized name.
use mathlib.Core.List.{reverse-cons}
use claude_contained.Host.Sanitize.{
  max_folder_name_len, base_name, is_kept, dash_others, collapse, take, dashed_name, truncate,
  sanitize_folder_name,
}
use claude_contained.Base.{ℕ, zero, suc, ◌≤◌, ◌<◌, ◌≡◌, refl, sym, ap, ◌∙◌, inl, inr}
use claude_contained.Base.{
  Bool, true, false, not, ◌&&◌, ◌||◌, some, arith, ltb, ◌==◌, if◌then◌else◌, Bool-cases,
  Option-cases,
}
use claude_contained.Base.{
  [], ◌∷◌, ◌++◌, reverse, reverse-reverse, append-nil, length, is_nil, every,
}
use claude_contained.Base.{Bytes, bytes, after_prefix, trim_prefix, trim_suffix}

-- Only lower-case ASCII letters, digits and dashes.
abbrev pub is_name_byte : ℕ → Bool
is_name_byte c = is_kept c || c == b'-'

-- No dash behind a dash: the flag says whether one stands before, or the start.
abbrev pub is_spaced : Bool → Bytes → Bool
is_spaced prev [] = true
is_spaced prev (c ∷ s) = not (prev && c == b'-') && is_spaced (c == b'-') s

abbrev pub IsFolderName : Bytes → Type 0
IsFolderName name =
    (every is_name_byte name ≡ true)
    × (is_spaced true name ≡ true)
    × (1 ≤ length name)
    × (length name ≤ max_folder_name_len)

every-dash_others : (s : Bytes) → every is_name_byte (dash_others s) ≡ true
unfolding dash_others
every-dash_others [] = refl
every-dash_others (c ∷ s) = ground (arith, every-dash_others s)

every-collapse :
    (prev : Bool) (s : Bytes)
    → every is_name_byte s ≡ true
    → every is_name_byte (collapse prev s) ≡ true
unfolding collapse
every-collapse prev [] h = refl
every-collapse prev (c ∷ s) h = ground (arith, every-collapse (c == b'-') s)

is_spaced-collapse : (prev : Bool) (s : Bytes) → is_spaced prev (collapse prev s) ≡ true
unfolding collapse
is_spaced-collapse prev [] = refl
is_spaced-collapse prev (c ∷ s) = ground (arith, is_spaced-collapse (c == b'-') s)

trim_prefix_dash :
    (s : Bytes)
    → every is_name_byte s ≡ true
    → is_spaced false s ≡ true
    → (every is_name_byte (trim_prefix s (bytes "-")) ≡ true)
      × (is_spaced true (trim_prefix s (bytes "-")) ≡ true)
unfolding trim_prefix after_prefix
trim_prefix_dash [] h k = (refl, refl)
trim_prefix_dash (c ∷ s) h k = ground arith

-- `s` is the front of `t`.
abbrev IsFront : Bytes → Bytes → Type 0
IsFront s t = (rest : Bytes) × (t ≡ s ++ rest)

is_spaced-front :
    (prev : Bool) (s rest : Bytes) → is_spaced prev (s ++ rest) ≡ true → is_spaced prev s ≡ true
is_spaced-front prev [] rest h = refl
is_spaced-front prev (c ∷ s) rest h = ground (arith, is_spaced-front (c == b'-') s rest)

every-front : (s rest : Bytes) → every is_name_byte (s ++ rest) ≡ true → every is_name_byte s ≡ true
every-front [] rest h = refl
every-front (c ∷ s) rest h = ground (arith, every-front s rest)

after_prefix_one : (s t : Bytes) (d : ℕ) → after_prefix s (d ∷ []) ≡ some t → s ≡ d ∷ t
unfolding after_prefix
after_prefix_one [] t d h = cc
after_prefix_one (c ∷ s) t d h = ground arith

trim_suffix-IsFront : (s : Bytes) (d : ℕ) → IsFront (trim_suffix s (d ∷ [])) s
unfolding trim_suffix
trim_suffix-IsFront s d = elim (Option-cases (after_prefix (reverse s) (d ∷ []))) [
  | inl e ↦ rw (e, trim_prefix) ([], rw reverse-reverse (sym (append-nil s)))
  | inr (t, e) ↦
      rw (e, trim_prefix)
        (
          d ∷ [],
          sym (reverse-reverse s)
              ∙ ap reverse (after_prefix_one (reverse s) t d e)
              ∙ reverse-cons d t,
        )
]

take-IsFront : (n : ℕ) (s : Bytes) → IsFront (take n s) s
unfolding take
take-IsFront zero s = (s, refl)
take-IsFront (suc n) [] = ([], refl)
take-IsFront (suc n) (c ∷ s) = let (rest, e) = take-IsFront n s in (rest, ap (λ l. c ∷ l) e)

length-take : (n : ℕ) (s : Bytes) → n < length s → length (take n s) ≡ n
unfolding take
length-take zero s h = refl
length-take (suc n) [] h = absurd (omega arith)
length-take (suc n) (c ∷ s) h = ap suc (length-take n s (omega arith))

shortened-IsFolderName :
    (s : Bytes)
    → every is_name_byte s ≡ true
    → is_spaced true s ≡ true
    → length s ≤ max_folder_name_len
    → IsFolderName (if is_nil s then bytes "root" else s)
shortened-IsFolderName [] h k l = (refl, refl, omega arith, omega arith)
shortened-IsFolderName (c ∷ s) h k l = (h, k, omega arith, l)

truncate-IsFolderName :
    (s : Bytes) → every is_name_byte s ≡ true → is_spaced true s ≡ true → IsFolderName (truncate s)
unfolding truncate
truncate-IsFolderName s h k = elim (Bool-cases (ltb max_folder_name_len (length s))) [
  | inl e ↦
      rw (e, truncate)
        (let (rest, f) = take-IsFront max_folder_name_len s in
          shortened-IsFolderName (take max_folder_name_len s)
            (every-front (take max_folder_name_len s) rest (rw f at h))
            (is_spaced-front true (take max_folder_name_len s) rest (rw f at k))
            (omega (arith, length-take max_folder_name_len s (ground arith))))
  | inr e ↦ rw (e, truncate) (shortened-IsFolderName s h k (ground arith))
]

dashed_name_lem :
    (s : Bytes)
    → (every is_name_byte (dashed_name s) ≡ true) × (is_spaced true (dashed_name s) ≡ true)
unfolding dashed_name
dashed_name_lem s =
    let whole : Bytes = collapse false (dash_others s) in
    let (h, k) =
      trim_prefix_dash whole (every-collapse false (dash_others s) (every-dash_others s))
        (is_spaced-collapse false (dash_others s)) in
    let (rest, e) = trim_suffix-IsFront (trim_prefix whole (bytes "-")) b'-' in
    (
      every-front (dashed_name s) rest (rw e at h),
      is_spaced-front true (dashed_name s) rest (rw e at k),
    )

-- The name of any path has between one and twenty bytes, each a lower-case ASCII letter, a digit or a
-- dash; it does not begin with a dash, and no two dashes stand in a row. This holds whatever the
-- lowercasing returns.
pub sanitize_folder_name-IsFolderName :
    (to_lower : Bytes → Bytes) (path : Bytes) → IsFolderName (sanitize_folder_name to_lower path)
unfolding sanitize_folder_name
sanitize_folder_name-IsFolderName to_lower path =
    let (h, k) = dashed_name_lem (to_lower (base_name path)) in
    truncate-IsFolderName (dashed_name (to_lower (base_name path))) h k
