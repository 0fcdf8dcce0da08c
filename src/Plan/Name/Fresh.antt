-- ===== src/Plan/Name/Fresh.antt =====
-- internal/plan/plan.go: the loop of `deduplicateName`.
use native.Mathlib.Decide.{dec_lt}
use native.Mathlib.Numerals.{add-one}
use claude_contained.Plan.Name.{next_free, deduplicate_name}
use claude_contained.Base.{ℕ, zero, suc, ◌+◌, ◌≤◌, ◌<◌, ◌≡◌, sym, ap, ◌∙◌, ◌≢◌, inl, inr}
use claude_contained.Base.{true, false, ◌||◌, arith, ltb, if◌then◌else◌, Bool-cases}
use claude_contained.Base.{List, [], ◌∷◌, ◌++◌, length, length-append}
use claude_contained.Base.{
  Bytes, bytes, same, same_iff, same_refl, contains, decimal, decimal-injective,
}

-- The list without the first occurrence of an item.
abbrev erase : Bytes → List Bytes → List Bytes
erase a [] = []
erase a (x ∷ xs) = let rest = erase a xs in if same x a then xs else x ∷ rest

length-erase :
    (a : Bytes) (xs : List Bytes) → contains xs a ≡ true → suc (length (erase a xs)) ≡ length xs
unfolding contains
length-erase a [] h = cc
length-erase a (x ∷ xs) h = ground (arith, length-erase a xs)

contains-erase :
    (a b : Bytes) (xs : List Bytes)
    → same a b ≡ false
    → contains xs b ≡ true
    → contains (erase a xs) b ≡ true
unfolding contains
contains-erase a b [] ne h = cc
contains-erase a b (x ∷ xs) ne h =
    ground (arith, contains-erase a b xs, same_iff x a, same_iff x b, same_iff a b)

-- The names that the loop tries, by their suffix; below 2 it is the base.
candidate : Bytes → ℕ → Bytes
candidate base k = if ltb k 2 then base else base ++ bytes "-" ++ decimal k

append_cancel : (a b c : Bytes) → a ++ b ≡ a ++ c → b ≡ c
append_cancel [] b c h = h
append_cancel (x ∷ a) b c h = append_cancel a b c (ground arith)

append-ne : (a : Bytes) (c : ℕ) (s : Bytes) → a ≢ a ++ c ∷ [] ++ s
append-ne a c s h =
    absurd (omega (arith, ap length h, length-append (a ++ c ∷ []) s, length-append a (c ∷ [])))

candidate_base : (base : Bytes) (k : ℕ) → k < 2 → candidate base k ≡ base
unfolding candidate
candidate_base base k h = ground arith

candidate_suffix :
    (base : Bytes) (k : ℕ) → 2 ≤ k → candidate base k ≡ base ++ bytes "-" ++ decimal k
unfolding candidate
candidate_suffix base k h = ground arith

not_same : (a b : Bytes) → a ≢ b → same a b ≡ false
not_same a b h = ground (arith, same_iff a b)

candidate-ne : (base : Bytes) (j k : ℕ) → 1 ≤ j → j < k → candidate base j ≢ candidate base k
candidate-ne base j k h l e = elim (dec_lt j 2) [
  | yes p ↦
      append-ne base b'-' (decimal k)
        (sym (candidate_base base j p) ∙ e ∙ candidate_suffix base k (omega arith))
  | no p ↦
      let f : base ++ bytes "-" ++ decimal j ≡ base ++ bytes "-" ++ decimal k =
        sym (candidate_suffix base j (omega arith)) ∙ e ∙ candidate_suffix base k (omega arith) in
      let g : j ≡ k =
        decimal-injective j k (append_cancel (base ++ bytes "-") (decimal j) (decimal k) f) in
      absurd (omega arith)
]

candidate-injective :
    (base : Bytes) (j k : ℕ) → 1 ≤ j → j < k → same (candidate base j) (candidate base k) ≡ false
candidate-injective base j k h l = not_same _ _ (candidate-ne base j k h l)

-- `n` candidates from `k` on are all taken.
abbrev AllTaken : Bytes → ℕ → ℕ → List Bytes → Type 0
AllTaken base zero k running = Unit
AllTaken base (suc n) k running =
    (contains running (candidate base k) ≡ true) × AllTaken base n (suc k) running

AllTaken-erase :
    (base : Bytes) (n k j : ℕ) (running : List Bytes)
    → 1 ≤ j
    → j < k
    → AllTaken base n k running
    → AllTaken base n k (erase (candidate base j) running)
AllTaken-erase base zero k j running h l a = tt
AllTaken-erase base (suc n) k j running h l a = (
  contains-erase _ _ running (candidate-injective base j k h l) a.0,
  AllTaken-erase base n (suc k) j running h (omega arith) a.1,
)

-- No more candidates are taken than there are names.
AllTaken-le :
    (base : Bytes) (n k : ℕ) (running : List Bytes)
    → 1 ≤ k
    → AllTaken base n k running
    → n ≤ length running
AllTaken-le base zero k running h a = omega arith
AllTaken-le base (suc n) k running h a = omega (
  arith,
  length-erase (candidate base k) running a.0,
  AllTaken-le base n (suc k) (erase (candidate base k) running) (omega arith)
      (AllTaken-erase base n (suc k) k running h (omega arith) a.1),
)

next_free-suc :
    (fuel : ℕ) (base : Bytes) (k : ℕ) (running : List Bytes)
    → 1 ≤ k
    → contains running (candidate base k) ≡ true
    → next_free (suc fuel) base (suc k) (candidate base k) running
      ≡ next_free fuel base (suc (suc k)) (candidate base (suc k)) running
unfolding next_free
next_free-suc fuel base k running h e =
    rw (e, next_free) (rw (candidate_suffix base (suc k) (omega arith), add-one))

-- The loop returns a free name unless all names are taken that its rounds let it try.
next_free-is_free :
    (fuel : ℕ) (base : Bytes) (k : ℕ) (running : List Bytes)
    → 1 ≤ k
    → ¬ AllTaken base fuel k running
    → contains running (next_free fuel base (suc k) (candidate base k) running) ≡ false
unfolding next_free
next_free-is_free zero base k running h na = absurd (na tt)
next_free-is_free (suc fuel) base k running h na =
    elim (Bool-cases (contains running (candidate base k))) [
      | inr e ↦ rw (e, next_free) e
      | inl e ↦
          rw (next_free-suc fuel base k running h e)
            (next_free-is_free fuel base (suc k) running (omega arith) (λ a. na (e, a)))
    ]

next_free_wanted :
    (fuel : ℕ) (name : Bytes) (running : List Bytes)
    → (contains running name || same (next_free (suc fuel) name 2 name running) name) ≡ true
unfolding next_free
next_free_wanted fuel name running = ground (arith, same_refl name)

-- The name is none of the running containers', whatever they are called, and it is the wanted name
-- itself if that one is free.
pub deduplicate_name-fresh :
    (name : Bytes) (running : List Bytes)
    → (contains running (deduplicate_name name running) ≡ false)
      × ((contains running name || same (deduplicate_name name running) name) ≡ true)
unfolding deduplicate_name candidate
deduplicate_name-fresh name running = (
  next_free-is_free (length running + 1) name 1 running (omega arith) (λ a.
      absurd (omega (arith, AllTaken-le name (length running + 1) 1 running (omega arith) a))),
  rw add-one (next_free_wanted (length running) name running),
)
