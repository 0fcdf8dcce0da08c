-- ===== src/Attach/Selection.antt =====
-- The answer to a picker.
use claude_contained.Attach.Resolve.{
  Selection, quit, invalid, choice, in_range, is_blank, trim_blanks, parse_selection, get_elem?,
}
use mathlib.Core.List.{reverse-cons}
use claude_contained.Base.{ℕ, zero, suc, ◌≤◌, ◌<◌, ◌≡◌, refl, ap, ◌∙◌, inl, inr}
use claude_contained.Base.{Bool, true, false, ◌&&◌, ◌||◌, arith, if◌then◌else◌, Bool-cases, is_some}
use claude_contained.Base.{
  List, [], ◌∷◌, ◌++◌, reverse, reverse-reverse, length, is_nil, every, any,
}
use claude_contained.Base.{
  Bytes, bytes, same, trim_left, trim_right, is_digit, decimal, decimal_value,
  decimal_value-decimal, decimal-is_digits, decimal-not_nil,
}

-- A choice is one of the numbers shown.
abbrev pub IsShown : ℕ → Selection → Type 0
IsShown count quit = Unit
IsShown count invalid = Unit
IsShown count (choice n) = (1 ≤ n) × (n ≤ count)

if-IsShown :
    (count n : ℕ) (blank digits : Bool)
    → IsShown count
        (if blank then quit else if digits && in_range count n then choice n else invalid)
if-IsShown count n true digits = tt
if-IsShown count n false false = tt
if-IsShown count n false true = elim (Bool-cases (in_range count n)) [
  | inl e ↦ rw e (ground arith, ground arith)
  | inr e ↦ rw e tt
]

pub parse_selection-IsShown :
    (line : Bytes) (count : ℕ) → IsShown count (parse_selection line count)
unfolding parse_selection
parse_selection-IsShown line count =
    let t = trim_blanks line in
    if-IsShown count (decimal_value t) (is_nil t || same t (bytes "q") || same t (bytes "Q"))
      (every is_digit t)

pub get_elem?-is_some :
    {A : Type 0} (xs : List A) (n : ℕ) → n < length xs → is_some (get_elem? xs n) ≡ true
unfolding get_elem?
get_elem?-is_some [] n l = absurd (omega (arith, l))
get_elem?-is_some (x ∷ xs) zero l = refl
get_elem?-is_some (x ∷ xs) (suc n) l = get_elem?-is_some xs n (omega arith)

trim_left_free : (p : ℕ → Bool) (s : Bytes) → any p s ≡ false → trim_left p s ≡ s
unfolding trim_left
trim_left_free p [] h = refl
trim_left_free p (c ∷ s) h = ground arith

not_any :
    (p q : ℕ → Bool) (s : Bytes)
    → ((c : ℕ) → q c ≡ true → p c ≡ false)
    → every q s ≡ true
    → any p s ≡ false
not_any p q [] h e = refl
not_any p q (c ∷ s) h e = ground (arith, h c, not_any p q s h)

any-append : (p : ℕ → Bool) (xs ys : Bytes) → any p (xs ++ ys) ≡ (any p xs || any p ys)
any-append p [] ys = refl
any-append p (x ∷ xs) ys = ground (arith, any-append p xs ys)

any-reverse : (p : ℕ → Bool) (s : Bytes) → any p (reverse s) ≡ any p s
any-reverse p [] = refl
any-reverse p (x ∷ s) =
    ap (any p) (reverse-cons x s)
    ∙ any-append p (reverse s) (x ∷ [])
    ∙ ground (arith, any-reverse p s)

trim_blanks-digits : (s : Bytes) → every is_digit s ≡ true → trim_blanks s ≡ s
unfolding trim_blanks trim_right
trim_blanks-digits s e =
    let clean = not_any is_blank is_digit s (λ c h. ground arith) e in
    rw
      (
        trim_left_free is_blank s clean,
        trim_left_free is_blank (reverse s) (any-reverse is_blank s ∙ clean),
      )
      (reverse-reverse s)

is_digits-ne :
    (s : Bytes)
    → every is_digit s ≡ true
    → is_nil s ≡ false
    → (is_nil s || same s (bytes "q") || same s (bytes "Q")) ≡ false
unfolding same
is_digits-ne [] h e = cc
is_digits-ne (c ∷ s) h e = ground arith

parse_selection-digits :
    (s : Bytes) (count : ℕ)
    → every is_digit s ≡ true
    → is_nil s ≡ false
    → parse_selection s count
      ≡ (if in_range count (decimal_value s) then choice (decimal_value s) else invalid)
unfolding parse_selection
parse_selection-digits s count e ne = rw (trim_blanks-digits s e, is_digits-ne s e ne, e) refl

-- The numeral of a number is read as that number if it is one of those shown and fits into 64 bits
-- with a sign, and is refused else.
pub parse_selection-decimal :
    (n count : ℕ)
    → parse_selection (decimal n) count ≡ (if in_range count n then choice n else invalid)
unfolding decimal
parse_selection-decimal n count =
    parse_selection-digits (decimal n) count (decimal-is_digits n) (decimal-not_nil n)
    ∙ ap (λ m. if in_range count m then choice m else invalid) (decimal_value-decimal n)
