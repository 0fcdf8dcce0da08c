-- ===== src/Base/Strings.antt =====
-- Byte strings, and the operations of Go's `strings` that the program uses.
use Prim.Native.Char.{code}
use Prim.Native.String.{String}
use claude_contained.Base.Tests.{
  sym, ap, ◌∙◌, Option-cases, Bool-cases, inl, inr, ℕ, ◌≡◌, refl, ◌↔◌, Bool, true, false, not, ◌&&◌,
  ◌||◌, Option, none, some, arith, ◌==◌, if◌then◌else◌,
}
use claude_contained.Base.Lists.{
  List, [], ◌∷◌, ◌++◌, reverse, reverse-append, reverse-reverse, every,
}

-- A Go string: its bytes.
abbrev pub Bytes : Type 0
Bytes = List ℕ

-- The bytes of a literal; every literal of the program is ASCII.
abbrev pub bytes : String → Bytes
bytes String.[] = []
bytes (String.◌∷◌ c s) = code c ∷ bytes s

unfoldable pub same : Bytes → Bytes → Bool
same [] [] = true
same (x ∷ xs) (y ∷ ys) = x == y && same xs ys
same _ _ = false

pub same_iff : (a b : Bytes) → (same a b ≡ true) ↔ (a ≡ b)
unfolding same
same_iff (x ∷ a) (y ∷ b) = ground (arith, same_iff a b)
same_iff _ _ = ground arith

pub same_refl : (a : Bytes) → same a a ≡ true
same_refl a = (same_iff a a).1 refl

pub same_comm : (a b : Bytes) → same a b ≡ same b a
same_comm a b = ground (arith, same_iff a b, same_iff b a)

-- What is left of a string behind a prefix.
unfoldable pub after_prefix : Bytes → Bytes → Option Bytes
after_prefix s [] = some s
after_prefix [] (p ∷ ps) = none
after_prefix (c ∷ s) (p ∷ ps) = if c == p then after_prefix s ps else none

-- `strings.HasPrefix`
unfoldable pub has_prefix : Bytes → Bytes → Bool
has_prefix s [] = true
has_prefix [] (p ∷ ps) = false
has_prefix (c ∷ s) (p ∷ ps) = c == p && has_prefix s ps

-- `strings.TrimPrefix`
unfoldable pub trim_prefix : Bytes → Bytes → Bytes
unfolding after_prefix
trim_prefix s p = elim (after_prefix s p) [ none ↦ s | some rest ↦ rest ]

-- `strings.TrimSuffix`
unfoldable pub trim_suffix : Bytes → Bytes → Bytes
unfolding trim_prefix
trim_suffix s p = reverse (trim_prefix (reverse s) (reverse p))

-- `strings.TrimLeft` and `strings.TrimRight` with a cutset given as a test on bytes.
unfoldable pub trim_left : (ℕ → Bool) → Bytes → Bytes
trim_left p [] = []
trim_left p (c ∷ s) = let rest = trim_left p s in if p c then rest else c ∷ s

unfoldable pub trim_right : (ℕ → Bool) → Bytes → Bytes
unfolding trim_left
trim_right p s = reverse (trim_left p (reverse s))

-- `strings.Cut` at one byte: what stands before and after its first occurrence.
unfoldable pub cut : ℕ → Bytes → Option (Bytes × Bytes)
cut sep [] = none
cut sep (c ∷ s) =
    if c == sep
    then some ([], s)
    else elim (cut sep s) [ none ↦ none | some (a, b) ↦ some (c ∷ a, b) ]

-- `strings.Join`
unfoldable pub join : Bytes → List Bytes → Bytes
join sep [] = []
join sep (s ∷ []) = s
join sep (s ∷ t ∷ rest) = s ++ (sep ++ join sep (t ∷ rest))

-- Puts a byte in front of the first piece.
abbrev pub onto_first : ℕ → List Bytes → List Bytes
onto_first c [] = (c ∷ []) ∷ []
onto_first c (p ∷ ps) = (c ∷ p) ∷ ps

-- `strings.Split` at one byte.
unfoldable pub split : ℕ → Bytes → List Bytes
split sep [] = [] ∷ []
split sep (c ∷ s) = let rest = split sep s in if c == sep then [] ∷ rest else onto_first c rest

unfoldable pub contains : List Bytes → Bytes → Bool
contains [] a = false
contains (x ∷ xs) a = same x a || contains xs a

-- No byte of the string is `sep`.
abbrev pub is_free_of : ℕ → Bytes → Bool
is_free_of sep = every (λ c. not (c == sep))

pub has_prefix-append : (p s : Bytes) → has_prefix (p ++ s) p ≡ true
unfolding has_prefix
has_prefix-append [] s = refl
has_prefix-append (c ∷ p) s = ground (arith, has_prefix-append p s)

pub has_prefix_split : (s p : Bytes) → has_prefix s p ≡ true → (rest : Bytes) × (s ≡ p ++ rest)
unfolding has_prefix
has_prefix_split s [] h = (s, refl)
has_prefix_split [] (p ∷ ps) h = cc
has_prefix_split (c ∷ s) (p ∷ ps) h =
    let (rest, e) = has_prefix_split s ps (ground arith) in (rest, ground arith)

pub after_prefix-append : (p s : Bytes) → after_prefix (p ++ s) p ≡ some s
unfolding after_prefix
after_prefix-append [] s = refl
after_prefix-append (c ∷ p) s = ground (arith, after_prefix-append p s)

pub trim_prefix-append : (p s : Bytes) → trim_prefix (p ++ s) p ≡ s
unfolding trim_prefix
trim_prefix-append p s = ground (arith, after_prefix-append p s)

pub cut-append :
    (sep : ℕ) (a b : Bytes) → is_free_of sep a ≡ true → cut sep (a ++ sep ∷ b) ≡ some (a, b)
unfolding cut
cut-append sep [] b h = ground arith
cut-append sep (c ∷ a) b h = ground (arith, cut-append sep a b)

pub cut_free : (sep : ℕ) (a : Bytes) → is_free_of sep a ≡ true → cut sep a ≡ none
unfolding cut
cut_free sep [] h = refl
cut_free sep (c ∷ a) h = ground (arith, cut_free sep a)

pub split_free : (sep : ℕ) (a : Bytes) → is_free_of sep a ≡ true → split sep a ≡ a ∷ []
unfolding split
split_free sep [] h = refl
split_free sep (c ∷ a) h = ground (arith, split_free sep a)

pub split-append :
    (sep : ℕ) (a b : Bytes) → is_free_of sep a ≡ true → split sep (a ++ sep ∷ b) ≡ a ∷ split sep b
unfolding split
split-append sep [] b h = ground arith
split-append sep (c ∷ a) b h = ground (arith, split-append sep a b)

pub contains-append :
    (xs ys : List Bytes) (a : Bytes) → contains (xs ++ ys) a ≡ (contains xs a || contains ys a)
unfolding contains
contains-append [] ys a = refl
contains-append (x ∷ xs) ys a = ground (arith, contains-append xs ys a)

-- What `cut` returns: the separator stands between the parts, and the first part is free of it.
pub cut_sound :
    (sep : ℕ) (s a b : Bytes)
    → cut sep s ≡ some (a, b)
    → (is_free_of sep a ≡ true) × (s ≡ a ++ sep ∷ b)
unfolding cut
cut_sound sep [] a b h = cc
cut_sound sep (c ∷ s) a b h = elim (Bool-cases (c == sep)) [
  | inl e ↦ ground arith
  | inr e ↦ elim (Option-cases (cut sep s)) [
    | inl n ↦ ground arith
    | inr ((a', b'), q) ↦ ground (arith, cut_sound sep s a' b' q)
  ]
]

pub split-join_comma :
    (sep : ℕ) (s : Bytes) (rest : List Bytes)
    → every (is_free_of sep) (s ∷ rest) ≡ true
    → split sep (join (sep ∷ []) (s ∷ rest)) ≡ s ∷ rest
unfolding join
split-join_comma sep s [] h = split_free sep s (ground arith)
split-join_comma sep s (t ∷ rest) h =
    split-append sep s (join (sep ∷ []) (t ∷ rest)) (ground arith)
    ∙ ap (λ l. s ∷ l) (split-join_comma sep t rest (ground arith))

trim_prefix_ne : (c d : ℕ) (s : Bytes) → (c == d) ≡ false → trim_prefix (c ∷ s) (d ∷ []) ≡ c ∷ s
unfolding trim_prefix
trim_prefix_ne c d s h = ground arith

-- A last byte other than the suffix's stays.
pub trim_suffix_ne :
    (s : Bytes) (c d : ℕ) → (c == d) ≡ false → trim_suffix (s ++ c ∷ []) (d ∷ []) ≡ s ++ c ∷ []
unfolding trim_suffix
trim_suffix_ne s c d h =
    ap (λ l. reverse (trim_prefix l (d ∷ []))) (reverse-append s (c ∷ []))
    ∙ ap reverse (trim_prefix_ne c d (reverse s) h)
    ∙ ap reverse (sym (reverse-append s (c ∷ [])))
    ∙ reverse-reverse (s ++ c ∷ [])
