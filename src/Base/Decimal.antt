-- ===== src/Base/Decimal.antt =====
-- Decimal numerals: what `%d` prints, and `strconv.Atoi` on a string of digits.
use claude_contained.Base.Tests.{
  ℕ, zero, suc, ◌+◌, ◌-◌, ◌*◌, ◌/◌, ◌%◌, ◌≤◌, ◌≡◌, refl, sym, ap, ◌∙◌, Bool, true, false, ◌&&◌,
  arith, ltb, leb, if◌then◌else◌,
}
use claude_contained.Base.Lists.{[], ◌∷◌, ◌++◌, is_nil, every, every-append}
use claude_contained.Base.Strings.{Bytes}

abbrev pub is_digit : ℕ → Bool
is_digit c = leb b'0' c && leb c b'9'

-- One digit for each round; `n` rounds are more than `n` has digits.
unfoldable pub decimal_within : ℕ → ℕ → Bytes
decimal_within zero n = (n + b'0') ∷ []
decimal_within (suc f) n =
    let more = decimal_within f (n / 10) ++ (n % 10 + b'0') ∷ [] in
    if ltb n 10 then (n + b'0') ∷ [] else more

unfoldable pub decimal : ℕ → Bytes
unfolding decimal_within
decimal n = decimal_within n n

unfoldable pub value_onto : ℕ → Bytes → ℕ
value_onto acc [] = acc
value_onto acc (c ∷ s) = value_onto (acc * 10 + (c - b'0')) s

unfoldable pub decimal_value : Bytes → ℕ
unfolding value_onto
decimal_value = value_onto 0

value_onto-append :
    (acc : ℕ) (s t : Bytes) → value_onto acc (s ++ t) ≡ value_onto (value_onto acc s) t
unfolding value_onto
value_onto-append acc [] t = refl
value_onto-append acc (c ∷ s) t = value_onto-append (acc * 10 + (c - b'0')) s t

value_onto-decimal_within : (f n : ℕ) → n ≤ f → value_onto 0 (decimal_within f n) ≡ n
unfolding value_onto decimal_within
value_onto-decimal_within zero n h = omega arith
value_onto-decimal_within (suc f) n h = ground (
  arith,
  value_onto-append 0 (decimal_within f (n / 10)) ((n % 10 + b'0') ∷ []),
  value_onto-decimal_within f (n / 10),
)

pub decimal_value-decimal : (n : ℕ) → decimal_value (decimal n) ≡ n
unfolding decimal_value decimal
decimal_value-decimal n = value_onto-decimal_within n n (omega arith)

pub decimal-injective : (m n : ℕ) → decimal m ≡ decimal n → m ≡ n
decimal-injective m n e =
    sym (decimal_value-decimal m) ∙ ap decimal_value e ∙ decimal_value-decimal n

decimal_within-is_digits : (f n : ℕ) → n ≤ f → every is_digit (decimal_within f n) ≡ true
unfolding decimal_within
decimal_within-is_digits zero n l = ground arith
decimal_within-is_digits (suc f) n l = ground (
  arith,
  every-append is_digit (decimal_within f (n / 10)) ((n % 10 + b'0') ∷ []),
  decimal_within-is_digits f (n / 10),
)

pub decimal-is_digits : (n : ℕ) → every is_digit (decimal n) ≡ true
unfolding decimal
decimal-is_digits n = decimal_within-is_digits n n (omega arith)

append-not_nil : (s : Bytes) (c : ℕ) → is_nil (s ++ c ∷ []) ≡ false
append-not_nil [] c = refl
append-not_nil (d ∷ s) c = refl

decimal_within-not_nil : (f n : ℕ) → is_nil (decimal_within f n) ≡ false
unfolding decimal_within
decimal_within-not_nil zero n = refl
decimal_within-not_nil (suc f) n =
    ground (arith, append-not_nil (decimal_within f (n / 10)) (n % 10 + b'0'))

pub decimal-not_nil : (n : ℕ) → is_nil (decimal n) ≡ false
unfolding decimal
decimal-not_nil n = decimal_within-not_nil n n
