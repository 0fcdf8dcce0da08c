-- ===== src/Env/Keys.antt =====
-- What leaves the store: the list of explicit keys, and the summary.
use claude_contained.Env.Store.{
  Origin, Store, ResolvedPair, pairs, diagnostic_pairs, explicit_keys_value, keys_from, summary,
  is_flag, is_file, valid_key, is_key_byte,
}
use claude_contained.Env.Lookup.{keys}
use claude_contained.Env.Invariant.{IsAllowed, Operation, run, run-IsWellFormed}
use claude_contained.Base.{ℕ, ◌≡◌, refl, ap, ◌≢◌}
use claude_contained.Base.{Bool, true, false, arith, ◌==◌, if◌then◌else◌}
use claude_contained.Base.{List, [], ◌∷◌, map, All, every}
use claude_contained.Base.{Bytes, split, is_free_of, split-join_comma}

is_key_byte_excludes :
    (later : Bool) (c d : ℕ)
    → is_key_byte later c ≡ true
    → is_key_byte true d ≡ false
    → (c == d) ≡ false
unfolding is_key_byte
is_key_byte_excludes later c d h q = ground arith

every_key_byte-is_free_of :
    (s : Bytes) (d : ℕ)
    → every (is_key_byte true) s ≡ true
    → is_key_byte true d ≡ false
    → is_free_of d s ≡ true
every_key_byte-is_free_of [] d h q = refl
every_key_byte-is_free_of (c ∷ s) d h q =
    ground (arith, is_key_byte_excludes true c d, every_key_byte-is_free_of s d)

-- A valid name has none of the bytes that names are not made of.
pub valid_key-is_free_of :
    (key : Bytes) (d : ℕ)
    → valid_key key ≡ true
    → is_key_byte true d ≡ false
    → is_free_of d key ≡ true
unfolding valid_key
valid_key-is_free_of [] d h q = cc
valid_key-is_free_of (c ∷ s) d h q =
    ground (arith, is_key_byte_excludes false c d, every_key_byte-is_free_of s d)

keys-are_free : (s : Store) → All IsAllowed s → every (is_free_of b',') (keys s) ≡ true
unfolding is_key_byte
keys-are_free [] h = refl
keys-are_free (e ∷ s) (h, hs) =
    ground (arith, valid_key-is_free_of e.key b',' h.0 refl, keys-are_free s hs)

map-pairs : (s : Store) → map (λ p. p.key) (pairs s) ≡ keys s
map-pairs [] = refl
map-pairs (e ∷ s) = ap (λ l. e.key ∷ l) (map-pairs s)

split-explicit_keys :
    (s : Store) → All IsAllowed s → s ≢ [] → split b',' (explicit_keys_value (pairs s)) ≡ keys s
unfolding explicit_keys_value
split-explicit_keys [] h ne = absurd (ne refl)
split-explicit_keys (e ∷ s) h ne =
    rw map-pairs (split-join_comma b',' e.key (keys s) (keys-are_free (e ∷ s) h))

-- Splitting the serialized keys at the commas gives back the keys of the store in their order, for
-- every store that the operations reach and that is not empty.
pub split-explicit_keys_value :
    (os : List Operation)
    → run os [] ≢ []
    → split b',' (explicit_keys_value (pairs (run os []))) ≡ keys (run os [])
split-explicit_keys_value os ne = split-explicit_keys (run os []) (run-IsWellFormed os).allowed ne

abbrev resolved_from : (Origin → Bool) → List ResolvedPair → List Bytes
resolved_from test [] = []
resolved_from test (p ∷ ps) =
    let rest = resolved_from test ps in if test p.origin then p.key ∷ rest else rest

keys_from-diagnostic_pairs :
    (test : Origin → Bool) (s : Store) → keys_from test s ≡ resolved_from test (diagnostic_pairs s)
unfolding keys_from
keys_from-diagnostic_pairs test [] = refl
keys_from-diagnostic_pairs test (e ∷ s) = ground (arith, keys_from-diagnostic_pairs test s)

-- Two stores that differ at most in the values have the same summary: no value reaches the terminal.
pub summary_ignores_values :
    (s t : Store) → diagnostic_pairs s ≡ diagnostic_pairs t → summary s ≡ summary t
unfolding summary
summary_ignores_values s t h = rw (
  keys_from-diagnostic_pairs is_flag s,
  keys_from-diagnostic_pairs is_file s,
  keys_from-diagnostic_pairs is_flag t,
  keys_from-diagnostic_pairs is_file t,
  h,
)
