-- ===== src/Env/RoundTrip.antt =====
-- internal/env/parse.go: a project file written with one quoted assignment to a line.
use claude_contained.Env.Store.{
  file, Entry, Store, Pair, index_of, put, set, validate, validate_key, valid_key,
  key_reserved_always, reserved_in_file, is_key_byte,
}
use claude_contained.Env.File.{
  load_file, load_lines, load_trimmed, trim_line, split_lines, source_of_line, strip_one_pair,
  is_claimed_by_flag, drop_last_empty, is_posix_space, last_byte, without_last,
}
use claude_contained.Env.Lookup.{keys, put-cons}
use claude_contained.Env.Precedence.{key_and_value-append}
use claude_contained.Env.Keys.{valid_key-is_free_of}
use claude_contained.Env.Invariant.{is_distinct}
use claude_contained.Base.{ℕ, ◌+◌, ◌≡◌, refl, sym, ap, ◌∙◌, ◌⊎◌, inl}
use claude_contained.Base.{true, false, not, none, arith, ◌==◌}
use claude_contained.Base.{
  List, [], ◌∷◌, ◌++◌, map, append-nil, append_assoc, is_nil, All, every-append,
}
use claude_contained.Base.{
  Bytes, bytes, same_comm, has_prefix, trim_suffix, trim_left, split, contains, is_free_of,
  cut-append, split-append, contains-append, trim_suffix_ne,
}

-- A key that the file may set, with a value on one line.
abbrev pub IsWritable : Pair → Type 0
IsWritable p =
    (valid_key p.key ≡ true)
    × (key_reserved_always p.key ≡ false)
    × (reserved_in_file p.key ≡ false)
    × (is_free_of b'\n' p.value ≡ true)

abbrev pub written_line : Pair → Bytes
written_line p = p.key ++ b'=' ∷ b'"' ∷ (p.value ++ b'"' ∷ [])

abbrev pub written_file : List Pair → Bytes
written_file [] = []
written_file (p ∷ ps) = written_line p ++ b'\n' ∷ written_file ps

abbrev pub pair_keys : List Pair → List Bytes
pair_keys = map (λ p. p.key)

abbrev pub from_file : Pair → Entry
from_file p = record { key = p.key; value = p.value; origin = file }

last_byte-append : (c : ℕ) (s : Bytes) (d : ℕ) → last_byte c (s ++ d ∷ []) ≡ d
unfolding last_byte
last_byte-append c [] d = refl
last_byte-append c (x ∷ s) d = last_byte-append x s d

without_last-append : (c : ℕ) (s : Bytes) (d : ℕ) → without_last c (s ++ d ∷ []) ≡ c ∷ s
unfolding without_last
without_last-append c [] d = refl
without_last-append c (x ∷ s) d = ap (λ l. c ∷ l) (without_last-append x s d)

-- One pair of quotes is taken off, whatever stands between them.
pub strip_one_pair_quoted :
    (q : ℕ) (v : Bytes) → (q ≡ b'"') ⊎ (q ≡ 0x27) → strip_one_pair (q ∷ (v ++ q ∷ [])) ≡ v
unfolding strip_one_pair
strip_one_pair_quoted q [] h = ground arith
strip_one_pair_quoted q (c ∷ v) h =
    rw (last_byte-append c v q, without_last-append c v q) (ground arith)

written_line-is_free_of : (p : Pair) → IsWritable p → is_free_of b'\n' (written_line p) ≡ true
unfolding is_key_byte
written_line-is_free_of p h = ground (
  arith,
  every-append (λ c. not (c == b'\n')) p.key (b'=' ∷ b'"' ∷ (p.value ++ b'"' ∷ [])),
  every-append (λ c. not (c == b'\n')) p.value (b'"' ∷ []),
  valid_key-is_free_of p.key b'\n' h.0 refl,
)

split-written_file :
    (ps : List Pair)
    → All IsWritable ps
    → split b'\n' (written_file ps) ≡ map written_line ps ++ [] ∷ []
unfolding split
split-written_file [] h = refl
split-written_file (p ∷ ps) (h, hs) =
    split-append b'\n' (written_line p) (written_file ps) (written_line-is_free_of p h)
    ∙ ap (λ l. written_line p ∷ l) (split-written_file ps hs)

drop_last_empty-append : (ls : List Bytes) → drop_last_empty (ls ++ [] ∷ []) ≡ ls
unfolding drop_last_empty
drop_last_empty-append [] = refl
drop_last_empty-append (l ∷ []) = refl
drop_last_empty-append (l ∷ m ∷ ls) = ap (λ r. l ∷ r) (drop_last_empty-append (m ∷ ls))

is_nil-append : (k : Bytes) (c : ℕ) (s : Bytes) → is_nil (k ++ c ∷ s) ≡ false
is_nil-append [] c s = refl
is_nil-append (d ∷ k) c s = refl

split_lines-written_file :
    (ps : List Pair) → All IsWritable ps → split_lines (written_file ps) ≡ map written_line ps
unfolding split_lines
split_lines-written_file [] h = refl
split_lines-written_file (p ∷ ps) h =
    rw (is_nil-append (written_line p) b'\n' (written_file ps), split_lines)
      (ap drop_last_empty (split-written_file (p ∷ ps) h)
        ∙ drop_last_empty-append (map written_line (p ∷ ps)))

trim_left_name : (k s : Bytes) → valid_key k ≡ true → trim_left is_posix_space (k ++ s) ≡ k ++ s
unfolding trim_left valid_key is_key_byte
trim_left_name [] s h = cc
trim_left_name (c ∷ k) s h = ground arith

not_comment : (k s : Bytes) → valid_key k ≡ true → has_prefix (k ++ s) (bytes "#") ≡ false
unfolding has_prefix valid_key is_key_byte
not_comment [] s h = cc
not_comment (c ∷ k) s h = ground arith

-- A line that starts with a name and ends with a quote has nothing to trim.
trim_line-written_line : (p : Pair) → IsWritable p → trim_line (written_line p) ≡ written_line p
unfolding trim_line
trim_line-written_line p h =
    let unquoted : Bytes = p.key ++ b'=' ∷ b'"' ∷ p.value in
    let e : unquoted ++ b'"' ∷ [] ≡ written_line p =
      append_assoc p.key (b'=' ∷ b'"' ∷ p.value) (b'"' ∷ []) in
    ap (trim_left is_posix_space)
      (ap (λ l. trim_suffix l (bytes "\r")) (sym e) ∙ trim_suffix_ne unquoted b'"' b'\r' refl ∙ e)
    ∙ trim_left_name p.key _ h.0

put_new :
    (s : Store) (p : Pair)
    → contains (keys s) p.key ≡ false
    → put s p.key p.value file ≡ s ++ from_file p ∷ []
unfolding put contains
put_new [] p new = refl
put_new (e ∷ s) p new = rw put-cons (ground (arith, put_new s p))

unclaimed :
    (s : Store) (key : Bytes) → contains (keys s) key ≡ false → is_claimed_by_flag s key ≡ false
unfolding is_claimed_by_flag index_of contains
unclaimed [] key new = refl
unclaimed (e ∷ s) key new = ground (arith, unclaimed s key)

validate-written :
    (p : Pair) (value source : Bytes)
    → IsWritable p
    → validate (p.key ++ b'=' ∷ value) source file ≡ none
unfolding validate validate_key is_key_byte
validate-written p value source h =
    rw (cut-append b'=' p.key value (valid_key-is_free_of p.key b'=' h.0 refl), validate)
      (ground arith)

set-written :
    (s : Store) (p : Pair) (source : Bytes)
    → IsWritable p
    → contains (keys s) p.key ≡ false
    → set s (p.key ++ b'=' ∷ p.value) source file ≡ (s ++ from_file p ∷ [], none)
unfolding set is_key_byte
set-written s p source h new = ground (
  arith,
  validate-written p p.value source h,
  key_and_value-append p.key p.value (valid_key-is_free_of p.key b'=' h.0 refl),
  put_new s p new,
)

load_trimmed-written_line :
    (n : ℕ) (p : Pair) (s : Store)
    → IsWritable p
    → contains (keys s) p.key ≡ false
    → load_trimmed n (written_line p) s ≡ (s ++ from_file p ∷ [], none)
unfolding load_trimmed is_key_byte
load_trimmed-written_line n p s h new =
    let quoted : Bytes = b'"' ∷ (p.value ++ b'"' ∷ []) in
    let named = valid_key-is_free_of p.key b'=' h.0 refl in
    rw (is_nil-append p.key b'=' quoted, load_trimmed)
      (rw (not_comment p.key (b'=' ∷ quoted) h.0, load_trimmed)
        (rw (cut-append b'=' p.key quoted named, load_trimmed)
          (rw (unclaimed s p.key new, load_trimmed)
            (rw (strip_one_pair_quoted b'"' p.value (inl refl))
              (set-written s p (source_of_line n) h new)))))

distinct_middle :
    (ks : List Bytes) (k : Bytes) (rest : List Bytes)
    → is_distinct (ks ++ k ∷ rest) ≡ true
    → contains ks k ≡ false
unfolding contains
distinct_middle [] k rest h = refl
distinct_middle (j ∷ ks) k rest h =
    ground (arith, distinct_middle ks k rest, contains-append ks (k ∷ rest) j, same_comm j k)

keys-snoc :
    (s : Store) (p : Pair) (rest : List Bytes)
    → keys (s ++ from_file p ∷ []) ++ rest ≡ keys s ++ p.key ∷ rest
keys-snoc [] p rest = refl
keys-snoc (e ∷ s) p rest = ap (λ l. e.key ∷ l) (keys-snoc s p rest)

load_lines-step :
    (n : ℕ) (raw : Bytes) (lines : List Bytes) (s t : Store)
    → load_trimmed n (trim_line raw) s ≡ (t, none)
    → load_lines n (raw ∷ lines) s ≡ load_lines (n + 1) lines t
unfolding load_lines
load_lines-step n raw lines s t h = ground arith

load_lines-written :
    (n : ℕ) (ps : List Pair) (s : Store)
    → All IsWritable ps
    → is_distinct (keys s ++ pair_keys ps) ≡ true
    → load_lines n (map written_line ps) s ≡ (s ++ map from_file ps, none)
unfolding load_lines
load_lines-written n [] s h d = ap (λ l. (l, none)) (sym (append-nil s))
load_lines-written n (p ∷ ps) s (h, hs) d =
    let new = distinct_middle (keys s) p.key (pair_keys ps) d in
    load_lines-step n (written_line p) (map written_line ps) s (s ++ from_file p ∷ [])
      (rw (trim_line-written_line p h) (load_trimmed-written_line n p s h new))
    ∙ load_lines-written (n + 1) ps (s ++ from_file p ∷ []) hs (rw (keys-snoc s p (pair_keys ps)) d)
    ∙ ap (λ l. (l, none)) (append_assoc s (from_file p ∷ []) (map from_file ps))

-- A project file with one line KEY="VALUE" for each of some pairs, whose keys are distinct and may
-- come from a file and whose values have no newline, loads into the empty store without an error, and
-- the store then holds those pairs in order. Any other byte may stand in a value, quotes too.
pub load_file-written_file :
    (ps : List Pair)
    → All IsWritable ps
    → is_distinct (pair_keys ps) ≡ true
    → load_file (written_file ps) [] ≡ (map from_file ps, none)
unfolding load_file
load_file-written_file ps h d = rw (split_lines-written_file ps h) (load_lines-written 1 ps [] h d)
