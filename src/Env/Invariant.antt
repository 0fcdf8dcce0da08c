-- ===== src/Env/Invariant.antt =====
-- What holds of every store that the operations reach.
use claude_contained.Env.Store.{
  Origin, file, Entry, Store, EnvError, index_of, put, set, default, validate, validate_key,
  key_and_value, valid_key, key_reserved_always, reserved_in_file, is_file,
}
use claude_contained.Env.File.{
  load_file, load_lines, load_trimmed, trim_line, split_lines, is_claimed_by_flag,
}
use claude_contained.Env.Lookup.{keys, put-cons, keys-put}
use claude_contained.Base.{ℕ, ◌+◌, ◌≡◌, refl, sym, inl, inr}
use claude_contained.Base.{
  Bool, true, false, not, ◌&&◌, ◌||◌, Option, none, arith, Bool-cases, Option-cases, is_some,
}
use claude_contained.Base.{List, [], ◌∷◌, ◌++◌, is_nil, All}
use claude_contained.Base.{
  Bytes, bytes, same, same_iff, same_comm, has_prefix, cut, contains, contains-append,
}

-- The key is a name, the launcher does not own it, and if it came from the project file it is none of
-- those that only a flag may set.
abbrev pub IsAllowed : Entry → Type 0
IsAllowed e =
    (valid_key e.key ≡ true)
    × (key_reserved_always e.key ≡ false)
    × ((is_file e.origin && reserved_in_file e.key) ≡ false)

abbrev pub is_distinct : List Bytes → Bool
is_distinct [] = true
is_distinct (k ∷ ks) = not (contains ks k) && is_distinct ks

pub record IsWellFormed (s : Store) : Type 0 where
  pub distinct : is_distinct (keys s) ≡ true
  pub allowed : All IsAllowed s

pub data Operation : Type 0 where
  set_op default_op : Bytes → Bytes → Origin → Operation
  load_op : Bytes → Operation

abbrev pub apply : Operation → Store → Store × Option EnvError
apply (set_op assignment source origin) s = set s assignment source origin
apply (default_op assignment source origin) s = default s assignment source origin
apply (load_op content) s = load_file content s

-- The store after a sequence of operations, those that failed included.
abbrev pub run : List Operation → Store → Store
run [] s = s
run (o ∷ os) s = run os (apply o s).0

pub is_distinct-append :
    (ks : List Bytes) (k : Bytes)
    → is_distinct (ks ++ k ∷ []) ≡ (is_distinct ks && not (contains ks k))
unfolding contains
is_distinct-append [] k = refl
is_distinct-append (j ∷ ks) k =
    ground (arith, is_distinct-append ks k, contains-append ks (k ∷ []) j, same_comm j k)

All-put :
    (s : Store) (key value : Bytes) (origin : Origin)
    → All IsAllowed s
    → IsAllowed (record { key = key; value = value; origin = origin })
    → All IsAllowed (put s key value origin)
unfolding put
All-put [] key value origin h new = (new, tt)
All-put (e ∷ s) key value origin (h, hs) new = rw put-cons (elim (Bool-cases (same e.key key)) [
  | inl q ↦ rw q (rw (sym ((same_iff e.key key).0 q)) at new, hs)
  | inr q ↦ rw q (h, All-put s key value origin hs new)
])

put-IsWellFormed :
    (s : Store) (key value : Bytes) (origin : Origin)
    → IsWellFormed s
    → IsAllowed (record { key = key; value = value; origin = origin })
    → IsWellFormed (put s key value origin)
put-IsWellFormed s key value origin w new = record {
  distinct = rw keys-put (ground (arith, w.distinct, is_distinct-append (keys s) key));
  allowed = All-put s key value origin w.allowed new;
}

validate_key-IsAllowed :
    (key value source : Bytes) (origin : Origin)
    → validate_key key source origin ≡ none
    → IsAllowed (record { key = key; value = value; origin = origin })
unfolding validate_key
validate_key-IsAllowed key value source origin h = ground arith

validate-IsAllowed :
    (assignment source : Bytes) (origin : Origin)
    → validate assignment source origin ≡ none
    → let (key, value) = key_and_value assignment in
      IsAllowed (record { key = key; value = value; origin = origin })
unfolding validate key_and_value
validate-IsAllowed assignment source origin h = elim (Option-cases (cut b'=' assignment)) [
  | inl e ↦ ground arith
  | inr ((key, value), e) ↦
      rw (e, key_and_value) (validate_key-IsAllowed key value source origin (ground arith))
]

set-IsWellFormed :
    (s : Store) (assignment source : Bytes) (origin : Origin)
    → IsWellFormed s
    → IsWellFormed (set s assignment source origin).0
unfolding set
set-IsWellFormed s assignment source origin w =
    elim (Option-cases (validate assignment source origin)) [
      | inl e ↦
          rw (e, set)
            (put-IsWellFormed s _ _ origin w (validate-IsAllowed assignment source origin e))
      | inr (x, e) ↦ rw (e, set) w
    ]

default-IsWellFormed :
    (s : Store) (assignment source : Bytes) (origin : Origin)
    → IsWellFormed s
    → IsWellFormed (default s assignment source origin).0
unfolding default
default-IsWellFormed s assignment source origin w =
    elim (Bool-cases (is_some (index_of s (key_and_value assignment).0))) [
      | inl e ↦ rw (e, default) w
      | inr e ↦ rw (e, default) (set-IsWellFormed s assignment source origin w)
    ]

load_trimmed-IsWellFormed :
    (n : ℕ) (line : Bytes) (s : Store) → IsWellFormed s → IsWellFormed (load_trimmed n line s).0
unfolding load_trimmed
load_trimmed-IsWellFormed n line s w =
    elim (Bool-cases (is_nil line || has_prefix line (bytes "#"))) [
      | inl e ↦ rw (e, load_trimmed) w
      | inr e ↦
          rw (e, load_trimmed)
            (elim (Option-cases (cut b'=' line)) [
              | inl c ↦ rw (c, load_trimmed) w
              | inr ((key, value), c) ↦
                  rw (c, load_trimmed)
                    (elim (Bool-cases (is_claimed_by_flag s key)) [
                      | inl f ↦ rw (f, load_trimmed) w
                      | inr f ↦ rw (f, load_trimmed) (set-IsWellFormed s _ _ file w)
                    ])
            ])
    ]

load_lines-IsWellFormed :
    (n : ℕ) (lines : List Bytes) (s : Store)
    → IsWellFormed s
    → IsWellFormed (load_lines n lines s).0
unfolding load_lines
load_lines-IsWellFormed n [] s w = w
load_lines-IsWellFormed n (raw ∷ lines) s w =
    let w' = load_trimmed-IsWellFormed n (trim_line raw) s w in
    elim (Option-cases (load_trimmed n (trim_line raw) s).1) [
      | inl e ↦ rw (e, load_lines) (load_lines-IsWellFormed (n + 1) lines _ w')
      | inr (x, e) ↦ rw (e, load_lines) w'
    ]

apply-IsWellFormed : (o : Operation) (s : Store) → IsWellFormed s → IsWellFormed (apply o s).0
unfolding load_file
apply-IsWellFormed (set_op a source origin) s w = set-IsWellFormed s a source origin w
apply-IsWellFormed (default_op a source origin) s w = default-IsWellFormed s a source origin w
apply-IsWellFormed (load_op content) s w = load_lines-IsWellFormed 1 (split_lines content) s w

run-IsWellFormed_from : (os : List Operation) (s : Store) → IsWellFormed s → IsWellFormed (run os s)
run-IsWellFormed_from [] s w = w
run-IsWellFormed_from (o ∷ os) s w = run-IsWellFormed_from os _ (apply-IsWellFormed o s w)

-- Whatever is set, defaulted and loaded, in whatever order and with whatever failures, no key stands
-- twice in the store, each is a name that the launcher does not own, and none that came from the
-- project file is one of those that only a flag may set.
pub run-IsWellFormed : (os : List Operation) → IsWellFormed (run os [])
run-IsWellFormed os = run-IsWellFormed_from os [] (record { distinct = refl; allowed = tt })
