-- ===== src/Env/Store.antt =====
-- internal/env/env.go: validation, and the ordered store with one entry for each key.
use claude_contained.Base.{ℕ, zero, suc}
use claude_contained.Base.{
  Bool, true, false, not, ◌&&◌, ◌||◌, Option, none, some, leb, ◌==◌, if◌then◌else◌, is_some,
}
use claude_contained.Base.{List, [], ◌∷◌, ◌++◌, map, is_nil, every, any}
use claude_contained.Base.{Bytes, bytes, same, has_prefix, cut, join, contains, is_digit}

pub data Origin : Type 0 where
  flag file builtin : Origin

pub record Pair : Type 0 where
  pub key : Bytes
  pub value : Bytes

pub record ResolvedPair : Type 0 where
  pub key : Bytes
  pub origin : Origin

pub record Entry : Type 0 where
  pub key : Bytes
  pub value : Bytes
  pub origin : Origin

abbrev pub Store : Type 0
Store = List Entry

-- The four errors of `validate`, each with what its text names.
pub data EnvError : Type 0 where
  no_assignment bad_name reserved reserved_for_file : Bytes → Bytes → EnvError

abbrev pub message : EnvError → Bytes
message (no_assignment source assignment) =
    bytes "error: " ++ source ++ bytes ": expected KEY=VALUE, got '" ++ assignment ++ bytes "'"
message (bad_name source key) =
    bytes "error: "
    ++ source
    ++ bytes ": not a valid environment variable name: '"
    ++ key
    ++ bytes "'"
message (reserved source key) =
    bytes "error: "
    ++ source
    ++ bytes ": "
    ++ key
    ++ bytes " is reserved by claude-contained and cannot be set"
message (reserved_for_file source key) =
    bytes "error: "
    ++ source
    ++ bytes ": "
    ++ key
    ++ bytes " cannot be set from a project env file\n"
    ++ bytes "       It is read by the sandbox wrapper itself; pass -e "
    ++ key
    ++ bytes "=... if you mean it."

abbrev pub explicit_keys_marker : Bytes
explicit_keys_marker = bytes "CLAUDE_CONTAINED_EXPLICIT_ENV_KEYS"

abbrev pub is_flag : Origin → Bool
is_flag flag = true
is_flag file = false
is_flag builtin = false

abbrev pub is_file : Origin → Bool
is_file flag = false
is_file file = true
is_file builtin = false

abbrev reserved_always_prefixes : List Bytes
reserved_always_prefixes = bytes "HOST_" ∷ bytes "SRT_" ∷ bytes "CLAUDE_CONTAINED_" ∷ []

abbrev reserved_always_exact : List Bytes
reserved_always_exact =
    bytes "STAY_ROOT"
    ∷ bytes "SSH_AUTH_SOCK"
    ∷ bytes "GIT_PROTECT_DIRS"
    ∷ bytes "HOME"
    ∷ bytes "PATH"
    ∷ []

-- The keys that only a project env file may not set.
unfoldable pub reserved_in_file : Bytes → Bool
reserved_in_file key =
    contains (bytes "LD_PRELOAD" ∷ bytes "LD_LIBRARY_PATH" ∷ bytes "NODE_OPTIONS" ∷ []) key

unfoldable pub key_reserved_always : Bytes → Bool
key_reserved_always key =
    any (has_prefix key) reserved_always_prefixes || contains reserved_always_exact key

-- One round of the loop of `validKey`; the flag is `i > 0`.
unfoldable pub is_key_byte : Bool → ℕ → Bool
is_key_byte later c =
    leb b'A' c && leb c b'Z' || leb b'a' c && leb c b'z' || c == b'_' || is_digit c && later

unfoldable pub valid_key : Bytes → Bool
unfolding is_key_byte
valid_key [] = false
valid_key (c ∷ rest) = is_key_byte false c && every (is_key_byte true) rest

-- The last three checks of `validate`, in order.
unfoldable pub validate_key : Bytes → Bytes → Origin → Option EnvError
validate_key key source origin =
    if not (valid_key key)
    then some (bad_name source key)
    else if key_reserved_always key
    then some (reserved source key)
    else if is_file origin && reserved_in_file key
    then some (reserved_for_file source key)
    else none

unfoldable pub validate : Bytes → Bytes → Origin → Option EnvError
unfolding validate_key
validate assignment source origin = elim (cut b'=' assignment) [
  | none ↦ some (no_assignment source assignment)
  | some (key, value) ↦ validate_key key source origin
]

-- `strings.Cut` with both results used whether or not the separator was found.
unfoldable pub key_and_value : Bytes → Bytes × Bytes
key_and_value assignment = elim (cut b'=' assignment) [
  | none ↦ (assignment, [])
  | some (key, value) ↦ (key, value)
]

unfoldable pub index_of : Store → Bytes → Option ℕ
index_of [] key = none
index_of (e ∷ s) key =
    let rest = index_of s key in
    if same e.key key then some 0 else elim rest [ none ↦ none | some i ↦ some (suc i) ]

-- `s.entries[i].value = value; s.entries[i].origin = origin`
unfoldable pub assign : Store → ℕ → Bytes → Origin → Store
assign [] i value origin = []
assign (e ∷ s) zero value origin = record e { value = value; origin = origin } ∷ s
assign (e ∷ s) (suc i) value origin = e ∷ assign s i value origin

-- What `Set` does with an assignment that passed.
unfoldable pub put : Store → Bytes → Bytes → Origin → Store
unfolding index_of assign
put s key value origin = elim (index_of s key) [
  | some i ↦ assign s i value origin
  | none ↦ s ++ record { key = key; value = value; origin = origin } ∷ []
]

-- The store behind the pointer after the call, and the error returned.
unfoldable pub set : Store → Bytes → Bytes → Origin → Store × Option EnvError
set s assignment source origin = elim (validate assignment source origin) [
  | some e ↦ (s, some e)
  | none ↦ (put s (key_and_value assignment).0 (key_and_value assignment).1 origin, none)
]

unfoldable pub default : Store → Bytes → Bytes → Origin → Store × Option EnvError
default s assignment source origin =
    if is_some (index_of s (key_and_value assignment).0)
    then (s, none)
    else set s assignment source origin

abbrev pub pairs : Store → List Pair
pairs = map (λ e. record { key = e.key; value = e.value })

abbrev pub diagnostic_pairs : Store → List ResolvedPair
diagnostic_pairs = map (λ e. record { key = e.key; origin = e.origin })

unfoldable pub explicit_keys_value : List Pair → Bytes
explicit_keys_value ps = join (bytes ",") (map (λ p. p.key) ps)

-- The two lists that `Summary` collects.
unfoldable pub keys_from : (Origin → Bool) → Store → List Bytes
keys_from test [] = []
keys_from test (e ∷ s) = let rest = keys_from test s in if test e.origin then e.key ∷ rest else rest

unfoldable pub summary_of : List Bytes → List Bytes → Bytes
summary_of from_flags from_file =
    if is_nil from_flags && is_nil from_file
    then []
    else bytes "env:"
      ++ (if is_nil from_flags
          then []
          else bytes " " ++ join (bytes ", ") from_flags ++ bytes " (--env)")
      ++ (if not (is_nil from_flags) && not (is_nil from_file) then bytes ";" else [])
      ++ (if is_nil from_file
          then []
          else bytes " " ++ join (bytes ", ") from_file ++ bytes " (.claude-contained/env)")

unfoldable pub summary : Store → Bytes
unfolding summary_of keys_from
summary s = summary_of (keys_from is_flag s) (keys_from is_file s)
