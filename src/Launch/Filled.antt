-- ===== src/Launch/Filled.antt =====
-- What `completeEnv` in cmd/claude-contained/run.go makes of the environment of the tool.
use claude_contained.Env.Store.{
  builtin, Entry, Store, EnvError, message, default, validate, validate_key, key_and_value,
  valid_key, is_key_byte, key_reserved_always,
}
use claude_contained.Env.File.{load_file}
use claude_contained.Env.Lookup.{get, keys, set_lem, is_some-index_of}
use claude_contained.Env.Precedence.{key_and_value-append}
use claude_contained.Launch.Environment.{
  ProjectFile, no_regular_file, unreadable_file, regular_file, load_result, load_project_file, fill,
  Completed, timezone_key, token_key, fill_token, fill_timezone, after_project_file, complete_env,
}
use claude_contained.Base.{ℕ, ◌≡◌, refl, sym, ap, ◌∙◌, inl, inr}
use claude_contained.Base.{
  true, false, not, ◌&&◌, Option, none, some, arith, if◌then◌else◌, Option-cases, is_some,
}
use claude_contained.Base.{[], ◌∷◌, ◌++◌, is_nil}
use claude_contained.Base.{Bytes, bytes, same, same_iff, has_prefix, cut, contains, is_free_of}

is_some-get : (s : Store) (key : Bytes) → is_some (get s key) ≡ contains (keys s) key
unfolding contains
is_some-get [] key = refl
is_some-get (e ∷ s) key = ground (arith, is_some-get s key)

-- What a default makes of the entry of a key.
abbrev default_entry : Bytes → Bytes → Bytes → Option Entry → Option Entry
default_entry key value j (some e) = some e
default_entry key value j none =
    if same key j then some (record { key = key; value = value; origin = builtin }) else none

default-get :
    (s : Store) (assignment source : Bytes) (j : Bytes)
    → validate assignment source builtin ≡ none
    → get (default s assignment source builtin).0 j
      ≡ default_entry (key_and_value assignment).0 (key_and_value assignment).1 j (get s j)
unfolding default
default-get s a source j v =
    let key = (key_and_value a).0 in
    let known = is_some-index_of s key ∙ sym (is_some-get s key) in
    elim (Option-cases (get s j)) [
      | inl n ↦ rw n (ground (arith, n, v, known, set_lem s a source builtin j, same_iff key j))
      | inr (e, n) ↦
          rw n (ground (arith, n, v, known, set_lem s a source builtin j, same_iff key j))
    ]

default-error :
    (s : Store) (assignment source : Bytes)
    → validate assignment source builtin ≡ none
    → (default s assignment source builtin).1 ≡ none
unfolding default
default-error s a source v = ground (arith, v, set_lem s a source builtin [])

-- What a built-in makes of the entry of a key.
abbrev pub filled : Bytes → Bytes → Bytes → Option Entry → Option Entry
filled key value j (some e) = some e
filled key value j none =
    if same key j && not (is_nil value)
    then some (record { key = key; value = value; origin = builtin })
    else none

filled-empty : (key j : Bytes) (o : Option Entry) → filled key [] j o ≡ o
filled-empty key j none = ground arith
filled-empty key j (some e) = refl

filled-cons :
    (key : Bytes) (c : ℕ) (value j : Bytes) (o : Option Entry)
    → default_entry key (c ∷ value) j o ≡ filled key (c ∷ value) j o
filled-cons key c value j none = ground arith
filled-cons key c value j (some e) = refl

fill-get :
    (key source value : Bytes) (s : Store) (j : Bytes)
    → ((v : Bytes) → validate (key ++ b'=' ∷ v) source builtin ≡ none)
    → is_free_of b'=' key ≡ true
    → ((fill key source value s).1 ≡ none)
      × (get (fill key source value s).0 j ≡ filled key value j (get s j))
unfolding fill default
fill-get key source [] s j v f = (refl, sym (filled-empty key j (get s j)))
fill-get key source (c ∷ value) s j v f =
    let a = key ++ b'=' ∷ c ∷ value in
    let here = default-get s a source j (v (c ∷ value)) in
    (
      default-error s a source (v (c ∷ value)),
      here
          ∙ ap (λ x. default_entry x.0 x.1 j (get s j)) (key_and_value-append key (c ∷ value) f)
          ∙ filled-cons key c value j (get s j),
    )

validate-token : (v source : Bytes) → validate (token_key ++ b'=' ∷ v) source builtin ≡ none
unfolding validate validate_key valid_key is_key_byte key_reserved_always cut has_prefix contains
    same
validate-token v source = refl

validate-timezone : (v source : Bytes) → validate (timezone_key ++ b'=' ∷ v) source builtin ≡ none
unfolding validate validate_key valid_key is_key_byte key_reserved_always cut has_prefix contains
    same
validate-timezone v source = refl

module _ (timezone gh_token : Bytes) where
  fill_token-get :
      (s : Store) (j : Bytes)
      → ((fill_token timezone gh_token s).code ≡ 0)
        × (get (fill_token timezone gh_token s).store j ≡ filled token_key gh_token j (get s j))
  unfolding fill_token
  fill_token-get s j =
      let (e, g) =
        fill-get token_key (bytes "CLAUDE_CONTAINED_GH_TOKEN") gh_token s j
          (λ v. validate-token v (bytes "CLAUDE_CONTAINED_GH_TOKEN")) refl in
      rw (e, fill_token) (refl, g)

  fill_timezone-get :
      (s : Store) (j : Bytes)
      → ((fill_timezone timezone gh_token s).code ≡ 0)
        × (get (fill_timezone timezone gh_token s).store j
            ≡ filled token_key gh_token j (filled timezone_key timezone j (get s j)))
  unfolding fill_timezone
  fill_timezone-get s j =
      let (e, g) =
        fill-get timezone_key (bytes "host timezone") timezone s j
          (λ v. validate-timezone v (bytes "host timezone")) refl in
      let s' = (fill timezone_key (bytes "host timezone") timezone s).0 in
      rw (e, fill_timezone)
        ((fill_token-get s' j).0, (fill_token-get s' j).1 ∙ ap (filled token_key gh_token j) g)

  -- Success, with the entries of a store and of the built-ins for the keys that it lacks.
  abbrev pub IsFilled : Store → Bytes → Completed → Type 0
  IsFilled s j c =
      (c.code ≡ 0)
      × (get c.store j ≡ filled token_key gh_token j (filled timezone_key timezone j (get s j)))

  -- The same for what a loading left, or the failure that its error makes.
  abbrev pub IsLoaded : Bytes → Store × Option EnvError → Completed → Type 0
  IsLoaded j (loaded, some e) c = c ≡ (record { store = loaded; code = 2; lines = message e ∷ [] })
  IsLoaded j (loaded, none) c = IsFilled loaded j c

  load_result-IsLoaded :
      (j : Bytes) (r : Store × Option EnvError)
      → IsLoaded j r (after_project_file timezone gh_token (load_result r))
  load_result-IsLoaded j (loaded, some e) = refl
  load_result-IsLoaded j (loaded, none) = fill_timezone-get loaded j

  -- What `complete_env` makes of a store: with --no-project-env, whatever stands at the place of the
  -- project file, and without a regular file there, it succeeds, every key keeps its entry, and of the
  -- keys without one the time zone and the token of the host, when they are not empty, get one. A regular
  -- file that cannot be read makes it fail with exit code 2 and one line, and the store is left as it
  -- was. Otherwise the file is loaded: an error of the loading makes it fail with exit code 2 and the
  -- message of the error, and the store is left as the loading leaves it; without an error the built-ins
  -- are filled into the loaded store.
  pub complete_env_lem :
      (file : ProjectFile) (text content : Bytes) (s : Store) (j : Bytes)
      → IsFilled s j (complete_env timezone gh_token true file s)
        × IsFilled s j (complete_env timezone gh_token false no_regular_file s)
        × (complete_env timezone gh_token false (unreadable_file text) s ≡ (record {
          store = s;
          code = 2;
          lines = (bytes "error: cannot read .claude-contained/env: " ++ text) ∷ [];
        }))
        × IsLoaded j
            (load_file content s)
            (complete_env timezone gh_token false (regular_file content) s)
  unfolding complete_env load_project_file
  complete_env_lem file text content s j = (
    fill_timezone-get s j,
    fill_timezone-get s j,
    refl,
    load_result-IsLoaded j (load_file content s),
  )
