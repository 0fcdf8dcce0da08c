-- ===== src/Runtime/Selection.antt =====
-- The choice of a container runtime in internal/runtime/runtime.go, and how internal/runtime/diagnostic.go
-- reports it. Lowercasing is a parameter.
use claude_contained.Runtime.Render.{Platform, darwin, linux, other_platform}
use claude_contained.Base.{◌≡◌, refl, ap, inl, inr}
use claude_contained.Base.{
  Bool, true, false, not, ◌&&◌, ◌||◌, Option, none, some, ◌==◌, if◌then◌else◌, Bool-cases,
}
use claude_contained.Base.{List, [], ◌∷◌, ◌++◌, is_nil}
use claude_contained.Base.{Bytes, bytes, same, same_iff, has_prefix}

-- A runtime that is chosen; both are built for the platform of the selection.
pub data RuntimeName : Type 0 where
  apple docker : RuntimeName

abbrev pub name_of : RuntimeName → Bytes
name_of apple = bytes "apple"
name_of docker = bytes "docker"

pub record Selection : Type 0 where
  pub flag : Bytes
  pub env : Bytes
  pub argv0 : Bytes
  pub platform : Platform

abbrev pub is_darwin : Platform → Bool
is_darwin darwin = true
is_darwin linux = false
is_darwin other_platform = false

-- `baseName`: what stands behind the last slash.
unfoldable pub behind_last_slash : Bytes → Bytes → Bytes
behind_last_slash found [] = found
behind_last_slash found (c ∷ s) =
    let rest = behind_last_slash s s in
    let on = behind_last_slash found s in if c == b'/' then rest else on

-- `strings.Contains`
unfoldable pub has_substring : Bytes → Bytes → Bool
unfolding has_prefix
has_substring [] p = has_prefix [] p
has_substring (c ∷ s) p = has_prefix (c ∷ s) p || has_substring s p

pub data SelectionSource : Type 0 where
  from_flag from_environment from_argv0 from_platform : SelectionSource

pub record SelectionDiagnostic : Type 0 where
  pub runtime : Bytes
  pub source : SelectionSource
  pub valid : Bool

module _ (to_lower : Bytes → Bytes) where
  unfoldable pub by_name : Bytes → Option RuntimeName
  unfolding same
  by_name name =
      if same (to_lower name) (name_of apple)
      then some apple
      else if same (to_lower name) (name_of docker)
      then some docker
      else none

  abbrev pub says_dock : Bytes → Bool
  says_dock argv0 = has_substring (to_lower (behind_last_slash argv0 argv0)) (bytes "dock")

  abbrev pub default_runtime : Selection → RuntimeName
  default_runtime s =
      if says_dock s.argv0 then docker else if is_darwin s.platform then apple else docker

  abbrev or_else : Option RuntimeName → RuntimeName → RuntimeName
  or_else (some r) other = r
  or_else none other = other

  unfoldable pub select : Selection → RuntimeName
  unfolding by_name has_substring behind_last_slash
  select s = or_else (by_name s.flag) (or_else (by_name s.env) (default_runtime s))

  abbrev pub apple_only_on_macos : List Bytes
  apple_only_on_macos =
      bytes "error: the apple container runtime is available only on macOS"
      ∷ bytes "       use --container-runtime=docker or CLAUDE_CONTAINED_RUNTIME=docker"
      ∷ []

  -- The lines of the error, if there is one.
  unfoldable pub validate_runtime_name : Bytes → Bytes → Platform → Option (List Bytes)
  unfolding same
  validate_runtime_name source value p =
      if same (to_lower value) (name_of docker)
      then none
      else if same (to_lower value) (name_of apple)
      then (if is_darwin p then none else some apple_only_on_macos)
      else some
          ((bytes "error: " ++ (source ++ (bytes " must be apple or docker: " ++ value))) ∷ [])

  unfoldable pub validate_selection : Selection → Option (List Bytes)
  unfolding validate_runtime_name
  validate_selection s =
      if not (is_nil s.flag)
      then validate_runtime_name (bytes "--container-runtime") s.flag s.platform
      else if not (is_nil s.env)
      then validate_runtime_name (bytes "CLAUDE_CONTAINED_RUNTIME") s.env s.platform
      else none

  unfoldable pub diagnostic_runtime_name : Bytes → Platform → Bytes × Bool
  unfolding same
  diagnostic_runtime_name value p =
      if same (to_lower value) (name_of docker)
      then (name_of docker, true)
      else if same (to_lower value) (name_of apple)
      then (name_of apple, is_darwin p)
      else ([], false)

  abbrev pub reported : SelectionSource → Bytes × Bool → SelectionDiagnostic
  reported source (name, valid) = record { runtime = name; source = source; valid = valid }

  unfoldable pub diagnostic_selection : Selection → SelectionDiagnostic
  unfolding diagnostic_runtime_name has_substring behind_last_slash
  diagnostic_selection s =
      if not (is_nil s.flag)
      then reported from_flag (diagnostic_runtime_name s.flag s.platform)
      else if not (is_nil s.env)
      then reported from_environment (diagnostic_runtime_name s.env s.platform)
      else if says_dock s.argv0
      then reported from_argv0 (name_of docker, true)
      else reported from_platform
          (if is_darwin s.platform then name_of apple else name_of docker, true)

  -- What the report of a selection is to say of the runtime and of the errors.
  abbrev pub Agrees : Platform → Option (List Bytes) → RuntimeName → SelectionDiagnostic → Type 0
  Agrees p (some lines) r d = d.valid ≡ false
  Agrees p none r d =
      (d.valid ≡ true)
      × (d.runtime ≡ name_of r)
      × ((same (name_of r) (name_of apple) && not (is_darwin p)) ≡ false)

  named-Agrees :
      (src : SelectionSource) (source value : Bytes) (p : Platform) (other : RuntimeName)
      → Agrees p
          (validate_runtime_name source value p)
          (or_else (by_name value) other)
          (reported src (diagnostic_runtime_name value p))
  unfolding validate_runtime_name by_name diagnostic_runtime_name same
  named-Agrees src source value p other =
      elim (Bool-cases (same (to_lower value) (name_of docker))) [
        | inl d ↦ rw ((same_iff (to_lower value) (name_of docker)).0 d) (refl, refl, refl)
        | inr d ↦ elim (Bool-cases (same (to_lower value) (name_of apple))) [
          | inl a ↦
              rw ((same_iff (to_lower value) (name_of apple)).0 a)
                (elim (Bool-cases (is_darwin p)) [
                  | inl m ↦ rw m (refl, refl, ap not m)
                  | inr m ↦ rw m refl
                ])
          | inr a ↦ rw (d, a) refl
        ]
      ]

  by_name-empty : to_lower [] ≡ [] → by_name [] ≡ none
  unfolding by_name same
  by_name-empty h = rw h refl

  default-Agrees :
      (s : Selection)
      → Agrees s.platform none (default_runtime s) (
          if says_dock s.argv0
          then reported from_argv0 (name_of docker, true)
          else reported from_platform
              (if is_darwin s.platform then name_of apple else name_of docker, true))
  unfolding same
  default-Agrees s = elim (Bool-cases (says_dock s.argv0)) [
    | inl k ↦ rw k (refl, refl, refl)
    | inr k ↦ elim (Bool-cases (is_darwin s.platform)) [
      | inl m ↦ rw (k, m) (refl, refl, refl)
      | inr m ↦ rw (k, m) (refl, refl, refl)
    ]
  ]

  no_name : (name : Bytes) → is_nil name ≡ true → to_lower [] ≡ [] → by_name name ≡ none
  no_name [] n h = by_name-empty h
  no_name (c ∷ name) n h = cc

  -- The report of a selection agrees with what is done: it is invalid exactly when the selection is
  -- refused, and else it tells the runtime that is chosen, which is Apple Containers only on macOS.
  pub diagnostic_selection-Agrees :
      (s : Selection)
      → to_lower [] ≡ []
      → Agrees s.platform (validate_selection s) (select s) (diagnostic_selection s)
  unfolding validate_selection select diagnostic_selection
  diagnostic_selection-Agrees s h = elim (Bool-cases (is_nil s.flag)) [
    | inr f ↦ rw f (
        named-Agrees from_flag (bytes "--container-runtime") s.flag s.platform
          (or_else (by_name s.env) (default_runtime s)))
    | inl f ↦ elim (Bool-cases (is_nil s.env)) [
      | inr e ↦
          rw (f, e, no_name s.flag f h)
            (named-Agrees from_environment (bytes "CLAUDE_CONTAINED_RUNTIME") s.env s.platform
              (default_runtime s))
      | inl e ↦ rw (f, e, no_name s.flag f h, no_name s.env e h) (default-Agrees s)
    ]
  ]
