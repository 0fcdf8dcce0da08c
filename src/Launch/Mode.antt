-- ===== src/Launch/Mode.antt =====
-- `splitMountMode` in cmd/claude-contained/run.go, and the loop of `runWith` over the extra mounts.
use claude_contained.Base.{◌≡◌, refl, ap}
use claude_contained.Base.{Bool, true, false, Option, none, some, if◌then◌else◌}
use claude_contained.Base.{List, [], ◌∷◌, ◌++◌, reverse, reverse-append, reverse-reverse, is_nil}
use claude_contained.Base.{
  Bytes, bytes, same, has_prefix, trim_suffix, has_prefix-append, trim_prefix-append,
}

abbrev pub has_suffix : Bytes → Bytes → Bool
has_suffix s p = has_prefix (reverse s) (reverse p)

-- The path and the mode, before a mode that is missing is filled in.
unfoldable pub cut_mode : Bytes → Bytes × Bytes
unfolding has_prefix trim_suffix
cut_mode spec =
    if has_suffix spec (bytes ":ro")
    then (trim_suffix spec (bytes ":ro"), bytes "ro")
    else if has_suffix spec (bytes ":rw")
    then (trim_suffix spec (bytes ":rw"), bytes "rw")
    else (spec, [])

-- None is the usage error on a project directory that is read-only.
unfoldable pub split_mount_mode : Bytes → Bool → Bool → Option (Bytes × Bytes)
unfolding cut_mode same
split_mount_mode spec is_project readonly_default =
    let (path, mode) = cut_mode spec in
    if is_project
    then (if same mode (bytes "ro") then none else some (path, bytes "rw"))
    else if is_nil mode
    then some (path, if readonly_default then bytes "ro" else bytes "rw")
    else some (path, mode)

-- The two parallel lists of the source as one.
unfoldable pub split_mounts : (Bytes → Bytes) → Bool → List Bytes → Option (List (Bytes × Bytes))
unfolding split_mount_mode
split_mounts resolve readonly_default [] = some []
split_mounts resolve readonly_default (m ∷ ms) =
    let rest = split_mounts resolve readonly_default ms in
    elim (split_mount_mode m false readonly_default) [
      | none ↦ none
      | some (path, mode) ↦ elim (rest) [
        | none ↦ none
        | some mounts ↦ some ((resolve path, mode) ∷ mounts)
      ]
    ]

has_suffix-append : (s p : Bytes) → has_suffix (s ++ p) p ≡ true
has_suffix-append s p = rw (reverse-append s p) (has_prefix-append (reverse p) (reverse s))

trim_suffix-append : (s p : Bytes) → trim_suffix (s ++ p) p ≡ s
unfolding trim_suffix
trim_suffix-append s p =
    rw (reverse-append s p, trim_prefix-append (reverse p) (reverse s)) (reverse-reverse s)

has_suffix_rw-ro : (s : Bytes) → has_suffix (s ++ bytes ":rw") (bytes ":ro") ≡ false
unfolding has_prefix
has_suffix_rw-ro s = rw (reverse-append s (bytes ":rw")) refl

cut_mode-ro : (path : Bytes) → cut_mode (path ++ bytes ":ro") ≡ (path, bytes "ro")
unfolding cut_mode
cut_mode-ro path =
    rw (has_suffix-append path (bytes ":ro"))
      (ap (λ p. (p, bytes "ro")) (trim_suffix-append path (bytes ":ro")))

cut_mode-rw : (path : Bytes) → cut_mode (path ++ bytes ":rw") ≡ (path, bytes "rw")
unfolding cut_mode
cut_mode-rw path =
    rw (has_suffix_rw-ro path, has_suffix-append path (bytes ":rw"))
      (ap (λ p. (p, bytes "rw")) (trim_suffix-append path (bytes ":rw")))

-- A path with a mode behind it is split into them for an extra mount, whatever the default; for the
-- project, read-only is refused and read-write is dropped.
pub split_mount_mode-append :
    (path : Bytes) (readonly_default : Bool)
    → (split_mount_mode (path ++ bytes ":ro") false readonly_default ≡ some (path, bytes "ro"))
      × (split_mount_mode (path ++ bytes ":rw") false readonly_default ≡ some (path, bytes "rw"))
      × (split_mount_mode (path ++ bytes ":ro") true readonly_default ≡ none)
      × (split_mount_mode (path ++ bytes ":rw") true readonly_default ≡ some (path, bytes "rw"))
unfolding split_mount_mode same
split_mount_mode-append path readonly_default = (
  rw (cut_mode-ro path) refl,
  rw (cut_mode-rw path) refl,
  rw (cut_mode-ro path) refl,
  rw (cut_mode-rw path) refl,
)
