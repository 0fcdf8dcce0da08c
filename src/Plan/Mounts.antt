-- ===== src/Plan/Mounts.antt =====
-- internal/plan/mounts.go: the bookkeeping that finds conflicts of shared-skills mounts.
use claude_contained.Host.Paths.{path_is_at_or_under}
use claude_contained.Runtime.Spec.{Arg, mount_arg}
use claude_contained.Base.{Bool, true, not, ◌&&◌, ◌||◌, Option, none, some, if◌then◌else◌}
use claude_contained.Base.{List, [], ◌∷◌, ◌++◌, any}
use claude_contained.Base.{Bytes, bytes, same}

pub record MountRecord : Type 0 where
  pub src : Bytes
  pub dst : Bytes
  pub mode : Bytes

pub record MountRegistry : Type 0 where
  pub user : List MountRecord
  pub shared : List MountRecord

unfoldable pub new_mount_registry : Bytes → MountRegistry
new_mount_registry project_dir = record {
  user = record { src = project_dir; dst = project_dir; mode = bytes "rw" } ∷ [];
  shared = [];
}

unfoldable pub add_user : Bytes → Bytes → Bytes → MountRegistry → MountRegistry
add_user src dst mode r = record r {
  user = r.user ++ record { src = src; dst = dst; mode = mode } ∷ [];
}

unfoldable pub record_for_dst : List MountRecord → Bytes → Option MountRecord
record_for_dst [] dst = none
record_for_dst (rec ∷ recs) dst =
    let rest = record_for_dst recs dst in if same rec.dst dst then some rec else rest

unfoldable pub readonly_covers : List MountRecord → Bytes → Bool
readonly_covers recs dst =
    any
      (λ rec. same rec.mode (bytes "ro") && same rec.src rec.dst && path_is_at_or_under dst rec.dst)
      recs

unfoldable pub records_path_parity_cover : List MountRecord → Bytes → Bool
records_path_parity_cover recs path =
    any (λ rec. same rec.src rec.dst && path_is_at_or_under path rec.dst) recs

unfoldable pub records_at_or_under : List MountRecord → Bytes → Bool
records_at_or_under recs path = any (λ rec. path_is_at_or_under rec.dst path) recs

unfoldable pub records_readonly_non_parity_ancestor : List MountRecord → Bytes → Bool
records_readonly_non_parity_ancestor recs path =
    any
      (λ rec.
        same rec.mode (bytes "ro")
        && not (same rec.src rec.dst)
        && path_is_at_or_under path rec.dst)
      recs

unfoldable pub path_parity_covers : MountRegistry → Bytes → Bool
path_parity_covers r path =
    records_path_parity_cover r.user path || records_path_parity_cover r.shared path

unfoldable pub would_shadow_existing : MountRegistry → Bytes → Bool
would_shadow_existing r path = records_at_or_under r.user path || records_at_or_under r.shared path

unfoldable pub is_nested_under_readonly_non_parity_destination : MountRegistry → Bytes → Bool
is_nested_under_readonly_non_parity_destination r path =
    records_readonly_non_parity_ancestor r.user path
    || records_readonly_non_parity_ancestor r.shared path

-- What `addShared` returns: nothing to do, a mount with its line, or the lines of an error.
pub data Added : Type 0 where
  skipped : Added
  added : Arg → Bytes → Added
  conflict : List Bytes → Added

abbrev pub conflict_writable : Bytes → Added
conflict_writable dst = conflict (
    (bytes "error: --share-skills read-only mount conflicts with writable mount: " ++ dst)
    ∷ bytes "       remove the duplicate -m or mark it :ro"
    ∷ [])

abbrev pub conflict_different : Bytes → Added
conflict_different dst = conflict (
    (bytes "error: --share-skills read-only mount conflicts with a different mount at: " ++ dst)
    ∷ [])

abbrev pub conflict_shared : Bytes → Added
conflict_shared dst = conflict (
    (bytes "error: --share-skills read-only mount conflicts with another shared-skills mount at: "
      ++ dst)
    ∷ [])

abbrev pub sharing_line : Bytes → Bytes → Bytes → Bytes
sharing_line label src dst =
    bytes "Sharing " ++ label ++ bytes ": " ++ src ++ bytes " -> " ++ dst ++ bytes " (read-only)"

-- The first switch of `addShared`, at a user mount with the same destination.
unfoldable pub against_user : MountRecord → Bytes → Bytes → Added
against_user rec src dst =
    if same rec.mode (bytes "ro") && same rec.src src
    then skipped
    else if same rec.mode (bytes "rw")
    then conflict_writable dst
    else conflict_different dst

unfoldable pub against_shared : MountRecord → Bytes → Bytes → Added
against_shared rec src dst = if same rec.src src then skipped else conflict_shared dst

unfoldable pub register_shared : MountRegistry → Bytes → Bytes → MountRegistry
register_shared r src dst = record r {
  shared = r.shared ++ record { src = src; dst = dst; mode = bytes "ro" } ∷ [];
}

-- `addShared`: the registry after the call, and what it returns.
unfoldable pub add_shared : MountRegistry → Bytes → Bytes → Bool → Bytes → MountRegistry × Added
unfolding record_for_dst against_user against_shared register_shared
add_shared r src dst allow_cover label = elim (record_for_dst r.user dst) [
  | some rec ↦ (r, against_user rec src dst)
  | none ↦ elim (record_for_dst r.shared dst) [
    | some rec ↦ (r, against_shared rec src dst)
    | none ↦
        if allow_cover && (readonly_covers r.user dst || readonly_covers r.shared dst)
        then (r, skipped)
        else (
          register_shared r src dst,
          added (mount_arg src dst true) (sharing_line label src dst),
        )
  ]
]
