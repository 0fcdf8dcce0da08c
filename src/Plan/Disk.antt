-- ===== src/Plan/Disk.antt =====
-- What the relocation of ~/.claude.json does to the two places that it touches. The operations of the
-- host are those that its documentation describes: a rename replaces a file and refuses a directory, and
-- a link is not made where something stands. What a link elsewhere leads to is part of the state.
use claude_contained.Plan.Step.{Step, remove_file, move_file, symlink}
use claude_contained.Plan.Facts.{AccountStateFacts, HostPaths}
use claude_contained.Plan.Account.{migrate_steps, link_steps, claude_json_steps}
use claude_contained.Base.{◌≡◌, refl, ◌⊎◌}
use claude_contained.Base.{Bool, true, false, not, ◌&&◌, Option, none, some, arith, if◌then◌else◌}
use claude_contained.Base.{List, [], ◌∷◌}
use claude_contained.Base.{Bytes, same, same_refl}

-- What stands behind a path, links followed.
pub data Target : Type 0 where
  missing directory : Target
  holds : Bytes → Target

-- What stands at ~/.claude.json itself.
pub data Node : Type 0 where
  absent link_shared plain_directory : Node
  plain_file : Bytes → Node
  link_elsewhere : Target → Node

pub record Disk : Type 0 where
  pub original : Node
  pub shared : Target

abbrev pub behind : Node → Target → Target
behind absent shared = missing
behind link_shared shared = shared
behind plain_directory shared = directory
behind (plain_file c) shared = holds c
behind (link_elsewhere t) shared = t

-- What reading ~/.claude.json gives.
abbrev pub content : Target → Option Bytes
content missing = none
content directory = none
content (holds c) = some c

abbrev pub read_account : Disk → Option Bytes
read_account d = content (behind d.original d.shared)

abbrev is_there : Target → Bool
is_there missing = false
is_there directory = true
is_there (holds c) = true

abbrev is_regular : Target → Bool
is_regular missing = false
is_regular directory = false
is_regular (holds c) = true

abbrev is_link : Node → Bool
is_link absent = false
is_link link_shared = true
is_link plain_directory = false
is_link (plain_file c) = false
is_link (link_elsewhere t) = true

-- The facts of a disk.
abbrev pub probe : Disk → AccountStateFacts
probe d = record {
  exists = is_there (behind d.original d.shared);
  is_regular_file = is_regular (behind d.original d.shared);
  is_symlink = is_link d.original;
  shared_exists = is_there d.shared;
  shared_is_regular_file = is_regular d.shared;
}

-- The rename of what stands at the original place to the shared one.
abbrev moved : Node → Target → Option Disk
moved (plain_file c) missing = some (record { original = absent; shared = holds c })
moved (plain_file c) (holds old) = some (record { original = absent; shared = holds c })
moved node shared = none

abbrev linked : Node → Target → Option Disk
linked absent shared = some (record { original = link_shared; shared = shared })
linked node shared = none

-- One step of the relocation; `none` is an error of the host.
abbrev host_step : HostPaths → Step → Disk → Option Disk
host_step paths (move_file src dst) d =
    if same src paths.claude_json && same dst paths.shared_claude_json
    then moved d.original d.shared
    else none
host_step paths (symlink target link) d =
    if same target paths.shared_claude_json && same link paths.claude_json
    then linked d.original d.shared
    else none
host_step paths (remove_file path) d =
    if same path paths.claude_json then some (record d { original = absent }) else none
host_step paths step d = none

-- The disk after the steps, and whether all of them succeeded. Any step that `breaks` names fails for
-- a reason outside of this model, as when there is no space or no permission, and changes nothing.
abbrev pub run_steps : (Step → Bool) → HostPaths → List Step → Disk → Disk × Bool
run_steps breaks paths [] d = (d, true)
run_steps breaks paths (s ∷ steps) d = if breaks s then (d, false) else elim (host_step paths s d) [
  | none ↦ (d, false)
  | some d' ↦ run_steps breaks paths steps d'
]

abbrev pub relocated_with : (Step → Bool) → HostPaths → Disk → Disk × Bool
relocated_with breaks paths d = run_steps breaks paths (claude_json_steps paths (probe d)) d

-- The relocation where nothing outside of this model fails.
abbrev pub relocated : HostPaths → Disk → Disk × Bool
relocated = relocated_with (λ s. false)

-- A link to another place than the shared one, which is missing.
abbrev pub is_foreign : Disk → Bool
is_foreign d = elim (d.original) [
  | absent ↦ false
  | link_shared ↦ false
  | plain_directory ↦ false
  | plain_file c ↦ false
  | link_elsewhere t ↦ not (is_there d.shared)
]

-- A relocation that ends here has not lost a content: it is read at ~/.claude.json, or a step failed
-- with nothing left there and the content in the shared file.
abbrev pub IsKept : Bytes → Disk × Bool → Type 0
IsKept c (d, done) =
    (read_account d ≡ some c)
    ⊎ ((done ≡ false) × (d.original ≡ absent) × (content d.shared ≡ some c))

-- What makes the relocation fail by itself: a directory at the place of the shared file, to which no
-- file is renamed, or a dangling link beside a shared file, where no link can be made.
abbrev pub is_blocked : Node → Target → Bool
is_blocked (plain_file c) directory = true
is_blocked (link_elsewhere missing) (holds c) = true
is_blocked node shared = false

module _ (paths : HostPaths) where
  -- A link to another place with the shared file missing is removed, whatever it leads to: nothing is
  -- left at ~/.claude.json, and, where nothing outside of this model fails, every step succeeds.
  pub relocated_foreign :
      (t : Target)
      → relocated paths (record { original = link_elsewhere t; shared = missing })
        ≡ (record { original = absent; shared = missing }, true)
  unfolding claude_json_steps migrate_steps link_steps
  relocated_foreign missing =
      ground (arith, same_refl paths.claude_json, same_refl paths.shared_claude_json)
  relocated_foreign directory =
      ground (arith, same_refl paths.claude_json, same_refl paths.shared_claude_json)
  relocated_foreign (holds c) =
      ground (arith, same_refl paths.claude_json, same_refl paths.shared_claude_json)

  relocated_settles :
      (node : Node) (shared : Target)
      → let r = relocated paths (record { original = node; shared = shared }) in
        (r.1 ≡ true → claude_json_steps paths (probe r.0) ≡ [])
  unfolding claude_json_steps migrate_steps link_steps
  relocated_settles absent missing e = refl
  relocated_settles absent directory e = refl
  relocated_settles absent (holds c) e =
      ground (arith, same_refl paths.claude_json, same_refl paths.shared_claude_json)
  relocated_settles link_shared missing e =
      ground (arith, same_refl paths.claude_json, same_refl paths.shared_claude_json)
  relocated_settles link_shared directory e = refl
  relocated_settles link_shared (holds c) e = refl
  relocated_settles plain_directory missing e = refl
  relocated_settles plain_directory directory e = refl
  relocated_settles plain_directory (holds c) e = refl
  relocated_settles (plain_file c) missing e =
      ground (arith, same_refl paths.claude_json, same_refl paths.shared_claude_json)
  relocated_settles (plain_file c) directory e =
      ground (arith, same_refl paths.claude_json, same_refl paths.shared_claude_json)
  relocated_settles (plain_file c) (holds x) e =
      ground (arith, same_refl paths.claude_json, same_refl paths.shared_claude_json)
  relocated_settles (link_elsewhere missing) missing e =
      ground (arith, same_refl paths.claude_json, same_refl paths.shared_claude_json)
  relocated_settles (link_elsewhere missing) directory e = refl
  relocated_settles (link_elsewhere missing) (holds c) e =
      ground (arith, same_refl paths.claude_json, same_refl paths.shared_claude_json)
  relocated_settles (link_elsewhere directory) missing e =
      ground (arith, same_refl paths.claude_json, same_refl paths.shared_claude_json)
  relocated_settles (link_elsewhere directory) directory e = refl
  relocated_settles (link_elsewhere directory) (holds c) e = refl
  relocated_settles (link_elsewhere (holds x)) missing e =
      ground (arith, same_refl paths.claude_json, same_refl paths.shared_claude_json)
  relocated_settles (link_elsewhere (holds x)) directory e = refl
  relocated_settles (link_elsewhere (holds x)) (holds c) e = refl

  -- After a relocation whose steps all succeeded, the facts of the disk that it leaves call for no step.
  pub claude_json_steps-relocated :
      (d : Disk)
      → (relocated paths d).1 ≡ true
      → claude_json_steps paths (probe (relocated paths d).0) ≡ []
  claude_json_steps-relocated d e = relocated_settles d.original d.shared e
