-- ===== src/Plan/Command.antt =====
-- internal/plan/command.go: the argv executed in the container.
use claude_contained.Zellij.Names.{shell_command, run_command}
use claude_contained.Base.{Bool, Option, none, some, if◌then◌else◌}
use claude_contained.Base.{List, [], ◌∷◌, ◌++◌, is_nil}
use claude_contained.Base.{Bytes, bytes}

abbrev pub shell_path : Bytes
shell_path = bytes "/usr/local/bin/shell-run"

-- The flag with each mount, in order.
unfoldable pub mount_flags : Bytes → List Bytes → List Bytes
mount_flags flag [] = []
mount_flags flag (m ∷ ms) = flag ∷ m ∷ mount_flags flag ms

unfoldable pub inject_mount_flags : List Bytes → List Bytes → (Bytes → Option Bytes) → List Bytes
unfolding mount_flags
inject_mount_flags [] extra_mounts injection = []
inject_mount_flags (program ∷ rest) extra_mounts injection = elim (injection program) [
  | none ↦ program ∷ rest
  | some flag ↦ (program ∷ rest) ++ mount_flags flag extra_mounts
]

unfoldable pub container_command :
    List Bytes → List Bytes → (Bytes → Option Bytes) → Bool → Bytes → Bytes → List Bytes
unfolding inject_mount_flags run_command
container_command user_cmd extra_mounts injection shell_mode zellij_session prof_name =
    let command : List Bytes =
      if shell_mode
      then if is_nil zellij_session then shell_path ∷ [] else shell_command ∷ []
      else inject_mount_flags user_cmd extra_mounts injection in
    if is_nil zellij_session then command else run_command zellij_session prof_name command
