-- ===== src/Cli/Arms.antt =====
-- internal/cli/cli.go: the arms of the switch in `Parse`. `arm_of` makes the tests of the switch in its
-- order; what each arm then does is in Cli/Parse.antt.
use claude_contained.Base.{Bool, ◌||◌, if◌then◌else◌}
use claude_contained.Base.{Bytes, bytes, same, has_prefix, trim_prefix}

-- The flags that take a value.
pub data Field : Type 0 where
  dir_field mount_field name_field session_field build_context_field layer_field log_level_field :
      Field
  log_file_field share_skills_field env_field port_field host_field dns_field allow_host_field :
      Field

-- The flags that only switch something on.
pub data Switch : Type 0 where
  build_layer_switch no_layer_switch log_only_switch readonly_extras_switch : Switch
  share_host_claude_switch shell_switch ssh_switch worktree_switch lock_worktrees_switch : Switch
  node_modules_switch no_project_env_switch no_sandbox_switch zellij_switch new_session_switch :
      Switch

pub data Arm : Type 0 where
  help_arm runtime_arm rebuild_arm rebuild_mode_arm yolo_arm tool_arm new_session_value_arm : Arm
  attach_arm unknown_arm : Arm
  separate_arm : Field → Arm
  inline_arm : Field → Bytes → Arm
  inline_runtime_arm inline_rebuild_arm : Bytes → Arm
  switch_arm : Switch → Arm

-- The rest of the switch, behind a test for a prefix.
abbrev with_prefix : Bytes → Bytes → (Bytes → Arm) → Arm → Arm
with_prefix arg prefix f rest = if has_prefix arg prefix then f (trim_prefix arg prefix) else rest

abbrev is_either : Bytes → Bytes → Bytes → Bool
is_either arg short long = same arg short || same arg long

-- From `-p` to the end of the switch.
unfoldable pub last_arms : Bytes → Arm
last_arms arg =
    if same arg (bytes "-p")
    then separate_arm port_field
    else if same arg (bytes "-H")
    then separate_arm host_field
    else if same arg (bytes "--dns")
    then separate_arm dns_field
    else with_prefix arg (bytes "--dns=") (inline_arm dns_field) (
        if same arg (bytes "--allow-host")
        then separate_arm allow_host_field
        else with_prefix arg (bytes "--allow-host=") (inline_arm allow_host_field) (
            if same arg (bytes "--no-sandbox")
            then switch_arm no_sandbox_switch
            else if same arg (bytes "--zellij")
            then switch_arm zellij_switch
            else if same arg (bytes "--new-session")
            then switch_arm new_session_switch
            else with_prefix arg (bytes "--new-session=") (λ v. new_session_value_arm)
                (if is_either arg (bytes "-a") (bytes "--attach")
                  then attach_arm
                  else unknown_arm)))

-- From `--rebuild` on.
unfoldable pub later_arms : Bytes → Arm
unfolding last_arms
later_arms arg =
    if same arg (bytes "--rebuild")
    then rebuild_arm
    else with_prefix arg (bytes "--rebuild=") inline_rebuild_arm (
        if same arg (bytes "-R")
        then rebuild_mode_arm
        else if is_either arg (bytes "-s") (bytes "--shell")
        then switch_arm shell_switch
        else if is_either arg (bytes "-S") (bytes "--ssh")
        then switch_arm ssh_switch
        else if is_either arg (bytes "-w") (bytes "--worktree")
        then switch_arm worktree_switch
        else if is_either arg (bytes "-W") (bytes "--lock-worktrees")
        then switch_arm lock_worktrees_switch
        else if is_either arg (bytes "-y") (bytes "--yolo")
        then yolo_arm
        else if is_either arg (bytes "-N") (bytes "--contained-node-modules")
        then switch_arm node_modules_switch
        else if is_either arg (bytes "-t") (bytes "--tool")
        then tool_arm
        else if is_either arg (bytes "-e") (bytes "--env")
        then separate_arm env_field
        else with_prefix arg (bytes "--env=") (inline_arm env_field) (
            if same arg (bytes "--no-project-env")
            then switch_arm no_project_env_switch
            else last_arms arg))

-- From `--build-layer` on.
unfoldable pub middle_arms : Bytes → Arm
unfolding later_arms
middle_arms arg =
    if same arg (bytes "--build-layer")
    then switch_arm build_layer_switch
    else if same arg (bytes "--no-layer")
    then switch_arm no_layer_switch
    else if same arg (bytes "--log-level")
    then separate_arm log_level_field
    else with_prefix arg (bytes "--log-level=") (inline_arm log_level_field) (
        if same arg (bytes "--log-file")
        then separate_arm log_file_field
        else with_prefix arg (bytes "--log-file=") (inline_arm log_file_field) (
            if same arg (bytes "--log-only")
            then switch_arm log_only_switch
            else if same arg (bytes "--readonly-extras")
            then switch_arm readonly_extras_switch
            else if same arg (bytes "--share-skills")
            then separate_arm share_skills_field
            else with_prefix arg (bytes "--share-skills=") (inline_arm share_skills_field) (
                if same arg (bytes "--share-host-claude")
                then switch_arm share_host_claude_switch
                else later_arms arg)))

unfoldable pub arm_of : Bytes → Arm
unfolding middle_arms
arm_of arg =
    if is_either arg (bytes "-h") (bytes "--help")
    then help_arm
    else if is_either arg (bytes "-C") (bytes "--dir")
    then separate_arm dir_field
    else with_prefix arg (bytes "--dir=") (inline_arm dir_field) (
        if is_either arg (bytes "-m") (bytes "--mount")
        then separate_arm mount_field
        else with_prefix arg (bytes "--mount=") (inline_arm mount_field) (
            if same arg (bytes "--name")
            then separate_arm name_field
            else with_prefix arg (bytes "--name=") (inline_arm name_field) (
                if same arg (bytes "--session")
                then separate_arm session_field
                else with_prefix arg (bytes "--session=") (inline_arm session_field) (
                    if same arg (bytes "--container-runtime")
                    then runtime_arm
                    else with_prefix arg (bytes "--container-runtime=") inline_runtime_arm (
                        if same arg (bytes "--build-context")
                        then separate_arm build_context_field
                        else with_prefix arg (bytes "--build-context=")
                            (inline_arm build_context_field)
                            (if same arg (bytes "--layer")
                              then separate_arm layer_field
                              else with_prefix arg (bytes "--layer=") (inline_arm layer_field)
                                  (middle_arms arg)))))))
