-- ===== src/Cli/Parse.antt =====
-- internal/cli/cli.go: `Parse`.
use claude_contained.Cli.Config.{
  FailureKind, required_value, new_session_value, unknown_flag, tool_removed, yolo_removed,
  command_flag, SyntaxFailure, Config, initial_config,
}
use claude_contained.Cli.Arms.{
  Field, dir_field, mount_field, name_field, session_field, build_context_field, layer_field,
  log_level_field, log_file_field, share_skills_field, env_field, port_field, host_field, dns_field,
  allow_host_field, Switch, build_layer_switch, no_layer_switch, log_only_switch,
  readonly_extras_switch, share_host_claude_switch, shell_switch, ssh_switch, worktree_switch,
  lock_worktrees_switch, node_modules_switch, no_project_env_switch, no_sandbox_switch,
  zellij_switch, new_session_switch, Arm, help_arm, runtime_arm, rebuild_arm, rebuild_mode_arm,
  yolo_arm, tool_arm, new_session_value_arm, attach_arm, unknown_arm, separate_arm, inline_arm,
  inline_runtime_arm, inline_rebuild_arm, switch_arm, arm_of,
}
use claude_contained.Base.{Bool, true, false, not, ◌||◌, if◌then◌else◌}
use claude_contained.Base.{List, [], ◌∷◌, ◌++◌, is_nil}
use claude_contained.Base.{Bytes, bytes, same, has_prefix, join}

-- The assignment that a value of a flag makes.
abbrev pub set_field : Field → Bytes → Config → Config
set_field dir_field v cfg = record cfg { project_dir = v }
set_field mount_field v cfg = record cfg { extra_mounts = cfg.extra_mounts ++ v ∷ [] }
set_field name_field v cfg = record cfg { custom_container_name = v }
set_field session_field v cfg = record cfg {
  zellij_session_name = v;
  zellij_session_name_set = true;
}
set_field build_context_field v cfg = record cfg { build_context = v }
set_field layer_field v cfg = record cfg { layer_dir = v }
set_field log_level_field v cfg = record cfg { log_level = v; log_level_set = true }
set_field log_file_field v cfg = record cfg { log_file = v }
set_field share_skills_field v cfg = record cfg { share_skills_dir = v }
set_field env_field v cfg = record cfg { env_flag_args = cfg.env_flag_args ++ v ∷ [] }
set_field port_field v cfg = record cfg { port_maps = cfg.port_maps ++ v ∷ [] }
set_field host_field v cfg = record cfg { host_forwards = cfg.host_forwards ++ v ∷ [] }
set_field dns_field v cfg = record cfg { dns_servers = cfg.dns_servers ++ v ∷ [] }
set_field allow_host_field v cfg = record cfg { srt_allow_hosts = cfg.srt_allow_hosts ++ v ∷ [] }

abbrev pub set_switch : Switch → Config → Config
set_switch build_layer_switch cfg = record cfg { build_layer = true }
set_switch no_layer_switch cfg = record cfg { no_layer = true }
set_switch log_only_switch cfg = record cfg { log_only = true }
set_switch readonly_extras_switch cfg = record cfg { readonly_extras = true }
set_switch share_host_claude_switch cfg = record cfg { share_host_claude = true }
set_switch shell_switch cfg = record cfg { shell_mode = true }
set_switch ssh_switch cfg = record cfg { ssh_mode = true }
set_switch worktree_switch cfg = record cfg { worktree_mode = true }
set_switch lock_worktrees_switch cfg = record cfg { lock_worktrees = true }
set_switch node_modules_switch cfg = record cfg { contained_node_modules = true }
set_switch no_project_env_switch cfg = record cfg { no_project_env = true }
set_switch no_sandbox_switch cfg = record cfg { srt_disable = true }
set_switch zellij_switch cfg = record cfg { zellij_mode = true }
set_switch new_session_switch cfg = record cfg { zellij_new_session = true }

-- The flag and the kind of value that a failure of the separate form names.
abbrev pub separate_label : Field → Bytes × Bytes
separate_label dir_field = (bytes "-C/--dir", bytes "a value")
separate_label mount_field = (bytes "-m/--mount", bytes "a value")
separate_label name_field = (bytes "--name", bytes "a value")
separate_label session_field = (bytes "--session", bytes "a value")
separate_label build_context_field = (bytes "--build-context", bytes "a directory")
separate_label layer_field = (bytes "--layer", bytes "a directory")
separate_label log_level_field = (bytes "--log-level", bytes "debug, info, warn, error, or off")
separate_label log_file_field = (bytes "--log-file", bytes "a path")
separate_label share_skills_field = (bytes "--share-skills", bytes "a value")
separate_label env_field = (bytes "-e/--env", bytes "KEY=VALUE")
separate_label port_field = (bytes "-p", bytes "a value")
separate_label host_field = (bytes "-H", bytes "a value")
separate_label dns_field = (bytes "--dns", bytes "a value")
separate_label allow_host_field = (bytes "--allow-host", bytes "a value")

-- What the inline form does with the empty value: it may assign it, and it may record a failure.
pub data EmptyValue : Type 0 where
  accepted : EmptyValue
  assigned_and_recorded only_recorded : Bytes → Bytes → EmptyValue

abbrev pub inline_empty : Field → EmptyValue
inline_empty dir_field = assigned_and_recorded (bytes "--dir") (bytes "a non-empty directory")
inline_empty mount_field = assigned_and_recorded (bytes "--mount") (bytes "a non-empty directory")
inline_empty name_field = assigned_and_recorded (bytes "--name") (bytes "a non-empty name")
inline_empty session_field = assigned_and_recorded (bytes "--session") (bytes "a non-empty name")
inline_empty build_context_field =
    assigned_and_recorded (bytes "--build-context") (bytes "a non-empty directory")
inline_empty layer_field = assigned_and_recorded (bytes "--layer") (bytes "a non-empty directory")
inline_empty log_level_field =
    only_recorded (bytes "--log-level") (bytes "debug, info, warn, error, or off")
inline_empty log_file_field = only_recorded (bytes "--log-file") (bytes "a non-empty path")
inline_empty share_skills_field =
    assigned_and_recorded (bytes "--share-skills") (bytes "a non-empty directory")
inline_empty env_field = accepted
inline_empty port_field = accepted
inline_empty host_field = accepted
inline_empty dns_field = accepted
inline_empty allow_host_field = accepted

abbrev pub failure : FailureKind → SyntaxFailure
failure k = record { kind = k; flag = []; what = []; value = [] }

-- `cfg.parse.failures = append(cfg.parse.failures, …)`
abbrev pub record_failure : SyntaxFailure → Config → Config
record_failure x cfg = record cfg {
  parse = record (cfg.parse) { failures = cfg.parse.failures ++ x ∷ [] };
}

abbrev pub record_required : Bytes → Bytes → Config → Config
record_required label wanted =
    record_failure (record (failure required_value) { flag = label; what = wanted })

-- A value that the separate form does not take.
abbrev pub is_missing : Bytes → Bool
is_missing value = is_nil value || has_prefix value (bytes "-")

abbrev pub next_of : List Bytes → Bytes
next_of [] = []
next_of (next ∷ rest) = next

-- What the inline form comes to with the empty value.
abbrev pub set_empty : EmptyValue → Field → Config → Config
set_empty accepted f cfg = set_field f [] cfg
set_empty (assigned_and_recorded label wanted) f cfg =
    record_required label wanted (set_field f [] cfg)
set_empty (only_recorded label wanted) f cfg = record_required label wanted cfg

unfoldable pub set_inline : Field → Bytes → Config → Config
set_inline f v cfg = if is_nil v then set_empty (inline_empty f) f cfg else set_field f v cfg

abbrev pub runtime_label : Bytes
runtime_label = bytes "--container-runtime"

-- One flag with the tokens behind it: the configuration, and whether the next token was its value.
unfoldable pub step : Arm → Bytes → List Bytes → Config → Config × Bool
unfolding set_inline
step help_arm arg rest cfg =
    (if is_nil cfg.parse.failures then record cfg { help_requested = true } else cfg, false)
step (separate_arm f) arg rest cfg =
    let (label, wanted) = separate_label f in
    (
      if is_missing (next_of rest)
          then record_required label wanted cfg
          else set_field f (next_of rest) cfg,
      not (is_nil rest),
    )
step (inline_arm f v) arg rest cfg = (set_inline f v cfg, false)
step runtime_arm arg rest cfg =
    if is_nil rest || has_prefix (next_of rest) (bytes "-")
    then (record_required runtime_label (bytes "apple or docker") cfg, false)
    else (
      let set = record cfg { container_runtime = next_of rest } in
          if is_missing (next_of rest)
          then record_required runtime_label (bytes "apple or docker") set
          else set,
      true,
    )
step (inline_runtime_arm v) arg rest cfg =
    let set = record cfg { container_runtime = v } in
    (if is_nil v then record_required runtime_label (bytes "apple or docker") set else set, false)
step (switch_arm s) arg rest cfg = (set_switch s cfg, false)
step rebuild_arm arg rest cfg = (record cfg { rebuild_mode = bytes "tools" }, false)
step (inline_rebuild_arm v) arg rest cfg = (record cfg { rebuild_mode = v }, false)
step rebuild_mode_arm arg rest cfg =
    if is_missing (next_of rest)
    then (record cfg { rebuild_mode = bytes "tools" }, false)
    else (record cfg { rebuild_mode = next_of rest }, true)
step yolo_arm arg rest cfg = (record_failure (failure yolo_removed) cfg, false)
step tool_arm arg rest cfg = (record_failure (failure tool_removed) cfg, not (is_nil rest))
step new_session_value_arm arg rest cfg = (record_failure (failure new_session_value) cfg, false)
step attach_arm arg rest cfg =
    if is_missing (next_of rest)
    then (record cfg { attach_mode = true }, false)
    else (record cfg { attach_mode = true; attach_name = next_of rest }, true)
step unknown_arm arg rest cfg =
    (record_failure (record (failure unknown_flag) { value = arg }) cfg, false)

-- The command behind `--`, and the failure of one that starts with a flag.
unfoldable pub separated : List Bytes → Config → Config
separated rest cfg =
    let command = cfg.command ++ rest in
    let set = record cfg {
      command = command;
      parse = record (cfg.parse) { command_from_separator = true };
    } in
    if has_prefix (next_of command) (bytes "-")
    then record_failure
        (record (failure command_flag) { flag = next_of command; value = join (bytes " ") command })
        set
    else set

-- The loop over the tokens.
unfoldable pub parse_tokens : List Bytes → Config → Config
unfolding step separated
parse_tokens [] cfg = cfg
parse_tokens (arg ∷ []) cfg =
    if same arg (bytes "--")
    then separated [] cfg
    else if not (has_prefix arg (bytes "-"))
    then record cfg { command = arg ∷ [] }
    else (step (arm_of arg) arg [] cfg).0
parse_tokens (arg ∷ next ∷ rest) cfg =
    if same arg (bytes "--")
    then separated (next ∷ rest) cfg
    else if not (has_prefix arg (bytes "-"))
    then record cfg { command = arg ∷ next ∷ rest }
    else let r = step (arm_of arg) arg (next ∷ rest) cfg in
      elim (r.1) [ true ↦ parse_tokens rest (r.0) | false ↦ parse_tokens (next ∷ rest) (r.0) ]

unfoldable pub parse : List Bytes → Bytes → Bool → Config
unfolding parse_tokens
parse args prog_name share_host_claude_env =
    parse_tokens args (initial_config prog_name share_host_claude_env)
