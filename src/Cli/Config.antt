-- ===== src/Cli/Config.antt =====
-- internal/cli/cli.go: the parsed command line, with what the parser recorded on the way.
use claude_contained.Base.{Bool, false}
use claude_contained.Base.{List, []}
use claude_contained.Base.{Bytes, bytes}

pub data FailureKind : Type 0 where
  required_value new_session_value unknown_flag tool_removed yolo_removed command_flag : FailureKind

pub record SyntaxFailure : Type 0 where
  pub kind : FailureKind
  pub flag : Bytes
  pub what : Bytes
  pub value : Bytes

pub record ParseState : Type 0 where
  pub prog_name : Bytes
  pub failures : List SyntaxFailure
  pub command_from_separator : Bool

pub record Config : Type 0 where
  pub shell_mode : Bool
  pub ssh_mode : Bool
  pub worktree_mode : Bool
  pub lock_worktrees : Bool
  pub contained_node_modules : Bool
  pub attach_mode : Bool
  pub attach_name : Bytes
  pub custom_container_name : Bytes
  pub project_dir : Bytes
  pub extra_mounts : List Bytes
  pub command : List Bytes
  pub container_runtime : Bytes
  pub build_context : Bytes
  pub layer_dir : Bytes
  pub build_layer : Bool
  pub no_layer : Bool
  pub log_level : Bytes
  pub log_level_set : Bool
  pub log_file : Bytes
  pub log_only : Bool
  pub zellij_mode : Bool
  pub zellij_new_session : Bool
  pub zellij_session_name : Bytes
  pub zellij_session_name_set : Bool
  pub rebuild_mode : Bytes
  pub readonly_extras : Bool
  pub share_skills_dir : Bytes
  pub share_host_claude : Bool
  pub port_maps : List Bytes
  pub host_forwards : List Bytes
  pub dns_servers : List Bytes
  pub srt_allow_hosts : List Bytes
  pub srt_disable : Bool
  pub env_flag_args : List Bytes
  pub no_project_env : Bool
  pub help_requested : Bool
  pub parse : ParseState

-- The configuration before the first token.
abbrev pub initial_config : Bytes → Bool → Config
initial_config prog_name share_host_claude_env = record {
  shell_mode = false;
  ssh_mode = false;
  worktree_mode = false;
  lock_worktrees = false;
  contained_node_modules = false;
  attach_mode = false;
  attach_name = [];
  custom_container_name = [];
  project_dir = [];
  extra_mounts = [];
  command = [];
  container_runtime = [];
  build_context = [];
  layer_dir = [];
  build_layer = false;
  no_layer = false;
  log_level = [];
  log_level_set = false;
  log_file = [];
  log_only = false;
  zellij_mode = false;
  zellij_new_session = false;
  zellij_session_name = [];
  zellij_session_name_set = false;
  rebuild_mode = bytes "none";
  readonly_extras = false;
  share_skills_dir = [];
  share_host_claude = share_host_claude_env;
  port_maps = [];
  host_forwards = [];
  dns_servers = [];
  srt_allow_hosts = [];
  srt_disable = false;
  env_flag_args = [];
  no_project_env = false;
  help_requested = false;
  parse = record { prog_name = prog_name; failures = []; command_from_separator = false };
}
