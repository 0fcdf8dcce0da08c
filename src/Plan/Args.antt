-- ===== src/Plan/Args.antt =====
-- internal/plan/plan.go: the arguments of the run, by sections that stand in the order in which
-- `Build` adds them.
use claude_contained.Cli.Config.{Config}
use claude_contained.Env.Store.{Pair, explicit_keys_marker, explicit_keys_value}
use claude_contained.Host.FilePath.{join_path}
use claude_contained.Runtime.Spec.{
  Arg, memory_arg, name_arg, workdir_arg, port_arg, dns_arg, env_arg, label_arg, mount_arg, ssh_arg,
  host_gateway_arg, RunSpec, Profile,
}
use claude_contained.Zellij.Names.{marker_env, session_env, root_env, label_marker, label_session}
use claude_contained.Plan.Facts.{Facts, HostState, HostPaths, below}
use claude_contained.Plan.Command.{container_command}
use claude_contained.Base.{true, false, not, ◌&&◌, ◌||◌, if◌then◌else◌}
use claude_contained.Base.{List, [], ◌∷◌, ◌++◌, map, is_nil}
use claude_contained.Base.{Bytes, bytes, same, join, split}

abbrev pub base_image : Bytes
base_image = bytes "claude-contained:latest"

abbrev pub claude_extension_resources : List Bytes
claude_extension_resources =
    bytes "skills" ∷ bytes "agents" ∷ bytes "commands" ∷ bytes "plugins" ∷ []

unfoldable pub zellij_root_of : Facts → Bytes
zellij_root_of f =
    if is_nil f.zellij_session
    then []
    else join_path (f.project_dir ∷ bytes ".claude-contained" ∷ bytes "zellij" ∷ [])

abbrev pub same_mount : Bytes → Arg
same_mount path = mount_arg path path false

unfoldable pub project_args : HostState → Facts → HostPaths → Bytes → List Arg
project_args h f paths name =
    memory_arg h.memory
    ∷ name_arg name
    ∷ env_arg (bytes "HOST_HOME") h.home
    ∷ env_arg (bytes "HOST_UID") h.uid
    ∷ env_arg (bytes "HOST_GID") h.gid
    ∷ workdir_arg f.project_dir
    ∷ mount_arg paths.claude_profile_dir paths.container_claude_dir false
    ∷ same_mount paths.codex_dir
    ∷ same_mount paths.copilot_dir
    ∷ same_mount paths.gemini_dir
    ∷ same_mount paths.vibe_dir
    ∷ same_mount f.project_dir
    ∷ []

unfoldable pub contained_args : Facts → Bytes → List Arg
contained_args f zellij_root =
    let contained = below f.project_dir (bytes ".claude-contained") in
    (if f.project_claude_contained_exists then mount_arg contained contained true ∷ [] else [])
    ++ (if is_nil zellij_root then [] else same_mount zellij_root ∷ [])

unfoldable pub env_args : List Pair → List Arg
env_args ps =
    map (λ p. env_arg p.key p.value) ps
    ++ env_arg explicit_keys_marker (explicit_keys_value ps) ∷ []

unfoldable pub resource_args : Config → HostPaths → List Bytes → List Arg
resource_args cfg paths [] = []
resource_args cfg paths (r ∷ rs) =
    let rest = resource_args cfg paths rs in
    if same r (bytes "skills") && not (is_nil cfg.share_skills_dir)
    then rest
    else mount_arg (below paths.claude_dir r) (below paths.container_claude_dir r) false ∷ rest

unfoldable pub git_args : Facts → Bytes → List Arg
git_args f worktree_repo =
    let git_dir = below worktree_repo (bytes ".git") in
    let protect : List Bytes =
      f.project_dir ∷ map (λ m. m.0) f.extra_mounts
      ++ (if is_nil worktree_repo then [] else worktree_repo ∷ []) in
    (if is_nil worktree_repo then [] else same_mount git_dir ∷ [])
    ++ env_arg (bytes "GIT_PROTECT_DIRS") (join (bytes ":") protect) ∷ []

unfoldable pub resolve_dns : Config → HostState → Profile → List Bytes
resolve_dns cfg h prof =
    let from_env : List Bytes =
      if is_nil h.dns_env || same h.dns_env (bytes "system") || same h.dns_env (bytes "none")
      then []
      else split b',' h.dns_env in
    if not (is_nil cfg.dns_servers)
    then cfg.dns_servers
    else if h.dns_env_set
    then from_env
    else prof.default_dns

unfoldable pub network_args : Config → HostState → Profile → List Arg
unfolding resolve_dns
network_args cfg h prof =
    map port_arg cfg.port_maps
    ++ (if is_nil cfg.host_forwards
        then []
        else env_arg (bytes "HOST_FORWARD_PORTS") (join (bytes ",") cfg.host_forwards) ∷ [])
    ++ map dns_arg (resolve_dns cfg h prof)
    ++ (if cfg.srt_disable then env_arg (bytes "SRT_DISABLE") (bytes "1") ∷ [] else [])
    ++ (if is_nil cfg.srt_allow_hosts
        then []
        else env_arg (bytes "SRT_ALLOW_HOSTS") (join (bytes ",") cfg.srt_allow_hosts) ∷ [])

unfoldable pub zellij_args : Facts → Bytes → List Arg
zellij_args f zellij_root =
    if is_nil f.zellij_session
    then []
    else env_arg marker_env (bytes "1")
      ∷ env_arg session_env f.zellij_session
      ∷ env_arg root_env zellij_root
      ∷ label_arg label_marker (bytes "1")
      ∷ label_arg label_session f.zellij_session
      ∷ []

-- Everything up to the mount of the shared directory.
unfoldable pub fixed_args :
    Config → HostState → Facts → Profile → HostPaths → Bytes → Bytes → List Arg
unfolding project_args contained_args env_args resource_args git_args network_args zellij_args
    zellij_root_of
fixed_args cfg h f prof paths worktree_repo name =
    project_args h f paths name
    ++ contained_args f (zellij_root_of f)
    ++ env_args f.env
    ++ (if cfg.share_host_claude then [] else resource_args cfg paths claude_extension_resources)
    ++ git_args f worktree_repo
    ++ network_args cfg h prof
    ++ zellij_args f (zellij_root_of f)
    ++ (if cfg.ssh_mode then ssh_arg ∷ [] else [])
    ++ host_gateway_arg ∷ []
    ++ same_mount paths.claude_contained ∷ []

unfoldable pub extra_mount_args : List (Bytes × Bytes) → List Arg
extra_mount_args [] = []
extra_mount_args ((src, mode) ∷ ms) =
    mount_arg src src (same mode (bytes "ro")) ∷ extra_mount_args ms

abbrev pub overlay_target : Bytes → Bytes → Bytes
overlay_target arch dir =
    join_path (dir ∷ bytes ".claude-contained" ∷ (bytes "node_modules-linux-" ++ arch) ∷ [])

unfoldable pub overlay_args : Bytes → List Bytes → List Arg
overlay_args arch [] = []
overlay_args arch (dir ∷ dirs) =
    mount_arg (overlay_target arch dir) (below dir (bytes "node_modules")) false
    ∷ overlay_args arch dirs

unfoldable pub run_spec : Config → Facts → Profile → List Arg → RunSpec
run_spec cfg f prof args = record {
  args = args;
  image = if is_nil f.derived_image then base_image else f.derived_image;
  command =
      container_command cfg.command (map (λ m. m.0) f.extra_mounts) f.command_injection
        cfg.shell_mode f.zellij_session prof.name;
}
