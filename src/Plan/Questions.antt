-- ===== src/Plan/Questions.antt =====
-- internal/plan/plan.go: the three questions of `Build`, and the steps that depend on no answer.
use claude_contained.Cli.Config.{Config}
use claude_contained.Host.Sanitize.{sanitize_folder_name}
use claude_contained.Runtime.Spec.{Arg, Profile}
use claude_contained.Plan.Step.{
  Step, mkdir_all, print, worktree_auto_lock, worktree_git, node_modules, worktree_locks,
}
use claude_contained.Plan.Facts.{Facts, HostState, HostPaths, WorktreeLockCandidates, below}
use claude_contained.Plan.Mounts.{MountRegistry, new_mount_registry, add_user}
use claude_contained.Plan.Skills.{Sharing, shared_skills_mounts}
use claude_contained.Plan.Monad.{Planning, ◌>>=◌, ◌>>◌, give, emit, stop_with, ask}
use claude_contained.Base.{ℕ, ◌+◌, ◌/◌, ◌%◌}
use claude_contained.Base.{Bool, true, false, ◌||◌, Option, none, some, if◌then◌else◌}
use claude_contained.Base.{List, [], ◌∷◌, ◌++◌, map, length, is_nil}
use claude_contained.Base.{Bytes, bytes, trim_prefix, decimal}
use claude_contained.Plan.Args.{claude_extension_resources, overlay_target, overlay_args}

-- The repository whose .git is mounted, empty for none.
unfoldable pub worktree_git_question : Config → Facts → Planning Bytes
worktree_git_question cfg f =
    let repo = f.worktree_main_repo in
    if is_nil repo
    then give []
    else if cfg.worktree_mode
    then (do
      emit (
          print (bytes "Worktree detected: mounting " ++ repo ++ bytes "/.git for full git access")
            false
          ∷ [])
      give repo)
    else do
      emit (print (bytes "Working directory is a git worktree linked to: " ++ repo) false ∷ [])
      yes_mount ←
          ask worktree_git (bytes "Mount main repository's .git for full git access? [Y/n] ")
      give (if yes_mount then repo else [])

unfoldable pub resource_dir_steps : HostPaths → List Bytes → List Step
resource_dir_steps paths [] = []
resource_dir_steps paths (r ∷ rs) =
    mkdir_all (below paths.claude_dir r)
    ∷ mkdir_all (below paths.claude_profile_dir r)
    ∷ resource_dir_steps paths rs

unfoldable pub directory_steps : Config → HostPaths → Bytes → List Step
unfolding resource_dir_steps
directory_steps cfg paths zellij_root =
    (mkdir_all paths.claude_dir
      ∷ mkdir_all paths.claude_contained
      ∷ mkdir_all paths.claude_profile_dir
      ∷ mkdir_all paths.codex_dir
      ∷ mkdir_all paths.copilot_dir
      ∷ mkdir_all paths.gemini_dir
      ∷ mkdir_all paths.vibe_dir
      ∷ [])
    ++ (if is_nil zellij_root
        then []
        else mkdir_all (below zellij_root (bytes "data"))
          ∷ mkdir_all (below zellij_root (bytes "cache"))
          ∷ [])
    ++ (if cfg.share_host_claude then [] else resource_dir_steps paths claude_extension_resources)

-- Two digits, as in the layout "1504".
unfoldable pub two_digits : ℕ → Bytes
two_digits n = (n / 10 % 10 + b'0') ∷ (n % 10 + b'0') ∷ []

module _ (to_lower : Bytes → Bytes) where
  unfoldable pub wanted_name : Config → HostState → Facts → Bytes
  unfolding two_digits
  wanted_name cfg h f =
      if is_nil cfg.custom_container_name
      then bytes "aic-"
        ++ sanitize_folder_name to_lower f.project_dir
        ++ bytes "-"
        ++ two_digits h.hour
        ++ two_digits h.minute
      else cfg.custom_container_name

unfoldable pub name_steps : Config → List Step
name_steps cfg =
    if is_nil cfg.custom_container_name
    then []
    else print
        (bytes "Creating named container: " ++ trim_prefix cfg.custom_container_name (bytes "aic-"))
        false
      ∷ []

unfoldable pub lock_candidates : Facts → Bytes → WorktreeLockCandidates
lock_candidates f worktree_repo =
    if is_nil worktree_repo then f.worktree_locks else f.worktree_locks_with_git_mount

unfoldable pub lock_steps : WorktreeLockCandidates → Bytes → Bool → List Step
lock_steps c name lock_them = if lock_them then worktree_auto_lock c.repo c.hidden name ∷ [] else []

unfoldable pub worktree_lock_question :
    Config → WorktreeLockCandidates → Bytes → Planning (Unit {0})
unfolding lock_steps
worktree_lock_question cfg c name = if is_nil c.repo || is_nil c.hidden then give tt else do
  emit (
      print
        (decimal (length c.hidden)
          ++ bytes " linked worktree(s) under "
          ++ c.repo
          ++ bytes " hidden from container (prune risk).")
        false
      ∷ [])
  lock_them ←
      (if cfg.lock_worktrees
        then give true
        else ask worktree_locks (bytes "Auto-lock them while this container runs? [Y/n] "))
  emit (lock_steps c name lock_them)

unfoldable pub forward_steps : Config → Profile → List Step
forward_steps cfg prof =
    if is_nil cfg.host_forwards then [] else map (λ line. print line true) prof.host_forward_notice

unfoldable pub register_extra_mounts : List (Bytes × Bytes) → MountRegistry → MountRegistry
register_extra_mounts [] r = r
register_extra_mounts ((src, mode) ∷ ms) r = register_extra_mounts ms (add_user src src mode r)

abbrev pub sharing_outcome : Sharing × Option (List Bytes) → Planning (List Arg)
sharing_outcome (s, none) = (do emit s.steps; give s.args)
sharing_outcome (s, some lines) = (do emit s.steps; stop_with lines)

unfoldable pub shared_skills_part : Facts → HostPaths → Profile → Planning (List Arg)
unfolding register_extra_mounts
shared_skills_part f paths prof =
    if is_nil f.shared_skills.dir
    then give []
    else sharing_outcome (
        shared_skills_mounts
          (register_extra_mounts f.extra_mounts (new_mount_registry f.project_dir)) paths
          f.shared_skills prof.readonly_remount_needs_existing_mountpoint)

unfoldable pub overlay_steps : Bytes → (Bytes → Bool) → List Bytes → List Step
overlay_steps arch empty [] = []
overlay_steps arch empty (dir ∷ dirs) =
    let target = overlay_target arch dir in
    mkdir_all target
    ∷ ((if empty dir
          then print (bytes "Created " ++ target) true
            ∷ print (bytes "  Run 'npm install' (or your package manager) inside the container.")
                true
            ∷ []
          else [])
        ++ overlay_steps arch empty dirs)

unfoldable pub node_modules_question : Config → HostState → Facts → Planning (List Arg)
unfolding overlay_steps overlay_args
node_modules_question cfg h f = if is_nil f.node_overlay_dirs then give [] else do
  overlay ←
      (if cfg.contained_node_modules
        then give true
        else ask node_modules
            (bytes "Node.js project detected. Use container-specific node_modules? [Y/n] "))
  emit
      (if overlay then overlay_steps h.arch f.node_overlay_target_empty f.node_overlay_dirs else [])
  give (if overlay then overlay_args h.arch f.node_overlay_dirs else [])
