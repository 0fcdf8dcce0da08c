-- ===== src/Plan/Facts.antt =====
-- internal/plan/facts.go, internal/plan/paths.go and the part of internal/host/state.go that planning
-- reads. The clock is the hour and the minute, which is all that the container name shows.
use claude_contained.Env.Store.{Pair}
use claude_contained.Host.FilePath.{join_path}
use claude_contained.Base.{ℕ}
use claude_contained.Base.{Bool, Option, if◌then◌else◌}
use claude_contained.Base.{List, [], ◌∷◌}
use claude_contained.Base.{Bytes, bytes}

pub record AccountStateFacts : Type 0 where
  pub exists : Bool
  pub is_regular_file : Bool
  pub is_symlink : Bool
  pub shared_exists : Bool
  pub shared_is_regular_file : Bool

pub record WorktreeLockCandidates : Type 0 where
  pub repo : Bytes
  pub hidden : List Bytes

pub record SharedSkillLink : Type 0 where
  pub path : Bytes
  pub resolved : Bytes
  pub missing : Bool
  pub is_dir : Bool
  pub parent_dir : Bytes

pub record SharedSkills : Type 0 where
  pub dir : Bytes
  pub codex_system_dir : Bool
  pub dir_has_system : Bool
  pub links : List SharedSkillLink

-- The two maps are functions: a missing key reads as `false` and as `none`.
pub record Facts : Type 0 where
  pub project_dir : Bytes
  -- Each extra mount with its mode; the source keeps two parallel lists.
  pub extra_mounts : List (Bytes × Bytes)
  pub worktree_main_repo : Bytes
  pub git_config_exists : Bool
  pub account_state : AccountStateFacts
  pub node_overlay_dirs : List Bytes
  pub node_overlay_target_empty : Bytes → Bool
  pub running_containers : List Bytes
  pub env : List Pair
  pub shared_skills : SharedSkills
  pub worktree_locks : WorktreeLockCandidates
  pub worktree_locks_with_git_mount : WorktreeLockCandidates
  pub zellij_session : Bytes
  pub derived_image : Bytes
  pub command_injection : Bytes → Option Bytes
  pub project_claude_contained_exists : Bool

pub record HostState : Type 0 where
  pub home : Bytes
  pub uid : Bytes
  pub gid : Bytes
  pub arch : Bytes
  pub hour : ℕ
  pub minute : ℕ
  pub memory : Bytes
  pub dns_env : Bytes
  pub dns_env_set : Bool

pub record HostPaths : Type 0 where
  pub home : Bytes
  pub claude_contained : Bytes
  pub claude_dir : Bytes
  pub claude_profile_dir : Bytes
  pub container_claude_dir : Bytes
  pub codex_dir : Bytes
  pub gemini_dir : Bytes
  pub copilot_dir : Bytes
  pub vibe_dir : Bytes
  pub agents_dir : Bytes
  pub git_config : Bytes
  pub claude_json : Bytes
  pub shared_claude_json : Bytes

-- `filepath.Join` of a directory and one name.
abbrev pub below : Bytes → Bytes → Bytes
below parent name = join_path (parent ∷ name ∷ [])

unfoldable pub new_host_paths : HostState → Bool → HostPaths
new_host_paths h share_host_claude =
    let contained = below h.home (bytes ".claude-contained") in
    let claude = below h.home (bytes ".claude") in
    record {
      home = h.home;
      claude_contained = contained;
      claude_dir = claude;
      claude_profile_dir = if share_host_claude then claude else below contained (bytes "claude");
      container_claude_dir = claude;
      codex_dir = below h.home (bytes ".codex");
      gemini_dir = below h.home (bytes ".gemini");
      copilot_dir = below h.home (bytes ".copilot");
      vibe_dir = below h.home (bytes ".vibe");
      agents_dir = below h.home (bytes ".agents");
      git_config = below h.home (bytes ".gitconfig");
      claude_json = below h.home (bytes ".claude.json");
      shared_claude_json = below contained (bytes ".claude.json");
    }
