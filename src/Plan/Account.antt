-- ===== src/Plan/Account.antt =====
-- internal/plan/plan.go: the copy of the git configuration and the relocation of ~/.claude.json.
use claude_contained.Plan.Step.{Step, remove_file, copy_file, move_file, symlink}
use claude_contained.Plan.Facts.{AccountStateFacts, HostPaths, Facts, below}
use claude_contained.Base.{Bool, true, false, not, ◌&&◌, if◌then◌else◌}
use claude_contained.Base.{List, [], ◌∷◌, ◌++◌}
use claude_contained.Base.{bytes}

-- The switch, and whether something stands at the original location behind it.
unfoldable pub migrate_steps : HostPaths → AccountStateFacts → List Step × Bool
migrate_steps paths a =
    if a.is_regular_file && not a.is_symlink
    then (
      move_file paths.claude_json paths.shared_claude_json
          ∷ symlink paths.shared_claude_json paths.claude_json
          ∷ [],
      true,
    )
    else if a.is_symlink && not a.shared_exists
    then (remove_file paths.claude_json ∷ [], false)
    else ([], a.exists)

unfoldable pub link_steps : HostPaths → AccountStateFacts → Bool → List Step
link_steps paths a host_exists =
    if not host_exists && a.shared_is_regular_file
    then symlink paths.shared_claude_json paths.claude_json ∷ []
    else []

unfoldable pub git_config_steps : HostPaths → Bool → List Step
git_config_steps paths exists =
    if exists
    then copy_file paths.git_config (below paths.claude_contained (bytes ".gitconfig")) ∷ []
    else []

unfoldable pub claude_json_steps : HostPaths → AccountStateFacts → List Step
unfolding migrate_steps link_steps
claude_json_steps paths a =
    (migrate_steps paths a).0 ++ link_steps paths a (migrate_steps paths a).1

unfoldable pub account_state_steps : HostPaths → Facts → List Step
unfolding git_config_steps claude_json_steps
account_state_steps paths f =
    git_config_steps paths f.git_config_exists ++ claude_json_steps paths f.account_state
