-- ===== src/Plan/Build.antt =====
-- internal/plan/plan.go: `Build`, in the order of the source.
use claude_contained.Cli.Config.{Config}
use claude_contained.Runtime.Spec.{RunSpec, Profile}
use claude_contained.Plan.Step.{Step, Prompt, Answers}
use claude_contained.Plan.Facts.{Facts, HostState, new_host_paths}
use claude_contained.Plan.Account.{account_state_steps}
use claude_contained.Plan.Name.{deduplicate_name}
use claude_contained.Plan.Monad.{Outcome, run, done, asks, fails, Planning, ◌>>=◌, ◌>>◌, give, emit}
use claude_contained.Base.{Option, none, some}
use claude_contained.Base.{List, ◌++◌}
use claude_contained.Base.{Bytes}
use claude_contained.Plan.Args.{zellij_root_of, fixed_args, extra_mount_args, run_spec}
use claude_contained.Plan.Questions.{
  worktree_git_question, directory_steps, wanted_name, name_steps, lock_candidates,
  worktree_lock_question, forward_steps, shared_skills_part, node_modules_question,
}

-- The steps and the question or the run. `run` is there only when nothing is pending or wrong.
pub record Program : Type 0 where
  pub steps : List Step
  pub pending : Option Prompt
  pub run : Option RunSpec

abbrev pub pending_of : Outcome RunSpec → Option Prompt
pending_of (done spec) = none
pending_of (asks prompt) = some prompt
pending_of (fails lines) = none

abbrev pub run_of : Outcome RunSpec → Option RunSpec
run_of (done spec) = some spec
run_of (asks prompt) = none
run_of (fails lines) = none

abbrev pub error_of : Outcome RunSpec → Option (List Bytes)
error_of (done spec) = none
error_of (asks prompt) = none
error_of (fails lines) = some lines

-- The program that a planning comes to, and the lines of its error if there is one.
abbrev pub program_of : List Step → Outcome RunSpec → Program × Option (List Bytes)
program_of steps o = (record { steps = steps; pending = pending_of o; run = run_of o }, error_of o)

module _ (to_lower : Bytes → Bytes) where
  unfoldable pub planned : Config → HostState → Facts → Profile → Planning RunSpec
  planned cfg h f prof =
      let paths = new_host_paths h cfg.share_host_claude in
      let name = deduplicate_name (wanted_name to_lower cfg h f) f.running_containers in
      do
        worktree_repo ← worktree_git_question cfg f
        emit (directory_steps cfg paths (zellij_root_of f))
        emit (name_steps cfg)
        worktree_lock_question cfg (lock_candidates f worktree_repo) name
        emit (forward_steps cfg prof)
        emit (account_state_steps paths f)
        skills ← shared_skills_part f paths prof
        overlay ← node_modules_question cfg h f
        give (
            run_spec cfg f prof (
              fixed_args cfg h f prof paths worktree_repo name
              ++ extra_mount_args f.extra_mounts
              ++ skills
              ++ overlay))

  unfoldable pub build :
      Config → HostState → Facts → Profile → Answers → Program × Option (List Bytes)
  build cfg h f prof ans =
      let (steps, outcome) = run (planned cfg h f prof) ans in program_of steps outcome
