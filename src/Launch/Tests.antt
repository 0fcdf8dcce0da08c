-- ===== src/Launch/Tests.antt =====
-- Runs of the launcher's loop on concrete inputs.
use claude_contained.Plan.Step.{Step}
use claude_contained.Plan.Tests.{
  sample_config, sample_facts, sample_host, sample_profile, no_lowering,
}
use claude_contained.Launch.Driver.{build_and_apply}
use claude_contained.Launch.Applied.{IsFaithful, build_and_apply-IsFaithful}
use claude_contained.Launch.Ending.{is_aborted, build_and_apply-ne-aborted}
use claude_contained.Plan.Args.{zellij_root_of}
use claude_contained.Host.FilePath.{join_path}
use claude_contained.Plan.Questions.{lock_candidates}
use claude_contained.Base.{has_prefix, join}
use claude_contained.Plan.Monad.{give}
use claude_contained.Plan.Questions.{
  directory_steps, name_steps, worktree_lock_question, forward_steps, shared_skills_part,
  node_modules_question,
}
use claude_contained.Plan.Account.{account_state_steps, claude_json_steps, migrate_steps}
use claude_contained.Launch.Session.{launch}
use claude_contained.Plan.Facts.{Facts}
use claude_contained.Plan.Name.{deduplicate_name}
use claude_contained.Plan.Questions.{wanted_name, worktree_git_question}
use claude_contained.Plan.Build.{planned, build}
use claude_contained.Plan.Monad.{◌>>=◌, ◌>>◌, emit, ask}
use claude_contained.Launch.Driver.{apply_steps}
use claude_contained.Worktree.Refine.{file_for}
use claude_contained.Base.{contains, same, decimal}
use claude_contained.Launch.Session.{Mutex, Happenings, Session, run_session}
use claude_contained.Launch.Unwound.{run_session-restores}
use claude_contained.Launch.Status.{run_session-ran}
use claude_contained.Env.File.{load_file}
use claude_contained.Launch.Environment.{
  no_regular_file, unreadable_file, regular_file, complete_env,
}
use claude_contained.Launch.Filled.{IsFilled, IsLoaded, complete_env_lem}
use claude_contained.Worktree.Holder.{pos}
use claude_contained.Worktree.Tests.{sample_tools, sample_tools-IsDocumented, sample_store}
use claude_contained.Base.{◌≡◌, refl}
use claude_contained.Base.{Bool, true, false, none, some, arith}
use claude_contained.Base.{List, [], ◌∷◌}
use claude_contained.Base.{bytes, same, has_prefix, join, contains, decimal}

-- A host on which no step fails.
abbrev never : Step → Bool
never s = false

build_and_apply-IsFaithful_example :
    let r =
      build_and_apply never no_lowering sample_config sample_host sample_facts sample_profile
        (true ∷ false ∷ []) in
    IsFaithful never r.ending r.program r.applied
build_and_apply-IsFaithful_example =
    build_and_apply-IsFaithful never no_lowering sample_config sample_host sample_facts
      sample_profile (true ∷ false ∷ [])

build_and_apply-ne-aborted_example :
    is_aborted
      (build_and_apply never no_lowering sample_config sample_host sample_facts sample_profile
        (true ∷ false ∷ true ∷ [])).ending
    ≡ false
build_and_apply-ne-aborted_example =
    build_and_apply-ne-aborted never no_lowering sample_config sample_host sample_facts
      sample_profile (true ∷ false ∷ true ∷ []) (omega arith)

abbrev free_mutex : Mutex
free_mutex = record { held = true; lines = [] }

-- A signal comes before the container would start.
abbrev sample_happenings : Happenings
sample_happenings = record {
  signal_before = some 2;
  signal_after = none;
  polls = [];
  container_exit = λ spec. pos 0;
}

abbrev quiet_happenings : Happenings
quiet_happenings = record sample_happenings { signal_before = none }

-- With linked worktrees that the container does not see.
abbrev locking_facts : Facts
locking_facts = record sample_facts {
  worktree_locks = record { repo = bytes "/r"; hidden = bytes "/w" ∷ bytes "/u" ∷ [] };
  worktree_locks_with_git_mount = record {
    repo = bytes "/r";
    hidden = bytes "/w" ∷ bytes "/u" ∷ [];
  };
}

abbrev sample_session : Happenings → List Bool → Session
sample_session w replies =
    run_session never no_lowering sample_config sample_host locking_facts sample_profile
      sample_tools free_mutex free_mutex w replies sample_store

run_session-restores_example :
    (sample_session sample_happenings (true ∷ true ∷ true ∷ [])).worktrees (bytes "/w")
    ≡ sample_store (bytes "/w")
unfolding deduplicate_name contains same wanted_name decimal file_for
run_session-restores_example =
    run_session-restores never no_lowering sample_config sample_host locking_facts sample_profile
      sample_tools free_mutex free_mutex sample_tools-IsDocumented sample_happenings
      (true ∷ true ∷ true ∷ []) sample_store (bytes "/w") [] refl refl refl refl refl

run_session-ran_example :
    (let s = sample_session quiet_happenings (true ∷ true ∷ true ∷ []) in
      let r =
        build_and_apply never no_lowering sample_config sample_host locking_facts sample_profile
          (true ∷ true ∷ true ∷ []) in
      (r.applied ≡ r.program.steps)
      × (s.ran ≡ r.program.run)
      × (quiet_happenings.signal_before ≡ none))
unfolding run_session build_and_apply launch apply_steps build planned ◌>>=◌ worktree_git_question
    ◌>>◌ emit ask give directory_steps worktree_lock_question forward_steps account_state_steps
    claude_json_steps migrate_steps shared_skills_part node_modules_question zellij_root_of
    join_path has_prefix join name_steps lock_candidates
run_session-ran_example =
    run_session-ran never no_lowering sample_config sample_host locking_facts sample_profile
      sample_tools free_mutex free_mutex quiet_happenings (true ∷ true ∷ true ∷ []) sample_store
      refl

complete_env_lem_example :
    let complete = complete_env (bytes "UTC") [] in
    IsFilled (bytes "UTC") [] [] (bytes "TZ") (complete true no_regular_file [])
    × IsFilled (bytes "UTC") [] [] (bytes "TZ") (complete false no_regular_file [])
    × (complete false (unreadable_file (bytes "denied")) [] ≡ (record {
      store = [];
      code = 2;
      lines = bytes "error: cannot read .claude-contained/env: denied" ∷ [];
    }))
    × IsLoaded
        (bytes "UTC")
        []
        (bytes "TZ")
        (load_file (bytes "A=1\n") [])
        (complete false (regular_file (bytes "A=1\n")) [])
complete_env_lem_example =
    complete_env_lem (bytes "UTC") [] no_regular_file (bytes "denied") (bytes "A=1\n") []
      (bytes "TZ")
