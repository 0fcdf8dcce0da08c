-- ===== src/Zellij/Tests.antt =====
-- Runs of the Zellij attach and of session discovery on concrete inputs.
use claude_contained.Zellij.Resolve.{session_from_env, Record, AttachRequest, resolve_attach}
use claude_contained.Zellij.Safe.{IsLive, resolve_attach-IsLive}
use claude_contained.Zellij.Planned.{session_from_env-build}
use claude_contained.Runtime.Spec.{Arg, env_arg, RunSpec}
use claude_contained.Runtime.Inspect.{env_lines}
use claude_contained.Env.Store.{pairs, flag}
use claude_contained.Env.Invariant.{Operation, set_op, run}
use claude_contained.Plan.Step.{PromptId, Answers, record_answer, no_answers}
use claude_contained.Plan.Facts.{Facts}
use claude_contained.Plan.Build.{build}
use claude_contained.Plan.Tests.{
  sample_config, sample_facts, sample_host, sample_profile, no_lowering,
}
use claude_contained.Plan.Build.{planned}
use claude_contained.Plan.Monad.{◌>>=◌, ◌>>◌, emit, ask, give}
use claude_contained.Plan.Questions.{
  worktree_git_question, worktree_lock_question, lock_candidates, shared_skills_part,
  node_modules_question,
}
use claude_contained.Plan.Args.{run_spec, fixed_args}
use claude_contained.Host.FilePath.{join_path}
use claude_contained.Env.Store.{
  set, validate, valid_key, key_reserved_always, put, key_and_value, explicit_keys_value,
}
use claude_contained.Plan.Args.{extra_mount_args}
use claude_contained.Base.{◌≡◌, refl}
use claude_contained.Base.{true, false, Option, none, some}
use claude_contained.Base.{List, [], ◌∷◌}
use claude_contained.Base.{bytes, same, has_prefix, trim_prefix, cut, join, split, contains}

abbrev two_records : List Record
two_records =
    record { container = bytes "aic-a"; session = bytes "cc-a" }
    ∷ record { container = bytes "aic-b"; session = bytes "cc-b" }
    ∷ []

abbrev attach_request : AttachRequest
attach_request = record {
  session = bytes "cc-b";
  srt_disable = false;
  home = bytes "/h";
  records = two_records;
  prompt = none;
}

resolve_attach-IsLive_example : IsLive attach_request (resolve_attach attach_request).verdict
resolve_attach-IsLive_example = resolve_attach-IsLive attach_request

abbrev one_variable : List Operation
one_variable = set_op (bytes "A=CLAUDE_CONTAINED_ZELLIJ=1") (bytes "--env") flag ∷ []

abbrev facts_with_variable : Facts
facts_with_variable = record sample_facts { env = pairs (run one_variable []) }

abbrev two_answers : Answers
two_answers =
    record_answer PromptId.node_modules true (record_answer PromptId.worktree_git true no_answers)

abbrev spec_of : Option RunSpec → RunSpec
spec_of (some spec) = spec
spec_of none = record { args = []; image = []; command = [] }

abbrev planned_spec : RunSpec
planned_spec =
    spec_of
      (build no_lowering sample_config sample_host facts_with_variable sample_profile
        two_answers).0.run

session_from_env-build_example : session_from_env (env_lines planned_spec.args) ≡ bytes "cc-p"
unfolding build planned ◌>>=◌ ◌>>◌ worktree_git_question emit ask give worktree_lock_question
    lock_candidates shared_skills_part node_modules_question run_spec fixed_args extra_mount_args
    join_path has_prefix join set validate valid_key key_reserved_always put key_and_value
    explicit_keys_value cut contains same split
session_from_env-build_example =
    session_from_env-build no_lowering sample_config sample_host facts_with_variable sample_profile
      one_variable two_answers planned_spec refl refl refl

-- A value with newlines tells of a session that nothing planned.
abbrev announcing : List Arg
announcing =
    env_arg (bytes "A") (bytes "1\nCLAUDE_CONTAINED_ZELLIJ=1\nCLAUDE_CONTAINED_ZELLIJ_SESSION=cc-x")
    ∷ []

announced_session : session_from_env (env_lines announcing) ≡ bytes "cc-x"
unfolding session_from_env env_lines same has_prefix trim_prefix
announced_session = refl
