-- ===== src/Launch/Ending.antt =====
-- How the loop of `buildAndApply` ends.
use claude_contained.Cli.Config.{Config}
use claude_contained.Runtime.Spec.{Profile, RunSpec}
use claude_contained.Plan.Step.{
  Step, PromptId, worktree_git, node_modules, worktree_locks, Answers, answer_to, record_answer,
  no_answers,
}
use claude_contained.Plan.Facts.{Facts, HostState}
use claude_contained.Plan.Monad.{Outcome, done, asks, fails}
use claude_contained.Plan.Build.{program_of, build}
use claude_contained.Launch.Driver.{
  Ending, ready, aborted, usage, step_failed, Round, ended, question, apply_steps, drop, conclude,
  round, drive, build_and_apply,
}
use claude_contained.Launch.Applied.{Round-cases, plan, round-RoundFaithful, plan-Extends}
use claude_contained.Base.{ℕ, ◌+◌, ◌≤◌, ◌≡◌, refl, inl, inr}
use claude_contained.Base.{Bool, true, false, Option, none, some, arith}
use claude_contained.Base.{List, [], ◌∷◌, ◌++◌, length, Extends}
use claude_contained.Base.{Bytes}

abbrev pub is_aborted : Ending → Bool
is_aborted aborted = true
is_aborted ready = false
is_aborted (usage lines) = false
is_aborted (step_failed s) = false

unanswered_one : Option Bool → ℕ
unanswered_one none = 1
unanswered_one (some b) = 0

unanswered : Answers → ℕ
unfolding unanswered_one
unanswered a =
    unanswered_one a.worktree_git_answer
    + unanswered_one a.node_modules_answer
    + unanswered_one a.worktree_locks_answer

unanswered-record_answer :
    (id : PromptId) (b : Bool) (a : Answers)
    → answer_to id a ≡ none
    → unanswered (record_answer id b a) + 1 ≡ unanswered a
unfolding unanswered
unanswered-record_answer worktree_git b a e = ground arith
unanswered-record_answer node_modules b a e = ground arith
unanswered-record_answer worktree_locks b a e = ground arith

abbrev EndsDecided : Round → Type 0
EndsDecided (ended r) = is_aborted r.ending ≡ false
EndsDecided (question q p log) = Unit

module _ (breaks : Step → Bool) (to_lower : Bytes → Bytes) (cfg : Config) (h : HostState)
    (f : Facts) (prof : Profile) where
  conclude-EndsDecided :
      (steps : List Step) (o : Outcome RunSpec) (log : List Step) (failed : Option Step)
      → let (p, error) = program_of steps o in
        EndsDecided (conclude breaks to_lower cfg h f prof p error log failed)
  unfolding conclude
  conclude-EndsDecided steps (done spec) log (some s) = refl
  conclude-EndsDecided steps (asks q) log (some s) = refl
  conclude-EndsDecided steps (fails lines) log (some s) = refl
  conclude-EndsDecided steps (done spec) log none = refl
  conclude-EndsDecided steps (asks q) log none = tt
  conclude-EndsDecided steps (fails lines) log none = refl

  round-EndsDecided :
      (a : Answers) (applied : List Step)
      → EndsDecided (round breaks to_lower cfg h f prof a applied)
  unfolding round build
  round-EndsDecided a applied =
      let p = plan breaks to_lower cfg h f prof a in
      let (now, failed) = apply_steps breaks (drop (length applied) p.0) in
      conclude-EndsDecided p.0 p.1 (applied ++ now) failed

  drive-ne-aborted :
      (replies : List Bool) (a : Answers) (applied : List Step)
      → Extends (plan breaks to_lower cfg h f prof a).0 applied
      → unanswered a ≤ length replies
      → is_aborted (drive breaks to_lower cfg h f prof a applied replies).ending ≡ false
  unfolding drive
  drive-ne-aborted [] a applied x l =
      let w = round-RoundFaithful breaks to_lower cfg h f prof a applied x in
      let d = round-EndsDecided a applied in
      elim (Round-cases (round breaks to_lower cfg h f prof a applied)) [
        | inl (s, e) ↦ rw (e, drive) (rw e at d)
        | inr (q, p, log, e) ↦
            let left = rw e at w in
            let fewer = unanswered-record_answer q.id true a left.3 in ground arith
      ]
  drive-ne-aborted (b ∷ replies) a applied x l =
      let w = round-RoundFaithful breaks to_lower cfg h f prof a applied x in
      let d = round-EndsDecided a applied in
      elim (Round-cases (round breaks to_lower cfg h f prof a applied)) [
        | inl (s, e) ↦ rw (e, drive) (rw e at d)
        | inr (q, p, log, e) ↦
            rw (e, drive)
              (let left = rw e at w in
                let fewer = unanswered-record_answer q.id b a left.3 in
                drive-ne-aborted replies (record_answer q.id b a) log
                  (rw left.1 (plan-Extends breaks to_lower cfg h f prof a q b left.2 left.3))
                  (ground arith))
      ]

  -- With an answer for each of the three questions that a plan can ask, the loop of `build_and_apply`
  -- does not run out of answers: it ends with a run, with a usage error or at a step that failed.
  pub build_and_apply-ne-aborted :
      (replies : List Bool)
      → 3 ≤ length replies
      → is_aborted (build_and_apply breaks to_lower cfg h f prof replies).ending ≡ false
  unfolding build_and_apply unanswered
  build_and_apply-ne-aborted replies l =
      drive-ne-aborted replies no_answers []
        ((plan breaks to_lower cfg h f prof no_answers).0, refl) l
