-- ===== src/Plan/Replay.antt =====
-- `Build` of internal/plan/plan.go, called again with more answers.
use claude_contained.Cli.Config.{Config}
use claude_contained.Runtime.Spec.{Profile, RunSpec}
use claude_contained.Plan.Facts.{Facts, HostState, HostPaths, WorktreeLockCandidates}
use claude_contained.Plan.Skills.{Sharing}
use claude_contained.Plan.Questions.{
  worktree_git_question, worktree_lock_question, shared_skills_part, node_modules_question,
  sharing_outcome,
}
use claude_contained.Plan.Build.{planned, build, pending_of}
use claude_contained.Plan.Monad.{Outcome, done, asks, fails, run}
use claude_contained.Plan.Step.{Prompt, Answers, answer_to, record_answer}
use claude_contained.Base.{◌≡◌, Bool, Extends}
use claude_contained.Plan.Stable.{Later-record_answer, Continues-asks, AsksNew-asks}
use claude_contained.Plan.Stable.{
  IsStable, give-IsStable, emit-IsStable, stop_with-IsStable, ask-IsStable, bind-IsStable,
  then-IsStable, if-IsStable,
}
use claude_contained.Base.{Option, none, some}
use claude_contained.Base.{List}
use claude_contained.Base.{Bytes}

ruleset stability = (
  give-IsStable, emit-IsStable, stop_with-IsStable, ask-IsStable, bind-IsStable, then-IsStable,
  if-IsStable,
)

worktree_git_question-IsStable : (cfg : Config) (f : Facts) → IsStable (worktree_git_question cfg f)
unfolding worktree_git_question
worktree_git_question-IsStable cfg f = search stability depth 12

worktree_lock_question-IsStable :
    (cfg : Config) (c : WorktreeLockCandidates) (name : Bytes)
    → IsStable (worktree_lock_question cfg c name)
unfolding worktree_lock_question
worktree_lock_question-IsStable cfg c name = search stability depth 12

sharing_outcome-IsStable : (r : Sharing × Option (List Bytes)) → IsStable (sharing_outcome r)
sharing_outcome-IsStable (s, none) = search stability
sharing_outcome-IsStable (s, some lines) = search stability

shared_skills_part-IsStable :
    (f : Facts) (paths : HostPaths) (prof : Profile) → IsStable (shared_skills_part f paths prof)
unfolding shared_skills_part
shared_skills_part-IsStable f paths prof = search (stability, sharing_outcome-IsStable)

node_modules_question-IsStable :
    (cfg : Config) (h : HostState) (f : Facts) → IsStable (node_modules_question cfg h f)
unfolding node_modules_question
node_modules_question-IsStable cfg h f = search stability depth 12

pending_of-asks : (o : Outcome RunSpec) (q : Prompt) → pending_of o ≡ some q → o ≡ asks q
pending_of-asks (done spec) q e = cc
pending_of-asks (asks p) q e = cc
pending_of-asks (fails lines) q e = cc

module _ (to_lower : Bytes → Bytes) (cfg : Config) (h : HostState) (f : Facts)
    (prof : Profile) where
  pub planned-IsStable : IsStable (planned to_lower cfg h f prof)
  unfolding planned
  planned-IsStable =
      search
        (
          stability, worktree_git_question-IsStable, worktree_lock_question-IsStable,
          shared_skills_part-IsStable, node_modules_question-IsStable,
        )
        depth 14

  -- When `Build` stops at a question, the question has no answer yet, and with any answer to it recorded
  -- `Build` emits the same steps again in front of what is new.
  pub build-Extends :
      (ans : Answers) (q : Prompt) (b : Bool)
      → (build to_lower cfg h f prof ans).0.pending ≡ some q
      → (answer_to q.id ans ≡ none)
        × Extends
            (build to_lower cfg h f prof (record_answer q.id b ans)).0.steps
            (build to_lower cfg h f prof ans).0.steps
  unfolding build
  build-Extends ans q b e =
      let s = planned-IsStable in
      let p = run (planned to_lower cfg h f prof) ans in
      let stopped = pending_of-asks p.1 q e in
      let fresh = AsksNew-asks ans p.1 q stopped (s.asks_new ans) in
      (
        fresh,
        Continues-asks p.0 p.1 q (run (planned to_lower cfg h f prof) (record_answer q.id b ans))
            stopped (s.continues ans _ (Later-record_answer q.id b ans fresh)),
      )
