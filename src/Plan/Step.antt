-- ===== src/Plan/Step.antt =====
-- internal/plan/step.go: the steps, the questions, and the answers given so far.
use claude_contained.Base.{Bool, Option, none, some}
use claude_contained.Base.{List}
use claude_contained.Base.{Bytes}

pub data Step : Type 0 where
  mkdir_all remove_file : Bytes → Step
  copy_file move_file : Bytes → Bytes → Step
  -- The target, and the link that points at it.
  symlink : Bytes → Bytes → Step
  -- The text, and whether it goes to the standard error.
  print : Bytes → Bool → Step
  -- The repository, its worktrees and the owner.
  worktree_auto_lock : Bytes → List Bytes → Bytes → Step

pub data PromptId : Type 0 where
  worktree_git node_modules worktree_locks : PromptId

pub record Prompt : Type 0 where
  pub id : PromptId
  pub text : Bytes
  pub default : Bool

-- The map from questions to answers; `none` is a question that has not been asked.
pub record Answers : Type 0 where
  pub worktree_git_answer : Option Bool
  pub node_modules_answer : Option Bool
  pub worktree_locks_answer : Option Bool

abbrev pub answer_to : PromptId → Answers → Option Bool
answer_to worktree_git a = a.worktree_git_answer
answer_to node_modules a = a.node_modules_answer
answer_to worktree_locks a = a.worktree_locks_answer

-- `answers[id] = answer`
abbrev pub record_answer : PromptId → Bool → Answers → Answers
record_answer worktree_git b a = record a { worktree_git_answer = some b }
record_answer node_modules b a = record a { node_modules_answer = some b }
record_answer worktree_locks b a = record a { worktree_locks_answer = some b }

abbrev pub no_answers : Answers
no_answers = record {
  worktree_git_answer = none;
  node_modules_answer = none;
  worktree_locks_answer = none;
}
