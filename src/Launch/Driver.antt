-- ===== src/Launch/Driver.antt =====
-- cmd/claude-contained/run.go: `buildAndApply`. The host is the parameter `fails`, which says at which
-- steps the operating system reports an error; the terminal is the list of the answers that the user
-- will give, and its end is the end of the input.
use claude_contained.Cli.Config.{Config}
use claude_contained.Runtime.Spec.{Profile}
use claude_contained.Plan.Step.{Step, Prompt, Answers, record_answer, no_answers}
use claude_contained.Plan.Facts.{Facts, HostState}
use claude_contained.Plan.Build.{Program, build}
use claude_contained.Base.{ℕ, zero, suc}
use claude_contained.Base.{Bool, Option, none, some, if◌then◌else◌}
use claude_contained.Base.{List, [], ◌∷◌, ◌++◌, length}
use claude_contained.Base.{Bytes}

-- How the loop ends: with a run, without an answer, with the lines of a usage error, or at a step.
pub data Ending : Type 0 where
  ready aborted : Ending
  usage : List Bytes → Ending
  step_failed : Step → Ending

pub record Result : Type 0 where
  pub program : Program
  pub applied : List Step
  pub ending : Ending

-- What one round comes to.
pub data Round : Type 0 where
  ended : Result → Round
  question : Prompt → Program → List Step → Round

-- `steps[n:]`
abbrev pub drop : ℕ → List Step → List Step
drop zero steps = steps
drop (suc n) [] = []
drop (suc n) (s ∷ steps) = drop n steps

module _ (fails : Step → Bool) where
  -- `apply`: the steps that succeeded, and the one that did not.
  unfoldable pub apply_steps : List Step → List Step × Option Step
  apply_steps [] = ([], none)
  apply_steps (s ∷ steps) =
      let (now, failed) = apply_steps steps in if fails s then ([], some s) else (s ∷ now, failed)

module _ (fails : Step → Bool) (to_lower : Bytes → Bytes) (cfg : Config) (h : HostState) (f : Facts)
    (prof : Profile) where
  -- What is decided once the new steps are applied.
  unfoldable pub conclude : Program → Option (List Bytes) → List Step → Option Step → Round
  conclude program error applied (some s) =
      ended (record { program = program; applied = applied; ending = step_failed s })
  conclude program (some lines) applied none =
      ended (record { program = program; applied = applied; ending = usage lines })
  conclude program none applied none = elim (program.pending) [
    | none ↦ ended (record { program = program; applied = applied; ending = ready })
    | some prompt ↦ question prompt program applied
  ]

  unfoldable pub round : Answers → List Step → Round
  unfolding conclude
  round answers applied =
      let (program, error) = build to_lower cfg h f prof answers in
      let (now, failed) = apply_steps fails (drop (length applied) program.steps) in
      conclude program error (applied ++ now) failed

  unfoldable pub drive : Answers → List Step → List Bool → Result
  unfolding round
  drive answers applied [] = elim (round answers applied) [
    | ended r ↦ r
    | question prompt program log ↦ record { program = program; applied = log; ending = aborted }
  ]
  drive answers applied (b ∷ replies) = elim (round answers applied) [
    | ended r ↦ r
    | question prompt program log ↦ drive (record_answer prompt.id b answers) log replies
  ]

  unfoldable pub build_and_apply : List Bool → Result
  unfolding drive
  build_and_apply replies = drive no_answers [] replies
