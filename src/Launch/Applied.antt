-- ===== src/Launch/Applied.antt =====
-- What the loop of `buildAndApply` in cmd/claude-contained/run.go applies.
use claude_contained.Cli.Config.{Config}
use claude_contained.Runtime.Spec.{Profile, RunSpec}
use claude_contained.Plan.Step.{Step, Prompt, Answers, answer_to, record_answer, no_answers}
use claude_contained.Plan.Facts.{Facts, HostState}
use claude_contained.Plan.Monad.{Outcome, done, asks, fails, run}
use claude_contained.Plan.Build.{Program, program_of, planned, build}
use claude_contained.Plan.Stable.{Later-record_answer, AsksNew}
use claude_contained.Plan.Replay.{planned-IsStable}
use claude_contained.Plan.Stable.{Continues-asks}
use claude_contained.Launch.Driver.{
  Ending, ready, aborted, usage, step_failed, Result, Round, ended, question, drop, apply_steps,
  conclude, round, drive, build_and_apply,
}
use claude_contained.Base.{◌≡◌, refl, sym, ap, ◌∙◌, subst, ◌⊎◌, inl, inr}
use claude_contained.Base.{Bool, true, Option, none, some, Bool-cases, is_some}
use claude_contained.Base.{List, [], ◌∷◌, ◌++◌, append_assoc, length, Extends}
use claude_contained.Base.{Bytes}

drop-append : (front more : List Step) → drop (length front) (front ++ more) ≡ more
drop-append [] more = refl
drop-append (s ∷ front) more = drop-append front more

-- All of the steps were applied, or those in front of one that failed.
abbrev pub IsApplied : (Step → Bool) → List Step → List Step → Option Step → Type 0
IsApplied breaks steps applied none = applied ≡ steps
IsApplied breaks steps applied (some s) =
    (rest : List Step) × (steps ≡ applied ++ s ∷ rest) × (breaks s ≡ true)

IsApplied-cons :
    (breaks : Step → Bool) (t : Step) (steps applied : List Step) (o : Option Step)
    → IsApplied breaks steps applied o
    → IsApplied breaks (t ∷ steps) (t ∷ applied) o
IsApplied-cons breaks t steps applied none h = ap (λ l. t ∷ l) h
IsApplied-cons breaks t steps applied (some s) (rest, e, x) = (rest, ap (λ l. t ∷ l) e, x)

apply_steps-IsApplied :
    (breaks : Step → Bool) (steps : List Step)
    → IsApplied breaks steps (apply_steps breaks steps).0 (apply_steps breaks steps).1
unfolding apply_steps
apply_steps-IsApplied breaks [] = refl
apply_steps-IsApplied breaks (t ∷ steps) = elim (Bool-cases (breaks t)) [
  | inl e ↦ rw (e, apply_steps) (steps, refl, e)
  | inr e ↦
      rw (e, apply_steps) (IsApplied-cons breaks t steps _ _ (apply_steps-IsApplied breaks steps))
]

IsApplied-append :
    (breaks : Step → Bool) (front steps applied : List Step) (o : Option Step)
    → IsApplied breaks steps applied o
    → IsApplied breaks (front ++ steps) (front ++ applied) o
IsApplied-append breaks front steps applied none h = ap (λ l. front ++ l) h
IsApplied-append breaks front steps applied (some s) (rest, e, x) =
    (rest, ap (λ l. front ++ l) e ∙ sym (append_assoc front applied (s ∷ rest)), x)

-- What the result of the loop says of the plan.
abbrev pub IsFaithful : (Step → Bool) → Ending → Program → List Step → Type 0
IsFaithful breaks ready p applied = (applied ≡ p.steps) × (is_some p.run ≡ true)
IsFaithful breaks aborted p applied = (applied ≡ p.steps) × (is_some p.pending ≡ true)
IsFaithful breaks (usage lines) p applied = applied ≡ p.steps
IsFaithful breaks (step_failed s) p applied = IsApplied breaks p.steps applied (some s)

-- The same of a round over a planning with these steps and this outcome; a question that is left has
-- no answer yet.
abbrev pub RoundFaithful : (Step → Bool) → Answers → List Step → Outcome RunSpec → Round → Type 0
RoundFaithful breaks a steps o (ended r) = IsFaithful breaks r.ending r.program r.applied
RoundFaithful breaks a steps o (question q p log) =
    (p ≡ (program_of steps o).0) × (log ≡ steps) × (o ≡ asks q) × (answer_to q.id a ≡ none)

pub Round-cases :
    (r : Round)
    → ((s : Result) × (r ≡ ended s))
      ⊎ ((q : Prompt) × (p : Program) × (log : List Step) × (r ≡ question q p log))
Round-cases (ended s) = inl (s, refl)
Round-cases (question q p log) = inr (q, p, log, refl)

module _ (breaks : Step → Bool) (to_lower : Bytes → Bytes) (cfg : Config) (h : HostState)
    (f : Facts) (prof : Profile) where
  abbrev pub plan : Answers → List Step × Outcome RunSpec
  plan = run (planned to_lower cfg h f prof)

  abbrev pub round_of : Answers → List Step → Round
  round_of = round breaks to_lower cfg h f prof

  abbrev pub drive_from : Answers → List Step → List Bool → Result
  drive_from = drive breaks to_lower cfg h f prof

  conclude-RoundFaithful :
      (a : Answers) (steps : List Step) (o : Outcome RunSpec) (log : List Step)
      (failed : Option Step)
      → IsApplied breaks steps log failed
      → AsksNew a o
      → let (p, error) = program_of steps o in
        RoundFaithful breaks a steps o (conclude breaks to_lower cfg h f prof p error log failed)
  unfolding conclude
  conclude-RoundFaithful a steps (done spec) log (some s) i n = i
  conclude-RoundFaithful a steps (asks q) log (some s) i n = i
  conclude-RoundFaithful a steps (fails lines) log (some s) i n = i
  conclude-RoundFaithful a steps (done spec) log none i n = (i, refl)
  conclude-RoundFaithful a steps (asks q) log none i n = (refl, i, refl, n)
  conclude-RoundFaithful a steps (fails lines) log none i n = i

  pub round-RoundFaithful :
      (a : Answers) (applied : List Step)
      → Extends (plan a).0 applied
      → RoundFaithful breaks a (plan a).0 (plan a).1 (round_of a applied)
  unfolding round build
  round-RoundFaithful a applied (more, e) =
      let later = drop (length applied) (plan a).0 in
      let split_here : later ≡ more = ap (drop (length applied)) e ∙ drop-append applied more in
      let (now, failed) = apply_steps breaks later in
      conclude-RoundFaithful a (plan a).0 (plan a).1 (applied ++ now) failed
        (subst (λ steps. IsApplied breaks steps (applied ++ now) failed)
          (ap (λ l. applied ++ l) split_here ∙ sym e)
          (IsApplied-append breaks applied later now failed (apply_steps-IsApplied breaks later)))
        ((planned-IsStable to_lower cfg h f prof).asks_new a)

  pub plan-Extends :
      (a : Answers) (q : Prompt) (b : Bool)
      → (plan a).1 ≡ asks q
      → answer_to q.id a ≡ none
      → Extends (plan (record_answer q.id b a)).0 (plan a).0
  plan-Extends a q b e n =
      Continues-asks (plan a).0 (plan a).1 q (plan (record_answer q.id b a)) e
        ((planned-IsStable to_lower cfg h f prof).continues a _ (Later-record_answer q.id b a n))

  drive-IsFaithful :
      (replies : List Bool) (a : Answers) (applied : List Step)
      → Extends (plan a).0 applied
      → let r = drive_from a applied replies in IsFaithful breaks r.ending r.program r.applied
  unfolding drive
  drive-IsFaithful [] a applied x =
      let w = round-RoundFaithful a applied x in
      elim (Round-cases (round_of a applied)) [
        | inl (s, e) ↦ rw (e, drive) (rw e at w)
        | inr (q, p, log, e) ↦
            rw (e, drive) (let left = rw e at w in rw (left.0, left.2) (left.1, refl))
      ]
  drive-IsFaithful (b ∷ replies) a applied x =
      let w = round-RoundFaithful a applied x in
      elim (Round-cases (round_of a applied)) [
        | inl (s, e) ↦ rw (e, drive) (rw e at w)
        | inr (q, p, log, e) ↦
            rw (e, drive)
              (let left = rw e at w in
                drive-IsFaithful replies (record_answer q.id b a) log
                  (rw left.1 (plan-Extends a q b left.2 left.3)))
      ]

  -- Whatever the terminal answers and wherever the host fails, `build_and_apply` has applied the steps of
  -- the plan it ends with, each once and in order: all of them when it ends with a run, which is then
  -- there, with a question left at the end of the input, which is then pending, or with a usage error,
  -- and those in front of the step that failed when one fails.
  pub build_and_apply-IsFaithful :
      (replies : List Bool)
      → let r = build_and_apply breaks to_lower cfg h f prof replies in
        IsFaithful breaks r.ending r.program r.applied
  unfolding build_and_apply
  build_and_apply-IsFaithful replies =
      drive-IsFaithful replies no_answers [] ((plan no_answers).0, refl)
