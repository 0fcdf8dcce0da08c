-- ===== src/Launch/Status.antt =====
-- When the container runs, and the status of the launcher, in cmd/claude-contained/run.go.
use claude_contained.Cli.Config.{Config}
use claude_contained.Runtime.Spec.{Profile, RunSpec}
use claude_contained.Plan.Step.{Step}
use claude_contained.Plan.Facts.{Facts, HostState}
use claude_contained.Plan.Monad.{run}
use claude_contained.Plan.Build.{Program}
use claude_contained.Launch.Driver.{Ending, ready, aborted, usage, step_failed, build_and_apply}
use claude_contained.Launch.Applied.{IsFaithful, build_and_apply-IsFaithful}
use claude_contained.Launch.Session.{Mutex, code_of, Happenings, launch, run_session}
use claude_contained.Worktree.Lock.{Tools, Worktrees}
use claude_contained.Base.{◌≡◌, refl, inl, inr}
use claude_contained.Base.{Bool, true, Option, none, some, Option-cases, is_some}
use claude_contained.Base.{List}
use claude_contained.Base.{Bytes}

launch-ran :
    (w : Happenings) (e : Ending) (run : Option RunSpec)
    → is_some (launch w (code_of e) run).0 ≡ true
    → (e ≡ ready) × ((launch w (code_of e) run).0 ≡ run) × (w.signal_before ≡ none)
unfolding launch
launch-ran w ready none h = cc
launch-ran w ready (some s) h = elim (Option-cases w.signal_before) [
  | inl q ↦ rw (q, launch) (refl, refl, refl)
  | inr (n, q) ↦ let out = rw (q, launch) at h in cc
]
launch-ran w aborted run h = cc
launch-ran w (usage lines) run h = cc
launch-ran w (step_failed s) run h = cc

ready-applied :
    (breaks : Step → Bool) (e : Ending) (p : Program) (applied : List Step)
    → e ≡ ready
    → IsFaithful breaks e p applied
    → applied ≡ p.steps
ready-applied breaks ready p applied q i = i.0
ready-applied breaks aborted p applied q i = i.0
ready-applied breaks (usage lines) p applied q i = i
ready-applied breaks (step_failed s) p applied q i = cc

module _ (breaks : Step → Bool) (to_lower : Bytes → Bytes) (cfg : Config) (h : HostState)
    (f : Facts) (prof : Profile) (tools : Tools) (taking releasing : Mutex) where
  -- A container runs only when no signal was caught before, as the run of the plan, and when all of the
  -- steps of that plan were applied.
  pub run_session-ran :
      (w : Happenings) (replies : List Bool) (st : Worktrees)
      → is_some (run_session breaks to_lower cfg h f prof tools taking releasing w replies st).ran
        ≡ true
      → let s = run_session breaks to_lower cfg h f prof tools taking releasing w replies st in
        let r = build_and_apply breaks to_lower cfg h f prof replies in
        (r.applied ≡ r.program.steps) × (s.ran ≡ r.program.run) × (w.signal_before ≡ none)
  unfolding run_session
  run_session-ran w replies st e =
      let r = build_and_apply breaks to_lower cfg h f prof replies in
      let (is_ready, run, quiet) = launch-ran w r.ending r.program.run e in
      (
        ready-applied breaks r.ending r.program r.applied is_ready
            (build_and_apply-IsFaithful breaks to_lower cfg h f prof replies),
        run,
        quiet,
      )
