-- ===== src/Launch/Session.antt =====
-- The end of `runWith` in cmd/claude-contained/run.go, from the plan on: the worktree locks that the
-- applied steps take, the container, the signals, and the cleanup that is deferred.
use claude_contained.Cli.Config.{Config}
use claude_contained.Runtime.Spec.{Profile, RunSpec}
use claude_contained.Plan.Step.{
  Step, mkdir_all, remove_file, copy_file, move_file, symlink, print, worktree_auto_lock,
}
use claude_contained.Plan.Facts.{Facts, HostState}
use claude_contained.Launch.Driver.{Ending, ready, aborted, usage, step_failed, build_and_apply}
use claude_contained.Worktree.Lock.{
  Tools, Worktrees, LockRun, lock_worktrees, release_worktree_locks,
}
use claude_contained.Worktree.Holder.{ℤ, pos, negsuc}
use claude_contained.Base.{ℕ, zero, suc, ◌+◌}
use claude_contained.Base.{Bool, true, false, not, ◌||◌, Option, none, some, if◌then◌else◌}
use claude_contained.Base.{List, [], ◌∷◌, is_nil}
use claude_contained.Base.{Bytes}

-- `executor`: the locks that outlive the plan.
pub record Executor : Type 0 where
  pub lock_repo : Bytes
  pub lock_owner : Bytes
  pub locked : List Bytes

abbrev pub new_executor : Executor
new_executor = record { lock_repo = []; lock_owner = []; locked = [] }

-- How an attempt to acquire the mutex of the worktree locks ends, and the lines it writes.
pub record Mutex : Type 0 where
  pub held : Bool
  pub lines : List Bytes

module _ (tools : Tools) (mutex : Mutex) where
  abbrev pub executor_of : Bytes → Bytes → LockRun → Executor × Worktrees
  executor_of repo owner r =
      (record { lock_repo = repo; lock_owner = owner; locked = r.locked }, r.store)

  -- What `apply` does to the executor and to the worktrees, for a step that succeeds.
  unfoldable pub take_locks : Step → Executor × Worktrees → Executor × Worktrees
  unfolding lock_worktrees
  take_locks (worktree_auto_lock repo wts owner) (e, st) =
      executor_of repo owner (lock_worktrees tools owner mutex.held mutex.lines wts st)
  take_locks (mkdir_all path) s = s
  take_locks (remove_file path) s = s
  take_locks (copy_file src dst) s = s
  take_locks (move_file src dst) s = s
  take_locks (symlink target link) s = s
  take_locks (print text to_stderr) s = s

  unfoldable pub take_all_locks : List Step → Executor × Worktrees → Executor × Worktrees
  unfolding take_locks
  take_all_locks [] s = s
  take_all_locks (step ∷ steps) s = take_all_locks steps (take_locks step s)

  -- `releaseLocks`
  unfoldable pub release_locks : Executor → Worktrees → Worktrees
  unfolding release_worktree_locks
  release_locks e st =
      if is_nil e.lock_repo || is_nil e.locked
      then st
      else (release_worktree_locks tools e.lock_owner e.lock_repo mutex.held mutex.lines e.locked
          st).0

-- `signalExitCode`, for the number of a signal.
abbrev pub signal_exit_code : ℕ → ℤ
signal_exit_code n = pos (128 + n)

-- The polls of `awaitPendingSignal`: the first signal that is seen before the deadline.
unfoldable pub poll : List (Option ℕ) → Option ℕ
poll [] = none
poll (some n ∷ polls) = some n
poll (none ∷ polls) = poll polls

abbrev pub is_killed : ℤ → Bool
is_killed (pos n) = false
is_killed (negsuc zero) = true
is_killed (negsuc (suc n)) = false

unfoldable pub await_pending_signal : Option ℕ → ℤ → List (Option ℕ) → Option ℕ
unfolding poll
await_pending_signal (some n) exit polls = some n
await_pending_signal none exit polls = if not (is_killed exit) then none else poll polls

-- The second result of `buildAndApply`.
abbrev pub code_of : Ending → ℕ
code_of ready = 0
code_of aborted = 1
code_of (usage lines) = 2
code_of (step_failed s) = 1

-- What happens while the launcher runs: the signals caught before the container starts, at its end and
-- at each of the polls, and the status of the container.
pub record Happenings : Type 0 where
  pub signal_before : Option ℕ
  pub signal_after : Option ℕ
  pub polls : List (Option ℕ)
  pub container_exit : RunSpec → ℤ

-- The container that ran, if one did, and the status.
unfoldable pub status_after : Happenings → RunSpec → ℤ
unfolding await_pending_signal
status_after w spec = elim (await_pending_signal w.signal_after (w.container_exit spec) w.polls) [
  | some n ↦ signal_exit_code n
  | none ↦ w.container_exit spec
]

unfoldable pub launch : Happenings → ℕ → Option RunSpec → Option RunSpec × ℤ
unfolding status_after
launch w (suc code) run = (none, pos (suc code))
launch w zero none = (none, pos 0)
launch w zero (some spec) = elim (w.signal_before) [
  | some n ↦ (none, signal_exit_code n)
  | none ↦ (some spec, status_after w spec)
]

pub record Session : Type 0 where
  pub ran : Option RunSpec
  pub status : ℤ
  pub worktrees : Worktrees

module _ (fails : Step → Bool) (to_lower : Bytes → Bytes) (cfg : Config) (h : HostState) (f : Facts)
    (prof : Profile) (tools : Tools) (taking releasing : Mutex) where
  -- The rest of `runWith`: whatever the plan comes to, the deferred cleanup releases the locks last.
  unfoldable pub run_session : Happenings → List Bool → Worktrees → Session
  unfolding build_and_apply take_all_locks release_locks launch
  run_session w replies st =
      let r = build_and_apply fails to_lower cfg h f prof replies in
      let (e, held) = take_all_locks tools taking r.applied (new_executor, st) in
      let (ran, status) = launch w (code_of r.ending) r.program.run in
      record { ran = ran; status = status; worktrees = release_locks tools releasing e held }
