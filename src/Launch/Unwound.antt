-- ===== src/Launch/Unwound.antt =====
-- What the end of `runWith` in cmd/claude-contained/run.go leaves of the worktree locks.
use claude_contained.Cli.Config.{Config}
use claude_contained.Runtime.Spec.{Profile}
use claude_contained.Plan.Step.{
  Step, mkdir_all, remove_file, copy_file, move_file, symlink, print, worktree_auto_lock, Answers,
  record_answer, no_answers,
}
use claude_contained.Plan.Facts.{Facts, HostState}
use claude_contained.Plan.Locks.{locks_of, locks_of-append, LocksOnce}
use claude_contained.Plan.OneLock.{lock_owner_of, planned-LocksOnce}
use claude_contained.Plan.Build.{Program, build}
use claude_contained.Launch.Driver.{
  Ending, ready, aborted, usage, step_failed, Round, ended, question, conclude, round, drive,
  build_and_apply,
}
use claude_contained.Launch.Applied.{Round-cases, plan, IsFaithful, build_and_apply-IsFaithful}
use claude_contained.Launch.Session.{
  Executor, new_executor, Mutex, executor_of, take_all_locks, release_locks, Happenings,
  run_session,
}
use claude_contained.Worktree.Fields.{is_word}
use claude_contained.Worktree.Lock.{
  Tools, Worktrees, LockRun, lock_worktrees, release_worktree_locks,
}
use claude_contained.Worktree.Refine.{IsDocumented, file_for}
use claude_contained.Worktree.Restore.{release_worktree_locks-lock_worktrees}
use claude_contained.Base.{◌≡◌, refl, sym, ap, ◌∙◌, ◌⊎◌, inl, inr}
use claude_contained.Base.{Bool, true, false, ◌||◌, Option, none, some, Bool-cases, Option-cases}
use claude_contained.Base.{List, [], ◌∷◌, ◌++◌, append-nil, is_nil, every}
use claude_contained.Base.{Bytes, contains}

prefix_nil : {A : Type 0} (xs ys : List A) → xs ++ ys ≡ [] → xs ≡ []
prefix_nil [] ys h = refl
prefix_nil (a ∷ xs) ys h = cc

prefix_one : {A : Type 0} (x : A) (xs ys : List A) → xs ++ ys ≡ x ∷ [] → (xs ≡ []) ⊎ (xs ≡ x ∷ [])
prefix_one x [] ys h = inl refl
prefix_one x (a ∷ []) ys h = inr cc
prefix_one x (a ∷ b ∷ xs) ys h = cc

prefix-LocksOnce :
    (owner : Bytes) (steps xs ys : List Step)
    → steps ≡ xs ++ ys
    → LocksOnce owner steps
    → LocksOnce owner xs
prefix-LocksOnce owner steps xs ys e (inl q) = inl (record {
  no_locks =
      prefix_nil (locks_of xs) (locks_of ys)
        (sym (locks_of-append xs ys) ∙ ap locks_of (sym e) ∙ q.no_locks);
})
prefix-LocksOnce owner steps xs ys e (inr (repo, n, l)) =
    elim (prefix_one (repo, owner) (locks_of xs) (locks_of ys)
      (sym (locks_of-append xs ys) ∙ ap locks_of (sym e) ∙ l)) [
        | inl q ↦ inl (record { no_locks = q })
        | inr q ↦ inr (repo, n, q)
      ]

IsFaithful-prefix :
    (breaks : Step → Bool) (e : Ending) (p : Program) (applied : List Step)
    → IsFaithful breaks e p applied
    → (rest : List Step) × (p.steps ≡ applied ++ rest)
IsFaithful-prefix breaks ready p applied i = ([], sym i.0 ∙ sym (append-nil applied))
IsFaithful-prefix breaks aborted p applied i = ([], sym i.0 ∙ sym (append-nil applied))
IsFaithful-prefix breaks (usage lines) p applied i = ([], sym i ∙ sym (append-nil applied))
IsFaithful-prefix breaks (step_failed s) p applied (rest, e, x) = (s ∷ rest, e)

module _ (tools : Tools) (mutex : Mutex) where
  take_all_locks-quiet :
      (steps : List Step) (s : Executor × Worktrees)
      → locks_of steps ≡ []
      → take_all_locks tools mutex steps s ≡ s
  unfolding take_all_locks locks_of
  take_all_locks-quiet [] s h = refl
  take_all_locks-quiet (worktree_auto_lock repo wts owner ∷ steps) s h = cc
  take_all_locks-quiet (mkdir_all path ∷ steps) s h = take_all_locks-quiet steps s h
  take_all_locks-quiet (remove_file path ∷ steps) s h = take_all_locks-quiet steps s h
  take_all_locks-quiet (copy_file src dst ∷ steps) s h = take_all_locks-quiet steps s h
  take_all_locks-quiet (move_file src dst ∷ steps) s h = take_all_locks-quiet steps s h
  take_all_locks-quiet (symlink target link ∷ steps) s h = take_all_locks-quiet steps s h
  take_all_locks-quiet (print text to_stderr ∷ steps) s h = take_all_locks-quiet steps s h

  take_all_locks-one :
      (steps : List Step) (e : Executor) (st : Worktrees) (repo owner : Bytes)
      → locks_of steps ≡ (repo, owner) ∷ []
      → (wts : List Bytes) × (take_all_locks tools mutex steps (e, st)
          ≡ executor_of tools mutex repo owner
              (lock_worktrees tools owner mutex.held mutex.lines wts st))
  unfolding take_all_locks locks_of
  take_all_locks-one [] e st repo owner h = cc
  take_all_locks-one (worktree_auto_lock r wts o ∷ steps) e st repo owner h =
      let here : Bytes × Bytes = (r, o) in
      let first : here ≡ (repo, owner) = cc in
      let none_left : locks_of steps ≡ [] = cc in
      let e' : r ≡ repo = ap (λ x. x.0) first in
      let o' : o ≡ owner = ap (λ x. x.1) first in
      (wts, take_all_locks-quiet steps _ none_left ∙ rw (e', o') refl)
  take_all_locks-one (mkdir_all path ∷ steps) e st repo owner h =
      take_all_locks-one steps e st repo owner h
  take_all_locks-one (remove_file path ∷ steps) e st repo owner h =
      take_all_locks-one steps e st repo owner h
  take_all_locks-one (copy_file src dst ∷ steps) e st repo owner h =
      take_all_locks-one steps e st repo owner h
  take_all_locks-one (move_file src dst ∷ steps) e st repo owner h =
      take_all_locks-one steps e st repo owner h
  take_all_locks-one (symlink target link ∷ steps) e st repo owner h =
      take_all_locks-one steps e st repo owner h
  take_all_locks-one (print text to_stderr ∷ steps) e st repo owner h =
      take_all_locks-one steps e st repo owner h

  release_locks-release :
      (repo owner : Bytes) (r : LockRun)
      → release_locks tools mutex
          (record { lock_repo = repo; lock_owner = owner; locked = r.locked })
          r.store
        ≡ (release_worktree_locks tools owner repo mutex.held mutex.lines r.locked r.store).0
  unfolding release_locks release_worktree_locks
  release_locks-release repo owner r = elim (Bool-cases (is_nil repo || is_nil r.locked)) [
    | inl g ↦ rw g refl
    | inr g ↦ rw g refl
  ]

release_locks-nothing :
    (tools : Tools) (mutex : Mutex) (st : Worktrees)
    → release_locks tools mutex new_executor st ≡ st
unfolding release_locks
release_locks-nothing tools mutex st = refl

module _ (tools : Tools) (taking releasing : Mutex) where
  -- The locks that some steps take are released again.
  release_locks-take_all_locks :
      (d : IsDocumented tools) (owner : Bytes) (steps : List Step) (st : Worktrees) (p : Bytes)
      (owners : List Bytes)
      → LocksOnce owner steps
      → releasing.held ≡ true
      → is_word owner ≡ true
      → every is_word owners ≡ true
      → contains owners owner ≡ false
      → st p ≡ record { is_dir = true; has_git_dir = true; lock_file = file_for owners }
      → let (e, taken) = take_all_locks tools taking steps (new_executor, st) in
        release_locks tools releasing e taken p ≡ st p
  release_locks-take_all_locks d owner steps st p owners (inl q) h w ws a e =
      rw (take_all_locks-quiet tools taking steps (new_executor, st) q.no_locks)
        (ap (λ s. s p) (release_locks-nothing tools releasing st))
  release_locks-take_all_locks d owner steps st p owners (inr (repo, n, l)) h w ws a e =
      let (wts, t) = take_all_locks-one tools taking steps new_executor st repo owner l in
      let r = lock_worktrees tools owner taking.held taking.lines wts st in
      rw t (
        ap (λ s. s p) (release_locks-release tools releasing repo owner r)
        ∙ ap (λ b. (release_worktree_locks tools owner repo b releasing.lines r.locked r.store).0 p)
            h
        ∙ release_worktree_locks-lock_worktrees tools d repo owner taking.held taking.lines
            releasing.lines wts st p owners w ws a n e)

-- Both results of `conclude` come with the program they were given.
abbrev ProgramIs : Program → Round → Type 0
ProgramIs p (ended r) = r.program ≡ p
ProgramIs p (question q p' log) = p' ≡ p

module _ (breaks : Step → Bool) (to_lower : Bytes → Bytes) (cfg : Config) (h : HostState)
    (f : Facts) (prof : Profile) where
  conclude-ProgramIs :
      (p : Program) (error : Option (List Bytes)) (log : List Step) (failed : Option Step)
      → ProgramIs p (conclude breaks to_lower cfg h f prof p error log failed)
  unfolding conclude
  conclude-ProgramIs p error log (some s) = refl
  conclude-ProgramIs p (some lines) log none = refl
  conclude-ProgramIs p none log none = elim (Option-cases p.pending) [
    | inl e ↦ rw e refl
    | inr (q, e) ↦ rw e refl
  ]

  round-ProgramIs :
      (a : Answers) (applied : List Step)
      → ProgramIs (build to_lower cfg h f prof a).0 (round breaks to_lower cfg h f prof a applied)
  unfolding round
  round-ProgramIs a applied = conclude-ProgramIs (build to_lower cfg h f prof a).0 _ _ _

  drive-planned :
      (replies : List Bool) (a : Answers) (applied : List Step)
      → (last : Answers) × ((drive breaks to_lower cfg h f prof a applied replies).program
          ≡ (build to_lower cfg h f prof last).0)
  unfolding drive
  drive-planned [] a applied =
      let w = round-ProgramIs a applied in
      elim (Round-cases (round breaks to_lower cfg h f prof a applied)) [
        | inl (s, e) ↦ (a, rw (e, drive) (rw e at w))
        | inr (q, p, log, e) ↦ (a, rw (e, drive) (rw e at w))
      ]
  drive-planned (b ∷ replies) a applied =
      let w = round-ProgramIs a applied in
      elim (Round-cases (round breaks to_lower cfg h f prof a applied)) [
        | inl (s, e) ↦ (a, rw (e, drive) (rw e at w))
        | inr (q, p, log, e) ↦
            let (last, l) = drive-planned replies (record_answer q.id b a) log in
            (last, rw (e, drive) l)
      ]

  build_and_apply-LocksOnce :
      (replies : List Bool)
      → LocksOnce
          (lock_owner_of to_lower cfg h f prof)
          (build_and_apply breaks to_lower cfg h f prof replies).applied
  unfolding build_and_apply build
  build_and_apply-LocksOnce replies =
      let r = build_and_apply breaks to_lower cfg h f prof replies in
      let (last, l) = drive-planned replies no_answers [] in
      let (rest, e) =
        IsFaithful-prefix breaks r.ending r.program r.applied
          (build_and_apply-IsFaithful breaks to_lower cfg h f prof replies) in
      prefix-LocksOnce (lock_owner_of to_lower cfg h f prof)
        (plan breaks to_lower cfg h f prof last).0 r.applied rest (ap (λ p. p.steps) (sym l) ∙ e)
        (planned-LocksOnce to_lower cfg h f prof last)

module _ (breaks : Step → Bool) (to_lower : Bytes → Bytes) (cfg : Config) (h : HostState)
    (f : Facts) (prof : Profile) (tools : Tools) (taking releasing : Mutex) where
  -- Whatever the user answers, wherever the host fails, whatever signals come and however the container
  -- ends: with the mutex for the cleanup, with git and the file system as documented and with a
  -- container name that is a word, a worktree that was locked for owners without that name, or not
  -- locked, is as it was before when the launcher ends.
  pub run_session-restores :
      (d : IsDocumented tools) (w : Happenings) (replies : List Bool) (st : Worktrees) (p : Bytes)
      (owners : List Bytes)
      → releasing.held ≡ true
      → is_word (lock_owner_of to_lower cfg h f prof) ≡ true
      → every is_word owners ≡ true
      → contains owners (lock_owner_of to_lower cfg h f prof) ≡ false
      → st p ≡ record { is_dir = true; has_git_dir = true; lock_file = file_for owners }
      → (run_session breaks to_lower cfg h f prof tools taking releasing w replies st).worktrees p
        ≡ st p
  unfolding run_session
  run_session-restores d w replies st p owners m n ws a e =
      release_locks-take_all_locks tools taking releasing d (lock_owner_of to_lower cfg h f prof)
        (build_and_apply breaks to_lower cfg h f prof replies).applied st p owners
        (build_and_apply-LocksOnce breaks to_lower cfg h f prof replies) m n ws a e
