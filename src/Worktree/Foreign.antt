-- ===== src/Worktree/Foreign.antt =====
-- Locks that are not the launcher's own, in internal/host/worktreelock.go.
use claude_contained.Worktree.Owners.{parse_auto_lock_owners}
use claude_contained.Worktree.Lock.{
  LockFile, missing, unreadable, holding, Tools, Worktree, append_to, append_auto_lock_owner,
  add_to_file, add_auto_lock_owner, remove_from, remove_from_file, remove_auto_lock_owner,
  Worktrees, lock_worktrees, release_each, release_worktree_locks,
}
use claude_contained.Worktree.Each.{lock_each-keeps, release_each-keeps}
use claude_contained.Base.{if_either}
use claude_contained.Base.{◌≡◌, refl, sym, ap, ◌∙◌, subst}
use claude_contained.Base.{Bool, true, false, ◌&&◌, ◌||◌, none, arith, if◌then◌else◌}
use claude_contained.Base.{List, [], is_nil}
use claude_contained.Base.{Bytes, trim_right, contains}

-- A lock that is there and does not tell owners: a user's own, or one that cannot be read.
abbrev pub IsForeign : LockFile → Type 0
IsForeign missing = ⊥
IsForeign unreadable = Unit
IsForeign (holding c) = parse_auto_lock_owners c ≡ none

if_same {ℓ} : {A : Type ℓ} (b : Bool) (x : A) → (if b then x else x) ≡ x
if_same true x = refl
if_same false x = refl

module _ (tools : Tools) (owner : Bytes) where
  add_to_file-foreign : (f : LockFile) → IsForeign f → add_to_file tools owner f ≡ (f, false)
  unfolding add_to_file append_auto_lock_owner append_to trim_right
  add_to_file-foreign missing h = absurd h
  add_to_file-foreign unreadable h = refl
  add_to_file-foreign (holding c) h = rw h refl

  remove_from_file-foreign : (f : LockFile) → IsForeign f → remove_from_file tools owner f ≡ f
  unfolding remove_from_file remove_from
  remove_from_file-foreign missing h = absurd h
  remove_from_file-foreign unreadable h = refl
  remove_from_file-foreign (holding c) h = rw h refl

  add_auto_lock_owner-foreign :
      (w : Worktree) → IsForeign w.lock_file → add_auto_lock_owner tools owner w ≡ (w, false)
  unfolding add_auto_lock_owner
  add_auto_lock_owner-foreign w h =
      rw (add_to_file-foreign w.lock_file h) (if_same w.has_git_dir (w, false))

  remove_auto_lock_owner-foreign :
      (w : Worktree) → IsForeign w.lock_file → remove_auto_lock_owner tools owner w ≡ w
  unfolding remove_auto_lock_owner
  remove_auto_lock_owner-foreign w h =
      rw (remove_from_file-foreign w.lock_file h) (if_same (w.is_dir && w.has_git_dir) w)

  -- A lock that is not the launcher's own, or cannot be read, is left as it is by `lock_worktrees`, which
  -- does not list its worktree, whatever git and the file system answer and whether or not the mutex was
  -- acquired.
  pub lock_worktrees-foreign :
      (acquired : Bool) (lines wts : List Bytes) (st : Worktrees) (p : Bytes)
      → IsForeign (st p).lock_file
      → let r = lock_worktrees tools owner acquired lines wts st in
        (r.store p ≡ st p) × (contains r.locked p ≡ false)
  unfolding lock_worktrees contains
  lock_worktrees-foreign acquired lines wts st p h =
      lock_each-keeps tools owner p (λ w b. (w ≡ st p) × (b ≡ false))
        (λ w b k.
          let e = add_auto_lock_owner-foreign w (subst (λ x. IsForeign x.lock_file) (sym k.0) h) in
          (ap (λ r. r.0) e ∙ k.0, ap (λ r. b || r.1) e ∙ ground (arith, k.1)))
        st [] _ wts (refl, refl)

  -- Nor does `release_worktree_locks` change such a lock, whatever owner it releases.
  pub release_worktree_locks-foreign :
      (repo : Bytes) (acquired : Bool) (lines wts : List Bytes) (st : Worktrees) (p : Bytes)
      → IsForeign (st p).lock_file
      → (release_worktree_locks tools owner repo acquired lines wts st).0 p ≡ st p
  unfolding release_worktree_locks
  release_worktree_locks-foreign repo acquired lines wts st p h =
      let kept =
        release_each-keeps tools owner p (λ w. w ≡ st p)
          (λ w k.
            remove_auto_lock_owner-foreign w (subst (λ x. IsForeign x.lock_file) (sym k) h) ∙ k)
          st wts refl in
      if_either {A = Worktrees × List Bytes} (λ r. r.0 p ≡ st p) (is_nil repo || is_nil wts) _ _
        refl
        (if_either {A = Worktrees × List Bytes} (λ r. r.0 p ≡ st p) acquired
          (release_each tools owner wts st, lines) _ kept refl)
