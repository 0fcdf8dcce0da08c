-- ===== src/Worktree/Restore.antt =====
-- `LockWorktrees` and then `ReleaseWorktreeLocks`, in internal/host/worktreelock.go.
use claude_contained.Worktree.Lock.{
  Tools, Worktree, without_owner, add_auto_lock_owner, remove_auto_lock_owner, Worktrees, LockRun,
  lock_worktrees, release_each, release_worktree_locks, proceeding_lines,
}
use claude_contained.Worktree.Fields.{is_word}
use claude_contained.Worktree.Refine.{
  IsDocumented, file_for, added, without_owner-same, added-words, contains-added,
  add_to_file-file_for, remove_from_file-file_for,
}
use claude_contained.Worktree.Each.{lock_each-keeps, release_each-keeps, release_each-listed}
use claude_contained.Base.{◌≡◌, refl, sym, ap, ◌∙◌, ◌⊎◌, inl, inr}
use claude_contained.Base.{Bool, true, false, ◌||◌, arith, if◌then◌else◌}
use claude_contained.Base.{List, [], ◌∷◌, ◌++◌, is_nil, every}
use claude_contained.Base.{Bytes, same_refl, contains}

without_owner-append :
    (owner : Bytes) (owners : List Bytes)
    → contains owners owner ≡ false
    → (without_owner owner (owners ++ owner ∷ [])).1 ≡ owners
unfolding without_owner contains
without_owner-append owner [] h = rw (same_refl owner) refl
without_owner-append owner (o ∷ owners) h = ground (arith, without_owner-append owner owners)

without_owner-added :
    (owner : Bytes) (owners : List Bytes)
    → contains owners owner ≡ false
    → (without_owner owner (added owner owners)).1 ≡ owners
without_owner-added owner owners h = rw h (without_owner-append owner owners h)

or_true : (b : Bool) → (b || true) ≡ true
or_true b = ground arith

added-added :
    (owner : Bytes) (owners : List Bytes) → added owner (added owner owners) ≡ added owner owners
added-added owner owners =
    rw (contains-added owner owner owners, same_refl owner)
      (rw (or_true (contains owners owner)) refl)

module _ (tools : Tools) (d : IsDocumented tools) (owner : Bytes) (word : is_word owner ≡ true)
    (owners : List Bytes) (words : every is_word owners ≡ true)
    (absent : contains owners owner ≡ false) where
  abbrev with_owners : List Bytes → Worktree
  with_owners l = record { is_dir = true; has_git_dir = true; lock_file = file_for l }

  abbrev Listed : Worktree → Bool → Type 0
  Listed w listed =
      ((w ≡ with_owners owners) × (listed ≡ false))
      ⊎ ((w ≡ with_owners (added owner owners)) × (listed ≡ true))

  add-absent :
      add_auto_lock_owner tools owner (with_owners owners)
      ≡ (with_owners (added owner owners), true)
  unfolding add_auto_lock_owner
  add-absent = rw (add_to_file-file_for tools d owner owners words) refl

  add-present :
      add_auto_lock_owner tools owner (with_owners (added owner owners))
      ≡ (with_owners (added owner owners), true)
  unfolding add_auto_lock_owner
  add-present =
      rw
        (add_to_file-file_for tools d owner (added owner owners)
          (added-words owner owners word words))
        (ap (λ l. (with_owners l, true)) (added-added owner owners))

  add-Listed :
      (w : Worktree) (b : Bool)
      → Listed w b
      → Listed (add_auto_lock_owner tools owner w).0 (b || (add_auto_lock_owner tools owner w).1)
  add-Listed w b (inl (e, l)) = rw (e, add-absent) (inr (refl, or_true b))
  add-Listed w b (inr (e, l)) = rw (e, add-present) (inr (refl, or_true b))

  remove-present :
      remove_auto_lock_owner tools owner (with_owners (added owner owners)) ≡ with_owners owners
  unfolding remove_auto_lock_owner
  remove-present =
      rw
        (remove_from_file-file_for tools d owner (added owner owners)
          (added-words owner owners word words))
        (ap with_owners (without_owner-added owner owners absent))

  remove-absent : remove_auto_lock_owner tools owner (with_owners owners) ≡ with_owners owners
  unfolding remove_auto_lock_owner
  remove-absent =
      rw (remove_from_file-file_for tools d owner owners words)
        (ap with_owners (without_owner-same owner owners absent))

  restored :
      (r : LockRun) (p : Bytes)
      → Listed (r.store p) (contains r.locked p)
      → release_each tools owner r.locked r.store p ≡ with_owners owners
  restored r p (inl (e, l)) =
      release_each-keeps tools owner p (λ w. w ≡ with_owners owners)
        (λ w k. ap (remove_auto_lock_owner tools owner) k ∙ remove-absent) r.store r.locked e
  restored r p (inr (e, l)) =
      release_each-listed tools owner p (λ w. w ≡ with_owners (added owner owners))
        (λ w. w ≡ with_owners owners)
        (λ w k. ap (remove_auto_lock_owner tools owner) k ∙ remove-present)
        (λ w k. ap (remove_auto_lock_owner tools owner) k ∙ remove-absent) r.store r.locked e l

release_worktree_locks-release_each :
    (tools : Tools) (repo owner : Bytes) (more locked : List Bytes) (st : Worktrees)
    → is_nil repo ≡ false
    → (release_worktree_locks tools owner repo true more locked st).0
      ≡ release_each tools owner locked st
unfolding release_worktree_locks release_each
release_worktree_locks-release_each tools repo owner more [] st n = rw n refl
release_worktree_locks-release_each tools repo owner more (wt ∷ wts) st n = rw n refl

module _ (tools : Tools) (d : IsDocumented tools) where
  -- What `lock_worktrees` did is undone: when a worktree stands for a set of owners that the launcher's
  -- is not in, releasing the worktrees that `lock_worktrees` lists, with the mutex, leaves it as it was
  -- before them, locked for those owners or not locked.
  pub release_worktree_locks-lock_worktrees :
      (repo owner : Bytes) (acquired : Bool) (lines more wts : List Bytes) (st : Worktrees)
      (p : Bytes) (owners : List Bytes)
      → is_word owner ≡ true
      → every is_word owners ≡ true
      → contains owners owner ≡ false
      → is_nil repo ≡ false
      → st p ≡ record { is_dir = true; has_git_dir = true; lock_file = file_for owners }
      → let r = lock_worktrees tools owner acquired lines wts st in
        (release_worktree_locks tools owner repo true more r.locked r.store).0 p ≡ st p
  unfolding lock_worktrees contains
  release_worktree_locks-lock_worktrees repo owner acquired lines more wts st p owners w ws a n e =
      let r = lock_worktrees tools owner acquired lines wts st in
      let listed =
        lock_each-keeps tools owner p (Listed tools d owner w owners ws a)
          (add-Listed tools d owner w owners ws a) st []
          (lines ++ (if acquired then [] else proceeding_lines)) wts (inl (e, refl)) in
      ap (λ s. s p) (release_worktree_locks-release_each tools repo owner more r.locked r.store n)
      ∙ restored tools d owner w owners ws a r p listed
      ∙ sym e
