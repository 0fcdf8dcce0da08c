-- ===== src/Worktree/Each.antt =====
-- What the loops of `LockWorktrees` and `ReleaseWorktreeLocks` do to one of the worktrees.
use claude_contained.Worktree.Lock.{
  Tools, Worktree, add_auto_lock_owner, remove_auto_lock_owner, Worktrees, set_worktree,
  list_worktree, could_not_lock, lock_each, release_each,
}
use claude_contained.Base.{◌≡◌, sym, ◌∙◌, subst, inl, inr}
use claude_contained.Base.{Bool, true, false, ◌&&◌, ◌||◌, arith, Bool-cases}
use claude_contained.Base.{List, [], ◌∷◌, ◌++◌}
use claude_contained.Base.{Bytes, same, same_iff, same_refl, same_comm, contains, contains-append}

pub contains-list_worktree :
    (locked : List Bytes) (wt p : Bytes)
    → contains (list_worktree locked wt) p ≡ (contains locked p || same wt p)
unfolding contains
contains-list_worktree locked wt p = elim (Bool-cases (contains locked wt)) [
  | inl y ↦ rw y (elim (Bool-cases (same wt p)) [
    | inl e ↦
        let listed = subst (λ q. contains locked q ≡ true) ((same_iff wt p).0 e) y in ground arith
    | inr e ↦ ground arith
  ])
  | inr n ↦ rw n (ground (arith, contains-append locked (wt ∷ []) p))
]

or_false : (b c x : Bool) → c ≡ false → b ≡ (b || (c && x))
or_false b c x h = ground arith

listed_later : (b c : Bool) → b ≡ false → (b || c) ≡ true → c ≡ true
listed_later b c e h = ground arith

or_added : (b c x : Bool) → x ≡ true → (b || (c && x)) ≡ (b || c)
or_added b c x h = ground arith

or_failed : (b c x : Bool) → x ≡ false → (b || (c && x)) ≡ b
or_failed b c x h = ground arith

module _ {ℓ} (p : Bytes) where
  -- A change of one worktree, where the path is or is not the one looked at.
  set_worktree-keeps :
      (R : Worktree → Bool → Type ℓ) (f : Worktree → Worktree × Bool)
      → ((w : Worktree) (b : Bool) → R w b → R (f w).0 (b || (f w).1))
      → (st : Worktrees) (wt : Bytes) (b : Bool) → R (st p) b
      → R (set_worktree wt (f (st wt)).0 st p) (b || (same wt p && (f (st wt)).1))
  set_worktree-keeps R f step st wt b h = elim (Bool-cases (same wt p)) [
    | inl e ↦
        subst (λ q. R (set_worktree q (f (st q)).0 st p) (b || (same q p && (f (st q)).1)))
          (sym ((same_iff wt p).0 e)) (rw (same_refl p) (step (st p) b h))
    | inr e ↦
        subst (λ c. R (set_worktree wt (f (st wt)).0 st p) c)
          (or_false b (same wt p) (f (st wt)).1 e) (rw (same_comm p wt ∙ e) h)
  ]

module _ {ℓ} (tools : Tools) (owner p : Bytes) where
  -- A relation of the worktree at `p` and of being listed, which an attempt to lock keeps, holds of the
  -- result.
  pub lock_each-keeps :
      (R : Worktree → Bool → Type ℓ)
      → ((w : Worktree) (b : Bool)
          → R w b
          → R (add_auto_lock_owner tools owner w).0 (b || (add_auto_lock_owner tools owner w).1))
      → (st : Worktrees) (locked warnings wts : List Bytes) → R (st p) (contains locked p)
      → let r = lock_each tools owner st locked warnings wts in R (r.store p) (contains r.locked p)
  unfolding lock_each
  lock_each-keeps R step st locked warnings [] h = h
  lock_each-keeps R step st locked warnings (wt ∷ wts) h =
      let a = add_auto_lock_owner tools owner (st wt) in
      let kept =
        set_worktree-keeps p R (add_auto_lock_owner tools owner) step st wt (contains locked p) h in
      elim (Bool-cases a.1) [
        | inl e ↦
            rw (e, lock_each)
              (lock_each-keeps R step (set_worktree wt a.0 st) (list_worktree locked wt) warnings
                wts
                (subst (λ c. R (set_worktree wt a.0 st p) c)
                  (or_added (contains locked p) (same wt p) a.1 e
                    ∙ sym (contains-list_worktree locked wt p))
                  kept))
        | inr e ↦
            rw (e, lock_each)
              (lock_each-keeps R step (set_worktree wt a.0 st) locked
                (warnings ++ could_not_lock wt ∷ []) wts
                (subst (λ c. R (set_worktree wt a.0 st p) c)
                  (or_failed (contains locked p) (same wt p) a.1 e) kept))
      ]

  pub release_each-keeps :
      (R : Worktree → Type ℓ)
      → ((w : Worktree) → R w → R (remove_auto_lock_owner tools owner w))
      → (st : Worktrees) (wts : List Bytes) → R (st p)
      → R (release_each tools owner wts st p)
  unfolding release_each
  release_each-keeps R step st [] h = h
  release_each-keeps R step st (wt ∷ wts) h =
      release_each-keeps R step (set_worktree wt (remove_auto_lock_owner tools owner (st wt)) st)
        wts
        (set_worktree-keeps p (λ w b. R w) (λ w. (remove_auto_lock_owner tools owner w, true))
          (λ w b k. step w k) st wt true h)

  -- What one removal makes of the worktree at `p`, and what later ones keep, holds when `p` is listed.
  pub release_each-listed :
      (Q R : Worktree → Type ℓ)
      → ((w : Worktree) → Q w → R (remove_auto_lock_owner tools owner w))
      → ((w : Worktree) → R w → R (remove_auto_lock_owner tools owner w))
      → (st : Worktrees) (wts : List Bytes) → Q (st p)
      → contains wts p ≡ true
      → R (release_each tools owner wts st p)
  unfolding release_each contains
  release_each-listed Q R first later st [] h l = cc
  release_each-listed Q R first later st (wt ∷ wts) h l =
      let after = set_worktree wt (remove_auto_lock_owner tools owner (st wt)) st in
      elim (Bool-cases (same p wt)) [
        | inl e ↦ release_each-keeps R later after wts (
            rw e (
              subst (λ q. R (remove_auto_lock_owner tools owner (st q))) ((same_iff p wt).0 e)
                (first (st p) h)))
        | inr e ↦
            release_each-listed Q R first later after wts (rw e h)
              (listed_later (same wt p) (contains wts p) (same_comm wt p ∙ e) l)
      ]
