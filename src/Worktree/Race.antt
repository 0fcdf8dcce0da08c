-- ===== src/Worktree/Race.antt =====
-- Two launchers that do not share the mutex of internal/host/worktreelock.go: one adds its owner between
-- the time at which the other reads the lock file and the time at which it changes it.
use claude_contained.Worktree.Owners.{parse_auto_lock_owners, auto_lock_content}
use claude_contained.Worktree.Lock.{
  missing, holding, Tools, content_of, without_owner, add_to_file, remove_from,
}
use claude_contained.Worktree.Fields.{is_word}
use claude_contained.Worktree.Owners.{parse_auto_lock_owners-auto_lock_content}
use claude_contained.Worktree.Refine.{
  IsDocumented, keep_remaining-file_for, file_for, added, add_to_file-file_for,
}
use claude_contained.Base.{◌≡◌, refl, sym, ap, ◌∙◌, subst}
use claude_contained.Base.{true, false, some, arith}
use claude_contained.Base.{[], ◌∷◌, every}
use claude_contained.Base.{Bytes, same, same_refl, contains}

module _ (tools : Tools) (d : IsDocumented tools) where
  remove_from-one :
      (owner c : Bytes) → remove_from tools owner (holding c) (some (owner ∷ [])) ≡ missing
  unfolding remove_from without_owner file_for
  remove_from-one owner c = rw (same_refl owner) (keep_remaining-file_for tools d owner c [])

  -- A launcher that is the only owner reads the lock file, another one adds its owner, and the first goes
  -- on with what it read: the second one is told that the worktree is locked for it, and the worktree
  -- is not locked.
  pub remove_from-add_to_file :
      (leaving coming : Bytes)
      → is_word leaving ≡ true
      → is_word coming ≡ true
      → same leaving coming ≡ false
      → let seen = file_for (leaving ∷ []) in
        let (file, listed) = add_to_file tools coming seen in
        (listed ≡ true)
        × (remove_from tools leaving file (parse_auto_lock_owners (content_of seen)) ≡ missing)
  unfolding file_for contains
  remove_from-add_to_file leaving coming wl wc n =
      let words : every is_word (leaving ∷ []) ≡ true = ground arith in
      let e = add_to_file-file_for tools d coming (leaving ∷ []) words in
      let both = auto_lock_content (leaving ∷ coming ∷ []) in
      let kept : added coming (leaving ∷ []) ≡ leaving ∷ coming ∷ [] = rw n refl in
      (
        ap (λ r. r.1) e,
        subst
            (λ r.
              remove_from tools leaving r.0
                (parse_auto_lock_owners (auto_lock_content (leaving ∷ [])))
              ≡ missing)
            (sym (e ∙ ap (λ l. (file_for l, true)) kept))
            (ap (remove_from tools leaving (holding both))
                (parse_auto_lock_owners-auto_lock_content (leaving ∷ []) words)
              ∙ remove_from-one leaving both),
      )
