-- ===== src/Worktree/Sequence.antt =====
-- Sequences of the operations of internal/host/worktreelock.go on one worktree, against the set of its
-- owners.
use claude_contained.Worktree.Lock.{
  Tools, Worktree, without_owner, add_auto_lock_owner, remove_auto_lock_owner,
}
use claude_contained.Worktree.Fields.{is_word}
use claude_contained.Worktree.Refine.{
  IsDocumented, file_for, added, contains-without_owner, without_owner-words, added-words,
  contains-added, add_to_file-file_for, remove_from_file-file_for,
}
use claude_contained.Base.{◌≡◌, refl, ap, ◌∙◌}
use claude_contained.Base.{Bool, true, not, ◌&&◌, ◌||◌, arith}
use claude_contained.Base.{List, [], ◌∷◌, every}
use claude_contained.Base.{Bytes, same, contains}

-- A launcher adds its owner, or removes it.
pub data Edit : Type 0 where
  add remove : Bytes → Edit

abbrev pub owner_of : Edit → Bytes
owner_of (add owner) = owner
owner_of (remove owner) = owner

-- The program: the worktree after an edit.
unfoldable pub edit_worktree : Tools → Edit → Worktree → Worktree
unfolding add_auto_lock_owner remove_auto_lock_owner
edit_worktree tools (add owner) w = (add_auto_lock_owner tools owner w).0
edit_worktree tools (remove owner) w = remove_auto_lock_owner tools owner w

unfoldable pub edit_all : Tools → List Edit → Worktree → Worktree
unfolding edit_worktree
edit_all tools [] w = w
edit_all tools (e ∷ edits) w = edit_all tools edits (edit_worktree tools e w)

-- The specification: a set of owners, as a test on them.
abbrev pub edit_set : Edit → (Bytes → Bool) → Bytes → Bool
edit_set (add owner) holders = λ o. holders o || same owner o
edit_set (remove owner) holders = λ o. holders o && not (same o owner)

abbrev pub edit_set_all : List Edit → (Bytes → Bool) → Bytes → Bool
edit_set_all [] holders = holders
edit_set_all (e ∷ edits) holders = edit_set_all edits (edit_set e holders)

-- A worktree that stands for a set: its lock file tells exactly the owners in it, and there is none if
-- the set is empty, which every owner is then outside of.
pub record Represents (w : Worktree) (holders : Bytes → Bool) : Type 0 where
  pub owners : List Bytes
  pub words : every is_word owners ≡ true
  pub file : w.lock_file ≡ file_for owners
  pub is_dir : w.is_dir ≡ true
  pub has_git_dir : w.has_git_dir ≡ true
  pub same_owners : (o : Bytes) → contains owners o ≡ holders o

module _ (tools : Tools) (d : IsDocumented tools) where
  edit_worktree-Represents :
      (e : Edit) (w : Worktree) (holders : Bytes → Bool)
      → is_word (owner_of e) ≡ true
      → Represents w holders
      → Represents (edit_worktree tools e w) (edit_set e holders)
  unfolding edit_worktree add_auto_lock_owner remove_auto_lock_owner
  edit_worktree-Represents (add owner) w holders h r = rw (r.has_git_dir) (record {
    owners = added owner r.owners;
    words = added-words owner r.owners h r.words;
    file = rw (r.file) (ap (λ x. x.0) (add_to_file-file_for tools d owner r.owners r.words));
    is_dir = r.is_dir;
    has_git_dir = refl;
    same_owners =
        λ o. contains-added owner o r.owners ∙ ap (λ b. b || same owner o) (r.same_owners o);
  })
  edit_worktree-Represents (remove owner) w holders h r =
      rw (r.is_dir, r.has_git_dir)
        (record {
          owners = (without_owner owner r.owners).1;
          words = without_owner-words owner r.owners r.words;
          file = rw (r.file) (remove_from_file-file_for tools d owner r.owners r.words);
          is_dir = refl;
          has_git_dir = refl;
          same_owners = λ o.
              contains-without_owner owner o r.owners
              ∙ ap (λ b. b && not (same o owner)) (r.same_owners o);
        })

  -- After any edits by owners that are words, a worktree that stood for a set of owners stands for the
  -- set that the same edits make of it: with git and the file system as documented, the lock file tells
  -- exactly the owners that were added and not removed since, and is there only if there are any.
  pub edit_all-Represents :
      (edits : List Edit) (w : Worktree) (holders : Bytes → Bool)
      → every (λ e. is_word (owner_of e)) edits ≡ true
      → Represents w holders
      → Represents (edit_all tools edits w) (edit_set_all edits holders)
  unfolding edit_all
  edit_all-Represents [] w holders h r = r
  edit_all-Represents (e ∷ edits) w holders h r =
      edit_all-Represents edits (edit_worktree tools e w) (edit_set e holders) (ground arith)
        (edit_worktree-Represents e w holders (ground arith) r)
