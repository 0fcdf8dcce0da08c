-- ===== src/Worktree/Refine.antt =====
-- The owners that a lock file stands for, in internal/host/worktreelock.go.
use claude_contained.Worktree.Fields.{is_word}
use claude_contained.Worktree.Owners.{
  parse_auto_lock_owners-auto_lock_content, auto_lock_reason, auto_lock_reason_onto,
}
use claude_contained.Worktree.Lock.{keep_remaining}
use claude_contained.Worktree.Owners.{auto_lock_prefix, auto_lock_content}
use claude_contained.Worktree.Lock.{
  LockFile, missing, holding, Tools, without_owner, append_to, append_auto_lock_owner, add_to_file,
  remove_from, remove_from_file, list_worktree,
}
use claude_contained.Worktree.Each.{contains-list_worktree}
use claude_contained.Base.{◌≡◌, refl, sym, ap, ◌∙◌, subst, ◌⊎◌, inl, inr}
use claude_contained.Base.{true, false, not, ◌&&◌, ◌||◌, some, arith, Bool-cases}
use claude_contained.Base.{List, [], ◌∷◌, ◌++◌, every, every-append}
use claude_contained.Base.{Bytes, same, same_iff, contains}

-- What git and the file system document: an unlocked worktree is locked with the reason and a newline
-- in its file, unlocking removes the file or fails and leaves it, and writes and removals succeed.
pub record IsDocumented (tools : Tools) : Type 0 where
  pub git_locks :
      (reason : Bytes) → tools.git_lock reason missing ≡ (holding (reason ++ b'\n' ∷ []), true)
  pub git_unlocks :
      (c : Bytes)
      → (tools.git_unlock (holding c) ≡ (missing, true))
        ⊎ (tools.git_unlock (holding c) ≡ (holding c, false))
  pub writes : (c d : Bytes) → tools.write c (holding d) ≡ (holding c, true)
  pub removes : (c : Bytes) → tools.remove (holding c) ≡ missing

-- The lock file that the launcher keeps for these owners: none for no owner.
unfoldable pub file_for : List Bytes → LockFile
file_for [] = missing
file_for (o ∷ owners) = holding (auto_lock_content (o ∷ owners))

abbrev pub added : Bytes → List Bytes → List Bytes
added owner owners = list_worktree owners owner

without_owner-found :
    (owner : Bytes) (owners : List Bytes) → (without_owner owner owners).0 ≡ contains owners owner
unfolding without_owner contains
without_owner-found owner [] = refl
without_owner-found owner (o ∷ owners) = ground (arith, without_owner-found owner owners)

pub without_owner-same :
    (owner : Bytes) (owners : List Bytes)
    → contains owners owner ≡ false
    → (without_owner owner owners).1 ≡ owners
unfolding without_owner contains
without_owner-same owner [] h = refl
without_owner-same owner (o ∷ owners) h = ground (arith, without_owner-same owner owners)

pub contains-without_owner :
    (owner p : Bytes) (owners : List Bytes)
    → contains (without_owner owner owners).1 p ≡ (contains owners p && not (same p owner))
unfolding without_owner contains
contains-without_owner owner p [] = refl
contains-without_owner owner p (o ∷ owners) = elim (Bool-cases (same o p)) [
  | inl e ↦ let e2 = (same_iff o p).0 e in ground (arith, contains-without_owner owner p owners)
  | inr e ↦ ground (arith, contains-without_owner owner p owners)
]

pub without_owner-words :
    (owner : Bytes) (owners : List Bytes)
    → every is_word owners ≡ true
    → every is_word (without_owner owner owners).1 ≡ true
unfolding without_owner
without_owner-words owner [] h = refl
without_owner-words owner (o ∷ owners) h = ground (arith, without_owner-words owner owners)

pub added-words :
    (owner : Bytes) (owners : List Bytes)
    → is_word owner ≡ true
    → every is_word owners ≡ true
    → every is_word (added owner owners) ≡ true
added-words owner owners w h = elim (Bool-cases (contains owners owner)) [
  | inl e ↦ rw e h
  | inr e ↦ rw (e, every-append is_word owners (owner ∷ [])) (ground arith)
]

pub contains-added :
    (owner p : Bytes) (owners : List Bytes)
    → contains (added owner owners) p ≡ (contains owners p || same owner p)
contains-added owner p owners = contains-list_worktree owners owner p

module _ (tools : Tools) (d : IsDocumented tools) (owner : Bytes) where
  file_for-append :
      (owners : List Bytes)
      → holding (auto_lock_content (owners ++ owner ∷ [])) ≡ file_for (owners ++ owner ∷ [])
  unfolding file_for
  file_for-append [] = refl
  file_for-append (o ∷ owners) = refl

  pub add_to_file-file_for :
      (owners : List Bytes)
      → every is_word owners ≡ true
      → add_to_file tools owner (file_for owners) ≡ (file_for (added owner owners), true)
  unfolding add_to_file append_auto_lock_owner append_to file_for auto_lock_reason
      auto_lock_reason_onto
  add_to_file-file_for [] h = rw (d.git_locks (auto_lock_prefix ++ b' ' ∷ owner)) refl
  add_to_file-file_for (o ∷ owners) h =
      rw (parse_auto_lock_owners-auto_lock_content (o ∷ owners) h)
        (elim (Bool-cases (contains (o ∷ owners) owner)) [
          | inl e ↦ rw (e, append_to) refl
          | inr e ↦ rw (e, append_to) (d.writes _ _)
        ])

  pub keep_remaining-file_for :
      (c : Bytes) (remaining : List Bytes)
      → keep_remaining tools owner (holding c) (true, remaining) ≡ file_for remaining
  unfolding keep_remaining file_for
  keep_remaining-file_for c [] = elim (d.git_unlocks c) [
    | inl e ↦ rw e refl
    | inr e ↦ rw e (d.removes c)
  ]
  keep_remaining-file_for c (o ∷ owners) =
      ap (λ r. r.0) (d.writes (auto_lock_content (o ∷ owners)) c)

  remove_from-file_for :
      (o : Bytes) (owners : List Bytes)
      → let file = file_for (o ∷ owners) in
        remove_from tools owner file (some (o ∷ owners))
        ≡ file_for (without_owner owner (o ∷ owners)).1
  unfolding remove_from file_for
  remove_from-file_for o owners =
      let remaining = (without_owner owner (o ∷ owners)).1 in
      subst
        (λ f.
          keep_remaining tools owner (file_for (o ∷ owners)) (f, remaining) ≡ file_for remaining)
        (sym (without_owner-found owner (o ∷ owners)))
        (elim (Bool-cases (contains (o ∷ owners) owner)) [
          | inl e ↦ rw e (keep_remaining-file_for _ remaining)
          | inr e ↦ rw e (ap file_for (sym (without_owner-same owner (o ∷ owners) e)))
        ])

  pub remove_from_file-file_for :
      (owners : List Bytes)
      → every is_word owners ≡ true
      → remove_from_file tools owner (file_for owners) ≡ file_for (without_owner owner owners).1
  unfolding remove_from_file file_for without_owner
  remove_from_file-file_for [] h = refl
  remove_from_file-file_for (o ∷ owners) h =
      ap (remove_from tools owner (file_for (o ∷ owners)))
        (parse_auto_lock_owners-auto_lock_content (o ∷ owners) h)
      ∙ remove_from-file_for o owners
