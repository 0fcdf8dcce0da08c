-- ===== src/Worktree/Tests.antt =====
-- Runs of the worktree auto-locks on concrete inputs.
use claude_contained.Host.Paths.{path_visible_in_container, path_is_at_or_under}
use claude_contained.Host.FilePath.{join_path}
use claude_contained.Worktree.Owners.{parse_auto_lock_owners}
use claude_contained.Worktree.Lock.{
  LockFile, missing, unreadable, holding, Tools, Worktree, content_of, add_to_file, remove_from,
  Worktrees, lock_worktrees, release_worktree_locks,
}
use claude_contained.Worktree.Foreign.{lock_worktrees-foreign}
use claude_contained.Worktree.Refine.{IsDocumented, file_for}
use claude_contained.Worktree.Sequence.{
  Edit, add, remove, edit_all, edit_set_all, Represents, edit_all-Represents,
}
use claude_contained.Worktree.Restore.{release_worktree_locks-lock_worktrees}
use claude_contained.Worktree.Race.{remove_from-add_to_file}
use claude_contained.Worktree.Mutex.{acquired, unfinished, acquire_mutex}
use claude_contained.Worktree.Waiting.{
  is_over, acquire_mutex-is_over, acquire_mutex-acquired, acquire_mutex-unfinished, stale_rounds,
}
use claude_contained.Worktree.Holder.{
  ℤ, pos, negsuc, observe_mutex_holder, owner_record, observe_mutex_holder-owner_record,
}
use claude_contained.Worktree.Hidden.{hidden_worktrees}
use claude_contained.Worktree.Porcelain.{
  ListedWorktree, print_entries, paths_to_lock, hidden_worktrees-print_entries,
}
use claude_contained.Base.{has_prefix, trim_suffix, join, split}
use claude_contained.Base.{ℕ, ◌+◌, ◌≡◌, refl, inr}
use claude_contained.Base.{
  Bool, true, false, not, ◌||◌, none, some, arith, leb, ◌==◌, if◌then◌else◌,
}
use claude_contained.Base.{List, [], ◌∷◌, ◌++◌}
use claude_contained.Base.{
  Bytes, bytes, same, has_prefix, trim_suffix, trim_right, join, split, contains,
}

-- A git that works, except that it never unlocks.
pub sample_git_lock : Bytes → LockFile → LockFile × Bool
sample_git_lock reason missing = (holding (reason ++ b'\n' ∷ []), true)
sample_git_lock reason unreadable = (unreadable, false)
sample_git_lock reason (holding c) = (holding c, false)

abbrev pub sample_tools : Tools
sample_tools = record {
  git_lock = sample_git_lock;
  git_unlock = λ f. (f, false);
  write = λ c f. (holding c, true);
  remove = λ f. missing;
}

pub sample_tools-IsDocumented : IsDocumented sample_tools
unfolding sample_git_lock
sample_tools-IsDocumented = record {
  git_locks = λ reason. refl;
  git_unlocks = λ c. inr refl;
  writes = λ c d. refl;
  removes = λ c. refl;
}

abbrev alice : Bytes
alice = bytes "alice-17"

abbrev bob : Bytes
bob = bytes "bob-18"

abbrev pub free_worktree : Worktree
free_worktree = record { is_dir = true; has_git_dir = true; lock_file = missing }

abbrev pub user_worktree : Worktree
user_worktree = record {
  is_dir = true;
  has_git_dir = true;
  lock_file = holding (bytes "on a stick\n");
}

-- The worktrees of the host: `/u` has a lock of the user's own, and all others none.
abbrev pub sample_store : Worktrees
sample_store = λ p. if same p (bytes "/u") then user_worktree else free_worktree

abbrev sample_paths : List Bytes
sample_paths = bytes "/w" ∷ bytes "/u" ∷ bytes "/w" ∷ []

free_worktree-Represents : Represents free_worktree (λ o. false)
unfolding file_for contains
free_worktree-Represents = record {
  owners = [];
  words = refl;
  file = refl;
  is_dir = refl;
  has_git_dir = refl;
  same_owners = λ o. refl;
}

abbrev sample_edits : List Edit
sample_edits = add alice ∷ add bob ∷ remove alice ∷ []

edit_all-Represents_example :
    Represents
      (edit_all sample_tools sample_edits free_worktree)
      (edit_set_all sample_edits (λ o. false))
edit_all-Represents_example =
    edit_all-Represents sample_tools sample_tools-IsDocumented sample_edits free_worktree
      (λ o. false) refl free_worktree-Represents

release_worktree_locks-lock_worktrees_example :
    (let r = lock_worktrees sample_tools alice true [] sample_paths sample_store in
      (release_worktree_locks sample_tools alice (bytes "/r") true [] r.locked r.store).0
        (bytes "/w")
      ≡ sample_store (bytes "/w"))
unfolding contains same file_for
release_worktree_locks-lock_worktrees_example =
    release_worktree_locks-lock_worktrees sample_tools sample_tools-IsDocumented (bytes "/r") alice
      true [] [] sample_paths sample_store (bytes "/w") [] refl refl refl refl refl

lock_worktrees-foreign_example :
    (let r = lock_worktrees sample_tools alice true [] sample_paths sample_store in
      (r.store (bytes "/u") ≡ sample_store (bytes "/u")) × (contains r.locked (bytes "/u") ≡ false))
unfolding same parse_auto_lock_owners trim_right
lock_worktrees-foreign_example =
    lock_worktrees-foreign sample_tools alice true [] sample_paths sample_store (bytes "/u") refl

remove_from-add_to_file_example :
    (let seen = file_for (alice ∷ []) in
      let (file, listed) = add_to_file sample_tools bob seen in
      (listed ≡ true)
      × (remove_from sample_tools alice file (parse_auto_lock_owners (content_of seen)) ≡ missing))
unfolding same
remove_from-add_to_file_example =
    remove_from-add_to_file sample_tools sample_tools-IsDocumented alice bob refl refl refl

-- The holder looks stale in the sixth round, and the directory can be made in the ninth.
abbrev sample_makes : ℕ → Bool
sample_makes n = n == 8

abbrev sample_stale : ℕ → Bool
sample_stale n = n == 5

stale_once : stale_rounds sample_stale 110 0 ≡ 1
unfolding stale_rounds
stale_once = refl

acquire_mutex-is_over_example : is_over (acquire_mutex (λ n. false) sample_stale 110).0 ≡ true
acquire_mutex-is_over_example =
    acquire_mutex-is_over (λ n. false) sample_stale 110 (omega (arith, stale_once))

acquire_mutex-acquired_example : (acquire_mutex sample_makes sample_stale 60).0 ≡ acquired
acquire_mutex-acquired_example =
    acquire_mutex-acquired sample_makes sample_stale 60 8 refl (omega arith) (omega arith)

acquire_mutex-unfinished_example : (acquire_mutex (λ n. false) (λ n. true) 200).0 ≡ unfinished
acquire_mutex-unfinished_example =
    acquire_mutex-unfinished (λ n. false) (λ n. true) 200 (λ m. refl) (λ m. refl)

abbrev sample_reaches : ℤ → Bool
sample_reaches (pos n) = n == 41
sample_reaches (negsuc n) = false

observe_mutex_holder-owner_record_example :
    (observe_mutex_holder sample_reaches 1000 (some (owner_record 41 990))).stale
    ≡ (not (sample_reaches (pos 41)) || leb (990 + 30) 1000)
observe_mutex_holder-owner_record_example =
    observe_mutex_holder-owner_record sample_reaches 1000 41 990 (omega arith) (omega arith)
      (omega arith) (omega arith)

abbrev main_entry : ListedWorktree
main_entry = record {
  path = bytes "/r";
  others = bytes "HEAD 1a" ∷ bytes "branch refs/heads/main" ∷ [];
  lock = none;
  prunable = none;
}

abbrev side_entry : ListedWorktree
side_entry = record {
  path = bytes "/side";
  others = bytes "HEAD 2b" ∷ bytes "detached" ∷ [];
  lock = some (bytes "cc-autolocked-by: x");
  prunable = none;
}

abbrev user_entry : ListedWorktree
user_entry = record {
  path = bytes "/u";
  others = bytes "HEAD 3c" ∷ [];
  lock = some (bytes "on a stick");
  prunable = none;
}

hidden_worktrees-print_entries_example :
    hidden_worktrees
      (λ p. true)
      (bytes "/r")
      (bytes "/r" ∷ [])
      (some (print_entries (main_entry ∷ side_entry ∷ user_entry ∷ [])))
    ≡ paths_to_lock
        (λ p. true)
        (bytes "/r")
        (bytes "/r" ∷ [])
        (main_entry ∷ side_entry ∷ user_entry ∷ [])
unfolding has_prefix path_visible_in_container path_is_at_or_under same trim_suffix join_path join
    split
hidden_worktrees-print_entries_example =
    hidden_worktrees-print_entries (λ p. true) (bytes "/r") (bytes "/r" ∷ [])
      (main_entry ∷ side_entry ∷ user_entry ∷ []) refl refl refl
