-- ===== src/Worktree/Lock.antt =====
-- The operations of internal/host/worktreelock.go on the lock file of one linked worktree. Git and the
-- file system are the parameter `Tools`.
use claude_contained.Worktree.Owners.{auto_lock_prefix, parse_auto_lock_owners, auto_lock_content}
use claude_contained.Base.{Bool, true, false, ◌&&◌, ◌||◌, Option, none, some, if◌then◌else◌}
use claude_contained.Base.{List, [], ◌∷◌, ◌++◌, length, is_nil}
use claude_contained.Base.{Bytes, bytes, same, contains, decimal}

-- The file `locked` of a worktree: `unreadable` is a regular file that cannot be read.
pub data LockFile : Type 0 where
  missing unreadable : LockFile
  holding : Bytes → LockFile

-- What the program calls: `git worktree lock` with a reason, `git worktree unlock`, `os.WriteFile` and
-- `os.Remove`, each with the lock file as it finds and as it leaves it.
pub record Tools : Type 0 where
  pub git_lock : Bytes → LockFile → LockFile × Bool
  pub git_unlock : LockFile → LockFile × Bool
  pub write : Bytes → LockFile → LockFile × Bool
  pub remove : LockFile → LockFile

-- What the host has of a worktree: whether it is a directory, whether git tells its metadata directory,
-- and the lock file.
pub record Worktree : Type 0 where
  pub is_dir : Bool
  pub has_git_dir : Bool
  pub lock_file : LockFile

-- The content, which is empty when the file cannot be read.
abbrev pub content_of : LockFile → Bytes
content_of (holding c) = c
content_of missing = []
content_of unreadable = []

-- The owners without one of them, and whether that one was there.
unfoldable pub without_owner : Bytes → List Bytes → Bool × List Bytes
unfolding same
without_owner owner [] = (false, [])
without_owner owner (o ∷ owners) =
    let (found, remaining) = without_owner owner owners in
    if same o owner then (true, remaining) else (found, o ∷ remaining)

module _ (tools : Tools) (owner : Bytes) where
  unfoldable pub append_to : LockFile → Option (List Bytes) → LockFile × Bool
  unfolding contains
  append_to file none = (file, false)
  append_to file (some owners) =
      if contains owners owner
      then (file, true)
      else tools.write (auto_lock_content (owners ++ owner ∷ [])) file

  -- The lock file afterwards, and whether the owner is on it.
  unfoldable pub append_auto_lock_owner : LockFile → LockFile × Bool
  unfolding append_to parse_auto_lock_owners
  append_auto_lock_owner file = append_to file (parse_auto_lock_owners (content_of file))

  unfoldable pub add_to_file : LockFile → LockFile × Bool
  unfolding append_auto_lock_owner
  add_to_file missing =
      let (file, locks) = tools.git_lock (auto_lock_prefix ++ b' ' ∷ owner) missing in
      if locks then (file, true) else append_auto_lock_owner file
  add_to_file unreadable = append_auto_lock_owner unreadable
  add_to_file (holding c) = append_auto_lock_owner (holding c)

  unfoldable pub add_auto_lock_owner : Worktree → Worktree × Bool
  unfolding add_to_file
  add_auto_lock_owner w =
      let (file, added) = add_to_file w.lock_file in
      if w.has_git_dir then (record w { lock_file = file }, added) else (w, false)

  -- What becomes of a lock whose owners were looked through.
  unfoldable pub keep_remaining : LockFile → Bool × List Bytes → LockFile
  unfolding without_owner
  keep_remaining file (false, remaining) = file
  keep_remaining file (true, []) =
      let (after, unlocks) = tools.git_unlock file in if unlocks then after else tools.remove after
  keep_remaining file (true, o ∷ owners) = (tools.write (auto_lock_content (o ∷ owners)) file).0

  unfoldable pub remove_from : LockFile → Option (List Bytes) → LockFile
  unfolding keep_remaining without_owner
  remove_from file none = file
  remove_from file (some owners) = keep_remaining file (without_owner owner owners)

  unfoldable pub remove_from_file : LockFile → LockFile
  unfolding remove_from parse_auto_lock_owners
  remove_from_file missing = missing
  remove_from_file unreadable = unreadable
  remove_from_file (holding c) = remove_from (holding c) (parse_auto_lock_owners c)

  unfoldable pub remove_auto_lock_owner : Worktree → Worktree
  unfolding remove_from_file
  remove_auto_lock_owner w =
      if w.is_dir && w.has_git_dir then record w { lock_file = remove_from_file w.lock_file } else w

-- The worktrees of the host by their paths.
abbrev pub Worktrees : Type 0
Worktrees = Bytes → Worktree

abbrev pub set_worktree : Bytes → Worktree → Worktrees → Worktrees
set_worktree wt w st = λ p. if same p wt then w else st p

-- The list of locked worktrees with one more, which `seen` keeps from being listed twice.
abbrev pub list_worktree : List Bytes → Bytes → List Bytes
list_worktree locked wt = if contains locked wt then locked else locked ++ wt ∷ []

-- What `LockWorktrees` leaves and tells: the worktrees it locked, the lines on standard error and the
-- line on standard output.
pub record LockRun : Type 0 where
  pub store : Worktrees
  pub locked : List Bytes
  pub warnings : List Bytes
  pub notice : Bytes

abbrev pub proceeding_lines : List Bytes
proceeding_lines =
    bytes "Warning: proceeding to auto-lock without the serialization mutex;"
    ∷ bytes "         a concurrent launcher on this repo could race on lock bookkeeping."
    ∷ []

abbrev pub could_not_lock : Bytes → Bytes
could_not_lock wt = bytes "Warning: could not auto-lock " ++ (wt ++ bytes "; leaving it unchanged")

abbrev pub leaving_lines : Bytes → List Bytes
leaving_lines repo =
    bytes "Warning: could not acquire worktree auto-lock mutex during cleanup;"
    ∷ (bytes "         leaving auto-locks in place (release with 'git -C \""
        ++ (repo ++ bytes "\" worktree unlock <path>')."))
    ∷ []

module _ (tools : Tools) (owner : Bytes) where
  abbrev pub lock_notice : List Bytes → Bytes
  lock_notice locked = bytes "Auto-locked " ++ (decimal (length locked) ++ bytes " worktree(s).")

  unfoldable pub lock_each : Worktrees → List Bytes → List Bytes → List Bytes → LockRun
  unfolding add_auto_lock_owner decimal contains
  lock_each st locked warnings [] = record {
    store = st;
    locked = locked;
    warnings = warnings;
    notice = lock_notice locked;
  }
  lock_each st locked warnings (wt ∷ wts) =
      let (w, added) = add_auto_lock_owner tools owner (st wt) in
      elim (added) [
        | false ↦ lock_each (set_worktree wt w st) locked (warnings ++ could_not_lock wt ∷ []) wts
        | true ↦ lock_each (set_worktree wt w st) (list_worktree locked wt) warnings wts
      ]

  -- `LockWorktrees`, with the outcome of `acquireMutex` and the lines it wrote.
  unfoldable pub lock_worktrees : Bool → List Bytes → List Bytes → Worktrees → LockRun
  unfolding lock_each
  lock_worktrees acquired lines wts st =
      lock_each st [] (lines ++ (if acquired then [] else proceeding_lines)) wts

  unfoldable pub release_each : List Bytes → Worktrees → Worktrees
  unfolding remove_auto_lock_owner
  release_each [] st = st
  release_each (wt ∷ wts) st =
      release_each wts (set_worktree wt (remove_auto_lock_owner tools owner (st wt)) st)

  -- `ReleaseWorktreeLocks`, likewise, with the lines on standard error.
  unfoldable pub release_worktree_locks :
      Bytes → Bool → List Bytes → List Bytes → Worktrees → Worktrees × List Bytes
  unfolding release_each
  release_worktree_locks repo acquired lines wts st =
      if is_nil repo || is_nil wts
      then (st, [])
      else if acquired
      then (release_each wts st, lines)
      else (st, lines ++ leaving_lines repo)
