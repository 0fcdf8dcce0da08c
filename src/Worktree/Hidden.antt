-- ===== src/Worktree/Hidden.antt =====
-- `HiddenWorktrees` in internal/host/worktree.go. Git's answer to `worktree list --porcelain` and the
-- directories of the host are parameters.
use claude_contained.Worktree.Owners.{auto_lock_prefix}
use claude_contained.Host.FilePath.{join_path}
use claude_contained.Host.Paths.{path_visible_in_container}
use claude_contained.Base.{if_either}
use claude_contained.Base.{◌≡◌, refl, inl, inr}
use claude_contained.Base.{
  Bool, true, false, not, ◌&&◌, ◌||◌, Option, none, some, arith, if◌then◌else◌, Bool-cases,
}
use claude_contained.Base.{List, [], ◌∷◌, ◌++◌, is_nil, every, every-append}
use claude_contained.Base.{Bytes, bytes, same, has_prefix, trim_prefix, split}

-- What is read of the worktree whose lines are scanned.
pub record Scanned : Type 0 where
  pub path : Bytes
  pub lock_reason : Bytes
  pub locked : Bool
  pub prunable : Bool

abbrev pub nothing_scanned : Scanned
nothing_scanned = record { path = []; lock_reason = []; locked = false; prunable = false }

unfoldable pub scan_line : Scanned → Bytes → Scanned
unfolding trim_prefix has_prefix
scan_line r line =
    if has_prefix line (bytes "worktree ")
    then record r { path = trim_prefix line (bytes "worktree ") }
    else if has_prefix line (bytes "locked")
    then record r {
      locked = true;
      lock_reason = trim_prefix (trim_prefix line (bytes "locked")) (bytes " ");
    }
    else if has_prefix line (bytes "prunable")
    then record r { prunable = true }
    else r

module _ (is_directory : Bytes → Bool) (repo_root : Bytes) (mounted_roots : List Bytes) where
  -- The early returns of `flush_worktree`, in order.
  unfoldable pub is_hidden : Scanned → Bool
  unfolding path_visible_in_container has_prefix same
  is_hidden r =
      if is_nil r.path || same r.path repo_root || r.prunable
      then false
      else if not (is_directory r.path)
      then false
      else if path_visible_in_container r.path mounted_roots
      then false
      else not (r.locked && not (has_prefix r.lock_reason auto_lock_prefix))

  abbrev pub flush_worktree : Scanned → List Bytes → List Bytes
  flush_worktree r hidden = if is_hidden r then hidden ++ r.path ∷ [] else hidden

  unfoldable pub scan_lines : Scanned → List Bytes → List Bytes → List Bytes
  unfolding scan_line is_hidden
  scan_lines r hidden [] = flush_worktree r hidden
  scan_lines r hidden (line ∷ lines) =
      if is_nil line
      then scan_lines nothing_scanned (flush_worktree r hidden) lines
      else scan_lines (scan_line r line) hidden lines

  unfoldable pub hidden_worktrees : Option Bytes → List Bytes
  unfolding scan_lines join_path split
  hidden_worktrees none = []
  hidden_worktrees (some out) =
      if is_nil repo_root
      then []
      else if not
          (path_visible_in_container (join_path (repo_root ∷ bytes ".git" ∷ [])) mounted_roots)
      then []
      else scan_lines nothing_scanned [] (split b'\n' out)

  -- A directory outside what is mounted, and not the repository itself.
  abbrev pub is_hazard : Bytes → Bool
  is_hazard p =
      not (same p repo_root) && is_directory p && not (path_visible_in_container p mounted_roots)

  is_hidden-is_hazard : (r : Scanned) → is_hidden r ≡ true → is_hazard r.path ≡ true
  unfolding is_hidden
  is_hidden-is_hazard r h = ground arith

  flush_worktree-is_hazard :
      (r : Scanned) (hidden : List Bytes)
      → every is_hazard hidden ≡ true
      → every is_hazard (flush_worktree r hidden) ≡ true
  flush_worktree-is_hazard r hidden h = elim (Bool-cases (is_hidden r)) [
    | inl e ↦
        rw (e, every-append is_hazard hidden (r.path ∷ []))
          (ground (arith, is_hidden-is_hazard r e))
    | inr e ↦ rw e h
  ]

  scan_lines-is_hazard :
      (lines : List Bytes) (r : Scanned) (hidden : List Bytes)
      → every is_hazard hidden ≡ true
      → every is_hazard (scan_lines r hidden lines) ≡ true
  unfolding scan_lines
  scan_lines-is_hazard [] r hidden h = flush_worktree-is_hazard r hidden h
  scan_lines-is_hazard (line ∷ lines) r hidden h = elim (Bool-cases (is_nil line)) [
    | inl e ↦ rw e (
        scan_lines-is_hazard lines nothing_scanned (flush_worktree r hidden)
          (flush_worktree-is_hazard r hidden h))
    | inr e ↦ rw e (scan_lines-is_hazard lines (scan_line r line) hidden h)
  ]

  -- Whatever git prints, each path that is reported is a directory, lies outside the mounted roots and
  -- is not the repository's own root.
  pub hidden_worktrees-is_hazard :
      (out : Option Bytes) → every is_hazard (hidden_worktrees out) ≡ true
  unfolding hidden_worktrees
  hidden_worktrees-is_hazard none = refl
  hidden_worktrees-is_hazard (some out) =
      let found = scan_lines-is_hazard (split b'\n' out) nothing_scanned [] refl in
      if_either (λ l. every is_hazard l ≡ true) (is_nil repo_root) [] _ refl
        (if_either (λ l. every is_hazard l ≡ true) _ []
          (scan_lines nothing_scanned [] (split b'\n' out)) refl found)
