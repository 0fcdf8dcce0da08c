-- ===== src/Worktree/Porcelain.antt =====
-- `HiddenWorktrees` in internal/host/worktree.go on what `git worktree list --porcelain` prints.
use claude_contained.Worktree.Owners.{auto_lock_prefix}
use claude_contained.Host.FilePath.{join_path}
use claude_contained.Host.Paths.{path_visible_in_container}
use claude_contained.Worktree.Hidden.{
  Scanned, nothing_scanned, scan_line, is_hidden, flush_worktree, scan_lines, hidden_worktrees,
}
use claude_contained.Base.{and_left, and_right}
use claude_contained.Base.{◌≡◌, refl, sym, ap, ◌∙◌}
use claude_contained.Base.{
  Bool, true, false, not, ◌&&◌, Option, none, some, arith, if◌then◌else◌, is_some,
}
use claude_contained.Base.{List, [], ◌∷◌, ◌++◌, append-nil, append_assoc, is_nil, every}
use claude_contained.Base.{
  Bytes, bytes, same, after_prefix, has_prefix, trim_prefix, split, is_free_of, split-append,
}

-- A worktree as git lists it: `others` are the lines on its head and its branch, and the reasons are as
-- git prints them, in quotes where they hold special bytes. A path is printed as it is.
pub record ListedWorktree : Type 0 where
  pub path : Bytes
  pub others : List Bytes
  pub lock : Option Bytes
  pub prunable : Option Bytes

-- An attribute with its reason behind a space, if there is one.
abbrev pub attribute : Bytes → Option Bytes → List Bytes
attribute label none = []
attribute label (some []) = label ∷ []
attribute label (some (c ∷ reason)) = (label ++ b' ' ∷ c ∷ reason) ∷ []

abbrev pub entry_lines : ListedWorktree → List Bytes
entry_lines e =
    (bytes "worktree " ++ e.path)
    ∷ (e.others
        ++ (attribute (bytes "locked") e.lock
            ++ (attribute (bytes "prunable") e.prunable ++ [] ∷ [])))

abbrev pub print_lines : List Bytes → Bytes → Bytes
print_lines [] rest = rest
print_lines (l ∷ ls) rest = l ++ b'\n' ∷ print_lines ls rest

abbrev pub print_entries : List ListedWorktree → Bytes
print_entries [] = []
print_entries (e ∷ es) = print_lines (entry_lines e) (print_entries es)

-- A line that none of the cases of the scan reads.
abbrev pub is_other : Bytes → Bool
is_other line =
    not (is_nil line)
    && not (has_prefix line (bytes "worktree "))
    && not (has_prefix line (bytes "locked"))
    && not (has_prefix line (bytes "prunable"))

abbrev pub has_lines : ListedWorktree → Bool
has_lines e = every is_other e.others && every (is_free_of b'\n') (entry_lines e)

abbrev pub is_unlocked_or_own : Option Bytes → Bool
is_unlocked_or_own none = true
is_unlocked_or_own (some reason) = has_prefix reason auto_lock_prefix

-- What the scan of the lines of an entry comes to.
abbrev pub scanned_lock : Option Bytes → Scanned → Scanned
scanned_lock none r = r
scanned_lock (some reason) r = record r { locked = true; lock_reason = reason }

abbrev pub scanned_prunable : Option Bytes → Scanned → Scanned
scanned_prunable none r = r
scanned_prunable (some reason) r = record r { prunable = true }

abbrev pub scanned : ListedWorktree → Scanned
scanned e =
    scanned_prunable e.prunable (scanned_lock e.lock (record nothing_scanned { path = e.path }))

split-print_lines :
    (ls : List Bytes) (rest : Bytes)
    → every (is_free_of b'\n') ls ≡ true
    → split b'\n' (print_lines ls rest) ≡ ls ++ split b'\n' rest
split-print_lines [] rest h = refl
split-print_lines (l ∷ ls) rest h =
    split-append b'\n' l (print_lines ls rest) (ground arith)
    ∙ ap (λ t. l ∷ t) (split-print_lines ls rest (ground arith))

other-not_nil : (l : Bytes) → is_other l ≡ true → is_nil l ≡ false
other-not_nil l h = ground arith

scan_line_other : (l : Bytes) (r : Scanned) → is_other l ≡ true → scan_line r l ≡ r
unfolding scan_line
scan_line_other l r h = ground arith

entry_lines-append :
    (e : ListedWorktree) (rest : List Bytes)
    → entry_lines e ++ rest
      ≡ (bytes "worktree " ++ e.path)
        ∷ (e.others
            ++ (attribute (bytes "locked") e.lock
                ++ (attribute (bytes "prunable") e.prunable ++ [] ∷ rest)))
entry_lines-append e rest =
    let marks = attribute (bytes "prunable") e.prunable in
    let locks = attribute (bytes "locked") e.lock in
    ap (λ t. (bytes "worktree " ++ e.path) ∷ t)
      (append_assoc e.others (locks ++ (marks ++ [] ∷ [])) rest
        ∙ ap (λ t. e.others ++ t)
            (append_assoc locks (marks ++ [] ∷ []) rest
              ∙ ap (λ t. locks ++ t) (append_assoc marks ([] ∷ []) rest)))

scanned-path :
    (l p : Option Bytes) (r : Scanned) → (scanned_prunable p (scanned_lock l r)).path ≡ r.path
scanned-path none none r = refl
scanned-path none (some q) r = refl
scanned-path (some reason) none r = refl
scanned-path (some reason) (some q) r = refl

listed_if :
    (b : Bool) (path : Bytes) (hidden more : List Bytes)
    → (if b then hidden ++ path ∷ [] else hidden) ++ more
      ≡ hidden ++ ((if b then path ∷ [] else []) ++ more)
listed_if true path hidden more = append_assoc hidden (path ∷ []) more
listed_if false path hidden more = refl

module _ (is_directory : Bytes → Bool) (repo_root : Bytes) (mounted_roots : List Bytes) where
  abbrev scan : Scanned → List Bytes → List Bytes → List Bytes
  scan = scan_lines is_directory repo_root mounted_roots

  scan_others :
      (ls rest : List Bytes) (r : Scanned) (hidden : List Bytes)
      → every is_other ls ≡ true
      → scan r hidden (ls ++ rest) ≡ scan r hidden rest
  unfolding scan_lines scan_line
  scan_others [] rest r hidden h = refl
  scan_others (l ∷ ls) rest r hidden h =
      let other = and_left (is_other l) (every is_other ls) h in
      rw (other-not_nil l other, scan_line_other l r other)
        (scan_others ls rest r hidden (and_right (is_other l) (every is_other ls) h))

  scan_lock :
      (o : Option Bytes) (rest : List Bytes) (r : Scanned) (hidden : List Bytes)
      → scan r hidden (attribute (bytes "locked") o ++ rest) ≡ scan (scanned_lock o r) hidden rest
  unfolding scan_lines scan_line has_prefix trim_prefix after_prefix
  scan_lock none rest r hidden = refl
  scan_lock (some []) rest r hidden = refl
  scan_lock (some (c ∷ reason)) rest r hidden = refl

  scan_prunable :
      (o : Option Bytes) (rest : List Bytes) (r : Scanned) (hidden : List Bytes)
      → scan r hidden (attribute (bytes "prunable") o ++ rest)
        ≡ scan (scanned_prunable o r) hidden rest
  unfolding scan_lines scan_line has_prefix
  scan_prunable none rest r hidden = refl
  scan_prunable (some []) rest r hidden = refl
  scan_prunable (some (c ∷ reason)) rest r hidden = refl

  scan_path :
      (path : Bytes) (rest : List Bytes) (r : Scanned) (hidden : List Bytes)
      → scan r hidden ((bytes "worktree " ++ path) ∷ rest)
        ≡ scan (record r { path = path }) hidden rest
  unfolding scan_lines scan_line has_prefix trim_prefix after_prefix
  scan_path path rest r hidden = refl

  -- What the program is to report: a worktree that the container would prune.
  abbrev pub needs_lock : ListedWorktree → Bool
  needs_lock e =
      not (is_nil e.path)
      && not (same e.path repo_root)
      && not (is_some e.prunable)
      && is_directory e.path
      && not (path_visible_in_container e.path mounted_roots)
      && is_unlocked_or_own e.lock

  abbrev pub paths_to_lock : List ListedWorktree → List Bytes
  paths_to_lock [] = []
  paths_to_lock (e ∷ es) = (if needs_lock e then e.path ∷ [] else []) ++ paths_to_lock es

  is_hidden-marks :
      (path : Bytes) (l p : Option Bytes)
      → is_hidden is_directory repo_root mounted_roots
          (scanned_prunable p (scanned_lock l (record nothing_scanned { path = path })))
        ≡ (not (is_nil path)
            && not (same path repo_root)
            && not (is_some p)
            && is_directory path
            && not (path_visible_in_container path mounted_roots)
            && is_unlocked_or_own l)
  unfolding is_hidden
  is_hidden-marks path none none = ground arith
  is_hidden-marks path none (some q) = ground arith
  is_hidden-marks path (some reason) none = ground arith
  is_hidden-marks path (some reason) (some q) = ground arith

  is_hidden-scanned :
      (e : ListedWorktree)
      → is_hidden is_directory repo_root mounted_roots (scanned e) ≡ needs_lock e
  unfolding is_hidden
  is_hidden-scanned e = is_hidden-marks e.path e.lock e.prunable

  scan_entry :
      (e : ListedWorktree) (rest hidden : List Bytes)
      → every is_other e.others ≡ true
      → scan nothing_scanned hidden (entry_lines e ++ rest)
        ≡ scan nothing_scanned
            (flush_worktree is_directory repo_root mounted_roots (scanned e) hidden)
            rest
  unfolding scan_lines
  scan_entry e rest hidden h =
      let r = record nothing_scanned { path = e.path } in
      let marks = attribute (bytes "prunable") e.prunable ++ [] ∷ rest in
      let locks = attribute (bytes "locked") e.lock ++ marks in
      ap (scan nothing_scanned hidden) (entry_lines-append e rest)
      ∙ scan_path e.path (e.others ++ locks) nothing_scanned hidden
      ∙ scan_others e.others locks r hidden h
      ∙ scan_lock e.lock marks r hidden
      ∙ scan_prunable e.prunable ([] ∷ rest) (scanned_lock e.lock r) hidden

  flush_worktree-scanned :
      (e : ListedWorktree) (hidden more : List Bytes)
      → flush_worktree is_directory repo_root mounted_roots (scanned e) hidden ++ more
        ≡ hidden ++ ((if needs_lock e then e.path ∷ [] else []) ++ more)
  flush_worktree-scanned e hidden more =
      ap (λ b. (if b then hidden ++ (scanned e).path ∷ [] else hidden) ++ more)
        (is_hidden-scanned e)
      ∙ ap (λ p. (if needs_lock e then hidden ++ p ∷ [] else hidden) ++ more)
          (scanned-path e.lock e.prunable (record nothing_scanned { path = e.path }))
      ∙ listed_if (needs_lock e) e.path hidden more

  scan_entries :
      (es : List ListedWorktree) (hidden : List Bytes)
      → every has_lines es ≡ true
      → scan nothing_scanned hidden (split b'\n' (print_entries es)) ≡ hidden ++ paths_to_lock es
  unfolding scan_lines split
  scan_entries [] hidden h = sym (append-nil hidden)
  scan_entries (e ∷ es) hidden h =
      let this = and_left (has_lines e) (every has_lines es) h in
      let others = every is_other e.others in
      let lines = every (is_free_of b'\n') (entry_lines e) in
      ap (scan nothing_scanned hidden)
        (split-print_lines (entry_lines e) (print_entries es) (and_right others lines this))
      ∙ scan_entry e (split b'\n' (print_entries es)) hidden (and_left others lines this)
      ∙ scan_entries es (flush_worktree is_directory repo_root mounted_roots (scanned e) hidden)
          (and_right (has_lines e) (every has_lines es) h)
      ∙ flush_worktree-scanned e hidden (paths_to_lock es)

  -- Where no line of git's listing holds a newline, which a path could, and its lines on heads and
  -- branches are read by no case of the scan: for a repository that has a path and whose metadata is
  -- visible in the container, `hidden_worktrees` reports, in git's order, the paths of exactly the
  -- worktrees that git lists, that are not the repository itself, not prunable, directories outside the
  -- mounted roots, and not locked or locked by the launcher.
  pub hidden_worktrees-print_entries :
      (es : List ListedWorktree)
      → every has_lines es ≡ true
      → is_nil repo_root ≡ false
      → path_visible_in_container (join_path (repo_root ∷ bytes ".git" ∷ [])) mounted_roots ≡ true
      → hidden_worktrees is_directory repo_root mounted_roots (some (print_entries es))
        ≡ paths_to_lock es
  unfolding hidden_worktrees
  hidden_worktrees-print_entries es h n v = rw (v, n) (scan_entries es [] h)
