-- ===== src/Host/FilePath.antt =====
-- Go's `path/filepath` on a Unix host, as far as the program calls it: `Clean`, `Join` and `Dir`.
use claude_contained.Base.{Bool, not, ◌&&◌, ◌||◌, ◌==◌, if◌then◌else◌}
use claude_contained.Base.{List, [], ◌∷◌, ◌++◌, reverse, is_nil}
use claude_contained.Base.{Bytes, bytes, same, has_prefix, join, split}

-- What one component does to the components kept so far, the last one first.
unfoldable pub push_component : Bool → Bytes → List Bytes → List Bytes
push_component rooted comp [] =
    if is_nil comp || same comp (bytes ".")
    then []
    else if same comp (bytes "..") && rooted
    then []
    else comp ∷ []
push_component rooted comp (top ∷ kept) =
    if is_nil comp || same comp (bytes ".")
    then top ∷ kept
    else if same comp (bytes "..") && not (same top (bytes ".."))
    then kept
    else comp ∷ top ∷ kept

unfoldable pub push_components : Bool → List Bytes → List Bytes → List Bytes
push_components rooted [] kept = kept
push_components rooted (comp ∷ comps) kept =
    push_components rooted comps (push_component rooted comp kept)

abbrev pub is_abs : Bytes → Bool
is_abs path = has_prefix path (bytes "/")

unfoldable pub clean : Bytes → Bytes
unfolding push_components push_component
clean path =
    let rooted = is_abs path in
    let body = join (bytes "/") (reverse (push_components rooted (split b'/' path) [])) in
    if rooted then bytes "/" ++ body else if is_nil body then bytes "." else body

-- `filepath.Join`: empty elements in front are dropped, and an empty result stays empty.
unfoldable pub join_path : List Bytes → Bytes
unfolding clean
join_path [] = []
join_path (e ∷ es) =
    let rest = join_path es in if is_nil e then rest else clean (join (bytes "/") (e ∷ es))

-- `path[:i+1]` for the last slash at `i`, and the empty string without one.
unfoldable pub up_to_last_slash : Bytes → Bytes
up_to_last_slash [] = []
up_to_last_slash (c ∷ s) =
    let rest = up_to_last_slash s in if c == b'/' || not (is_nil rest) then c ∷ rest else []

unfoldable pub dir : Bytes → Bytes
unfolding up_to_last_slash clean
dir path = clean (up_to_last_slash path)
