-- ===== src/Host/Paths.antt =====
-- internal/host/worktree.go: the tests on path prefixes.
use claude_contained.Base.{◌≡◌, refl}
use claude_contained.Base.{Bool, true, false, ◌||◌, arith}
use claude_contained.Base.{List, [], ◌∷◌, ◌++◌}
use claude_contained.Base.{Bytes, bytes, same, same_iff, same_refl, has_prefix, trim_suffix}

unfoldable pub path_is_at_or_under : Bytes → Bytes → Bool
path_is_at_or_under path parent =
    let p = trim_suffix path (bytes "/") in
    let q = trim_suffix parent (bytes "/") in same p q || has_prefix p (q ++ bytes "/")

unfoldable pub path_visible_in_container : Bytes → List Bytes → Bool
path_visible_in_container path [] = false
path_visible_in_container path (root ∷ roots) =
    path_is_at_or_under path root || path_visible_in_container path roots

pub path_is_at_or_under_refl : (path : Bytes) → path_is_at_or_under path path ≡ true
unfolding path_is_at_or_under
path_is_at_or_under_refl path = ground (arith, same_refl (trim_suffix path (bytes "/")))

has_prefix_trans :
    (s p q : Bytes) → has_prefix s p ≡ true → has_prefix p q ≡ true → has_prefix s q ≡ true
unfolding has_prefix
has_prefix_trans s p [] h k = refl
has_prefix_trans s [] (c ∷ q) h k = cc
has_prefix_trans [] (d ∷ p) (c ∷ q) h k = cc
has_prefix_trans (e ∷ s) (d ∷ p) (c ∷ q) h k = ground (arith, has_prefix_trans s p q)

has_prefix_longer : (p x q : Bytes) → has_prefix p q ≡ true → has_prefix (p ++ x) q ≡ true
unfolding has_prefix
has_prefix_longer p x [] h = refl
has_prefix_longer [] x (c ∷ q) h = cc
has_prefix_longer (d ∷ p) x (c ∷ q) h = ground (arith, has_prefix_longer p x q)

has_prefix-slash :
    (p q r : Bytes)
    → has_prefix p (q ++ bytes "/") ≡ true
    → has_prefix q (r ++ bytes "/") ≡ true
    → has_prefix p (r ++ bytes "/") ≡ true
has_prefix-slash p q r h k = has_prefix_trans p _ _ h (has_prefix_longer q (bytes "/") _ k)

-- Being at or under is transitive.
pub path_is_at_or_under_trans :
    (a b c : Bytes)
    → path_is_at_or_under a b ≡ true
    → path_is_at_or_under b c ≡ true
    → path_is_at_or_under a c ≡ true
unfolding path_is_at_or_under
path_is_at_or_under_trans a b c h k =
    let p = trim_suffix a (bytes "/") in
    let q = trim_suffix b (bytes "/") in
    let r = trim_suffix c (bytes "/") in
    ground (arith, has_prefix-slash p q r, same_iff p q, same_iff q r, same_iff p r)
