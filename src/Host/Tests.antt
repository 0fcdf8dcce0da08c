-- ===== src/Host/Tests.antt =====
-- Runs of the path and name functions on concrete inputs.
use claude_contained.Host.Sanitize.{sanitize_folder_name}
use claude_contained.Host.Sanitize.Shape.{IsFolderName, sanitize_folder_name-IsFolderName}
use claude_contained.Host.Realpath.{split_components, resolve_path_from, resolve_path_from-ends}
use claude_contained.Base.{◌+◌, ◌≤◌, ◌≡◌, refl, subst}
use claude_contained.Base.{true, ◌&&◌, Option, some, arith, leb, if◌then◌else◌, is_some}
use claude_contained.Base.{map, length}
use claude_contained.Base.{Bytes, bytes, has_prefix, join, split}

-- Lower-case ASCII letters.
abbrev ascii_lower : Bytes → Bytes
ascii_lower = map (λ c. if leb b'A' c && leb c b'Z' then c + 32 else c)

sanitize_folder_name-IsFolderName_example :
    IsFolderName (sanitize_folder_name ascii_lower (bytes "/home/me/My  Project_2/"))
sanitize_folder_name-IsFolderName_example =
    sanitize_folder_name-IsFolderName ascii_lower (bytes "/home/me/My  Project_2/")

-- Every path is a link to `l`.
abbrev link_to_l : Bytes → Option Bytes
link_to_l p = some (bytes "l")

link_to_l-length : (p t : Bytes) → link_to_l p ≡ some t → length (split_components t) ≤ 1
unfolding split_components split
link_to_l-length p t e =
    let q : bytes "l" ≡ t = cc in subst (λ u. length (split_components u) ≤ 1) q (omega arith)

resolve_loop : resolve_path_from link_to_l 41 (some (bytes "/p")) (bytes "/l") ≡ some (bytes "/l")
unfolding resolve_path_from has_prefix join
resolve_loop = refl

resolve_path_from-ends_example :
    is_some (resolve_path_from link_to_l 41 (some (bytes "/p")) (bytes "/l")) ≡ true
unfolding resolve_path_from has_prefix
resolve_path_from-ends_example =
    resolve_path_from-ends link_to_l 1 link_to_l-length 41 (some (bytes "/p")) (bytes "/l")
      (omega arith)
