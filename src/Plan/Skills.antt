-- ===== src/Plan/Skills.antt =====
-- internal/plan/sharedskills.go: the mounts of --share-skills.
use claude_contained.Plan.Step.{Step, mkdir_all, print}
use claude_contained.Plan.Facts.{HostPaths, SharedSkills, SharedSkillLink}
use claude_contained.Plan.Mounts.{
  MountRegistry, Added, skipped, added, conflict, add_shared, path_parity_covers,
  would_shadow_existing, is_nested_under_readonly_non_parity_destination,
}
use claude_contained.Host.FilePath.{clean, dir}
use claude_contained.Host.Paths.{path_is_at_or_under}
use claude_contained.Runtime.Spec.{Arg}
use claude_contained.Base.{ℕ, zero, suc, ◌+◌}
use claude_contained.Base.{Bool, true, false, not, ◌&&◌, ◌||◌, Option, none, some, if◌then◌else◌}
use claude_contained.Base.{List, [], ◌∷◌, ◌++◌, length, is_nil}
use claude_contained.Base.{Bytes, bytes, same}

-- What the function has produced so far.
pub record Sharing : Type 0 where
  pub registry : MountRegistry
  pub steps : List Step
  pub args : List Arg

-- A part of the function: what it leaves behind, and the lines of its error if it fails.
abbrev pub Action : Type 0
Action = Sharing → Sharing × Option (List Bytes)

abbrev pub after_action : Sharing → Option (List Bytes) → Action → Sharing × Option (List Bytes)
after_action s (some lines) next = (s, some lines)
after_action s none next = next s

infixl 5 ◌>>◌
abbrev pub ◌>>◌ : Action → Action → Action
◌>>◌ m next s = after_action (m s).0 (m s).1 next

abbrev pub nothing_more : Action
nothing_more s = (s, none)

-- `addMount` on what `addShared` returned.
unfoldable pub note_added : Added → Sharing → Sharing × Option (List Bytes)
note_added skipped s = (s, none)
note_added (added mount line) s =
    (record s { steps = s.steps ++ print line true ∷ []; args = s.args ++ mount ∷ [] }, none)
note_added (conflict lines) s = (s, some lines)

unfoldable pub share : Bytes → Bytes → Bool → Bytes → Action
unfolding note_added
share src dst allow_cover label s =
    let (registry, result) = add_shared s.registry src dst allow_cover label in
    note_added result (record s { registry = registry })

unfoldable pub make_dir : Bytes → Action
make_dir path s = (record s { steps = s.steps ++ mkdir_all path ∷ [] }, none)

-- One of the six tools: the destination, and the directory made before the mount is tried.
unfoldable pub share_specs : Bytes → List (Bytes × Bytes) → Action
unfolding share make_dir
share_specs src [] = nothing_more
share_specs src ((dst, dst_parent) ∷ specs) =
    make_dir dst_parent >> share src dst false (bytes "skills") >> share_specs src specs

abbrev pub tool_specs : HostPaths → List (Bytes × Bytes)
tool_specs paths =
    (paths.container_claude_dir ++ bytes "/skills", paths.claude_profile_dir)
    ∷ (paths.codex_dir ++ bytes "/skills", paths.codex_dir)
    ∷ (paths.agents_dir ++ bytes "/skills", paths.agents_dir)
    ∷ (paths.copilot_dir ++ bytes "/skills", paths.copilot_dir)
    ∷ (paths.gemini_dir ++ bytes "/skills", paths.gemini_dir)
    ∷ (paths.vibe_dir ++ bytes "/skills", paths.vibe_dir)
    ∷ []

-- The loop of `commonPathAncestor`. The parent of a clean path is shorter unless it is the path, so
-- one round for each byte is enough.
unfoldable pub climb : ℕ → Bytes → Bytes → Bytes
climb zero left right = []
climb (suc fuel) left right =
    let parent = dir left in
    let rest = climb fuel parent right in
    if path_is_at_or_under right left then left else if same parent left then [] else rest

unfoldable pub common_path_ancestor : Bytes → Bytes → Bytes
unfolding climb
common_path_ancestor left right = climb (length (clean left) + 1) (clean left) (clean right)

unfoldable pub is_filesystem_root : Bytes → Bool
is_filesystem_root path = same (dir (clean path)) (clean path)

-- The loop of `sharedSkillsTargetRoot`, with its two variables; `none` is its early return.
unfoldable pub widen_root : Bytes → List SharedSkillLink → Bytes → Bool → Option (Bytes × Bool)
unfolding common_path_ancestor
widen_root root [] candidate external = some (candidate, external)
widen_root root (link ∷ links) candidate external =
    let wider = common_path_ancestor candidate link.resolved in
    let inside = widen_root root links candidate external in
    let outside = widen_root root links wider true in
    if link.missing
    then none
    else if path_is_at_or_under link.resolved root
    then inside
    else if is_nil wider
    then none
    else outside

unfoldable pub shared_skills_target_root : SharedSkills → Bytes
unfolding widen_root is_filesystem_root
shared_skills_target_root ss = elim (widen_root ss.dir ss.links ss.dir false) [
  | none ↦ []
  | some (candidate, external) ↦
      if not external || is_filesystem_root candidate then [] else candidate
]

unfoldable pub share_target_root : Bytes → Action
unfolding share
share_target_root root s =
    if not (is_nil root)
      && not (path_parity_covers s.registry root)
      && not (would_shadow_existing s.registry root)
      && not (is_nested_under_readonly_non_parity_destination s.registry root)
    then share root root true (bytes "shared skills target root") s
    else nothing_more s

unfoldable pub share_codex_system : HostPaths → Bool → Action
unfolding share
share_codex_system paths has_system s =
    let system_dir = paths.codex_dir ++ bytes "/skills/.system" in
    if has_system
    then share system_dir system_dir false (bytes "Codex system skills") s
    else nothing_more s

abbrev pub missing_target : SharedSkillLink → List Bytes
missing_target link =
    (bytes "error: --share-skills symlink target does not exist: "
      ++ link.path
      ++ bytes " -> "
      ++ link.resolved)
    ∷ []

unfoldable pub share_link : SharedSkillLink → Action
unfolding share
share_link link s =
    if link.missing
    then (s, some (missing_target link))
    else if link.is_dir
    then share link.resolved link.resolved true (bytes "symlinked skills target") s
    else share link.parent_dir link.parent_dir true (bytes "symlinked skills file parent") s

unfoldable pub share_links : List SharedSkillLink → Action
unfolding share_link
share_links [] = nothing_more
share_links (link ∷ links) = share_link link >> share_links links

abbrev pub no_mountpoint_lines : HostPaths → SharedSkills → List Bytes
no_mountpoint_lines paths ss =
    bytes "error: --share-skills cannot expose Codex's built-in system skills here"
    ∷ bytes "       This container runtime cannot create a mount point beneath a read-only mount,"
    ∷ (bytes "       and "
        ++ ss.dir
        ++ bytes " has no '.system' entry to hold "
        ++ paths.codex_dir
        ++ bytes "/skills/.system.")
    ∷ bytes "       Create the mount point in the shared skills directory, then re-run:"
    ∷ (bytes "           mkdir -p " ++ ss.dir ++ bytes "/.system")
    ∷ []

unfoldable pub shared_skills_mounts :
    MountRegistry → HostPaths → SharedSkills → Bool → Sharing × Option (List Bytes)
unfolding share_specs share_target_root share share_codex_system share_links
shared_skills_mounts registry paths ss remount_needs_mountpoint =
    let start : Sharing = record { registry = registry; steps = []; args = [] } in
    let mounts : Action =
      share_specs ss.dir (tool_specs paths)
      >> share_target_root (shared_skills_target_root ss)
      >> share ss.dir ss.dir true (bytes "shared skills source")
      >> share_codex_system paths ss.codex_system_dir
      >> share_links ss.links in
    if ss.codex_system_dir && remount_needs_mountpoint && not ss.dir_has_system
    then (start, some (no_mountpoint_lines paths ss))
    else mounts start
