-- ===== src/Plan/QuietSkills.antt =====
-- The shared skills of internal/plan/sharedskills.go lock no worktrees.
use claude_contained.Plan.Facts.{HostPaths, SharedSkillLink, SharedSkills}
use claude_contained.Plan.Locks.{IsQuiet, quiet_steps}
use claude_contained.Plan.Mounts.{MountRegistry, Added, skipped, added, conflict, add_shared}
use claude_contained.Plan.Skills.{
  Sharing, Action, after_action, ◌>>◌, nothing_more, note_added, share, make_dir, share_specs,
  share_target_root, share_codex_system, share_link, share_links, missing_target,
  no_mountpoint_lines, shared_skills_mounts, tool_specs, shared_skills_target_root,
}
use claude_contained.Base.{Bool, true, false, Option, none, some, if◌then◌else◌, if_either}
use claude_contained.Base.{List, [], ◌∷◌, ◌++◌}
use claude_contained.Base.{Bytes, bytes}

-- A result without steps that lock worktrees, and an action that keeps it so.
record QuietResult (r : Sharing × Option (List Bytes)) : Type 0 where
  quiet : IsQuiet r.0.steps

record QuietAction (m : Action) : Type 0 where
  kept : (s : Sharing) → IsQuiet s.steps → QuietResult (m s)

after_action-quiet :
    (s : Sharing) (o : Option (List Bytes)) (next : Action)
    → QuietAction next
    → QuietResult (s, o)
    → QuietResult (after_action s o next)
after_action-quiet s none next hn h = hn.kept s h.quiet
after_action-quiet s (some lines) next hn h = record { quiet = h.quiet }

then-QuietAction : (m next : Action) → QuietAction m → QuietAction next → QuietAction (m >> next)
then-QuietAction m next hm hn = record {
  kept = λ s h. after_action-quiet (m s).0 (m s).1 next hn (hm.kept s h);
}

nothing_more-QuietAction : QuietAction nothing_more
nothing_more-QuietAction = record { kept = λ s h. record { quiet = h } }

note_added-quiet : (r : Added) (s : Sharing) → IsQuiet s.steps → QuietResult (note_added r s)
unfolding note_added
note_added-quiet skipped s h = record { quiet = h }
note_added-quiet (added mount line) s h = record { quiet = search quiet_steps }
note_added-quiet (conflict lines) s h = record { quiet = h }

share-QuietAction :
    (src dst : Bytes) (allow_cover : Bool) (label : Bytes)
    → QuietAction (share src dst allow_cover label)
unfolding share
share-QuietAction src dst allow_cover label = record {
  kept = λ s h.
      let (registry, result) = add_shared s.registry src dst allow_cover label in
      note_added-quiet result (record s { registry = registry }) h;
}

make_dir-QuietAction : (path : Bytes) → QuietAction (make_dir path)
unfolding make_dir
make_dir-QuietAction path = record { kept = λ s h. record { quiet = search quiet_steps } }

if-quiet :
    (b : Bool) (x y : Sharing × Option (List Bytes))
    → QuietResult x
    → QuietResult y
    → QuietResult (if b then x else y)
if-quiet b x y hx hy = if_either QuietResult b x y hx hy

share_specs-QuietAction :
    (src : Bytes) (specs : List (Bytes × Bytes)) → QuietAction (share_specs src specs)
unfolding share_specs
share_specs-QuietAction src [] = nothing_more-QuietAction
share_specs-QuietAction src ((dst, dst_parent) ∷ specs) =
    let shared = share src dst false (bytes "skills") in
    then-QuietAction (make_dir dst_parent >> shared) (share_specs src specs)
      (then-QuietAction (make_dir dst_parent) shared (make_dir-QuietAction dst_parent)
        (share-QuietAction src dst false (bytes "skills")))
      (share_specs-QuietAction src specs)

share_target_root-QuietAction : (root : Bytes) → QuietAction (share_target_root root)
unfolding share_target_root
share_target_root-QuietAction root = record {
  kept = λ s h.
      if-quiet _ (share root root true (bytes "shared skills target root") s) (nothing_more s)
        ((share-QuietAction root root true (bytes "shared skills target root")).kept s h)
        (record { quiet = h });
}

share_codex_system-QuietAction :
    (paths : HostPaths) (has_system : Bool) → QuietAction (share_codex_system paths has_system)
unfolding share_codex_system
share_codex_system-QuietAction paths has_system = record {
  kept = λ s h.
      let dir = paths.codex_dir ++ bytes "/skills/.system" in
      if-quiet has_system (share dir dir false (bytes "Codex system skills") s) (nothing_more s)
        ((share-QuietAction dir dir false (bytes "Codex system skills")).kept s h)
        (record { quiet = h });
}

share_link-QuietAction : (link : SharedSkillLink) → QuietAction (share_link link)
unfolding share_link
share_link-QuietAction link = record {
  kept = λ s h.
      let target = share link.resolved link.resolved true (bytes "symlinked skills target") in
      let parent =
        share link.parent_dir link.parent_dir true (bytes "symlinked skills file parent") in
      if-quiet link.missing (s, some (missing_target link))
        (if link.is_dir then target s else parent s) (record { quiet = h })
        (if-quiet link.is_dir (target s) (parent s)
          ((share-QuietAction link.resolved link.resolved true
              (bytes "symlinked skills target")).kept
            s h)
          ((share-QuietAction link.parent_dir link.parent_dir true
              (bytes "symlinked skills file parent")).kept
            s h));
}

share_links-QuietAction : (links : List SharedSkillLink) → QuietAction (share_links links)
unfolding share_links
share_links-QuietAction [] = nothing_more-QuietAction
share_links-QuietAction (link ∷ links) =
    then-QuietAction (share_link link) (share_links links) (share_link-QuietAction link)
      (share_links-QuietAction links)

all_mounts-QuietAction :
    (paths : HostPaths) (ss : SharedSkills)
    → QuietAction (
        share_specs ss.dir (tool_specs paths)
        >> share_target_root (shared_skills_target_root ss)
        >> share ss.dir ss.dir true (bytes "shared skills source")
        >> share_codex_system paths ss.codex_system_dir
        >> share_links ss.links)
all_mounts-QuietAction paths ss =
    search
      (
        then-QuietAction, share-QuietAction, share_specs-QuietAction, share_target_root-QuietAction,
        share_codex_system-QuietAction, share_links-QuietAction,
      )
      depth 10

pub shared_skills_mounts-IsQuiet :
    (r : MountRegistry) (paths : HostPaths) (ss : SharedSkills) (b : Bool)
    → IsQuiet (shared_skills_mounts r paths ss b).0.steps
unfolding shared_skills_mounts
shared_skills_mounts-IsQuiet r paths ss b =
    let start : Sharing = record { registry = r; steps = []; args = [] } in
    (if-quiet _ (start, some (no_mountpoint_lines paths ss)) _
      (record { quiet = search quiet_steps })
      ((all_mounts-QuietAction paths ss).kept start (search quiet_steps))).quiet
