-- ===== src/Plan/SharedMounts.antt =====
-- The mounts that `sharedSkillsMounts` emits.
use claude_contained.Plan.Facts.{HostPaths, SharedSkills, SharedSkillLink}
use claude_contained.Plan.Mounts.{
  MountRecord, MountRegistry, new_mount_registry, add_user, path_parity_covers,
  would_shadow_existing, is_nested_under_readonly_non_parity_destination,
}
use claude_contained.Plan.Skills.{
  Sharing, Action, after_action, ◌>>◌, nothing_more, share, make_dir, share_specs, tool_specs,
  shared_skills_target_root, share_target_root, share_codex_system, share_link, share_links,
  shared_skills_mounts,
}
use claude_contained.Plan.Separate.{destinations, map-append, IsSeparate, Keeps, share-Keeps}
use claude_contained.Plan.Questions.{register_extra_mounts}
use claude_contained.Base.{◌≡◌, refl, sym, ap, ◌∙◌}
use claude_contained.Base.{Bool, true, false, not, ◌&&◌, Option, none, some, if◌then◌else◌}
use claude_contained.Base.{List, [], ◌∷◌, ◌++◌, map, append-nil, append_assoc, is_nil}
use claude_contained.Base.{Bytes, bytes}

module _ (taken : List Bytes) where
  nothing_more-Keeps : Keeps taken nothing_more
  nothing_more-Keeps = record { kept = λ s i. i }

  make_dir-Keeps : (path : Bytes) → Keeps taken (make_dir path)
  unfolding make_dir
  make_dir-Keeps path = record {
    kept = λ s i. record {
      mounts = i.mounts;
      distinct = i.distinct;
      apart = i.apart;
      users = i.users;
    };
  }

  after-kept :
      (s : Sharing) (o : Option (List Bytes)) (next : Action)
      → IsSeparate taken s
      → Keeps taken next
      → IsSeparate taken (after_action s o next).0
  after-kept s none next i k = k.kept s i
  after-kept s (some lines) next i k = i

  then-Keeps : (m next : Action) → Keeps taken m → Keeps taken next → Keeps taken (m >> next)
  then-Keeps m next h k = record { kept = λ s i. after-kept (m s).0 (m s).1 next (h.kept s i) k }

  if-kept :
      (test : Bool) (s : Sharing) (r t : Sharing × Option (List Bytes))
      → IsSeparate taken r.0
      → IsSeparate taken t.0
      → IsSeparate taken (if test then r else t).0
  if-kept true s r t h k = h
  if-kept false s r t h k = k

  share_specs-Keeps :
      (src : Bytes) (specs : List (Bytes × Bytes)) → Keeps taken (share_specs src specs)
  unfolding share_specs
  share_specs-Keeps src [] = nothing_more-Keeps
  share_specs-Keeps src ((dst, dst_parent) ∷ specs) =
      then-Keeps (make_dir dst_parent >> share src dst false (bytes "skills"))
        (share_specs src specs)
        (then-Keeps (make_dir dst_parent) (share src dst false (bytes "skills"))
          (make_dir-Keeps dst_parent) (share-Keeps taken src dst false (bytes "skills")))
        (share_specs-Keeps src specs)

  share_target_root-Keeps : (root : Bytes) → Keeps taken (share_target_root root)
  unfolding share_target_root
  share_target_root-Keeps root = record {
    kept = λ s i.
        if-kept
          (not (is_nil root)
            && not (path_parity_covers s.registry root)
            && not (would_shadow_existing s.registry root)
            && not (is_nested_under_readonly_non_parity_destination s.registry root))
          s _ _ ((share-Keeps taken root root true (bytes "shared skills target root")).kept s i) i;
  }

  share_codex_system-Keeps :
      (paths : HostPaths) (has_system : Bool) → Keeps taken (share_codex_system paths has_system)
  unfolding share_codex_system
  share_codex_system-Keeps paths has_system = record {
    kept = λ s i.
        if-kept has_system s _ _
          ((share-Keeps taken (paths.codex_dir ++ bytes "/skills/.system")
              (paths.codex_dir ++ bytes "/skills/.system") false (bytes "Codex system skills")).kept
            s i)
          i;
  }

  share_link-Keeps : (link : SharedSkillLink) → Keeps taken (share_link link)
  unfolding share_link
  share_link-Keeps link = record {
    kept = λ s i. if-kept link.missing s _ _ i (
        if-kept link.is_dir s _ _
          ((share-Keeps taken link.resolved link.resolved true
              (bytes "symlinked skills target")).kept
            s i)
          ((share-Keeps taken link.parent_dir link.parent_dir true
              (bytes "symlinked skills file parent")).kept
            s i));
  }

  share_links-Keeps : (links : List SharedSkillLink) → Keeps taken (share_links links)
  unfolding share_links
  share_links-Keeps [] = nothing_more-Keeps
  share_links-Keeps (link ∷ links) =
      then-Keeps (share_link link) (share_links links) (share_link-Keeps link)
        (share_links-Keeps links)

shared-register_extra_mounts :
    (ms : List (Bytes × Bytes)) (r : MountRegistry) → (register_extra_mounts ms r).shared ≡ r.shared
unfolding register_extra_mounts add_user
shared-register_extra_mounts [] r = refl
shared-register_extra_mounts ((src, mode) ∷ ms) r =
    shared-register_extra_mounts ms (add_user src src mode r)

-- The destinations that the project and the extra mounts take.
abbrev pub taken_by : Bytes → List (Bytes × Bytes) → List Bytes
taken_by project_dir ms = project_dir ∷ map (λ m. m.0) ms

users-register_extra_mounts :
    (ms : List (Bytes × Bytes)) (r : MountRegistry)
    → destinations (register_extra_mounts ms r).user ≡ destinations r.user ++ map (λ m. m.0) ms
unfolding register_extra_mounts add_user
users-register_extra_mounts [] r = sym (append-nil (destinations r.user))
users-register_extra_mounts ((src, mode) ∷ ms) r =
    let new : List MountRecord = record { src = src; dst = src; mode = mode } ∷ [] in
    users-register_extra_mounts ms (add_user src src mode r)
    ∙ ap (λ l. l ++ map (λ m. m.0) ms) (map-append (λ rec. rec.dst) r.user new)
    ∙ append_assoc (destinations r.user) (src ∷ []) (map (λ m. m.0) ms)

users-new_mount_registry :
    (project_dir : Bytes) → destinations (new_mount_registry project_dir).user ≡ project_dir ∷ []
unfolding new_mount_registry
users-new_mount_registry project_dir = refl

shared-new_mount_registry : (project_dir : Bytes) → (new_mount_registry project_dir).shared ≡ []
unfolding new_mount_registry
shared-new_mount_registry project_dir = refl

start-IsSeparate :
    (taken : List Bytes) (registry : MountRegistry)
    → registry.shared ≡ []
    → destinations registry.user ≡ taken
    → IsSeparate taken (record { registry = registry; steps = []; args = [] })
start-IsSeparate taken registry e u = record {
  mounts = rw e refl;
  distinct = rw e refl;
  apart = rw e refl;
  users = u;
}

-- For any extra mounts and any shared skills, and whether it ends with an error or not, the mounts that
-- `sharedSkillsMounts` emits are those it registered, in order and all of them read-only; no two have one
-- destination, and none has the destination of the project's mount or of an extra mount.
pub shared_skills_mounts-IsSeparate :
    (project_dir : Bytes) (ms : List (Bytes × Bytes)) (paths : HostPaths) (ss : SharedSkills)
    (needs_mountpoint : Bool)
    → let registry = register_extra_mounts ms (new_mount_registry project_dir) in
      IsSeparate
        (taken_by project_dir ms)
        (shared_skills_mounts registry paths ss needs_mountpoint).0
unfolding shared_skills_mounts
shared_skills_mounts-IsSeparate project_dir ms paths ss needs_mountpoint =
    let registry = register_extra_mounts ms (new_mount_registry project_dir) in
    let e =
      shared-register_extra_mounts ms (new_mount_registry project_dir)
      ∙ shared-new_mount_registry project_dir in
    let taken = taken_by project_dir ms in
    let users =
      users-register_extra_mounts ms (new_mount_registry project_dir)
      ∙ ap (λ l. l ++ map (λ m. m.0) ms) (users-new_mount_registry project_dir) in
    let start : Sharing = record { registry = registry; steps = []; args = [] } in
    let fresh = start-IsSeparate taken registry e users in
    let root = shared_skills_target_root ss in
    let specs = share_specs ss.dir (tool_specs paths) in
    let target = share_target_root root in
    let source = share ss.dir ss.dir true (bytes "shared skills source") in
    let system = share_codex_system paths ss.codex_system_dir in
    let all =
      then-Keeps taken (specs >> target >> source >> system) (share_links ss.links)
        (then-Keeps taken (specs >> target >> source) system
          (then-Keeps taken (specs >> target) source
            (then-Keeps taken specs target (share_specs-Keeps taken ss.dir (tool_specs paths))
              (share_target_root-Keeps taken root))
            (share-Keeps taken ss.dir ss.dir true (bytes "shared skills source")))
          (share_codex_system-Keeps taken paths ss.codex_system_dir))
        (share_links-Keeps taken ss.links) in
    if-kept taken (ss.codex_system_dir && needs_mountpoint && not ss.dir_has_system) start _ _ fresh
      (all.kept start fresh)
