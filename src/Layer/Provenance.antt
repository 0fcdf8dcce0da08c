-- ===== src/Layer/Provenance.antt =====
-- What `resolveLayerImage` of cmd/claude-contained/layer.go can end with: which commands ran, and where
-- the image that it returns comes from.
use claude_contained.Runtime.Selection.{RuntimeName}
use claude_contained.Layer.Stream.{Identity}
use claude_contained.Layer.Commands.{
  ImageDescriptor, ImageProbe, no_image, has_image, image_fault, Event, described, executed, asked,
  wrote, told, LayerRun, layer_failed, render_tag, render_remove, exit_line, build_failed_lines,
  left_stage,
}
use claude_contained.Layer.Image.{
  after_removal, remove_stage, changed_line, build_argv, after_tag, after_probe, after_build,
}
use claude_contained.Base.{ℕ, ◌≡◌, refl, ap, ◌≢◌, inl, inr}
use claude_contained.Base.{Bool, true, false, arith, ◌==◌, if◌then◌else◌, ==_iff, Bool-cases}
use claude_contained.Base.{List, [], ◌∷◌, ◌++◌}
use claude_contained.Base.{Bytes, bytes, same, same_iff}

-- The probes and the commands among the events.
abbrev pub calls : List Event → List Event
calls [] = []
calls (described ref p ∷ h) = described ref p ∷ calls h
calls (executed argv code ∷ h) = executed argv code ∷ calls h
calls (asked q ∷ h) = calls h
calls (wrote l ∷ h) = calls h
calls (told l ∷ h) = calls h

abbrev pub commands : List Event → List (List Bytes)
commands [] = []
commands (executed argv code ∷ h) = argv ∷ commands h
commands (described ref p ∷ h) = commands h
commands (asked q ∷ h) = commands h
commands (wrote l ∷ h) = commands h
commands (told l ∷ h) = commands h

module _ (rt : RuntimeName) (describe : List Event → Bytes → ImageProbe)
    (execute : List Event → List Bytes → ℕ) where
  -- The removal of a stage, and a probe for it if the removal failed.
  pub data IsRemoval (stage : Bytes) (h : List Event) : List Event → Type 0 where
    removed : (c : ℕ) → IsRemoval stage h (executed (render_remove rt stage) c ∷ h)
    probed :
        (c : ℕ) (p : ImageProbe)
        → IsRemoval stage h (described stage p ∷ executed (render_remove rt stage) c ∷ h)

  calls-left_stage :
      (primary : Bool) (stage : Bytes) (c : ℕ) (p : ImageProbe) (h : List Event)
      → calls (left_stage primary stage c p h) ≡ calls h
  unfolding left_stage
  calls-left_stage primary stage c no_image h = refl
  calls-left_stage primary stage c (has_image d) h = refl
  calls-left_stage primary stage c (image_fault text) h = refl

  after_removal-IsRemoval :
      (primary : Bool) (stage : Bytes) (c : ℕ) (h : List Event)
      → IsRemoval stage (calls h) (calls (after_removal rt describe execute primary stage c h))
  unfolding after_removal
  after_removal-IsRemoval primary stage c h = elim (Bool-cases (c == 0)) [
    | inl e ↦ rw e (IsRemoval.removed c)
    | inr e ↦
        let g = executed (render_remove rt stage) c ∷ h in
        rw
          (
            e,
            calls-left_stage primary stage c (describe g stage)
                (described stage (describe g stage) ∷ g),
          )
          (IsRemoval.probed c (describe g stage))
  ]

  remove_stage-IsRemoval :
      (primary : Bool) (stage : Bytes) (h : List Event)
      → IsRemoval stage (calls h) (calls (remove_stage rt describe execute primary stage h))
  unfolding remove_stage
  remove_stage-IsRemoval primary stage h =
      after_removal-IsRemoval primary stage (execute h (render_remove rt stage)) h

  module _ (project_dir base_ref : Bytes) (base : ImageDescriptor) (id : Identity) where
    abbrev pub build_of : Bytes → List Bytes
    build_of = build_argv rt describe execute project_dir base_ref base id

    -- A probe that does not find the base image as it was.
    pub data HasChanged : ImageProbe → Type 0 where
      gone : HasChanged no_image
      unknown : (text : Bytes) → HasChanged (image_fault text)
      other : (d : ImageDescriptor) → d.identity ≢ base.identity → HasChanged (has_image d)

    -- The calls from `start` to the removal of a stage, newest first, and whether the stage was tagged
    -- as the derived image: that is only behind a build between two probes that find the base image as
    -- it was.
    pub data Staged (stage : Bytes) (start : List Event) : Bool → List Event → Type 0 where
      stage_failed :
          (pre : ImageDescriptor) (n : ℕ)
          → pre.identity ≡ base.identity
          → n ≢ 0
          → Staged stage start false
              (executed (build_of stage) n ∷ described base_ref (has_image pre) ∷ start)
      base_changed :
          (pre : ImageDescriptor) (p : ImageProbe)
          → pre.identity ≡ base.identity
          → HasChanged p
          → Staged stage start false (
              described base_ref p
              ∷ executed (build_of stage) 0
              ∷ described base_ref (has_image pre)
              ∷ start)
      not_tagged :
          (pre post : ImageDescriptor) (n : ℕ)
          → pre.identity ≡ base.identity
          → post.identity ≡ base.identity
          → n ≢ 0
          → Staged stage start false (
              executed (render_tag rt stage id.tag) n
              ∷ described base_ref (has_image post)
              ∷ executed (build_of stage) 0
              ∷ described base_ref (has_image pre)
              ∷ start)
      tagged :
          (pre post : ImageDescriptor)
          → pre.identity ≡ base.identity
          → post.identity ≡ base.identity
          → Staged stage start true (
              executed (render_tag rt stage id.tag) 0
              ∷ described base_ref (has_image post)
              ∷ executed (build_of stage) 0
              ∷ described base_ref (has_image pre)
              ∷ start)

    -- How a run ends that went on from `start` with a stage that is removed at last.
    pub data IsCleaned (stage : Bytes) (start : List Event) (run : LayerRun) : Type 0 where
      cleaned :
          (done : Bool) (before : List Event)
          → Staged stage start done before
          → IsRemoval stage before (calls run.history)
          → run.code ≡ (if done then 0 else 1)
          → run.image ≡ (if done then id.tag else [])
          → IsCleaned stage start run

    changed-not_same :
        (d : ImageDescriptor) → same d.identity base.identity ≡ false → HasChanged (has_image d)
    changed-not_same d e =
        HasChanged.other d (λ p. let t = (same_iff d.identity base.identity).1 p in cc)

    after_tag-IsCleaned :
        (stage : Bytes) (pre post : ImageDescriptor) (c : ℕ) (h start : List Event)
        → pre.identity ≡ base.identity
        → post.identity ≡ base.identity
        → calls h
          ≡ described base_ref (has_image post)
            ∷ executed (build_of stage) 0
            ∷ described base_ref (has_image pre)
            ∷ start
        → IsCleaned stage start
            (after_tag rt describe execute project_dir base_ref base id stage c h)
    unfolding after_tag
    after_tag-IsCleaned stage pre post c h start i j e =
        let g = executed (render_tag rt stage id.tag) c ∷ h in
        let f =
          wrote (exit_line (bytes "error: could not promote the tooling-layer staging image") c)
          ∷ g in
        elim (Bool-cases (c == 0)) [
          | inl z ↦ rw z (
              IsCleaned.cleaned true (calls g)
                (rw (e, (==_iff c 0).0 z) (Staged.tagged pre post i j))
                (remove_stage-IsRemoval false stage g) refl refl)
          | inr z ↦ rw z (
              IsCleaned.cleaned false (calls f)
                (rw e (Staged.not_tagged pre post c i j (λ q. ground (arith, z, q))))
                (remove_stage-IsRemoval true stage f) refl refl)
        ]

    remove_stage-IsCleaned :
        (stage : Bytes) (start g : List Event)
        → Staged stage start false (calls g)
        → IsCleaned stage start (layer_failed (remove_stage rt describe execute true stage g))
    remove_stage-IsCleaned stage start g s =
        IsCleaned.cleaned false (calls g) s (remove_stage-IsRemoval true stage g) refl refl

    after_probe-IsCleaned :
        (stage : Bytes) (pre : ImageDescriptor) (p : ImageProbe) (h start : List Event)
        → pre.identity ≡ base.identity
        → calls h ≡ executed (build_of stage) 0 ∷ described base_ref (has_image pre) ∷ start
        → IsCleaned stage start
            (after_probe rt describe execute project_dir base_ref base id stage p h)
    unfolding after_probe
    after_probe-IsCleaned stage pre (image_fault text) h start i e =
        remove_stage-IsCleaned stage start
          (wrote (
              bytes "error: could not verify the base image after building the tooling layer: "
              ++ text)
            ∷ described base_ref (image_fault text)
            ∷ h)
          (rw e (Staged.base_changed pre (image_fault text) i (HasChanged.unknown text)))
    after_probe-IsCleaned stage pre no_image h start i e =
        remove_stage-IsCleaned stage start
          (wrote (
              changed_line rt describe execute project_dir base_ref base id
                (bytes "while the tooling layer was building"))
            ∷ described base_ref no_image
            ∷ h)
          (rw e (Staged.base_changed pre no_image i HasChanged.gone))
    after_probe-IsCleaned stage pre (has_image post) h start i e =
        let g = described base_ref (has_image post) ∷ h in
        elim (Bool-cases (same post.identity base.identity)) [
          | inl z ↦ rw z (
              after_tag-IsCleaned stage pre post (execute g (render_tag rt stage id.tag)) g start i
                ((same_iff post.identity base.identity).0 z)
                (ap (λ l. described base_ref (has_image post) ∷ l) e))
          | inr z ↦ rw z (
              remove_stage-IsCleaned stage start
                (wrote (
                    changed_line rt describe execute project_dir base_ref base id
                      (bytes "while the tooling layer was building"))
                  ∷ g)
                (rw e (Staged.base_changed pre (has_image post) i (changed-not_same post z))))
        ]

    pub after_build-IsCleaned :
        (stage : Bytes) (pre : ImageDescriptor) (c : ℕ) (h start : List Event)
        → pre.identity ≡ base.identity
        → calls h ≡ described base_ref (has_image pre) ∷ start
        → IsCleaned stage start
            (after_build rt describe execute project_dir base_ref base id stage c h)
    unfolding after_build
    after_build-IsCleaned stage pre c h start i e =
        let g = executed (build_of stage) c ∷ h in
        elim (Bool-cases (c == 0)) [
          | inl z ↦ rw z (
              after_probe-IsCleaned stage pre (describe g base_ref) g start i
                (rw (e, (==_iff c 0).0 z) refl))
          | inr z ↦ rw z (
              remove_stage-IsCleaned stage start (build_failed_lines id c g)
                (rw e (Staged.stage_failed pre c i (λ q. ground (arith, z, q)))))
        ]
