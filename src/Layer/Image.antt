-- ===== src/Layer/Image.antt =====
-- `resolveLayerImage` of cmd/claude-contained/layer.go from the probe of the derived image on. The container
-- runtime is a parameter: what it answers to a probe or a command is any function of what happened
-- before. Log records are left out.
use claude_contained.Runtime.Selection.{RuntimeName}
use claude_contained.Layer.Stream.{Identity}
use claude_contained.Layer.Commands.{
  ImageDescriptor, ImageProbe, no_image, has_image, image_fault, Event, described, executed, asked,
  wrote, told, LayerRun, layer_failed, layer_ready, render_tag, render_remove, render_build_of,
  layer_build_spec, exit_line, build_failed_lines, left_stage, question_of, Terminal,
}
use claude_contained.Base.{ℕ, ◌⊎◌, inl, inr}
use claude_contained.Base.{Bool, true, false, Option, some, ◌==◌, if◌then◌else◌}
use claude_contained.Base.{List, ◌∷◌, ◌++◌}
use claude_contained.Base.{Bytes, bytes, same}

module _ (rt : RuntimeName) (describe : List Event → Bytes → ImageProbe)
    (execute : List Event → List Bytes → ℕ) where
  -- `cleanup`
  unfoldable pub after_removal : Bool → Bytes → ℕ → List Event → List Event
  unfolding left_stage
  after_removal primary stage code h =
      if code == 0
      then executed (render_remove rt stage) code ∷ h
      else (let g = executed (render_remove rt stage) code ∷ h in
          left_stage primary stage code (describe g stage) (described stage (describe g stage) ∷ g))

  unfoldable pub remove_stage : Bool → Bytes → List Event → List Event
  unfolding after_removal
  remove_stage primary stage h = after_removal primary stage (execute h (render_remove rt stage)) h

  module _ (project_dir base_ref : Bytes) (base : ImageDescriptor) (id : Identity) where
    abbrev pub build_argv : Bytes → List Bytes
    build_argv tag = render_build_of rt (layer_build_spec project_dir base id tag)

    unfoldable pub built_in_place : ℕ → List Event → LayerRun
    unfolding render_build_of exit_line
    built_in_place code h =
        let g = executed (build_argv id.tag) code ∷ h in
        if code == 0 then layer_ready id.tag g else layer_failed (build_failed_lines id code g)

    unfoldable pub after_tag : Bytes → ℕ → List Event → LayerRun
    unfolding remove_stage exit_line
    after_tag stage code h =
        let g = executed (render_tag rt stage id.tag) code ∷ h in
        if code == 0
        then layer_ready id.tag (remove_stage false stage g)
        else layer_failed (
            remove_stage true stage (
              wrote
                (exit_line (bytes "error: could not promote the tooling-layer staging image") code)
              ∷ g))

    abbrev pub changed_line : Bytes → Bytes
    changed_line when = bytes "error: the base image changed " ++ when ++ bytes "; retry."

    -- Behind the build: what the probe of the base image finds.
    unfoldable pub after_probe : Bytes → ImageProbe → List Event → LayerRun
    unfolding after_tag same
    after_probe stage (image_fault text) h = layer_failed (
        remove_stage true stage (
          wrote (
            bytes "error: could not verify the base image after building the tooling layer: "
            ++ text)
          ∷ described base_ref (image_fault text)
          ∷ h))
    after_probe stage no_image h = layer_failed (
        remove_stage true stage (
          wrote (changed_line (bytes "while the tooling layer was building"))
          ∷ described base_ref no_image
          ∷ h))
    after_probe stage (has_image post) h =
        let g = described base_ref (has_image post) ∷ h in
        if same post.identity base.identity
        then after_tag stage (execute g (render_tag rt stage id.tag)) g
        else layer_failed (
            remove_stage true stage
              (wrote (changed_line (bytes "while the tooling layer was building")) ∷ g))

    unfoldable pub after_build : Bytes → ℕ → List Event → LayerRun
    unfolding after_probe render_build_of
    after_build stage code h =
        let g = executed (build_argv stage) code ∷ h in
        if code == 0
        then after_probe stage (describe g base_ref) g
        else layer_failed (remove_stage true stage (build_failed_lines id code g))

    -- In front of the build: what the probe of the base image finds.
    unfoldable pub before_build : Bytes → ImageProbe → List Event → LayerRun
    unfolding after_build same
    before_build stage (image_fault text) h = layer_failed (
        wrote (
          bytes "error: could not verify the base image before building the tooling layer: "
          ++ text)
        ∷ described base_ref (image_fault text)
        ∷ h)
    before_build stage no_image h = layer_failed (
        wrote (changed_line (bytes "before the tooling layer could be built"))
        ∷ described base_ref no_image
        ∷ h)
    before_build stage (has_image pre) h =
        let g = described base_ref (has_image pre) ∷ h in
        if same pre.identity base.identity
        then after_build stage (execute g (build_argv stage)) g
        else layer_failed
            (wrote (changed_line (bytes "before the tooling layer could be built")) ∷ g)

    -- The suffix of a stage, or the text of an error.
    unfoldable pub build_staged : Bytes ⊎ Bytes → List Event → LayerRun
    unfolding before_build
    build_staged (inl text) h =
        layer_failed
          (wrote (bytes "error: could not generate a tooling-layer staging tag: " ++ text) ∷ h)
    build_staged (inr suffix) h =
        before_build (id.tag ++ (bytes "-stage-" ++ suffix)) (describe h base_ref) h

    unfoldable pub build_layer_image : Bytes ⊎ Bytes → List Event → LayerRun
    unfolding build_staged built_in_place
    build_layer_image suffix h =
        if base.build_ref_immutable
        then built_in_place (execute h (build_argv id.tag)) h
        else build_staged suffix h

    -- The answer to the question.
    unfoldable pub confirmed : Option Bool → Bytes ⊎ Bytes → List Event → LayerRun
    unfolding build_layer_image
    confirmed (some true) suffix h = build_layer_image suffix (asked (question_of id) ∷ h)
    confirmed answer suffix h = layer_failed (
        wrote (bytes "       Use --no-layer to run the base image without the tooling layer.")
        ∷ told (bytes "Aborted.")
        ∷ asked (question_of id)
        ∷ h)

    abbrev pub no_terminal_lines : List Event → List Event
    no_terminal_lines h =
        wrote (bytes "       Pass --build-layer to build it, or --no-layer to run the base image.")
        ∷ wrote
            (bytes "error: a tooling layer must be built and there is no terminal to confirm on.")
        ∷ h

    -- The probe of the derived image.
    unfoldable pub after_derived :
        Bool → Terminal → Bytes ⊎ Bytes → ImageProbe → List Event → LayerRun
    unfolding confirmed
    after_derived build_layer term suffix (image_fault text) h =
        layer_failed (wrote (bytes "error: " ++ text) ∷ described id.tag (image_fault text) ∷ h)
    after_derived build_layer term suffix (has_image d) h =
        layer_ready id.tag (described id.tag (has_image d) ∷ h)
    after_derived build_layer term suffix no_image h =
        let g = described id.tag no_image ∷ h in
        if build_layer
        then build_layer_image suffix g
        else if term.is_tty
        then confirmed term.answer suffix g
        else layer_failed (no_terminal_lines g)
