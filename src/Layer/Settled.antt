-- ===== src/Layer/Settled.antt =====
-- How `resolveLayerImage` of cmd/claude-contained/layer.go ends.
use claude_contained.Cli.Config.{Config}
use claude_contained.Runtime.Selection.{RuntimeName}
use claude_contained.Layer.Stream.{LayerNode, Identity}
use claude_contained.Layer.Search.{
  LayerSources, LayerSearch, found_layer, no_layer_dir, bad_layer, find_layer,
}
use claude_contained.Layer.Commands.{
  ImageDescriptor, ImageProbe, no_image, has_image, image_fault, Event, described, asked, wrote,
  told, LayerRun, layer_failed, layer_ready, question_of, Terminal,
}
use claude_contained.Layer.Image.{no_terminal_lines, build_layer_image, confirmed, after_derived}
use claude_contained.Layer.Choice.{
  identity_of, with_identity, after_base, after_search, resolve_layer_image,
}
use claude_contained.Layer.Provenance.{calls, commands}
use claude_contained.Layer.Ends.{
  Named, IsAllowed, in_front, LayerEnd, stopped_at, build_layer_image-LayerEnd,
}
use claude_contained.Base.{ℕ, ◌≡◌, refl, ◌⊎◌, inl, inr}
use claude_contained.Base.{Bool, true, false, Option, none, some, arith, if◌then◌else◌, if_cases}
use claude_contained.Base.{List, [], ◌∷◌, ◌++◌}
use claude_contained.Base.{Bytes, bytes}

module _ (rt : RuntimeName) (describe : List Event → Bytes → ImageProbe)
    (execute : List Event → List Bytes → ℕ) (sha256 to_lower : Bytes → Bytes)
    (visited : Bytes → List (Bytes × LayerNode)) (walk_error : Bytes → Bytes)
    (prog_name base_ref : Bytes) (cfg : Config) (src : LayerSources) (term : Terminal)
    (suffix : Bytes ⊎ Bytes) where
  abbrev Ended : LayerSearch → LayerRun → Type 0
  Ended =
      LayerEnd rt describe execute sha256 to_lower visited walk_error prog_name base_ref cfg src
        term suffix

  abbrev Known : Bytes → ImageDescriptor → Identity → Type 0
  Known =
      Named rt describe execute sha256 to_lower visited walk_error prog_name base_ref cfg src term
        suffix

  abbrev front : ImageDescriptor → Identity → List Event
  front =
      in_front rt describe execute sha256 to_lower visited walk_error prog_name base_ref cfg src
        term suffix

  module _ (search : LayerSearch) where
    failed_now : (h : List Event) → commands h ≡ [] → Ended search (layer_failed h)
    failed_now h e =
        stopped_at rt describe execute sha256 to_lower visited walk_error prog_name base_ref cfg src
          term suffix search h e

    declined :
        (id : Identity) (h : List Event)
        → commands h ≡ []
        → Ended search (
            layer_failed (
              wrote (bytes "       Use --no-layer to run the base image without the tooling layer.")
              ∷ told (bytes "Aborted.")
              ∷ asked (question_of id)
              ∷ h))
    declined id h k =
        failed_now
          (wrote (bytes "       Use --no-layer to run the base image without the tooling layer.")
            ∷ told (bytes "Aborted.")
            ∷ asked (question_of id)
            ∷ h)
          k

    module _ (dir : Bytes) (base : ImageDescriptor) (id : Identity)
        (named : Known dir base id) where
      confirmed-LayerEnd :
          (answer : Option Bool) (h : List Event)
          → term.is_tty ≡ true
          → term.answer ≡ answer
          → calls h ≡ front base id
          → commands h ≡ []
          → Ended search
              (confirmed rt describe execute src.project_dir base_ref base id answer suffix h)
      unfolding confirmed
      confirmed-LayerEnd (some true) h t a e k =
          build_layer_image-LayerEnd rt describe execute sha256 to_lower visited walk_error
            prog_name base_ref cfg src term suffix search dir base id named
            (IsAllowed.by_answer t a) (asked (question_of id) ∷ h) e k
      confirmed-LayerEnd (some false) h t a e k = declined id h k
      confirmed-LayerEnd none h t a e k = declined id h k

      after_derived-LayerEnd :
          (p : ImageProbe)
          → Ended search (
              after_derived rt describe execute src.project_dir base_ref base id cfg.build_layer
                term suffix p
                (described base_ref (has_image base) ∷ []))
      unfolding after_derived
      after_derived-LayerEnd (image_fault text) =
          failed_now
            (wrote (bytes "error: " ++ text)
              ∷ described id.tag (image_fault text)
              ∷ described base_ref (has_image base)
              ∷ [])
            refl
      after_derived-LayerEnd (has_image d) = LayerEnd.reused dir base d id named refl refl refl
      after_derived-LayerEnd no_image =
          let g = described id.tag no_image ∷ described base_ref (has_image base) ∷ [] in
          if_cases (Ended search) cfg.build_layer
            (build_layer_image rt describe execute src.project_dir base_ref base id suffix g)
            (if term.is_tty
              then confirmed rt describe execute src.project_dir base_ref base id term.answer suffix
                  g
              else layer_failed
                  (no_terminal_lines rt describe execute src.project_dir base_ref base id g))
            (λ b.
              build_layer_image-LayerEnd rt describe execute sha256 to_lower visited walk_error
                prog_name base_ref cfg src term suffix search dir base id named
                (IsAllowed.by_flag b) g refl refl)
            (λ b.
              if_cases (Ended search) term.is_tty
                (confirmed rt describe execute src.project_dir base_ref base id term.answer suffix
                  g)
                (layer_failed
                  (no_terminal_lines rt describe execute src.project_dir base_ref base id g))
                (λ t. confirmed-LayerEnd term.answer g t refl refl refl)
                (λ t.
                  failed_now
                    (no_terminal_lines rt describe execute src.project_dir base_ref base id g)
                    refl))

    with_identity-LayerEnd :
        (dir : Bytes) (base : ImageDescriptor) (found : Option Identity)
        → identity_of rt describe execute sha256 to_lower visited walk_error prog_name base_ref cfg
            src term suffix dir base
          ≡ found
        → Ended search (
            with_identity rt describe execute sha256 to_lower visited walk_error prog_name base_ref
              cfg src term suffix dir base found
              (described base_ref (has_image base) ∷ []))
    unfolding with_identity
    with_identity-LayerEnd dir base none e =
        failed_now
          (wrote (bytes "error: " ++ walk_error dir) ∷ described base_ref (has_image base) ∷ [])
          refl
    with_identity-LayerEnd dir base (some id) e =
        after_derived-LayerEnd dir base id e
          (describe (described base_ref (has_image base) ∷ []) id.tag)

    after_base-LayerEnd :
        (dir : Bytes) (p : ImageProbe)
        → Ended search (
            after_base rt describe execute sha256 to_lower visited walk_error prog_name base_ref cfg
              src term suffix dir p)
    unfolding after_base
    after_base-LayerEnd dir (image_fault text) =
        failed_now (wrote (bytes "error: " ++ text) ∷ described base_ref (image_fault text) ∷ [])
          refl
    after_base-LayerEnd dir no_image = LayerEnd.stopped (λ q. omega (arith, q)) refl refl
    after_base-LayerEnd dir (has_image base) =
        with_identity-LayerEnd dir base
          (identity_of rt describe execute sha256 to_lower visited walk_error prog_name base_ref cfg
            src term suffix dir base)
          refl

  after_search-LayerEnd :
      (search : LayerSearch)
      → Ended search (
          after_search rt describe execute sha256 to_lower visited walk_error prog_name base_ref cfg
            src term suffix search)
  unfolding after_search
  after_search-LayerEnd no_layer_dir = LayerEnd.on_base (inr refl) refl
  after_search-LayerEnd (bad_layer dir from_flag) =
      LayerEnd.stopped (λ q. omega (arith, q)) refl refl
  after_search-LayerEnd (found_layer dir) =
      after_base-LayerEnd (found_layer dir) dir (describe [] base_ref)

  -- Whatever the runtime answers to the probes and the commands, a run ends in one of these ways. It
  -- returns the base image only if the flag says so or the project has no layer, and then calls
  -- nothing; it returns the derived image if that was there; or it builds, only with the flag or a
  -- yes at a terminal. A build on an immutable reference has the derived tag, which is returned
  -- exactly if the build succeeds. Another build has a tag of its own, the removal of which is the last
  -- command whatever happens, and it is tagged as the derived image only when the build succeeded and
  -- the base image was found to be the same before and after it. Else it fails with no image, and
  -- runs no command.
  pub resolve_layer_image-LayerEnd :
      (resolve_path : Bytes → Bytes) (has_dockerfile : Bytes → Bool)
      → Ended (find_layer resolve_path has_dockerfile src) (
          resolve_layer_image rt describe execute sha256 to_lower visited walk_error prog_name
            base_ref cfg src term suffix resolve_path has_dockerfile)
  unfolding resolve_layer_image
  resolve_layer_image-LayerEnd resolve_path has_dockerfile =
      let search = find_layer resolve_path has_dockerfile src in
      if_cases (Ended search) cfg.no_layer (layer_ready [] [])
        (after_search rt describe execute sha256 to_lower visited walk_error prog_name base_ref cfg
          src term suffix search)
        (λ n. LayerEnd.on_base (inl n) refl) (λ n. after_search-LayerEnd search)
