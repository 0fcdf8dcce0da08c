-- ===== src/Layer/Ends.antt =====
-- The ends of `resolveLayerImage` of cmd/claude-contained/layer.go.
use claude_contained.Cli.Config.{Config}
use claude_contained.Runtime.Selection.{RuntimeName}
use claude_contained.Layer.Stream.{LayerNode, Identity}
use claude_contained.Layer.Search.{LayerSources, LayerSearch, no_layer_dir}
use claude_contained.Layer.Commands.{
  ImageDescriptor, ImageProbe, no_image, has_image, image_fault, Event, described, executed, wrote,
  LayerRun, layer_failed, layer_ready, Terminal,
}
use claude_contained.Layer.Image.{
  changed_line, built_in_place, before_build, build_staged, build_layer_image,
}
use claude_contained.Layer.Choice.{identity_of}
use claude_contained.Layer.Provenance.{calls, commands, IsCleaned, build_of, after_build-IsCleaned}
use claude_contained.Base.{ℕ, ◌≡◌, refl, ap, ◌≢◌, ◌⊎◌, inl, inr}
use claude_contained.Base.{true, false, some, arith, ◌==◌, if◌then◌else◌, Bool-cases}
use claude_contained.Base.{List, [], ◌∷◌, ◌++◌}
use claude_contained.Base.{Bytes, bytes, same, same_iff}

module _ (rt : RuntimeName) (describe : List Event → Bytes → ImageProbe)
    (execute : List Event → List Bytes → ℕ) (sha256 to_lower : Bytes → Bytes)
    (visited : Bytes → List (Bytes × LayerNode)) (walk_error : Bytes → Bytes)
    (prog_name base_ref : Bytes) (cfg : Config) (src : LayerSources) (term : Terminal)
    (suffix : Bytes ⊎ Bytes) where
  abbrev pub Named : Bytes → ImageDescriptor → Identity → Type 0
  Named dir base id =
      identity_of rt describe execute sha256 to_lower visited walk_error prog_name base_ref cfg src
        term suffix dir base
      ≡ some id

  -- A build is asked for by the flag, or by the answer to the question.
  pub data IsAllowed : Type 0 where
    by_flag : cfg.build_layer ≡ true → IsAllowed
    by_answer : term.is_tty ≡ true → term.answer ≡ some true → IsAllowed

  -- The calls in front of a build: the base image is there, and the derived one is not.
  abbrev pub in_front : ImageDescriptor → Identity → List Event
  in_front base id = described id.tag no_image ∷ described base_ref (has_image base) ∷ []

  abbrev pub derived_build : ImageDescriptor → Identity → Bytes → List Bytes
  derived_build base id = build_of rt describe execute src.project_dir base_ref base id

  -- The ways in which a run ends.
  pub data LayerEnd (search : LayerSearch) (run : LayerRun) : Type 0 where
    on_base :
        (cfg.no_layer ≡ true) ⊎ (search ≡ no_layer_dir)
        → run ≡ layer_ready [] []
        → LayerEnd search run
    stopped : run.code ≢ 0 → run.image ≡ [] → commands run.history ≡ [] → LayerEnd search run
    reused :
        (dir : Bytes) (base d : ImageDescriptor) (id : Identity)
        → Named dir base id
        → run.code ≡ 0
        → run.image ≡ id.tag
        → calls run.history
          ≡ described id.tag (has_image d) ∷ described base_ref (has_image base) ∷ []
        → LayerEnd search run
    built :
        (dir : Bytes) (base : ImageDescriptor) (id : Identity) (n : ℕ)
        → Named dir base id
        → IsAllowed
        → base.build_ref_immutable ≡ true
        → run.code ≡ (if n == 0 then 0 else 1)
        → run.image ≡ (if n == 0 then id.tag else [])
        → calls run.history ≡ executed (derived_build base id id.tag) n ∷ in_front base id
        → LayerEnd search run
    staged :
        (dir : Bytes) (base : ImageDescriptor) (id : Identity) (x : Bytes)
        → Named dir base id
        → IsAllowed
        → base.build_ref_immutable ≡ false
        → IsCleaned rt describe execute src.project_dir base_ref base id
            (id.tag ++ (bytes "-stage-" ++ x))
            (in_front base id)
            run
        → LayerEnd search run

  module _ (search : LayerSearch) where
    pub stopped_at : (h : List Event) → commands h ≡ [] → LayerEnd search (layer_failed h)
    stopped_at h e = LayerEnd.stopped (λ q. omega (arith, q)) refl e

    module _ (dir : Bytes) (base : ImageDescriptor) (id : Identity) (named : Named dir base id)
        (allowed : IsAllowed) where
      before_build-LayerEnd :
          (x : Bytes) (p : ImageProbe) (h : List Event)
          → base.build_ref_immutable ≡ false
          → calls h ≡ in_front base id
          → commands h ≡ []
          → LayerEnd search (
              before_build rt describe execute src.project_dir base_ref base id
                (id.tag ++ (bytes "-stage-" ++ x))
                p
                h)
      unfolding before_build
      before_build-LayerEnd x (image_fault text) h m e k =
          stopped_at
            (wrote (
                bytes "error: could not verify the base image before building the tooling layer: "
                ++ text)
              ∷ described base_ref (image_fault text)
              ∷ h)
            k
      before_build-LayerEnd x no_image h m e k =
          stopped_at
            (wrote (
                changed_line rt describe execute src.project_dir base_ref base id
                  (bytes "before the tooling layer could be built"))
              ∷ described base_ref no_image
              ∷ h)
            k
      before_build-LayerEnd x (has_image pre) h m e k =
          let stage = id.tag ++ (bytes "-stage-" ++ x) in
          let g = described base_ref (has_image pre) ∷ h in
          elim (Bool-cases (same pre.identity base.identity)) [
            | inl z ↦ rw z (
                LayerEnd.staged dir base id x named allowed m (
                  after_build-IsCleaned rt describe execute src.project_dir base_ref base id stage
                    pre (execute g (derived_build base id stage)) g (in_front base id)
                    ((same_iff pre.identity base.identity).0 z)
                    (ap (λ l. described base_ref (has_image pre) ∷ l) e)))
            | inr z ↦ rw z (
                stopped_at
                  (wrote (
                      changed_line rt describe execute src.project_dir base_ref base id
                        (bytes "before the tooling layer could be built"))
                    ∷ g)
                  k)
          ]

      build_staged-LayerEnd :
          (s : Bytes ⊎ Bytes) (h : List Event)
          → base.build_ref_immutable ≡ false
          → calls h ≡ in_front base id
          → commands h ≡ []
          → LayerEnd search (build_staged rt describe execute src.project_dir base_ref base id s h)
      unfolding build_staged
      build_staged-LayerEnd (inl text) h m e k =
          stopped_at
            (wrote (bytes "error: could not generate a tooling-layer staging tag: " ++ text) ∷ h) k
      build_staged-LayerEnd (inr x) h m e k = before_build-LayerEnd x (describe h base_ref) h m e k

      built_in_place-LayerEnd :
          (n : ℕ) (h : List Event)
          → base.build_ref_immutable ≡ true
          → calls h ≡ in_front base id
          → LayerEnd search
              (built_in_place rt describe execute src.project_dir base_ref base id n h)
      unfolding built_in_place
      built_in_place-LayerEnd n h m e = elim (Bool-cases (n == 0)) [
        | inl z ↦
            rw z (LayerEnd.built dir base id n named allowed m (rw z refl) (rw z refl) (rw e refl))
        | inr z ↦
            rw z (LayerEnd.built dir base id n named allowed m (rw z refl) (rw z refl) (rw e refl))
      ]

      pub build_layer_image-LayerEnd :
          (h : List Event)
          → calls h ≡ in_front base id
          → commands h ≡ []
          → LayerEnd search
              (build_layer_image rt describe execute src.project_dir base_ref base id suffix h)
      unfolding build_layer_image
      build_layer_image-LayerEnd h e k = elim (Bool-cases base.build_ref_immutable) [
        | inl m ↦ rw m (built_in_place-LayerEnd (execute h (derived_build base id id.tag)) h m e)
        | inr m ↦ rw m (build_staged-LayerEnd suffix h m e k)
      ]
