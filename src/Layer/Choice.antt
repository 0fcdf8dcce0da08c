-- ===== src/Layer/Choice.antt =====
-- `resolveLayerImage` of cmd/claude-contained/layer.go from its start: the flags, the search for the
-- layer and the probe of the base image. The walk of a directory is a parameter, with the text of its error.
use claude_contained.Cli.Config.{Config}
use claude_contained.Runtime.Selection.{RuntimeName}
use claude_contained.Layer.Stream.{LayerNode, Identity, resolve_layer}
use claude_contained.Layer.Search.{
  LayerSources, LayerSearch, found_layer, no_layer_dir, bad_layer, layer_source_of, find_layer,
}
use claude_contained.Layer.Commands.{
  ImageDescriptor, ImageProbe, no_image, has_image, image_fault, Event, described, wrote, LayerRun,
  layer_failed, layer_ready, Terminal,
}
use claude_contained.Layer.Image.{after_derived}
use claude_contained.Base.{ℕ, ◌⊎◌}
use claude_contained.Base.{Bool, Option, none, some, if◌then◌else◌}
use claude_contained.Base.{List, [], ◌∷◌, ◌++◌}
use claude_contained.Base.{Bytes, bytes}

module _ (rt : RuntimeName) (describe : List Event → Bytes → ImageProbe)
    (execute : List Event → List Bytes → ℕ) (sha256 to_lower : Bytes → Bytes)
    (visited : Bytes → List (Bytes × LayerNode)) (walk_error : Bytes → Bytes)
    (prog_name base_ref : Bytes) (cfg : Config) (src : LayerSources) (term : Terminal)
    (suffix : Bytes ⊎ Bytes) where
  abbrev pub identity_of : Bytes → ImageDescriptor → Option Identity
  identity_of dir base =
      resolve_layer sha256 to_lower dir (visited dir) src.project_dir base.identity

  unfoldable pub with_identity : Bytes → ImageDescriptor → Option Identity → List Event → LayerRun
  unfolding after_derived
  with_identity dir base none h = layer_failed (wrote (bytes "error: " ++ walk_error dir) ∷ h)
  with_identity dir base (some id) h =
      after_derived rt describe execute src.project_dir base_ref base id cfg.build_layer term suffix
        (describe h id.tag) h

  unfoldable pub after_base : Bytes → ImageProbe → LayerRun
  unfolding with_identity
  after_base dir (image_fault text) =
      layer_failed (wrote (bytes "error: " ++ text) ∷ described base_ref (image_fault text) ∷ [])
  after_base dir no_image = layer_failed (
      wrote (
        bytes "       Run '"
        ++ prog_name
        ++ bytes " --rebuild=full' first; a tooling layer builds on top of it.")
      ∷ wrote (bytes "error: the base image " ++ base_ref ++ bytes " is not built.")
      ∷ described base_ref no_image
      ∷ [])
  after_base dir (has_image base) =
      with_identity dir base (identity_of dir base) (described base_ref (has_image base) ∷ [])

  unfoldable pub after_search : LayerSearch → LayerRun
  unfolding after_base
  after_search no_layer_dir = layer_ready [] []
  after_search (bad_layer dir from_flag) = record {
    image = [];
    code = 2;
    history =
        wrote (bytes "error: " ++ layer_source_of from_flag ++ bytes " has no Dockerfile: " ++ dir)
        ∷ [];
  }
  after_search (found_layer dir) = after_base dir (describe [] base_ref)

  module _ (resolve_path : Bytes → Bytes) (has_dockerfile : Bytes → Bool) where
    unfoldable pub resolve_layer_image : LayerRun
    unfolding after_search find_layer
    resolve_layer_image =
        if cfg.no_layer
        then layer_ready [] []
        else after_search (find_layer resolve_path has_dockerfile src)
