-- ===== src/Layer/Tests.antt =====
-- Walks of a tooling layer, and a run that builds its image.
use claude_contained.Layer.Stream.{
  LayerEntry, LayerNode, directory, symbolic_link, plain_file, stream_of, canonical_stream,
  resolve_layer,
}
use claude_contained.Layer.Visited.{IsCovered, canonical_stream-IsCovered}
use claude_contained.Cli.Config.{initial_config}
use claude_contained.Layer.Ends.{LayerEnd}
use claude_contained.Layer.Settled.{resolve_layer_image-LayerEnd}
use claude_contained.Runtime.Selection.{apple}
use claude_contained.Layer.Search.{LayerSources, find_layer}
use claude_contained.Layer.Commands.{
  ImageProbe, no_image, has_image, Event, LayerRun, render_tag, render_remove, Terminal,
}
use claude_contained.Layer.Choice.{resolve_layer_image}
use claude_contained.Layer.Provenance.{commands}
use claude_contained.Base.{◌≡◌, refl, inr}
use claude_contained.Base.{true, false, some, if◌then◌else◌}
use claude_contained.Base.{List, [], ◌∷◌}
use claude_contained.Base.{
  Bytes, bytes, same, has_prefix, trim_suffix, trim_right, join, split, decimal,
}

abbrev sample_digest : Bytes → Bytes
sample_digest s = bytes "ab"

abbrev sample_walk : List (Bytes × LayerNode)
sample_walk =
    (bytes "a", directory)
    ∷ (bytes "a/b", symbolic_link (bytes "../c"))
    ∷ (bytes "a.txt", plain_file false 2 (bytes "hi"))
    ∷ []

abbrev sample_entries : List LayerEntry
sample_entries =
    record { rel = bytes "a"; kind = bytes "dir"; mode = []; size = []; content = [] }
    ∷ record {
      rel = bytes "a/b";
      kind = bytes "symlink";
      mode = [];
      size = bytes "4";
      content = bytes "ab";
    }
    ∷ record {
      rel = bytes "a.txt";
      kind = bytes "file";
      mode = bytes "0644";
      size = bytes "2";
      content = bytes "ab";
    }
    ∷ []

-- Another order of the walk, and a content with the same digest.
abbrev other_walk : List (Bytes × LayerNode)
other_walk =
    (bytes "a.txt", plain_file false 2 (bytes "ho"))
    ∷ (bytes "a", directory)
    ∷ (bytes "a/b", symbolic_link (bytes "../c"))
    ∷ []

canonical_stream-IsCovered_example :
    (bytes "sha256:1" ≡ bytes "sha256:1")
    × IsCovered sample_digest sample_walk other_walk
    × IsCovered sample_digest other_walk sample_walk
unfolding canonical_stream decimal
canonical_stream-IsCovered_example =
    canonical_stream-IsCovered sample_digest (λ s. refl) (bytes "sha256:1") (bytes "sha256:1")
      sample_walk other_walk (stream_of (bytes "sha256:1") sample_entries) 3 3 2 2 refl refl refl
      refl refl refl

-- Apple Containers with a base image that its builder cannot name by its digest, and no other image.
abbrev apple_images : List Event → Bytes → ImageProbe
apple_images h ref =
    if same ref (bytes "base:latest")
    then has_image (record {
      identity = bytes "sha256:1";
      build_ref = bytes "base:latest";
      build_ref_immutable = false;
    })
    else no_image

abbrev sample_sources : LayerSources
sample_sources = record { flag = []; env = []; project_dir = bytes "/p" }

abbrev yes_at_terminal : Terminal
yes_at_terminal = record { is_tty = true; answer = some true }

abbrev sample_layer_run : LayerRun
sample_layer_run =
    resolve_layer_image apple apple_images (λ h argv. 0) sample_digest (λ s. s) (λ dir. sample_walk)
      (λ dir. []) (bytes "claude-contained") (bytes "base:latest")
      (initial_config (bytes "claude-contained") false) sample_sources yes_at_terminal
      (inr (bytes "x")) (λ p. p) (λ p. true)

abbrev sample_stage : Bytes
sample_stage = bytes "claude-contained-layer:p-ab-stage-x"

sample_layer_run_image :
    (sample_layer_run.code ≡ 0)
    × (sample_layer_run.image ≡ bytes "claude-contained-layer:p-ab")
    × (commands sample_layer_run.history
        ≡ render_remove apple sample_stage
          ∷ render_tag apple sample_stage (bytes "claude-contained-layer:p-ab")
          ∷ (bytes "container"
              ∷ bytes "build"
              ∷ bytes "--build-arg"
              ∷ bytes "BASE_IMAGE=base:latest"
              ∷ bytes "-t"
              ∷ sample_stage
              ∷ bytes "/p/.claude-contained/layer"
              ∷ [])
          ∷ [])
unfolding resolve_layer_image resolve_layer trim_suffix has_prefix trim_right join split
sample_layer_run_image = (refl, refl, refl)

resolve_layer_image-LayerEnd_example :
    LayerEnd apple apple_images
      (λ h argv. 0)
      sample_digest
      (λ s. s)
      (λ dir. sample_walk)
      (λ dir. [])
      (bytes "claude-contained")
      (bytes "base:latest")
      (initial_config (bytes "claude-contained") false)
      sample_sources
      yes_at_terminal
      (inr (bytes "x"))
      (find_layer (λ p. p) (λ p. true) sample_sources)
      sample_layer_run
resolve_layer_image-LayerEnd_example =
    resolve_layer_image-LayerEnd apple apple_images (λ h argv. 0) sample_digest (λ s. s)
      (λ dir. sample_walk) (λ dir. []) (bytes "claude-contained") (bytes "base:latest")
      (initial_config (bytes "claude-contained") false) sample_sources yes_at_terminal
      (inr (bytes "x")) (λ p. p) (λ p. true)
