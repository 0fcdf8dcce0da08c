-- ===== src/Layer/Commands.antt =====
-- What `resolveLayerImage` of cmd/claude-contained/layer.go tells the container runtime and the user: the
-- commands, with those of internal/runtime/docker.go and apple.go, and the lines.
use claude_contained.Runtime.Spec.{BuildSpec}
use claude_contained.Runtime.Render.{render_build}
use claude_contained.Runtime.Selection.{RuntimeName, apple, docker}
use claude_contained.Layer.Stream.{Identity}
use claude_contained.Base.{ℕ}
use claude_contained.Base.{Bool, false, Option, if◌then◌else◌}
use claude_contained.Base.{List, [], ◌∷◌, ◌++◌}
use claude_contained.Base.{Bytes, bytes, decimal}

pub record ImageDescriptor : Type 0 where
  pub identity : Bytes
  pub build_ref : Bytes
  pub build_ref_immutable : Bool

-- What `DescribeImage` returns; an error is its text.
pub data ImageProbe : Type 0 where
  no_image : ImageProbe
  has_image : ImageDescriptor → ImageProbe
  image_fault : Bytes → ImageProbe

-- What happens: probes and commands with their results, a question, and lines on the two outputs.
pub data Event : Type 0 where
  described : Bytes → ImageProbe → Event
  executed : List Bytes → ℕ → Event
  asked wrote told : Bytes → Event

-- The image, where the empty one is the base image, the exit code, and the events, newest first.
pub record LayerRun : Type 0 where
  pub image : Bytes
  pub code : ℕ
  pub history : List Event

abbrev pub layer_failed : List Event → LayerRun
layer_failed h = record { image = []; code = 1; history = h }

abbrev pub layer_ready : Bytes → List Event → LayerRun
layer_ready tag h = record { image = tag; code = 0; history = h }

abbrev pub program_of_runtime : RuntimeName → Bytes
program_of_runtime apple = bytes "container"
program_of_runtime docker = bytes "docker"

abbrev pub render_tag : RuntimeName → Bytes → Bytes → List Bytes
render_tag apple source target =
    bytes "container" ∷ bytes "image" ∷ bytes "tag" ∷ source ∷ target ∷ []
render_tag docker source target = bytes "docker" ∷ bytes "tag" ∷ source ∷ target ∷ []

abbrev pub render_remove : RuntimeName → Bytes → List Bytes
render_remove apple ref =
    bytes "container" ∷ bytes "image" ∷ bytes "delete" ∷ bytes "--force" ∷ ref ∷ []
render_remove docker ref = bytes "docker" ∷ bytes "image" ∷ bytes "rm" ∷ bytes "--force" ∷ ref ∷ []

-- `RenderBuild`; Apple Containers gets no labels.
unfoldable pub render_build_of : RuntimeName → BuildSpec → List Bytes
unfolding render_build
render_build_of apple spec = render_build (program_of_runtime apple) spec []
render_build_of docker spec = render_build (program_of_runtime docker) spec spec.labels

abbrev pub layer_build_spec : Bytes → ImageDescriptor → Identity → Bytes → BuildSpec
layer_build_spec project_dir base id tag = record {
  tag = tag;
  context = id.dir;
  pull = false;
  no_cache = false;
  build_args = (bytes "BASE_IMAGE" ++ b'=' ∷ base.build_ref) ∷ [];
  labels =
      (bytes "claude-contained.layer", bytes "1")
      ∷ (bytes "claude-contained.layer.project", project_dir)
      ∷ (bytes "claude-contained.layer.dockerfile", id.dockerfile)
      ∷ (bytes "claude-contained.layer.base", base.identity)
      ∷ [];
}

-- A message with an exit code in it.
unfoldable pub exit_line : Bytes → ℕ → Bytes
unfolding decimal
exit_line front code = front ++ (bytes " (exit " ++ (decimal code ++ bytes ")."))

abbrev pub build_failed_lines : Identity → ℕ → List Event → List Event
build_failed_lines id code h =
    wrote (
      bytes "       Fix "
      ++ id.dockerfile
      ++ bytes " and retry; the base image was not used as a fallback.")
    ∷ wrote (exit_line (bytes "error: the tooling layer build failed") code)
    ∷ h

-- What the cleanup says of a stage that could not be removed, unless a probe finds none.
unfoldable pub left_stage : Bool → Bytes → ℕ → ImageProbe → List Event → List Event
unfolding exit_line
left_stage primary stage code no_image h = h
left_stage primary stage code p h =
    wrote (
      if primary
      then exit_line (bytes "warning: could not remove tooling-layer staging image " ++ stage) code
      else exit_line (bytes "warning: tooling-layer staging image " ++ stage ++ bytes " remains")
          code)
    ∷ h

abbrev pub question_of : Identity → Bytes
question_of id =
    bytes "Tooling layer found: "
    ++ id.dockerfile
    ++ bytes "\nIt has not been built for the current base image. Building runs its\n"
    ++ bytes "instructions on this host with unrestricted network access.\n"
    ++ bytes "Build the tooling layer for this project? [y/N] "

-- The terminal: whether there is one, and the answer to a question, if one comes.
pub record Terminal : Type 0 where
  pub is_tty : Bool
  pub answer : Option Bool
