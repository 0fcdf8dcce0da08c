-- ===== src/Layer/Search.antt =====
-- internal/host/layer.go: where the tooling layer of a project is. `ResolvePath` and the test for a
-- Dockerfile read the file system and are parameters.
use claude_contained.Host.FilePath.{join_path}
use claude_contained.Base.{Bool, true, false, not, if◌then◌else◌}
use claude_contained.Base.{[], ◌∷◌, is_nil}
use claude_contained.Base.{Bytes, bytes}

pub record LayerSources : Type 0 where
  pub flag : Bytes
  pub env : Bytes
  pub project_dir : Bytes

-- `ErrNoLayer` and `BadLayerError` are the last two.
pub data LayerSearch : Type 0 where
  found_layer : Bytes → LayerSearch
  no_layer_dir : LayerSearch
  -- The directory, and whether the flag named it.
  bad_layer : Bytes → Bool → LayerSearch

abbrev pub layer_dir_name : Bytes
layer_dir_name = bytes ".claude-contained/layer"

-- The name of the source in `reportLayerError`.
abbrev pub layer_source_of : Bool → Bytes
layer_source_of from_flag = if from_flag then bytes "--layer" else bytes "CLAUDE_CONTAINED_LAYER"

module _ (resolve_path : Bytes → Bytes) (has_dockerfile : Bytes → Bool) where
  abbrev pub named_layer : Bytes → Bool → LayerSearch
  named_layer dir from_flag =
      if has_dockerfile (resolve_path dir)
      then found_layer (resolve_path dir)
      else bad_layer dir from_flag

  unfoldable pub find_layer : LayerSources → LayerSearch
  unfolding join_path
  find_layer src =
      if not (is_nil src.flag)
      then named_layer src.flag true
      else if not (is_nil src.env)
      then named_layer src.env false
      else if is_nil src.project_dir
      then no_layer_dir
      else (let dir = resolve_path (join_path (src.project_dir ∷ layer_dir_name ∷ [])) in
          if has_dockerfile dir then found_layer dir else no_layer_dir)
