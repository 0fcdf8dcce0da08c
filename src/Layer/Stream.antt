-- ===== src/Layer/Stream.antt =====
-- internal/layer/hash.go and internal/layer/layer.go. The digest, in hexadecimal, and the lowercasing
-- are parameters, and so is the directory: what `WalkDir` visits below it, in its order.
use claude_contained.Host.Sanitize.{take, sanitize_folder_name}
use claude_contained.Host.FilePath.{join_path}
use claude_contained.Base.{ℕ, ◌+◌}
use claude_contained.Base.{
  Bool, true, false, ◌&&◌, ◌||◌, Option, none, some, ltb, ◌==◌, if◌then◌else◌,
}
use claude_contained.Base.{List, [], ◌∷◌, ◌++◌, length}
use claude_contained.Base.{Bytes, bytes, decimal}

-- `entry`
pub record LayerEntry : Type 0 where
  pub rel : Bytes
  pub kind : Bytes
  pub mode : Bytes
  pub size : Bytes
  pub content : Bytes

-- What stands at a visited path. The text of an error stands for an operation that failed.
pub data LayerNode : Type 0 where
  directory other_node failed_node : LayerNode
  -- The target.
  symbolic_link : Bytes → LayerNode
  -- Whether an execute bit is set, the size that the file system tells, and the content.
  plain_file : Bool → ℕ → Bytes → LayerNode

abbrev pub git_mode : Bool → Bytes
git_mode executable = if executable then bytes "0755" else bytes "0644"

module _ (sha256 : Bytes → Bytes) where
  -- The entry of a node, and the bytes that were hashed for it.
  unfoldable pub entry_of : Bytes → LayerNode → Option (LayerEntry × ℕ)
  unfolding decimal
  entry_of rel failed_node = none
  entry_of rel (symbolic_link target) = some (
    record {
      rel = rel;
      kind = bytes "symlink";
      mode = [];
      size = decimal (length target);
      content = sha256 target;
    },
    0,
  )
  entry_of rel directory =
      some (record { rel = rel; kind = bytes "dir"; mode = []; size = []; content = [] }, 0)
  entry_of rel (plain_file executable size content) = some (
    record {
      rel = rel;
      kind = bytes "file";
      mode = git_mode executable;
      size = decimal size;
      content = sha256 content;
    },
    length content,
  )
  entry_of rel other_node =
      some (record { rel = rel; kind = bytes "other"; mode = []; size = []; content = [] }, 0)

  -- The entries in the order of the walk and the bytes hashed, or nothing at the first error.
  unfoldable pub enumerate : List (Bytes × LayerNode) → Option (List LayerEntry × ℕ)
  unfolding entry_of
  enumerate [] = some ([], 0)
  enumerate ((rel, node) ∷ nodes) =
      let later = enumerate nodes in
      elim (entry_of rel node) [
        | none ↦ none
        | some (e, n) ↦ elim (later) [ none ↦ none | some (es, m) ↦ some (e ∷ es, n + m) ]
      ]

-- `<` on strings.
unfoldable pub is_before : Bytes → Bytes → Bool
is_before [] [] = false
is_before [] (d ∷ t) = true
is_before (c ∷ s) [] = false
is_before (c ∷ s) (d ∷ t) = ltb c d || c == d && is_before s t

unfoldable pub insert_entry : LayerEntry → List LayerEntry → List LayerEntry
unfolding is_before
insert_entry e [] = e ∷ []
insert_entry e (f ∷ es) =
    let later = insert_entry e es in if is_before f.rel e.rel then f ∷ later else e ∷ f ∷ es

-- `sort.Slice` by the relative paths, of which no two are the same.
unfoldable pub sort_entries : List LayerEntry → List LayerEntry
unfolding insert_entry
sort_entries [] = []
sort_entries (e ∷ es) = insert_entry e (sort_entries es)

-- A field with the byte that ends it.
abbrev pub with_end : Bytes → Bytes → Bytes
with_end field rest = field ++ 0 ∷ rest

abbrev pub entry_fields : LayerEntry → List Bytes
entry_fields e = e.rel ∷ e.kind ∷ e.mode ∷ e.size ∷ e.content ∷ []

abbrev pub append_fields : List Bytes → Bytes → Bytes
append_fields [] rest = rest
append_fields (f ∷ fs) rest = with_end f (append_fields fs rest)

abbrev pub append_entries : List LayerEntry → Bytes
append_entries [] = []
append_entries (e ∷ es) = append_fields (entry_fields e) (append_entries es)

-- `schemeTag` and the label of the base are the first three of the fields.
abbrev pub scheme_fields : List Bytes
scheme_fields = bytes "claude-contained-layer" ∷ bytes "v1" ∷ bytes "base" ∷ []

unfoldable pub stream_of : Bytes → List LayerEntry → Bytes
unfolding sort_entries
stream_of base es = append_fields scheme_fields (with_end base (append_entries (sort_entries es)))

module _ (sha256 : Bytes → Bytes) where
  -- The stream, the count of the entries and the bytes hashed.
  unfoldable pub canonical_stream : List (Bytes × LayerNode) → Bytes → Option (Bytes × ℕ × ℕ)
  unfolding enumerate stream_of
  canonical_stream nodes base = elim (enumerate sha256 nodes) [
    | none ↦ none
    | some (es, hashed) ↦ some (stream_of base es, length es, hashed)
  ]

  unfoldable pub hash_context : List (Bytes × LayerNode) → Bytes → Option (Bytes × ℕ × ℕ)
  unfolding canonical_stream
  hash_context nodes base = elim (canonical_stream nodes base) [
    | none ↦ none
    | some (stream, count, hashed) ↦ some (sha256 stream, count, hashed)
  ]

pub record Identity : Type 0 where
  pub dir : Bytes
  pub dockerfile : Bytes
  pub tag : Bytes
  pub hash : Bytes
  pub file_count : ℕ
  pub hashed_bytes : ℕ

module _ (sha256 to_lower : Bytes → Bytes) where
  abbrev pub layer_tag : Bytes → Bytes → Bytes
  layer_tag project_dir hash =
      bytes "claude-contained-layer"
      ++ (bytes ":" ++ (sanitize_folder_name to_lower project_dir ++ (bytes "-" ++ hash)))

  unfoldable pub resolve_layer : Bytes → List (Bytes × LayerNode) → Bytes → Bytes → Option Identity
  unfolding hash_context join_path take sanitize_folder_name
  resolve_layer dir nodes project_dir base = elim (hash_context sha256 nodes base) [
    | none ↦ none
    | some (digest, count, hashed) ↦ some (record {
      dir = dir;
      dockerfile = join_path (dir ∷ bytes "Dockerfile" ∷ []);
      tag = layer_tag project_dir (take 32 digest);
      hash = take 32 digest;
      file_count = count;
      hashed_bytes = hashed;
    })
  ]
