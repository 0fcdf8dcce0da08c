-- ===== src/Layer/Visited.antt =====
-- What the canonical stream of internal/layer/hash.go tells of the nodes of a layer.
use claude_contained.Layer.Stream.{
  LayerEntry, LayerNode, directory, other_node, failed_node, symbolic_link, plain_file, git_mode,
  entry_of, enumerate, insert_entry, sort_entries, is_before, stream_of, canonical_stream,
}
use claude_contained.Layer.Unambiguous.{
  has_no_nul, ListPlain, enumerate-ListPlain, stream_of-injective,
}
use claude_contained.Base.{ℕ, ◌≡◌, refl, sym, ◌∙◌, subst, ◌⊎◌, inl, inr}
use claude_contained.Base.{Bool, true, false, some, arith, if_either, Option-cases}
use claude_contained.Base.{List, [], ◌∷◌, length, All, every}
use claude_contained.Base.{Bytes, decimal-injective}

abbrev pub IsIn : {A : Type 0} → A → List A → Type 0
IsIn x [] = ⊥
IsIn x (y ∷ ys) = (x ≡ y) ⊎ IsIn x ys

every_element : {A : Type 0} (P : A → Type 0) (xs : List A) → ((x : A) → IsIn x xs → P x) → All P xs
every_element P [] h = tt
every_element P (x ∷ xs) h = (h x (inl refl), every_element P xs (λ y k. h y (inr k)))

unsorted_head :
    (e f g : LayerEntry) (es fs : List LayerEntry)
    → (IsIn e fs → IsIn e (f ∷ es))
    → IsIn e (g ∷ fs)
    → IsIn e (f ∷ g ∷ es)
unsorted_head e f g es fs h (inl p) = inr (inl p)
unsorted_head e f g es fs h (inr k) = elim (h k) [ inl p ↦ inl p | inr r ↦ inr (inr r) ]

unsorted_one :
    (e f : LayerEntry) (es : List LayerEntry) → IsIn e (insert_entry f es) → IsIn e (f ∷ es)
unfolding insert_entry
unsorted_one e f [] h = h
unsorted_one e f (g ∷ es) h =
    if_either (λ l. IsIn e l → IsIn e (f ∷ g ∷ es)) (is_before g.rel f.rel) (g ∷ insert_entry f es)
      (f ∷ g ∷ es) (unsorted_head e f g es (insert_entry f es) (unsorted_one e f es)) (λ k. k) h

sorted_head :
    (e f g : LayerEntry) (es fs : List LayerEntry)
    → (IsIn e (f ∷ es) → IsIn e fs)
    → IsIn e (f ∷ g ∷ es)
    → IsIn e (g ∷ fs)
sorted_head e f g es fs h (inl p) = inr (h (inl p))
sorted_head e f g es fs h (inr (inl p)) = inl p
sorted_head e f g es fs h (inr (inr k)) = inr (h (inr k))

sorted_one :
    (e f : LayerEntry) (es : List LayerEntry) → IsIn e (f ∷ es) → IsIn e (insert_entry f es)
unfolding insert_entry
sorted_one e f [] h = h
sorted_one e f (g ∷ es) h =
    if_either (IsIn e) (is_before g.rel f.rel) (g ∷ insert_entry f es) (f ∷ g ∷ es)
      (sorted_head e f g es (insert_entry f es) (sorted_one e f es) h) h

sort_entries-IsIn : (e : LayerEntry) (es : List LayerEntry) → IsIn e es → IsIn e (sort_entries es)
unfolding sort_entries
sort_entries-IsIn e [] h = h
sort_entries-IsIn e (f ∷ es) (inl p) = sorted_one e f (sort_entries es) (inl p)
sort_entries-IsIn e (f ∷ es) (inr k) =
    sorted_one e f (sort_entries es) (inr (sort_entries-IsIn e es k))

unsorted : (e : LayerEntry) (es : List LayerEntry) → IsIn e (sort_entries es) → IsIn e es
unfolding sort_entries
unsorted e [] h = h
unsorted e (f ∷ es) h = elim (unsorted_one e f (sort_entries es) h) [
  | inl p ↦ inl p
  | inr k ↦ inr (unsorted e es k)
]

module _ (sha256 : Bytes → Bytes) where
  -- Nodes that are the same to a layer: of one kind, and with one target length and digest, or with one
  -- execute bit, size and digest.
  abbrev pub Alike : LayerNode → LayerNode → Type 0
  Alike directory directory = Unit
  Alike other_node other_node = Unit
  Alike (symbolic_link t) (symbolic_link t') = (length t ≡ length t') × (sha256 t ≡ sha256 t')
  Alike (plain_file x s c) (plain_file x' s' c') = (x ≡ x') × (s ≡ s') × (sha256 c ≡ sha256 c')
  Alike node node' = ⊥

  git_mode-injective : (x x' : Bool) → git_mode x ≡ git_mode x' → x ≡ x'
  git_mode-injective true true h = refl
  git_mode-injective true false h = ground (arith, h)
  git_mode-injective false true h = ground (arith, h)
  git_mode-injective false false h = refl

  abbrev Told : Bytes → LayerNode → LayerEntry → Type 0
  Told rel node e = (k : ℕ) × (entry_of sha256 rel node ≡ some (e, k))

  entry_of-Alike :
      (rel rel' : Bytes) (node node' : LayerNode) (e : LayerEntry) (k k' : ℕ)
      → entry_of sha256 rel node ≡ some (e, k)
      → entry_of sha256 rel' node' ≡ some (e, k')
      → (rel ≡ rel') × Alike node node'
  unfolding entry_of
  entry_of-Alike rel rel' directory directory e k k' h h' = (cc, tt)
  entry_of-Alike rel rel' other_node other_node e k k' h h' = (cc, tt)
  entry_of-Alike rel rel' (symbolic_link t) (symbolic_link t') e k k' h h' =
      (cc, (decimal-injective (length t) (length t') cc, cc))
  entry_of-Alike rel rel' (plain_file x s c) (plain_file x' s' c') e k k' h h' =
      (cc, (git_mode-injective x x' cc, decimal-injective s s' cc, cc))
  entry_of-Alike rel rel' failed_node node' e k k' h h' = cc
  entry_of-Alike rel rel' directory failed_node e k k' h h' = cc
  entry_of-Alike rel rel' directory other_node e k k' h h' = cc
  entry_of-Alike rel rel' directory (symbolic_link t') e k k' h h' = cc
  entry_of-Alike rel rel' directory (plain_file x' s' c') e k k' h h' = cc
  entry_of-Alike rel rel' other_node failed_node e k k' h h' = cc
  entry_of-Alike rel rel' other_node directory e k k' h h' = cc
  entry_of-Alike rel rel' other_node (symbolic_link t') e k k' h h' = cc
  entry_of-Alike rel rel' other_node (plain_file x' s' c') e k k' h h' = cc
  entry_of-Alike rel rel' (symbolic_link t) failed_node e k k' h h' = cc
  entry_of-Alike rel rel' (symbolic_link t) directory e k k' h h' = cc
  entry_of-Alike rel rel' (symbolic_link t) other_node e k k' h h' = cc
  entry_of-Alike rel rel' (symbolic_link t) (plain_file x' s' c') e k k' h h' = cc
  entry_of-Alike rel rel' (plain_file x s c) failed_node e k k' h h' = cc
  entry_of-Alike rel rel' (plain_file x s c) directory e k k' h h' = cc
  entry_of-Alike rel rel' (plain_file x s c) other_node e k k' h h' = cc
  entry_of-Alike rel rel' (plain_file x s c) (symbolic_link t') e k k' h h' = cc

  -- The first entry and the later ones, of nodes that can all be read.
  enumerate-cons :
      (rel : Bytes) (node : LayerNode) (nodes : List (Bytes × LayerNode)) (es : List LayerEntry)
      (n : ℕ)
      → enumerate sha256 ((rel, node) ∷ nodes) ≡ some (es, n)
      → (e : LayerEntry) × (fs : List LayerEntry) × (m : ℕ) × Told rel node e
        × (enumerate sha256 nodes ≡ some (fs, m))
        × (es ≡ e ∷ fs)
  unfolding enumerate
  enumerate-cons rel node nodes es n h = elim (Option-cases (entry_of sha256 rel node)) [
    | inl q ↦ let out = rw (q, enumerate) at h in cc
    | inr ((e, k), q) ↦ elim (Option-cases (enumerate sha256 nodes)) [
      | inl x ↦ let out = rw (q, x, enumerate) at h in cc
      | inr ((fs, m), x) ↦ let out = rw (q, x, enumerate) at h in (e, fs, m, (k, q), x, cc)
    ]
  ]

  entry_of_node :
      (rel : Bytes) (node : LayerNode) (nodes : List (Bytes × LayerNode)) (es : List LayerEntry)
      (n : ℕ)
      → enumerate sha256 nodes ≡ some (es, n)
      → IsIn (rel, node) nodes
      → (e : LayerEntry) × Told rel node e × IsIn e es
  entry_of_node rel node [] es n h k = absurd k
  entry_of_node rel node ((rel', node') ∷ nodes) es n h (inl p) =
      let (e, fs, m, t, x, q) = enumerate-cons rel' node' nodes es n h in
      (e, subst (λ y. Told y.0 y.1 e) (sym p) t, subst (IsIn e) (sym q) (inl refl))
  entry_of_node rel node ((rel', node') ∷ nodes) es n h (inr k) =
      let (e, fs, m, t, x, q) = enumerate-cons rel' node' nodes es n h in
      let (d, u, i) = entry_of_node rel node nodes fs m x k in
      (d, u, subst (IsIn d) (sym q) (inr i))

  node_of_entry :
      (e : LayerEntry) (nodes : List (Bytes × LayerNode)) (es : List LayerEntry) (n : ℕ)
      → enumerate sha256 nodes ≡ some (es, n)
      → IsIn e es
      → (rel : Bytes) × (node : LayerNode) × Told rel node e × IsIn (rel, node) nodes
  unfolding enumerate
  node_of_entry e [] es n h k = let q : [] ≡ es = cc in absurd (subst (IsIn e) (sym q) k)
  node_of_entry e ((rel, node) ∷ nodes) es n h k =
      let (d, fs, m, t, x, q) = enumerate-cons rel node nodes es n h in
      elim (subst (IsIn e) q k) [
        | inl p ↦ (rel, node, subst (Told rel node) (sym p) t, inl refl)
        | inr i ↦
            let (rel', node', u, j) = node_of_entry e nodes fs m x i in (rel', node', u, inr j)
      ]

  -- Each node has a like one of the same path among the others.
  abbrev pub IsCovered : List (Bytes × LayerNode) → List (Bytes × LayerNode) → Type 0
  IsCovered nodes nodes' =
      All (λ x. (node' : LayerNode) × IsIn (x.0, node') nodes' × Alike x.1 node') nodes

  sort_entries-IsCovered :
      (nodes nodes' : List (Bytes × LayerNode)) (es es' : List LayerEntry) (n n' : ℕ)
      → enumerate sha256 nodes ≡ some (es, n)
      → enumerate sha256 nodes' ≡ some (es', n')
      → sort_entries es ≡ sort_entries es'
      → IsCovered nodes nodes'
  sort_entries-IsCovered nodes nodes' es es' n n' h h' q = every_element _ nodes (λ (rel, node) k.
      let (e, (c, t), i) = entry_of_node rel node nodes es n h k in
      let i' = unsorted e es' (subst (IsIn e) q (sort_entries-IsIn e es i)) in
      let (rel', node', (c', t'), j) = node_of_entry e nodes' es' n' h' i' in
      let (p, a) = entry_of-Alike rel rel' node node' e c c' t t' in
      (node', subst (λ r. IsIn (r, node') nodes') (sym p) j, a))

  -- The entries of a stream.
  enumerated :
      (nodes : List (Bytes × LayerNode)) (base stream : Bytes) (count hashed : ℕ)
      → canonical_stream sha256 nodes base ≡ some (stream, count, hashed)
      → (es : List LayerEntry) × (n : ℕ) × (enumerate sha256 nodes ≡ some (es, n))
        × (stream ≡ stream_of base es)
  unfolding canonical_stream
  enumerated nodes base stream count hashed h = elim (Option-cases (enumerate sha256 nodes)) [
    | inl q ↦ let out = rw (q, canonical_stream) at h in cc
    | inr ((es, n), q) ↦ let out = rw (q, canonical_stream) at h in (es, n, q, cc)
  ]

module _ (sha256 : Bytes → Bytes) (hex : (s : Bytes) → has_no_nul (sha256 s) ≡ true) where
  -- Two layers with one canonical stream have the same base, and each node of either has one of the same
  -- path in the other that is like it: of one kind, and with one target length and digest for a link, or
  -- one execute bit, size and digest for a file. Bases, paths and digests hold no zero byte.
  pub canonical_stream-IsCovered :
      (base base' : Bytes) (nodes nodes' : List (Bytes × LayerNode)) (stream : Bytes)
      (count count' hashed hashed' : ℕ)
      → has_no_nul base ≡ true
      → has_no_nul base' ≡ true
      → every (λ x. has_no_nul x.0) nodes ≡ true
      → every (λ x. has_no_nul x.0) nodes' ≡ true
      → canonical_stream sha256 nodes base ≡ some (stream, count, hashed)
      → canonical_stream sha256 nodes' base' ≡ some (stream, count', hashed')
      → (base ≡ base') × IsCovered sha256 nodes nodes' × IsCovered sha256 nodes' nodes
  canonical_stream-IsCovered base base' nodes nodes' stream count count' hashed hashed' b b' r r' h
        h' =
      let (es, n, x, q) = enumerated sha256 nodes base stream count hashed h in
      let (es', n', x', q') = enumerated sha256 nodes' base' stream count' hashed' h' in
      let (same_base, sorted) =
        stream_of-injective base base' es es' b b'
          (subst ListPlain x (enumerate-ListPlain sha256 hex nodes r))
          (subst ListPlain x' (enumerate-ListPlain sha256 hex nodes' r')) (sym q ∙ q') in
      (
        same_base,
        sort_entries-IsCovered sha256 nodes nodes' es es' n n' x x' sorted,
        sort_entries-IsCovered sha256 nodes' nodes es' es n' n x' x (sym sorted),
      )
