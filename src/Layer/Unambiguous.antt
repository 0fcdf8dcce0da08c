-- ===== src/Layer/Unambiguous.antt =====
-- The canonical stream of internal/layer/hash.go tells a layer from every other.
use claude_contained.Layer.Stream.{
  LayerEntry, LayerNode, directory, other_node, failed_node, symbolic_link, plain_file, git_mode,
  entry_of, enumerate, insert_entry, sort_entries, entry_fields, append_fields, append_entries,
  scheme_fields, stream_of,
}
use claude_contained.Base.{ℕ, ◌≡◌, refl, sym, ap, ◌∙◌, inl, inr}
use claude_contained.Base.{
  Bool, true, false, ◌&&◌, Option, none, some, arith, and_left, and_right, Option-cases,
}
use claude_contained.Base.{List, [], ◌∷◌, ◌++◌, length, every}
use claude_contained.Base.{
  Bytes, split, is_free_of, split-append, is_digit, decimal, decimal-is_digits,
}

abbrev pub has_no_nul : Bytes → Bool
has_no_nul = is_free_of 0

abbrev pub is_plain_entry : LayerEntry → Bool
is_plain_entry e = every has_no_nul (entry_fields e)

split-append_fields :
    (fs : List Bytes) (rest : Bytes)
    → every has_no_nul fs ≡ true
    → split 0 (append_fields fs rest) ≡ fs ++ split 0 rest
split-append_fields [] rest h = refl
split-append_fields (f ∷ fs) rest h =
    split-append 0 f (append_fields fs rest) (and_left (has_no_nul f) (every has_no_nul fs) h)
    ∙ ap (λ l. f ∷ l)
        (split-append_fields fs rest (and_right (has_no_nul f) (every has_no_nul fs) h))

abbrev all_fields : List LayerEntry → List Bytes
all_fields [] = [] ∷ []
all_fields (e ∷ es) = entry_fields e ++ all_fields es

split-append_entries :
    (es : List LayerEntry)
    → every is_plain_entry es ≡ true
    → split 0 (append_entries es) ≡ all_fields es
unfolding split
split-append_entries [] h = refl
split-append_entries (e ∷ es) h =
    split-append_fields (entry_fields e) (append_entries es)
      (and_left (is_plain_entry e) (every is_plain_entry es) h)
    ∙ ap (λ l. entry_fields e ++ l)
        (split-append_entries es (and_right (is_plain_entry e) (every is_plain_entry es) h))

all_fields-injective : (es fs : List LayerEntry) → all_fields es ≡ all_fields fs → es ≡ fs
all_fields-injective [] [] h = refl
all_fields-injective [] (f ∷ fs) h = cc
all_fields-injective (e ∷ es) [] h = cc
all_fields-injective (e ∷ es) (f ∷ fs) h =
    let r : e.rel ≡ f.rel = cc in
    let k : e.kind ≡ f.kind = cc in
    let m : e.mode ≡ f.mode = cc in
    let z : e.size ≡ f.size = cc in
    let c : e.content ≡ f.content = cc in
    let rest : all_fields es ≡ all_fields fs = cc in
    let same_entry : e ≡ f =
      λ i. record { rel = r i; kind = k i; mode = m i; size = z i; content = c i } in
    λ i. same_entry i ∷ all_fields-injective es fs rest i

every-insert_entry :
    (p : LayerEntry → Bool) (e : LayerEntry) (es : List LayerEntry)
    → every p (insert_entry e es) ≡ (p e && every p es)
unfolding insert_entry
every-insert_entry p e [] = refl
every-insert_entry p e (f ∷ es) = ground (arith, every-insert_entry p e es)

every-sort_entries :
    (p : LayerEntry → Bool) (es : List LayerEntry) → every p (sort_entries es) ≡ every p es
unfolding sort_entries
every-sort_entries p [] = refl
every-sort_entries p (e ∷ es) =
    every-insert_entry p e (sort_entries es) ∙ ap (λ b. p e && b) (every-sort_entries p es)

split-stream_of :
    (base : Bytes) (es : List LayerEntry)
    → has_no_nul base ≡ true
    → every is_plain_entry es ≡ true
    → split 0 (stream_of base es) ≡ scheme_fields ++ base ∷ all_fields (sort_entries es)
unfolding stream_of
split-stream_of base es b p =
    split-append_fields (scheme_fields ++ base ∷ []) (append_entries (sort_entries es))
      (ground arith)
    ∙ ap (λ l. scheme_fields ++ base ∷ l)
        (split-append_entries (sort_entries es) (every-sort_entries is_plain_entry es ∙ p))

-- Streams of entries and base identities without a zero byte are the same only for the same base and
-- the same entries in the sorted order.
pub stream_of-injective :
    (base base' : Bytes) (es es' : List LayerEntry)
    → has_no_nul base ≡ true
    → has_no_nul base' ≡ true
    → every is_plain_entry es ≡ true
    → every is_plain_entry es' ≡ true
    → stream_of base es ≡ stream_of base' es'
    → (base ≡ base') × (sort_entries es ≡ sort_entries es')
unfolding stream_of
stream_of-injective base base' es es' b b' p p' h =
    let fields : scheme_fields ++ base ∷ all_fields (sort_entries es)
        ≡ scheme_fields ++ base' ∷ all_fields (sort_entries es') =
      sym (split-stream_of base es b p) ∙ ap (split 0) h ∙ split-stream_of base' es' b' p' in
    (cc, all_fields-injective (sort_entries es) (sort_entries es') cc)

digits-has_no_nul : (s : Bytes) → every is_digit s ≡ true → has_no_nul s ≡ true
digits-has_no_nul [] h = refl
digits-has_no_nul (c ∷ s) h = ground (arith, digits-has_no_nul s)

decimal-has_no_nul : (n : ℕ) → has_no_nul (decimal n) ≡ true
decimal-has_no_nul n = digits-has_no_nul (decimal n) (decimal-is_digits n)

abbrev EntryPlain : Option (LayerEntry × ℕ) → Type 0
EntryPlain none = Unit
EntryPlain (some (e, n)) = is_plain_entry e ≡ true

abbrev pub ListPlain : Option (List LayerEntry × ℕ) → Type 0
ListPlain none = Unit
ListPlain (some (es, n)) = every is_plain_entry es ≡ true

git_mode-has_no_nul : (executable : Bool) → has_no_nul (git_mode executable) ≡ true
git_mode-has_no_nul true = refl
git_mode-has_no_nul false = refl

module _ (sha256 : Bytes → Bytes) (hex : (s : Bytes) → has_no_nul (sha256 s) ≡ true) where
  entry_of-EntryPlain :
      (rel : Bytes) (node : LayerNode)
      → has_no_nul rel ≡ true
      → EntryPlain (entry_of sha256 rel node)
  unfolding entry_of
  entry_of-EntryPlain rel directory r = rw r refl
  entry_of-EntryPlain rel other_node r = rw r refl
  entry_of-EntryPlain rel failed_node r = tt
  entry_of-EntryPlain rel (symbolic_link target) r =
      rw (r, decimal-has_no_nul (length target), hex target) refl
  entry_of-EntryPlain rel (plain_file executable size content) r =
      rw (r, git_mode-has_no_nul executable, decimal-has_no_nul size, hex content) refl

  pub enumerate-ListPlain :
      (nodes : List (Bytes × LayerNode))
      → every (λ x. has_no_nul x.0) nodes ≡ true
      → ListPlain (enumerate sha256 nodes)
  unfolding enumerate
  enumerate-ListPlain [] r = refl
  enumerate-ListPlain ((rel, node) ∷ nodes) r =
      let here =
        entry_of-EntryPlain rel node
          (and_left (has_no_nul rel) (every (λ x. has_no_nul x.0) nodes) r) in
      let later =
        enumerate-ListPlain nodes
          (and_right (has_no_nul rel) (every (λ x. has_no_nul x.0) nodes) r) in
      elim (Option-cases (entry_of sha256 rel node)) [
        | inl q ↦ rw (q, enumerate) tt
        | inr ((e, k), q) ↦ elim (Option-cases (enumerate sha256 nodes)) [
          | inl x ↦ rw (q, x, enumerate) tt
          | inr ((fs, m), x) ↦ rw (q, x, enumerate) (rw (rw q at here, rw x at later) refl)
        ]
      ]
