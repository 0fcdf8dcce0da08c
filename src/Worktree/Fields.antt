-- ===== src/Worktree/Fields.antt =====
-- `strings.Fields`. Its separators are the ASCII spaces and the encodings of the other Unicode spaces;
-- the first byte of such an encoding stands nowhere inside another one, so a scan by bytes finds them.
use claude_contained.Base.{ℕ, zero, suc, ◌≡◌, refl, sym, ap, ◌∙◌}
use claude_contained.Base.{Bool, true, not, ◌&&◌, ◌||◌, arith, leb, ◌==◌, if◌then◌else◌}
use claude_contained.Base.{List, [], ◌∷◌, ◌++◌, append-nil, append_assoc, is_nil, every}
use claude_contained.Base.{Bytes}

abbrev pub is_ascii_space : ℕ → Bool
is_ascii_space c = c == b' ' || (leb 9 c && leb c 13)

-- The bytes that a space takes at the head of a string, and zero if none stands there.
unfoldable pub space_length : Bytes → ℕ
space_length [] = 0
space_length (c ∷ []) = if is_ascii_space c then 1 else 0
space_length (c ∷ d ∷ []) =
    if is_ascii_space c then 1 else if c == 0xC2 && (d == 0x85 || d == 0xA0) then 2 else 0
space_length (c ∷ d ∷ e ∷ s) =
    if is_ascii_space c
    then 1
    else if c == 0xC2 && (d == 0x85 || d == 0xA0)
    then 2
    else if (c == 0xE1 && d == 0x9A && e == 0x80)
        || (c == 0xE2 && d == 0x80 && (leb 0x80 e && leb e 0x8A))
        || (c == 0xE2 && d == 0x80 && (e == 0xA8 || e == 0xA9 || e == 0xAF))
        || (c == 0xE2 && d == 0x81 && e == 0x9F)
        || (c == 0xE3 && d == 0x80 && e == 0x80)
    then 3
    else 0

-- A field that is not empty, in front of others.
abbrev pub flush : Bytes → List Bytes → List Bytes
flush [] rest = rest
flush (c ∷ field) rest = (c ∷ field) ∷ rest

-- The fields, with the rest of a space to skip and the field read so far.
unfoldable pub fields_onto : ℕ → Bytes → Bytes → List Bytes
unfolding space_length
fields_onto skip field [] = flush field []
fields_onto (suc skip) field (c ∷ s) = fields_onto skip field s
fields_onto zero field (c ∷ s) = elim (space_length (c ∷ s)) [
  | zero ↦ fields_onto zero (field ++ c ∷ []) s
  | suc k ↦ flush field (fields_onto k [] s)
]

unfoldable pub fields : Bytes → List Bytes
unfolding fields_onto
fields s = fields_onto 0 [] s

-- Neither a space nor the head of one: the printable ASCII bytes without the space.
abbrev pub is_graphic : ℕ → Bool
is_graphic c = leb 33 c && leb c 126

abbrev pub is_word : Bytes → Bool
is_word s = not (is_nil s) && every is_graphic s

space_length-graphic : (c : ℕ) (s : Bytes) → is_graphic c ≡ true → space_length (c ∷ s) ≡ 0
unfolding space_length
space_length-graphic c [] h = ground arith
space_length-graphic c (d ∷ []) h = ground arith
space_length-graphic c (d ∷ e ∷ s) h = ground arith

space_length-space : (s : Bytes) → space_length (b' ' ∷ s) ≡ 1
unfolding space_length
space_length-space [] = refl
space_length-space (d ∷ []) = refl
space_length-space (d ∷ e ∷ s) = refl

pub fields_onto-append :
    (field word s : Bytes)
    → every is_graphic word ≡ true
    → fields_onto 0 field (word ++ s) ≡ fields_onto 0 (field ++ word) s
unfolding fields_onto
fields_onto-append field [] s h = ap (λ f. fields_onto 0 f s) (sym (append-nil field))
fields_onto-append field (c ∷ word) s h =
    rw (space_length-graphic c (word ++ s) (ground arith), fields_onto)
      (fields_onto-append (field ++ c ∷ []) word s (ground arith)
        ∙ ap (λ f. fields_onto 0 f s) (append_assoc field (c ∷ []) word))

pub fields_onto-space :
    (field s : Bytes) → fields_onto 0 field (b' ' ∷ s) ≡ flush field (fields_onto 0 [] s)
unfolding fields_onto
fields_onto-space field s = rw (space_length-space s, fields_onto) refl

-- Words with a space in front of each.
abbrev pub spaced : List Bytes → Bytes
spaced [] = []
spaced (w ∷ ws) = b' ' ∷ (w ++ spaced ws)

pub flush_word : (w : Bytes) (rest : List Bytes) → is_word w ≡ true → flush w rest ≡ w ∷ rest
flush_word [] rest h = cc
flush_word (c ∷ w) rest h = refl

fields_onto-spaced :
    (field : Bytes) (ws : List Bytes)
    → every is_word ws ≡ true
    → fields_onto 0 field (spaced ws) ≡ flush field ws
unfolding fields_onto
fields_onto-spaced field [] h = refl
fields_onto-spaced field (w ∷ ws) h =
    fields_onto-space field (w ++ spaced ws)
    ∙ ap (flush field) (
        fields_onto-append [] w (spaced ws) (ground arith)
        ∙ fields_onto-spaced w ws (ground arith)
        ∙ flush_word w ws (ground arith))

pub fields-spaced : (ws : List Bytes) → every is_word ws ≡ true → fields (spaced ws) ≡ ws
unfolding fields
fields-spaced ws h = fields_onto-spaced [] ws h
