-- ===== src/Env/Precedence.antt =====
-- internal/env: the command line and the project file for one variable.
use claude_contained.Env.Store.{Origin, file, Entry, Store, index_of, set, key_and_value, is_flag}
use claude_contained.Env.File.{
  load_file, load_lines, load_trimmed, trim_line, split_lines, is_claimed_by_flag,
}
use claude_contained.Env.Lookup.{get, set_lem}
use claude_contained.Base.{ℕ, ◌+◌, ◌≡◌, refl, ◌∙◌, inl, inr}
use claude_contained.Base.{true, false, ◌||◌, none, some, arith, Bool-cases, Option-cases}
use claude_contained.Base.{List, [], ◌∷◌, ◌++◌, is_nil}
use claude_contained.Base.{
  Bytes, bytes, same, same_iff, has_prefix, cut, is_free_of, cut-append, cut_sound,
}

-- The early test of a line, as a lookup.
pub is_claimed_by_flag-get :
    (s : Store) (key : Bytes)
    → is_claimed_by_flag s key ≡ elim (get s key) [ none ↦ false | some e ↦ is_flag e.origin ]
unfolding is_claimed_by_flag index_of
is_claimed_by_flag-get [] key = refl
is_claimed_by_flag-get (e ∷ s) key = ground (arith, is_claimed_by_flag-get s key)

pub key_and_value-append :
    (key value : Bytes)
    → is_free_of b'=' key ≡ true
    → key_and_value (key ++ b'=' ∷ value) ≡ (key, value)
unfolding key_and_value
key_and_value-append key value h = rw (cut-append b'=' key value h, key_and_value)

module _ (j : Bytes) (e : Entry) (from_flag : is_flag e.origin ≡ true) where
  get-set_ne :
      (s : Store) (assignment source : Bytes) (origin : Origin)
      → same (key_and_value assignment).0 j ≡ false
      → get (set s assignment source origin).0 j ≡ get s j
  get-set_ne s a source origin h = ground (arith, set_lem s a source origin j)

  load_trimmed-get_flag :
      (n : ℕ) (line : Bytes) (s : Store)
      → get s j ≡ some e
      → get (load_trimmed n line s).0 j ≡ some e
  unfolding load_trimmed
  load_trimmed-get_flag n line s h =
      elim (Bool-cases (is_nil line || has_prefix line (bytes "#"))) [
        | inl b ↦ rw (b, load_trimmed) h
        | inr b ↦
            rw (b, load_trimmed)
              (elim (Option-cases (cut b'=' line)) [
                | inl c ↦ rw (c, load_trimmed) h
                | inr ((key, value), c) ↦
                    rw (c, load_trimmed)
                      (elim (Bool-cases (is_claimed_by_flag s key)) [
                        | inl f ↦ rw (f, load_trimmed) h
                        | inr f ↦
                            rw (f, load_trimmed)
                              (get-set_ne s _ _ file (
                                  rw
                                    (key_and_value-append key _ (cut_sound b'=' line key value c).0)
                                    (ground (arith, same_iff key j, is_claimed_by_flag-get s key)))
                                ∙ h)
                      ])
              ])
      ]

  load_lines-get_flag :
      (n : ℕ) (lines : List Bytes) (s : Store)
      → get s j ≡ some e
      → get (load_lines n lines s).0 j ≡ some e
  unfolding load_lines
  load_lines-get_flag n [] s h = h
  load_lines-get_flag n (raw ∷ lines) s h =
      let h' = load_trimmed-get_flag n (trim_line raw) s h in
      elim (Option-cases (load_trimmed n (trim_line raw) s).1) [
        | inl q ↦ rw (q, load_lines) (load_lines-get_flag (n + 1) lines _ h')
        | inr (x, q) ↦ rw (q, load_lines) h'
      ]

-- A variable that the command line set keeps its value and its origin, whatever the project file says
-- and whether or not the file is accepted.
pub load_file-get_flag :
    (content : Bytes) (s : Store) (key : Bytes) (e : Entry)
    → get s key ≡ some e
    → is_flag e.origin ≡ true
    → get (load_file content s).0 key ≡ some e
unfolding load_file
load_file-get_flag content s key e h f = load_lines-get_flag key e f 1 (split_lines content) s h
