-- ===== src/Env/File.antt =====
-- internal/env/parse.go: the project env file, read literally.
use claude_contained.Env.Store.{Origin, file, Store, EnvError, validate, index_of, is_flag, set}
use claude_contained.Base.{ℕ, zero, suc, ◌+◌}
use claude_contained.Base.{Bool, false, ◌&&◌, ◌||◌, Option, none, some, ◌==◌, if◌then◌else◌}
use claude_contained.Base.{List, [], ◌∷◌, ◌++◌, is_nil}
use claude_contained.Base.{Bytes, bytes, has_prefix, trim_suffix, trim_left, cut, split, decimal}

abbrev pub file_name : Bytes
file_name = bytes ".claude-contained/env"

-- The set " \t\n\v\f\r".
abbrev pub is_posix_space : ℕ → Bool
is_posix_space c = c == b' ' || c == b'\t' || c == b'\n' || c == 0x0b || c == 0x0c || c == b'\r'

-- `lines[:len(lines)-1]` where the last line is empty.
unfoldable pub drop_last_empty : List Bytes → List Bytes
drop_last_empty [] = []
drop_last_empty (l ∷ []) = if is_nil l then [] else l ∷ []
drop_last_empty (l ∷ m ∷ ls) = l ∷ drop_last_empty (m ∷ ls)

unfoldable pub split_lines : Bytes → List Bytes
unfolding drop_last_empty
split_lines content = if is_nil content then [] else drop_last_empty (split b'\n' content)

-- `value[len(value)-1]`, and `value` without it.
unfoldable pub last_byte : ℕ → Bytes → ℕ
last_byte c [] = c
last_byte _ (d ∷ s) = last_byte d s

unfoldable pub without_last : ℕ → Bytes → Bytes
without_last c [] = []
without_last c (d ∷ s) = c ∷ without_last d s

unfoldable pub strip_one_pair : Bytes → Bytes
unfolding last_byte without_last
strip_one_pair [] = []
strip_one_pair (c ∷ []) = c ∷ []
strip_one_pair (c ∷ d ∷ s) =
    let last = last_byte d s in
    if (c == b'"' && last == b'"') || (c == 0x27 && last == 0x27)
    then without_last d s
    else c ∷ d ∷ s

unfoldable pub source_of_line : ℕ → Bytes
source_of_line lineno = file_name ++ bytes ":" ++ decimal lineno

abbrev origin_at : Store → ℕ → Option Origin
origin_at [] i = none
origin_at (e ∷ s) zero = some e.origin
origin_at (e ∷ s) (suc i) = origin_at s i

-- `idx, ok := s.indexOf(key); ok && s.entries[idx].origin == Flag`
unfoldable pub is_claimed_by_flag : Store → Bytes → Bool
is_claimed_by_flag s key = elim (index_of s key) [
  | none ↦ false
  | some i ↦ elim (origin_at s i) [ none ↦ false | some o ↦ is_flag o ]
]

-- The assignment of a line, or none for a blank line and a comment.
unfoldable pub trim_line : Bytes → Bytes
trim_line raw = trim_left is_posix_space (trim_suffix raw (bytes "\r"))

unfoldable pub load_trimmed : ℕ → Bytes → Store → Store × Option EnvError
load_trimmed lineno trimmed s =
    if is_nil trimmed || has_prefix trimmed (bytes "#")
    then (s, none)
    else elim (cut b'=' trimmed) [
      | none ↦ (s, validate trimmed (source_of_line lineno) file)
      | some (key, value) ↦
          if is_claimed_by_flag s key
          then (s, none)
          else set s (key ++ b'=' ∷ strip_one_pair value) (source_of_line lineno) file
    ]

-- The loop, from line `lineno` on.
unfoldable pub load_lines : ℕ → List Bytes → Store → Store × Option EnvError
load_lines lineno [] s = (s, none)
load_lines lineno (raw ∷ lines) s =
    let r = load_trimmed lineno (trim_line raw) s in
    elim (r.1) [ some e ↦ (r.0, some e) | none ↦ load_lines (lineno + 1) lines r.0 ]

unfoldable pub load_file : Bytes → Store → Store × Option EnvError
load_file content s = load_lines 1 (split_lines content) s
