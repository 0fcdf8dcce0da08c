-- ===== src/Host/Sanitize.antt =====
-- internal/host/sanitize.go: the name that a directory gives to containers and sessions.
-- `strings.ToLower` is the parameter `to_lower`: it follows the Unicode tables, which are not part of
-- the program, and what is shown of the name holds for any of its results.
pub mod Shape
use claude_contained.Base.{
  ℕ, zero, suc, ◌+◌, ◌-◌, ◌*◌, ◌/◌, ◌%◌, ◌^◌, ◌≤◌, ◌<◌, ◌≡◌, refl, sym, ap, ◌∙◌, subst, ◌≢◌, ◌↔◌,
  ◌⊎◌, inl, inr,
}
use claude_contained.Base.{
  Bool, true, false, not, ◌&&◌, ◌||◌, Option, none, some, arith, ltb, leb, ◌==◌, if◌then◌else◌,
  ==_iff, Bool-cases, Option-cases, is_some,
}
use claude_contained.Base.{
  List, [], ◌∷◌, ◌++◌, map, reverse, reverse-append, reverse-reverse, append-nil, append_assoc,
  length, is_nil, length-append, All, All-append, every, any, Extends, Extends-refl, Extends-append,
  Extends-trans, every-append,
}
use claude_contained.Base.{
  Bytes, bytes, same, same_iff, same_refl, same_comm, after_prefix, has_prefix, trim_prefix,
  trim_suffix, trim_left, trim_right, cut, join, onto_first, split, contains, is_free_of,
  has_prefix-append, has_prefix_split, after_prefix-append, trim_prefix-append, cut-append,
  cut_free, split_free, split-append, contains-append, cut_sound, split-join_comma, trim_suffix_ne,
  is_digit, decimal, decimal_value, decimal_value-decimal, decimal-injective,
}

abbrev pub max_folder_name_len : ℕ
max_folder_name_len = 20

-- What follows the last slash.
unfoldable pub after_last_slash : Bytes → Bytes → Bytes
after_last_slash current [] = current
after_last_slash current (c ∷ s) = after_last_slash (if c == b'/' then [] else current ++ c ∷ []) s

unfoldable pub base_name : Bytes → Bytes
unfolding after_last_slash
base_name path =
    if has_prefix path (bytes "-")
    then []
    else let trimmed = trim_right (λ c. c == b'/') path in
      if is_nil trimmed then [] else after_last_slash [] trimmed

abbrev pub is_kept : ℕ → Bool
is_kept c = leb b'a' c && leb c b'z' || leb b'0' c && leb c b'9'

unfoldable pub dash_others : Bytes → Bytes
dash_others [] = []
dash_others (c ∷ s) = (if is_kept c then c else b'-') ∷ dash_others s

-- The loop over `prevDash`.
unfoldable pub collapse : Bool → Bytes → Bytes
collapse prev [] = []
collapse prev (c ∷ s) =
    let rest = collapse (c == b'-') s in if c == b'-' && prev then rest else c ∷ rest

-- `name[:n]`
unfoldable pub take : ℕ → Bytes → Bytes
take zero s = []
take (suc n) [] = []
take (suc n) (c ∷ s) = c ∷ take n s

-- The steps behind the lowercasing and before the truncation.
unfoldable pub dashed_name : Bytes → Bytes
unfolding dash_others collapse
dashed_name name =
    trim_suffix (trim_prefix (collapse false (dash_others name)) (bytes "-")) (bytes "-")

-- `name[:20]` where the name is longer, and the fallback.
unfoldable pub truncate : Bytes → Bytes
unfolding take
truncate name =
    let short =
      if ltb max_folder_name_len (length name) then take max_folder_name_len name else name in
    if is_nil short then bytes "root" else short

module _ (to_lower : Bytes → Bytes) where
  unfoldable pub sanitize_folder_name : Bytes → Bytes
  unfolding base_name dashed_name truncate
  sanitize_folder_name path = truncate (dashed_name (to_lower (base_name path)))
