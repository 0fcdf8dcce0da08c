-- ===== src/Plan/Name.antt =====
-- internal/plan/plan.go: the name for a container beside those that run.
pub mod Fresh
use claude_contained.Base.{
  ℕ, zero, suc, ◌+◌, ◌-◌, ◌*◌, ◌/◌, ◌%◌, ◌^◌, ◌≤◌, ◌<◌, ◌≡◌, refl, sym, ap, ◌∙◌, subst, ◌≢◌, ◌↔◌,
  ◌⊎◌, inl, inr,
}
use claude_contained.Base.{
  Bool, true, false, not, ◌&&◌, ◌||◌, Option, none, some, arith, ltb, leb, ◌==◌, if◌then◌else◌,
  ==_iff, Bool-cases, Option-cases, is_some,
}
use claude_contained.Base.{
  List, [], ◌∷◌, ◌++◌, map, reverse, reverse-append, reverse-reverse, append-nil, append_assoc,
  length, is_nil, length-append, All, All-append, every, any, Extends, Extends-refl, Extends-append,
  Extends-trans, every-append,
}
use claude_contained.Base.{
  Bytes, bytes, same, same_iff, same_refl, same_comm, after_prefix, has_prefix, trim_prefix,
  trim_suffix, trim_left, trim_right, cut, join, onto_first, split, contains, is_free_of,
  has_prefix-append, has_prefix_split, after_prefix-append, trim_prefix-append, cut-append,
  cut_free, split_free, split-append, contains-append, cut_sound, split-join_comma, trim_suffix_ne,
  is_digit, decimal, decimal_value, decimal_value-decimal, decimal-injective,
}

-- The loop, from one suffix on; it makes at most one round more than there are running containers.
unfoldable pub next_free : ℕ → Bytes → ℕ → Bytes → List Bytes → Bytes
next_free zero base suffix name running = name
next_free (suc fuel) base suffix name running =
    let rest = next_free fuel base (suffix + 1) (base ++ bytes "-" ++ decimal suffix) running in
    if contains running name then rest else name

unfoldable pub deduplicate_name : Bytes → List Bytes → Bytes
unfolding next_free
deduplicate_name name running = next_free (length running + 1) name 2 name running
