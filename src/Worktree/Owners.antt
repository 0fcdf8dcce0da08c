-- ===== src/Worktree/Owners.antt =====
-- The reasons of the locks that the launcher takes, in internal/host/worktreelock.go.
use claude_contained.Worktree.Fields.{fields, is_graphic, is_word, spaced, fields-spaced}
use claude_contained.Base.{ℕ, ◌≡◌, refl, sym, ap, ◌∙◌}
use claude_contained.Base.{Bool, true, not, Option, none, some, arith, ◌==◌}
use claude_contained.Base.{
  List, [], ◌∷◌, ◌++◌, reverse, reverse-append, reverse-reverse, append-nil, append_assoc, every,
  every-append,
}
use claude_contained.Base.{Bytes, bytes, after_prefix, trim_left, trim_right, after_prefix-append}

-- `AutoLockPrefix`
abbrev pub auto_lock_prefix : Bytes
auto_lock_prefix = bytes "cc-autolocked-by:"

abbrev pub is_newline : ℕ → Bool
is_newline c = c == b'\n'

abbrev owners_of_reason : Option Bytes → Option (List Bytes)
owners_of_reason none = none
owners_of_reason (some owners) = some (fields owners)

-- The owners of a lock of the launcher's own; none for any other lock.
unfoldable pub parse_auto_lock_owners : Bytes → Option (List Bytes)
unfolding after_prefix
parse_auto_lock_owners content =
    owners_of_reason (after_prefix (trim_right is_newline content) auto_lock_prefix)

unfoldable pub auto_lock_reason_onto : Bytes → List Bytes → Bytes
auto_lock_reason_onto reason [] = reason
auto_lock_reason_onto reason (o ∷ owners) = auto_lock_reason_onto (reason ++ b' ' ∷ o) owners

unfoldable pub auto_lock_reason : List Bytes → Bytes
unfolding auto_lock_reason_onto
auto_lock_reason owners = auto_lock_reason_onto auto_lock_prefix owners

-- What `writeAutoLockReason` writes to the lock file.
abbrev pub auto_lock_content : List Bytes → Bytes
auto_lock_content owners = auto_lock_reason owners ++ b'\n' ∷ []

abbrev is_not_newline : ℕ → Bool
is_not_newline c = not (is_newline c)

every-reverse : (p : ℕ → Bool) (s : Bytes) → every p s ≡ true → every p (reverse s) ≡ true
every-reverse p [] h = refl
every-reverse p (c ∷ s) h =
    rw (reverse-append (c ∷ []) s, every-append) (ground (arith, every-reverse p s))

trim_left-keeps : (s : Bytes) → every is_not_newline s ≡ true → trim_left is_newline s ≡ s
unfolding trim_left
trim_left-keeps [] h = refl
trim_left-keeps (c ∷ s) h = ground arith

trim_right-newline :
    (s : Bytes) → every is_not_newline s ≡ true → trim_right is_newline (s ++ b'\n' ∷ []) ≡ s
unfolding trim_right trim_left
trim_right-newline s h =
    ap (λ l. reverse (trim_left is_newline l)) (reverse-append s (b'\n' ∷ []))
    ∙ ap reverse (trim_left-keeps (reverse s) (every-reverse is_not_newline s h))
    ∙ reverse-reverse s

auto_lock_reason_onto-spaced :
    (reason : Bytes) (owners : List Bytes)
    → auto_lock_reason_onto reason owners ≡ reason ++ spaced owners
unfolding auto_lock_reason_onto
auto_lock_reason_onto-spaced reason [] = sym (append-nil reason)
auto_lock_reason_onto-spaced reason (o ∷ owners) =
    auto_lock_reason_onto-spaced (reason ++ b' ' ∷ o) owners
    ∙ append_assoc reason (b' ' ∷ o) (spaced owners)

graphic-not_newline : (s : Bytes) → every is_graphic s ≡ true → every is_not_newline s ≡ true
graphic-not_newline [] h = refl
graphic-not_newline (c ∷ s) h = ground (arith, graphic-not_newline s)

spaced-not_newline :
    (owners : List Bytes)
    → every is_word owners ≡ true
    → every is_not_newline (spaced owners) ≡ true
spaced-not_newline [] h = refl
spaced-not_newline (o ∷ owners) h =
    rw (every-append is_not_newline o (spaced owners))
      (ground (arith, graphic-not_newline o, spaced-not_newline owners))

-- Owners that are words, one or more bytes of printable ASCII other than the space, are read back from
-- the lock file that the launcher writes for them, in order.
pub parse_auto_lock_owners-auto_lock_content :
    (owners : List Bytes)
    → every is_word owners ≡ true
    → parse_auto_lock_owners (auto_lock_content owners) ≡ some owners
unfolding parse_auto_lock_owners auto_lock_reason
parse_auto_lock_owners-auto_lock_content owners h =
    ap
      (λ r.
        owners_of_reason (after_prefix (trim_right is_newline (r ++ b'\n' ∷ [])) auto_lock_prefix))
      (auto_lock_reason_onto-spaced auto_lock_prefix owners)
    ∙ ap (λ r. owners_of_reason (after_prefix r auto_lock_prefix))
        (trim_right-newline (auto_lock_prefix ++ spaced owners) (spaced-not_newline owners h))
    ∙ ap owners_of_reason (after_prefix-append auto_lock_prefix (spaced owners))
    ∙ ap some (fields-spaced owners h)
