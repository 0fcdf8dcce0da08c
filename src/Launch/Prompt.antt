-- ===== src/Launch/Prompt.antt =====
-- The prompter of cmd/claude-contained/run.go, over the bytes that the terminal will give. The prompts'
-- own text is left to the terminal.
use claude_contained.Base.{ℕ, zero, suc, ◌<◌, ◌≡◌, refl, ap, ◌∙◌}
use claude_contained.Base.{
  Bool, true, false, ◌&&◌, ◌||◌, Option, none, some, arith, ◌==◌, if◌then◌else◌, and_left,
  and_right,
}
use claude_contained.Base.{List, [], ◌∷◌, ◌++◌, map, reverse, reverse-append, length, is_nil, every}
use claude_contained.Base.{Bytes, trim_left, trim_right, is_free_of}

-- `ReadString('\n')`: the line with its newline, whether the input ended, and the rest.
unfoldable pub read_string : Bytes → Bytes × Bool × Bytes
read_string [] = ([], true, [])
read_string (c ∷ s) =
    let (line, ended, rest) = read_string s in
    if c == b'\n' then (c ∷ [], false, s) else (c ∷ line, ended, rest)

abbrev pub is_line_end : ℕ → Bool
is_line_end c = c == b'\r' || c == b'\n'

abbrev pub is_yes : Bytes → Bool → Bool
is_yes [] def = def
is_yes (c ∷ answer) def = c == b'y' || c == b'Y'

-- `parseAnswer`, with none where `ok` is false.
unfoldable pub parse_answer : Bytes → Bool → Bool → Option Bool
unfolding trim_right
parse_answer line ended def =
    if ended && is_nil line then none else some (is_yes (trim_right is_line_end line) def)

-- `ask`, where a signal may come before the line: the answer and the rest of the input.
unfoldable pub ask_user : Bool → Bool → Bytes → Option Bool × Bytes
unfolding read_string parse_answer
ask_user interrupted def input =
    let (line, ended, rest) = read_string input in
    if interrupted then (none, input) else (parse_answer line ended def, rest)

-- `askLine`
unfoldable pub ask_line : Bytes → Option Bytes × Bytes
unfolding read_string
ask_line input =
    let (line, ended, rest) = read_string input in if ended then (none, rest) else (some line, rest)

-- `confirm`
unfoldable pub confirm : Bytes → Bool × Bytes
unfolding ask_user
confirm input = elim ((ask_user false true input).0) [
  | none ↦ (false, (ask_user false true input).1)
  | some b ↦ (b, (ask_user false true input).1)
]

abbrev pub push_reply : Option Bool → List Bool → List Bool
push_reply none rest = []
push_reply (some b) rest = b ∷ rest

-- The answers to one question after the other, each with the default yes, until the input ends.
unfoldable pub replies_from : ℕ → Bytes → List Bool
unfolding ask_user
replies_from zero input = []
replies_from (suc fuel) input =
    push_reply (ask_user false true input).0 (replies_from fuel (ask_user false true input).1)

abbrev pub typed_lines : List Bytes → Bytes
typed_lines [] = []
typed_lines (l ∷ ls) = l ++ b'\n' ∷ typed_lines ls

-- What a line says: yes when it is blank, and else whether it begins with a y of either case.
abbrev pub says : Bytes → Bool
says line = is_yes (trim_right is_line_end line) true

read_string-line :
    (line rest : Bytes)
    → is_free_of b'\n' line ≡ true
    → read_string (line ++ b'\n' ∷ rest) ≡ (line ++ b'\n' ∷ [], false, rest)
unfolding read_string
read_string-line [] rest h = refl
read_string-line (c ∷ line) rest h = ground (arith, read_string-line line rest)

trim_right-line_end :
    (line : Bytes) → trim_right is_line_end (line ++ b'\n' ∷ []) ≡ trim_right is_line_end line
unfolding trim_right trim_left
trim_right-line_end line =
    ap (λ l. reverse (trim_left is_line_end l)) (reverse-append line (b'\n' ∷ []))

not_nil-append : (line : Bytes) (c : ℕ) → is_nil (line ++ c ∷ []) ≡ false
not_nil-append [] c = refl
not_nil-append (d ∷ line) c = refl

ask_user-line :
    (line rest : Bytes)
    → is_free_of b'\n' line ≡ true
    → ask_user false true (line ++ b'\n' ∷ rest) ≡ (some (says line), rest)
unfolding ask_user parse_answer
ask_user-line line rest h =
    rw (read_string-line line rest h)
      (ap (λ t. (some (is_yes t true), rest)) (trim_right-line_end line))

-- With fuel for more questions than there are lines, the answers that are read are what the lines say,
-- one for each, for lines without a newline in them.
replies_from-typed_lines :
    (lines : List Bytes) (fuel : ℕ)
    → every (is_free_of b'\n') lines ≡ true
    → length lines < fuel
    → replies_from fuel (typed_lines lines) ≡ map says lines
unfolding replies_from
replies_from-typed_lines lines zero h l = absurd (omega (arith, l))
replies_from-typed_lines [] (suc fuel) h l = refl
replies_from-typed_lines (line ∷ lines) (suc fuel) h l =
    let here = and_left (is_free_of b'\n' line) (every (is_free_of b'\n') lines) h in
    let later = and_right (is_free_of b'\n' line) (every (is_free_of b'\n') lines) h in
    ap (λ r. push_reply r.0 (replies_from fuel r.1)) (ask_user-line line (typed_lines lines) here)
    ∙ ap (λ t. says line ∷ t) (replies_from-typed_lines lines fuel later (omega (arith, l)))
