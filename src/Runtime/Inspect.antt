-- ===== src/Runtime/Inspect.antt =====
-- How the variables of a run are read back in internal/runtime/runtime.go, docker.go and apple_inspect.go: both
-- runtimes come to lines of text, so that a value with a newline is several lines.
use claude_contained.Runtime.Spec.{Arg}
use claude_contained.Runtime.ReadBack.{assignments}
use claude_contained.Base.{◌≡◌, refl, ap, ◌∙◌}
use claude_contained.Base.{Bool, true, false, not, ◌&&◌, arith, if◌then◌else◌, and_left, and_right}
use claude_contained.Base.{List, [], ◌∷◌, ◌++◌, is_nil, every}
use claude_contained.Base.{Bytes, split, is_free_of, split-append}

abbrev non_empty_lines : List Bytes → List Bytes
non_empty_lines [] = []
non_empty_lines (line ∷ lines) =
    if is_nil line then non_empty_lines lines else line ∷ non_empty_lines lines

unfoldable pub split_env_lines : Bytes → List Bytes
unfolding split
split_env_lines s = non_empty_lines (split b'\n' s)

-- The text that `docker inspect` is told to print, a line for each variable.
abbrev pub printed_env : List Bytes → Bytes
printed_env [] = []
printed_env (variable ∷ variables) = variable ++ b'\n' ∷ printed_env variables

-- What `InspectEnv` gives for the variables that the run was given; those of the image come besides.
unfoldable pub env_lines : List Arg → List Bytes
unfolding split_env_lines
env_lines args = split_env_lines (printed_env (assignments args))

-- A variable with no newline in it; it is not empty, as it has an equals sign.
abbrev pub is_one_line : Bytes → Bool
is_one_line variable = is_free_of b'\n' variable && not (is_nil variable)

split_env_lines-printed_env :
    (variables : List Bytes)
    → every is_one_line variables ≡ true
    → split_env_lines (printed_env variables) ≡ variables
unfolding split_env_lines split
split_env_lines-printed_env [] h = refl
split_env_lines-printed_env (v ∷ vs) h =
    let this = and_left (is_one_line v) (every is_one_line vs) h in
    let free = and_left (is_free_of b'\n' v) (not (is_nil v)) this in
    let filled : is_nil v ≡ false = ground (arith, this) in
    let later =
      split_env_lines-printed_env vs (and_right (is_one_line v) (every is_one_line vs) h) in
    ap non_empty_lines (split-append b'\n' v (printed_env vs) free) ∙ rw (filled, later) refl

-- Where no value holds a newline, the lines are the variables.
pub env_lines-assignments :
    (args : List Arg)
    → every is_one_line (assignments args) ≡ true
    → env_lines args ≡ assignments args
unfolding env_lines
env_lines-assignments args h = split_env_lines-printed_env (assignments args) h
