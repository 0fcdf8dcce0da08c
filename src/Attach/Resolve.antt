-- ===== src/Attach/Resolve.antt =====
-- internal/attach/attach.go. The prompt is a function from its text to a line, or to nothing at the end
-- of the input; it is itself missing when there is no terminal to read from.
use claude_contained.Env.Store.{Pair, explicit_keys_marker, explicit_keys_value}
use claude_contained.Runtime.Spec.{ExecSpec}
use claude_contained.Base.{ltb, leb, ◌&&◌, ◌^◌}
use claude_contained.Base.{ℕ, zero, suc, ◌+◌, ◌-◌, ◌^◌}
use claude_contained.Base.{Bool, true, not, ◌||◌, Option, none, some, ltb, leb, ◌==◌, if◌then◌else◌}
use claude_contained.Base.{List, [], ◌∷◌, ◌++◌, map, length, is_nil, every}
use claude_contained.Base.{
  Bytes, bytes, same, has_prefix, trim_prefix, trim_left, trim_right, contains, is_digit, decimal,
  decimal_value,
}

abbrev pub prefix : Bytes
prefix = bytes "aic-"

abbrev pub sandbox_wrapper : Bytes
sandbox_wrapper = bytes "/usr/local/bin/srt-run"

abbrev pub tool_env_path : Bytes
tool_env_path = bytes "/usr/local/bin/tool-env"

abbrev pub shell_run : Bytes
shell_run = bytes "/usr/local/bin/shell-run"

pub record Request : Type 0 where
  pub name : Bytes
  pub shell : Bool
  pub command : List Bytes
  pub srt_disable : Bool
  pub home : Bytes
  pub env : List Pair
  pub running : List Bytes
  pub prompt : Option (Bytes → Option Bytes)

-- What there is to do: run a command in a container, or leave with a status. An index out of range
-- would be a panic.
pub data Verdict : Type 0 where
  exec : ExecSpec → Verdict
  leave : ℕ → Verdict
  panic : Verdict

-- The verdict, and the lines written on the way.
pub record Decision : Type 0 where
  pub verdict : Verdict
  pub stdout : List Bytes
  pub stderr : List Bytes

unfoldable pub filter_running : List Bytes → List Bytes
filter_running [] = []
filter_running (n ∷ names) =
    let rest = filter_running names in
    if is_nil n then rest else if has_prefix n prefix then n ∷ rest else rest

unfoldable pub normalize_name : Bytes → Bytes
normalize_name name = if has_prefix name prefix then name else prefix ++ name

abbrev pub display_name : Bytes → Bytes
display_name name = trim_prefix name prefix

pub data Selection : Type 0 where
  quit invalid : Selection
  choice : ℕ → Selection

abbrev pub is_blank : ℕ → Bool
is_blank c = c == b' ' || c == b'\t' || c == b'\n'

unfoldable pub trim_blanks : Bytes → Bytes
trim_blanks line = trim_right is_blank (trim_left is_blank line)

-- The numbers that are shown; `strconv.Atoi` refuses what does not fit into 64 bits with a sign.
abbrev pub in_range : ℕ → ℕ → Bool
in_range count n = not (leb (2 ^ 63) n || ltb n 1 || ltb count n)

unfoldable pub parse_selection : Bytes → ℕ → Selection
unfolding trim_blanks
parse_selection line count =
    let trimmed = trim_blanks line in
    if is_nil trimmed || same trimmed (bytes "q") || same trimmed (bytes "Q")
    then quit
    else if every is_digit trimmed && in_range count (decimal_value trimmed)
    then choice (decimal_value trimmed)
    else invalid

-- The element at an index, if there is one.
unfoldable pub get_elem? : {A : Type 0} → List A → ℕ → Option A
get_elem? [] n = none
get_elem? (x ∷ xs) zero = some x
get_elem? (x ∷ xs) (suc n) = get_elem? xs n

unfoldable pub exec_env : Bytes → List Pair → List (Bytes × Bytes)
exec_env home pairs =
    (bytes "HOME", home)
    ∷ (map (λ p. (p.key, p.value)) pairs ++ (explicit_keys_marker, explicit_keys_value pairs) ∷ [])

unfoldable pub attach_command : Request → List Bytes
attach_command req =
    let wrapped = tool_env_path ∷ (if req.srt_disable then [] else sandbox_wrapper ∷ []) in
    if req.shell || is_nil req.command then wrapped ++ shell_run ∷ [] else wrapped ++ req.command

unfoldable pub build_spec : Request → Bytes → ExecSpec
unfolding exec_env attach_command
build_spec req name = record {
  container = name;
  user = bytes "dev";
  tty = true;
  env = exec_env req.home req.env;
  command = attach_command req;
}

-- The numbered lines of the picker.
unfoldable pub picker_lines : ℕ → List Bytes → List Bytes
picker_lines n [] = []
picker_lines n (c ∷ containers) =
    (bytes "  " ++ decimal n ++ bytes ") " ++ display_name c) ∷ picker_lines (n + 1) containers

-- The verdict for the answer to the picker, and the lines of an error.
unfoldable pub selected : Request → List Bytes → Selection → Verdict × List Bytes
unfolding build_spec
selected req containers quit = (leave 0, [])
selected req containers invalid = (leave 1, bytes "Invalid selection" ∷ [])
selected req containers (choice n) = elim (get_elem? containers (n - 1)) [
  | none ↦ (panic, [])
  | some name ↦ (exec (build_spec req name), [])
]

-- The line that the prompt returns, if there is one.
abbrev pub read_line : Option (Bytes → Option Bytes) → Bytes → Option Bytes
read_line none text = none
read_line (some prompt) text = prompt text

-- The interactive picker.
unfoldable pub select_from : Request → List Bytes → Decision
unfolding selected parse_selection picker_lines
select_from req containers =
    let count = length containers in
    let text = bytes "Select container (1-" ++ decimal count ++ bytes ", q to quit): " in
    let shown = (bytes "Running containers:" ∷ picker_lines 1 containers) ++ [] ∷ [] in
    if is_nil containers
    then record { verdict = leave 0; stdout = bytes "No running aic containers" ∷ []; stderr = [] }
    else elim (read_line req.prompt text) [
      | none ↦ record { verdict = leave 1; stdout = shown; stderr = [] }
      | some line ↦
          let (verdict, errors) = selected req containers (parse_selection line count) in
          record { verdict = verdict; stdout = shown; stderr = errors }
    ]

unfoldable pub resolve : Request → Decision
unfolding filter_running normalize_name select_from build_spec
resolve req =
    let containers = filter_running req.running in
    let name = normalize_name req.name in
    if is_nil req.name
    then select_from req containers
    else if contains containers name
    then record { verdict = exec (build_spec req name); stdout = []; stderr = [] }
    else record {
      verdict = leave 1;
      stdout = [];
      stderr =
          (bytes "error: no running container named " ++ name)
          ∷ (bytes "       use --name " ++ display_name name ++ bytes " to create a new one")
          ∷ [];
    }
