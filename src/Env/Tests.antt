-- ===== src/Env/Tests.antt =====
-- Runs of the environment store on concrete inputs.
use claude_contained.Env.Store.{
  flag, builtin, Pair, Entry, reserved_for_file, key_and_value, validate, set, default, pairs,
  explicit_keys_value, summary, valid_key, is_key_byte, key_reserved_always, reserved_in_file,
  validate_key, index_of, assign, put, keys_from, summary_of,
}
use claude_contained.Env.File.{
  load_file, load_lines, load_trimmed, split_lines, strip_one_pair, trim_line, source_of_line,
  is_claimed_by_flag,
}
use claude_contained.Env.Lookup.{get, keys, set_lem}
use claude_contained.Env.Invariant.{
  IsWellFormed, Operation, set_op, default_op, load_op, run, run-IsWellFormed,
}
use claude_contained.Env.Precedence.{load_file-get_flag}
use claude_contained.Env.Keys.{split-explicit_keys_value, summary_ignores_values}
use claude_contained.Env.RoundTrip.{written_file, from_file, load_file-written_file}
use claude_contained.Base.{decimal_within}
use claude_contained.Env.File.{drop_last_empty, last_byte, without_last}
use claude_contained.Base.{◌≡◌, refl, ◌≢◌}
use claude_contained.Base.{none, some, if◌then◌else◌, is_some}
use claude_contained.Base.{List, [], ◌∷◌, ◌++◌, map}
use claude_contained.Base.{
  bytes, same, after_prefix, has_prefix, trim_prefix, trim_suffix, trim_left, cut, join, split,
  contains, decimal,
}

abbrev preload : Entry
preload = record { key = bytes "LD_PRELOAD"; value = bytes "mine.so"; origin = flag }

abbrev some_operations : List Operation
some_operations =
    set_op (bytes "LD_PRELOAD=mine.so") (bytes "--env") flag
    ∷ load_op (bytes "# comment\nLD_PRELOAD=theirs.so\nA='b c'\n")
    ∷ default_op (bytes "TZ=UTC") (bytes "builtin") builtin
    ∷ []

abbrev some_pairs : List Pair
some_pairs =
    record { key = bytes "A"; value = bytes "x\"y" } ∷ record { key = bytes "B_2"; value = [] } ∷ []

run_operations :
    summary (run some_operations []) ≡ bytes "env: LD_PRELOAD (--env); A (.claude-contained/env)"
unfolding set default load_file index_of load_lines split_lines split load_trimmed trim_line
    trim_left trim_suffix has_prefix cut is_claimed_by_flag validate valid_key key_reserved_always
    contains same put decimal decimal_within after_prefix join trim_prefix drop_last_empty last_byte
    source_of_line strip_one_pair without_last assign is_key_byte key_and_value keys_from
    reserved_in_file summary_of validate_key summary
run_operations = refl

load_reserved :
    (load_file (bytes "A=1\nLD_PRELOAD=x") []).1
    ≡ some (reserved_for_file (bytes ".claude-contained/env:2") (bytes "LD_PRELOAD"))
unfolding set default load_file index_of load_lines split_lines split load_trimmed trim_line
    trim_left trim_suffix has_prefix cut is_claimed_by_flag validate valid_key key_reserved_always
    contains same put decimal decimal_within after_prefix join trim_prefix drop_last_empty last_byte
    source_of_line strip_one_pair without_last assign is_key_byte key_and_value keys_from
    reserved_in_file summary_of validate_key
load_reserved = refl

run-IsWellFormed_example : IsWellFormed (run some_operations [])
run-IsWellFormed_example = run-IsWellFormed some_operations

load_file-get_flag_example :
    get (load_file (bytes "LD_PRELOAD=theirs.so\nA=1") (preload ∷ [])).0 (bytes "LD_PRELOAD")
    ≡ some preload
unfolding same
load_file-get_flag_example =
    load_file-get_flag (bytes "LD_PRELOAD=theirs.so\nA=1") (preload ∷ []) (bytes "LD_PRELOAD")
      preload refl refl

load_file-written_file_example :
    load_file (written_file some_pairs) [] ≡ (map from_file some_pairs, none)
unfolding valid_key key_reserved_always reserved_in_file is_key_byte contains same has_prefix
    after_prefix
load_file-written_file_example =
    load_file-written_file some_pairs ((refl, refl, refl, refl), ((refl, refl, refl, refl), tt))
      refl

set_lem_example :
    let s = preload ∷ [] in
    let assignment = bytes "A=1=2" in
    let (key, value) = key_and_value assignment in
    let failed = is_some (validate assignment (bytes "--env") flag) in
    ((set s assignment (bytes "--env") flag).1 ≡ validate assignment (bytes "--env") flag)
    × (get (set s assignment (bytes "--env") flag).0 (bytes "A") ≡ (
        if failed
        then get s (bytes "A")
        else if same key (bytes "A")
        then some (record { key = key; value = value; origin = flag })
        else get s (bytes "A")))
    × (keys (set s assignment (bytes "--env") flag).0
        ≡ (if failed then keys s else if contains (keys s) key then keys s else keys s ++ key ∷ []))
set_lem_example = set_lem (preload ∷ []) (bytes "A=1=2") (bytes "--env") flag (bytes "A")

some_operations-ne : run some_operations [] ≢ []
unfolding set default load_file index_of load_lines split_lines split load_trimmed trim_line
    trim_left trim_suffix has_prefix cut is_claimed_by_flag validate valid_key key_reserved_always
    contains same put decimal decimal_within after_prefix join trim_prefix drop_last_empty last_byte
    source_of_line strip_one_pair without_last assign is_key_byte key_and_value keys_from
    reserved_in_file summary_of validate_key
some_operations-ne e = cc

split-explicit_keys_value_example :
    split b',' (explicit_keys_value (pairs (run some_operations [])))
    ≡ keys (run some_operations [])
split-explicit_keys_value_example = split-explicit_keys_value some_operations some_operations-ne

summary_ignores_values_example :
    summary (preload ∷ []) ≡ summary (record preload { value = bytes "secret" } ∷ [])
summary_ignores_values_example =
    summary_ignores_values (preload ∷ []) (record preload { value = bytes "secret" } ∷ []) refl
