-- ===== src/Launch/Environment.antt =====
-- The environment of the tool in cmd/claude-contained/run.go: the assignments of the command line, and
-- `completeEnv`. What stands at the place of the project file is a parameter, and so are the time zone
-- and the token of the host.
use claude_contained.Env.Store.{flag, builtin, Store, EnvError, message, set, default, summary}
use claude_contained.Env.File.{file_name, load_file}
use claude_contained.Base.{ℕ}
use claude_contained.Base.{Bool, true, false, Option, none, some, if◌then◌else◌}
use claude_contained.Base.{List, [], ◌∷◌, ◌++◌, is_nil}
use claude_contained.Base.{Bytes, bytes}

-- The loop over `EnvFlagArgs` in `runWith`, which stops at the first error.
unfoldable pub set_flags : List Bytes → Store → Store × Option EnvError
unfolding set
set_flags [] s = (s, none)
set_flags (assignment ∷ rest) s =
    let r = set s assignment (bytes "--env") flag in
    elim (r.1) [ some e ↦ (r.0, some e) | none ↦ set_flags rest r.0 ]

-- What stands at the path of the project file: no regular file, one that cannot be read, with the text
-- of the error, or one with a content.
pub data ProjectFile : Type 0 where
  no_regular_file : ProjectFile
  unreadable_file : Bytes → ProjectFile
  regular_file : Bytes → ProjectFile

-- The result of loading the file, with the text of the error.
abbrev pub load_result : Store × Option EnvError → Store × Option Bytes
load_result (s, some e) = (s, some (message e))
load_result (s, none) = (s, none)

-- The store, and the text of the error.
unfoldable pub load_project_file : Bool → ProjectFile → Store → Store × Option Bytes
unfolding load_file
load_project_file true file s = (s, none)
load_project_file false no_regular_file s = (s, none)
load_project_file false (unreadable_file text) s =
    (s, some (bytes "error: cannot read " ++ (file_name ++ (bytes ": " ++ text))))
load_project_file false (regular_file content) s = load_result (load_file content s)

-- A built-in with a value that is not empty.
unfoldable pub fill : Bytes → Bytes → Bytes → Store → Store × Option EnvError
unfolding default
fill key source value s =
    if is_nil value then (s, none) else default s (key ++ b'=' ∷ value) source builtin

-- The store, the exit code and the lines on standard error.
pub record Completed : Type 0 where
  pub store : Store
  pub code : ℕ
  pub lines : List Bytes

abbrev pub timezone_key : Bytes
timezone_key = bytes "TZ"

abbrev pub token_key : Bytes
token_key = bytes "GH_TOKEN"

abbrev pub summary_lines : Store → List Bytes
summary_lines s = if is_nil (summary s) then [] else summary s ∷ []

module _ (timezone gh_token : Bytes) where
  unfoldable pub fill_token : Store → Completed
  unfolding fill summary
  fill_token s =
      let r = fill token_key (bytes "CLAUDE_CONTAINED_GH_TOKEN") gh_token s in
      elim (r.1) [
        | some e ↦ record { store = r.0; code = 2; lines = message e ∷ [] }
        | none ↦ record { store = r.0; code = 0; lines = summary_lines r.0 }
      ]

  unfoldable pub fill_timezone : Store → Completed
  unfolding fill fill_token
  fill_timezone s =
      let r = fill timezone_key (bytes "host timezone") timezone s in
      elim (r.1) [
        | some e ↦ record { store = r.0; code = 2; lines = message e ∷ [] }
        | none ↦ fill_token r.0
      ]

  -- What follows on the project file.
  abbrev pub after_project_file : Store × Option Bytes → Completed
  after_project_file (s, some line) = record { store = s; code = 2; lines = line ∷ [] }
  after_project_file (s, none) = fill_timezone s

  unfoldable pub complete_env : Bool → ProjectFile → Store → Completed
  unfolding load_project_file fill_timezone
  complete_env no_project_env file s = after_project_file (load_project_file no_project_env file s)
