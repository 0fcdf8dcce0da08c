-- ===== src/Zellij/Resolve.antt =====
-- internal/zellij/zellij.go: the launch gate, and attaching to a live session.
use claude_contained.Runtime.Spec.{ExecSpec}
use claude_contained.Attach.Resolve.{
  Verdict, exec, leave, panic, Decision, display_name, Selection, quit, invalid, choice,
  parse_selection, get_elem?, exec_env, read_line, tool_env_path, sandbox_wrapper,
}
use claude_contained.Zellij.Names.{marker_env, session_env}
use claude_contained.Host.Sanitize.{sanitize_folder_name}
use claude_contained.Base.{ℕ, ◌+◌, ◌-◌}
use claude_contained.Base.{Bool, true, false, not, ◌&&◌, Option, none, some, if◌then◌else◌}
use claude_contained.Base.{List, [], ◌∷◌, ◌++◌, map, length, is_nil}
use claude_contained.Base.{Bytes, bytes, same, has_prefix, trim_prefix, contains, decimal}

-- `SessionFromEnv`, from a marker and a session found so far.
unfoldable pub session_from : Bool → Bytes → List Bytes → Bytes
session_from marker session [] = if marker && not (is_nil session) then session else []
session_from marker session (line ∷ lines) =
    if same line (marker_env ++ bytes "=1")
    then session_from true session lines
    else if has_prefix line (session_env ++ bytes "=")
    then session_from marker (trim_prefix line (session_env ++ bytes "=")) lines
    else session_from marker session lines

unfoldable pub session_from_env : List Bytes → Bytes
unfolding session_from
session_from_env lines = session_from false [] lines

module _ (to_lower path_hash_8 : Bytes → Bytes) where
  -- `SessionName`
  abbrev pub session_name : Bytes → Bytes
  session_name project_dir =
      bytes "cc-"
      ++ sanitize_folder_name to_lower project_dir
      ++ bytes "-"
      ++ path_hash_8 project_dir

pub record Record : Type 0 where
  pub container : Bytes
  pub session : Bytes

abbrev pub sessions : List Record → List Bytes
sessions = map (λ r. r.session)

abbrev pub sessions_lines : List Record → List Bytes
sessions_lines = map (λ r. bytes "  " ++ r.session)

-- `ResolveLaunch`: the status, and the lines of a refusal.
unfoldable pub resolve_launch : Bytes → List Record → Bool → ℕ × List Bytes
resolve_launch session records new_session =
    if contains (sessions records) session
    then (
      1,
      (bytes "Zellij session '" ++ session ++ bytes "' is already live.")
          ∷ (bytes "Use --zellij --attach --session "
              ++ session
              ++ bytes ", or choose a different session with --session=NAME.")
          ∷ [],
    )
    else if not new_session && not (is_nil records)
    then (
      1,
      (bytes "A Zellij-backed container is already running:" ∷ sessions_lines records)
          ++ bytes
              "Use --zellij --attach [--session NAME] to reconnect, or --zellij --new-session [--session NAME] to start another session."
            ∷ [],
    )
    else (0, [])

pub record AttachRequest : Type 0 where
  pub session : Bytes
  pub srt_disable : Bool
  pub home : Bytes
  pub records : List Record
  pub prompt : Option (Bytes → Option Bytes)

-- `AttachCommand`
unfoldable pub zellij_attach_command : Bytes → Bool → List Bytes
zellij_attach_command session srt_disable =
    tool_env_path ∷ (if srt_disable then [] else sandbox_wrapper ∷ [])
    ++ bytes "/usr/local/bin/zellij-attach" ∷ session ∷ []

unfoldable pub build_attach_spec : AttachRequest → Record → ExecSpec
unfolding zellij_attach_command exec_env
build_attach_spec req rec = record {
  container = rec.container;
  user = bytes "dev";
  tty = true;
  env = exec_env req.home [];
  command = zellij_attach_command rec.session req.srt_disable;
}

unfoldable pub session_lines : ℕ → List Record → List Bytes
session_lines n [] = []
session_lines n (r ∷ records) =
    (bytes "  "
      ++ decimal n
      ++ bytes ") "
      ++ r.session
      ++ bytes " ("
      ++ display_name r.container
      ++ bytes ")")
    ∷ session_lines (n + 1) records

unfoldable pub selected_session : AttachRequest → Selection → Verdict × List Bytes
unfolding build_attach_spec
selected_session req quit = (leave 0, [])
selected_session req invalid = (leave 1, bytes "Invalid selection" ∷ [])
selected_session req (choice n) = elim (get_elem? req.records (n - 1)) [
  | none ↦ (panic, [])
  | some rec ↦ (exec (build_attach_spec req rec), [])
]

-- With more than one session.
unfoldable pub pick_session : AttachRequest → Decision
unfolding selected_session session_lines
pick_session req =
    let count = length req.records in
    let text = bytes "Select session (1-" ++ decimal count ++ bytes ", q to quit): " in
    let shown = (bytes "Live Zellij sessions:" ∷ session_lines 1 req.records) ++ [] ∷ [] in
    elim (read_line req.prompt text) [
      | none ↦ record { verdict = leave 1; stdout = shown; stderr = [] }
      | some line ↦
          let (verdict, errors) = selected_session req (parse_selection line count) in
          record { verdict = verdict; stdout = shown; stderr = errors }
    ]

unfoldable pub resolve_interactive : List Record → AttachRequest → Decision
unfolding pick_session build_attach_spec
resolve_interactive [] req = record {
  verdict = leave 0;
  stdout = bytes "No live Zellij sessions" ∷ [];
  stderr = [];
}
resolve_interactive (rec ∷ []) req = record {
  verdict = exec (build_attach_spec req rec);
  stdout = [];
  stderr = [];
}
resolve_interactive (rec ∷ other ∷ records) req = pick_session req

-- The records of a session.
unfoldable pub matches : Bytes → List Record → List Record
matches session [] = []
matches session (r ∷ records) =
    let rest = matches session records in if same r.session session then r ∷ rest else rest

unfoldable pub resolve_matches : List Record → AttachRequest → Decision
unfolding build_attach_spec
resolve_matches [] req = record {
  verdict = leave 1;
  stdout = [];
  stderr = (bytes "No live Zellij session named " ++ req.session) ∷ [];
}
resolve_matches (rec ∷ []) req = record {
  verdict = exec (build_attach_spec req rec);
  stdout = [];
  stderr = [];
}
resolve_matches (rec ∷ other ∷ records) req = record {
  verdict = leave 1;
  stdout = [];
  stderr =
      (bytes "Multiple live containers report Zellij session "
        ++ req.session
        ++ bytes "; refusing ambiguous attach")
      ∷ [];
}

-- `ResolveAttach`
unfoldable pub resolve_attach : AttachRequest → Decision
unfolding resolve_interactive resolve_matches matches
resolve_attach req =
    if is_nil req.session
    then resolve_interactive req.records req
    else resolve_matches (matches req.session req.records) req
