-- ===== src/Zellij/Names.antt =====
-- internal/zellij/zellij.go: the names that the launcher and the image share, and the command that
-- runs a session.
use claude_contained.Base.{List, [], ◌∷◌, ◌++◌}
use claude_contained.Base.{Bytes, bytes}

abbrev pub marker_env : Bytes
marker_env = bytes "CLAUDE_CONTAINED_ZELLIJ"

abbrev pub session_env : Bytes
session_env = bytes "CLAUDE_CONTAINED_ZELLIJ_SESSION"

abbrev pub root_env : Bytes
root_env = bytes "CLAUDE_CONTAINED_ZELLIJ_ROOT"

abbrev pub label_marker : Bytes
label_marker = bytes "claude-contained.zellij"

abbrev pub label_session : Bytes
label_session = bytes "claude-contained.zellij.session"

abbrev pub shell_command : Bytes
shell_command = bytes "bash"

-- `fmt.Sprintf(runGuardFmt, progName)`
abbrev pub run_guard : Bytes → Bytes
run_guard prog_name =
    bytes "if ! command -v \"$0\" >/dev/null 2>&1; then\n"
    ++ bytes
        "       echo \"error: claude-contained image is missing Zellij support (zellij-run).\" >&2\n"
    ++ bytes "       echo \"       Rebuild it with: "
    ++ prog_name
    ++ bytes " --rebuild=full\" >&2\n"
    ++ bytes "       exit 127\n"
    ++ bytes "     fi\n"
    ++ bytes "     exec \"$0\" \"$@\""

unfoldable pub run_command : Bytes → Bytes → List Bytes → List Bytes
run_command session prog_name inner =
    (bytes "bash"
      ∷ bytes "-lc"
      ∷ run_guard prog_name
      ∷ bytes "zellij-run"
      ∷ session
      ∷ bytes "--"
      ∷ [])
    ++ inner
