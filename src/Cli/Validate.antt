-- ===== src/Cli/Validate.antt =====
-- internal/cli/cli.go: `Validate` and the check of a Zellij session name. A usage error is the lines that
-- go to the standard error; its exit status is always that of a usage error.
use claude_contained.Cli.Config.{
  required_value, new_session_value, unknown_flag, tool_removed, yolo_removed, command_flag,
  SyntaxFailure, Config,
}
use claude_contained.Host.Sanitize.{sanitize_folder_name}
use claude_contained.Base.{ℕ}
use claude_contained.Base.{Bool, not, ◌&&◌, ◌||◌, Option, none, some, leb, ◌==◌, if◌then◌else◌}
use claude_contained.Base.{List, [], ◌∷◌, ◌++◌, is_nil, every}
use claude_contained.Base.{Bytes, bytes, same, has_prefix, trim_prefix, is_digit}

-- The lines for a failure that the parser recorded.
abbrev pub failure_lines : Bytes → SyntaxFailure → List Bytes
failure_lines prog x = elim (x.kind) [
  | required_value ↦ (bytes "error: " ++ x.flag ++ bytes " requires " ++ x.what) ∷ []
  | new_session_value ↦ bytes "error: --new-session no longer takes a name; use --session=NAME" ∷ []
  | unknown_flag ↦
      (bytes "error: unknown flag: " ++ x.value)
      ∷ (bytes "       run '" ++ prog ++ bytes " --help' for the supported flags")
      ∷ []
  | tool_removed ↦
      bytes "error: -t/--tool is no longer accepted"
      ∷ (bytes "       name the program positionally:  " ++ prog ++ bytes " <program>")
      ∷ []
  | yolo_removed ↦
      bytes "error: -y/--yolo is no longer accepted"
      ∷ (bytes "       pass the flag to the program:  "
          ++ prog
          ++ bytes " claude --dangerously-skip-permissions")
      ∷ []
  | command_flag ↦
      (bytes "error: command cannot start with a flag: " ++ x.flag)
      ∷ (bytes "       name the program first:  " ++ prog ++ bytes " claude " ++ x.value)
      ∷ []
]

-- `[A-Za-z0-9_.-]`
unfoldable pub is_session_byte : ℕ → Bool
is_session_byte c =
    (leb b'A' c && leb c b'Z')
    || (leb b'a' c && leb c b'z')
    || is_digit c
    || c == b'_'
    || c == b'.'
    || c == b'-'

-- `ValidateZellijSessionName`
unfoldable pub session_name_error : Bytes → Option (List Bytes)
session_name_error name =
    if is_nil name
    then some (bytes "error: Zellij session name cannot be empty" ∷ [])
    else if has_prefix name (bytes "-") || not (every is_session_byte name)
    then some (
        (bytes "error: invalid Zellij session name: " ++ name)
        ∷ bytes "       Use only letters, numbers, '_', '.', and '-'; do not start with '-'."
        ∷ [])
    else none

-- The checks of a list in their order: the lines of the first that applies.
abbrev pub first_error : List (Bool × List Bytes) → Option (List Bytes) → Option (List Bytes)
first_error [] rest = rest
first_error ((test, lines) ∷ checks) rest = if test then some lines else first_error checks rest

-- The checks in front of the one of the session name.
abbrev pub early_checks : Config → List (Bool × List Bytes)
early_checks cfg =
    (
      cfg.zellij_new_session && not cfg.zellij_mode,
      bytes "error: --new-session is valid only with --zellij" ∷ [],
    )
    ∷ (
      cfg.zellij_session_name_set && not cfg.zellij_mode,
      bytes "error: --session is valid only with --zellij" ∷ [],
    )
    ∷ (
      cfg.zellij_mode && cfg.attach_mode && cfg.shell_mode,
      bytes "error: --zellij --attach cannot be combined with --shell" ∷ [],
    )
    ∷ (
      cfg.zellij_mode && not (is_nil cfg.attach_name),
      bytes "error: -a/--attach takes no name with --zellij; use --session=NAME" ∷ [],
    )
    ∷ (
      cfg.attach_mode && not (is_nil cfg.custom_container_name),
      bytes "error: --name cannot be combined with -a/--attach"
          ∷ bytes "       --name names a new container; --attach reconnects to an existing one."
          ∷ [],
    )
    ∷ []

-- The checks behind the rewrite of the name.
abbrev pub late_checks : Config → List (Bool × List Bytes)
late_checks cfg =
    let has_command = not (is_nil cfg.command) in
    (
      cfg.zellij_mode && cfg.attach_mode && not (is_nil cfg.env_flag_args),
      bytes "error: --env cannot be combined with --zellij --attach"
          ∷ bytes "       Attaching starts a Zellij client; the pane keeps the environment it was"
          ∷ bytes "       created with, so the variable would silently never reach the tool."
          ∷ bytes "       Set it when the session is created instead."
          ∷ [],
    )
    ∷ (
      has_command && cfg.shell_mode,
      bytes "error: -s/--shell cannot be combined with a command"
          ∷ bytes "       -s runs a debug shell in place of the container command."
          ∷ [],
    )
    ∷ (
      has_command && not (same cfg.rebuild_mode (bytes "none")),
      bytes "error: -R/--rebuild cannot be combined with a command"
          ∷ bytes "       --rebuild builds an image and exits; it runs no command."
          ∷ (bytes "       select the mode with --rebuild=MODE:  "
              ++ cfg.parse.prog_name
              ++ bytes " --rebuild=full")
          ∷ [],
    )
    ∷ (
      has_command && cfg.zellij_mode && cfg.attach_mode,
      bytes "error: --zellij --attach cannot be combined with a command"
          ∷ bytes "       Attaching reconnects to an existing session; the command would never run."
          ∷ [],
    )
    ∷ (
      has_command && cfg.attach_mode && not cfg.parse.command_from_separator,
      bytes "error: -a/--attach takes only a container name before a command"
          ∷ (bytes "       introduce the command with --:  "
              ++ cfg.parse.prog_name
              ++ bytes " -a NAME -- npm test")
          ∷ [],
    )
    ∷ (
      cfg.no_layer && (not (is_nil cfg.layer_dir) || cfg.build_layer),
      bytes "error: --no-layer cannot be combined with --layer or --build-layer"
          ∷ bytes
              "       --no-layer runs the base image; the others select or build a tooling layer."
          ∷ [],
    )
    ∷ []

module _ (to_lower : Bytes → Bytes) where
  -- The rewrite of `--name`.
  abbrev pub rename : Config → Config
  rename cfg = if is_nil cfg.custom_container_name then cfg else record cfg {
    custom_container_name =
        bytes "aic-"
        ++ sanitize_folder_name to_lower (trim_prefix cfg.custom_container_name (bytes "aic-"));
  }

  -- Without a recorded failure.
  unfoldable pub validate_semantics : Config → Config × Option (List Bytes)
  validate_semantics cfg =
      let session =
        if cfg.zellij_session_name_set then session_name_error cfg.zellij_session_name else none in
      elim (first_error (early_checks cfg) session) [
        | some lines ↦ (cfg, some lines)
        | none ↦ (rename cfg, first_error (late_checks (rename cfg)) none)
      ]

  -- The configuration with the name rewritten, and the lines of a usage error if there is one.
  unfoldable pub validate_parsed : List SyntaxFailure → Config → Config × Option (List Bytes)
  unfolding validate_semantics
  validate_parsed [] cfg = validate_semantics cfg
  validate_parsed (x ∷ failures) cfg = (cfg, some (failure_lines cfg.parse.prog_name x))

  unfoldable pub validate_config : Config → Config × Option (List Bytes)
  unfolding validate_parsed
  validate_config cfg =
      if cfg.help_requested then (cfg, none) else validate_parsed cfg.parse.failures cfg
