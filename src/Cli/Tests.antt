-- ===== src/Cli/Tests.antt =====
-- Runs of the command line on concrete inputs.
use claude_contained.Cli.Config.{yolo_removed, SyntaxFailure, Config, initial_config}
use claude_contained.Cli.Arms.{dir_field, mount_field, port_field}
use claude_contained.Cli.Parse.{record_failure, parse}
use claude_contained.Cli.Command.{IsCommandOf, parse-IsCommandOf}
use claude_contained.Cli.RoundTrip.{
  Written, two_tokens, one_token, written_tokens, assign_all, parse-written_tokens,
}
use claude_contained.Cli.Validate.{validate_config}
use claude_contained.Cli.Accepted.{is_consistent, validate_config-is_consistent}
use claude_contained.Base.{◌≡◌, refl}
use claude_contained.Base.{true, false, not, ◌||◌, is_some}
use claude_contained.Base.{List, [], ◌∷◌}
use claude_contained.Base.{Bytes, bytes, after_prefix, has_prefix}

abbrev prog : Bytes
prog = bytes "claude-contained"

abbrev same_bytes : Bytes → Bytes
same_bytes s = s

abbrev some_tokens : List Bytes
some_tokens =
    bytes "--name=web"
    ∷ bytes "-a"
    ∷ bytes "--tool"
    ∷ bytes "claude"
    ∷ bytes "--"
    ∷ bytes "npm"
    ∷ bytes "--"
    ∷ []

abbrev some_written : List Written
some_written =
    two_tokens dir_field (bytes "/p")
    ∷ one_token mount_field (bytes "-x")
    ∷ two_tokens port_field (bytes "80")
    ∷ []

abbrev yolo : SyntaxFailure
yolo = record { kind = yolo_removed; flag = []; what = []; value = [] }

abbrev failed_config : Config
failed_config = record_failure yolo (initial_config prog false)

abbrev named_config : Config
named_config = record (initial_config prog false) { custom_container_name = bytes "web" }

parse-IsCommandOf_example : IsCommandOf some_tokens (parse some_tokens prog true)
parse-IsCommandOf_example = parse-IsCommandOf some_tokens prog true

parse-written_tokens_example :
    let cfg = assign_all some_written (initial_config prog false) in
    parse (written_tokens some_written (bytes "--" ∷ bytes "npm" ∷ bytes "-v" ∷ [])) prog false
    ≡ (record cfg {
      command = bytes "npm" ∷ bytes "-v" ∷ [];
      parse = record (cfg.parse) { command_from_separator = true };
    })
unfolding has_prefix after_prefix
parse-written_tokens_example =
    parse-written_tokens some_written (bytes "npm" ∷ bytes "-v" ∷ []) prog false
      (refl, ((refl, refl), (refl, tt))) refl

validate_config-is_consistent_example :
    is_some (validate_config same_bytes named_config).1
    ≡ not (named_config.help_requested || is_consistent named_config)
validate_config-is_consistent_example = validate_config-is_consistent same_bytes named_config
