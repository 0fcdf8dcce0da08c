-- ===== src/Cli/RoundTrip.antt =====
-- internal/cli/cli.go: flags and values written in either form, and the loop of `Parse`.
use claude_contained.Cli.Config.{Config, initial_config}
use claude_contained.Cli.Arms.{
  Field, dir_field, mount_field, name_field, session_field, build_context_field, layer_field,
  log_level_field, log_file_field, share_skills_field, env_field, port_field, host_field, dns_field,
  allow_host_field, separate_arm, inline_arm, arm_of,
}
use claude_contained.Cli.Parse.{
  set_field, is_missing, next_of, set_inline, step, separated, parse_tokens, parse,
}
use claude_contained.Cli.Arms.{middle_arms, later_arms, last_arms}
use claude_contained.Cli.Kept.{set_field-IsBeside}
use claude_contained.Base.{◌≡◌, refl, ap, ◌∙◌}
use claude_contained.Base.{Bool, true, false}
use claude_contained.Base.{List, [], ◌∷◌, ◌++◌, is_nil, All}
use claude_contained.Base.{Bytes, bytes, same, after_prefix, has_prefix, trim_prefix}

-- A flag with its value: as two tokens, or as one token with `=`.
pub data Written : Type 0 where
  two_tokens one_token : Field → Bytes → Written

-- The name of a flag that takes a value.
abbrev pub flag_of : Field → Bytes
flag_of dir_field = bytes "--dir"
flag_of mount_field = bytes "--mount"
flag_of name_field = bytes "--name"
flag_of session_field = bytes "--session"
flag_of build_context_field = bytes "--build-context"
flag_of layer_field = bytes "--layer"
flag_of log_level_field = bytes "--log-level"
flag_of log_file_field = bytes "--log-file"
flag_of share_skills_field = bytes "--share-skills"
flag_of env_field = bytes "--env"
flag_of port_field = bytes "-p"
flag_of host_field = bytes "-H"
flag_of dns_field = bytes "--dns"
flag_of allow_host_field = bytes "--allow-host"

abbrev pub has_inline_form : Field → Bool
has_inline_form port_field = false
has_inline_form host_field = false
has_inline_form f = true

abbrev pub tokens_of : Written → List Bytes → List Bytes
tokens_of (two_tokens f v) rest = flag_of f ∷ v ∷ rest
tokens_of (one_token f v) rest = (flag_of f ++ bytes "=" ++ v) ∷ rest

-- A value is not empty, as two tokens it does not start with a dash, and one token needs the form.
abbrev pub IsReadable : Written → Type 0
IsReadable (two_tokens f v) = is_missing v ≡ false
IsReadable (one_token f v) = (is_nil v ≡ false) × (has_inline_form f ≡ true)

abbrev pub written_tokens : List Written → List Bytes → List Bytes
written_tokens [] rest = rest
written_tokens (w ∷ ws) rest = tokens_of w (written_tokens ws rest)

abbrev pub assign_written : Written → Config → Config
assign_written (two_tokens f v) cfg = set_field f v cfg
assign_written (one_token f v) cfg = set_field f v cfg

abbrev pub assign_all : List Written → Config → Config
assign_all [] cfg = cfg
assign_all (w ∷ ws) cfg = assign_all ws (assign_written w cfg)

-- Neither the end of the flags nor a command.
abbrev IsFlag : Bytes → Type 0
IsFlag arg = (same arg (bytes "--") ≡ false) × (has_prefix arg (bytes "-") ≡ true)

flag_of-IsFlag : (f : Field) → IsFlag (flag_of f)
unfolding same has_prefix after_prefix
flag_of-IsFlag dir_field = (refl, refl)
flag_of-IsFlag mount_field = (refl, refl)
flag_of-IsFlag name_field = (refl, refl)
flag_of-IsFlag session_field = (refl, refl)
flag_of-IsFlag build_context_field = (refl, refl)
flag_of-IsFlag layer_field = (refl, refl)
flag_of-IsFlag log_level_field = (refl, refl)
flag_of-IsFlag log_file_field = (refl, refl)
flag_of-IsFlag share_skills_field = (refl, refl)
flag_of-IsFlag env_field = (refl, refl)
flag_of-IsFlag port_field = (refl, refl)
flag_of-IsFlag host_field = (refl, refl)
flag_of-IsFlag dns_field = (refl, refl)
flag_of-IsFlag allow_host_field = (refl, refl)

arm_of-flag_of : (f : Field) → arm_of (flag_of f) ≡ separate_arm f
unfolding arm_of middle_arms later_arms last_arms same has_prefix after_prefix trim_prefix
arm_of-flag_of dir_field = refl
arm_of-flag_of mount_field = refl
arm_of-flag_of name_field = refl
arm_of-flag_of session_field = refl
arm_of-flag_of build_context_field = refl
arm_of-flag_of layer_field = refl
arm_of-flag_of log_level_field = refl
arm_of-flag_of log_file_field = refl
arm_of-flag_of share_skills_field = refl
arm_of-flag_of env_field = refl
arm_of-flag_of port_field = refl
arm_of-flag_of host_field = refl
arm_of-flag_of dns_field = refl
arm_of-flag_of allow_host_field = refl

arm_of-inline :
    (f : Field) (v : Bytes)
    → has_inline_form f ≡ true
    → (arm_of (flag_of f ++ bytes "=" ++ v) ≡ inline_arm f v) × IsFlag (flag_of f ++ bytes "=" ++ v)
unfolding arm_of middle_arms later_arms last_arms same has_prefix after_prefix trim_prefix
arm_of-inline dir_field v h = (refl, (refl, refl))
arm_of-inline mount_field v h = (refl, (refl, refl))
arm_of-inline name_field v h = (refl, (refl, refl))
arm_of-inline session_field v h = (refl, (refl, refl))
arm_of-inline build_context_field v h = (refl, (refl, refl))
arm_of-inline layer_field v h = (refl, (refl, refl))
arm_of-inline log_level_field v h = (refl, (refl, refl))
arm_of-inline log_file_field v h = (refl, (refl, refl))
arm_of-inline share_skills_field v h = (refl, (refl, refl))
arm_of-inline env_field v h = (refl, (refl, refl))
arm_of-inline port_field v h = cc
arm_of-inline host_field v h = cc
arm_of-inline dns_field v h = (refl, (refl, refl))
arm_of-inline allow_host_field v h = (refl, (refl, refl))

-- A flag that stands alone is left behind by its step.
alone :
    (arg : Bytes) (rest : List Bytes) (cfg cfg' : Config)
    → IsFlag arg
    → ((next : List Bytes) → step (arm_of arg) arg next cfg ≡ (cfg', false))
    → parse_tokens (arg ∷ rest) cfg ≡ parse_tokens rest cfg'
unfolding parse_tokens
alone arg [] cfg cfg' i h = rw (i.0, i.1, h []) refl
alone arg (next ∷ rest) cfg cfg' i h =
    rw (i.0, i.1, ap (λ r. r.1) (h (next ∷ rest)))
      (ap (λ r. parse_tokens (next ∷ rest) r.0) (h (next ∷ rest)))

step-two_tokens :
    (f : Field) (v : Bytes) (rest : List Bytes) (cfg : Config)
    → is_missing v ≡ false
    → step (arm_of (flag_of f)) (flag_of f) (v ∷ rest) cfg ≡ (set_field f v cfg, true)
unfolding step
step-two_tokens f v rest cfg h = rw (arm_of-flag_of f, h) refl

parse_tokens-written :
    (w : Written) (rest : List Bytes) (cfg : Config)
    → IsReadable w
    → parse_tokens (tokens_of w rest) cfg ≡ parse_tokens rest (assign_written w cfg)
unfolding parse_tokens step set_inline
parse_tokens-written (two_tokens f v) rest cfg h =
    let e = step-two_tokens f v rest cfg h in
    rw ((flag_of-IsFlag f).0, (flag_of-IsFlag f).1, ap (λ r. r.1) e)
      (ap (λ r. parse_tokens rest r.0) e)
parse_tokens-written (one_token f v) rest cfg h =
    let a = arm_of-inline f v h.1 in
    alone (flag_of f ++ bytes "=" ++ v) rest cfg (set_field f v cfg) a.1
      (λ next. rw (a.0, h.0) refl)

parse_tokens-written_tokens :
    (ws : List Written) (rest : List Bytes) (cfg : Config)
    → All IsReadable ws
    → parse_tokens (written_tokens ws rest) cfg ≡ parse_tokens rest (assign_all ws cfg)
parse_tokens-written_tokens [] rest cfg h = refl
parse_tokens-written_tokens (w ∷ ws) rest cfg (h, hs) =
    parse_tokens-written w (written_tokens ws rest) cfg h
    ∙ parse_tokens-written_tokens ws rest (assign_written w cfg) hs

assign_all-command :
    (ws : List Written) (cfg : Config) → cfg.command ≡ [] → (assign_all ws cfg).command ≡ []
assign_all-command [] cfg e = e
assign_all-command (two_tokens f v ∷ ws) cfg e =
    assign_all-command ws (set_field f v cfg) ((set_field-IsBeside f v cfg).command ∙ e)
assign_all-command (one_token f v ∷ ws) cfg e =
    assign_all-command ws (set_field f v cfg) ((set_field-IsBeside f v cfg).command ∙ e)

parse_tokens-separator :
    (command : List Bytes) (cfg : Config)
    → parse_tokens (bytes "--" ∷ command) cfg ≡ separated command cfg
unfolding parse_tokens same
parse_tokens-separator [] cfg = refl
parse_tokens-separator (c ∷ command) cfg = refl

separated-program :
    (command : List Bytes) (cfg : Config)
    → cfg.command ≡ []
    → has_prefix (next_of command) (bytes "-") ≡ false
    → separated command cfg ≡ (record cfg {
      command = command;
      parse = record (cfg.parse) { command_from_separator = true };
    })
unfolding separated
separated-program command cfg e d = rw (e, d) refl

-- Flags with values that are not empty, each as two tokens, where the value does not start with a dash,
-- or as one token with `=`, where the flag has that form, and then `--` and a command that does not
-- start with a dash: `Parse` makes exactly the assignments of the flags in order, takes the command
-- unchanged, and records no failure.
pub parse-written_tokens :
    (ws : List Written) (command : List Bytes) (prog_name : Bytes) (share : Bool)
    → All IsReadable ws
    → has_prefix (next_of command) (bytes "-") ≡ false
    → let cfg = assign_all ws (initial_config prog_name share) in
      parse (written_tokens ws (bytes "--" ∷ command)) prog_name share ≡ (record cfg {
        command = command;
        parse = record (cfg.parse) { command_from_separator = true };
      })
unfolding parse
parse-written_tokens ws command prog_name share h d =
    parse_tokens-written_tokens ws (bytes "--" ∷ command) (initial_config prog_name share) h
    ∙ parse_tokens-separator command (assign_all ws (initial_config prog_name share))
    ∙ separated-program command (assign_all ws (initial_config prog_name share))
        (assign_all-command ws (initial_config prog_name share) refl) d
