-- ===== src/Cli/Accepted.antt =====
-- Which command lines `Validate` accepts, and what it reports of the others.
use claude_contained.Cli.Config.{SyntaxFailure, Config}
use claude_contained.Cli.Parse.{parse_tokens}
use claude_contained.Cli.Command.{parse_tokens-FailuresKept}
use claude_contained.Cli.Validate.{
  failure_lines, is_session_byte, session_name_error, first_error, early_checks, late_checks,
  rename, validate_semantics, validate_parsed, validate_config,
}
use claude_contained.Host.Sanitize.Shape.{IsFolderName, sanitize_folder_name-IsFolderName}
use claude_contained.Base.{◌≡◌, refl, sym, ap, ◌∙◌, subst, ◌≢◌, inl, inr}
use claude_contained.Base.{
  Bool, true, false, not, ◌&&◌, ◌||◌, Option, none, some, arith, if◌then◌else◌, Bool-cases,
  Option-cases, is_some,
}
use claude_contained.Base.{List, [], ◌∷◌, ◌++◌, is_nil, every, any}
use claude_contained.Base.{Bytes, bytes, same, has_prefix}

-- The first of two as a condition for the second.
abbrev implies : Bool → Bool → Bool
implies a b = not a || b

abbrev is_session_name : Bytes → Bool
is_session_name name =
    not (is_nil name) && not (has_prefix name (bytes "-")) && every is_session_byte name

-- What the flags mean together, flag by flag.
abbrev pub is_consistent : Config → Bool
is_consistent cfg =
    is_nil cfg.parse.failures
    && implies cfg.zellij_new_session cfg.zellij_mode
    && implies cfg.zellij_session_name_set
        (cfg.zellij_mode && is_session_name cfg.zellij_session_name)
    && implies cfg.zellij_mode (is_nil cfg.attach_name)
    && implies (cfg.zellij_mode && cfg.attach_mode)
        (not cfg.shell_mode && is_nil cfg.env_flag_args && is_nil cfg.command)
    && implies cfg.attach_mode (
        is_nil cfg.custom_container_name
        && (is_nil cfg.command || cfg.parse.command_from_separator))
    && implies (not (is_nil cfg.command))
        (not cfg.shell_mode && same cfg.rebuild_mode (bytes "none"))
    && implies cfg.no_layer (is_nil cfg.layer_dir && not cfg.build_layer)

is_some-first_error :
    (checks : List (Bool × List Bytes)) (rest : Option (List Bytes))
    → is_some (first_error checks rest) ≡ (any (λ c. c.0) checks || is_some rest)
is_some-first_error [] rest = refl
is_some-first_error ((true, lines) ∷ checks) rest = refl
is_some-first_error ((false, lines) ∷ checks) rest = is_some-first_error checks rest

is_some-session_name_error :
    (name : Bytes) → is_some (session_name_error name) ≡ not (is_session_name name)
unfolding session_name_error
is_some-session_name_error name = ground arith

some-ne-none : (lines : List Bytes) → some lines ≢ none
some-ne-none lines e = cc

module _ (to_lower : Bytes → Bytes) where
  late_checks-rename : (cfg : Config) → late_checks (rename to_lower cfg) ≡ late_checks cfg
  late_checks-rename cfg = elim (Bool-cases (is_nil cfg.custom_container_name)) [
    | inl e ↦ rw e refl
    | inr e ↦ rw e refl
  ]

  abbrev session_error : Config → Option (List Bytes)
  session_error cfg =
      if cfg.zellij_session_name_set then session_name_error cfg.zellij_session_name else none

  is_some-session_error :
      (cfg : Config)
      → is_some (session_error cfg)
        ≡ (cfg.zellij_session_name_set && not (is_session_name cfg.zellij_session_name))
  is_some-session_error cfg = elim (Bool-cases cfg.zellij_session_name_set) [
    | inl e ↦ rw e (is_some-session_name_error cfg.zellij_session_name)
    | inr e ↦ rw e refl
  ]

  is_some-validate_semantics :
      (cfg : Config)
      → is_some (validate_semantics to_lower cfg).1 ≡ (
          is_some (first_error (early_checks cfg) (session_error cfg))
          || is_some (first_error (late_checks cfg) none))
  unfolding validate_semantics
  is_some-validate_semantics cfg =
      elim (Option-cases (first_error (early_checks cfg) (session_error cfg))) [
        | inl q ↦
            rw (q, validate_semantics)
              (ap (λ c. is_some (first_error c none)) (late_checks-rename cfg))
        | inr (lines, q) ↦ rw (q, validate_semantics) refl
      ]

  validate_parsed-is_consistent :
      (failures : List SyntaxFailure) (cfg : Config)
      → cfg.parse.failures ≡ failures
      → is_some (validate_parsed to_lower failures cfg).1 ≡ not (is_consistent cfg)
  unfolding validate_parsed
  validate_parsed-is_consistent [] cfg e =
      let early = is_some-first_error (early_checks cfg) (session_error cfg) in
      let late = is_some-first_error (late_checks cfg) none in
      is_some-validate_semantics cfg ∙ rw (early, late, is_some-session_error cfg, e) (ground arith)
  validate_parsed-is_consistent (x ∷ xs) cfg e = rw e refl

  -- `Validate` reports a usage error exactly when help was not requested and the flags do not go
  -- together: a parser failure was recorded, or one of the flags lacks or excludes another, the session
  -- name is none, or a command stands beside a flag that leaves it without a use.
  pub validate_config-is_consistent :
      (cfg : Config)
      → is_some (validate_config to_lower cfg).1 ≡ not (cfg.help_requested || is_consistent cfg)
  unfolding validate_config
  validate_config-is_consistent cfg = elim (Bool-cases cfg.help_requested) [
    | inl e ↦
        subst
          (λ b.
            is_some (if b then (cfg, none) else validate_parsed to_lower cfg.parse.failures cfg).1
            ≡ not (b || is_consistent cfg))
          (sym e) refl
    | inr e ↦
        subst
          (λ b.
            is_some (if b then (cfg, none) else validate_parsed to_lower cfg.parse.failures cfg).1
            ≡ not (b || is_consistent cfg))
          (sym e) (validate_parsed-is_consistent cfg.parse.failures cfg refl)
  ]

  -- Once the parser has recorded a failure with help not requested before it, whatever tokens follow,
  -- `Validate` reports the lines of that first failure.
  validate_config-first_failure :
      (args : List Bytes) (cfg : Config) (x : SyntaxFailure) (xs : List SyntaxFailure)
      → cfg.parse.failures ≡ x ∷ xs
      → cfg.help_requested ≡ false
      → let parsed = parse_tokens args cfg in
        (validate_config to_lower parsed).1 ≡ some (failure_lines parsed.parse.prog_name x)
  unfolding validate_config
  validate_config-first_failure args cfg x xs e h =
      let k = parse_tokens-FailuresKept args cfg in
      let parsed = parse_tokens args cfg in
      let no_help : parsed.help_requested ≡ false = ground (
        arith,
        subst (λ l. (is_nil l || not parsed.help_requested || cfg.help_requested) ≡ true) e k.help,
        h,
      ) in
      rw (no_help, validate_config) (rw (k.failures.1 ∙ ap (λ l. l ++ k.failures.0) e) refl)

  -- The name of a container as `--name` leaves it.
  abbrev IsContainerName : Bytes → Bytes → Type 0
  IsContainerName given name =
      if is_nil given
      then name ≡ []
      else ((folder : Bytes) × IsFolderName folder × (name ≡ bytes "aic-" ++ folder))

  is_nil-eq : (s : Bytes) → is_nil s ≡ true → s ≡ []
  is_nil-eq [] e = refl
  is_nil-eq (c ∷ s) e = cc

  rename-IsContainerName :
      (cfg : Config)
      → IsContainerName cfg.custom_container_name (rename to_lower cfg).custom_container_name
  rename-IsContainerName cfg = elim (Bool-cases (is_nil cfg.custom_container_name)) [
    | inl e ↦ rw e (is_nil-eq cfg.custom_container_name e)
    | inr e ↦ rw e (_, sanitize_folder_name-IsFolderName to_lower _, refl)
  ]

  validate_parsed-IsContainerName :
      (failures : List SyntaxFailure) (cfg : Config)
      → (validate_parsed to_lower failures cfg).1 ≡ none
      → IsContainerName cfg.custom_container_name
          (validate_parsed to_lower failures cfg).0.custom_container_name
  unfolding validate_parsed validate_semantics
  validate_parsed-IsContainerName [] cfg e =
      elim (Option-cases (first_error (early_checks cfg) (session_error cfg))) [
        | inl q ↦ rw (q, validate_semantics) (rename-IsContainerName cfg)
        | inr (lines, q) ↦ absurd (some-ne-none lines (rw (q, validate_semantics) at e))
      ]
  validate_parsed-IsContainerName (x ∷ xs) cfg e = absurd (some-ne-none _ e)

  -- When `Validate` accepts a command line that does not ask for help, the container name is empty if
  -- `--name` gave none, and else it is `aic-` with a sanitized folder name behind it.
  validate_config-IsContainerName :
      (cfg : Config)
      → cfg.help_requested ≡ false
      → (validate_config to_lower cfg).1 ≡ none
      → IsContainerName cfg.custom_container_name
          (validate_config to_lower cfg).0.custom_container_name
  unfolding validate_config
  validate_config-IsContainerName cfg h =
      subst
        (λ b.
          let r = if b then (cfg, none) else validate_parsed to_lower cfg.parse.failures cfg in
          (r.1 ≡ none → IsContainerName cfg.custom_container_name r.0.custom_container_name))
        (sym h) (validate_parsed-IsContainerName cfg.parse.failures cfg)
