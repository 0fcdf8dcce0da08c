-- ===== src/Cli/Command.antt =====
-- The loop of `Parse`: the failures, and the command at the end of the tokens.
use claude_contained.Cli.Config.{command_flag, SyntaxFailure, Config, initial_config}
use claude_contained.Cli.Arms.{arm_of}
use claude_contained.Cli.Parse.{next_of, step, separated, parse_tokens, parse}
use claude_contained.Cli.Kept.{FailuresKept, step-Kept, FailuresKept-trans, FailuresKept-refl}
use claude_contained.Cli.Parse.{failure}
use claude_contained.Cli.Config.{command_flag, SyntaxFailure}
use claude_contained.Base.{◌≡◌, refl, sym, ap, ◌∙◌, inl, inr}
use claude_contained.Base.{Bool, true, false, not, ◌||◌, arith, Bool-cases}
use claude_contained.Base.{List, [], ◌∷◌, ◌++◌, append-nil, is_nil}
use claude_contained.Base.{Bytes, bytes, same, same_iff, after_prefix, has_prefix, join}

separated-FailuresKept : (rest : List Bytes) (cfg : Config) → FailuresKept cfg (separated rest cfg)
unfolding separated
separated-FailuresKept rest cfg =
    elim (Bool-cases (has_prefix (next_of (cfg.command ++ rest)) (bytes "-"))) [
      | inl e ↦
          rw (e, separated) (record { failures = (_, refl); help = (FailuresKept-refl cfg).help })
      | inr e ↦
          rw (e, separated)
            (record {
              failures = (FailuresKept-refl cfg).failures;
              help = (FailuresKept-refl cfg).help;
            })
    ]

-- Over any tokens, the failures recorded before stay in front of those that are added, and with a
-- failure recorded no later token requests help.
pub parse_tokens-FailuresKept :
    (args : List Bytes) (cfg : Config) → FailuresKept cfg (parse_tokens args cfg)
unfolding parse_tokens
parse_tokens-FailuresKept [] cfg = FailuresKept-refl cfg
parse_tokens-FailuresKept (arg ∷ []) cfg = elim (Bool-cases (same arg (bytes "--"))) [
  | inl e ↦ rw (e, parse_tokens) (separated-FailuresKept [] cfg)
  | inr e ↦ elim (Bool-cases (has_prefix arg (bytes "-"))) [
    | inl d ↦ rw (e, d, parse_tokens) (step-Kept (arm_of arg) arg [] cfg).0
    | inr d ↦
        rw (e, d, parse_tokens)
          (record {
            failures = (FailuresKept-refl cfg).failures;
            help = (FailuresKept-refl cfg).help;
          })
  ]
]
parse_tokens-FailuresKept (arg ∷ next ∷ rest) cfg = elim (Bool-cases (same arg (bytes "--"))) [
  | inl e ↦ rw (e, parse_tokens) (separated-FailuresKept (next ∷ rest) cfg)
  | inr e ↦ elim (Bool-cases (has_prefix arg (bytes "-"))) [
    | inl d ↦
        let r = step (arm_of arg) arg (next ∷ rest) cfg in
        let k = (step-Kept (arm_of arg) arg (next ∷ rest) cfg).0 in
        elim (Bool-cases (r.1)) [
          | inl c ↦
              rw (e, d, c, parse_tokens)
                (FailuresKept-trans _ _ _ k (parse_tokens-FailuresKept rest r.0))
          | inr c ↦
              rw (e, d, c, parse_tokens)
                (FailuresKept-trans _ _ _ k (parse_tokens-FailuresKept (next ∷ rest) r.0))
        ]
    | inr d ↦
        rw (e, d, parse_tokens)
          (record {
            failures = (FailuresKept-refl cfg).failures;
            help = (FailuresKept-refl cfg).help;
          })
  ]
]

abbrev marker : Bool → List Bytes
marker true = bytes "--" ∷ []
marker false = []

-- The command is the end of the tokens, behind `--` if that introduced it, and else it is empty or its
-- first token is no flag. With no failure recorded it is no flag in either case.
pub record IsCommandOf (args : List Bytes) (cfg : Config) : Type 0 where
  pub front : List Bytes
  pub tokens : args ≡ front ++ marker cfg.parse.command_from_separator ++ cfg.command
  pub program :
      (cfg.parse.command_from_separator || not (has_prefix (next_of cfg.command) (bytes "-")))
      ≡ true
  pub no_flag :
      (not (is_nil cfg.parse.failures) || not (has_prefix (next_of cfg.command) (bytes "-"))) ≡ true

or_true : (b : Bool) → (b || true) ≡ true
or_true b = ground arith

snoc-ne : (xs : List SyntaxFailure) (x : SyntaxFailure) → is_nil (xs ++ x ∷ []) ≡ false
snoc-ne [] x = refl
snoc-ne (y ∷ xs) x = refl

IsCommandOf-cons :
    (arg : Bytes) (args : List Bytes) (cfg : Config)
    → IsCommandOf args cfg
    → IsCommandOf (arg ∷ args) cfg
IsCommandOf-cons arg args cfg c = record {
  front = arg ∷ c.front;
  tokens = ap (λ l. arg ∷ l) c.tokens;
  program = c.program;
  no_flag = c.no_flag;
}

no_command :
    (args : List Bytes) (cfg : Config)
    → cfg.command ≡ []
    → cfg.parse.command_from_separator ≡ false
    → IsCommandOf args cfg
unfolding has_prefix after_prefix
no_command args cfg c s = record {
  front = args;
  tokens = rw (c, s) (sym (append-nil (args ++ []) ∙ append-nil args));
  program = rw (c, s) refl;
  no_flag = rw c (or_true (not (is_nil cfg.parse.failures)));
}

separated-IsCommandOf :
    (arg : Bytes) (rest : List Bytes) (cfg : Config)
    → same arg (bytes "--") ≡ true
    → cfg.command ≡ []
    → IsCommandOf (arg ∷ rest) (separated rest cfg)
unfolding separated
separated-IsCommandOf arg rest cfg e c =
    let a = (same_iff arg (bytes "--")).0 e in
    elim (Bool-cases (has_prefix (next_of rest) (bytes "-"))) [
      | inl d ↦
          rw (c, d, separated)
            (record {
              front = [];
              tokens = ap (λ x. x ∷ rest) a;
              program = refl;
              no_flag =
                  rw
                    (snoc-ne cfg.parse.failures (record (failure command_flag) {
                      flag = next_of rest;
                      value = join (bytes " ") rest;
                    }))
                    refl;
            })
      | inr d ↦
          rw (c, d, separated)
            (record {
              front = [];
              tokens = ap (λ x. x ∷ rest) a;
              program = refl;
              no_flag = rw d (or_true (not (is_nil cfg.parse.failures)));
            })
    ]

bare-IsCommandOf :
    (arg : Bytes) (rest : List Bytes) (cfg : Config)
    → has_prefix arg (bytes "-") ≡ false
    → cfg.parse.command_from_separator ≡ false
    → IsCommandOf (arg ∷ rest) (record cfg { command = arg ∷ rest })
bare-IsCommandOf arg rest cfg d s = record {
  front = [];
  tokens = rw s refl;
  program = rw (s, d) refl;
  no_flag = rw d (or_true (not (is_nil cfg.parse.failures)));
}

parse_tokens-IsCommandOf :
    (args : List Bytes) (cfg : Config)
    → cfg.command ≡ []
    → cfg.parse.command_from_separator ≡ false
    → IsCommandOf args (parse_tokens args cfg)
unfolding parse_tokens
parse_tokens-IsCommandOf [] cfg c s = no_command [] cfg c s
parse_tokens-IsCommandOf (arg ∷ []) cfg c s = elim (Bool-cases (same arg (bytes "--"))) [
  | inl e ↦ rw (e, parse_tokens) (separated-IsCommandOf arg [] cfg e c)
  | inr e ↦ elim (Bool-cases (has_prefix arg (bytes "-"))) [
    | inl d ↦
        let k = (step-Kept (arm_of arg) arg [] cfg).1 in
        rw (e, d, parse_tokens) (no_command (arg ∷ []) _ (k.command ∙ c) (k.separator ∙ s))
    | inr d ↦ rw (e, d, parse_tokens) (bare-IsCommandOf arg [] cfg d s)
  ]
]
parse_tokens-IsCommandOf (arg ∷ next ∷ rest) cfg c s = elim (Bool-cases (same arg (bytes "--"))) [
  | inl e ↦ rw (e, parse_tokens) (separated-IsCommandOf arg (next ∷ rest) cfg e c)
  | inr e ↦ elim (Bool-cases (has_prefix arg (bytes "-"))) [
    | inl d ↦
        let r = step (arm_of arg) arg (next ∷ rest) cfg in
        let k = (step-Kept (arm_of arg) arg (next ∷ rest) cfg).1 in
        let c' = k.command ∙ c in
        let s' = k.separator ∙ s in
        elim (Bool-cases (r.1)) [
          | inl b ↦
              rw (e, d, b, parse_tokens)
                (IsCommandOf-cons arg _ _
                  (IsCommandOf-cons next rest _ (parse_tokens-IsCommandOf rest r.0 c' s')))
          | inr b ↦
              rw (e, d, b, parse_tokens)
                (IsCommandOf-cons arg _ _ (parse_tokens-IsCommandOf (next ∷ rest) r.0 c' s'))
        ]
    | inr d ↦ rw (e, d, parse_tokens) (bare-IsCommandOf arg (next ∷ rest) cfg d s)
  ]
]

-- For any tokens, the command that `Parse` finds is the tokens behind some front, unchanged and in
-- order: right behind a `--` at the end of the front if it is marked as separated, and else it is empty
-- or its first token does not start with a dash. With no failure recorded it does not start with a dash
-- in either case.
pub parse-IsCommandOf :
    (args : List Bytes) (prog_name : Bytes) (share : Bool)
    → IsCommandOf args (parse args prog_name share)
unfolding parse
parse-IsCommandOf args prog_name share =
    parse_tokens-IsCommandOf args (initial_config prog_name share) refl refl
