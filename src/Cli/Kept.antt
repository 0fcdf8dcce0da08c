-- ===== src/Cli/Kept.antt =====
-- What one flag and the whole loop of `Parse` leave as it was.
use claude_contained.Cli.Config.{SyntaxFailure, Config}
use claude_contained.Cli.Arms.{
  Field, dir_field, mount_field, name_field, session_field, build_context_field, layer_field,
  log_level_field, log_file_field, share_skills_field, env_field, port_field, host_field, dns_field,
  allow_host_field, Switch, build_layer_switch, no_layer_switch, log_only_switch,
  readonly_extras_switch, share_host_claude_switch, shell_switch, ssh_switch, worktree_switch,
  lock_worktrees_switch, node_modules_switch, no_project_env_switch, no_sandbox_switch,
  zellij_switch, new_session_switch, Arm, help_arm, runtime_arm, rebuild_arm, rebuild_mode_arm,
  yolo_arm, tool_arm, new_session_value_arm, attach_arm, unknown_arm, separate_arm, inline_arm,
  inline_runtime_arm, inline_rebuild_arm, switch_arm,
}
use claude_contained.Cli.Parse.{
  set_field, set_switch, EmptyValue, accepted, assigned_and_recorded, only_recorded, inline_empty,
  set_empty, record_failure, is_missing, next_of, set_inline, step,
}
use claude_contained.Cli.Config.{SyntaxFailure, Config}
use claude_contained.Cli.Arms.{
  Field, dir_field, mount_field, name_field, session_field, build_context_field, layer_field,
  log_level_field, log_file_field, share_skills_field, env_field, port_field, host_field, dns_field,
  allow_host_field, Switch, build_layer_switch, no_layer_switch, log_only_switch,
  readonly_extras_switch, share_host_claude_switch, shell_switch, ssh_switch, worktree_switch,
  lock_worktrees_switch, node_modules_switch, no_project_env_switch, no_sandbox_switch,
  zellij_switch, new_session_switch, Arm, help_arm, runtime_arm, rebuild_arm, rebuild_mode_arm,
  yolo_arm, tool_arm, new_session_value_arm, attach_arm, unknown_arm, separate_arm, inline_arm,
  inline_runtime_arm, inline_rebuild_arm, switch_arm,
}
use claude_contained.Cli.Parse.{
  set_field, set_switch, EmptyValue, accepted, assigned_and_recorded, only_recorded, inline_empty,
  set_empty, record_failure, is_missing, next_of, set_inline, step,
}
use claude_contained.Base.{◌≡◌, refl, sym, subst}
use claude_contained.Base.{Bool, true, false, not, ◌||◌, arith, if◌then◌else◌}
use claude_contained.Base.{List, [], ◌∷◌, ◌++◌, append-nil, is_nil, Extends, Extends-trans}
use claude_contained.Base.{Bytes, bytes, has_prefix}

-- Failures are only added, and with a failure recorded help is not requested any more.
pub record FailuresKept (a b : Config) : Type 0 where
  pub failures : Extends b.parse.failures a.parse.failures
  pub help : (is_nil a.parse.failures || not b.help_requested || a.help_requested) ≡ true

pub record CommandKept (a b : Config) : Type 0 where
  pub command : b.command ≡ a.command
  pub separator : b.parse.command_from_separator ≡ a.parse.command_from_separator

-- A configuration that differs in neither, but for the failures.
pub record IsBeside (a b : Config) : Type 0 where
  pub parse : b.parse ≡ a.parse
  pub help : b.help_requested ≡ a.help_requested
  pub command : b.command ≡ a.command

IsBeside-refl : (a : Config) → IsBeside a a
IsBeside-refl a = record { parse = refl; help = refl; command = refl }

pub set_field-IsBeside : (f : Field) (v : Bytes) (cfg : Config) → IsBeside cfg (set_field f v cfg)
set_field-IsBeside f v cfg = elim f as (λ k. IsBeside cfg (set_field k v cfg)) [
  | dir_field ↦ record { parse = refl; help = refl; command = refl }
  | mount_field ↦ record { parse = refl; help = refl; command = refl }
  | name_field ↦ record { parse = refl; help = refl; command = refl }
  | session_field ↦ record { parse = refl; help = refl; command = refl }
  | build_context_field ↦ record { parse = refl; help = refl; command = refl }
  | layer_field ↦ record { parse = refl; help = refl; command = refl }
  | log_level_field ↦ record { parse = refl; help = refl; command = refl }
  | log_file_field ↦ record { parse = refl; help = refl; command = refl }
  | share_skills_field ↦ record { parse = refl; help = refl; command = refl }
  | env_field ↦ record { parse = refl; help = refl; command = refl }
  | port_field ↦ record { parse = refl; help = refl; command = refl }
  | host_field ↦ record { parse = refl; help = refl; command = refl }
  | dns_field ↦ record { parse = refl; help = refl; command = refl }
  | allow_host_field ↦ record { parse = refl; help = refl; command = refl }
]

set_switch-IsBeside : (s : Switch) (cfg : Config) → IsBeside cfg (set_switch s cfg)
set_switch-IsBeside s cfg = elim s as (λ k. IsBeside cfg (set_switch k cfg)) [
  | build_layer_switch ↦ record { parse = refl; help = refl; command = refl }
  | no_layer_switch ↦ record { parse = refl; help = refl; command = refl }
  | log_only_switch ↦ record { parse = refl; help = refl; command = refl }
  | readonly_extras_switch ↦ record { parse = refl; help = refl; command = refl }
  | share_host_claude_switch ↦ record { parse = refl; help = refl; command = refl }
  | shell_switch ↦ record { parse = refl; help = refl; command = refl }
  | ssh_switch ↦ record { parse = refl; help = refl; command = refl }
  | worktree_switch ↦ record { parse = refl; help = refl; command = refl }
  | lock_worktrees_switch ↦ record { parse = refl; help = refl; command = refl }
  | node_modules_switch ↦ record { parse = refl; help = refl; command = refl }
  | no_project_env_switch ↦ record { parse = refl; help = refl; command = refl }
  | no_sandbox_switch ↦ record { parse = refl; help = refl; command = refl }
  | zellij_switch ↦ record { parse = refl; help = refl; command = refl }
  | new_session_switch ↦ record { parse = refl; help = refl; command = refl }
]

not_newly : (test b : Bool) → (test || not b || b) ≡ true
not_newly test b = ground arith

-- Both at once.
abbrev pub Kept : Config → Config → Type 0
Kept a b = FailuresKept a b × CommandKept a b

IsBeside-Kept : (a b : Config) → IsBeside a b → Kept a b
IsBeside-Kept a b h = (
  record {
    failures = ([], rw (h.parse) (sym (append-nil a.parse.failures)));
    help = rw (h.help) (not_newly (is_nil a.parse.failures) a.help_requested);
  },
  record { command = h.command; separator = rw (h.parse) refl },
)

record_failure-Kept :
    (x : SyntaxFailure) (a b : Config) → IsBeside a b → Kept a (record_failure x b)
record_failure-Kept x a b h = (
  record {
    failures = (x ∷ [], rw (h.parse) refl);
    help = rw (h.help) (not_newly (is_nil a.parse.failures) a.help_requested);
  },
  record { command = h.command; separator = rw (h.parse) refl },
)

if-Kept : (test : Bool) (a b c : Config) → Kept a b → Kept a c → Kept a (if test then b else c)
if-Kept true a b c h k = h
if-Kept false a b c h k = k

set_empty-Kept : (e : EmptyValue) (f : Field) (cfg : Config) → Kept cfg (set_empty e f cfg)
set_empty-Kept accepted f cfg = IsBeside-Kept cfg _ (set_field-IsBeside f [] cfg)
set_empty-Kept (assigned_and_recorded label wanted) f cfg =
    record_failure-Kept _ cfg (set_field f [] cfg) (set_field-IsBeside f [] cfg)
set_empty-Kept (only_recorded label wanted) f cfg =
    record_failure-Kept _ cfg cfg (IsBeside-refl cfg)

set_inline-Kept : (f : Field) (v : Bytes) (cfg : Config) → Kept cfg (set_inline f v cfg)
unfolding set_inline
set_inline-Kept f v cfg =
    if-Kept (is_nil v) cfg _ _ (set_empty-Kept (inline_empty f) f cfg)
      (IsBeside-Kept cfg _ (set_field-IsBeside f v cfg))

refused_or :
    (test : Bool) (x : SyntaxFailure) (a b c : Config)
    → IsBeside a b
    → IsBeside a c
    → Kept a (if test then record_failure x b else c)
refused_or test x a b c h k = if-Kept test a _ _ (record_failure-Kept x a b h) (IsBeside-Kept a c k)

help-FailuresKept :
    (cfg : Config) (test : Bool)
    → is_nil cfg.parse.failures ≡ test
    → Kept cfg (if test then record cfg { help_requested = true } else cfg)
help-FailuresKept cfg true e = (
  record { failures = ([], sym (append-nil cfg.parse.failures)); help = rw e refl },
  record { command = refl; separator = refl },
)
help-FailuresKept cfg false e = IsBeside-Kept cfg cfg (IsBeside-refl cfg)

if-pair-Kept :
    (test : Bool) (a : Config) (r s : Config × Bool)
    → Kept a r.0
    → Kept a s.0
    → Kept a (if test then r else s).0
if-pair-Kept true a r s h k = h
if-pair-Kept false a r s h k = k

pub step-Kept :
    (arm : Arm) (arg : Bytes) (rest : List Bytes) (cfg : Config)
    → Kept cfg (step arm arg rest cfg).0
unfolding step
step-Kept help_arm arg rest cfg = help-FailuresKept cfg (is_nil cfg.parse.failures) refl
step-Kept (separate_arm f) arg rest cfg =
    refused_or _ _ cfg _ _ (IsBeside-refl cfg) (set_field-IsBeside f (next_of rest) cfg)
step-Kept (inline_arm f v) arg rest cfg = set_inline-Kept f v cfg
step-Kept runtime_arm arg rest cfg =
    if-pair-Kept (is_nil rest || has_prefix (next_of rest) (bytes "-")) cfg _ _
      (record_failure-Kept _ cfg cfg (IsBeside-refl cfg))
      (refused_or (is_missing (next_of rest)) _ cfg
        (record cfg { container_runtime = next_of rest })
        (record cfg { container_runtime = next_of rest })
        (record { parse = refl; help = refl; command = refl })
        (record { parse = refl; help = refl; command = refl }))
step-Kept (inline_runtime_arm v) arg rest cfg =
    refused_or (is_nil v) _ cfg (record cfg { container_runtime = v })
      (record cfg { container_runtime = v }) (record { parse = refl; help = refl; command = refl })
      (record { parse = refl; help = refl; command = refl })
step-Kept (switch_arm s) arg rest cfg = IsBeside-Kept cfg _ (set_switch-IsBeside s cfg)
step-Kept rebuild_arm arg rest cfg =
    IsBeside-Kept cfg _ (record { parse = refl; help = refl; command = refl })
step-Kept (inline_rebuild_arm v) arg rest cfg =
    IsBeside-Kept cfg _ (record { parse = refl; help = refl; command = refl })
step-Kept rebuild_mode_arm arg rest cfg =
    if-pair-Kept (is_missing (next_of rest)) cfg _ _
      (IsBeside-Kept cfg _ (record { parse = refl; help = refl; command = refl }))
      (IsBeside-Kept cfg _ (record { parse = refl; help = refl; command = refl }))
step-Kept yolo_arm arg rest cfg = record_failure-Kept _ cfg cfg (IsBeside-refl cfg)
step-Kept tool_arm arg rest cfg = record_failure-Kept _ cfg cfg (IsBeside-refl cfg)
step-Kept new_session_value_arm arg rest cfg = record_failure-Kept _ cfg cfg (IsBeside-refl cfg)
step-Kept attach_arm arg rest cfg =
    if-pair-Kept (is_missing (next_of rest)) cfg _ _
      (IsBeside-Kept cfg _ (record { parse = refl; help = refl; command = refl }))
      (IsBeside-Kept cfg _ (record { parse = refl; help = refl; command = refl }))
step-Kept unknown_arm arg rest cfg = record_failure-Kept _ cfg cfg (IsBeside-refl cfg)

append-cons-ne :
    {A : Type 0} (xs : List A) (more : List A) → (is_nil xs || not (is_nil (xs ++ more))) ≡ true
append-cons-ne [] more = refl
append-cons-ne (x ∷ xs) more = refl

pub FailuresKept-trans : (a b c : Config) → FailuresKept a b → FailuresKept b c → FailuresKept a c
FailuresKept-trans a b c h k = record {
  failures = Extends-trans a.parse.failures b.parse.failures c.parse.failures k.failures h.failures;
  help =
      let later = append-cons-ne a.parse.failures h.failures.0 in
      let later' =
        subst (λ l. (is_nil a.parse.failures || not (is_nil l)) ≡ true) (sym h.failures.1) later in
      ground (arith, h.help, k.help, later');
}

pub FailuresKept-refl : (a : Config) → FailuresKept a a
FailuresKept-refl a = (IsBeside-Kept a a (IsBeside-refl a)).0
