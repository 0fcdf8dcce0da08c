-- ===== src/Runtime/Redaction.antt =====
-- The command lines that internal/runtime/diagnostic.go lets a log record show.
use claude_contained.Env.Store.{valid_key}
use claude_contained.Runtime.Spec.{
  Arg, memory_arg, name_arg, workdir_arg, port_arg, dns_arg, env_arg, label_arg, mount_arg, ssh_arg,
  host_gateway_arg,
}
use claude_contained.Runtime.Render.{
  Platform, assignment, render_common_arg, or_own, render_args, docker_own_arg, docker_render_run,
  apple_own_arg, apple_render_run,
}
use claude_contained.Base.{◌≡◌, refl, sym, ap, ◌∙◌}
use claude_contained.Base.{
  Bool, true, false, Option, none, some, arith, if◌then◌else◌, and_left, and_right,
}
use claude_contained.Base.{List, [], ◌∷◌, ◌++◌, map, every}
use claude_contained.Base.{Bytes, bytes, same, cut, is_free_of, cut-append}

abbrev pub redacted : Bytes
redacted = bytes "<redacted>"

abbrev pub env_flag : Bytes
env_flag = bytes "-e"

-- `diagnosticEnvKey`, which is the test of internal/env on a name.
unfoldable pub diagnostic_env_key : Bytes → Bool
unfolding valid_key
diagnostic_env_key key = valid_key key

unfoldable pub redact_cut : Option (Bytes × Bytes) → Bytes
unfolding diagnostic_env_key
redact_cut none = redacted
redact_cut (some (key, value)) = if diagnostic_env_key key then key ++ b'=' ∷ redacted else redacted

unfoldable pub redact_operand : Bytes → Bytes
unfolding redact_cut
redact_operand operand = redact_cut (cut b'=' operand)

-- The loop; the flag is whether the argument before is `-e`.
unfoldable pub redact_from : Bool → List Bytes → List Bytes
unfolding redact_operand same
redact_from true [] = redacted ∷ []
redact_from false [] = []
redact_from true (a ∷ argv) =
    let again = redact_from true argv in
    let on = redact_from false argv in
    if same a env_flag then redacted ∷ a ∷ again else redact_operand a ∷ on
redact_from false (a ∷ argv) = a ∷ redact_from (same a env_flag) argv

unfoldable pub redact_diagnostic_argv : List Bytes → List Bytes
unfolding redact_from
redact_diagnostic_argv = redact_from false

-- The argument with another value, when it sets an environment variable.
abbrev pub with_value : (Bytes → Bytes → Bytes) → Arg → Arg
with_value value (env_arg k v) = env_arg k (value k v)
with_value value a = a

abbrev pub has_plain_key : Arg → Bool
has_plain_key (env_arg k v) = is_free_of b'=' k
has_plain_key a = true

assignment_ne : (k v : Bytes) → same (assignment k v) env_flag ≡ false
unfolding same
assignment_ne [] v = refl
assignment_ne (c ∷ []) v = ground arith
assignment_ne (c ∷ d ∷ []) v = ground arith
assignment_ne (c ∷ d ∷ e ∷ k) v = ground arith

redact_operand-assignment :
    (k v v' : Bytes)
    → is_free_of b'=' k ≡ true
    → redact_operand (assignment k v) ≡ redact_operand (assignment k v')
unfolding redact_operand redact_cut
redact_operand-assignment k v v' h =
    ap redact_cut (cut-append b'=' k v h) ∙ sym (ap redact_cut (cut-append b'=' k v' h))

redact_from-assignment :
    (k v : Bytes) (argv : List Bytes)
    → redact_from true (assignment k v ∷ argv)
      ≡ redact_operand (assignment k v) ∷ redact_from false argv
unfolding redact_from
redact_from-assignment k v argv = rw (assignment_ne k v) refl

redact_from-flag :
    (b : Bool) (argv : List Bytes)
    → redact_from b (env_flag ∷ argv) ≡ (
        if b then redacted ∷ env_flag ∷ redact_from true argv else env_flag ∷ redact_from true argv)
unfolding redact_from same
redact_from-flag true argv = refl
redact_from-flag false argv = refl

-- Nothing tells the two apart in a log record, whatever the argument in front of them.
abbrev LooksAlike : List Bytes → List Bytes → Type 0
LooksAlike x y = (b : Bool) → redact_from b x ≡ redact_from b y

word-LooksAlike : (w : Bytes) (x y : List Bytes) → LooksAlike x y → LooksAlike (w ∷ x) (w ∷ y)
unfolding redact_from
word-LooksAlike w x y e true = rw (e true, e false) refl
word-LooksAlike w x y e false = ap (λ l. w ∷ l) (e (same w env_flag))

append-LooksAlike :
    (ws : List Bytes) (x y : List Bytes) → LooksAlike x y → LooksAlike (ws ++ x) (ws ++ y)
append-LooksAlike [] x y e = e
append-LooksAlike (w ∷ ws) x y e =
    word-LooksAlike w (ws ++ x) (ws ++ y) (append-LooksAlike ws x y e)

assignment-LooksAlike :
    (k v v' : Bytes) (x y : List Bytes)
    → is_free_of b'=' k ≡ true
    → LooksAlike x y
    → LooksAlike (env_flag ∷ assignment k v ∷ x) (env_flag ∷ assignment k v' ∷ y)
assignment-LooksAlike k v v' x y h e b =
    rw
      (
        redact_from-flag b (assignment k v ∷ x),
        redact_from-flag b (assignment k v' ∷ y),
        redact_from-assignment k v x,
        redact_from-assignment k v' y,
        redact_operand-assignment k v v' h,
        e false,
      )
      refl

abbrev argv_of : (Arg → List Bytes) → Arg → List Bytes
argv_of own a = or_own (render_common_arg a) (own a)

with_value-LooksAlike :
    (value : Bytes → Bytes → Bytes) (own : Arg → List Bytes) (a : Arg) (x y : List Bytes)
    → has_plain_key a ≡ true
    → LooksAlike x y
    → LooksAlike (argv_of own a ++ x) (argv_of own (with_value value a) ++ y)
unfolding render_common_arg
with_value-LooksAlike value own (env_arg k v) x y h e =
    assignment-LooksAlike k v (value k v) x y h e
with_value-LooksAlike value own (memory_arg v) x y h e =
    append-LooksAlike (argv_of own (memory_arg v)) x y e
with_value-LooksAlike value own (name_arg v) x y h e =
    append-LooksAlike (argv_of own (name_arg v)) x y e
with_value-LooksAlike value own (workdir_arg v) x y h e =
    append-LooksAlike (argv_of own (workdir_arg v)) x y e
with_value-LooksAlike value own (port_arg v) x y h e =
    append-LooksAlike (argv_of own (port_arg v)) x y e
with_value-LooksAlike value own (dns_arg v) x y h e =
    append-LooksAlike (argv_of own (dns_arg v)) x y e
with_value-LooksAlike value own (label_arg k v) x y h e =
    append-LooksAlike (argv_of own (label_arg k v)) x y e
with_value-LooksAlike value own (mount_arg s d r) x y h e =
    append-LooksAlike (argv_of own (mount_arg s d r)) x y e
with_value-LooksAlike value own ssh_arg x y h e = append-LooksAlike (argv_of own ssh_arg) x y e
with_value-LooksAlike value own host_gateway_arg x y h e =
    append-LooksAlike (argv_of own host_gateway_arg) x y e

render_args-LooksAlike :
    (value : Bytes → Bytes → Bytes) (own : Arg → List Bytes) (args : List Arg) (rest : List Bytes)
    → every has_plain_key args ≡ true
    → LooksAlike (render_args own args rest) (render_args own (map (with_value value) args) rest)
unfolding render_args
render_args-LooksAlike value own [] rest h = λ b. refl
render_args-LooksAlike value own (a ∷ args) rest h =
    with_value-LooksAlike value own a (render_args own args rest)
      (render_args own (map (with_value value) args) rest)
      (and_left (has_plain_key a) (every has_plain_key args) h)
      (render_args-LooksAlike value own args rest
        (and_right (has_plain_key a) (every has_plain_key args) h))

-- What a log record shows of a rendered run, with either runtime, does not depend on the values that
-- the run gives to environment variables, when no key of these has an equals sign.
pub redact_diagnostic_argv-with_value :
    (value : Bytes → Bytes → Bytes) (p : Platform) (sock : Bytes) (args : List Arg) (image : Bytes)
    (command : List Bytes)
    → every has_plain_key args ≡ true
    → (redact_diagnostic_argv
          (docker_render_run p sock (record { args = args; image = image; command = command }))
        ≡ redact_diagnostic_argv (
            docker_render_run p sock
              (record { args = map (with_value value) args; image = image; command = command })))
      × (redact_diagnostic_argv
            (apple_render_run (record { args = args; image = image; command = command }))
          ≡ redact_diagnostic_argv (
              apple_render_run
                (record { args = map (with_value value) args; image = image; command = command })))
unfolding redact_diagnostic_argv docker_render_run apple_render_run
redact_diagnostic_argv-with_value value p sock args image command h = (
  append-LooksAlike (bytes "docker" ∷ bytes "run" ∷ bytes "--rm" ∷ bytes "-it" ∷ [])
      (render_args (docker_own_arg p sock) args (image ∷ command))
      (render_args (docker_own_arg p sock) (map (with_value value) args) (image ∷ command))
      (render_args-LooksAlike value (docker_own_arg p sock) args (image ∷ command) h) false,
  append-LooksAlike (bytes "container" ∷ bytes "run" ∷ bytes "--rm" ∷ bytes "-it" ∷ [])
      (render_args apple_own_arg args (image ∷ command))
      (render_args apple_own_arg (map (with_value value) args) (image ∷ command))
      (render_args-LooksAlike value apple_own_arg args (image ∷ command) h) false,
)
