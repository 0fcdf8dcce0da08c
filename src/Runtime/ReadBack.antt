-- ===== src/Runtime/ReadBack.antt =====
-- A rendered run, read the way a command line is: flags with values up to the image, then the command.
use claude_contained.Runtime.Spec.{
  Arg, memory_arg, name_arg, workdir_arg, port_arg, dns_arg, env_arg, label_arg, mount_arg, ssh_arg,
  host_gateway_arg, RunSpec,
}
use claude_contained.Runtime.Render.{
  assignment, render_mount, render_common_arg, or_own, apple_own_arg, render_args, apple_render_run,
}
use claude_contained.Base.{◌≡◌, refl, ap, ◌∙◌}
use claude_contained.Base.{true, false, if◌then◌else◌}
use claude_contained.Base.{List, [], ◌∷◌, ◌++◌, is_nil}
use claude_contained.Base.{Bytes, bytes, same, has_prefix}

-- The values of `-e`, and what follows the flags. Only `--ssh` takes no value.
unfoldable pub read_flags : List Bytes → List Bytes × List Bytes
read_flags [] = ([], [])
read_flags (f ∷ []) = if has_prefix f (bytes "-") then ([], []) else ([], f ∷ [])
read_flags (f ∷ v ∷ rest) = elim (has_prefix f (bytes "-")) [
  | false ↦ ([], f ∷ v ∷ rest)
  | true ↦ elim (same f (bytes "--ssh")) [
    | true ↦ read_flags (v ∷ rest)
    | false ↦ let r = read_flags rest in if same f (bytes "-e") then (v ∷ r.0, r.1) else r
  ]
]

-- Behind the program, `run`, `--rm` and `-it`.
abbrev pub read_run : List Bytes → List Bytes × List Bytes
read_run (program ∷ run ∷ rm ∷ it ∷ rest) = read_flags rest
read_run argv = ([], [])

abbrev pub assignments : List Arg → List Bytes
assignments [] = []
assignments (env_arg k v ∷ args) = assignment k v ∷ assignments args
assignments (a ∷ args) = assignments args

read_flags-ssh :
    (rest : List Bytes) → is_nil rest ≡ false → read_flags (bytes "--ssh" ∷ rest) ≡ read_flags rest
unfolding read_flags same has_prefix
read_flags-ssh [] e = cc
read_flags-ssh (v ∷ rest) e = refl

append-ne : (xs ys : List Bytes) → is_nil ys ≡ false → is_nil (xs ++ ys) ≡ false
append-ne [] ys e = e
append-ne (x ∷ xs) ys e = refl

render_args-ne :
    (args : List Arg) (image : Bytes) (command : List Bytes)
    → is_nil (render_args apple_own_arg args (image ∷ command)) ≡ false
unfolding render_args
render_args-ne [] image command = refl
render_args-ne (a ∷ args) image command =
    append-ne (or_own (render_common_arg a) (apple_own_arg a))
      (render_args apple_own_arg args (image ∷ command)) (render_args-ne args image command)

read_flags-image :
    (image : Bytes) (command : List Bytes)
    → has_prefix image (bytes "-") ≡ false
    → read_flags (image ∷ command) ≡ ([], image ∷ command)
unfolding read_flags has_prefix
read_flags-image image [] e = rw e refl
read_flags-image image (c ∷ command) e = rw e refl

read_flags-render_args :
    (args : List Arg) (image : Bytes) (command : List Bytes)
    → has_prefix image (bytes "-") ≡ false
    → read_flags (render_args apple_own_arg args (image ∷ command))
      ≡ (assignments args, image ∷ command)
unfolding render_args render_common_arg render_mount apple_own_arg read_flags same has_prefix
read_flags-render_args [] image command e = read_flags-image image command e
read_flags-render_args (memory_arg v ∷ args) image command e =
    read_flags-render_args args image command e
read_flags-render_args (name_arg v ∷ args) image command e =
    read_flags-render_args args image command e
read_flags-render_args (workdir_arg v ∷ args) image command e =
    read_flags-render_args args image command e
read_flags-render_args (port_arg v ∷ args) image command e =
    read_flags-render_args args image command e
read_flags-render_args (dns_arg v ∷ args) image command e =
    read_flags-render_args args image command e
read_flags-render_args (mount_arg s d r ∷ args) image command e =
    read_flags-render_args args image command e
read_flags-render_args (env_arg k v ∷ args) image command e =
    ap (λ r. (assignment k v ∷ r.0, r.1)) (read_flags-render_args args image command e)
read_flags-render_args (label_arg k v ∷ args) image command e =
    read_flags-render_args args image command e
read_flags-render_args (host_gateway_arg ∷ args) image command e =
    read_flags-render_args args image command e
read_flags-render_args (ssh_arg ∷ args) image command e =
    read_flags-ssh (render_args apple_own_arg args (image ∷ command))
      (render_args-ne args image command)
    ∙ read_flags-render_args args image command e

-- When the image does not start with a dash, a run rendered for Apple Containers and read as a command
-- line gives back exactly the assignments of its environment arguments, in order, then the image and
-- the command unchanged: no value is taken for a flag and no flag for a value.
pub read_run-apple_render_run :
    (spec : RunSpec)
    → has_prefix spec.image (bytes "-") ≡ false
    → read_run (apple_render_run spec) ≡ (assignments spec.args, spec.image ∷ spec.command)
unfolding apple_render_run
read_run-apple_render_run spec e = read_flags-render_args spec.args spec.image spec.command e
