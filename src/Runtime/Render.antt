-- ===== src/Runtime/Render.antt =====
-- internal/runtime/runtime.go, docker.go and apple.go: the command lines. The platform and the value of
-- SSH_AUTH_SOCK, which Docker reads when it renders, are parameters.
use claude_contained.Runtime.Spec.{
  Arg, memory_arg, name_arg, workdir_arg, port_arg, dns_arg, env_arg, label_arg, mount_arg, ssh_arg,
  host_gateway_arg, RunSpec, ExecSpec, BuildSpec,
}
use claude_contained.Base.{Bool, Option, none, some, if◌then◌else◌}
use claude_contained.Base.{List, [], ◌∷◌, ◌++◌, is_nil}
use claude_contained.Base.{Bytes, bytes}

pub data Platform : Type 0 where
  darwin linux other_platform : Platform

unfoldable pub render_mount : Bytes → Bytes → Bool → List Bytes
render_mount src dst read_only =
    bytes "--mount"
    ∷ (bytes "type=bind,src="
        ++ src
        ++ bytes ",dst="
        ++ dst
        ++ (if read_only then bytes ",readonly" else []))
    ∷ []

abbrev pub assignment : Bytes → Bytes → Bytes
assignment key value = key ++ b'=' ∷ value

-- `none` is an argument that each runtime decides on for itself.
unfoldable pub render_common_arg : Arg → Option (List Bytes)
unfolding render_mount
render_common_arg (memory_arg v) = some (bytes "--memory" ∷ v ∷ [])
render_common_arg (name_arg v) = some (bytes "--name" ∷ v ∷ [])
render_common_arg (workdir_arg v) = some (bytes "-w" ∷ v ∷ [])
render_common_arg (env_arg k v) = some (bytes "-e" ∷ assignment k v ∷ [])
render_common_arg (mount_arg src dst read_only) = some (render_mount src dst read_only)
render_common_arg (port_arg v) = some (bytes "-p" ∷ v ∷ [])
render_common_arg (dns_arg v) = some (bytes "--dns" ∷ v ∷ [])
render_common_arg (label_arg k v) = none
render_common_arg ssh_arg = none
render_common_arg host_gateway_arg = none

unfoldable pub docker_ssh_args : Platform → Bytes → List Bytes
docker_ssh_args darwin sock =
    bytes "--mount"
    ∷ bytes "type=bind,src=/run/host-services/ssh-auth.sock,dst=/ssh-agent"
    ∷ bytes "-e"
    ∷ bytes "SSH_AUTH_SOCK=/ssh-agent"
    ∷ []
docker_ssh_args linux sock =
    if is_nil sock
    then []
    else bytes "-v"
      ∷ (sock ++ bytes ":/ssh-agent")
      ∷ bytes "-e"
      ∷ bytes "SSH_AUTH_SOCK=/ssh-agent"
      ∷ []
docker_ssh_args other_platform sock =
    if is_nil sock
    then []
    else bytes "-v"
      ∷ (sock ++ bytes ":/ssh-agent")
      ∷ bytes "-e"
      ∷ bytes "SSH_AUTH_SOCK=/ssh-agent"
      ∷ []

abbrev pub gateway_args : Platform → List Bytes
gateway_args linux = bytes "--add-host" ∷ bytes "host.docker.internal:host-gateway" ∷ []
gateway_args darwin = []
gateway_args other_platform = []

-- The arguments that are Docker's own.
unfoldable pub docker_own_arg : Platform → Bytes → Arg → List Bytes
unfolding docker_ssh_args
docker_own_arg p sock ssh_arg = docker_ssh_args p sock
docker_own_arg p sock host_gateway_arg = gateway_args p
docker_own_arg p sock (label_arg k v) = bytes "--label" ∷ assignment k v ∷ []
docker_own_arg p sock a = []

unfoldable pub apple_own_arg : Arg → List Bytes
apple_own_arg ssh_arg = bytes "--ssh" ∷ []
apple_own_arg a = []

abbrev pub or_own : Option (List Bytes) → List Bytes → List Bytes
or_own (some rendered) own = rendered
or_own none own = own

-- The loop over the arguments, with those that a runtime has for itself.
unfoldable pub render_args : (Arg → List Bytes) → List Arg → List Bytes → List Bytes
unfolding render_common_arg
render_args own [] rest = rest
render_args own (a ∷ args) rest = or_own (render_common_arg a) (own a) ++ render_args own args rest

unfoldable pub docker_render_run : Platform → Bytes → RunSpec → List Bytes
unfolding render_args docker_own_arg
docker_render_run p sock spec =
    bytes "docker"
    ∷ bytes "run"
    ∷ bytes "--rm"
    ∷ bytes "-it"
    ∷ render_args (docker_own_arg p sock) spec.args (spec.image ∷ spec.command)

unfoldable pub apple_render_run : RunSpec → List Bytes
unfolding render_args apple_own_arg
apple_render_run spec =
    bytes "container"
    ∷ bytes "run"
    ∷ bytes "--rm"
    ∷ bytes "-it"
    ∷ render_args apple_own_arg spec.args (spec.image ∷ spec.command)

abbrev pub env_flags : List (Bytes × Bytes) → List Bytes → List Bytes
env_flags [] rest = rest
env_flags ((k, v) ∷ env) rest = bytes "-e" ∷ assignment k v ∷ env_flags env rest

-- `RenderExec` of both runtimes, which differ in the program.
unfoldable pub render_exec : Bytes → ExecSpec → List Bytes
render_exec bin spec =
    bin ∷ bytes "exec" ∷ (if spec.tty then bytes "-it" ∷ [] else [])
    ++ (if is_nil spec.user then [] else bytes "-u" ∷ spec.user ∷ [])
    ++ env_flags spec.env (spec.container ∷ spec.command)

abbrev pub build_arg_flags : List Bytes → List Bytes
build_arg_flags [] = []
build_arg_flags (a ∷ args) = bytes "--build-arg" ∷ a ∷ build_arg_flags args

abbrev pub label_flags : List (Bytes × Bytes) → List Bytes
label_flags [] = []
label_flags ((k, v) ∷ labels) = bytes "--label" ∷ assignment k v ∷ label_flags labels

-- `renderBuild`; Docker passes the labels of the specification, Apple Containers none.
unfoldable pub render_build : Bytes → BuildSpec → List (Bytes × Bytes) → List Bytes
render_build bin spec labels =
    bin ∷ bytes "build" ∷ (if spec.pull then bytes "--pull" ∷ [] else [])
    ++ (if spec.no_cache then bytes "--no-cache" ∷ [] else [])
    ++ build_arg_flags spec.build_args
    ++ label_flags labels
    ++ bytes "-t" ∷ spec.tag ∷ spec.context ∷ []
