-- ===== src/Runtime/Spec.antt =====
-- internal/runtime/runtime.go: the types that the planner fills.
use claude_contained.Base.{Bool}
use claude_contained.Base.{List}
use claude_contained.Base.{Bytes}

pub data Arg : Type 0 where
  memory_arg name_arg workdir_arg port_arg dns_arg : Bytes → Arg
  env_arg label_arg : Bytes → Bytes → Arg
  mount_arg : Bytes → Bytes → Bool → Arg
  ssh_arg host_gateway_arg : Arg

pub record RunSpec : Type 0 where
  pub args : List Arg
  pub image : Bytes
  pub command : List Bytes

-- The environment of an exec is a list of keys with values.
pub record ExecSpec : Type 0 where
  pub container : Bytes
  pub user : Bytes
  pub tty : Bool
  pub env : List (Bytes × Bytes)
  pub command : List Bytes

pub record BuildSpec : Type 0 where
  pub tag : Bytes
  pub context : Bytes
  pub pull : Bool
  pub no_cache : Bool
  pub build_args : List Bytes
  pub labels : List (Bytes × Bytes)

-- The help text is left out: no function of the model prints it.
pub record Profile : Type 0 where
  pub name : Bytes
  pub default_dns : List Bytes
  pub not_running_prompt : Bytes
  pub host_forward_notice : List Bytes
  pub readonly_remount_needs_existing_mountpoint : Bool
