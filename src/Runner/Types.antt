-- ===== src/Runner/Types.antt =====
-- internal/runner: the policy that a runner enforces, the command of a run, and the host that it runs
-- on. What the host can do stands for `runtime.GOOS`, `exec.LookPath` and the probes, whose answers
-- the process keeps.
use gotorque.Prelude.{String, Bool, Option, List, ℤ}
use gotorque.Runner.Environment.{EnvironmentPolicy}

-- `ResourceLimits`
pub record ResourceLimits : Type 0 where
  pub max_processes : ℤ
  pub max_memory_bytes : ℤ

-- `SandboxPolicy`
pub record SandboxPolicy : Type 0 where
  pub network_allowed : Bool
  pub write_scope : String
  pub read_scope : String
  pub environment : EnvironmentPolicy
  pub limits : ResourceLimits

pub record Host : Type 0 where
  pub goos : String
  pub bwrap : Option String
  pub isolation_supported : Bool
  pub net_namespace_supported : Bool
  pub memory_limit_supported : Bool

-- `runPlan`
pub record RunPlan : Type 0 where
  pub network_disabled : Bool
  pub filesystem_allowed : Bool
  pub using_local_isolation : Bool

-- The guards that `SandboxOptions` ask for.
pub record Guards : Type 0 where
  pub network : Bool
  pub filesystem : Bool

-- The command of a run; `Isolated` is one with the notes on what was not enforced.
pub record Command : Type 0 where
  pub path : String
  pub args : List String

pub record Prepared : Type 0 where
  pub command : Command
  pub notes : List String
