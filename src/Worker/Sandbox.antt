-- ===== src/Worker/Sandbox.antt =====
-- wrapWithSandbox of internal/worker/runner.go. It calls itself with no sandbox where it falls
-- back, and that call reads the default sandbox again: the recursion takes fuel, and `none` means
-- that the fuel ran out.
pub mod Termination
use xrunner.Base.{
  Bool, List, Option, Text, [], codes, if◌then◌else◌, is_empty, none, not, some, suc, zero, ℕ, ◌++◌,
  ◌∷◌,
}
use xrunner.Control.JobSvc.{found}
use xrunner.Control.Types.{
  SandboxSpec, SandboxType, docker, nsjail, nsjail_docker, unknown, unspecified,
}
use xrunner.Grpc.{Result, err, failed_precondition, ok}
use xrunner.Worker.Docker.{option, repeated}

pub record Runner : Type 0 where
  pub workspace_root : Text
  pub allow_unsafe_fallback : Bool
  pub default_sandbox : Option SandboxSpec

-- What exec.Cmd is built from.
pub record Cmd : Type 0 where
  pub args : List Text
  pub env : List Text
  pub dir : Text

-- Where the effective sandbox leads: to run on the host, to run under nsjail, or to fall back.
pub data Choice : Type 0 where
  on_host : SandboxType → Choice
  under_nsjail : SandboxSpec → Choice
  other_type : Choice

abbrev pub by_type : SandboxType → SandboxSpec → Choice
by_type SandboxType.unspecified spec = on_host SandboxType.unspecified
by_type SandboxType.docker spec = on_host SandboxType.docker
by_type SandboxType.nsjail spec = under_nsjail spec
by_type SandboxType.nsjail_docker spec = under_nsjail spec
by_type (SandboxType.unknown n) spec = other_type

abbrev pub effective : Option SandboxSpec → Option SandboxSpec → Option SandboxSpec
effective none default = default
effective (some spec) default = some spec

abbrev pub choose : Option SandboxSpec → Choice
choose none = on_host SandboxType.unspecified
choose (some spec) = by_type spec.type spec

abbrev pub sandbox_bin_of : SandboxSpec → Text
sandbox_bin_of spec = if is_empty spec.sandbox_bin then codes "nsjail" else spec.sandbox_bin

abbrev pub cwd_args : SandboxSpec → Text → List Text
cwd_args spec workspace =
    if is_empty spec.workdir
    then option (codes "--cwd") workspace
    else codes "--cwd" ∷ spec.workdir ∷ []

unfoldable pub nsjail_args : SandboxSpec → List Text → Text → List Text
unfolding repeated
nsjail_args spec base workspace =
    option (codes "--config") spec.nsjail_config
    ++ cwd_args spec workspace
    ++ repeated (codes "--bindmount") spec.binds
    ++ option (codes "--log") spec.log_path
    ++ spec.extra_args
    ++ codes "--" ∷ base

abbrev pub Wrapped : Type 0
Wrapped = Result (Cmd × SandboxType)

module _ (r : Runner) (look_path : Text → Option Text) (base : List Text) (env : List Text)
    (workspace : Text) where
  unfoldable pub jailed : Option Text → SandboxSpec → Option Wrapped → Option Wrapped
  unfolding nsjail_args
  jailed (some path) spec again = some (
      ok (
        record { args = path ∷ nsjail_args spec base workspace; env = env; dir = workspace },
        spec.type,
      ))
  jailed none spec again =
      if r.allow_unsafe_fallback
      then again
      else some (
          err failed_precondition
            (codes "sandbox binary " ++ (sandbox_bin_of spec ++ codes " not found")))

  unfoldable pub follow : Choice → Option Wrapped → Option Wrapped
  unfolding jailed
  follow (on_host type) again = some (ok (record { args = base; env = env; dir = workspace }, type))
  follow (under_nsjail spec) again = jailed (look_path (sandbox_bin_of spec)) spec again
  follow other_type again = again

  unfoldable pub wrap_with_sandbox : ℕ → Option SandboxSpec → Option Wrapped
  unfolding follow
  wrap_with_sandbox zero sandbox = none
  wrap_with_sandbox (suc fuel) sandbox =
      follow (choose (effective sandbox r.default_sandbox)) (wrap_with_sandbox fuel none)
