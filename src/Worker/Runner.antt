-- ===== src/Worker/Runner.antt =====
-- Execute of internal/worker/runner.go. `Host` is the operating system: what making a directory,
-- looking up a binary and running a command give.
use xrunner.Base.{
  List, Option, Text, [], codes, false, if◌then◌else◌, is_empty, none, some, suc, zero, ℕ, ◌++◌,
  ◌∷◌,
}
use xrunner.Base.Dict.{Dict}
use xrunner.Control.Types.{
  JobAssignment, JobRef, JobState, LogChunk, RunJobResponse, Workload, artifact_based, docker_build,
  docker_run, inline, negsuc, pos, unset, ℤ,
}
use xrunner.Grpc.{Result, err, internal, invalid_argument, ok, unimplemented}
use xrunner.Worker.Docker.{build_docker_build_command, build_docker_run_command}
use xrunner.Worker.Sandbox.{Cmd, Runner, Wrapped, wrap_with_sandbox}

-- The error of cmd.Wait: nil, an exit status with its text, or another error.
pub data WaitError : Type 0 where
  no_error : WaitError
  exit_error : ℤ → Text → WaitError
  other_error : Text → WaitError

-- A run that started: the chunks of both pipes in the order in which the two readers took the
-- mutex, and the result of waiting.
pub record Run : Type 0 where
  pub chunks : List LogChunk
  pub waited : WaitError
  pub started : ℕ
  pub completed : ℕ

pub record Host : Type 0 where
  pub join_path : Text → Text → Text
  pub make_dir : Text → Option Text
  pub look_path : Text → Option Text
  pub environ : List Text
  -- StdoutPipe, StderrPipe and Start may fail, with the text of the status
  pub run : Cmd → List ℕ → Result Run

unfoldable pub exit_code_from_error : WaitError → ℤ
exit_code_from_error no_error = pos 0
exit_code_from_error (exit_error code text) = code
exit_code_from_error (other_error text) = pos 1

abbrev status_message_of : WaitError → Text
status_message_of no_error = codes ""
status_message_of (exit_error code text) = text
status_message_of (other_error text) = text

unfoldable pub finalize_state : ℤ → JobState
finalize_state (pos zero) = JobState.succeeded
finalize_state (pos (suc n)) = JobState.failed
finalize_state (negsuc n) = JobState.failed

unfoldable pub env_entries : Dict Text Text → List Text
env_entries [] = []
env_entries ((key, value) ∷ m) = (key ++ (codes "=" ++ value)) ∷ env_entries m

unfoldable pub compose_host_env : Host → Dict Text Text → List Text
unfolding env_entries
compose_host_env host env = host.environ ++ env_entries env

-- The command of a workload, its standard input, and what it adds to the environment.
pub record Prepared : Type 0 where
  pub base : List Text
  pub stdin : List ℕ
  pub env_augment : List Text

abbrev of_run : Result (List Text) → Result Prepared
of_run (ok args) = ok (record { base = args; stdin = []; env_augment = [] })
of_run (err c m) = err c m

abbrev of_build : Result (List Text × List Text) → Result Prepared
of_build (ok (args, extra)) = ok (record { base = args; stdin = []; env_augment = extra })
of_build (err c m) = err c m

unfoldable pub prepare_workload : Workload → Result Prepared
prepare_workload (inline w) =
    if is_empty w.executable
    then err invalid_argument (codes "inline executable is required")
    else ok (record { base = w.executable ∷ w.args; stdin = w.stdin; env_augment = [] })
prepare_workload (docker_run cfg) = of_run (build_docker_run_command cfg)
prepare_workload (docker_build cfg) = of_build (build_docker_build_command cfg)
prepare_workload (artifact_based w) = err unimplemented (codes "workload not supported")
prepare_workload unset = err unimplemented (codes "workload not supported")

abbrev respond : Option JobRef → Run → RunJobResponse
respond ref r = record {
  ref = ref;
  final_state = finalize_state (exit_code_from_error r.waited);
  exit_code = exit_code_from_error r.waited;
  status_message = status_message_of r.waited;
  started_at = some r.started;
  completed_at = some r.completed;
  logs = r.chunks;
  terminal = false;
}

abbrev of_started : Option JobRef → Result Run → Result RunJobResponse
of_started ref (err c m) = err c m
of_started ref (ok r) = ok (respond ref r)

module _ (r : Runner) (host : Host) where
  start_wrapped : Option JobRef → List ℕ → Option Wrapped → Option (Result RunJobResponse)
  start_wrapped ref stdin none = none
  start_wrapped ref stdin (some (err c m)) = some (err c m)
  start_wrapped ref stdin (some (ok (cmd, type))) = some (of_started ref (host.run cmd stdin))

  run_prepared : ℕ → JobAssignment → Text → Result Prepared → Option (Result RunJobResponse)
  unfolding start_wrapped compose_host_env
  run_prepared fuel a workspace (err c m) = some (err c m)
  run_prepared fuel a workspace (ok p) = start_wrapped a.ref p.stdin (
      wrap_with_sandbox r host.look_path p.base (compose_host_env host a.env ++ p.env_augment)
        workspace fuel a.sandbox)

  in_workspace : ℕ → JobAssignment → Workload → Text → Option Text → Option (Result RunJobResponse)
  unfolding run_prepared
  in_workspace fuel a w workspace (some e) = some (err internal (codes "workspace: " ++ e))
  in_workspace fuel a w workspace none = run_prepared fuel a workspace (prepare_workload w)

  with_workload :
      ℕ → JobAssignment → Option JobRef → Option Workload → Option (Result RunJobResponse)
  unfolding in_workspace
  with_workload fuel a none w = some (err invalid_argument (codes "assignment and ref required"))
  with_workload fuel a (some ref) none = some (err invalid_argument (codes "workload is required"))
  with_workload fuel a (some ref) (some w) =
      let workspace = host.join_path r.workspace_root ref.job_id in
      in_workspace fuel a w workspace (host.make_dir workspace)

  -- `fuel` bounds the nested calls of wrapWithSandbox.
  unfoldable pub execute : ℕ → Option JobAssignment → Option (Result RunJobResponse)
  unfolding with_workload
  execute fuel none = some (err invalid_argument (codes "assignment and ref required"))
  execute fuel (some a) = with_workload fuel a a.ref a.workload
