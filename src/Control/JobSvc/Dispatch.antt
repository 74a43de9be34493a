-- ===== src/Control/JobSvc/Dispatch.antt =====
-- `dispatch` of service.go, with the worker's answers as a list.
use xrunner.Base.{List, Option, Text, [], codes, if◌then◌else◌, none, some, ℕ, ◌>>=◌, ◌∷◌}
use xrunner.Control.Types.{Job, JobAssignment, JobRef, JobState, RunJobResponse}
use xrunner.Control.Store.Defs.{Store, append_logs, get, put}
use xrunner.Control.JobSvc.{apply_completion, apply_failure}

-- A result of `stream.Recv()`; io.EOF is the end of the list.
pub data Recv : Type 0 where
  received : RunJobResponse → Recv
  recv_failed : Text → Recv

-- What `worker.RunJob` returns: a stream, or an error.
pub data WorkerStream : Type 0 where
  streaming : List Recv → WorkerStream
  refused : Text → WorkerStream

-- The loop over the worker's stream; `now` is the clock when it ends.
unfoldable pub receive_loop : List Recv → Option JobRef → ℕ → Store → Option Store
receive_loop [] ref now s = apply_failure ref (codes "worker stream closed unexpectedly") now s
receive_loop (recv_failed message ∷ rs) ref now s = apply_failure ref message now s
receive_loop (received resp ∷ rs) ref now s = append_logs ref resp.logs s >>= λ t.
    if resp.terminal then apply_completion resp now t else receive_loop rs ref now t

unfoldable pub run_on : WorkerStream → Option JobRef → ℕ → Store → Option Store
run_on (streaming rs) ref now s = receive_loop rs ref now s
run_on (refused message) ref now s = apply_failure ref message now s

-- The assignment that the worker gets.
unfoldable pub assignment_of : Job → JobAssignment
assignment_of job = record {
  ref = job.ref;
  workload = job.workload;
  env = job.env;
  policy = job.policy;
  resource = job.resource;
  sandbox = job.sandbox;
}

unfoldable pub dispatch_job :
    Option Job → (JobAssignment → WorkerStream) → Option JobRef → ℕ → ℕ → Store → Option Store
unfolding run_on assignment_of
dispatch_job none worker ref start now s = some s
dispatch_job (some job) worker ref start now s =
    run_on (worker (assignment_of job)) ref now
      (put (some (record job { state = JobState.running; update_time = some start })) s)

-- `start` and `now` are the clock's readings before and after the run.
unfoldable pub dispatch :
    (JobAssignment → WorkerStream) → Option JobRef → ℕ → ℕ → Store → Option Store
unfolding dispatch_job
dispatch worker ref start now s = dispatch_job (get ref s) worker ref start now s
