-- ===== src/Control/JobSvc.antt =====
-- internal/control/jobsvc/service.go. The clock's readings, the fresh UUID and the worker's stream
-- are arguments; the worker is behind gRPC.
pub mod Dispatch
pub mod Ending
pub mod Outcome
pub mod Streaming
pub mod Listing
use xrunner.Base.{
  Option, Text, codes, if◌then◌else◌, is_none, nat_eq, none, not, some, text_eq, ℕ, ◌==◌, ◌>>=◌,
}
use xrunner.Base.Dict.{Dict}
use xrunner.Control.Store.Defs.{Store, close_log_streams, get, put}
use xrunner.Control.Types.{
  Job, JobRef, JobState, PolicyOverrides, ResourceHints, RunJobResponse, SandboxSpec, Workload,
  accepted, failed, pos,
}
use xrunner.Grpc.{Result, err, invalid_argument, not_found, ok}

pub record SubmitJobRequest : Type 0 where
  pub tenant_id : Text
  pub display_name : Text
  pub workload : Option Workload
  pub env : Dict Text Text
  pub resource : Option ResourceHints
  pub policy : Option PolicyOverrides
  pub sandbox : Option SandboxSpec

unfoldable pub build_job_from_request : SubmitJobRequest → Text → ℕ → Job
build_job_from_request req uuid now = record {
  ref = some (record { tenant_id = req.tenant_id; job_id = uuid });
  display_name = req.display_name;
  workload = req.workload;
  env = req.env;
  state = accepted;
  create_time = some now;
  update_time = some now;
  resource = req.resource;
  policy = req.policy;
  exit_code = pos 0;
  status_message = codes "";
  sandbox = req.sandbox;
}

-- The answer, the store, and the reference that is dispatched in a goroutine of its own.
unfoldable pub submit_job : SubmitJobRequest → Text → ℕ → Store → Result Job × Store × Option JobRef
unfolding build_job_from_request
submit_job req uuid now s =
    if req.tenant_id == codes ""
    then (err invalid_argument (codes "tenant_id is required"), s, none)
    else if is_none req.workload
    then (err invalid_argument (codes "workload is required"), s, none)
    else let job = build_job_from_request req uuid now in (ok job, put (some job) s, job.ref)

-- GetJob
abbrev pub found : Option Job → Result Job
found none = err not_found (codes "job not found")
found (some job) = ok job

unfoldable pub get_job : Option JobRef → Store → Result Job
get_job ref s = found (get ref s)

abbrev pub failed_job : Text → ℕ → Job → Job
failed_job message now job = record job {
  state = JobState.failed;
  status_message = message;
  update_time = some now;
}

-- What follows `store.Get`: nothing if the job is missing.
unfoldable pub finish_job : Option JobRef → Option Job → Store → Option Store
finish_job ref none s = some s
finish_job ref (some job) s = close_log_streams ref (put (some job) s)

unfoldable pub apply_failure : Option JobRef → Text → ℕ → Store → Option Store
unfolding finish_job
apply_failure ref message now s =
    finish_job ref (get ref s >>= λ job. some (failed_job message now job)) s

abbrev pub time_or : ℕ → Option ℕ → Option ℕ
time_or now none = some now
time_or now (some t) = some t

abbrev pub completed_job : RunJobResponse → ℕ → Job → Job
completed_job resp completed job = record job {
  state = resp.final_state;
  exit_code = resp.exit_code;
  status_message = resp.status_message;
  update_time = time_or completed resp.completed_at;
}

unfoldable pub apply_completion : RunJobResponse → ℕ → Store → Option Store
unfolding finish_job
apply_completion resp completed s =
    finish_job resp.ref (get resp.ref s >>= λ job. some (completed_job resp completed job)) s
