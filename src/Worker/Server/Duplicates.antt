-- ===== src/Worker/Server/Duplicates.antt =====
-- The control plane behind the worker: what a run leaves in the log of its job.
use xrunner.Base.{get_or, some, ℕ, ◌≡◌}
use xrunner.Control.Store.Defs.{Store}
use xrunner.Control.Types.{Job, RunJobResponse}

-- `final` is `job` after the worker answered with `resp`: it has the state, exit code and message
-- of the answer, and the time of the answer or else the control plane's; the rest is kept.
pub record Answered (resp : RunJobResponse) (now : ℕ) (job final : Job) : Type 0 where
  pub state : final.state ≡ resp.final_state
  pub exit_code : final.exit_code ≡ resp.exit_code
  pub status_message : final.status_message ≡ resp.status_message
  pub update_time : final.update_time ≡ some (get_or resp.completed_at now)
  pub ref : final.ref ≡ job.ref
  pub display_name : final.display_name ≡ job.display_name
  pub workload : final.workload ≡ job.workload
  pub env : final.env ≡ job.env
  pub create_time : final.create_time ≡ job.create_time
  pub resource : final.resource ≡ job.resource
  pub policy : final.policy ≡ job.policy
  pub sandbox : final.sandbox ≡ job.sandbox
