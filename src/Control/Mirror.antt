-- ===== src/Control/Mirror.antt =====
-- internal/control/store/jetstream.go: the replay of the mirrored events at start-up. NATS itself
-- is a parameter: what a pull subscription fetches is a list of outcomes.
pub mod Subjects
pub mod Publishing
pub mod Drain
pub mod Jobs
pub mod Logs
pub mod Mirrored
pub mod Tracking
pub mod Recovery
pub mod Stale
use xrunner.Base.{Bool, List, Option, [], false, map, none, some, true, ℕ, ◌++◌, ◌∷◌}
use xrunner.Control.Types.{Job, JobRef, LogChunk}
use xrunner.Control.Store.Defs.{
  JobEvent, LogEvent, Store, apply_replayed_job, apply_replayed_log, logs,
}

-- A message: what `proto.Unmarshal` makes of its data (`none` if it fails), and whether `Ack`
-- succeeds.
pub record Delivery (E : Type 0) : Type 0 where
  pub event : Option E
  pub acked : Bool

-- An outcome of `sub.Fetch(64, …)`: messages, ErrTimeout, DeadlineExceeded, another error.
pub data Fetched (E : Type 0) : Type 0 where
  batch : List (Delivery E) → Fetched E
  timed_out : Fetched E
  deadline_exceeded : Fetched E
  failed_fetch : Fetched E

-- The store after a handler or a loop, and whether it returned a nil error. `none` is a panic.
abbrev pub Outcome : Type 0
Outcome = Option (Store × Bool)

-- A step that reports `b`.
abbrev pub report : Bool → Option Store → Outcome
report b none = none
report b (some t) = some (t, b)

-- if err := …; err != nil { return err }
infixl 5 ◌>>ok◌
abbrev pub ◌>>ok◌ : Outcome → (Store → Outcome) → Outcome
none >>ok k = none
some (t, true) >>ok k = k t
some (t, false) >>ok k = some (t, false)

module _ {E : Type 0} (handler : Delivery E → Store → Outcome) where
  -- for _, msg := range msgs
  unfoldable pub handle_batch : List (Delivery E) → Store → Outcome
  handle_batch [] s = some (s, true)
  handle_batch (d ∷ ds) s = handler d s >>ok λ t. handle_batch ds t

  -- The loop of `drain`. Where the outcomes end, the context is done.
  unfoldable pub drain : List (Fetched E) → Store → Outcome
  unfolding handle_batch
  drain [] s = some (s, false)
  drain (timed_out ∷ fs) s = some (s, true)
  drain (deadline_exceeded ∷ fs) s = drain fs s
  drain (failed_fetch ∷ fs) s = some (s, false)
  drain (batch [] ∷ fs) s = some (s, true)
  drain (batch (d ∷ ds) ∷ fs) s = handle_batch (d ∷ ds) s >>ok λ t. drain fs t

abbrev pub replay_job : Option Job → ℕ → Store → Store
replay_job none version s = s
replay_job (some job) version s = apply_replayed_job job version s

unfoldable pub apply_job_event : JobEvent → Store → Store
apply_job_event ev s = replay_job ev.job ev.version s

job_payload : Option JobEvent → Store → Store
job_payload none s = s
job_payload (some ev) s = apply_job_event ev s

-- The handler of replayJobs: an event that does not decode, or has no job, is skipped.
unfoldable pub handle_job : Delivery JobEvent → Store → Outcome
unfolding job_payload
handle_job d s = some (job_payload d.event s, d.acked)

abbrev pub replay_log : Option JobRef → Option LogChunk → ℕ → Store → Option Store
replay_log none chunk offset s = some s
replay_log (some ref) none offset s = some s
replay_log (some ref) (some chunk) offset s = apply_replayed_log (some ref) chunk offset s

unfoldable pub apply_log_event : LogEvent → Store → Option Store
apply_log_event ev s = replay_log ev.ref ev.chunk ev.offset s

log_payload : Option LogEvent → Store → Option Store
log_payload none s = some s
log_payload (some ev) s = apply_log_event ev s

-- The handler of replayLogs.
unfoldable pub handle_log : Delivery LogEvent → Store → Outcome
unfolding log_payload
handle_log d s = report d.acked (log_payload d.event s)

-- replayJobs and replayLogs: `none` is a subscription that fails.
unfoldable pub replay_jobs : Option (List (Fetched JobEvent)) → Store → Outcome
replay_jobs none s = some (s, false)
replay_jobs (some fs) s = drain handle_job fs s

unfoldable pub replay_logs : Option (List (Fetched LogEvent)) → Store → Outcome
replay_logs none s = some (s, false)
replay_logs (some fs) s = drain handle_log fs s

unfoldable pub hydrate :
    Option (List (Fetched JobEvent)) → Option (List (Fetched LogEvent)) → Store → Outcome
hydrate jobs logs s = replay_jobs jobs s >>ok λ t. replay_logs logs t

-- What JetStream documents of a pull subscription with DeliverAll: the stored messages come in the
-- order of their publication, in batches of any size, until a fetch times out or comes back empty.
pub data Delivers {E : Type 0} : List (Fetched E) → List E → Type 0 where
  caught_up : {fs : List (Fetched E)} → Delivers (timed_out ∷ fs) []
  came_empty : {fs : List (Fetched E)} → Delivers (batch [] ∷ fs) []
  retried :
      {fs : List (Fetched E)} {evs : List E}
      → Delivers fs evs
      → Delivers (deadline_exceeded ∷ fs) evs
  fetched :
      {fs : List (Fetched E)} {evs : List E} (e : E) (es : List E)
      → Delivers fs evs
      → Delivers
          (batch (map (λ x. record { event = some x; acked = true }) (e ∷ es)) ∷ fs)
          ((e ∷ es) ++ evs)
