-- ===== src/Control/Mirror/Recovery.antt =====
-- Restarting the control plane: the store that `hydrate` of jetstream.go builds from the events that
-- were published, next to the store that published them.
use xrunner.Base.{
  List, Option, [], ap, arith, nat_eq, none, refl, some, subst, text_eq, true, ◌+◌, ◌<◌, ◌^◌, ◌∙◌,
  ◌∷◌, ◌≡◌,
}
use xrunner.Base.Dict.{lookup}
use xrunner.Control.Mirror.{
  Delivers, Fetched, apply_job_event, apply_log_event, drain, handle_job, handle_log, hydrate,
  replay_job, replay_jobs, replay_logs, report,
}
use xrunner.Control.Mirror.Drain.{Applies, drain-eq-replay, replay}
use xrunner.Control.Mirror.Jobs.{SameJobs}
use xrunner.Control.Mirror.Logs.{SameLogs}
use xrunner.Control.Mirror.Mirrored.{IsTracked, replay_job_events, total_weight}
use xrunner.Control.Mirror.Publishing.{AllPublished, Publish, published, published_all}
use xrunner.Control.Mirror.Tracking.{run-Tracked}
use xrunner.Control.Store.Defs.{
  JobEvent, LogEvent, Mirror, Store, apply_replayed_job, counter, empty,
}
use xrunner.Control.Store.Runs.{Call, run}
use xrunner.Control.Store.Sound.{IsSound, empty-IsSound}
use xrunner.Control.Types.{Job}

abbrev pub no_events : Mirror
no_events = record { job_events = []; log_events = [] }

empty-IsTracked : IsTracked 0 no_events (empty (some no_events))
unfolding empty lookup replay_job_events replay
empty-IsTracked = record {
  sound = empty-IsSound (some no_events);
  numbered_logs = record { offsets = λ key. refl; counted = λ key. refl };
  few_versions = λ key. omega arith;
  few_chunks = λ key. omega arith;
  mirrored = record {
    present = refl;
    jobs_mirrored = record { jobs = λ key. refl; versions = λ key. refl };
    logs_mirrored =
        λ r h e. (r, refl, (h, record { logs = e.logs; offsets = e.offsets }, refl, refl));
  };
}

abbrev NoLogs : Store → Type 0
NoLogs r = IsSound r × SameLogs r (empty none)

replayed_job-NoLogs :
    (ev : JobEvent) (job : Option Job) (r : Store) → NoLogs r → NoLogs (replay_job job ev.version r)
unfolding apply_replayed_job
replayed_job-NoLogs ev none r h = h
replayed_job-NoLogs ev (some job) r h = (
  record { unique = h.0.unique; live = h.0.live; fresh = h.0.fresh },
  record { logs = h.1.logs; offsets = h.1.offsets },
)

replay_job_events-NoLogs :
    (evs : List JobEvent) (r : Store) → NoLogs r → NoLogs (replay_job_events evs r)
unfolding replay_job_events apply_job_event
replay_job_events-NoLogs [] r h = h
replay_job_events-NoLogs (ev ∷ evs) r h =
    replay_job_events-NoLogs evs _ (replayed_job-NoLogs ev ev.job r h)

replay-job_events :
    (evs : List JobEvent) (s : Store)
    → replay (λ ev t. some (apply_job_event ev t)) evs s ≡ some (replay_job_events evs s)
unfolding replay replay_job_events
replay-job_events [] s = refl
replay-job_events (ev ∷ evs) s = replay-job_events evs (apply_job_event ev s)

handle_job-Applies : Applies handle_job (λ ev t. some (apply_job_event ev t))
unfolding handle_job
handle_job-Applies ev s = refl

pub handle_log-Applies : Applies handle_log apply_log_event
unfolding handle_log
handle_log-Applies ev s = refl

-- A store that began empty with a mirror, after any calls that put and append fewer than 2^64 jobs and
-- chunks: if every event was published with success, in the order of the changes, and JetStream
-- delivers what was published in that order, in any batches, then `hydrate` of an empty store returns
-- no error and does not panic, and the new store has the same job, version, log and offset counter at
-- every key.
pub hydrate-SameStore :
    (cs : List Call) (s : Store) (m : Mirror) (fj : List (Fetched JobEvent))
    (fl : List (Fetched LogEvent)) (job_calls : List (Publish JobEvent))
    (log_calls : List (Publish LogEvent))
    → total_weight cs < 2 ^ 64
    → run cs (empty (some no_events)) ≡ some s
    → s.js ≡ some m
    → AllPublished m.job_events job_calls
    → AllPublished m.log_events log_calls
    → Delivers fj (published job_calls)
    → Delivers fl (published log_calls)
    → (r : Store) × (hydrate (some fj) (some fl) (empty none) ≡ some (r, true))
      × SameJobs r s
      × SameLogs r s
unfolding hydrate replay_jobs replay_logs
hydrate-SameStore cs s m fj fl job_calls log_calls lt ran js aj al dj dl =
    let (s', e, (m', t)) =
      run-Tracked cs 0 no_events (empty (some no_events)) (omega arith) empty-IsTracked in
    let same : s' ≡ s = ground (arith, e, ran) in
    let same_m : m' ≡ m = ground (arith, t.mirrored.present, js, ap (λ (w : Store). w.js) same) in
    let u : IsTracked (0 + total_weight cs) m s =
      subst (λ w. IsTracked (0 + total_weight cs) m w) same
        (subst (λ w. IsTracked (0 + total_weight cs) w s') same_m t) in
    let r₀ = replay_job_events m.job_events (empty none) in
    let clean : NoLogs r₀ =
      replay_job_events-NoLogs m.job_events (empty none)
        (empty-IsSound none, record { logs = λ key. refl; offsets = λ key. refl }) in
    let (r, q, p) = u.mirrored.logs_mirrored r₀ clean.0 clean.1 in
    let jobs_drained : drain handle_job fj (empty none) ≡ some (r₀, true) =
      drain-eq-replay handle_job _ handle_job-Applies
        (rw (published_all m.job_events job_calls aj) at dj) (empty none)
      ∙ ap (report true) (replay-job_events m.job_events (empty none)) in
    let logs_drained : drain handle_log fl r₀ ≡ some (r, true) =
      drain-eq-replay handle_log _ handle_log-Applies
        (rw (published_all m.log_events log_calls al) at dl) r₀
      ∙ ap (report true) q in
    (
      r,
      rw jobs_drained logs_drained,
      record {
        jobs = λ key. ap (lookup key) p.2 ∙ u.mirrored.jobs_mirrored.jobs key;
        versions = λ key. ap (counter key) p.3 ∙ u.mirrored.jobs_mirrored.versions key;
      },
      p.1,
    )
