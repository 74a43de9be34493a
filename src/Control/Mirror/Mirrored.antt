-- ===== src/Control/Mirror/Mirrored.antt =====
-- What the mirrored events are of a store: replaying them gives its jobs and its logs.
use xrunner.Base.{
  List, Option, Returns, Returns-bind, Text, [], ap, arith, length, map, nat_eq, none, refl, some,
  sym, text_eq, ℕ, ◌++◌, ◌+◌, ◌<◌, ◌^◌, ◌∙◌, ◌∷◌, ◌≡◌, ◌≤◌,
}
use xrunner.Base.Dict.{lookup}
use xrunner.Control.Mirror.{apply_job_event, apply_log_event}
use xrunner.Control.Mirror.Drain.{replay, replay-append}
use xrunner.Control.Mirror.Jobs.{SameJobs, put-SameJobs}
use xrunner.Control.Mirror.Logs.{Grown-SameLogs, SameLogs, replay-Grown}
use xrunner.Control.Store.Appending.{Appended, Grown-IsNumbered, IsNumbered}
use xrunner.Control.Store.Defs.{
  JobEvent, Mirror, Store, compound_key, counter, empty, log_event, mirror_job, mirror_logs, put,
  u64,
}
use xrunner.Control.Store.Numbering.{counter-insert, numbered}
use xrunner.Control.Store.Runs.{
  Call, append_call, close_call, put_call, subscribe_call, unsubscribe_call,
}
use xrunner.Control.Store.Sound.{IsSound, put-IsSound}
use xrunner.Control.Types.{Job, JobRef, LogChunk}

-- How far one call can move a counter.
abbrev pub weight : Call → ℕ
weight (put_call job) = 1
weight (append_call ref xs) = length xs
weight (subscribe_call ref) = 0
weight (unsubscribe_call ref id) = 0
weight (close_call ref) = 0

abbrev pub total_weight : List Call → ℕ
total_weight [] = 0
total_weight (c ∷ cs) = weight c + total_weight cs

unfoldable pub replay_job_events : List JobEvent → Store → Store
replay_job_events [] s = s
replay_job_events (ev ∷ evs) s = replay_job_events evs (apply_job_event ev s)

replay_job_events-append :
    (xs ys : List JobEvent) (s : Store)
    → replay_job_events (xs ++ ys) s ≡ replay_job_events ys (replay_job_events xs s)
unfolding replay_job_events
replay_job_events-append [] ys s = refl
replay_job_events-append (x ∷ xs) ys s = replay_job_events-append xs ys (apply_job_event x s)

-- `r` has the logs of `s`, and the jobs of `r₀`.
abbrev pub LogsReplayed : Store → Store → Store → Type 0
LogsReplayed r₀ s r =
    IsSound r × SameLogs r s × (r.jobs ≡ r₀.jobs) × (r.job_versions ≡ r₀.job_versions)

-- The events of `m` replay to what clients of `s` can see.
pub record IsMirrored (m : Mirror) (s : Store) : Type 0 where
  pub present : s.js ≡ some m
  pub jobs_mirrored : SameJobs (replay_job_events m.job_events (empty none)) s
  pub logs_mirrored :
      (r₀ : Store)
      → IsSound r₀
      → SameLogs r₀ (empty none)
      → Returns (LogsReplayed r₀ s) (replay apply_log_event m.log_events r₀)

-- The invariant of a run: at most `b` steps of counters so far.
pub record IsTracked (b : ℕ) (m : Mirror) (s : Store) : Type 0 where
  pub sound : IsSound s
  pub numbered_logs : IsNumbered s
  pub few_versions : (key : Text) → counter key s.job_versions ≤ b
  pub few_chunks : (key : Text) → counter key s.log_offsets ≤ b
  pub mirrored : IsMirrored m s

replayed_put :
    (job : Job) (m : Mirror) (s : Store)
    → counter (compound_key job.ref) s.job_versions + 1 < 2 ^ 64
    → SameJobs (replay_job_events m.job_events (empty none)) s
    → SameJobs
        (replay_job_events
          (record {
            job = some job;
            version = u64 (counter (compound_key job.ref) s.job_versions + 1);
          }
            ∷ [])
          (replay_job_events m.job_events (empty none)))
        (put (some job) s)
unfolding replay_job_events apply_job_event
replayed_put job m s small h =
    put-SameJobs job (replay_job_events m.job_events (empty none)) s small h

pub put-Tracked :
    (b : ℕ) (job : Option Job) (m : Mirror) (s : Store)
    → b + 1 < 2 ^ 64
    → IsTracked b m s
    → (m' : Mirror) × IsTracked (b + 1) m' (put job s)
unfolding put
put-Tracked b none m s lt t = (
  m,
  record {
    sound = t.sound;
    numbered_logs = t.numbered_logs;
    few_versions = λ key. omega (arith, t.few_versions key);
    few_chunks = λ key. omega (arith, t.few_chunks key);
    mirrored = t.mirrored;
  },
)
put-Tracked b (some job) m s lt t =
    let key = compound_key job.ref in
    let small : counter key s.job_versions + 1 < 2 ^ 64 = omega (arith, t.few_versions key) in
    let v = u64 (counter key s.job_versions + 1) in
    let ev : JobEvent = record { job = some job; version = v } in
    let mirrored = t.mirrored in
    (
      record m { job_events = m.job_events ++ ev ∷ [] },
      record {
        sound = put-IsSound (some job) s t.sound;
        numbered_logs = record {
          offsets = t.numbered_logs.offsets;
          counted = t.numbered_logs.counted;
        };
        few_versions = λ j.
            ground
              (arith, counter-insert key j v s.job_versions, t.few_versions j, t.few_versions key);
        few_chunks = λ j. omega (arith, t.few_chunks j);
        mirrored = record {
          present = ap (mirror_job ev) mirrored.present;
          jobs_mirrored =
              rw replay_job_events-append (replayed_put job m s small mirrored.jobs_mirrored);
          logs_mirrored = λ r₀ h e.
              let (r, q, p) = mirrored.logs_mirrored r₀ h e in
              (r, q, (p.0, record { logs = p.1.logs; offsets = p.1.offsets }, p.2, p.3));
        };
      },
    )

pub Appended-IsTracked :
    (b : ℕ) (ref : JobRef) (n : ℕ) (xs : List LogChunk) (m : Mirror) (s u : Store)
    → counter (compound_key (some ref)) s.log_offsets ≡ n
    → IsSound u
    → Appended ref n xs s u
    → IsTracked b m s
    → IsTracked
        (b + length xs)
        (record m { log_events = m.log_events ++ map (log_event ref) (numbered n xs) })
        u
Appended-IsTracked b ref n xs m s u e sound a t =
    let key = compound_key (some ref) in
    let grown = a.grown in
    record {
      sound = sound;
      numbered_logs = Grown-IsNumbered ref n xs s u t.numbered_logs e grown;
      few_versions = λ j. rw grown.versions_kept (omega (arith, t.few_versions j));
      few_chunks = λ j. ground (arith, grown.counters_grow j, t.few_chunks key, t.few_chunks j);
      mirrored = record {
        present =
            a.mirrored ∙ ap (mirror_logs (map (log_event ref) (numbered n xs))) t.mirrored.present;
        jobs_mirrored = record {
          jobs = λ j. t.mirrored.jobs_mirrored.jobs j ∙ ap (lookup j) (sym grown.jobs_kept);
          versions =
              λ j. t.mirrored.jobs_mirrored.versions j ∙ ap (counter j) (sym grown.versions_kept);
        };
        logs_mirrored = λ r₀ h q. rw (replay-append apply_log_event) (
            Returns-bind (LogsReplayed r₀ s) (LogsReplayed r₀ u)
              (replay apply_log_event m.log_events r₀) _ (t.mirrored.logs_mirrored r₀ h q)
              λ r p.
                let (v, same, k) = replay-Grown ref n xs r p.0 (p.1.offsets key ∙ e) in
                (
                  v,
                  same,
                  (
                    k.0,
                    Grown-SameLogs ref n xs r s v u p.1 k.1 grown,
                    k.1.jobs_kept ∙ p.2,
                    k.1.versions_kept ∙ p.3,
                  ),
                ));
      };
    }
