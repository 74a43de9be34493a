-- ===== src/Control/Mirror/Tracking.antt =====
-- The invariant of a mirrored store: its events replay to what its clients can see.
use xrunner.Base.{
  List, Option, Returns, Returns-bind, Text, [], ap, arith, get_or, length, nat_eq, none, refl,
  some, sym, text_eq, ℕ, ◌+◌, ◌<◌, ◌^◌, ◌∙◌, ◌∷◌, ◌≡◌, ◌≤◌,
}
use xrunner.Base.Dict.{Dict, lookup}
use xrunner.Control.Mirror.Mirrored.{
  Appended-IsTracked, IsTracked, put-Tracked, total_weight, weight,
}
use xrunner.Control.Store.Appending.{append_numbered-Appended}
use xrunner.Control.Store.Defs.{
  Mirror, Store, append_logs, compound_key, counter, logs_of, put, subscribe_logs,
}
use xrunner.Control.Store.Runs.{
  Call, append_call, call, close_call, put_call, run, subscribe_call, unsubscribe_call,
}
use xrunner.Control.Store.Safety.{
  Kept, OnlySubs, close_log_streams-IsSound, unsubscribe_logs-IsSound,
}
use xrunner.Control.Store.Sound.{IsSound, subscribe_logs-IsSound}
use xrunner.Control.Types.{JobRef, LogChunk}

-- A step that keeps jobs, logs, counters and mirror.
record SameData (s t : Store) : Type 0 where
  jobs_same : t.jobs ≡ s.jobs
  versions_same : t.job_versions ≡ s.job_versions
  logs_same : t.logs ≡ s.logs
  offsets_same : t.log_offsets ≡ s.log_offsets
  js_same : t.js ≡ s.js

SameData-IsTracked :
    (b : ℕ) (m : Mirror) (s t : Store)
    → SameData s t
    → IsSound t
    → IsTracked b m s
    → IsTracked b m t
SameData-IsTracked b m s t d sound h =
    let at_logs : (j : Text) → logs_of j t ≡ logs_of j s =
      λ j. ap (λ (l : Dict Text (List LogChunk)). get_or (lookup j l) []) d.logs_same in
    let at_offsets : (j : Text) → counter j t.log_offsets ≡ counter j s.log_offsets =
      λ j. ap (counter j) d.offsets_same in
    record {
      sound = sound;
      numbered_logs = record {
        offsets = λ j. cc (at_logs j, h.numbered_logs.offsets j);
        counted = λ j. cc (at_logs j, at_offsets j, h.numbered_logs.counted j);
      };
      few_versions = λ j. rw d.versions_same (h.few_versions j);
      few_chunks = λ j. rw (at_offsets j) (h.few_chunks j);
      mirrored = record {
        present = d.js_same ∙ h.mirrored.present;
        jobs_mirrored = record {
          jobs = λ j. h.mirrored.jobs_mirrored.jobs j ∙ ap (lookup j) (sym d.jobs_same);
          versions =
              λ j. h.mirrored.jobs_mirrored.versions j ∙ ap (counter j) (sym d.versions_same);
        };
        logs_mirrored = λ r₀ k q.
            let (r, e, p) = h.mirrored.logs_mirrored r₀ k q in
            (
              r,
              e,
              (
                p.0,
                record {
                  logs = λ j. p.1.logs j ∙ sym (at_logs j);
                  offsets = λ j. p.1.offsets j ∙ sym (at_offsets j);
                },
                p.2,
                p.3,
              ),
            );
      };
    }

Kept-SameData : (s t : Store) → OnlySubs s t → SameData s t
Kept-SameData s t only = record {
  jobs_same = ap (λ (w : Store). w.jobs) only;
  versions_same = ap (λ (w : Store). w.job_versions) only;
  logs_same = ap (λ (w : Store). w.logs) only;
  offsets_same = ap (λ (w : Store). w.log_offsets) only;
  js_same = ap (λ (w : Store). w.js) only;
}

abbrev pub Tracked : ℕ → Store → Type 0
Tracked b s = (m : Mirror) × IsTracked b m s

IsTracked-mono : (b c : ℕ) (m : Mirror) (s : Store) → b ≤ c → IsTracked b m s → IsTracked c m s
IsTracked-mono b c m s le t = record {
  sound = t.sound;
  numbered_logs = t.numbered_logs;
  few_versions = λ j. omega (arith, t.few_versions j);
  few_chunks = λ j. omega (arith, t.few_chunks j);
  mirrored = t.mirrored;
}

append_logs-Tracked :
    (b : ℕ) (ref : Option JobRef) (xs : List LogChunk) (m : Mirror) (s : Store)
    → b + length xs < 2 ^ 64
    → IsTracked b m s
    → Returns (Tracked (b + length xs)) (append_logs ref xs s)
unfolding append_logs
append_logs-Tracked b none xs m s lt t =
    (s, refl, (m, IsTracked-mono b (b + length xs) m s (omega arith) t))
append_logs-Tracked b (some ref) [] m s lt t =
    (s, refl, (m, IsTracked-mono b (b + 0) m s (omega arith) t))
append_logs-Tracked b (some ref) (x ∷ xs) m s lt t =
    let n = counter (compound_key (some ref)) s.log_offsets in
    let (u, e, p) =
      append_numbered-Appended ref n (x ∷ xs) s t.sound refl
        (omega (arith, t.few_chunks (compound_key (some ref)))) in
    (u, e, (_, Appended-IsTracked b ref n (x ∷ xs) m s u refl p.0 p.1 t))

Kept-Tracked :
    (b : ℕ) (m : Mirror) (s : Store) (o : Option Store)
    → IsTracked b m s
    → Returns (Kept s) o
    → Returns (Tracked (b + 0)) o
Kept-Tracked b m s o h (t, e, k) = (
  t,
  e,
  (
    m,
    IsTracked-mono b (b + 0) m t (omega arith)
        (SameData-IsTracked b m s t (Kept-SameData s t k.1) k.0 h),
  ),
)

call-Tracked :
    (c : Call) (b : ℕ) (m : Mirror) (s : Store)
    → b + weight c < 2 ^ 64
    → IsTracked b m s
    → Returns (Tracked (b + weight c)) (call c s)
unfolding call
call-Tracked (put_call job) b m s lt t = (put job s, refl, put-Tracked b job m s lt t)
call-Tracked (append_call ref xs) b m s lt t = append_logs-Tracked b ref xs m s lt t
call-Tracked (subscribe_call ref) b m s lt t =
    Kept-Tracked b m s _ t
      (_, refl, (subscribe_logs-IsSound ref s t.sound, unfold subscribe_logs in refl))
call-Tracked (unsubscribe_call ref id) b m s lt t =
    Kept-Tracked b m s _ t (unsubscribe_logs-IsSound ref id s t.sound)
call-Tracked (close_call ref) b m s lt t =
    Kept-Tracked b m s _ t (close_log_streams-IsSound ref s t.sound)

pub run-Tracked :
    (cs : List Call) (b : ℕ) (m : Mirror) (s : Store)
    → b + total_weight cs < 2 ^ 64
    → IsTracked b m s
    → Returns (Tracked (b + total_weight cs)) (run cs s)
unfolding run
run-Tracked [] b m s lt t = (s, refl, (m, IsTracked-mono b (b + 0) m s (omega arith) t))
run-Tracked (c ∷ cs) b m s lt t =
    Returns-bind (Tracked (b + weight c)) (Tracked (b + (weight c + total_weight cs))) (call c s)
      (run cs) (call-Tracked c b m s (omega arith) t)
      λ u p.
        let (v, e, (m', q)) = run-Tracked cs (b + weight c) p.0 u (omega arith) p.1 in
        (v, e, (m', IsTracked-mono _ _ m' v (omega arith) q))
