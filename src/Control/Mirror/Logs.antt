-- ===== src/Control/Mirror/Logs.antt =====
-- Replaying the log events gives the logs and offsets of the store that published them.
use xrunner.Base.{
  ==-self, Bool, List, Returns, Returns-bind, Text, [], ap, append_assoc, arith, false,
  if◌then◌else◌, ltb, map, refl, some, true, ℕ, ◌++◌, ◌+◌, ◌==◌, ◌∙◌, ◌∷◌, ◌≡◌, nat_eq, text_eq,
}
use xrunner.Base.Dict.{insert}
use xrunner.Control.Types.{JobRef, LogChunk}
use xrunner.Control.Store.Sound.{IsSound, broadcast_locked-IsSound}
use xrunner.Control.Store.Numbering.{numbered}
use xrunner.Control.Store.Appending.{Grown, Grown-nil, logs_of_grown}
use xrunner.Control.Store.Defs.{
  Store, apply_replayed_log, compound_key, counter, log_event, logs_of,
}
use xrunner.Control.Mirror.{apply_log_event}
use xrunner.Control.Mirror.Drain.{replay}
use xrunner.Control.Mirror.Jobs.{replayed_version}

pub record SameLogs (r s : Store) : Type 0 where
  pub logs : (key : Text) → logs_of key r ≡ logs_of key s
  pub offsets : (key : Text) → counter key r.log_offsets ≡ counter key s.log_offsets

-- Two stores with the same logs that grow by the same chunks.
pub Grown-SameLogs :
    (ref : JobRef) (n : ℕ) (xs : List LogChunk) (r s r' s' : Store)
    → SameLogs r s
    → Grown ref n xs r r'
    → Grown ref n xs s s'
    → SameLogs r' s'
Grown-SameLogs ref n xs r s r' s' h a b = record {
  logs = λ j. cc (a.logs_grow j, b.logs_grow j, h.logs j);
  offsets = λ j. cc (a.counters_grow j, b.counters_grow j, h.offsets j);
}

split :
    (b : Bool) (l : List LogChunk) (x : LogChunk) (xs : List LogChunk)
    → (if b then (if b then l ++ x ∷ [] else l) ++ xs else (if b then l ++ x ∷ [] else l))
      ≡ (if b then l ++ (x ∷ xs) else l)
split true l x xs = append_assoc l (x ∷ []) xs
split false l x xs = refl

Grown-cons :
    (ref : JobRef) (n : ℕ) (x : LogChunk) (xs : List LogChunk) (r t u : Store)
    → Grown ref n (record x { offset = n + 1 } ∷ []) r t
    → Grown ref (n + 1) xs t u
    → Grown ref n (x ∷ xs) r u
Grown-cons ref n x xs r t u a b = record {
  logs_grow = λ j. cc (
    a.logs_grow j,
    b.logs_grow j,
    split (compound_key (some ref) == j) (logs_of j r) (record x { offset = n + 1 })
        (numbered (n + 1) xs),
  );
  counters_grow = λ j. ground (arith, a.counters_grow j, b.counters_grow j);
  jobs_kept = b.jobs_kept ∙ a.jobs_kept;
  versions_kept = b.versions_kept ∙ a.versions_kept;
}

apply_replayed_log-Grown :
    (ref : JobRef) (n : ℕ) (x : LogChunk) (r : Store)
    → IsSound r
    → counter (compound_key (some ref)) r.log_offsets ≡ n
    → Returns
        (λ t. IsSound t × Grown ref n (x ∷ []) r t)
        (apply_replayed_log (some ref) x (n + 1) r)
unfolding apply_replayed_log
apply_replayed_log-Grown ref n x r h e =
    let key = compound_key (some ref) in
    let copy = record x { offset = n + 1 } in
    let t = record r {
      log_offsets =
          if ltb (counter key r.log_offsets) (n + 1)
          then insert key (n + 1) r.log_offsets
          else r.log_offsets;
      logs = insert key (logs_of key r ++ copy ∷ []) r.logs;
    } in
    let (v, same, both) =
      broadcast_locked-IsSound key (copy ∷ []) t
        (record { unique = h.unique; live = h.live; fresh = h.fresh }) in
    (
      v,
      same,
      (
        both.0,
        record {
          logs_grow =
              λ j. ap (λ (w : Store). logs_of j w) both.1 ∙ logs_of_grown key j (copy ∷ []) r.logs;
          counters_grow = λ j.
              ap (λ (w : Store). counter j w.log_offsets) both.1
              ∙ replayed_version key j (n + 1) r.log_offsets (omega arith);
          jobs_kept = ap (λ (w : Store). w.jobs) both.1;
          versions_kept = ap (λ (w : Store). w.job_versions) both.1;
        },
      ),
    )

pub replay-Grown :
    (ref : JobRef) (n : ℕ) (xs : List LogChunk) (r : Store)
    → IsSound r
    → counter (compound_key (some ref)) r.log_offsets ≡ n
    → Returns
        (λ t. IsSound t × Grown ref n xs r t)
        (replay apply_log_event (map (log_event ref) (numbered n xs)) r)
unfolding replay apply_log_event
replay-Grown ref n [] r h e = (r, refl, (h, Grown-nil ref n r e))
replay-Grown ref n (x ∷ xs) r h e =
    let copy = record x { offset = n + 1 } in
    Returns-bind (λ t. IsSound t × Grown ref n (copy ∷ []) r t)
      (λ u. IsSound u × Grown ref n (x ∷ xs) r u) (apply_replayed_log (some ref) copy (n + 1) r) _
      (apply_replayed_log-Grown ref n copy r h e)
      λ t p.
        let (u, same, q) =
          replay-Grown ref (n + 1) xs t p.0 (
            p.1.counters_grow (compound_key (some ref)) ∙ rw (==-self (compound_key (some ref)))) in
        (u, same, (q.0, Grown-cons ref n x xs r t u p.1 q.1))
