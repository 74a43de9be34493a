-- ===== src/Control/Store/Counting.antt =====
-- The offsets that the calls of a store give to log chunks.
use xrunner.Base.{
  List, Option, Returns, Returns-bind, Text, [], ap, arith, get_or, length, nat_eq, none, refl,
  some, text_eq, ℕ, ◌+◌, ◌<◌, ◌^◌, ◌∷◌, ◌≡◌, ◌≤◌,
}
use xrunner.Base.Dict.{Dict, lookup}
use xrunner.Control.Store.Appending.{Grown-IsNumbered, IsNumbered, append_numbered-Appended}
use xrunner.Control.Store.Defs.{
  Mirror, Store, append_logs, close_log_streams, compound_key, counter, empty, logs_of, put,
  subscribe_logs, unsubscribe_logs,
}
use xrunner.Control.Store.Runs.{
  Call, append_call, call, close_call, put_call, run, subscribe_call, unsubscribe_call,
}
use xrunner.Control.Store.Safety.{Kept, close_log_streams-IsSound, unsubscribe_logs-IsSound}
use xrunner.Control.Store.Sound.{IsSound, put-IsSound, subscribe_logs-IsSound}
use xrunner.Control.Types.{Job, JobRef, LogChunk}

-- How many chunks the calls hand over.
abbrev pub chunk_count : List Call → ℕ
chunk_count [] = 0
chunk_count (append_call ref xs ∷ cs) = length xs + chunk_count cs
chunk_count (put_call job ∷ cs) = chunk_count cs
chunk_count (subscribe_call ref ∷ cs) = chunk_count cs
chunk_count (unsubscribe_call ref id ∷ cs) = chunk_count cs
chunk_count (close_call ref ∷ cs) = chunk_count cs

-- A sound and numbered store whose counters are at most `b`.
record Counted (b : ℕ) (s : Store) : Type 0 where
  sound : IsSound s
  numbered_logs : IsNumbered s
  few : (key : Text) → counter key s.log_offsets ≤ b

Counted-mono : (b c : ℕ) (s : Store) → b ≤ c → Counted b s → Counted c s
Counted-mono b c s le h = record {
  sound = h.sound;
  numbered_logs = h.numbered_logs;
  few = λ key. omega (arith, le, h.few key);
}

same-Counted :
    (b : ℕ) (s t : Store)
    → t.logs ≡ s.logs
    → t.log_offsets ≡ s.log_offsets
    → IsSound t
    → Counted b s
    → Counted b t
same-Counted b s t l o sound h =
    let at_logs : (j : Text) → logs_of j t ≡ logs_of j s =
      λ j. ap (λ (m : Dict Text (List LogChunk)). get_or (lookup j m) []) l in
    let at_offsets : (j : Text) → counter j t.log_offsets ≡ counter j s.log_offsets =
      λ j. ap (counter j) o in
    record {
      sound = sound;
      numbered_logs = record {
        offsets = λ j. cc (at_logs j, h.numbered_logs.offsets j);
        counted = λ j. cc (at_logs j, at_offsets j, h.numbered_logs.counted j);
      };
      few = λ j. rw (at_offsets j) (h.few j);
    }

put-Counted : (b : ℕ) (job : Option Job) (s : Store) → Counted b s → Counted b (put job s)
unfolding put
put-Counted b none s h = h
put-Counted b (some job) s h =
    same-Counted b s (put (some job) s) refl refl (put-IsSound (some job) s h.sound) h

Kept-Counted :
    (b : ℕ) (s : Store) (o : Option Store)
    → Counted b s
    → Returns (Kept s) o
    → Returns (Counted b) o
Kept-Counted b s o h (t, e, k) =
    let only = k.1 in
    (
      t,
      e,
      same-Counted b s t (ap (λ (w : Store). w.logs) only) (ap (λ (w : Store). w.log_offsets) only)
          k.0 h,
    )

append_logs-Counted :
    (b : ℕ) (ref : Option JobRef) (xs : List LogChunk) (s : Store)
    → b + length xs < 2 ^ 64
    → Counted b s
    → Returns (Counted (b + length xs)) (append_logs ref xs s)
unfolding append_logs
append_logs-Counted b none xs s lt h = (s, refl, Counted-mono b (b + length xs) s (omega arith) h)
append_logs-Counted b (some ref) [] s lt h = (s, refl, Counted-mono b (b + 0) s (omega arith) h)
append_logs-Counted b (some ref) (x ∷ xs) s lt h =
    let key = compound_key (some ref) in
    let n = counter key s.log_offsets in
    let (u, e, (sound, a)) =
      append_numbered-Appended ref n (x ∷ xs) s h.sound refl (omega (arith, lt, h.few key)) in
    (
      u,
      e,
      record {
        sound = sound;
        numbered_logs = Grown-IsNumbered ref n (x ∷ xs) s u h.numbered_logs refl a.grown;
        few = λ j. ground (arith, a.grown.counters_grow j, h.few key, h.few j);
      },
    )

run-Counted :
    (cs : List Call) (b : ℕ) (s : Store)
    → b + chunk_count cs < 2 ^ 64
    → Counted b s
    → Returns (Counted (b + chunk_count cs)) (run cs s)
unfolding run call
run-Counted [] b s lt h = (s, refl, Counted-mono b (b + 0) s (omega arith) h)
run-Counted (append_call ref xs ∷ cs) b s lt h =
    Returns-bind (Counted (b + length xs)) (Counted (b + (length xs + chunk_count cs)))
      (append_logs ref xs s) (run cs) (append_logs-Counted b ref xs s (omega (arith, lt)) h)
      λ u p.
        let (v, e, q) = run-Counted cs (b + length xs) u (omega (arith, lt)) p in
        (v, e, Counted-mono _ _ v (omega arith) q)
run-Counted (put_call job ∷ cs) b s lt h = run-Counted cs b (put job s) lt (put-Counted b job s h)
run-Counted (subscribe_call ref ∷ cs) b s lt h =
    Returns-bind (Counted b) (Counted (b + chunk_count cs)) (some (subscribe_logs ref s).0) (run cs)
      (Kept-Counted b s _ h
        (_, refl, (subscribe_logs-IsSound ref s h.sound, unfold subscribe_logs in refl)))
      λ u p. run-Counted cs b u lt p
run-Counted (unsubscribe_call ref id ∷ cs) b s lt h =
    Returns-bind (Counted b) (Counted (b + chunk_count cs)) (unsubscribe_logs ref id s) (run cs)
      (Kept-Counted b s _ h (unsubscribe_logs-IsSound ref id s h.sound))
      λ u p. run-Counted cs b u lt p
run-Counted (close_call ref ∷ cs) b s lt h =
    Returns-bind (Counted b) (Counted (b + chunk_count cs)) (close_log_streams ref s) (run cs)
      (Kept-Counted b s _ h (close_log_streams-IsSound ref s h.sound))
      λ u p. run-Counted cs b u lt p

pub empty-IsNumbered : (js : Option Mirror) → IsNumbered (empty js)
unfolding empty lookup
empty-IsNumbered js = record { offsets = λ key. refl; counted = λ key. refl }

-- From a sound store, with or without a mirror, in which the chunks of every log carry the offsets
-- 1, 2, 3, … in order and every counter is the length of its log and at most `b`: any calls that
-- append fewer than 2^64 - b chunks run through without a panic, and then the store is sound and
-- again every log carries 1, 2, 3, … and every counter is the length of its log.
pub run-IsNumbered :
    (cs : List Call) (b : ℕ) (s : Store)
    → IsSound s
    → IsNumbered s
    → ((key : Text) → counter key s.log_offsets ≤ b)
    → b + chunk_count cs < 2 ^ 64
    → Returns (λ t. IsSound t × IsNumbered t) (run cs s)
run-IsNumbered cs b s sound n few lt =
    let (t, e, h) =
      run-Counted cs b s lt (record { sound = sound; numbered_logs = n; few = few }) in
    (t, e, (h.sound, h.numbered_logs))
