-- ===== src/Control/Tests.antt =====
-- Runs of the control plane on small inputs, and its theorems at concrete inputs.
mod Sorting
use xrunner.Base.{
  List, Option, Returns, Text, [], append-nil, arith, codes, drop, get_or, length, map, nat_eq,
  none, refl, some, subst, take, text_beq, text_eq, true, ℕ, ◌++◌, ◌+◌, ◌<◌, ◌^◌, ◌∷◌, ◌≡◌, ◌≤◌,
}
use xrunner.Base.Dict.{insert, lookup}
use xrunner.Control.JobSvc.{SubmitJobRequest, build_job_from_request}
use xrunner.Control.JobSvc.Dispatch.{WorkerStream, dispatch, received, streaming}
use xrunner.Control.JobSvc.Ending.{Ended, get-put, verdict}
use xrunner.Control.JobSvc.Outcome.{dispatch-Ended, running_job}
use xrunner.Control.JobSvc.Streaming.{open_stream}
use xrunner.Control.JobSvc.Streaming.Gap.{subscription_gap}
use xrunner.Control.JobSvc.Streaming.Resume.{resume_exact}
use xrunner.Control.Mirror.{
  Delivers, Fetched, apply_log_event, batch, caught_up, deadline_exceeded, drain, fetched,
  handle_log, hydrate, replay_logs, report, retried, timed_out,
}
use xrunner.Control.Mirror.Drain.{drain-eq-replay, replay}
use xrunner.Control.Mirror.Jobs.{SameJobs}
use xrunner.Control.Mirror.Logs.{SameLogs}
use xrunner.Control.Mirror.Mirrored.{total_weight}
use xrunner.Control.Mirror.Publishing.{Publish, published, published_all}
use xrunner.Control.Mirror.Recovery.{handle_log-Applies, hydrate-SameStore, no_events}
use xrunner.Control.Mirror.Stale.{replay_stale}
use xrunner.Control.Store.Appending.{Appended, IsNumbered, append_numbered-Appended}
use xrunner.Control.Store.Channels.{broadcast, open_chan}
use xrunner.Control.Store.Counting.{empty-IsNumbered, run-IsNumbered}
use xrunner.Control.Store.Defs.{
  Mirror, Store, append_logs, append_numbered, apply_replayed_job, broadcast_locked, compound_key,
  counter, empty, get, logs, number_chunks, put, subs_of,
}
use xrunner.Control.Store.Numbering.{numbered}
use xrunner.Control.Store.Runs.{
  Call, append_call, call, close_call, put_call, run, run-IsSound, subscribe_call, unsubscribe_call,
}
use xrunner.Control.Store.Sound.{IsSound, empty-IsSound, put-IsSound}
use xrunner.Control.Types.{
  Job, JobAssignment, JobRef, LogChunk, RunJobResponse, inline, pos, succeeded,
}
use xrunner.Worker.Server.{run_messages}
use mathlib.Core.List.{Perm}
use xrunner.Control.JobSvc.Streaming as Streaming

abbrev ref_a : JobRef
ref_a = record { tenant_id = codes "acme"; job_id = codes "j1" }

abbrev chunk_of : List ℕ → LogChunk
chunk_of bytes = record { timestamp = none; stream = codes "stdout"; bytes = bytes; offset = 0 }

abbrev request : SubmitJobRequest
request = record {
  tenant_id = codes "acme";
  display_name = codes "demo";
  workload = some (inline (record { executable = codes "sh"; args = []; stdin = [] }));
  env = [];
  resource = none;
  policy = none;
  sandbox = none;
}

abbrev job_a : Job
job_a = build_job_from_request request (codes "j1") 5

abbrev calls : List Call
calls =
    put_call (some job_a)
    ∷ subscribe_call (some ref_a)
    ∷ append_call (some ref_a) (chunk_of (1 ∷ []) ∷ chunk_of (2 ∷ []) ∷ [])
    ∷ close_call (some ref_a)
    ∷ unsubscribe_call (some ref_a) 0
    ∷ []

run-IsSound_example : Returns IsSound (run calls (empty none))
run-IsSound_example = run-IsSound calls (empty none) (empty-IsSound none)

abbrev few_calls : List Call
few_calls = put_call (some job_a) ∷ append_call (some ref_a) (chunk_of (7 ∷ []) ∷ []) ∷ []

abbrev after_calls : Store
after_calls = get_or (run few_calls (empty (some no_events))) (empty none)

ran_few_calls : run few_calls (empty (some no_events)) ≡ some after_calls
unfolding run call put append_logs append_numbered number_chunks broadcast_locked broadcast
    compound_key insert lookup text_beq empty build_job_from_request
ran_few_calls = refl

abbrev mirrored : Mirror
mirrored = get_or after_calls.js no_events

mirrored_few_calls : after_calls.js ≡ some mirrored
unfolding run call put append_logs append_numbered number_chunks broadcast_locked broadcast
    compound_key insert lookup text_beq empty build_job_from_request
mirrored_few_calls = refl

abbrev in_one_batch : {E : Type 0} → List E → List (Fetched E)
in_one_batch [] = timed_out ∷ []
in_one_batch (e ∷ es) =
    batch (map (λ x. record { event = some x; acked = true }) (e ∷ es)) ∷ timed_out ∷ []

in_one_batch-Delivers : {E : Type 0} (evs : List E) → Delivers (in_one_batch evs) evs
in_one_batch-Delivers [] = caught_up
in_one_batch-Delivers (e ∷ es) =
    subst (Delivers (in_one_batch (e ∷ es))) (append-nil (e ∷ es)) (fetched e es caught_up)

abbrev each_ok : {E : Type 0} → List E → List (Publish E)
each_ok es = map (λ e. (e, true)) es

published-Delivers :
    {E : Type 0} (evs : List E) → Delivers (in_one_batch evs) (published (each_ok evs))
published-Delivers evs = rw (published_all evs (each_ok evs) refl) (in_one_batch-Delivers evs)

few_calls-weight : total_weight few_calls < 2 ^ 64
few_calls-weight = omega arith

hydrate-SameStore_example :
    (r : Store) × (hydrate
        (some (in_one_batch mirrored.job_events))
        (some (in_one_batch mirrored.log_events))
        (empty none)
      ≡ some (r, true))
    × SameJobs r after_calls
    × SameLogs r after_calls
hydrate-SameStore_example =
    hydrate-SameStore few_calls after_calls mirrored (in_one_batch mirrored.job_events)
      (in_one_batch mirrored.log_events) (each_ok mirrored.job_events) (each_ok mirrored.log_events)
      few_calls-weight ran_few_calls mirrored_few_calls refl refl
      (published-Delivers mirrored.job_events) (published-Delivers mirrored.log_events)

uncounted_empty : (js : Option Mirror) (key : Text) → counter key (empty js).log_offsets ≤ 0
unfolding empty lookup
uncounted_empty js key = omega arith

run-IsNumbered_example : Returns (λ t. IsSound t × IsNumbered t) (run few_calls (empty none))
run-IsNumbered_example =
    run-IsNumbered few_calls 0 (empty none) (empty-IsSound none) (empty-IsNumbered none)
      (uncounted_empty none) (omega arith)

after_calls-IsNumbered : IsNumbered after_calls
after_calls-IsNumbered =
    let (t, e, h) =
      run-IsNumbered few_calls 0 (empty (some no_events)) (empty-IsSound (some no_events))
        (empty-IsNumbered (some no_events)) (uncounted_empty (some no_events)) (omega arith) in
    subst IsNumbered (ground (arith, e, ran_few_calls)) h.1

two_logged : length (logs (some ref_a) after_calls) ≤ 5
unfolding logs run call put append_logs append_numbered number_chunks broadcast_locked broadcast
    compound_key insert lookup text_beq empty build_job_from_request
two_logged = omega arith

resume_exact_example :
    let first = (Streaming.replay_logs (some ref_a) 0 1 after_calls).out in
    let second = (Streaming.replay_logs (some ref_a) (0 + length first) 5 after_calls).out in
    (first ≡ take 1 (drop 0 (logs (some ref_a) after_calls)))
    × (first ++ second ≡ drop 0 (logs (some ref_a) after_calls))
resume_exact_example = resume_exact (some ref_a) 0 1 5 after_calls after_calls-IsNumbered two_logged

drain-eq-replay_example :
    drain handle_log (deadline_exceeded ∷ in_one_batch mirrored.log_events) (empty none)
    ≡ report true (replay apply_log_event mirrored.log_events (empty none))
drain-eq-replay_example =
    drain-eq-replay handle_log apply_log_event handle_log-Applies
      (retried (in_one_batch-Delivers mirrored.log_events)) (empty none)

abbrev stored : Store
stored = put (some job_a) (empty none)

stored-IsSound : IsSound stored
stored-IsSound = put-IsSound (some job_a) (empty none) (empty-IsSound none)

uncounted : counter (compound_key (some ref_a)) stored.log_offsets ≡ 0
unfolding put empty lookup
uncounted = refl

append_numbered-Appended_example :
    Returns
      (λ t. IsSound t × Appended ref_a 0 (chunk_of (7 ∷ []) ∷ []) stored t)
      (append_numbered ref_a (chunk_of (7 ∷ []) ∷ []) stored)
append_numbered-Appended_example =
    append_numbered-Appended ref_a 0 (chunk_of (7 ∷ []) ∷ []) stored stored-IsSound uncounted
      (omega arith)

abbrev response : RunJobResponse
response = record {
  ref = some ref_a;
  final_state = succeeded;
  exit_code = pos 0;
  status_message = codes "";
  started_at = some 6;
  completed_at = some 9;
  logs = chunk_of (7 ∷ []) ∷ [];
  terminal = true;
}

abbrev worker : JobAssignment → WorkerStream
worker a = streaming (received response ∷ [])

stored_job : get (some ref_a) stored ≡ some job_a
unfolding build_job_from_request
stored_job = get-put ref_a job_a (empty none) refl

ref_of_job_a : job_a.ref ≡ some ref_a
unfolding build_job_from_request
ref_of_job_a = refl

dispatch-Ended_example :
    Returns
      (Ended ref_a
        (verdict (received response ∷ []) 9 (running_job 6 job_a))
        0
        (chunk_of (7 ∷ []) ∷ [])
        stored)
      (dispatch worker (some ref_a) 6 9 stored)
dispatch-Ended_example =
    dispatch-Ended worker ref_a 6 9 0 job_a stored stored-IsSound stored_job ref_of_job_a (refl, tt)
      uncounted (omega arith)

abbrev echoing_worker : JobAssignment → WorkerStream
echoing_worker a = streaming (map received (run_messages (some ref_a) response.logs response))

abbrev running_store : Store
running_store = put (some (running_job 6 job_a)) (empty none)

running_stored : get (some ref_a) running_store ≡ some (running_job 6 job_a)
unfolding build_job_from_request
running_stored = get-put ref_a (running_job 6 job_a) (empty none) refl

running_store-IsNumbered : IsNumbered running_store
unfolding put empty lookup
running_store-IsNumbered = record { offsets = λ key. refl; counted = λ key. refl }

no_chunks_yet : length (logs (some ref_a) running_store) ≡ 0
unfolding put empty lookup logs
no_chunks_yet = refl

subscription_gap_example :
    Returns
      (λ o.
        (o.sent.out ≡ drop 0 (logs (some ref_a) running_store))
        × (logs (some ref_a) o.store
            ≡ logs (some ref_a) running_store
              ++ numbered (length (logs (some ref_a) running_store)) (chunk_of (7 ∷ []) ∷ []))
        × ((id : ℕ) × (c : ℕ) × (o.subscription ≡ some (id, c))
            × (lookup id (subs_of (compound_key (some ref_a)) o.store) ≡ some c)
            × (o.store.chans c ≡ open_chan [])))
      (open_stream
        (some ref_a)
        0
        4
        (append_logs (some ref_a) (chunk_of (7 ∷ []) ∷ []))
        running_store)
subscription_gap_example =
    subscription_gap ref_a 0 4 (chunk_of (7 ∷ []) ∷ []) (running_job 6 job_a) running_store
      (put-IsSound (some (running_job 6 job_a)) (empty none) (empty-IsSound none))
      running_store-IsNumbered running_stored refl (omega (arith, no_chunks_yet))
      (omega (arith, no_chunks_yet))

replay_stale_example :
    let t = apply_replayed_job job_a 1 (apply_replayed_job (running_job 6 job_a) 2 (empty none)) in
    (get (some ref_a) t ≡ some job_a) × (counter (compound_key (some ref_a)) t.job_versions ≡ 2)
unfolding build_job_from_request empty lookup
replay_stale_example =
    replay_stale ref_a (running_job 6 job_a) job_a 1 2 (empty none) ref_of_job_a ref_of_job_a
      (omega arith) (omega arith)
