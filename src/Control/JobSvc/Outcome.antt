-- ===== src/Control/JobSvc/Outcome.antt =====
-- What a dispatch leaves behind: the final job, its log, and no open log stream.
use xrunner.Base.{
  ==-self, Bool, List, Option, Returns, Returns-bind, Text, [], ap, arith, false, get_or,
  if◌then◌else◌, length, length-append, nat_eq, refl, some, text_eq, true, ℕ, ◌++◌, ◌+◌, ◌<◌, ◌^◌,
  ◌∙◌, ◌∷◌, ◌≡◌,
}
use xrunner.Base.Dict.{Dict, lookup}
use xrunner.Control.JobSvc.{apply_completion, apply_failure, completed_job, failed_job}
use xrunner.Control.JobSvc.Dispatch.{
  Recv, WorkerStream, assignment_of, dispatch, receive_loop, received, recv_failed, refused, run_on,
  streaming,
}
use xrunner.Control.JobSvc.Ending.{
  Answers, Ended, Ended-after, finish_job-Ended, get-put, put-logs, recorded, verdict,
}
use xrunner.Control.Store.Appending.{Grown, append_logs-Grown}
use xrunner.Control.Store.Defs.{Store, append_logs, compound_key, counter, get, logs, put}
use xrunner.Control.Store.Numbering.{numbered}
use xrunner.Control.Store.Sound.{IsSound, put-IsSound}
use xrunner.Control.Types.{Job, JobAssignment, JobRef, JobState, LogChunk, RunJobResponse}

-- What is known of the store while the answers come in.
record InFlight (ref : JobRef) (n : ℕ) (job : Job) (s : Store) : Type 0 where
  sound : IsSound s
  stored : get (some ref) s ≡ some job
  named : job.ref ≡ some ref
  counted : counter (compound_key (some ref)) s.log_offsets ≡ n

Grown-InFlight :
    (ref : JobRef) (n : ℕ) (job : Job) (xs : List LogChunk) (s t : Store)
    → InFlight ref n job s
    → IsSound t
    → Grown ref n xs s t
    → InFlight ref (n + length xs) job t
unfolding get
Grown-InFlight ref n job xs s t f h g = record {
  sound = h;
  stored = ap (lookup (compound_key (some ref))) g.jobs_kept ∙ f.stored;
  named = f.named;
  counted = g.counters_grow (compound_key (some ref)) ∙ rw (==-self (compound_key (some ref)));
}

apply_failure-Ended :
    (ref : JobRef) (message : Text) (now n : ℕ) (job : Job) (s : Store)
    → InFlight ref n job s
    → Returns
        (Ended ref (failed_job message now job) n [] s)
        (apply_failure (some ref) message now s)
unfolding apply_failure
apply_failure-Ended ref message now n job s f =
    rw f.stored (finish_job-Ended ref (failed_job message now job) n s f.sound f.named)

apply_completion-Ended :
    (ref : JobRef) (resp : RunJobResponse) (now n : ℕ) (job : Job) (s : Store)
    → resp.ref ≡ some ref
    → InFlight ref n job s
    → Returns (Ended ref (completed_job resp now job) n [] s) (apply_completion resp now s)
unfolding apply_completion
apply_completion-Ended ref resp now n job s e f =
    rw (e, f.stored) (finish_job-Ended ref (completed_job resp now job) n s f.sound f.named)

-- The step after the chunks of one answer were appended.
next_answer :
    (b : Bool) (ref : JobRef) (n : ℕ) (xs ys : List LogChunk) (last rest : Job) (s t : Store)
    (stop go : Option Store)
    → Grown ref n xs s t
    → Returns (Ended ref last (n + length xs) [] t) stop
    → (b ≡ false → Returns (Ended ref rest (n + length xs) ys t) go)
    → Returns
        (Ended ref (if b then last else rest) n (xs ++ (if b then [] else ys)) s)
        (if b then stop else go)
next_answer true ref n xs ys last rest s t stop go g (u, e, h) k =
    (u, e, Ended-after ref last n xs [] s t u g h)
next_answer false ref n xs ys last rest s t stop go g h k =
    let (u, e, m) = k refl in (u, e, Ended-after ref rest n xs ys s t u g m)

receive_loop-InFlight :
    (rs : List Recv) (ref : JobRef) (now n : ℕ) (job : Job) (s : Store)
    → InFlight ref n job s
    → Answers ref rs
    → n + length (recorded rs) < 2 ^ 64
    → Returns (Ended ref (verdict rs now job) n (recorded rs) s) (receive_loop rs (some ref) now s)
unfolding receive_loop
receive_loop-InFlight [] ref now n job s f a b = apply_failure-Ended ref _ now n job s f
receive_loop-InFlight (recv_failed message ∷ rs) ref now n job s f a b =
    apply_failure-Ended ref message now n job s f
receive_loop-InFlight (received resp ∷ rs) ref now n job s f a b =
    let xs = resp.logs in
    let ys = recorded rs in
    Returns-bind (λ t. IsSound t × Grown ref n xs s t)
      (Ended ref (verdict (received resp ∷ rs) now job) n (recorded (received resp ∷ rs)) s)
      (append_logs (some ref) xs s) _
      (append_logs-Grown ref n xs s f.sound f.counted
        (omega (arith, length-append xs (if resp.terminal then [] else ys))))
      λ t p.
        let f' = Grown-InFlight ref n job xs s t f p.0 p.1 in
        next_answer resp.terminal ref n xs ys (completed_job resp now job) (verdict rs now job) s t
          _ _ p.1 (apply_completion-Ended ref resp now (n + length xs) job t a.0 f')
          λ y. receive_loop-InFlight rs ref now (n + length xs) job t f' a.1 (
            omega (
              arith,
              length-append xs (if resp.terminal then [] else ys),
              ap (λ (w : Bool). length (if w then [] else ys)) y,
            ))

-- The job as `dispatch` marks it before it calls the worker.
abbrev pub running_job : ℕ → Job → Job
running_job start job = record job { state = JobState.running; update_time = some start }

abbrev pub answers_of : WorkerStream → List Recv
answers_of (streaming rs) = rs
answers_of (refused message) = recv_failed message ∷ []

run_on-eq :
    (w : WorkerStream) (ref : Option JobRef) (now : ℕ) (s : Store)
    → run_on w ref now s ≡ receive_loop (answers_of w) ref now s
unfolding run_on receive_loop
run_on-eq (streaming rs) ref now s = refl
run_on-eq (refused message) ref now s = refl

-- The dispatch of a stored job never panics and always ends the job: whatever the worker answers,
-- as long as its answers name the job (and the log stays below 2^64 chunks), the stored job is the
-- verdict of the answers on the running job, the log has grown by exactly the chunks answered up
-- to the deciding one, numbered on, and no log subscriber of the job is left.
pub dispatch-Ended :
    (worker : JobAssignment → WorkerStream) (ref : JobRef) (start now n : ℕ) (job : Job) (s : Store)
    → IsSound s
    → get (some ref) s ≡ some job
    → job.ref ≡ some ref
    → Answers ref (answers_of (worker (assignment_of job)))
    → counter (compound_key (some ref)) s.log_offsets ≡ n
    → n + length (recorded (answers_of (worker (assignment_of job)))) < 2 ^ 64
    → let rs = answers_of (worker (assignment_of job)) in
      Returns
        (Ended ref (verdict rs now (running_job start job)) n (recorded rs) s)
        (dispatch worker (some ref) start now s)
unfolding dispatch logs
dispatch-Ended worker ref start now n job s h g e a c b =
    let rs = answers_of (worker (assignment_of job)) in
    let u = put (some (running_job start job)) s in
    let (t, q, k) =
      receive_loop-InFlight rs ref now n (running_job start job) u
        (record {
          sound = put-IsSound (some (running_job start job)) s h;
          stored = get-put ref (running_job start job) s e;
          named = e;
          counted =
              ap (counter (compound_key (some ref))) (put-logs (running_job start job) s).1 ∙ c;
        })
        a b in
    rw (g, run_on-eq)
      (
        t,
        q,
        record {
          sound = k.sound;
          stored = k.stored;
          logged =
              k.logged
              ∙ ap
                  (λ (l : Dict Text (List LogChunk)).
                    get_or (lookup (compound_key (some ref)) l) [] ++ numbered n (recorded rs))
                  (put-logs (running_job start job) s).0;
          closed = k.closed;
        },
      )
