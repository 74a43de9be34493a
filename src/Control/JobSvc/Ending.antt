-- ===== src/Control/JobSvc/Ending.antt =====
-- What the end of a job leaves behind: the final job, its log, and no open log stream.
use xrunner.Base.{
  ==-self, List, Returns, Text, [], ap, append-nil, append_assoc, arith, codes, get_or,
  if◌then◌else◌, length, nat_eq, refl, some, sym, text_eq, ℕ, ◌++◌, ◌+◌, ◌∙◌, ◌∷◌, ◌≡◌,
}
use xrunner.Base.Dict.{Dict, delete, insert, lookup, lookup-delete, lookup-insert_self}
use xrunner.Control.JobSvc.{completed_job, failed_job, finish_job}
use xrunner.Control.JobSvc.Dispatch.{Recv, received, recv_failed}
use xrunner.Control.Store.Appending.{Grown, numbered-append}
use xrunner.Control.Store.Defs.{
  Store, close_log_streams, close_subs, compound_key, get, logs, logs_of, put, subs_of,
}
use xrunner.Control.Store.Numbering.{numbered}
use xrunner.Control.Store.Safety.{close_log_streams-IsSound}
use xrunner.Control.Store.Sound.{IsSound, put-IsSound}
use xrunner.Control.Types.{Job, JobRef, LogChunk}

-- The job that a worker's answers should lead to: the first terminal answer decides, and a stream
-- that breaks off before one is a failure.
abbrev pub verdict : List Recv → ℕ → Job → Job
verdict [] now job = failed_job (codes "worker stream closed unexpectedly") now job
verdict (recv_failed message ∷ rs) now job = failed_job message now job
verdict (received resp ∷ rs) now job =
    if resp.terminal then completed_job resp now job else verdict rs now job

-- The chunks of the answers up to the one that decides.
abbrev pub recorded : List Recv → List LogChunk
recorded [] = []
recorded (recv_failed message ∷ rs) = []
recorded (received resp ∷ rs) = resp.logs ++ (if resp.terminal then [] else recorded rs)

-- Every answer names the job that was dispatched.
abbrev pub Answers : JobRef → List Recv → Type 0
Answers ref [] = Unit
Answers ref (recv_failed message ∷ rs) = Answers ref rs
Answers ref (received resp ∷ rs) = (resp.ref ≡ some ref) × Answers ref rs

-- `t` is `s` after the job ended as `job`, with the chunks `xs` in its log.
pub record Ended (ref : JobRef) (job : Job) (n : ℕ) (xs : List LogChunk) (s t : Store)
    : Type 0 where
  pub sound : IsSound t
  pub stored : get (some ref) t ≡ some job
  pub logged : logs (some ref) t ≡ logs (some ref) s ++ numbered n xs
  pub closed : subs_of (compound_key (some ref)) t ≡ []

subs_of-delete :
    (key : Text) (m : Dict Text (Dict ℕ ℕ)) → get_or (lookup key (delete key m)) [] ≡ []
subs_of-delete key m = rw (lookup-delete, ==-self key)

close_subs-closed :
    (key : Text) (subs : Dict ℕ ℕ) (s t : Store)
    → subs_of key s ≡ subs
    → close_subs key subs s ≡ some t
    → subs_of key t ≡ []
unfolding close_subs
close_subs-closed key [] s t e h = ground (arith, e, h)
close_subs-closed key (x ∷ xs) s t e h = ground (arith, h, subs_of-delete key s.log_subs)

pub get-put :
    (ref : JobRef) (job : Job) (s : Store)
    → job.ref ≡ some ref
    → get (some ref) (put (some job) s) ≡ some job
unfolding get put
get-put ref job s e =
    ap (λ k. lookup (compound_key (some ref)) (insert k job s.jobs)) (ap compound_key e)
    ∙ lookup-insert_self (compound_key (some ref)) job s.jobs

pub put-logs :
    (job : Job) (s : Store)
    → ((put (some job) s).logs ≡ s.logs) × ((put (some job) s).log_offsets ≡ s.log_offsets)
unfolding put
put-logs job s = (refl, refl)

pub finish_job-Ended :
    (ref : JobRef) (job : Job) (n : ℕ) (s : Store)
    → IsSound s
    → job.ref ≡ some ref
    → Returns (Ended ref job n [] s) (finish_job (some ref) (some job) s)
unfolding finish_job close_log_streams get logs
finish_job-Ended ref job n s h e =
    let key = compound_key (some ref) in
    let u = put (some job) s in
    let (t, q, p) = close_log_streams-IsSound (some ref) u (put-IsSound (some job) s h) in
    (
      t,
      q,
      record {
        sound = p.0;
        stored = ap (λ (w : Store). lookup key w.jobs) p.1 ∙ get-put ref job s e;
        logged =
            ap (λ (w : Store). logs_of key w) p.1
            ∙ ap (λ (l : Dict Text (List LogChunk)). get_or (lookup key l) []) (put-logs job s).0
            ∙ sym (append-nil (logs_of key s));
        closed = close_subs-closed key (subs_of key u) u t refl q;
      },
    )

-- The end of a job whose log grew before.
pub Ended-after :
    (ref : JobRef) (job : Job) (n : ℕ) (xs ys : List LogChunk) (s t u : Store)
    → Grown ref n xs s t
    → Ended ref job (n + length xs) ys t u
    → Ended ref job n (xs ++ ys) s u
unfolding logs
Ended-after ref job n xs ys s t u g h =
    let key = compound_key (some ref) in
    let grown : logs_of key t ≡ logs_of key s ++ numbered n xs =
      g.logs_grow key ∙ rw (==-self key) in
    record {
      sound = h.sound;
      stored = h.stored;
      logged =
          h.logged
          ∙ cc (
            grown,
            append_assoc (logs_of key s) (numbered n xs) (numbered (n + length xs) ys),
            numbered-append n xs ys,
          );
      closed = h.closed;
    }
