-- ===== src/Control/JobSvc/Streaming/Gap.antt =====
-- The handler reads the log, and only later subscribes, in two critical sections of the store.
use xrunner.Base.{
  ==-self, Bool-cases, List, Returns, [], ap, arith, drop, false, get_or, inl, inr, leb, length,
  length-drop, nat_eq, refl, some, suc, take_all, text_eq, zero, ℕ, ◌++◌, ◌+◌, ◌<◌, ◌^◌, ◌∙◌, ◌∷◌,
  ◌≡◌, ◌≤◌,
}
use xrunner.Base.Dict.{insert, lookup, lookup-insert_self}
use xrunner.Control.JobSvc.Streaming.{
  newer, open_stream, replay_chunks, replay_logs, stops_after_replay,
}
use xrunner.Control.JobSvc.Streaming.Resume.{replay_logs-out}
use xrunner.Control.Store.Appending.{IsNumbered, append_logs-Grown}
use xrunner.Control.Store.Channels.{open_chan}
use xrunner.Control.Store.Defs.{
  Store, append_logs, compound_key, get, logs, subs_of, subscribe_logs,
}
use xrunner.Control.Store.Numbering.{numbered}
use xrunner.Control.Store.Sound.{IsSound}
use xrunner.Control.Types.{Job, JobRef, JobState, LogChunk}

replay_chunks-room :
    (after last room : ℕ) (xs : List LogChunk)
    → length xs ≤ room
    → (replay_chunks after xs last room).failed_send ≡ false
unfolding replay_chunks
replay_chunks-room after last room [] h = refl
replay_chunks-room after last zero (x ∷ xs) h = absurd (omega arith)
replay_chunks-room after last (suc room) (x ∷ xs) h = elim (Bool-cases (leb x.offset after)) [
  | inl e ↦ rw e (replay_chunks-room after last (suc room) xs (omega arith))
  | inr e ↦ rw e (replay_chunks-room after (newer last x.offset) room xs (omega arith))
]

-- In a sound and numbered store, for a job that is running, a client that takes all that is sent, and a
-- log below 2^64 chunks: if chunks are appended after StreamJobLogs has read the log and before it
-- subscribes, the handler has sent the log of before from the asked offset on, and now the chunks stand
-- in the log behind that, but it listens on a channel that is open and empty: they were not sent, and the
-- channel does not bring them.
pub subscription_gap :
    (ref : JobRef) (after room : ℕ) (xs : List LogChunk) (job : Job) (s : Store)
    → IsSound s
    → IsNumbered s
    → get (some ref) s ≡ some job
    → job.state ≡ JobState.running
    → length (logs (some ref) s) ≤ room
    → length (logs (some ref) s) + length xs < 2 ^ 64
    → Returns
        (λ o.
          (o.sent.out ≡ drop after (logs (some ref) s))
          × (logs (some ref) o.store
              ≡ logs (some ref) s ++ numbered (length (logs (some ref) s)) xs)
          × ((id : ℕ) × (c : ℕ) × (o.subscription ≡ some (id, c))
              × (lookup id (subs_of (compound_key (some ref)) o.store) ≡ some c)
              × (o.store.chans c ≡ open_chan [])))
        (open_stream (some ref) after room (append_logs (some ref) xs) s)
unfolding open_stream subscribe_logs logs stops_after_replay get replay_logs
subscription_gap ref after room xs job s h numbers g r big b =
    let key = compound_key (some ref) in
    let n = length (logs (some ref) s) in
    let (t, q, p) = append_logs-Grown ref n xs s h (numbers.counted key) b in
    let subs = insert t.next_sub_id t.next_chan (subs_of key t) in
    let now_subs : get_or (lookup key (insert key subs t.log_subs)) [] ≡ subs =
      ap (λ o. get_or o []) (lookup-insert_self key subs t.log_subs) in
    let still : get (some ref) t ≡ some job = ap (lookup key) p.1.jobs_kept ∙ g in
    let sent : (replay_logs (some ref) after room s).failed_send ≡ false =
      replay_chunks-room after after room (logs (some ref) s) big in
    rw (sent, q, still_running t still)
      (
        _,
        refl,
        (
          replay_logs-out (some ref) after room s numbers
              ∙ take_all room (drop after (logs (some ref) s))
                  (omega (arith, big, length-drop after (logs (some ref) s))),
          p.1.logs_grow key ∙ rw (==-self key) refl,
          (
            t.next_sub_id,
            t.next_chan,
            refl,
            rw now_subs (lookup-insert_self t.next_sub_id t.next_chan (subs_of key t)),
            ground arith,
          ),
        ),
      )
  where
    still_running :
        (u : Store) → get (some ref) u ≡ some job → stops_after_replay (some ref) u ≡ false
    still_running u e = rw (e, r) refl
