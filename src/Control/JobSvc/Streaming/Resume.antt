-- ===== src/Control/JobSvc/Streaming/Resume.antt =====
-- Resuming a log stream by offset.
use xrunner.Base.{
  Bool-cases, List, Option, [], ap, arith, drop, drop-drop, false, inl, inr, leb, length,
  length-drop, refl, suc, take, take-append-rest, take_all, tests, true, zero, ℕ, ◌++◌, ◌+◌, ◌-◌,
  ◌∷◌, ◌≡◌, ◌≤◌,
}
use xrunner.Control.JobSvc.Streaming.{newer, replay_chunks, replay_logs}
use xrunner.Control.Store.Appending.{IsNumbered}
use xrunner.Control.Store.Defs.{Store, compound_key, logs, logs_of}
use xrunner.Control.Store.Numbering.{numbered}
use xrunner.Control.Types.{JobRef, LogChunk}

below : (n after : ℕ) → leb (n + 1) after ≡ true → after - n ≡ suc (after - (n + 1))
below n after h = omega (tests, h)

above : (n after : ℕ) → leb (n + 1) after ≡ false → (after - n ≡ 0) × (after - (n + 1) ≡ 0)
above n after h = ground arith

drop_nil : (k : ℕ) → drop {A = LogChunk} k [] ≡ []
drop_nil zero = refl
drop_nil (suc k) = refl

take_nil : (k : ℕ) → take {A = LogChunk} k [] ≡ []
take_nil zero = refl
take_nil (suc k) = refl

replay_chunks-out :
    (after n last room : ℕ) (xs : List LogChunk)
    → (replay_chunks after (numbered n xs) last room).out
      ≡ take room (drop (after - n) (numbered n xs))
unfolding replay_chunks
replay_chunks-out after n last room [] = rw (drop_nil, take_nil)
replay_chunks-out after n last zero (x ∷ xs) = elim (Bool-cases (leb (n + 1) after)) [
  | inl e ↦ rw e (replay_chunks-out after (n + 1) last zero xs)
  | inr e ↦ rw e
]
replay_chunks-out after n last (suc room) (x ∷ xs) = elim (Bool-cases (leb (n + 1) after)) [
  | inl e ↦ rw e (rw (below n after e) (replay_chunks-out after (n + 1) last (suc room) xs))
  | inr e ↦ rw e (
      rw (above n after e).0 (
        ap (λ l. record x { offset = n + 1 } ∷ l)
          (rw (above n after e).1 at
            (replay_chunks-out after (n + 1) (newer last (n + 1)) room xs))))
]

pub replay_logs-out :
    (ref : Option JobRef) (after room : ℕ) (s : Store)
    → IsNumbered s
    → (replay_logs ref after room s).out ≡ take room (drop after (logs ref s))
unfolding replay_logs logs
replay_logs-out ref after room s h =
    let key = compound_key ref in
    let z : after - 0 ≡ after = omega arith in
    rw (h.offsets key) (rw z at (replay_chunks-out after 0 after room (logs_of key s)))

-- Over a numbered log, a stream that starts after offset `after` sends the chunks past the first
-- `after` ones, in order and each once, as many as the client takes. A client that was cut off and
-- comes back `length first` offsets further on, with room for the rest, gets what was left: the
-- two streams together are the log past `after`, nothing lost and nothing twice.
pub resume_exact :
    (ref : Option JobRef) (after room room' : ℕ) (s : Store)
    → IsNumbered s
    → length (logs ref s) ≤ room'
    → let first = (replay_logs ref after room s).out in
      let second = (replay_logs ref (after + length first) room' s).out in
      (first ≡ take room (drop after (logs ref s))) × (first ++ second ≡ drop after (logs ref s))
resume_exact ref after room room' s h big =
    let all = drop after (logs ref s) in
    let e : (replay_logs ref after room s).out ≡ take room all =
      replay_logs-out ref after room s h in
    let fits : length (drop (length (take room all)) all) ≤ room' =
      omega (arith, length-drop (length (take room all)) all, length-drop after (logs ref s)) in
    (
      e,
      rw
          (
            e,
            replay_logs-out ref (after + length (take room all)) room' s h,
            drop-drop after (length (take room all)) (logs ref s),
            take_all room' (drop (length (take room all)) all) fits,
          )
          (take-append-rest room all),
    )
