-- ===== src/Control/JobSvc/Streaming.antt =====
-- `StreamJobLogs` of service.go. A client takes `room` messages before its stream fails; what the
-- select of the live loop picks is a list of events.
pub mod Resume
pub mod Gap
use xrunner.Base.{
  Bool, List, Option, [], codes, false, if◌then◌else◌, leb, ltb, none, some, suc, true, zero, ℕ,
  ◌>>=◌, ◌∷◌,
}
use xrunner.Control.Store.Defs.{Store, get, logs, subscribe_logs}
use xrunner.Control.Types.{Job, JobRef, JobState, LogChunk, failed, succeeded}

-- What was sent, the last offset seen, the room left, and whether a send failed.
pub record Sent : Type 0 where
  pub out : List LogChunk
  pub last : ℕ
  pub room : ℕ
  pub failed_send : Bool

abbrev pub newer : ℕ → ℕ → ℕ
newer last off = if ltb last off then off else last

abbrev sent_first : LogChunk → Sent → Sent
sent_first x r = record r { out = x ∷ r.out }

-- The loop over the recorded chunks.
unfoldable pub replay_chunks : ℕ → List LogChunk → ℕ → ℕ → Sent
replay_chunks after [] last room = record {
  out = [];
  last = last;
  room = room;
  failed_send = false;
}
replay_chunks after (x ∷ xs) last room =
    let skipped = replay_chunks after xs last room in
    if leb x.offset after then skipped else elim room [
      | zero ↦ record { out = []; last = newer last x.offset; room = 0; failed_send = true }
      | suc k ↦ sent_first x (replay_chunks after xs (newer last x.offset) k)
    ]

-- The part of the handler before it subscribes.
unfoldable pub replay_logs : Option JobRef → ℕ → ℕ → Store → Sent
unfolding replay_chunks
replay_logs ref after room s = replay_chunks after (logs ref s) after room

abbrev state_ended : JobState → Bool
state_ended JobState.succeeded = true
state_ended JobState.failed = true
state_ended st = false

abbrev job_ended : Option Job → Bool
job_ended none = false
job_ended (some job) = state_ended job.state

-- A job that has ended is not subscribed to.
unfoldable pub stops_after_replay : Option JobRef → Store → Bool
stops_after_replay ref s = job_ended (get ref s)

-- What the handler has done when its live loop begins, or when it ends before that: what it sent, the
-- id and channel of its subscription, and the store.
pub record Opened : Type 0 where
  pub sent : Sent
  pub subscription : Option (ℕ × ℕ)
  pub store : Store

abbrev subscribe_unless : Bool → Sent → Option JobRef → Store → Opened
subscribe_unless true sent ref s = record { sent = sent; subscription = none; store = s }
subscribe_unless false sent ref s =
    let (t, sub) = subscribe_logs ref s in
    record { sent = sent; subscription = some sub; store = t }

-- The handler up to its live loop. Each call of the store takes its lock anew: `meanwhile` is what other
-- goroutines do between the reading of the log and the reading of the job.
unfoldable pub open_stream : Option JobRef → ℕ → ℕ → (Store → Option Store) → Store → Option Opened
unfolding replay_logs stops_after_replay
open_stream ref after room meanwhile s =
    let sent = replay_logs ref after room s in
    if sent.failed_send
    then some (record { sent = sent; subscription = none; store = s })
    else (meanwhile s >>= λ t. some (subscribe_unless (stops_after_replay ref t) sent ref t))

pub data LiveEvent : Type 0 where
  cancelled : LiveEvent
  ticked : ℕ → LiveEvent
  chunk_received : LogChunk → LiveEvent
  channel_closed : LiveEvent

abbrev heartbeat : ℕ → ℕ → LogChunk
heartbeat now last = record {
  timestamp = some now;
  stream = codes "heartbeat";
  bytes = [];
  offset = last;
}

pub data Ending : Type 0 where
  finished context_done send_error listening : Ending

pub record Live : Type 0 where
  pub out : List LogChunk
  pub ending : Ending

abbrev live_first : LogChunk → Live → Live
live_first x r = record r { out = x ∷ r.out }

-- for { select { … } }
unfoldable pub live_loop : List LiveEvent → ℕ → ℕ → ℕ → Live
live_loop [] after last room = record { out = []; ending = listening }
live_loop (cancelled ∷ es) after last room = record { out = []; ending = context_done }
live_loop (channel_closed ∷ es) after last room = record { out = []; ending = finished }
live_loop (ticked now ∷ es) after last zero = record { out = []; ending = send_error }
live_loop (ticked now ∷ es) after last (suc room) =
    live_first (heartbeat now last) (live_loop es after last room)
live_loop (chunk_received x ∷ es) after last room =
    let skipped = live_loop es after last room in
    if leb x.offset after then skipped else elim room [
      | zero ↦ record { out = []; ending = send_error }
      | suc k ↦ live_first x (live_loop es after (newer last x.offset) k)
    ]
