-- ===== src/Session/Tests.antt =====
-- The session store's theorems at concrete inputs, with a plain encoding of events.
use xrunner.Base.{
  Bool, List, Option, Text, [], arith, codes, drop, drop-append, false, length, nat_eq, none, refl,
  some, suc, take, take-append, text_beq, text_eq, true, zero, ℕ, ◌++◌, ◌∷◌, ◌≡◌, ◌≤◌, ◌⊎◌,
}
use xrunner.Base.Dict.{insert, lookup}
use xrunner.Session.Defs.{
  AgentEvent, Dir, Session, SessionMeta, Store, append_event, buffer_size, create, load_locked, new,
  replay, stamped,
}
use xrunner.Session.Delimited.{got, put_uvarint, put_uvarint_fuel, read_delimited, write_delimited}
use xrunner.Session.Delimited.RoundTrip.{delimited_round}
use xrunner.Session.History.{
  append_event-Recorded, low_lane_unseen, reopen-Recorded, replay-Recorded,
}
use xrunner.Session.Recording.{Recorded, create-Recorded}

abbrev code_time : Option ℕ → ℕ
code_time none = 0
code_time (some t) = suc t

abbrev time_of : ℕ → Option ℕ
time_of zero = none
time_of (suc t) = some t

abbrev code_lane : Bool → ℕ
code_lane true = 1
code_lane false = 0

abbrev lane_of : ℕ → Bool
lane_of zero = false
lane_of (suc n) = true

abbrev to_bytes : AgentEvent → List ℕ
to_bytes ev =
    ev.event_id
    ∷ code_time ev.timestamp
    ∷ code_lane ev.low_lane
    ∷ length ev.session_id
    ∷ (ev.session_id ++ ev.payload)

abbrev of_bytes : List ℕ → Option AgentEvent
of_bytes (id ∷ t ∷ lane ∷ n ∷ rest) = some (record {
  session_id = take n rest;
  event_id = id;
  timestamp = time_of t;
  low_lane = lane_of lane;
  payload = drop n rest;
})
of_bytes bytes = none

time_back : (t : Option ℕ) → time_of (code_time t) ≡ t
time_back none = refl
time_back (some t) = refl

lane_back : (b : Bool) → lane_of (code_lane b) ≡ b
lane_back true = refl
lane_back false = refl

bytes_back : (ev : AgentEvent) → of_bytes (to_bytes ev) ≡ some ev
bytes_back ev =
    rw
      (
        take-append ev.session_id ev.payload,
        drop-append ev.session_id ev.payload,
        time_back ev.timestamp,
        lane_back ev.low_lane,
      )
      refl

abbrev session_a : Text
session_a = codes "s1"

abbrev event_of : Bool → AgentEvent
event_of low = record {
  session_id = session_a;
  event_id = 0;
  timestamp = none;
  low_lane = low;
  payload = 1 ∷ 2 ∷ [];
}

abbrev created : SessionMeta × Store
created = create to_bytes of_bytes session_a (codes "/w") [] 5 (new [])

abbrev fresh : Session
fresh = record { meta = created.0; next_id = 1; buffered = []; last_sync = 5 }

created-Recorded : Recorded to_bytes of_bytes [] session_a created.1 fresh
created-Recorded = create-Recorded to_bytes of_bytes session_a (codes "/w") [] 5 (new [])

delimited_round_example :
    read_delimited (write_delimited (7 ∷ 8 ∷ []) ++ 9 ∷ []) ≡ got (7 ∷ 8 ∷ []) (9 ∷ [])
delimited_round_example = delimited_round (7 ∷ 8 ∷ []) (9 ∷ []) (omega arith) (omega arith)

append_event-Recorded_example :
    let copy = stamped to_bytes of_bytes (event_of false) 1 9 in
    (t : Store) × (sess : Session) × (append_event to_bytes of_bytes
        (some (event_of false))
        9
        created.1
      ≡ some (copy, t))
    × Recorded to_bytes of_bytes (copy ∷ []) session_a t sess
    × ((false ≡ true) ⊎ (sess.buffered ≡ []))
append_event-Recorded_example =
    append_event-Recorded to_bytes of_bytes bytes_back [] (event_of false) 9 created.1 fresh
      created-Recorded refl (omega arith, omega arith)

replay-Recorded_example : replay to_bytes of_bytes session_a 0 9 created.1 ≡ some ([], created.1)
replay-Recorded_example =
    replay-Recorded to_bytes of_bytes bytes_back [] session_a created.1 fresh 0 9 created-Recorded
      refl refl

abbrev stored_dir : Dir
stored_dir = record { meta = some created.0; events = [] }

stored : lookup session_a created.1.root ≡ some stored_dir
unfolding create new lookup insert text_beq
stored = refl

reopen-Recorded_example :
    (t : Store) × (sess : Session) × (load_locked to_bytes of_bytes session_a 20
        (new created.1.root)
      ≡ some (sess, t))
    × Recorded to_bytes of_bytes [] session_a t sess
reopen-Recorded_example =
    reopen-Recorded to_bytes of_bytes bytes_back [] session_a created.1 fresh stored_dir created.0
      20 created-Recorded refl stored refl

record_small :
    length (write_delimited (to_bytes (stamped to_bytes of_bytes (event_of true) 1 9)))
    ≤ buffer_size
unfolding write_delimited put_uvarint put_uvarint_fuel
record_small = omega arith

low_lane_unseen_example :
    let copy = stamped to_bytes of_bytes (event_of true) 1 9 in
    (t : Store) × (append_event to_bytes of_bytes (some (event_of true)) 9 created.1
      ≡ some (copy, t))
    × (replay to_bytes of_bytes session_a 0 9 t ≡ some ([], t))
low_lane_unseen_example =
    low_lane_unseen to_bytes of_bytes bytes_back [] (event_of true) 0 9 created.1 fresh
      created-Recorded refl refl refl (omega arith) record_small
