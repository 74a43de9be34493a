-- ===== src/Session/History.antt =====
-- The methods of the session store on recorded sessions. For all of it, unmarshalling gives back what
-- was marshalled, as protobuf promises.
use xrunner.Base.{
  All, All-append, Bool-cases, List, Option, Text, [], ap, append-nil, arith, drop, false, inl, inr,
  is_empty, length, length-append, nat_eq, not, refl, some, suc, sym, text_eq, true, zero, ℕ, ◌*◌,
  ◌++◌, ◌+◌, ◌<◌, ◌>>=◌, ◌∙◌, ◌∷◌, ◌≡◌, ◌≤◌, ◌⊎◌,
}
use xrunner.Base.Dict.{insert, lookup, lookup-insert_self}
use xrunner.Session.Defs.{
  AgentEvent, Dir, Session, SessionMeta, Store, append, append_event, buffer_size, events_of,
  load_locked, new, on_record, open_session, read_events, replay, scan_next_id, set_events, stamped,
}
use xrunner.Session.Delimited.{write_delimited}
use xrunner.Session.Delimited.RoundTrip.{delimited_round, read_delimited-nil}
use xrunner.Session.Recording.{
  Ids, Ids-append, Recorded, Sized, after_id-Ids, encode, encode-append, events_of-insert,
  last_id-Ids, write_delimited-length,
}
use xrunner.Session.Writing.{append-grows, append-kept, append-synced}

module _ (marshal : AgentEvent → List ℕ) (unmarshal : List ℕ → Option AgentEvent)
    (round : (ev : AgentEvent) → unmarshal (marshal ev) ≡ some ev) where
  read_events-encode :
      (fuel : ℕ) (evs : List AgentEvent)
      → All (Sized marshal unmarshal) evs
      → length (encode marshal unmarshal evs) < fuel
      → read_events marshal unmarshal fuel (encode marshal unmarshal evs) ≡ some evs
  unfolding read_events
  read_events-encode zero evs h l = absurd (omega arith)
  read_events-encode (suc fuel) [] h l =
      ap
        (λ r.
          on_record marshal unmarshal []
            (λ ev rest. read_events marshal unmarshal fuel rest >>= λ evs. some (ev ∷ evs)) r)
        read_delimited-nil
  read_events-encode (suc fuel) (ev ∷ evs) h l =
      let longer = write_delimited-length marshal unmarshal (marshal ev) in
      let sum = length-append (write_delimited (marshal ev)) (encode marshal unmarshal evs) in
      rw (
        delimited_round (marshal ev) (encode marshal unmarshal evs) h.0.0 h.0.1,
        round ev,
        read_events-encode fuel evs h.1 (omega (arith, h.0.0, longer, sum, l)),
      )

  -- scanNextID of the recorded bytes.
  scan_next_id-encode :
      (evs : List AgentEvent)
      → All (Sized marshal unmarshal) evs
      → Ids 1 evs
      → scan_next_id marshal unmarshal (encode marshal unmarshal evs) ≡ some (length evs + 1)
  unfolding scan_next_id
  scan_next_id-encode evs h i =
      rw
        (
          read_events-encode (suc (length (encode marshal unmarshal evs))) evs h (omega arith),
          last_id-Ids marshal unmarshal 0 evs i,
        )
        (ap some (omega arith))

  pub replay-encode :
      (evs : List AgentEvent) (id : Text) (s : Store) (sess : Session) (after now : ℕ)
      → lookup id s.sessions ≡ some sess
      → events_of id s ≡ encode marshal unmarshal evs
      → All (Sized marshal unmarshal) evs
      → Ids 1 evs
      → is_empty id ≡ false
      → replay marshal unmarshal id after now s ≡ some (drop after evs, s)
  unfolding replay load_locked
  replay-encode evs id s sess after now loaded file sized ids i =
      let read =
        read_events-encode (suc (length (encode marshal unmarshal evs))) evs sized (omega arith) in
      rw (i, loaded)
        (rw (file, read, after_id-Ids marshal unmarshal 0 after evs ids)
          (ap (λ n. some (drop n evs, s)) (omega arith)))

  pub flushed-encode :
      (evs : List AgentEvent) (id : Text) (s : Store) (sess : Session)
      → Recorded marshal unmarshal evs id s sess
      → sess.buffered ≡ []
      → events_of id s ≡ encode marshal unmarshal evs
  flushed-encode evs id s sess h e =
      sym (append-nil (events_of id s)) ∙ ap (λ b. events_of id s ++ b) (sym e) ∙ h.kept

  -- If unmarshalling undoes marshalling: a replay of a recorded session with a flushed buffer and
  -- an id that is not empty sends the events past an event's id, each once and in order.
  pub replay-Recorded :
      (evs : List AgentEvent) (id : Text) (s : Store) (sess : Session) (after now : ℕ)
      → Recorded marshal unmarshal evs id s sess
      → sess.buffered ≡ []
      → is_empty id ≡ false
      → replay marshal unmarshal id after now s ≡ some (drop after evs, s)
  replay-Recorded evs id s sess after now h e i =
      replay-encode evs id s sess after now h.loaded (flushed-encode evs id s sess h e) h.sized
        h.ids i

  -- If unmarshalling undoes marshalling: Append of an event to a recorded session, where the id is
  -- not empty and the event's message has 1 byte to 64 MiB, returns no error, gives the event the
  -- next id, and the files hold the events before it and then this one; unless the event is of
  -- the low lane, nothing stays in the buffer.
  pub append_event-Recorded :
      (evs : List AgentEvent) (evt : AgentEvent) (now : ℕ) (s : Store) (sess : Session)
      → Recorded marshal unmarshal evs evt.session_id s sess
      → is_empty evt.session_id ≡ false
      → Sized marshal unmarshal (stamped marshal unmarshal evt (1 + length evs) now)
      → let copy = stamped marshal unmarshal evt (1 + length evs) now in
        (t : Store) × (sess' : Session) × (append_event marshal unmarshal (some evt) now s
          ≡ some (copy, t))
        × Recorded marshal unmarshal (evs ++ copy ∷ []) evt.session_id t sess'
        × ((evt.low_lane ≡ true) ⊎ (sess'.buffered ≡ []))
  unfolding append_event load_locked
  append_event-Recorded evs evt now s sess h i z =
      let id = evt.session_id in
      let copy = stamped marshal unmarshal evt (1 + length evs) now in
      let bumped : Session = record sess { next_id = sess.next_id + 1 } in
      let r = append marshal unmarshal copy (not copy.low_lane) now (events_of id s) bumped in
      let grown =
        append-grows marshal unmarshal copy (not copy.low_lane) now (events_of id s) bumped in
      (
        record s {
          root = insert id (set_events r.0 (lookup id s.root)) s.root;
          sessions = insert id r.1 s.sessions;
        },
        r.1,
        rw (i, h.loaded, h.next) refl,
        record {
          loaded = lookup-insert_self id r.1 s.sessions;
          kept =
              ap (λ f. f ++ r.1.buffered) (events_of-insert id r.0 (lookup id s.root) s.root)
              ∙ grown.0
              ∙ ap (λ f. f ++ write_delimited (marshal copy)) h.kept
              ∙ sym (encode-append marshal unmarshal evs copy);
          sized = All-append (Sized marshal unmarshal) evs (copy ∷ []) h.sized (z, tt);
          ids = Ids-append 1 evs copy h.ids refl;
          next = grown.1 ∙ omega (arith, h.next, length-append evs (copy ∷ []));
        },
        elim (Bool-cases evt.low_lane) [
          | inl q ↦ inl q
          | inr q ↦ inr (
              ap
                (λ b.
                  (append marshal unmarshal copy (not b) now (events_of id s) bumped).1.buffered)
                q
              ∙ append-synced marshal unmarshal copy now (events_of id s) bumped)
        ],
      )

  -- If unmarshalling undoes marshalling: a new process over the same files loads a recorded
  -- session, whose buffer was flushed and whose metadata parses, with the same events, and goes
  -- on with the next id.
  pub reopen-Recorded :
      (evs : List AgentEvent) (id : Text) (s : Store) (sess : Session) (d : Dir)
      (meta : SessionMeta) (now : ℕ)
      → Recorded marshal unmarshal evs id s sess
      → sess.buffered ≡ []
      → lookup id s.root ≡ some d
      → d.meta ≡ some meta
      → (t : Store) × (sess' : Session) × (load_locked marshal unmarshal id now (new s.root)
          ≡ some (sess', t))
        × Recorded marshal unmarshal evs id t sess'
  unfolding load_locked open_session new lookup insert
  reopen-Recorded evs id s sess d meta now h e q m =
      let held : events_of id s ≡ d.events = rw q refl in
      let file : d.events ≡ encode marshal unmarshal evs =
        sym held ∙ flushed-encode evs id s sess h e in
      let opened : Session = record {
        meta = meta;
        next_id = length evs + 1;
        buffered = [];
        last_sync = now;
      } in
      (
        record { root = s.root; sessions = insert id opened [] },
        opened,
        rw (q, m, file, scan_next_id-encode evs h.sized h.ids) refl,
        record {
          loaded = lookup-insert_self id opened [];
          kept = append-nil (events_of id s) ∙ held ∙ file;
          sized = h.sized;
          ids = h.ids;
          next = omega arith;
        },
      )

  -- If unmarshalling undoes marshalling: an event of the low lane that is appended to a recorded
  -- session with a flushed buffer and an id that is not empty, at most 200 milliseconds after its
  -- last sync, and whose record fits into the buffer, is acknowledged with its id, but a replay
  -- does not send it.
  pub low_lane_unseen :
      (evs : List AgentEvent) (evt : AgentEvent) (after now : ℕ) (s : Store) (sess : Session)
      → Recorded marshal unmarshal evs evt.session_id s sess
      → sess.buffered ≡ []
      → is_empty evt.session_id ≡ false
      → evt.low_lane ≡ true
      → now ≤ sess.last_sync + 200 * 1000 * 1000
      → length (write_delimited (marshal (stamped marshal unmarshal evt (1 + length evs) now)))
        ≤ buffer_size
      → let copy = stamped marshal unmarshal evt (1 + length evs) now in
        (t : Store) × (append_event marshal unmarshal (some evt) now s ≡ some (copy, t))
        × (replay marshal unmarshal evt.session_id after now t ≡ some (drop after evs, t))
  unfolding append_event load_locked
  low_lane_unseen evs evt after now s sess h e i low soon fits =
      let id = evt.session_id in
      let copy = stamped marshal unmarshal evt (1 + length evs) now in
      let bumped : Session = record sess { next_id = sess.next_id + 1 } in
      let after_append : List ℕ × Session → Store = λ r. record s {
        root = insert id (set_events r.0 (lookup id s.root)) s.root;
        sessions = insert id r.1 s.sessions;
      } in
      let left : Session = record bumped { buffered = write_delimited (marshal copy) } in
      let ran : append_event marshal unmarshal (some evt) now s
          ≡ some (
            copy,
            after_append
                (append marshal unmarshal copy (not copy.low_lane) now (events_of id s) bumped),
          ) =
        rw (i, h.loaded, h.next) refl in
      let kept : append marshal unmarshal copy (not copy.low_lane) now (events_of id s) bumped
          ≡ (events_of id s, left) =
        ap (λ b. append marshal unmarshal copy (not b) now (events_of id s) bumped) low
        ∙ append-kept marshal unmarshal copy now (events_of id s) bumped e soon fits in
      (
        after_append (events_of id s, left),
        ran ∙ ap (λ r. some (copy, after_append r)) kept,
        replay-encode evs id (after_append (events_of id s, left)) left after now
            (lookup-insert_self id left s.sessions)
            (events_of-insert id (events_of id s) (lookup id s.root) s.root
              ∙ flushed-encode evs id s sess h e)
            h.sized h.ids i,
      )
