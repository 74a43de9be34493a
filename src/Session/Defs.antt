-- ===== src/Session/Defs.antt =====
-- The state of the session store and its methods. `proto.Marshal` and `proto.Unmarshal` are
-- parameters; a file system that fails is not modelled, except for files that are not there or do
-- not parse. A file is what the operating system holds of it: it outlives the process.
use xrunner.Base.{
  Bool, List, Option, Text, [], drop, get_or, if◌then◌else◌, is_empty, leb, length, ltb, nat_eq,
  none, not, some, suc, take, text_eq, zero, ℕ, ◌*◌, ◌++◌, ◌+◌, ◌-◌, ◌>>=◌, ◌||◌, ◌∷◌,
}
use xrunner.Base.Dict.{Dict, delete, insert, lookup}
use xrunner.Session.Delimited.{Read, at_end, failed_read, got, put_uvarint, read_delimited}

-- The fields of an AgentEvent that the store reads, and the rest of the message.
pub record AgentEvent : Type 0 where
  pub session_id : Text
  pub event_id : ℕ  -- int64
  pub timestamp : Option ℕ
  pub low_lane : Bool  -- lane == EVENT_LANE_LOW
  pub payload : List ℕ

pub record SessionMeta : Type 0 where
  pub session_id : Text
  pub workspace_root : Text
  pub tool_bundle_path : Text
  pub created_at : ℕ

-- A directory of the root: session.pb, `none` if it is missing or does not parse, and events.bin.
pub record Dir : Type 0 where
  pub meta : Option SessionMeta
  pub events : List ℕ

-- A `session`: its metadata, counter, and the bytes in its bufio.Writer.
pub record Session : Type 0 where
  pub meta : SessionMeta
  pub next_id : ℕ  -- int64
  pub buffered : List ℕ
  pub last_sync : ℕ  -- nanoseconds

pub record Store : Type 0 where
  pub root : Dict Text Dir
  pub sessions : Dict Text Session

unfoldable pub new : Dict Text Dir → Store
new root = record { root = root; sessions = [] }

abbrev pub events_of : Text → Store → List ℕ
events_of id s = get_or (lookup id s.root >>= λ d. some d.events) []

abbrev pub set_events : List ℕ → Option Dir → Dir
set_events bytes none = record { meta = none; events = bytes }
set_events bytes (some d) = record d { events = bytes }

abbrev pub buffer_size : ℕ
buffer_size = 256 * 1024

-- Write of a bufio.Writer whose buffer is empty: the file and the buffer afterwards.
abbrev pub write_empty : List ℕ → List ℕ → List ℕ × List ℕ
write_empty file p = if ltb buffer_size (length p) then (file ++ p, []) else (file, p)

-- Write of a bufio.Writer
unfoldable pub write : List ℕ → List ℕ → List ℕ → List ℕ × List ℕ
write file [] p = write_empty file p
write file (b ∷ buffered) p =
    let available = buffer_size - length (b ∷ buffered) in
    if ltb available (length p)
    then write_empty (file ++ (b ∷ buffered) ++ take available p) (drop available p)
    else (file, (b ∷ buffered) ++ p)

-- writeDelimited: two calls of Write, of the length and of the message.
unfoldable pub write_record : List ℕ → List ℕ → List ℕ → List ℕ × List ℕ
unfolding write put_uvarint
write_record file buffered msg =
    let (file', left) = write file buffered (put_uvarint (length msg)) in write file' left msg

module _ (marshal : AgentEvent → List ℕ) (unmarshal : List ℕ → Option AgentEvent) where
  abbrev pub on_record {ℓ} :
      {A : Type ℓ} → A → (AgentEvent → List ℕ → Option A) → Read (List ℕ) → Option A
  on_record done next at_end = some done
  on_record done next failed_read = none
  on_record done next (got msg rest) = unmarshal msg >>= λ ev. next ev rest

  -- The events of a file, as the loops of scanNextID and Replay read them: `none` is an error. Every
  -- record has a byte, so the length of the file is fuel enough.
  unfoldable pub read_events : ℕ → List ℕ → Option (List AgentEvent)
  unfolding read_delimited
  read_events zero file = some []
  read_events (suc fuel) file =
      on_record [] (λ ev rest. read_events fuel rest >>= λ evs. some (ev ∷ evs))
        (read_delimited file)

  abbrev pub last_id : List AgentEvent → ℕ → ℕ
  last_id [] last = last
  last_id (ev ∷ evs) last = last_id evs (if ltb last ev.event_id then ev.event_id else last)

  unfoldable pub scan_next_id : List ℕ → Option ℕ
  unfolding read_events
  scan_next_id file = read_events (suc (length file)) file >>= λ evs. some (last_id evs 0 + 1)

  -- open
  unfoldable pub open_session : SessionMeta → List ℕ → ℕ → Option Session
  unfolding scan_next_id
  open_session meta file now = scan_next_id file >>= λ next.
      some (record { meta = meta; next_id = next; buffered = []; last_sync = now })

  abbrev pub keep_loaded : Text → Store → Session → Session × Store
  keep_loaded id s sess = (sess, record s { sessions = insert id sess s.sessions })

  abbrev pub load : Option Session → Text → ℕ → Store → Option (Session × Store)
  load (some sess) id now s = some (sess, s)
  load none id now s = lookup id s.root >>= λ d.
      d.meta >>= λ meta. open_session meta d.events now >>= λ sess. some (keep_loaded id s sess)

  -- `none` is an error: the session is not found, or its files do not parse.
  unfoldable pub load_locked : Text → ℕ → Store → Option (Session × Store)
  unfolding open_session
  load_locked id now s = load (lookup id s.sessions) id now s

  -- Create: a new directory, which the fresh UUID names.
  unfoldable pub create : Text → Text → Text → ℕ → Store → SessionMeta × Store
  create uuid workspace_root tool_bundle_path now s =
      let meta : SessionMeta = record {
        session_id = uuid;
        workspace_root = workspace_root;
        tool_bundle_path = tool_bundle_path;
        created_at = now;
      } in
      let sess : Session = record { meta = meta; next_id = 1; buffered = []; last_sync = now } in
      (
        meta,
        record s {
          root = insert uuid (record { meta = some meta; events = [] }) s.root;
          sessions = insert uuid sess s.sessions;
        },
      )

  abbrev pub metas : Dict Text Dir → List SessionMeta
  metas [] = []
  metas ((id, d) ∷ root) =
      let rest = metas root in elim d.meta [ none ↦ rest | some meta ↦ meta ∷ rest ]

  unfoldable pub list : Store → List SessionMeta
  list s = metas s.root

  unfoldable pub get : Text → ℕ → Store → Option (SessionMeta × Store)
  unfolding load_locked
  get id now s = load_locked id now s >>= λ p. some (p.0.meta, p.1)

  unfoldable pub delete_session : Text → Store → Store
  delete_session id s = record s { root = delete id s.root; sessions = delete id s.sessions }

  -- append of a session: its file and the session afterwards.
  unfoldable pub append : AgentEvent → Bool → ℕ → List ℕ → Session → List ℕ × Session
  unfolding write_record
  append evt sync_now now file sess =
      let (written, left) = write_record file sess.buffered (marshal evt) in
      if sync_now || ltb (200 * 1000 * 1000) (now - sess.last_sync)
      then (written ++ left, record sess { buffered = []; last_sync = now })
      else if ltb buffer_size (length left)
      then (written ++ left, record sess { buffered = [] })
      else (written, record sess { buffered = left })

  abbrev pub stamped : AgentEvent → ℕ → ℕ → AgentEvent
  stamped evt id now = record evt {
    event_id = id;
    timestamp = elim evt.timestamp [ none ↦ some now | some t ↦ some t ];
  }

  -- The next id is an int64 that starts at 1 and counts the stored events; its wrap is left out.
  abbrev pub append_to : Text → AgentEvent → ℕ → Session × Store → AgentEvent × Store
  append_to id evt now (sess, s) =
      let copy = stamped evt sess.next_id now in
      let (file, sess') =
        append copy (not copy.low_lane) now (events_of id s)
          (record sess { next_id = sess.next_id + 1 }) in
      (
        copy,
        record s {
          root = insert id (set_events file (lookup id s.root)) s.root;
          sessions = insert id sess' s.sessions;
        },
      )

  -- Append: `none` is an error, for a nil event, an empty id, or a session that cannot be loaded.
  unfoldable pub append_event : Option AgentEvent → ℕ → Store → Option (AgentEvent × Store)
  unfolding load_locked append
  append_event none now s = none
  append_event (some evt) now s =
      if is_empty evt.session_id
      then none
      else load_locked evt.session_id now s >>= λ p. some (append_to evt.session_id evt now p)

  abbrev pub after_id : ℕ → List AgentEvent → List AgentEvent
  after_id after [] = []
  after_id after (ev ∷ evs) =
      let rest = after_id after evs in if leb ev.event_id after then rest else ev ∷ rest

  -- Replay to a client that takes every event: what it was sent, if the file ends without an error.
  unfoldable pub replay : Text → ℕ → ℕ → Store → Option (List AgentEvent × Store)
  unfolding load_locked read_events
  replay id after now s =
      if is_empty id
      then none
      else load_locked id now s >>= λ p.
          let file = events_of id p.1 in
          read_events (suc (length file)) file >>= λ evs. some (after_id after evs, p.1)
