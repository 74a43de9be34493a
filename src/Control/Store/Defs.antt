-- ===== src/Control/Store/Defs.antt =====
-- The state of the store and its methods.
use xrunner.Base.{
  ℕ, ◌+◌, ◌%◌, ◌^◌, Option, none, some, List, [], ◌∷◌, ◌++◌, map, Text, codes, text_eq, nat_eq, ltb,
  if◌then◌else◌, ◌>>=◌, get_or,
}
use xrunner.Base.Dict.{Dict, lookup, insert, delete}
use xrunner.Control.Types.{JobRef, Job, LogChunk}
use xrunner.Control.Store.Channels.{Heap, open_chan, update, broadcast, close, close_all}

-- What the mirror of jetstream.go is handed for publishing, with the store's counters.
pub record JobEvent : Type 0 where
  pub job : Option Job
  pub version : ℕ

pub record LogEvent : Type 0 where
  pub ref : Option JobRef
  pub chunk : Option LogChunk
  pub offset : ℕ

-- The events that the changes so far hand to publishJob and publishLog, in the order of the changes.
-- When Publish is called for them, and whether it succeeds, is not part of the store: see
-- Control/Mirror/Publishing.
pub record Mirror : Type 0 where
  pub job_events : List JobEvent
  pub log_events : List LogEvent

pub record Store : Type 0 where
  pub jobs : Dict Text Job
  pub logs : Dict Text (List LogChunk)
  pub log_subs : Dict Text (Dict ℕ ℕ)
  pub next_sub_id : ℕ  -- int64
  pub job_versions : Dict Text ℕ  -- uint64
  pub log_offsets : Dict Text ℕ  -- uint64
  pub js : Option Mirror
  -- the channels that `make` returned, and the reference of the next one
  pub chans : Heap
  pub next_chan : ℕ

abbrev pub u64 : ℕ → ℕ
u64 n = n % 2 ^ 64

-- New: an empty store, with or without a mirror
unfoldable pub empty : Option Mirror → Store
empty js = record {
  jobs = [];
  logs = [];
  log_subs = [];
  next_sub_id = 0;
  job_versions = [];
  log_offsets = [];
  js = js;
  chans = λ c. open_chan [];
  next_chan = 0;
}

-- fmt.Sprintf("%s:%s", tenant, job)
unfoldable pub compound_key : Option JobRef → Text
compound_key none = codes ""
compound_key (some r) = r.tenant_id ++ (codes ":" ++ r.job_id)

-- A missing counter reads as 0.
abbrev pub counter : Text → Dict Text ℕ → ℕ
counter key m = get_or (lookup key m) 0

unfoldable pub bump_job_version_locked : Text → Store → Store × ℕ
bump_job_version_locked key s =
    let version = u64 (counter key s.job_versions + 1) in
    (record s { job_versions = insert key version s.job_versions }, version)

unfoldable pub bump_log_offset_locked : Text → Store → Store × ℕ
bump_log_offset_locked key s =
    let offset = u64 (counter key s.log_offsets + 1) in
    (record s { log_offsets = insert key offset s.log_offsets }, offset)

-- The event that a change hands over; it is published after the mutex is let go.
abbrev pub mirror_job : JobEvent → Option Mirror → Option Mirror
mirror_job ev none = none
mirror_job ev (some m) = some (record m { job_events = m.job_events ++ ev ∷ [] })

abbrev pub mirror_logs : List LogEvent → Option Mirror → Option Mirror
mirror_logs evs none = none
mirror_logs evs (some m) = some (record m { log_events = m.log_events ++ evs })

unfoldable pub put : Option Job → Store → Store
unfolding bump_job_version_locked
put none s = s
put (some job) s =
    let key = compound_key job.ref in
    let (t, version) = bump_job_version_locked key s in
    record t {
      jobs = insert key job t.jobs;
      js = mirror_job (record { job = some job; version = version }) t.js;
    }

-- `none` is ErrJobNotFound.
unfoldable pub get : Option JobRef → Store → Option Job
get ref s = lookup (compound_key ref) s.jobs

-- protoSlicesCopy and the loop that numbers the copies
unfoldable pub number_chunks : Text → List LogChunk → Store → Store × List LogChunk
unfolding bump_log_offset_locked
number_chunks key [] s = (s, [])
number_chunks key (x ∷ xs) s =
    let (t, offset) = bump_log_offset_locked key s in
    let (u, rest) = number_chunks key xs t in (u, record x { offset = offset } ∷ rest)

abbrev pub subs_of : Text → Store → Dict ℕ ℕ
subs_of key s = get_or (lookup key s.log_subs) []

unfoldable pub broadcast_locked : Text → List LogChunk → Store → Option Store
unfolding broadcast
broadcast_locked key chunks s =
    broadcast (subs_of key s) chunks s.chans >>= λ h. some (record s { chans = h })

abbrev pub logs_of : Text → Store → List LogChunk
logs_of key s = get_or (lookup key s.logs) []

abbrev pub log_event : JobRef → LogChunk → LogEvent
log_event ref x = record { ref = some ref; chunk = some x; offset = x.offset }

-- AppendLogs past its guard: `ref` is there, and there are chunks
unfoldable pub append_numbered : JobRef → List LogChunk → Store → Option Store
append_numbered ref chunks s =
    let key = compound_key (some ref) in
    let (t, copied) = number_chunks key chunks s in
    let u = record t { logs = insert key (logs_of key t ++ copied) t.logs } in
    broadcast_locked key copied u >>= λ v.
    some (record v { js = mirror_logs (map (log_event ref) copied) v.js })

unfoldable pub append_logs : Option JobRef → List LogChunk → Store → Option Store
append_logs none chunks s = some s
append_logs (some ref) [] s = some s
append_logs (some ref) (x ∷ xs) s = append_numbered ref (x ∷ xs) s

-- Logs: a missing key is a nil slice
unfoldable pub logs : Option JobRef → Store → List LogChunk
logs ref s = logs_of (compound_key ref) s

-- SubscribeLogs returns the new subscription's id, and its channel.
unfoldable pub subscribe_logs : Option JobRef → Store → Store × (ℕ × ℕ)
subscribe_logs ref s =
    let key = compound_key ref in
    let c = s.next_chan in
    let id = s.next_sub_id in
    (
      record s {
        chans = update s.chans c (open_chan []);
        next_chan = c + 1;
        next_sub_id = (id + 1) % 2 ^ 64;
        log_subs = insert key (insert id c (subs_of key s)) s.log_subs;
      },
      (id, c),
    )

abbrev pub drop_empty : Text → Dict ℕ ℕ → Dict Text (Dict ℕ ℕ) → Dict Text (Dict ℕ ℕ)
drop_empty key [] m = delete key m
drop_empty key (x ∷ xs) m = insert key (x ∷ xs) m

unfoldable pub unsubscribe_from : Text → ℕ → Dict ℕ ℕ → Option ℕ → Store → Option Store
unfolding close
unsubscribe_from key id subs none s = some (record s { log_subs = drop_empty key subs s.log_subs })
unsubscribe_from key id subs (some c) s = close c s.chans >>= λ h.
    some (record s { chans = h; log_subs = drop_empty key (delete id subs) s.log_subs })

unfoldable pub unsubscribe_key : Text → ℕ → Option (Dict ℕ ℕ) → Store → Option Store
unfolding unsubscribe_from
unsubscribe_key key id none s = some s
unsubscribe_key key id (some subs) s = unsubscribe_from key id subs (lookup id subs) s

unfoldable pub unsubscribe_locked : Text → ℕ → Store → Option Store
unfolding unsubscribe_key
unsubscribe_locked key id s = unsubscribe_key key id (lookup key s.log_subs) s

unfoldable pub unsubscribe_logs : Option JobRef → ℕ → Store → Option Store
unfolding unsubscribe_locked
unsubscribe_logs ref id s = unsubscribe_locked (compound_key ref) id s

unfoldable pub close_subs : Text → Dict ℕ ℕ → Store → Option Store
unfolding close_all
close_subs key [] s = some s
close_subs key (x ∷ xs) s = close_all (x ∷ xs) s.chans >>= λ h.
    some (record s { chans = h; log_subs = delete key s.log_subs })

unfoldable pub close_log_streams : Option JobRef → Store → Option Store
unfolding close_subs
close_log_streams ref s = let key = compound_key ref in close_subs key (subs_of key s) s

unfoldable pub apply_replayed_job : Job → ℕ → Store → Store
apply_replayed_job job version s =
    let key = compound_key job.ref in
    record s {
      jobs = insert key job s.jobs;
      job_versions =
          if ltb (counter key s.job_versions) version
          then insert key version s.job_versions
          else s.job_versions;
    }

unfoldable pub apply_replayed_log : Option JobRef → LogChunk → ℕ → Store → Option Store
apply_replayed_log ref chunk offset s =
    let key = compound_key ref in
    let copy = record chunk { offset = offset } in
    let t = record s {
      log_offsets =
          if ltb (counter key s.log_offsets) offset
          then insert key offset s.log_offsets
          else s.log_offsets;
      logs = insert key (logs_of key s ++ copy ∷ []) s.logs;
    } in
    broadcast_locked key (copy ∷ []) t
