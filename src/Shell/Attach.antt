-- ===== src/Shell/Attach.antt =====
-- AttachShell of internal/remote/shell.go: the offset and the sizes that a stream begins with, and the
-- loop that tails the log. A message that waits to be sent is a value here; the code queues
-- pointers.
-- Artifacts and the names of the records are left out.
pub mod Covering
pub mod Lossless
pub mod Receive
use xrunner.Base.{
  Bool, List, Option, Text, [], drop, eqb, get_or, if◌then◌else◌, is_empty, leb, length, ltb,
  nat_eq, none, not, some, suc, take, text_eq, true, zero, ℕ, ◌&&◌, ◌*◌, ◌++◌, ◌+◌, ◌-◌, ◌||◌, ◌∷◌,
}
use xrunner.Base.Dict.{Dict, delete, insert, lookup}
use xrunner.Control.Types.{int32, pos, ℤ}
use xrunner.Session.Recording.{encode}
use xrunner.Shell.Acks.{Acks, get_last_ack, set_last_ack}
use xrunner.Shell.Markers.{
  Kind, XrMarker, cmd_end, cmd_start, flushable_prefix_len, strip_xr_markers,
}
use xrunner.Shell.Search.{chunk, turn}

abbrev pub max_frame : ℕ
max_frame = 256 * 1024

unfoldable pub clamp_int : ℕ → ℕ → ℕ → ℕ
clamp_int v lo hi = if ltb v lo then lo else if ltb hi v then hi else v

-- The offset of the first byte that is sent; `size` is that of the log.
unfoldable pub start_offset : Text → Text → ℕ → Bool → ℕ → Acks → ℕ
unfolding get_last_ack
start_offset name client_id after_offset resume size acks =
    let wanted =
      if eqb after_offset 0 && (resume && not (is_empty client_id))
      then get_or (get_last_ack name client_id acks) after_offset
      else after_offset in
    if ltb size wanted then size else wanted

unfoldable pub first_max_chunk : ℕ → ℕ
unfolding clamp_int
first_max_chunk asked =
    let max_chunk = clamp_int asked 0 max_frame in if eqb max_chunk 0 then 64 * 1024 else max_chunk

-- In milliseconds.
unfoldable pub first_poll : ℕ → ℕ
first_poll zero = 25
first_poll (suc ms) = if ltb (suc ms) 5 then 5 else suc ms

-- The sizes for a round trip of `next` milliseconds, as the switch of updateAdaptive sets them.
unfoldable pub tune : Bool → Bool → ℕ → ℕ × ℕ → ℕ × ℕ
tune explicit_max_chunk explicit_poll next (max_chunk, poll) =
    let size =
      if leb 300 next
      then 256 * 1024
      else if leb 150 next
      then 128 * 1024
      else if leb 80 next
      then 96 * 1024
      else 64 * 1024 in
    let wait =
      if leb 300 next then 80 else if leb 150 next then 50 else if leb 80 next then 35 else 25 in
    (if explicit_max_chunk then max_chunk else size, if explicit_poll then poll else wait)

pub record CommandRecord : Type 0 where
  pub command_id : Text
  pub command : Text
  pub exit_code : ℤ
  pub begin_offset : ℕ  -- uint64
  pub end_offset : ℕ  -- uint64
  pub output_bytes : ℕ  -- uint64
  pub started_at : Option ℤ
  pub completed_at : Option ℤ

pub record OutputChunk : Type 0 where
  pub offset : ℕ  -- uint64
  pub bytes : List ℕ
  pub uncompressed_len : ℕ

pub data ServerMsg : Type 0 where
  started completed : CommandRecord → ServerMsg
  output : OutputChunk → ServerMsg

-- The variables of the send loop, with what it has sent and recorded.
pub record Sender : Type 0 where
  pub offset : ℕ  -- int64
  pub pending : List ℕ
  pub pending_start : ℕ  -- int64
  pub cmd_by_id : Dict Text CommandRecord
  pub timeline : List CommandRecord
  pub sent : List ServerMsg
  pub acks : Acks

abbrev pub started_record : XrMarker → CommandRecord
started_record m = record {
  command_id = m.command_id;
  command = m.command;
  exit_code = pos 0;
  begin_offset = m.end_offset;
  end_offset = 0;
  output_bytes = 0;
  started_at = some m.ts_ns;
  completed_at = none;
}

abbrev pub unknown_record : XrMarker → CommandRecord
unknown_record m = record {
  command_id = m.command_id;
  command = [];
  exit_code = pos 0;
  begin_offset = 0;
  end_offset = 0;
  output_bytes = 0;
  started_at = none;
  completed_at = none;
}

abbrev pub completed_record : XrMarker → CommandRecord → CommandRecord
completed_record m rec = record rec {
  exit_code = int32 m.exit_code;
  completed_at = some m.ts_ns;
  end_offset = m.start_offset;
  output_bytes =
      if ltb 0 rec.begin_offset && ltb rec.begin_offset m.start_offset
      then m.start_offset - rec.begin_offset
      else rec.output_bytes;
}

unfoldable pub on_marker : Kind → XrMarker → Sender → Sender
unfolding lookup insert delete
on_marker cmd_start m s =
    let rec = started_record m in
    record s { cmd_by_id = insert m.command_id rec s.cmd_by_id; sent = s.sent ++ started rec ∷ [] }
on_marker cmd_end m s =
    let rec = completed_record m (get_or (lookup m.command_id s.cmd_by_id) (unknown_record m)) in
    record s {
      cmd_by_id = delete m.command_id s.cmd_by_id;
      timeline = s.timeline ++ rec ∷ [];
      sent = s.sent ++ completed rec ∷ [];
    }

unfoldable pub on_markers : List XrMarker → Sender → Sender
unfolding on_marker
on_markers [] s = s
on_markers (m ∷ ms) s = on_markers ms (on_marker m.kind m s)

-- A turn of the loop: what Read returned, whether the time since the last flush is over, the
-- largest chunk at this time, and whether the chunk could be queued. A Read without bytes is the
-- end of the file.
pub record Turn : Type 0 where
  pub bytes : List ℕ
  pub due : Bool
  pub max_chunk : ℕ
  pub ok : Bool

-- The clock, base64, and zstd if the client asked for it, which is the identity if not.
module _ (now : ℤ) (decode : List ℕ → Option (List ℕ)) (encode : List ℕ → List ℕ) where
  abbrev pub encoded : List ℕ → List ℕ
  encoded clean = if leb 256 (length clean) then encode clean else clean

  -- The part of flush behind its first tests; `ok` says whether the chunk could be queued.
  unfoldable pub flush_prefix : Text → Text → Bool → ℕ → Sender → Sender × Bool
  unfolding strip_xr_markers on_markers set_last_ack
  flush_prefix name client_id ok send_len s =
      let uncompressed = take send_len s.pending in
      let (clean, markers) = strip_xr_markers now decode uncompressed s.pending_start in
      let t = on_markers markers s in
      let chunk : OutputChunk = record {
        offset = s.pending_start;
        bytes = encoded clean;
        uncompressed_len = length uncompressed;
      } in
      let last_sent_end = s.pending_start + length uncompressed in
      (
        record t {
          sent = if ok then t.sent ++ output chunk ∷ [] else t.sent;
          pending = drop send_len s.pending;
          pending_start = s.pending_start + send_len;
          acks = if ok then set_last_ack name client_id last_sent_end t.acks else t.acks;
        },
        ok,
      )

  -- `false` ends the loop.
  unfoldable pub flush : Text → Text → Bool → Sender → Sender × Bool
  unfolding flushable_prefix_len flush_prefix
  flush name client_id ok s =
      let send_len = flushable_prefix_len s.pending in
      if eqb (length s.pending) 0 || eqb send_len 0
      then (s, true)
      else flush_prefix name client_id ok send_len s

  abbrev pub take_in : List ℕ → Sender → Sender
  take_in bytes s = record s {
    pending_start = if is_empty s.pending then s.offset else s.pending_start;
    pending = s.pending ++ bytes;
    offset = s.offset + length bytes;
  }

  unfoldable pub send_turn : Text → Text → Turn → Sender → Sender × Bool
  unfolding flush
  send_turn name client_id turn s =
      let t = if is_empty turn.bytes then s else take_in turn.bytes s in
      if is_empty turn.bytes || (leb turn.max_chunk (length t.pending) || turn.due)
      then flush name client_id turn.ok t
      else (t, true)

  -- The send loop, for the turns that a stream takes.
  unfoldable pub send_loop : Text → Text → List Turn → Sender → Sender
  unfolding send_turn
  send_loop name client_id [] s = s
  send_loop name client_id (turn ∷ turns) s =
      let (t, goes_on) = send_turn name client_id turn s in
      let rest = send_loop name client_id turns t in if goes_on then rest else t

-- The loop begins at the start offset.
abbrev pub new_sender : ℕ → Acks → Sender
new_sender start acks = record {
  offset = start;
  pending = [];
  pending_start = 0;
  cmd_by_id = [];
  timeline = [];
  sent = [];
  acks = acks;
}
