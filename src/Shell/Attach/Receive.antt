-- ===== src/Shell/Attach/Receive.antt =====
-- The receive loop of AttachShell, and updateAdaptive. `blend` is the floating-point mean of the last
-- round trip and the average so far, in nanoseconds. A command is typed by a goroutine, which here is part
-- of the step, and its start event is the `Waiting` that is added.
use xrunner.Base.{
  Bool, List, Text, [], eqb, get_or, if◌then◌else◌, is_empty, leb, length, ltb, trim_space, ℕ, ◌&&◌,
  ◌*◌, ◌++◌, ◌/◌, ◌∷◌,
}
use xrunner.Grpc.{Code, err, ok}
use xrunner.Shell.Acks.{Acks, set_last_ack}
use xrunner.Shell.Attach.{tune}
use xrunner.Shell.Run.{Done, Tmux, run_timeout, wrapper}

pub data ClientMsg : Type 0 where
  input : List ℕ → ClientMsg
  resize : ℕ → ℕ → ClientMsg
  run : Text → Text → ℕ → ClientMsg  -- command, command_id, timeout_ms
  ack : Text → ℕ → ClientMsg  -- client_id, ack_offset
  close_msg : Bool → ClientMsg  -- kill
  other_msg : ClientMsg

-- A command that was typed and whose end a goroutine waits for.
pub record Waiting : Type 0 where
  pub command_id : Text
  pub command : Text
  pub begin_offset : ℕ
  pub timeout : ℕ

-- The variables that the loop shares with the send loop.
pub record Receiver (F : Type 0) : Type 0 where
  pub world : F
  pub acks : Acks
  pub rtt_ema : ℕ  -- nanoseconds
  pub sizes : ℕ × ℕ  -- maxChunk and poll
  pub waiting : List Waiting

-- How the loop ends: io.EOF, or the error of a call.
pub data Next (F : Type 0) : Type 0 where
  goes_on : Receiver F → Next F
  at_eof : Receiver F → Next F
  fails : Code → Text → Receiver F → Next F

module _ {F : Type 0} (tmux : Tmux F) (blend : ℕ → ℕ → ℕ)
    (explicit_max_chunk explicit_poll : Bool) where
  unfoldable pub update_adaptive : ℕ → Receiver F → Receiver F
  unfolding tune
  update_adaptive rtt s =
      let next = blend s.rtt_ema rtt in
      if eqb s.rtt_ema 0
      then record s { rtt_ema = rtt }
      else if explicit_max_chunk && explicit_poll
      then record s { rtt_ema = next }
      else record s {
        rtt_ema = next;
        sizes = tune explicit_max_chunk explicit_poll (next / (1000 * 1000)) s.sizes;
      }

  abbrev pub after_input : Done × F → Receiver F → Next F
  after_input (ok u, w) s = goes_on (record s { world = w })
  after_input (err code msg, w) s = fails code msg (record s { world = w })

  -- `last_sent_end` is the end of the last chunk, `since` the time since it was sent, and `fresh` a UUID
  -- without dashes.
  unfoldable pub on_client_msg : Text → ℕ → ℕ → Text → ClientMsg → Receiver F → Next F
  unfolding trim_space set_last_ack update_adaptive run_timeout
  on_client_msg name last_sent_end since fresh (input bytes) s =
      if is_empty bytes then goes_on s else after_input (tmux.send_bytes name bytes s.world) s
  on_client_msg name last_sent_end since fresh (resize cols rows) s =
      if ltb 0 cols && ltb 0 rows
      then goes_on (record s { world = (tmux.resize name cols rows s.world).1 })
      else goes_on s
  on_client_msg name last_sent_end since fresh (run command command_id timeout) s =
      let cmd_str = trim_space command in
      let given = trim_space command_id in
      let id = if is_empty given then fresh else given in
      let begin_offset = length (get_or (tmux.log name s.world) []) in
      let w = (tmux.send_line name (wrapper id cmd_str) s.world).1 in
      let one : Waiting = record {
        command_id = id;
        command = cmd_str;
        begin_offset = begin_offset;
        timeout = run_timeout timeout;
      } in
      if is_empty cmd_str
      then goes_on s
      else goes_on (record s { world = w; waiting = s.waiting ++ one ∷ [] })
  on_client_msg name last_sent_end since fresh (ack client_id offset) s =
      let t = record s { acks = set_last_ack name (trim_space client_id) offset s.acks } in
      if ltb 0 last_sent_end && leb last_sent_end offset
      then goes_on (update_adaptive since t)
      else goes_on t
  on_client_msg name last_sent_end since fresh (close_msg kill) s =
      if kill
      then at_eof (record s { world = tmux.remove_log name (tmux.kill_session name s.world) })
      else at_eof s
  on_client_msg name last_sent_end since fresh other_msg s = goes_on s
