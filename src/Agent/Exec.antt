-- ===== src/Agent/Exec.antt =====
-- The tools `shell` and `write_file_atomic` of internal/remote/session_service.go: execShellTool,
-- execShellToolCapture, execShellPipes and execShellPTY with their variants that capture, and
-- streamReaderTo.
use xrunner.Base.{
  Bool, List, Text, [], codes, false, if◌then◌else◌, is_empty, none, runes, some, suc, trim_space,
  true, zero, ℕ, ◌*◌, ◌++◌, ◌/◌, ◌||◌, ◌∷◌,
}
use xrunner.Base.Dict.{Dict}
use xrunner.Agent.Buffer.{LimitedBuffer, new_limited_buffer, to_string, write_all}
use xrunner.Agent.Events.{Emit, emit, low, tool_output_chunk}
use xrunner.Agent.Os.{
  Os, Outcome, Parsed, Process, Service, ShellArgs, Wait, append_events, ended, exit_error,
  malformed, not_started, outcome, parsed, root_of, success, wait_error,
}
use xrunner.Agent.Paths.{FilePath, Resolved, refused, resolve_session_workdir, resolved}
use xrunner.Control.Types.{pos, ℤ}
use xrunner.Shell.Bytes.{index}

unfoldable pub default_json : Text → Text → Text
unfolding trim_space
default_json s fallback = if is_empty (trim_space s) then fallback else s

abbrev pub stream_name : Bool → Text
stream_name true = codes "stderr"
stream_name false = codes "stdout"

abbrev pub chunk_event : Text → Text → Text → List ℕ → Emit
chunk_event id call stream bytes = emit id low (tool_output_chunk call stream bytes)

-- The events of streamReaderTo, for both streams.
unfoldable pub chunk_events : Text → Text → List (Bool × List ℕ) → List Emit
chunk_events id call [] = []
chunk_events id call ((is_err, bytes) ∷ chunks) =
    chunk_event id call (stream_name is_err) bytes ∷ chunk_events id call chunks

-- What one stream has written.
unfoldable pub chunks_of : Bool → List (Bool × List ℕ) → List (List ℕ)
chunks_of stream [] = []
chunks_of true ((is_err, bytes) ∷ chunks) =
    let rest = chunks_of true chunks in if is_err then bytes ∷ rest else rest
chunks_of false ((is_err, bytes) ∷ chunks) =
    let rest = chunks_of false chunks in if is_err then rest else bytes ∷ rest

unfoldable pub pty_events : Text → Text → List (Bool × List ℕ) → List Emit
pty_events id call [] = []
pty_events id call ((is_err, bytes) ∷ chunks) =
    chunk_event id call (codes "pty") bytes ∷ pty_events id call chunks

unfoldable pub all_chunks : List (Bool × List ℕ) → List (List ℕ)
all_chunks [] = []
all_chunks ((is_err, bytes) ∷ chunks) = bytes ∷ all_chunks chunks

-- The exit code and the message of a process that has ended.
abbrev pub of_wait : Wait → ℤ × Text
of_wait success = (pos 0, [])
of_wait (exit_error code) = (code, [])
of_wait (wait_error msg) = (pos 1, msg)

abbrev pub contains : Text → Text → Bool
contains s part = elim (index s part) [ none ↦ false | some i ↦ true ]

-- `[stdout]` or `[stderr]` with the text, if there is any.
abbrev pub titled : Text → Text → Text
titled title text = if is_empty text then [] else title ++ text ++ codes "\n"

-- What the two buffers captured.
unfoldable pub captured : LimitedBuffer → LimitedBuffer → Text
unfolding to_string runes trim_space
captured out err_out =
    titled (codes "[stdout]\n") (trim_space (runes (to_string out)))
    ++ titled (codes "[stderr]\n") (trim_space (runes (to_string err_out)))

abbrev pub max_out : ℕ → ℕ
max_out zero = 64 * 1024
max_out (suc n) = suc n

module _ {F : Type 0} (os : Os F) where
  unfoldable pub pipes_ended :
      Text → Text → LimitedBuffer → LimitedBuffer → Process × F → Service F → Outcome × Service F
  unfolding chunk_events chunks_of captured write_all
  pipes_ended id call out err_out (not_started msg, world) s =
      (outcome (pos 1) msg (captured out err_out), record s { world = world })
  pipes_ended id call out err_out (ended chunks wait, world) s =
      let (exit, msg) = of_wait wait in
      let text =
        captured (write_all (chunks_of false chunks) out)
          (write_all (chunks_of true chunks) err_out) in
      (
        outcome exit msg text,
        append_events (chunk_events id call chunks) (record s { world = world }),
      )

  abbrev pub pipes_in :
      Text
      → Text
      → ShellArgs
      → Text
      → LimitedBuffer
      → LimitedBuffer
      → Resolved
      → Service F
      → Outcome × Service F
  pipes_in id call args cmd_str out err_out (refused msg) s =
      (outcome (pos 2) msg (captured out err_out), s)
  pipes_in id call args cmd_str out err_out (resolved dir) s =
      pipes_ended id call out err_out (os.run_pipes cmd_str dir args.env s.world) s

  -- execShellPipesTo, with the text that execShellToolCapture makes of the two buffers.
  unfoldable pub exec_shell_pipes :
      Text
      → Text
      → ShellArgs
      → Text
      → LimitedBuffer
      → LimitedBuffer
      → Service F
      → Outcome × Service F
  unfolding resolve_session_workdir
  exec_shell_pipes id call args cmd_str out err_out s =
      let dir = resolve_session_workdir (root_of id s) args.cwd in
      pipes_in id call args cmd_str out err_out dir s

  unfoldable pub pty_ended :
      Text → Text → LimitedBuffer → Process × F → Service F → Outcome × Service F
  unfolding pty_events all_chunks to_string write_all runes
  pty_ended id call buf (not_started msg, world) s =
      (outcome (pos 1) msg (runes (to_string buf)), record s { world = world })
  pty_ended id call buf (ended chunks wait, world) s =
      let (exit, msg) = of_wait wait in
      (
        outcome exit msg (runes (to_string (write_all (all_chunks chunks) buf))),
        append_events (pty_events id call chunks) (record s { world = world }),
      )

  -- startPTY, tried again without a controlling terminal after one particular error.
  unfoldable pub start_again : Text → FilePath → Dict Text Text → Process × F → Process × F
  unfolding index
  start_again cmd_str dir env (not_started msg, world) =
      if contains msg (codes "Setctty set but Ctty not valid")
      then os.run_pty false cmd_str dir env world
      else (not_started msg, world)
  start_again cmd_str dir env (ended chunks wait, world) = (ended chunks wait, world)

  unfoldable pub pty_in :
      Text → Text → ShellArgs → Text → LimitedBuffer → Resolved → Service F → Outcome × Service F
  unfolding to_string runes
  pty_in id call args cmd_str buf (refused msg) s = (outcome (pos 2) msg (runes (to_string buf)), s)
  pty_in id call args cmd_str buf (resolved dir) s =
      let first = os.run_pty true cmd_str dir args.env s.world in
      pty_ended id call buf (start_again cmd_str dir args.env first) s

  -- execShellPTYTo, with the text of the buffer
  unfoldable pub exec_shell_pty :
      Text → Text → ShellArgs → Text → LimitedBuffer → Service F → Outcome × Service F
  unfolding resolve_session_workdir
  exec_shell_pty id call args cmd_str buf s =
      pty_in id call args cmd_str buf (resolve_session_workdir (root_of id s) args.cwd) s

  unfoldable pub shell_with :
      ℕ → Text → Text → Text → Parsed ShellArgs → Service F → Outcome × Service F
  unfolding trim_space exec_shell_pty exec_shell_pipes new_limited_buffer
  shell_with max id call args_json (malformed msg) s =
      (outcome (pos 2) (codes "invalid args_json: " ++ msg) [], s)
  shell_with max id call args_json (parsed args) s =
      let cmd_str = trim_space args.cmd in
      let half = new_limited_buffer (max_out max / 2) in
      if is_empty cmd_str
      then (outcome (pos 2) (codes "cmd is required") [], s)
      else if args.pty || is_empty args_json
      then exec_shell_pty id call args cmd_str (new_limited_buffer (max_out max)) s
      else exec_shell_pipes id call args cmd_str half half s

  -- execShellToolCapture; `max` is ToolOutputMaxBytes, 0 if that is not positive.
  unfoldable pub exec_shell_tool_capture : ℕ → Text → Text → Text → Service F → Outcome × Service F
  unfolding default_json
  exec_shell_tool_capture max id call args_json s =
      let args = os.unmarshal_shell (default_json args_json (codes "{}")) in
      shell_with max id call args_json args s

  -- execShellTool runs the same command, with the same events, and keeps no output.
  unfoldable pub exec_shell_tool : Text → Text → Text → Service F → Outcome × Service F
  unfolding exec_shell_tool_capture
  exec_shell_tool id call args_json s =
      let (o, s) = exec_shell_tool_capture 0 id call args_json s in (record o { output = [] }, s)
