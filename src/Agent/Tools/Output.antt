-- ===== src/Agent/Tools/Output.antt =====
-- What the tools of a session write: the events that one makes while it runs.
use xrunner.Base.{
  All, Bool, List, Option, Text, [], append-nil, codes, false, if◌then◌else◌, is_empty, nat_eq,
  none, refl, some, sym, text_eq, trim_space, true, ℕ, ◌++◌, ◌/◌, ◌==◌, ◌||◌, ◌∷◌, ◌≡◌,
}
use xrunner.Agent.Buffer.{LimitedBuffer, new_limited_buffer}
use xrunner.Agent.Edit.{edited, exec_write_file_tool, replace_file, write_parsed, write_resolved}
use xrunner.Agent.Events.{
  Emit, EventKind, assistant_message, error, file_diff, other_kind, session_started, status,
  tool_bundle_loaded, tool_call_result, tool_call_started, tool_output_chunk, user_message,
}
use xrunner.Agent.Exec.{
  chunk_events, default_json, exec_shell_pipes, exec_shell_pty, exec_shell_tool_capture, max_out,
  pipes_ended, pipes_in, pty_ended, pty_events, pty_in, shell_with, start_again,
}
use xrunner.Agent.Os.{
  Os, Outcome, Parsed, Process, Service, ShellArgs, WriteFileArgs, ended, malformed, not_started,
  outcome, parsed, root_of,
}
use xrunner.Agent.Paths.{Resolved, refused, resolve_session_workdir, resolve_write_path, resolved}
use xrunner.Agent.Tools.{run_tool}
use xrunner.Control.Types.{pos}

-- The kinds of event that a tool makes while it runs.
abbrev pub OutputKind : Text → EventKind → Type 0
OutputKind call (tool_output_chunk c stream bytes) = c ≡ call
OutputKind call (file_diff path diff) = Unit
OutputKind call (user_message text) = ⊥
OutputKind call (assistant_message text markdown) = ⊥
OutputKind call (status phase detail) = ⊥
OutputKind call (tool_call_started c name args) = ⊥
OutputKind call (tool_call_result c exit msg) = ⊥
OutputKind call (error msg) = ⊥
OutputKind call (session_started root path) = ⊥
OutputKind call (tool_bundle_loaded path schema version names) = ⊥
OutputKind call other_kind = ⊥

abbrev pub IsOutput : Text → Text → Emit → Type 0
IsOutput id call e = (e.session_id ≡ id) × OutputKind call e.kind

chunk_events-IsOutput :
    (id call : Text) (chunks : List (Bool × List ℕ))
    → All (IsOutput id call) (chunk_events id call chunks)
unfolding chunk_events
chunk_events-IsOutput id call [] = tt
chunk_events-IsOutput id call ((is_err, bytes) ∷ chunks) =
    ((refl, refl), chunk_events-IsOutput id call chunks)

pty_events-IsOutput :
    (id call : Text) (chunks : List (Bool × List ℕ))
    → All (IsOutput id call) (pty_events id call chunks)
unfolding pty_events
pty_events-IsOutput id call [] = tt
pty_events-IsOutput id call ((is_err, bytes) ∷ chunks) =
    ((refl, refl), pty_events-IsOutput id call chunks)

module _ {F : Type 0} (os : Os F) where
  -- The second state has the events of the first, and then output of the call.
  abbrev pub Writes : Text → Text → Service F → Service F → Type 0
  Writes id call s t =
      (out : List Emit) × (t.emitted ≡ s.emitted ++ out) × All (IsOutput id call) out

  silent : (id call : Text) (s : Service F) (w : F) → Writes id call s (record s { world = w })
  silent id call s w = ([], sym (append-nil s.emitted), tt)

  pipes_ended-Writes :
      (id call : Text) (out err_out : LimitedBuffer) (p : Process × F) (s : Service F)
      → Writes id call s ((pipes_ended os id call out err_out p s).1)
  unfolding pipes_ended
  pipes_ended-Writes id call out err_out (not_started msg, w) s = silent id call s w
  pipes_ended-Writes id call out err_out (ended chunks wait, w) s =
      (chunk_events id call chunks, refl, chunk_events-IsOutput id call chunks)

  pipes_in-Writes :
      (id call : Text) (args : ShellArgs) (cmd : Text) (out err_out : LimitedBuffer)
      (dir : Resolved) (s : Service F)
      → Writes id call s ((pipes_in os id call args cmd out err_out dir s).1)
  pipes_in-Writes id call args cmd out err_out (refused msg) s = silent id call s s.world
  pipes_in-Writes id call args cmd out err_out (resolved dir) s =
      pipes_ended-Writes id call out err_out (os.run_pipes cmd dir args.env s.world) s

  pty_ended-Writes :
      (id call : Text) (buf : LimitedBuffer) (p : Process × F) (s : Service F)
      → Writes id call s ((pty_ended os id call buf p s).1)
  unfolding pty_ended
  pty_ended-Writes id call buf (not_started msg, w) s = silent id call s w
  pty_ended-Writes id call buf (ended chunks wait, w) s =
      (pty_events id call chunks, refl, pty_events-IsOutput id call chunks)

  pty_in-Writes :
      (id call : Text) (args : ShellArgs) (cmd : Text) (buf : LimitedBuffer) (dir : Resolved)
      (s : Service F)
      → Writes id call s ((pty_in os id call args cmd buf dir s).1)
  unfolding pty_in
  pty_in-Writes id call args cmd buf (refused msg) s = silent id call s s.world
  pty_in-Writes id call args cmd buf (resolved dir) s =
      pty_ended-Writes id call buf
        (start_again os cmd dir args.env (os.run_pty true cmd dir args.env s.world)) s

  -- A branch of a test writes output if both do.
  either_Writes :
      (id call : Text) (s : Service F) (c : Bool) (a b : Outcome × Service F)
      → Writes id call s (a.1)
      → Writes id call s (b.1)
      → Writes id call s ((if c then a else b).1)
  either_Writes id call s true a b h k = h
  either_Writes id call s false a b h k = k

  shell_with-Writes :
      (max : ℕ) (id call json : Text) (args : Parsed ShellArgs) (s : Service F)
      → Writes id call s ((shell_with os max id call json args s).1)
  unfolding shell_with exec_shell_pty exec_shell_pipes
  shell_with-Writes max id call json (malformed msg) s = silent id call s s.world
  shell_with-Writes max id call json (parsed args) s =
      let cmd = trim_space args.cmd in
      let dir = resolve_session_workdir (root_of id s) args.cwd in
      let buf = new_limited_buffer (max_out max) in
      let half = new_limited_buffer (max_out max / 2) in
      let on_pty = exec_shell_pty os id call args cmd buf s in
      let on_pipes = exec_shell_pipes os id call args cmd half half s in
      either_Writes id call s (is_empty cmd) (outcome (pos 2) (codes "cmd is required") [], s)
        (if args.pty || is_empty json then on_pty else on_pipes) (silent id call s s.world)
        (either_Writes id call s (args.pty || is_empty json) on_pty on_pipes
          (pty_in-Writes id call args cmd buf dir s)
          (pipes_in-Writes id call args cmd half half dir s))

  edited-Writes :
      (id call : Text) (args : WriteFileArgs) (old : Text) (r : Option Text × F) (s : Service F)
      → Writes id call s ((edited os id args old r s).1)
  unfolding edited
  edited-Writes id call args old (some msg, w) s = silent id call s w
  edited-Writes id call args old (none, w) s = (_, refl, ((refl, tt), tt))

  write_parsed-Writes :
      (id call : Text) (args : Parsed WriteFileArgs) (s : Service F)
      → Writes id call s ((write_parsed os id args s).1)
  unfolding write_parsed write_resolved
  write_parsed-Writes id call (malformed msg) s = silent id call s s.world
  write_parsed-Writes id call (parsed args) s =
      write_resolved-Writes (resolve_write_path (root_of id s) args.path)
    where
      write_resolved-Writes : (r : Resolved) → Writes id call s ((write_resolved os id args r s).1)
      write_resolved-Writes (refused msg) = silent id call s s.world
      write_resolved-Writes (resolved abs) =
          edited-Writes id call args _ (replace_file os abs args.mode args.content s.world) s

  pub run_tool-Writes :
      (max : ℕ) (id call tool json : Text) (s : Service F)
      → Writes id call s ((run_tool os max id call tool json s).1)
  unfolding run_tool exec_shell_tool_capture exec_write_file_tool
  run_tool-Writes max id call tool json s =
      let shell = exec_shell_tool_capture os max id call json s in
      let write = exec_write_file_tool os id json s in
      let unknown : Outcome × Service F =
        (outcome (pos 2) (codes "unknown tool: " ++ tool) [], s) in
      either_Writes id call s (tool == codes "shell") shell
        (if tool == codes "write_file_atomic" then write else unknown)
        (shell_with-Writes max id call json (os.unmarshal_shell (default_json json (codes "{}"))) s)
        (either_Writes id call s (tool == codes "write_file_atomic") write unknown
          (write_parsed-Writes id call (os.unmarshal_write (default_json json (codes "{}"))) s)
          (silent id call s s.world))
