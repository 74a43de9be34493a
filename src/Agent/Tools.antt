-- ===== src/Agent/Tools.antt =====
-- Tool calls of internal/remote/session_service.go: bundleForSession, execToolSync, handleToolInvoke
-- with its goroutine, and handleCancel.
pub mod Output
pub mod Allowed
pub mod Permission
use xrunner.Base.{
  List, Option, Text, [], codes, decimal, if◌then◌else◌, is_empty, nat_eq, none, not, some, suc,
  text_eq, trim_space, ℕ, ◌++◌, ◌==◌, ◌∷◌,
}
use xrunner.Base.Dict.{insert, lookup}
use xrunner.Agent.Bundle.{Bundle, Loaded, bundle_allows, failed, is_seen, load_bundle, loaded}
use xrunner.Agent.Edit.{exec_write_file_tool}
use xrunner.Agent.Events.{Emit, closing, emit, error, high, opening, status}
use xrunner.Agent.Exec.{exec_shell_tool_capture}
use xrunner.Agent.Os.{Os, Outcome, Service, append_events, outcome}
use xrunner.Control.Types.{negsuc, pos, unknown, ℤ}
use xrunner.Session.Defs.{SessionMeta}

-- What bundleForSession returns.
pub data Found : Type 0 where
  no_bundle : Found
  with_bundle : Bundle → Found
  bundle_error : Text → Text → Found  -- the path, and the message

pub record ToolInvoke : Type 0 where
  pub name : Text
  pub args_json : Text

-- What execToolSync returns.
pub record ToolResult : Type 0 where
  pub tool_call_id : Text
  pub content : Text
  pub exit : ℤ
  pub err_msg : Text

abbrev pub refusal : Text → ToolResult
refusal msg = record { tool_call_id = []; content = []; exit = pos 2; err_msg = msg }

-- fmt.Sprintf("%d", …) of an int32
unfoldable pub signed_decimal : ℤ → Text
unfolding decimal
signed_decimal (pos n) = decimal n
signed_decimal (negsuc n) = 45 ∷ decimal (suc n)

abbrev pub error_line : Text → Text → Text
error_line content msg =
    if is_empty msg
    then content
    else (if is_empty content then [] else content ++ codes "\n") ++ codes "error: " ++ msg

-- The text that the model is given of a tool's outcome.
unfoldable pub tool_content : Outcome → Text
unfolding trim_space signed_decimal
tool_content o =
    let content = error_line (trim_space o.output) o.err_msg in
    let exit = codes "exit=" ++ signed_decimal o.exit in
    if is_empty content then exit else exit ++ codes "\n" ++ content

abbrev pub of_bundle : Found → Option Bundle
of_bundle (with_bundle b) = some b
of_bundle f = none

-- A goroutine of handleToolInvoke that is to run.
pub record Pending : Type 0 where
  pub call : Text
  pub tool : Text
  pub args_json : Text

module _ {F : Type 0} (os : Os F) where
  unfoldable pub of_loaded : Text → Text → Loaded → Service F → Found × Service F
  unfolding insert
  of_loaded id path (loaded b) s = (with_bundle b, record s { bundles = insert id b s.bundles })
  of_loaded id path (failed msg) s = (bundle_error path msg, s)

  unfoldable pub find_bundle :
      Text → Option Bundle → Option SessionMeta → Service F → Found × Service F
  unfolding trim_space load_bundle
  find_bundle id (some b) m s = (with_bundle b, s)
  find_bundle id none none s = (no_bundle, s)
  find_bundle id none (some m) s =
      let path = trim_space m.tool_bundle_path in
      if is_empty path
      then (no_bundle, s)
      else of_loaded id path (load_bundle os.parse_time (os.read_bundle s.world) path) s

  unfoldable pub bundle_for_session : Text → Service F → Found × Service F
  unfolding lookup
  bundle_for_session id s = find_bundle id (lookup id s.bundles) (lookup id s.sessions) s

  -- Why a tool is refused, if it is.
  unfoldable pub objection : Text → Found → Option Text
  unfolding bundle_allows
  objection tool (bundle_error path msg) =
      some (codes "tool bundle " ++ os.quote path ++ codes ": " ++ msg)
  objection tool f =
      if bundle_allows (of_bundle f) tool
      then none
      else some (codes "tool not permitted by bundle: " ++ tool)

  -- The switch on the tool's name; `max` is ToolOutputMaxBytes.
  unfoldable pub run_tool : ℕ → Text → Text → Text → Text → Service F → Outcome × Service F
  unfolding exec_shell_tool_capture exec_write_file_tool
  run_tool max id call tool args_json s =
      if tool == codes "shell"
      then exec_shell_tool_capture os max id call args_json s
      else if tool == codes "write_file_atomic"
      then exec_write_file_tool os id args_json s
      else (outcome (pos 2) (codes "unknown tool: " ++ tool) [], s)

  -- The execution between the events that open and close it.
  unfoldable pub bracketed : ℕ → Text → Text → Text → Text → Service F → Outcome × Service F
  unfolding run_tool
  bracketed max id call tool args_json s =
      let (o, s) =
        run_tool max id call tool args_json (append_events (opening id call tool args_json) s) in
      (o, append_events (closing id call o.exit o.err_msg) s)

  unfoldable pub exec_unless :
      ℕ → Text → Text → Text → Option Text → Service F → ToolResult × Service F
  unfolding bracketed tool_content
  exec_unless max id tool args_json (some msg) s = (refusal msg, s)
  exec_unless max id tool args_json none s =
      let (call, world) = os.new_string s.world in
      let (o, s) = bracketed max id call tool args_json (record s { world = world }) in
      (
        record {
          tool_call_id = call;
          content = tool_content o;
          exit = o.exit;
          err_msg = o.err_msg;
        },
        s,
      )

  unfoldable pub exec_tool_sync : ℕ → Text → ToolInvoke → Service F → ToolResult × Service F
  unfolding bundle_for_session trim_space
  exec_tool_sync max id inv s =
      let tool = trim_space inv.name in
      let (f, t) = bundle_for_session id s in
      if is_empty tool
      then (refusal (codes "tool name is required"), s)
      else exec_unless max id tool inv.args_json (objection tool f) t

  abbrev pub error_event : Text → Text → Emit
  error_event id msg = emit id high (error msg)

  abbrev pub start_unless :
      Text → Text → Text → Option Text → Service F → Option Pending × Service F
  start_unless id tool args_json (some msg) s = (none, append_events (error_event id msg ∷ []) s)
  start_unless id tool args_json none s =
      let (call, world) = os.new_string s.world in
      (
        some (record { call = call; tool = tool; args_json = args_json }),
        append_events (opening id call tool args_json) (record s { world = world }),
      )

  -- handleToolInvoke until it starts its goroutine
  unfoldable pub handle_tool_invoke : Text → ToolInvoke → Service F → Option Pending × Service F
  unfolding bundle_for_session trim_space
  handle_tool_invoke id inv s =
      let tool = trim_space inv.name in
      let (f, t) = bundle_for_session id s in
      if is_empty tool
      then (none, append_events (error_event id (codes "tool name is required") ∷ []) s)
      else start_unless id tool inv.args_json (objection tool f) t

  -- The goroutine; its output is not kept.
  unfoldable pub run_pending : Text → Pending → Service F → Service F
  unfolding run_tool
  run_pending id p s =
      let (o, s) = run_tool 0 id p.call p.tool p.args_json s in
      append_events (closing id p.call o.exit o.err_msg) s

  -- handleCancel, with the call whose function it calls; `cancels` are the keys of toolCancels.
  unfoldable pub handle_cancel : List Text → Text → Text → Service F → Option Text × Service F
  unfolding trim_space
  handle_cancel cancels id tool_call_id s =
      let call = trim_space tool_call_id in
      let event = emit id high (status (codes "idle") (codes "canceled " ++ call)) in
      if is_empty call
      then (none, s)
      else (if is_seen call cancels then some call else none, append_events (event ∷ []) s)
