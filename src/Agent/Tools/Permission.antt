-- ===== src/Agent/Tools/Permission.antt =====
-- Which tools a session runs, and the events around them.
use xrunner.Base.{
  All, Bool-cases, List, Option, Text, [], append_assoc, codes, inl, inr, is_empty, nat_eq, none,
  refl, some, text_eq, trim_space, ℕ, ◌++◌, ◌≡◌, ◌⊎◌,
}
use xrunner.Base.Dict.{lookup}
use xrunner.Agent.Bundle.{Bundle, Loaded, failed, load_bundle, loaded}
use xrunner.Agent.Events.{Emit, closing, opening}
use xrunner.Agent.Os.{Os, Service, append_events}
use xrunner.Agent.Tools.{
  ToolInvoke, ToolResult, bracketed, bundle_for_session, exec_tool_sync, exec_unless, find_bundle,
  objection, of_loaded, refusal,
}
use xrunner.Agent.Tools.Allowed.{
  MayRun, MayRun-objection, is_empty_nil, objection-MayRun, some_unlike_none,
}
use xrunner.Agent.Tools.Output.{IsOutput, run_tool-Writes}
use xrunner.Session.Defs.{SessionMeta}
use xrunner.Shell.Queries.{before}

regroup :
    (before same start out end after : List Emit)
    → before ≡ same
    → after ≡ (before ++ start) ++ out
    → after ++ end ≡ same ++ start ++ out ++ end
regroup before same start out end after e grew =
    rw (grew, e, append_assoc (same ++ start) out end, append_assoc same start (out ++ end)) refl

module _ {F : Type 0} (os : Os F) where
  -- What a call of execToolSync in state `s` did: it was refused, because it names no tool or the session may
  -- not run it, and then it made no event and changed nothing outside; or the session may run the tool.
  pub data Executed (id : Text) (inv : ToolInvoke) (s : Service F)
      : ToolResult × Service F → Type 0 where
    refused_with :
        (msg : Text) (t : Service F)
        → (t.emitted ≡ s.emitted)
        → (t.world ≡ s.world)
        → ((trim_space inv.name ≡ []) ⊎ ¬ MayRun os id (trim_space inv.name) s)
        → Executed id inv s (refusal msg, t)
    permitted :
        (r : ToolResult) (t : Service F) (out : List Emit)
        → MayRun os id (trim_space inv.name) s
        → (t.emitted
            ≡ s.emitted
              ++ opening id r.tool_call_id (trim_space inv.name) inv.args_json
              ++ out
              ++ closing id r.tool_call_id r.exit r.err_msg)
        → All (IsOutput id r.tool_call_id) out
        → Executed id inv s (r, t)

  -- Looking for the bundle makes no event and changes nothing outside.
  find_bundle_still :
      (id : Text) (b : Option Bundle) (m : Option SessionMeta) (s : Service F)
      → ((find_bundle os id b m s).1.emitted ≡ s.emitted)
        × ((find_bundle os id b m s).1.world ≡ s.world)
  unfolding find_bundle of_loaded
  find_bundle_still id (some b) m s = (refl, refl)
  find_bundle_still id none none s = (refl, refl)
  find_bundle_still id none (some m) s =
      let path = trim_space m.tool_bundle_path in
      let l = load_bundle os.parse_time (os.read_bundle s.world) path in
      elim (Bool-cases (is_empty path)) [
        | inl e ↦ rw e (refl, refl)
        | inr e ↦ rw e (of_loaded_still path l)
      ]
    where
      of_loaded_still :
          (path : Text) (l : Loaded)
          → ((of_loaded os id path l s).1.emitted ≡ s.emitted)
            × ((of_loaded os id path l s).1.world ≡ s.world)
      of_loaded_still path (loaded b) = (refl, refl)
      of_loaded_still path (failed msg) = (refl, refl)

  bundle_for_session_still :
      (id : Text) (s : Service F)
      → ((bundle_for_session os id s).1.emitted ≡ s.emitted)
        × ((bundle_for_session os id s).1.world ≡ s.world)
  unfolding bundle_for_session
  bundle_for_session_still id s =
      find_bundle_still id (lookup id s.bundles) (lookup id s.sessions) s

  exec_unless-Executed :
      (max : ℕ) (id : Text) (inv : ToolInvoke) (s t : Service F) (o : Option Text)
      → (t.emitted ≡ s.emitted)
      → (t.world ≡ s.world)
      → (o ≡ none → MayRun os id (trim_space inv.name) s)
      → (MayRun os id (trim_space inv.name) s → o ≡ none)
      → Executed id inv s (exec_unless os max id (trim_space inv.name) inv.args_json o t)
  unfolding exec_unless bracketed
  exec_unless-Executed max id inv s t (some msg) e w permits only =
      refused_with msg t e w (inr λ may. some_unlike_none msg (only may))
  exec_unless-Executed max id inv s t none e w permits only =
      let tool = trim_space inv.name in
      let (call, world) = os.new_string t.world in
      let u = append_events (opening id call tool inv.args_json) (record t { world = world }) in
      let (out, grew, from_tool) = run_tool-Writes os max id call tool inv.args_json u in
      permitted _ _ out (permits refl) (regroup _ _ _ _ _ _ e grew) from_tool

  -- execToolSync refuses a call, with exit code 2 and an empty content, only if the call names no tool or
  -- the session may not run it, and then makes no event and changes nothing outside the service. Any
  -- other call is of a tool that the session may run: the bundle that is kept for it, or is read without
  -- an error from its path, names the tool, or it has no bundle. The events of such a call are
  -- tool_call_started and a status, the output of the call, and tool_call_result and a status, with the
  -- call id, exit code and message that it returns.
  pub exec_tool_sync-Executed :
      (max : ℕ) (id : Text) (inv : ToolInvoke) (s : Service F)
      → Executed id inv s (exec_tool_sync os max id inv s)
  unfolding exec_tool_sync bundle_for_session
  exec_tool_sync-Executed max id inv s =
      let tool = trim_space inv.name in
      let (f, t) = bundle_for_session os id s in
      let (events, world) = bundle_for_session_still id s in
      elim (Bool-cases (is_empty tool)) [
        | inl e ↦
            rw e
              (refused_with (codes "tool name is required") s refl refl (inl (is_empty_nil tool e)))
        | inr e ↦ rw e (
            exec_unless-Executed max id inv s t (objection os tool f) events world
              (objection-MayRun os id tool (lookup id s.bundles) (lookup id s.sessions) s refl refl)
              (MayRun-objection os id tool s))
      ]
