-- ===== src/Agent/Events.antt =====
-- The events that internal/remote/session_service.go appends and broadcasts: the kinds of AgentEvent
-- that it makes, of api/xrunner/v1/session.proto.
use xrunner.Base.{Bool, List, Text, [], codes, ℕ, ◌∷◌}
use xrunner.Control.Types.{ℤ}

pub data Lane : Type 0 where
  low medium high : Lane

pub data EventKind : Type 0 where
  user_message : Text → EventKind
  assistant_message : Text → Bool → EventKind  -- text, markdown
  status : Text → Text → EventKind  -- phase, detail
  tool_call_started : Text → Text → Text → EventKind  -- tool_call_id, name, args_json
  tool_output_chunk : Text → Text → List ℕ → EventKind  -- tool_call_id, stream, data
  tool_call_result : Text → ℤ → Text → EventKind  -- tool_call_id, exit_code, error_message
  file_diff : Text → Text → EventKind  -- path, unified_diff
  error : Text → EventKind
  session_started : Text → Text → EventKind  -- workspace_root, tool_bundle_path
  tool_bundle_loaded : Text → Text → Text → List Text → EventKind  -- path, versions, tool_names
  other_kind : EventKind  -- a kind that this code only replays

-- appendAndBroadcast, appendOnly and broadcastEphemeral
pub data Sent : Type 0 where
  append_and_broadcast append_only broadcast_ephemeral : Sent

-- A call of one of them; the time is left out.
pub record Emit : Type 0 where
  pub sent : Sent
  pub session_id : Text
  pub lane : Lane
  pub kind : EventKind

abbrev pub emit : Text → Lane → EventKind → Emit
emit id lane kind = record {
  sent = append_and_broadcast;
  session_id = id;
  lane = lane;
  kind = kind;
}

-- The events around the execution of a tool.
abbrev pub opening : Text → Text → Text → Text → List Emit
opening id call tool args =
    emit id medium (tool_call_started call tool args)
    ∷ emit id high (status (codes "running_tool") tool)
    ∷ []

abbrev pub closing : Text → Text → ℤ → Text → List Emit
closing id call exit message =
    emit id medium (tool_call_result call exit message)
    ∷ emit id high (status (codes "idle") [])
    ∷ []
