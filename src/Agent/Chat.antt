-- ===== src/Agent/Chat.antt =====
-- The conversation with the language model: buildLLMMessages and the case of a user message of
-- Interact, of internal/remote/session_service.go. The model's answers are a parameter.
pub mod History
pub mod Rounds
use xrunner.Base.{
  Bool, List, Option, Text, [], codes, decimal, drop, eqb, false, if◌then◌else◌, is_empty, length,
  none, some, suc, trim_space, true, zero, ℕ, ◌++◌, ◌||◌, ◌∷◌,
}
use xrunner.Agent.Bundle.{ToolDefinition}
use xrunner.Agent.Config.{Config}
use xrunner.Agent.Events.{
  Emit, EventKind, append_and_broadcast, append_only, assistant_message, broadcast_ephemeral, emit,
  error, file_diff, high, low, medium, other_kind, session_started, status, tool_bundle_loaded,
  tool_call_result, tool_call_started, tool_output_chunk, user_message,
}
use xrunner.Agent.Os.{Os, Parsed, Service, append_events, malformed, parsed}
use xrunner.Agent.Tools.{Found, ToolInvoke, bundle_for_session, exec_tool_sync, with_bundle}
use xrunner.Session.Defs.{replay}
use xrunner.Shell.Search.{turn}

-- llm.ToolCall and llm.Message
pub record ToolCall : Type 0 where
  pub id : Text
  pub name : Text
  pub args_json : Text

pub record Message : Type 0 where
  pub role : Text
  pub content : Text
  pub tool_call_id : Text
  pub tool_calls : List ToolCall

abbrev pub plain : Text → Text → Message
plain role content = record { role = role; content = content; tool_call_id = []; tool_calls = [] }

abbrev pub asking : Text → List ToolCall → Message
asking text calls = record {
  role = codes "assistant";
  content = text;
  tool_call_id = [];
  tool_calls = calls;
}

abbrev pub reply : Text → Text → Message
reply id content = record {
  role = codes "tool";
  content = content;
  tool_call_id = id;
  tool_calls = [];
}

abbrev pub or_default : ℕ → ℕ → ℕ
or_default default zero = default
or_default default (suc n) = suc n

-- One turn of the callback that Replay is given.
abbrev pub ring_push : ℕ → List EventKind → EventKind → List EventKind
ring_push max_events ring ev =
    if eqb (length ring) max_events then drop 1 ring ++ ev ∷ [] else ring ++ ev ∷ []

unfoldable pub ring_of : ℕ → List EventKind → List EventKind → List EventKind
ring_of max_events ring [] = ring
ring_of max_events ring (ev ∷ evs) = ring_of max_events (ring_push max_events ring ev) evs

abbrev pub message_of : EventKind → List Message
message_of (user_message text) = plain (codes "user") text ∷ []
message_of (assistant_message text markdown) = plain (codes "assistant") text ∷ []
message_of (status phase detail) = []
message_of (tool_call_started id name args) = []
message_of (tool_output_chunk id stream bytes) = []
message_of (tool_call_result id exit msg) = []
message_of (file_diff path diff) = []
message_of (error msg) = []
message_of (session_started root path) = []
message_of (tool_bundle_loaded path schema version names) = []
message_of other_kind = []

unfoldable pub messages_of : List EventKind → List Message
messages_of [] = []
messages_of (ev ∷ evs) = message_of ev ++ messages_of evs

unfoldable pub system_message : Text → List Message
unfolding trim_space
system_message prompt =
    if is_empty (trim_space prompt) then [] else plain (codes "system") prompt ∷ []

-- buildLLMMessages, of the events that Replay visits
unfoldable pub build_llm_messages : Config → List EventKind → List Message
unfolding ring_of messages_of system_message
build_llm_messages cfg evs =
    system_message cfg.system_prompt
    ++ messages_of (ring_of (or_default 50 cfg.max_history_events) [] evs)

-- What Generate returns, with the deltas that it streams.
pub data Generated : Type 0 where
  generate_failed : List Text → Text → Generated
  answered : List Text → Text → List ToolCall → Generated

-- Tool calls without an id are given one, from the index `i` on.
unfoldable pub with_ids : ℕ → List ToolCall → List ToolCall
unfolding trim_space decimal
with_ids i [] = []
with_ids i (tc ∷ calls) =
    let rest = with_ids (suc i) calls in
    (if is_empty (trim_space tc.id) then record tc { id = codes "call_" ++ decimal i } else tc)
    ∷ rest

-- onDelta; the id is empty if the configuration does not stream.
unfoldable pub delta_events : Text → Text → List Text → List Emit
delta_events id stream_id [] = []
delta_events id stream_id (d ∷ deltas) =
    let rest = delta_events id stream_id deltas in
    if is_empty d || is_empty stream_id
    then rest
    else record {
      sent = broadcast_ephemeral;
      session_id = id;
      lane = low;
      kind = tool_output_chunk stream_id (codes "assistant") d;
    }
      ∷ rest

-- The conversation so far, the final text, and the service.
pub record Turn (F : Type 0) : Type 0 where
  pub msgs : List Message
  pub final_text : Text
  pub service : Service F

module _ {F : Type 0} (os : Os F) (cfg : Config)
    (generate : List Message → Option (List ToolDefinition) → F → Generated × F) where
  -- The tools of one answer, run one after the other, and their replies.
  unfoldable pub run_calls : Text → List ToolCall → Service F → List Message × Service F
  unfolding exec_tool_sync
  run_calls id [] s = ([], s)
  run_calls id (tc ∷ calls) s =
      let inv : ToolInvoke = record { name = tc.name; args_json = tc.args_json } in
      let (r, t) = exec_tool_sync os cfg.tool_output_max_bytes id inv s in
      let (replies, u) = run_calls id calls t in (reply tc.id r.content ∷ replies, u)

  abbrev pub failed_turn : Text → List Message → Text → Service F → Turn F
  failed_turn id msgs msg s = record {
    msgs = msgs;
    final_text = [];
    service = append_events (emit id high (error (codes "llm: " ++ msg)) ∷ []) s;
  }

  unfoldable pub on_generated :
      (List Message → Service F → Turn F)
      → Text
      → Text
      → List Message
      → Generated
      → Service F
      → Turn F
  unfolding run_calls with_ids delta_events
  on_generated next id stream_id msgs (generate_failed deltas msg) s =
      failed_turn id msgs msg (append_events (delta_events id stream_id deltas) s)
  on_generated next id stream_id msgs (answered deltas text []) s = record {
    msgs = msgs;
    final_text = text;
    service = append_events (delta_events id stream_id deltas) s;
  }
  on_generated next id stream_id msgs (answered deltas text (tc ∷ calls)) s =
      let calls = with_ids 0 (tc ∷ calls) in
      let t = append_events (delta_events id stream_id deltas) s in
      let (replies, u) = run_calls id calls t in next (msgs ++ asking text calls ∷ replies) u

  -- The loop of Interact, with the number of turns left.
  unfoldable pub tool_loop :
      Option (List ToolDefinition) → Text → Text → ℕ → List Message → Service F → Turn F
  unfolding on_generated
  tool_loop tools id stream_id zero msgs s = record { msgs = msgs; final_text = []; service = s }
  tool_loop tools id stream_id (suc k) msgs s =
      let (g, world) = generate msgs tools s.world in
      on_generated (λ msgs s. tool_loop tools id stream_id k msgs s) id stream_id msgs g
        (record s { world = world })

  abbrev pub final_event : Text → Text → Text → List Emit
  final_event id stream_id text =
      if is_empty text
      then []
      else record {
        sent = if is_empty stream_id then append_and_broadcast else append_only;
        session_id = id;
        lane = high;
        kind = assistant_message text true;
      }
        ∷ []

  abbrev pub tools_of : Found → Option (List ToolDefinition)
  tools_of (with_bundle b) = some b.tools
  tools_of f = none

  -- The id of the stream of deltas, if the configuration asks for one.
  abbrev pub stream_id_of : Service F → Text × Service F
  stream_id_of s =
      let (fresh, world) = os.new_string s.world in
      if cfg.stream then (codes "assistant:" ++ fresh, record s { world = world }) else ([], s)

  -- From the history to the last event of the turn.
  unfoldable pub converse : Text → Parsed (List EventKind) → Service F → Service F
  unfolding build_llm_messages bundle_for_session tool_loop trim_space
  converse id (malformed msg) s =
      append_events (emit id high (error (codes "llm context: " ++ msg)) ∷ []) s
  converse id (parsed evs) s =
      let msgs = build_llm_messages cfg evs in
      let (f, t) = bundle_for_session os id s in
      let (stream_id, u) = stream_id_of t in
      let turn = tool_loop (tools_of f) id stream_id (or_default 1 cfg.max_tool_iters) msgs u in
      let idle = emit id medium (status (codes "idle") []) in
      append_events (final_event id stream_id (trim_space turn.final_text) ++ idle ∷ [])
        turn.service

  abbrev pub thinking : Text → Emit
  thinking id =
      emit id medium
        (status (codes "thinking") (codes "llm:" ++ cfg.provider ++ codes " model=" ++ cfg.model))

  -- What keeps the service from answering: llmInitErr, or no client.
  abbrev pub unavailable : Option Text → Bool → Option Text
  unavailable (some msg) has_client = some (codes "llm init: " ++ msg)
  unavailable none true = none
  unavailable none false = some (codes "llm: enabled but client is nil (check XR_LLM_PROVIDER)")

  unfoldable pub answer_unless :
      Text → Option Text → (Text → Service F → Parsed (List EventKind)) → Service F → Service F
  unfolding converse
  answer_unless id (some msg) replay s = append_events (emit id high (error msg) ∷ []) s
  answer_unless id none replay s =
      let t = append_events (thinking id ∷ []) s in converse id (replay id t) t

  -- The case of a user message; `replay` is what store.Replay visits, or its error.
  unfoldable pub handle_user_message :
      Option Text
      → Bool
      → (Text → Service F → Parsed (List EventKind))
      → Text
      → Text
      → Service F
      → Service F
  unfolding answer_unless
  handle_user_message init_err has_client replay id text s =
      let t = append_events (emit id high (user_message text) ∷ []) s in
      if cfg.enabled
      then answer_unless id (unavailable init_err has_client) replay t
      else append_events (emit id high (assistant_message (codes "ack") false) ∷ []) t
