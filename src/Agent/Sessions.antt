-- ===== src/Agent/Sessions.antt =====
-- The handlers of session requests of internal/remote/session_service.go: CreateSession, ListSessions,
-- GetSession, DeleteSession, and what StreamEvents sends. The session store is here what its Get
-- finds; its methods are those of Session/Defs.
use xrunner.Base.{
  List, Option, Text, [], codes, if◌then◌else◌, is_empty, nat_eq, none, some, text_eq, trim_space,
  ℕ, ◌++◌, ◌∷◌,
}
use xrunner.Base.Dict.{Dict, delete, insert, lookup}
use xrunner.Agent.Bundle.{Loaded, ToolDefinition, failed, load_bundle, loaded}
use xrunner.Agent.Events.{emit, error, high, medium, session_started, tool_bundle_loaded}
use xrunner.Agent.Hub.{send_event}
use xrunner.Agent.Os.{Os, Service, append_events}
use xrunner.Grpc.{Result, err, internal, invalid_argument, not_found, ok}
use xrunner.Session.Defs.{AgentEvent, SessionMeta}

abbrev tool_names : List ToolDefinition → List Text
tool_names [] = []
tool_names (t ∷ tools) = t.function.name ∷ tool_names tools

unfoldable pub add_bundle : {F : Type 0} → Text → Text → Loaded → Service F → Service F
unfolding insert
add_bundle id path (failed msg) s =
    append_events (emit id high (error (codes "tool bundle: " ++ msg)) ∷ []) s
add_bundle id path (loaded b) s =
    let event = tool_bundle_loaded path b.schema_version b.bundle_version (tool_names b.tools) in
    append_events (emit id medium event ∷ []) (record s { bundles = insert id b s.bundles })

-- `default_root` is workspaceRootDefault; the store names the session by a fresh UUID.
unfoldable pub create_session :
    {F : Type 0} → Os F → Text → Text → Text → ℕ → Service F → SessionMeta × Service F
unfolding add_bundle insert trim_space load_bundle
create_session os default_root workspace_root tool_bundle_path now s =
    let (id, world) = os.new_string s.world in
    let root = trim_space workspace_root in
    let path = trim_space tool_bundle_path in
    let meta : SessionMeta = record {
      session_id = id;
      workspace_root = if is_empty root then default_root else root;
      tool_bundle_path = path;
      created_at = now;
    } in
    let t =
      append_events (emit id high (session_started meta.workspace_root path) ∷ [])
        (record s { world = world; sessions = insert id meta s.sessions }) in
    let bundle = load_bundle os.parse_time (os.read_bundle world) path in
    (meta, if is_empty path then t else add_bundle id path bundle t)

unfoldable pub list_sessions : {F : Type 0} → Service F → List SessionMeta
list_sessions s = values s.sessions
  where
    values : Dict Text SessionMeta → List SessionMeta
    values [] = []
    values ((id, meta) ∷ sessions) = meta ∷ values sessions

abbrev found_or : Text → Option SessionMeta → Result SessionMeta
found_or msg none = err not_found msg
found_or msg (some meta) = ok meta

-- `msg` is the text of the store's error.
unfoldable pub get_session : {F : Type 0} → Text → Text → Service F → Result SessionMeta
unfolding lookup trim_space
get_session msg id s = found_or msg (lookup (trim_space id) s.sessions)

-- The bundle of the session stays among the bundles.
unfoldable pub delete_session : {F : Type 0} → Text → Service F → Service F
unfolding delete trim_space
delete_session id s = record s { sessions = delete (trim_space id) s.sessions }

unfoldable pub all_sent : ℕ → List AgentEvent → List AgentEvent
unfolding send_event
all_sent after [] = []
all_sent after (ev ∷ evs) = send_event after ev ++ all_sent after evs

unfoldable pub stream_from :
    ℕ → Option (List AgentEvent) → List AgentEvent → Result (List AgentEvent)
unfolding all_sent
stream_from after none from_channel = err internal (codes "replay failed")
stream_from after (some replayed) from_channel = ok (replayed ++ all_sent after from_channel)

-- What StreamEvents sends until its channel is closed; `replayed` is what store.Replay sends, and
-- `from_channel` what the channel gives, to which the handler subscribes after the replay.
unfoldable pub stream_events :
    Text → ℕ → Option (List AgentEvent) → List AgentEvent → Result (List AgentEvent)
unfolding stream_from trim_space
stream_events session_id after replayed from_channel =
    if is_empty (trim_space session_id)
    then err invalid_argument (codes "session_id is required")
    else stream_from after replayed from_channel
