-- ===== src/Agent/Tests/Conversation.antt =====
-- The theorems on bundles, tools and conversations at concrete inputs.
use xrunner.Base.{
  List, Option, Text, [], codes, false, if◌then◌else◌, nat_eq, none, refl, some, text_beq, text_eq,
  true, ◌++◌, ◌==◌, ◌∷◌, ◌≡◌, ◌≤◌,
}
use xrunner.Agent.Bundle.{ToolDefinition, bundle_version_re, load_bundle, loaded, schema_version_re}
use xrunner.Agent.Bundle.Valid.{Distinct, load_bundle-Distinct}
use xrunner.Agent.Chat.{
  Generated, Message, answered, build_llm_messages, messages_of, plain, system_message, tool_loop,
}
use xrunner.Agent.Chat.History.{build_llm_messages_last}
use xrunner.Agent.Chat.Rounds.{Adds, tool_loop-Rounds}
use xrunner.Agent.Config.{Config, from_env}
use xrunner.Agent.Events.{EventKind, status, user_message}
use xrunner.Agent.Last.{last}
use xrunner.Agent.Openai.{Chunk, read_stream, stream_text}
use xrunner.Agent.Os.{Service}
use xrunner.Agent.Tests.Disk.{Files, edited_path, same_path, shell_bundle, small_os}
use xrunner.Agent.Tools.{ToolInvoke, exec_tool_sync}
use xrunner.Agent.Tools.Permission.{Executed, exec_tool_sync-Executed}

load_bundle-Distinct_example :
    (schema_version_re (codes "2025-12-15") ≡ true)
    × (bundle_version_re (codes "v2025-12-15") ≡ true)
    × (1 ≤ 1)
    × Distinct [] shell_bundle.tools
unfolding load_bundle text_beq
load_bundle-Distinct_example =
    load_bundle-Distinct (λ s. none) (λ path. loaded shell_bundle) (codes "b.json") shell_bundle
      refl

abbrev one_session : Service Files
one_session = record {
  sessions =
      (
        codes "s",
        record {
          session_id = codes "s";
          workspace_root = codes "/";
          tool_bundle_path = codes "b.json";
          created_at = 0;
        },
      )
      ∷ [];
  bundles = [];
  emitted = [];
  world = λ p. if same_path edited_path p then some (codes "old") else none;
}

abbrev list_files : ToolInvoke
list_files = record { name = codes "shell"; args_json = codes "ls" }

exec_tool_sync-Executed_example :
    Executed small_os
      (codes "s")
      list_files
      one_session
      (exec_tool_sync small_os 0 (codes "s") list_files one_session)
exec_tool_sync-Executed_example =
    exec_tool_sync-Executed small_os 0 (codes "s") list_files one_session

abbrev small_env : Text → Text
small_env key =
    if key == codes "XR_LLM_MAX_HISTORY_EVENTS"
    then codes "2"
    else if key == codes "XR_LLM_ENABLED"
    then codes " Yes "
    else []

abbrev small_config : Config
unfolding from_env text_beq
small_config = record (from_env small_env) { system_prompt = codes "help"; stream = false }

small_env_reads : (small_config.max_history_events ≡ 2) × (small_config.enabled ≡ true)
unfolding small_config
small_env_reads = (refl, refl)

abbrev three_events : List EventKind
three_events =
    user_message (codes "first") ∷ user_message (codes "second") ∷ status (codes "idle") [] ∷ []

build_llm_messages_last_example :
    build_llm_messages small_config three_events
    ≡ system_message (codes "help") ++ messages_of (last 2 three_events)
unfolding small_config
build_llm_messages_last_example = build_llm_messages_last small_config three_events

-- A model that always asks for one tool, without an id.
abbrev always_asks : List Message → Option (List ToolDefinition) → Files → Generated × Files
always_asks msgs tools w =
    (answered [] [] (record { id = []; name = codes "shell"; args_json = codes "ls" } ∷ []), w)

tool_loop-Rounds_example :
    Adds small_os small_config always_asks 3 (plain (codes "user") (codes "go") ∷ []) (
      tool_loop small_os small_config always_asks none
        (codes "s")
        []
        3
        (plain (codes "user") (codes "go") ∷ [])
        one_session)
tool_loop-Rounds_example =
    tool_loop-Rounds small_os small_config always_asks none (codes "s") [] 3
      (plain (codes "user") (codes "go") ∷ []) one_session

-- A stream with one tool call, of index 2: the call is dropped.
abbrev late_call : Text → Option Chunk
late_call text = some (record {
  error = none;
  choices =
      record {
        content = codes "hi";
        function_call = none;
        tool_calls =
            record { index = 2; id = codes "c"; name = codes "shell"; arguments = [] } ∷ [];
      }
      ∷ [];
})

sparse_call_dropped :
    read_stream late_call (codes "data: {}" ∷ [] ∷ [])
    ≡ stream_text (codes "hi") (codes "hi" ∷ []) []
unfolding read_stream text_beq
sparse_call_dropped = refl
