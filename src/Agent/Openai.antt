-- ===== src/Agent/Openai.antt =====
-- Requests and answers of internal/llm/openai_compat.go: the messages that Generate sends, and
-- readStream, which puts an answer together from server-sent events. HTTP is outside, and
-- json.Unmarshal is a parameter. The index of a tool call is taken to be a number, 0 if it is left out.
use xrunner.Base.{
  Bool, List, Option, Text, [], codes, drop, eqb, false, get_or, if◌then◌else◌, is_empty, length,
  ltb, nat_eq, none, some, suc, text_eq, trim_space, true, zero, ℕ, ◌&&◌, ◌++◌, ◌==◌, ◌∷◌,
}
use xrunner.Base.Dict.{Dict, insert, lookup}
use xrunner.Agent.Chat.{Message, ToolCall}
use xrunner.Agent.Config.{to_lower}
use xrunner.Agent.Paths.{has_prefix}
use xrunner.Shell.Search.{chunk}

-- oaiToolCall
pub record ToolCallDelta : Type 0 where
  pub index : ℕ
  pub id : Text
  pub name : Text
  pub arguments : Text

-- oaiChatMsg
pub record ChatMsg : Type 0 where
  pub role : Text
  pub content : Text
  pub tool_calls : List ToolCallDelta
  pub tool_call_id : Text

abbrev pub sent_calls : List ToolCall → List ToolCallDelta
sent_calls [] = []
sent_calls (tc ∷ calls) =
    record { index = 0; id = tc.id; name = tc.name; arguments = tc.args_json } ∷ sent_calls calls

-- strings.EqualFold(role, "tool"), of a role without a Kelvin sign or a long s.
unfoldable pub chat_msg : Message → ChatMsg
unfolding trim_space to_lower
chat_msg m =
    let given = trim_space m.role in
    let role = if is_empty given then codes "user" else given in
    record {
      role = role;
      content = m.content;
      tool_calls = sent_calls m.tool_calls;
      tool_call_id = if to_lower role == codes "tool" then m.tool_call_id else [];
    }

unfoldable pub to_tool_calls : List ToolCallDelta → List ToolCall
to_tool_calls [] = []
to_tool_calls (c ∷ calls) =
    record { id = c.id; name = c.name; args_json = c.arguments } ∷ to_tool_calls calls

pub record Choice : Type 0 where
  pub content : Text
  pub function_call : Option (Text × Text)  -- name, arguments
  pub tool_calls : List ToolCallDelta

-- oaiStreamResp
pub record Chunk : Type 0 where
  pub choices : List Choice
  pub error : Option Text

-- The variables of readStream, with the deltas that were passed on.
pub record Reading : Type 0 where
  pub text : Text
  pub deltas : List Text
  pub calls : Dict ℕ ToolCall
  pub data_lines : List Text

abbrev pub no_call : ToolCall
no_call = record { id = []; name = []; args_json = [] }

abbrev pub or_text : Text → Text → Text
or_text [] fallback = fallback
or_text (c ∷ s) fallback = c ∷ s

unfoldable pub call_at : ℕ → Reading → ToolCall
unfolding lookup
call_at index s = get_or (lookup index s.calls) no_call

unfoldable pub on_function_call : Option (Text × Text) → Reading → Reading
unfolding call_at insert
on_function_call none s = s
on_function_call (some (name, arguments)) s =
    let tc = call_at 0 s in
    let merged : ToolCall = record {
      id = or_text tc.id (codes "call_0");
      name = or_text tc.name name;
      args_json = tc.args_json ++ arguments;
    } in
    record s { calls = insert 0 merged s.calls }

-- The deltas of the tool calls from index `i` of their list on; `several` if it has more than one.
unfoldable pub on_tool_calls : Bool → ℕ → List ToolCallDelta → Reading → Reading
unfolding call_at insert
on_tool_calls several i [] s = s
on_tool_calls several i (d ∷ ds) s =
    let index = if eqb d.index 0 && several then i else d.index in
    let tc = call_at index s in
    let merged : ToolCall = record {
      id = or_text tc.id d.id;
      name = or_text tc.name d.name;
      args_json = tc.args_json ++ d.arguments;
    } in
    on_tool_calls several (suc i) ds (record s { calls = insert index merged s.calls })

abbrev pub on_content : Text → Reading → Reading
on_content [] s = s
on_content (c ∷ d) s = record s { text = s.text ++ c ∷ d; deltas = s.deltas ++ (c ∷ d) ∷ [] }

unfoldable pub on_choices : List Choice → Reading → Reading
unfolding on_tool_calls on_function_call
on_choices [] s = s
on_choices (choice ∷ choices) s =
    let several = ltb 1 (length choice.tool_calls) in
    on_choices choices (
      on_tool_calls several 0 choice.tool_calls
        (on_function_call choice.function_call (on_content choice.content s)))

-- What flushEvent returns: an error, or whether the stream is done.
pub data Flushed : Type 0 where
  flushed : Bool → Reading → Flushed
  stream_error : Text → Flushed

abbrev pub joined : List Text → Text
joined [] = []
joined (l ∷ []) = l
joined (l ∷ (k ∷ ls)) = l ++ 10 ∷ joined (k ∷ ls)

unfoldable pub on_chunk : Option Chunk → Reading → Flushed
unfolding on_choices trim_space
on_chunk none s = flushed false s
on_chunk (some chunk) s =
    let msg = get_or chunk.error [] in
    if is_empty (trim_space msg)
    then flushed false (on_choices chunk.choices s)
    else stream_error (codes "llm error: " ++ msg)

-- The result of readStream: the text with the deltas and the tool calls, or an error.
pub data StreamResult : Type 0 where
  stream_text : Text → List Text → List ToolCall → StreamResult
  stream_failed : Text → StreamResult

-- The loop over the indices below the number of calls.
unfoldable pub ordered_from : ℕ → ℕ → Dict ℕ ToolCall → List ToolCall
unfolding lookup
ordered_from zero i calls = []
ordered_from (suc k) i calls =
    let tc = get_or (lookup i calls) no_call in
    let rest = ordered_from k (suc i) calls in
    if is_empty tc.name && is_empty tc.args_json then rest else tc ∷ rest

module _ (decode : Text → Option Chunk) where
  unfoldable pub flush_event : Reading → Flushed
  unfolding on_chunk trim_space
  flush_event s =
      let text = trim_space (joined s.data_lines) in
      let t = record s { data_lines = [] } in
      if is_empty text
      then flushed false t
      else if text == codes "[DONE]"
      then flushed true t
      else on_chunk (decode text) t

  unfoldable pub result_of : Flushed → StreamResult
  unfolding ordered_from
  result_of (stream_error msg) = stream_failed msg
  result_of (flushed done s) = stream_text s.text s.deltas (ordered_from (length s.calls) 0 s.calls)

  unfoldable pub after_flush : (Reading → StreamResult) → Flushed → StreamResult
  unfolding flush_event result_of
  after_flush next (stream_error msg) = stream_failed msg
  after_flush next (flushed true s) = result_of (flush_event s)
  after_flush next (flushed false s) = next s

  -- The loop of readStream, over the lines that end in a line break: what comes behind the last one
  -- is not read.
  unfoldable pub read_lines : List Text → Reading → StreamResult
  unfolding after_flush flush_event result_of trim_space
  read_lines [] s = result_of (flush_event s)
  read_lines (line ∷ lines) s =
      let keep = record s { data_lines = s.data_lines ++ trim_space (drop 5 line) ∷ [] } in
      let on_blank = after_flush (λ t. read_lines lines t) (flush_event s) in
      let on_data = read_lines lines keep in
      let on_other = read_lines lines s in
      if is_empty (trim_space line)
      then on_blank
      else if has_prefix line (codes "data:")
      then on_data
      else on_other

  unfoldable pub read_stream : List Text → StreamResult
  unfolding read_lines
  read_stream lines =
      read_lines lines (record { text = []; deltas = []; calls = []; data_lines = [] })
