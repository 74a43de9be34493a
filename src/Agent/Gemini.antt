-- ===== src/Agent/Gemini.antt =====
-- Requests and streamed answers of internal/llm/gemini.go. HTTP is outside, and json.Unmarshal is a
-- parameter; the texts of an answer are bytes, which the code slices.
use xrunner.Base.{
  Bool, List, Option, Text, [], codes, drop, false, if◌then◌else◌, is_empty, length, ltb, nat_eq,
  none, not, some, text_eq, trim_space, true, ℕ, ◌&&◌, ◌++◌, ◌==◌, ◌∷◌,
}
use xrunner.Agent.Chat.{Message}
use xrunner.Agent.Config.{is_one_of, to_lower}
use xrunner.Agent.Paths.{has_prefix}

pub record Content : Type 0 where
  pub role : Text
  pub text : Text

-- Every role but the assistant's becomes the user's, and tool calls are left out.
unfoldable pub content_of : Message → Content
unfolding trim_space to_lower
content_of m =
    let role = to_lower (trim_space m.role) in
    record {
      role =
          if is_one_of role (codes "assistant" ∷ codes "model" ∷ [])
          then codes "model"
          else codes "user";
      text = m.content;
    }

-- The operator of a request, and whether its answer is read as server-sent events.
unfoldable pub operator_of : Text → Bool → Text × Bool
unfolding trim_space
operator_of configured streams =
    let given = trim_space configured in
    let operator = if is_empty given then codes "generateContent" else given in
    if streams && operator == codes "generateContent"
    then (codes "streamGenerateContent", true)
    else (operator, false)

-- geminiResp: the texts of the parts of each candidate
pub record Answer : Type 0 where
  pub candidates : List (List (List ℕ))

abbrev pub full_text : List (List ℕ) → List ℕ
full_text [] = []
full_text (p ∷ parts) = p ++ full_text parts

-- The text so far, the deltas that were passed on, and lastLen.
pub record Sse : Type 0 where
  pub text : List ℕ
  pub deltas : List (List ℕ)
  pub last_len : ℕ

abbrev pub on_full : List ℕ → Sse → Sse
on_full full s =
    let delta = drop s.last_len full in
    if ltb s.last_len (length full)
    then record { text = s.text ++ delta; deltas = s.deltas ++ delta ∷ []; last_len = length full }
    else s

unfoldable pub on_answer : Option Answer → Sse → Sse
on_answer none s = s
on_answer (some a) s = elim a.candidates [ [] ↦ s | parts ∷ others ↦ on_full (full_text parts) s ]

module _ (decode : Text → Option Answer) where
  -- The loop of readGeminiSSE, over the lines of the scanner.
  unfoldable pub read_gemini_sse : List Text → Sse → Sse
  unfolding on_answer trim_space
  read_gemini_sse [] s = s
  read_gemini_sse (raw ∷ lines) s =
      let line = trim_space raw in
      let payload = trim_space (drop 5 line) in
      let skipped = read_gemini_sse lines s in
      let taken = read_gemini_sse lines (on_answer (decode payload) s) in
      if not (has_prefix line (codes "data:"))
      then skipped
      else if payload == codes "[DONE]"
      then s
      else taken
