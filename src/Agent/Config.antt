-- ===== src/Agent/Config.antt =====
-- The configuration of the language model, internal/llm/config.go. `env` is os.Getenv; the timeout is
-- in milliseconds. A number that is not positive is 0.
use xrunner.Base.{
  Bool, List, Option, Text, [], codes, eqb, false, if◌then◌else◌, is_empty, leb, nat_eq, none, not,
  reverse, some, text_eq, trim_space, true, ℕ, ◌&&◌, ◌*◌, ◌++◌, ◌+◌, ◌==◌, ◌||◌, ◌∷◌,
}
use xrunner.Agent.Paths.{has_prefix}
use xrunner.Control.Types.{negsuc, pos, ℤ}
use xrunner.Shell.Markers.{parse_int}

pub record Config : Type 0 where
  pub enabled : Bool
  pub provider : Text
  pub base_url : Text
  pub api_key : Text
  pub model : Text
  pub system_prompt : Text
  pub timeout : ℕ
  pub max_history_events : ℕ
  pub stream : Bool
  pub max_tool_iters : ℕ
  pub tool_output_max_bytes : ℕ
  pub chat_path : Text
  pub auth_header : Text
  pub auth_value_prefix : Text
  pub api_key_header : Text
  pub api_key_value_prefix : Text
  pub gemini_operator : Text
  pub gemini_key_header : Text

-- unicode.ToLower where it gives an ASCII letter; other runes stay as they are, since the program
-- compares with ASCII texts only.
abbrev pub lower_rune : ℕ → ℕ
lower_rune c =
    if leb 65 c && leb c 90
    then c + 32
    else if eqb c 0x130
    then 105
    else if eqb c 0x212a
    then 107
    else c

unfoldable pub to_lower : Text → Text
to_lower [] = []
to_lower (c ∷ s) = lower_rune c ∷ to_lower s

abbrev pub is_one_of : Text → List Text → Bool
is_one_of s [] = false
is_one_of s (t ∷ ts) = s == t || is_one_of s ts

-- strings.TrimRight(s, "/")
abbrev pub drop_slashes : Text → Text
drop_slashes [] = []
drop_slashes (c ∷ s) = if eqb c 47 then drop_slashes s else c ∷ s

unfoldable pub trim_slashes : Text → Text
trim_slashes s = reverse (drop_slashes (reverse s))

abbrev pub true_words : List Text
true_words = codes "1" ∷ codes "true" ∷ codes "t" ∷ codes "yes" ∷ codes "y" ∷ codes "on" ∷ []

abbrev pub false_words : List Text
false_words = codes "0" ∷ codes "false" ∷ codes "f" ∷ codes "no" ∷ codes "n" ∷ codes "off" ∷ []

abbrev pub not_negative : ℕ → Option ℤ → ℕ
not_negative fallback none = fallback
not_negative fallback (some (pos n)) = n
not_negative fallback (some (negsuc n)) = fallback

abbrev pub default_chat_path : Text
default_chat_path = codes "/v1/chat/completions"

abbrev pub openai_compatible : List Text
openai_compatible = [] ∷ codes "openai_compat" ∷ codes "openai" ∷ codes "deepseek" ∷ []

-- ValidateOpenAICompatBaseURL; `message` is the error's text for a chat path.
unfoldable pub validate_base_url : (Text → Text) → Text → Text → Text → Option Text
unfolding to_lower trim_slashes trim_space
validate_base_url message base_url provider chat_path =
    let bu = trim_slashes (trim_space base_url) in
    let path = trim_space chat_path in
    let cp = if is_empty path then default_chat_path else path in
    if is_empty bu || not (is_one_of (to_lower (trim_space provider)) openai_compatible)
    then none
    else if has_prefix (reverse bu) (codes "1v/") && has_prefix cp (codes "/v1/")
    then some (message cp)
    else none

abbrev pub required : Text → Text → Option Text → Option Text
unfolding trim_space
required name value next =
    if is_empty (trim_space value)
    then some (name ++ codes " is required when XR_LLM_ENABLED is true")
    else next

-- Config.Validate
unfoldable pub validate_config : (Text → Text) → Config → Option Text
unfolding required validate_base_url
validate_config message c =
    if c.enabled
    then required (codes "XR_LLM_PROVIDER") c.provider (
        required (codes "XR_LLM_BASE_URL") c.base_url (
          required (codes "XR_LLM_MODEL") c.model (
            required (codes "XR_LLM_API_KEY") c.api_key
              (validate_base_url message c.base_url c.provider c.chat_path))))
    else none

module _ (env : Text → Text) where
  unfoldable pub default_env : Text → Text → Text
  unfolding trim_space
  default_env key fallback = let v = trim_space (env key) in if is_empty v then fallback else v

  unfoldable pub parse_bool_env : Text → Bool → Bool
  unfolding to_lower trim_space
  parse_bool_env key fallback =
      let v = to_lower (trim_space (env key)) in
      if is_empty v
      then fallback
      else if is_one_of v true_words
      then true
      else if is_one_of v false_words
      then false
      else fallback

  -- parseIntEnv, and parseDurationMillisEnv in milliseconds
  unfoldable pub parse_int_env : Text → ℕ → ℕ
  unfolding trim_space parse_int
  parse_int_env key fallback =
      let v = trim_space (env key) in
      if is_empty v then fallback else not_negative fallback (parse_int v)

  -- FromEnv
  unfoldable pub from_env : Config
  unfolding default_env parse_bool_env parse_int_env trim_space
  from_env = record {
    enabled =
        parse_bool_env (codes "XR_LLM_ENABLED") false
        || parse_bool_env (codes "XR_LLM_ENABLE") false;
    provider = default_env (codes "XR_LLM_PROVIDER") (codes "openai_compat");
    base_url = default_env (codes "XR_LLM_BASE_URL") (trim_space (env (codes "OPENAI_BASE_URL")));
    api_key = default_env (codes "XR_LLM_API_KEY") (trim_space (env (codes "OPENAI_API_KEY")));
    model = default_env (codes "XR_LLM_MODEL") (trim_space (env (codes "OPENAI_MODEL")));
    system_prompt = env (codes "XR_LLM_SYSTEM");
    timeout = parse_int_env (codes "XR_LLM_TIMEOUT_MS") 180000;
    max_history_events = parse_int_env (codes "XR_LLM_MAX_HISTORY_EVENTS") 50;
    stream = parse_bool_env (codes "XR_LLM_STREAM") true;
    max_tool_iters = parse_int_env (codes "XR_LLM_MAX_TOOL_ITERS") 5;
    tool_output_max_bytes = parse_int_env (codes "XR_LLM_TOOL_OUTPUT_MAX_BYTES") (64 * 1024);
    chat_path = default_env (codes "XR_LLM_CHAT_PATH") default_chat_path;
    auth_header = default_env (codes "XR_LLM_AUTH_HEADER") (codes "Authorization");
    auth_value_prefix = default_env (codes "XR_LLM_AUTH_PREFIX") (codes "Bearer ");
    api_key_header = trim_space (env (codes "XR_LLM_API_KEY_HEADER"));
    api_key_value_prefix = default_env (codes "XR_LLM_API_KEY_PREFIX") [];
    gemini_operator = default_env (codes "XR_LLM_GEMINI_OPERATOR") (codes "generateContent");
    gemini_key_header = default_env (codes "XR_LLM_GEMINI_KEY_HEADER") (codes "x-goog-api-key");
  }
