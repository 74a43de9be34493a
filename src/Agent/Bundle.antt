-- ===== src/Agent/Bundle.antt =====
-- The tool bundles of internal/toolspec/bundle.go and their validation. `time.Parse` with RFC 3339 is
-- a parameter, and so are the file and its JSON.
pub mod Valid
use xrunner.Base.{
  Bool, List, Option, Text, [], byte_length, codes, decimal, eqb, false, if◌then◌else◌, is_empty,
  leb, length, ltb, nat_eq, none, not, some, suc, text_eq, trim_space, true, ℕ, ◌&&◌, ◌++◌, ◌==◌,
  ◌||◌, ◌∷◌,
}

pub record FunctionSpec : Type 0 where
  pub name : Text
  pub description : Text
  pub parameters : Text  -- json.RawMessage

pub record ToolDefinition : Type 0 where
  pub kind : Text  -- the field `type`
  pub strict : Option Bool
  pub function : FunctionSpec

pub record Bundle : Type 0 where
  pub schema_version : Text
  pub bundle_version : Text
  pub generated_at : Text
  pub tools : List ToolDefinition

abbrev pub is_digit : ℕ → Bool
is_digit c = leb 48 c && leb c 57

-- `[0-9]`, `-` and the other bytes of a pattern, each against its character.
abbrev pub match_all : List (ℕ → Bool) → Text → Bool
match_all [] [] = true
match_all [] (c ∷ s) = false
match_all (p ∷ ps) [] = false
match_all (p ∷ ps) (c ∷ s) = p c && match_all ps s

abbrev month_day : List (ℕ → Bool)
month_day = eqb 45 ∷ is_digit ∷ is_digit ∷ eqb 45 ∷ is_digit ∷ is_digit ∷ []

-- ^v[0-9]{4}-[0-9]{2}-[0-9]{2}$
abbrev pub bundle_version_re : Text → Bool
bundle_version_re = match_all (eqb 118 ∷ is_digit ∷ is_digit ∷ is_digit ∷ is_digit ∷ month_day)

-- ^20[0-9]{2}-[0-9]{2}-[0-9]{2}$
abbrev pub schema_version_re : Text → Bool
schema_version_re = match_all (eqb 50 ∷ eqb 48 ∷ is_digit ∷ is_digit ∷ month_day)

abbrev pub is_word : ℕ → Bool
is_word c = (leb 65 c && leb c 90) || (leb 97 c && leb c 122) || is_digit c || eqb c 95

unfoldable pub all_chars : (ℕ → Bool) → Text → Bool
all_chars p [] = true
all_chars p (c ∷ s) = p c && all_chars p s

-- ^[A-Za-z0-9_]{1,64}$
unfoldable pub function_name_re : Text → Bool
unfolding all_chars
function_name_re s = not (is_empty s) && (leb (length s) 64 && all_chars is_word s)

-- The checks below return the message of the error, or `none`.
unfoldable pub validate_function : FunctionSpec → Option Text
unfolding function_name_re trim_space byte_length
validate_function f =
    if is_empty f.name
    then some (codes "function.name is required")
    else if not (function_name_re f.name)
    then some (codes "function.name must match [A-Za-z0-9_]{1,64}, got " ++ f.name)
    else if ltb (byte_length (trim_space f.description)) 8
    then some (codes "function.description must be at least 8 characters")
    else none

abbrev pub opens_object : Text → Bool
opens_object [] = false
opens_object (c ∷ s) = eqb c 123

abbrev pub parameters_error : Text → Option Text
parameters_error parameters =
    if is_empty parameters
    then some (codes "function.parameters is required")
    else if not (opens_object (trim_space parameters))
    then some (codes "function.parameters must be a JSON object")
    else none

abbrev pub or_next : Option Text → Option Text → Option Text
or_next none next = next
or_next (some msg) next = some msg

unfoldable pub validate_tool : ToolDefinition → Option Text
unfolding validate_function trim_space
validate_tool t =
    if not (t.kind == codes "function")
    then some (codes "type must be function, got " ++ t.kind)
    else or_next (validate_function t.function) (parameters_error t.function.parameters)

-- The names of `seen` are those that came before.
abbrev pub is_seen : Text → List Text → Bool
is_seen name [] = false
is_seen name (n ∷ seen) = n == name || is_seen name seen

abbrev pub tool_error : ℕ → Option Text → Option Text → Option Text
tool_error i none next = next
tool_error i (some msg) next = some (codes "tool[" ++ decimal i ++ codes "]: " ++ msg)

-- The loop of Validate, from the tool of index `i`.
unfoldable pub validate_tools : ℕ → List Text → List ToolDefinition → Option Text
unfolding validate_tool decimal
validate_tools i seen [] = none
validate_tools i seen (t ∷ ts) =
    let rest = validate_tools (suc i) (t.function.name ∷ seen) ts in
    tool_error i (validate_tool t) (
      if is_seen t.function.name seen
      then some (codes "duplicate tool name " ++ t.function.name)
      else rest)

abbrev pub time_error : Option Text → Option Text
time_error none = none
time_error (some msg) = some (codes "generated_at must be RFC3339: " ++ msg)

unfoldable pub tools_error : List ToolDefinition → Option Text
unfolding validate_tools
tools_error [] = some (codes "tools must contain at least one entry")
tools_error (t ∷ ts) = validate_tools 0 [] (t ∷ ts)

-- Bundle.Validate; `parse_time` is the error of time.Parse(time.RFC3339, …).
unfoldable pub validate : (Text → Option Text) → Bundle → Option Text
unfolding validate_tools tools_error
validate parse_time b =
    if is_empty b.schema_version
    then some (codes "schema_version is required")
    else if not (schema_version_re b.schema_version)
    then some (codes "schema_version must match YYYY-MM-DD, got " ++ b.schema_version)
    else if is_empty b.bundle_version
    then some (codes "bundle_version is required")
    else if not (bundle_version_re b.bundle_version)
    then some (codes "bundle_version must match vYYYY-MM-DD, got " ++ b.bundle_version)
    else if is_empty b.generated_at
    then some (codes "generated_at is required")
    else or_next (time_error (parse_time b.generated_at)) (tools_error b.tools)

-- A bundle, or the message of the error.
pub data Loaded : Type 0 where
  loaded : Bundle → Loaded
  failed : Text → Loaded

abbrev pub valid_or_failed : Bundle → Option Text → Loaded
valid_or_failed b none = loaded b
valid_or_failed b (some msg) = failed msg

abbrev pub and_validate : (Text → Option Text) → Loaded → Loaded
and_validate parse_time (failed msg) = failed msg
and_validate parse_time (loaded b) = valid_or_failed b (validate parse_time b)

-- LoadBundle; `read` is os.ReadFile with json.Unmarshal.
unfoldable pub load_bundle : (Text → Option Text) → (Text → Loaded) → Text → Loaded
unfolding validate
load_bundle parse_time read path = and_validate parse_time (read path)

unfoldable pub allows : List ToolDefinition → Text → Bool
allows [] name = false
allows (t ∷ tools) name = t.function.name == name || allows tools name

-- bundleAllows
unfoldable pub bundle_allows : Option Bundle → Text → Bool
unfolding allows
bundle_allows none name = true
bundle_allows (some b) name = allows b.tools name
