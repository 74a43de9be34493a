-- ===== src/Agent/Bundle/Valid.antt =====
-- What the validation of a tool bundle establishes.
use xrunner.Base.{
  Bool, List, Option, Text, [], ap, arith, codes, false, if◌then◌else◌, is_empty, leb, length,
  nat_eq, none, not, refl, some, suc, sym, text_beq_iff, text_eq, true, ℕ, ◌&&◌, ◌==◌, ◌∙◌, ◌∷◌,
  ◌≡◌, ◌≢◌, ◌≤◌,
}
use xrunner.Agent.Bundle.{
  Bundle, FunctionSpec, Loaded, ToolDefinition, all_chars, and_validate, tool_error,
  bundle_version_re, failed, function_name_re, is_seen, is_word, load_bundle, loaded, or_next,
  parameters_error, schema_version_re, time_error, tools_error, valid_or_failed, validate,
  validate_function, validate_tool, validate_tools,
}

-- A tool's name is unlike those of `seen`.
abbrev pub Fresh : Text → List Text → Type 0
Fresh name [] = Unit
Fresh name (n ∷ seen) = (n ≢ name) × Fresh name seen

abbrev pub WellNamed : Text → Type 0
WellNamed name = (1 ≤ length name) × (length name ≤ 64) × (all_chars is_word name ≡ true)

-- The tools are functions with proper names that differ from one another and from those of `seen`.
abbrev pub Distinct : List Text → List ToolDefinition → Type 0
Distinct seen [] = Unit
Distinct seen (t ∷ ts) =
    (t.kind ≡ codes "function")
    × WellNamed t.function.name
    × Fresh t.function.name seen
    × Distinct (t.function.name ∷ seen) ts

-- A check that finds no error passed its first test, and the rest finds none.
passed :
    (c : Bool) (msg : Text) (next : Option Text)
    → (if c then some msg else next) ≡ none
    → (c ≡ false) × (next ≡ none)
passed true msg next h = cc
passed false msg next h = (refl, h)

both : (first next : Option Text) → or_next first next ≡ none → (first ≡ none) × (next ≡ none)
both none next h = (refl, h)
both (some msg) next h = cc

is_word-not_empty :
    (s : Text) → not (is_empty s) && (leb (length s) 64 && all_chars is_word s) ≡ true → WellNamed s
is_word-not_empty [] h = cc
is_word-not_empty (c ∷ s) h = ground (arith, h)

not-false : (b : Bool) → not b ≡ false → b ≡ true
not-false true h = refl
not-false false h = cc

validate_function-WellNamed : (f : FunctionSpec) → validate_function f ≡ none → WellNamed f.name
unfolding validate_function function_name_re
validate_function-WellNamed f h =
    let (a, rest) = passed (is_empty f.name) _ _ h in
    let (b, rest) = passed (not (function_name_re f.name)) _ _ rest in
    is_word-not_empty f.name (not-false (function_name_re f.name) b)

Fresh-is_seen : (name : Text) (seen : List Text) → is_seen name seen ≡ false → Fresh name seen
Fresh-is_seen name [] h = tt
Fresh-is_seen name (n ∷ seen) h =
    (λ e. ground (arith, h, text_beq_iff n name, e), Fresh-is_seen name seen (ground (arith, h)))

validate_tool_lem :
    (t : ToolDefinition)
    → validate_tool t ≡ none
    → (t.kind ≡ codes "function") × WellNamed t.function.name
unfolding validate_tool
validate_tool_lem t h =
    let (a, rest) = passed (not (t.kind == codes "function")) _ _ h in
    let (b, _) =
      both (validate_function t.function) (parameters_error t.function.parameters) rest in
    (
      (text_beq_iff t.kind (codes "function")).0 (not-false (t.kind == codes "function") a),
      validate_function-WellNamed t.function b,
    )

tool_error-both :
    (i : ℕ) (first next : Option Text)
    → tool_error i first next ≡ none
    → (first ≡ none) × (next ≡ none)
tool_error-both i none next h = (refl, h)
tool_error-both i (some msg) next h = cc

validate_tools-Distinct :
    (i : ℕ) (seen : List Text) (ts : List ToolDefinition)
    → validate_tools i seen ts ≡ none
    → Distinct seen ts
unfolding validate_tools
validate_tools-Distinct i seen [] h = tt
validate_tools-Distinct i seen (t ∷ ts) h =
    let (a, rest) = tool_error-both i (validate_tool t) _ h in
    let (b, rest) = passed (is_seen t.function.name seen) _ _ rest in
    let (kind, name) = validate_tool_lem t a in
    (
      kind,
      name,
      Fresh-is_seen t.function.name seen b,
      validate_tools-Distinct (suc i) (t.function.name ∷ seen) ts rest,
    )

bundle_of : Bundle → Loaded → Bundle
bundle_of d (loaded b) = b
bundle_of d (failed msg) = d

valid_or_failed_lem :
    (b c : Bundle) (o : Option Text) → valid_or_failed b o ≡ loaded c → (o ≡ none) × (b ≡ c)
unfolding bundle_of
valid_or_failed_lem b c none h = (refl, ap (λ l. bundle_of b l) h)
valid_or_failed_lem b c (some msg) h = cc

not_none : (msg : Text) → some msg ≢ none
not_none msg h = cc

tools_error_lem :
    (ts : List ToolDefinition) → tools_error ts ≡ none → (1 ≤ length ts) × Distinct [] ts
unfolding tools_error
tools_error_lem [] h = absurd (not_none _ h)
tools_error_lem (t ∷ ts) h = (omega arith, validate_tools-Distinct 0 [] (t ∷ ts) h)

validate_lem :
    (parse_time : Text → Option Text) (b : Bundle)
    → validate parse_time b ≡ none
    → (schema_version_re b.schema_version ≡ true)
      × (bundle_version_re b.bundle_version ≡ true)
      × (1 ≤ length b.tools)
      × Distinct [] b.tools
unfolding validate
validate_lem parse_time b h =
    let (_, rest) = passed (is_empty b.schema_version) _ _ h in
    let (s, rest) = passed (not (schema_version_re b.schema_version)) _ _ rest in
    let (_, rest) = passed (is_empty b.bundle_version) _ _ rest in
    let (v, rest) = passed (not (bundle_version_re b.bundle_version)) _ _ rest in
    let (_, rest) = passed (is_empty b.generated_at) _ _ rest in
    let (_, rest) = both (time_error (parse_time b.generated_at)) _ rest in
    let (some_tool, distinct) = tools_error_lem b.tools rest in
    (
      not-false (schema_version_re b.schema_version) s,
      not-false (bundle_version_re b.bundle_version) v,
      some_tool,
      distinct,
    )

-- A bundle that LoadBundle returns has a schema version and a bundle version of the form of a date,
-- and at least one tool; each tool is a function whose name has 1 to 64 word characters, and no two
-- tools have the same name.
pub load_bundle-Distinct :
    (parse_time : Text → Option Text) (read : Text → Loaded) (path : Text) (b : Bundle)
    → load_bundle parse_time read path ≡ loaded b
    → (schema_version_re b.schema_version ≡ true)
      × (bundle_version_re b.bundle_version ≡ true)
      × (1 ≤ length b.tools)
      × Distinct [] b.tools
unfolding load_bundle
load_bundle-Distinct parse_time read path b h = and_validate_lem (read path) h
  where
    and_validate_lem :
        (l : Loaded)
        → and_validate parse_time l ≡ loaded b
        → (schema_version_re b.schema_version ≡ true)
          × (bundle_version_re b.bundle_version ≡ true)
          × (1 ≤ length b.tools)
          × Distinct [] b.tools
    and_validate_lem (failed msg) h = cc
    and_validate_lem (loaded c) h =
        let (none_found, same) = valid_or_failed_lem c b (validate parse_time c) h in
        validate_lem parse_time b (ap (validate parse_time) (sym same) ∙ none_found)
