-- ===== src/Agent/Tools/Allowed.antt =====
-- When a session may run a tool, and that execToolSync's check of the bundle decides it.
use xrunner.Base.{
  Bool-cases, List, Option, Text, [], inl, inr, is_empty, nat_eq, none, refl, some, text_beq_iff,
  text_eq, trim_space, true, ◌==◌, ◌∷◌, ◌≡◌, ◌≢◌,
}
use xrunner.Base.Dict.{lookup}
use xrunner.Agent.Bundle.{
  Bundle, Loaded, ToolDefinition, allows, bundle_allows, failed, load_bundle, loaded,
}
use xrunner.Agent.Os.{Os, Service}
use xrunner.Agent.Tools.{bundle_for_session, find_bundle, objection, of_loaded, with_bundle}
use xrunner.Session.Defs.{SessionMeta}

pub is_empty_nil : (s : Text) → is_empty s ≡ true → s ≡ []
is_empty_nil [] h = refl
is_empty_nil (c ∷ s) h = cc

pub some_unlike_none : (m : Text) → some m ≢ none
some_unlike_none m h = cc

-- A tool of the list has the name.
pub data Names (name : Text) : List ToolDefinition → Type 0 where
  here :
      (t : ToolDefinition) (ts : List ToolDefinition) → t.function.name ≡ name → Names name (t ∷ ts)
  there : (t : ToolDefinition) (ts : List ToolDefinition) → Names name ts → Names name (t ∷ ts)

allows-Names : (ts : List ToolDefinition) (name : Text) → allows ts name ≡ true → Names name ts
unfolding allows
allows-Names [] name h = cc
allows-Names (t ∷ ts) name h = elim (Bool-cases (t.function.name == name)) [
  | inl q ↦ here t ts ((text_beq_iff t.function.name name).0 q)
  | inr q ↦ there t ts (allows-Names ts name (rw q at h))
]

Names-allows : (name : Text) (ts : List ToolDefinition) → Names name ts → allows ts name ≡ true
unfolding allows
Names-allows name _ (here t ts e) = rw ((text_beq_iff t.function.name name).1 e) refl
Names-allows name _ (there t ts n) = elim (Bool-cases (t.function.name == name)) [
  | inl q ↦ rw q refl
  | inr q ↦ rw q (Names-allows name ts n)
]

module _ {F : Type 0} (os : Os F) where
  -- A session may run a tool if the bundle that is kept for it, or the one that is read from the path
  -- of its metadata, names the tool; or if it has neither, because it has no metadata or no path.
  pub data MayRun (id tool : Text) (s : Service F) : Type 0 where
    kept : (b : Bundle) → (lookup id s.bundles ≡ some b) → Names tool b.tools → MayRun id tool s
    no_metadata : (lookup id s.bundles ≡ none) → (lookup id s.sessions ≡ none) → MayRun id tool s
    no_path :
        (m : SessionMeta)
        → (lookup id s.bundles ≡ none)
        → (lookup id s.sessions ≡ some m)
        → (trim_space m.tool_bundle_path ≡ [])
        → MayRun id tool s
    read_from :
        (m : SessionMeta) (b : Bundle)
        → (lookup id s.bundles ≡ none)
        → (lookup id s.sessions ≡ some m)
        → (load_bundle os.parse_time (os.read_bundle s.world) (trim_space m.tool_bundle_path)
            ≡ loaded b)
        → Names tool b.tools
        → MayRun id tool s

  objection-Names :
      (tool : Text) (b : Bundle) → objection os tool (with_bundle b) ≡ none → Names tool b.tools
  unfolding objection bundle_allows
  objection-Names tool b h = elim (Bool-cases (allows b.tools tool)) [
    | inl permits ↦ allows-Names b.tools tool permits
    | inr forbids ↦ absurd (some_unlike_none _ (rw forbids at h))
  ]

  pub objection-MayRun :
      (id tool : Text) (c : Option Bundle) (o : Option SessionMeta) (s : Service F)
      → lookup id s.bundles ≡ c
      → lookup id s.sessions ≡ o
      → objection os tool (find_bundle os id c o s).0 ≡ none
      → MayRun id tool s
  unfolding find_bundle of_loaded objection
  objection-MayRun id tool (some b) o s e f h = kept b e (objection-Names tool b h)
  objection-MayRun id tool none none s e f h = no_metadata e f
  objection-MayRun id tool none (some m) s e f h =
      let path = trim_space m.tool_bundle_path in
      let l = load_bundle os.parse_time (os.read_bundle s.world) path in
      elim (Bool-cases (is_empty path)) [
        | inl q ↦ no_path m e f (is_empty_nil path q)
        | inr q ↦ read_lem l refl (rw q at h)
      ]
    where
      read_lem :
          (l : Loaded)
          → load_bundle os.parse_time (os.read_bundle s.world) (trim_space m.tool_bundle_path) ≡ l
          → objection os tool (of_loaded os id (trim_space m.tool_bundle_path) l s).0 ≡ none
          → MayRun id tool s
      read_lem (loaded b) q h = read_from m b e f q (objection-Names tool b h)
      read_lem (failed msg) q h = cc

  permitted_by :
      (tool : Text) (b : Bundle) → Names tool b.tools → objection os tool (with_bundle b) ≡ none
  unfolding objection bundle_allows
  permitted_by tool b n = rw (Names-allows tool b.tools n) refl

  pub MayRun-objection :
      (id tool : Text) (s : Service F)
      → MayRun id tool s
      → objection os tool (bundle_for_session os id s).0 ≡ none
  unfolding bundle_for_session find_bundle of_loaded objection bundle_allows
  MayRun-objection id tool s (kept b e n) = rw e (permitted_by tool b n)
  MayRun-objection id tool s (no_metadata e f) = rw (e, f) refl
  MayRun-objection id tool s (no_path m e f p) = rw (e, f, p) refl
  MayRun-objection id tool s (read_from m b e f l n) =
      let path = trim_space m.tool_bundle_path in
      elim (Bool-cases (is_empty path)) [
        | inl q ↦ rw (e, f, q) refl
        | inr q ↦ rw (e, f, q, l) (permitted_by tool b n)
      ]
