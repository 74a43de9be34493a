-- ===== src/Control/Mirror/Publishing.antt =====
-- What JetStream stores of the events that the store hands to publishJob and publishLog: a call of
-- Publish for each, after the mutex is let go. An error of it is logged and not told to the caller.
use xrunner.Base.{Bool, List, [], ap, if◌then◌else◌, map, refl, true, ◌∙◌, ◌∷◌, ◌≡◌}

-- A call of Publish: its event, and whether it succeeded. A subject that no stream captures is a call
-- that fails.
abbrev pub Publish : Type 0 → Type 0
Publish E = E × Bool

-- The events that are stored, from the calls in the order in which they were made, which for calls of
-- different goroutines need not be the order of the changes.
unfoldable pub published : {E : Type 0} → List (Publish E) → List E
published [] = []
published ((e, done) ∷ calls) = let rest = published calls in if done then e ∷ rest else rest

-- Every event was published with success, in order.
abbrev pub AllPublished : {E : Type 0} → List E → List (Publish E) → Type 0
AllPublished es calls = calls ≡ map (λ e. (e, true)) es

published-map : {E : Type 0} (es : List E) → published (map (λ e. (e, true)) es) ≡ es
unfolding published
published-map [] = refl
published-map (e ∷ es) = ap (λ l. e ∷ l) (published-map es)

pub published_all :
    {E : Type 0} (es : List E) (calls : List (Publish E))
    → AllPublished es calls
    → published calls ≡ es
published_all es calls h = ap published h ∙ published-map es
