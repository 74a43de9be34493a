-- ===== src/Agent/Chat/Rounds.antt =====
-- The messages that the loop of Interact adds to a conversation.
use xrunner.Base.{
  All, Bool-cases, List, Option, Text, ap, append-nil, append_assoc, arith, codes, decimal, false,
  if◌then◌else◌, inl, inr, is_empty, is_space, length, refl, reverse, suc, sym, trim_left,
  trim_space, zero, ℕ, ◌++◌, ◌∙◌, ◌∷◌, ◌≡◌, ◌≤◌,
}
use xrunner.Agent.Bundle.{ToolDefinition}
use xrunner.Agent.Chat.{
  Generated, Message, ToolCall, Turn, answered, asking, delta_events, generate_failed, on_generated,
  run_calls, tool_loop, with_ids,
}
use xrunner.Agent.Config.{Config}
use xrunner.Agent.Os.{Os, Service, append_events}
use xrunner.Shell.Search.{turn}
use mathlib.Core.List.{[], reverse-cons}

-- A tool call has an id that is not blank.
abbrev pub HasId : ToolCall → Type 0
HasId tc = is_empty (trim_space tc.id) ≡ false

-- The messages are the tools' replies to the calls, one for each and in order.
abbrev pub Replies : List ToolCall → List Message → Type 0
Replies [] [] = Unit
Replies [] (m ∷ msgs) = ⊥
Replies (tc ∷ calls) [] = ⊥
Replies (tc ∷ calls) (m ∷ msgs) =
    (m.role ≡ codes "tool") × (m.tool_call_id ≡ tc.id) × Replies calls msgs

-- At most `n` rounds: the assistant's message with its tool calls, and the replies to them.
pub data Rounds : ℕ → List Message → Type 0 where
  finished : (n : ℕ) → Rounds n []
  round :
      (n : ℕ) (text : Text) (calls : List ToolCall) (replies rest : List Message)
      → 1 ≤ length calls
      → All HasId calls
      → Replies calls replies
      → Rounds n rest
      → Rounds (suc n) (asking text calls ∷ (replies ++ rest))

snoc_trimmed : (s : Text) (c : ℕ) → is_space c ≡ false → is_empty (trim_left (s ++ c ∷ [])) ≡ false
unfolding trim_left
snoc_trimmed [] c h = rw h refl
snoc_trimmed (d ∷ s) c h = elim (Bool-cases (is_space d)) [
  | inl blank ↦ rw blank (snoc_trimmed s c h)
  | inr shown ↦ rw shown refl
]

is_empty-append : (s : Text) (c : ℕ) → is_empty (s ++ c ∷ []) ≡ false
is_empty-append [] c = refl
is_empty-append (d ∷ s) c = refl

is_empty-reverse : (s : Text) → is_empty s ≡ false → is_empty (reverse s) ≡ false
is_empty-reverse [] h = h
is_empty-reverse (c ∷ s) h = rw (reverse-cons c s) (is_empty-append (reverse s) c)

trim_space-not_blank :
    (c : ℕ) (s : Text) → is_space c ≡ false → is_empty (trim_space (c ∷ s)) ≡ false
unfolding trim_space trim_left
trim_space-not_blank c s h =
    let body : Text = trim_left (reverse (c ∷ s)) in
    let some_left : is_empty body ≡ false = rw (reverse-cons c s) (snoc_trimmed (reverse s) c h) in
    rw h (is_empty-reverse body some_left)

with_ids-HasId : (i : ℕ) (calls : List ToolCall) → All HasId (with_ids i calls)
unfolding with_ids
with_ids-HasId i [] = tt
with_ids-HasId i (tc ∷ calls) = (given_id, with_ids-HasId (suc i) calls)
  where
    given_id :
        HasId (
          if is_empty (trim_space tc.id) then record tc { id = codes "call_" ++ decimal i } else tc)
    given_id = elim (Bool-cases (is_empty (trim_space tc.id))) [
      | inl blank ↦ rw blank (trim_space-not_blank 99 (codes "all_" ++ decimal i) refl)
      | inr given ↦ rw given given
    ]

length-with_ids : (i : ℕ) (calls : List ToolCall) → length (with_ids i calls) ≡ length calls
unfolding with_ids
length-with_ids i [] = refl
length-with_ids i (tc ∷ calls) = ap suc (length-with_ids (suc i) calls)

module _ {F : Type 0} (os : Os F) (cfg : Config)
    (generate : List Message → Option (List ToolDefinition) → F → Generated × F) where
  run_calls-Replies :
      (id : Text) (calls : List ToolCall) (s : Service F)
      → Replies calls (run_calls os cfg generate id calls s).0
  unfolding run_calls
  run_calls-Replies id [] s = tt
  run_calls-Replies id (tc ∷ calls) s = (refl, refl, run_calls-Replies id calls _)

  -- What a turn has added to a conversation is at most `k` rounds.
  abbrev pub Adds : ℕ → List Message → Turn F → Type 0
  Adds k msgs turn = (rest : List Message) × (turn.msgs ≡ msgs ++ rest) × Rounds k rest

  on_generated-Adds :
      (k : ℕ) (next : List Message → Service F → Turn F)
      → ((msgs : List Message) (s : Service F) → Adds k msgs (next msgs s))
      → (id stream_id : Text) (msgs : List Message) (g : Generated) (s : Service F)
      → Adds (suc k) msgs (on_generated os cfg generate next id stream_id msgs g s)
  unfolding on_generated
  on_generated-Adds k next adds id stream_id msgs (generate_failed deltas msg) s =
      ([], sym (append-nil msgs), finished (suc k))
  on_generated-Adds k next adds id stream_id msgs (answered deltas text []) s =
      ([], sym (append-nil msgs), finished (suc k))
  on_generated-Adds k next adds id stream_id msgs (answered deltas text (tc ∷ calls)) s =
      let named = with_ids 0 (tc ∷ calls) in
      let t = append_events (delta_events id stream_id deltas) s in
      let ran = run_calls os cfg generate id named t in
      let (rest, e, rounds) = adds (msgs ++ asking text named ∷ ran.0) ran.1 in
      let size = length-with_ids 0 (tc ∷ calls) in
      (
        asking text named ∷ (ran.0 ++ rest),
        e ∙ append_assoc msgs (asking text named ∷ ran.0) rest,
        round k text named ran.0 rest (omega (arith, size)) (with_ids-HasId 0 (tc ∷ calls))
            (run_calls-Replies id named t) rounds,
      )

  -- The loop of a turn ends, whatever the model answers, and adds to the conversation at most as many
  -- rounds as it is given: in each, a message of the assistant with at least one tool call, the calls
  -- with ids that are not blank, and then one tool message for each call, in order and with its id.
  pub tool_loop-Rounds :
      (tools : Option (List ToolDefinition)) (id stream_id : Text) (k : ℕ) (msgs : List Message)
      (s : Service F)
      → Adds k msgs (tool_loop os cfg generate tools id stream_id k msgs s)
  unfolding tool_loop
  tool_loop-Rounds tools id stream_id zero msgs s = ([], sym (append-nil msgs), finished 0)
  tool_loop-Rounds tools id stream_id (suc k) msgs s =
      let (g, world) = generate msgs tools s.world in
      on_generated-Adds k (λ msgs s. tool_loop os cfg generate tools id stream_id k msgs s)
        (λ msgs s. tool_loop-Rounds tools id stream_id k msgs s) id stream_id msgs g
        (record s { world = world })
