-- ===== src/Agent/Chat/History.antt =====
-- The history that the language model is given.
use xrunner.Base.{
  Bool-cases, List, [], ap, append-nil, append_assoc, arith, drop, drop-drop, eqb, false, inl, inr,
  length, length-append, length-drop, ltb, ltb→lt, refl, suc, sym, true, zero, ℕ, ◌++◌, ◌+◌, ◌-◌,
  ◌<◌, ◌∷◌, ◌≡◌, ◌≤◌,
}
use xrunner.Agent.Chat.{
  build_llm_messages, messages_of, or_default, ring_of, ring_push, system_message,
}
use xrunner.Agent.Config.{Config}
use xrunner.Agent.Events.{EventKind}
use xrunner.Agent.Last.{drop-append-above, last}

ring_push-last :
    (n : ℕ) (xs : List EventKind) (ev : EventKind)
    → 0 < n
    → ring_push n (last n xs) ev ≡ last n (xs ++ ev ∷ [])
ring_push-last n xs ev h =
    let size = length-append xs (ev ∷ []) in
    let cut = length xs - n in
    let left = length-drop cut xs in
    elim (Bool-cases (ltb (length xs) n)) [
      | inl room ↦
          let below = ltb→lt (length xs) n room in
          let z : cut ≡ 0 = omega (arith, below) in
          let y : length (xs ++ ev ∷ []) - n ≡ 0 = omega (arith, size, below) in
          let x : eqb (length xs) n ≡ false = ground (arith, below) in rw (y, z) (rw x refl)
      | inr full ↦
          let above : n ≤ length xs = ground (arith, full) in
          let x : eqb (length (drop cut xs)) n ≡ true = ground (arith, left, above) in
          let y : length (xs ++ ev ∷ []) - n ≡ cut + 1 = omega (arith, size, above) in
          rw (x, y)
            (rw (sym (drop-drop cut 1 xs))
              (sym (drop-append-above (cut + 1) xs (ev ∷ []) (omega (arith, above, h)))))
    ]

ring_of-last :
    (n : ℕ) (xs evs : List EventKind) → 0 < n → ring_of n (last n xs) evs ≡ last n (xs ++ evs)
unfolding ring_of
ring_of-last n xs [] h = rw (append-nil xs) refl
ring_of-last n xs (ev ∷ evs) h =
    rw
      (
        ring_push-last n xs ev h,
        ring_of-last n (xs ++ ev ∷ []) evs h,
        append_assoc xs (ev ∷ []) evs,
      )
      refl

-- The number of events that the configuration keeps.
abbrev pub kept : Config → ℕ
kept cfg = or_default 50 cfg.max_history_events

kept-pos : (n : ℕ) → 0 < or_default 50 n
kept-pos zero = omega arith
kept-pos (suc n) = omega arith

-- The language model is given the system prompt, unless it is blank, and then the user and assistant
-- messages among the last events of the session, in order: as many events as MaxHistoryEvents says,
-- or 50 if that is not positive, whatever their kind.
pub build_llm_messages_last :
    (cfg : Config) (evs : List EventKind)
    → build_llm_messages cfg evs
      ≡ system_message cfg.system_prompt ++ messages_of (last (kept cfg) evs)
unfolding build_llm_messages
build_llm_messages_last cfg evs =
    let z : 0 - kept cfg ≡ 0 = omega arith in
    let ring = ring_of-last (kept cfg) [] evs (kept-pos cfg.max_history_events) in
    ap (λ l. system_message cfg.system_prompt ++ messages_of l) (rw z at ring)
