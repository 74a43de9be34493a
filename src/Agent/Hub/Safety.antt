-- ===== src/Agent/Hub/Safety.antt =====
-- What a subscriber's channel holds, and when a broadcast can panic.
use xrunner.Base.{
  ==-self, Bool-cases, List, Option, Returns, [], ap, append-nil, append_assoc, arith, drop, eqb,
  eqb_iff, false, inl, inr, length, length-append, length-drop, ltb, ltb→lt, nat_eq, none, refl,
  some, sym, text_eq, true, ℕ, ◌++◌, ◌-◌, ◌>>=◌, ◌∙◌, ◌∷◌, ◌≡◌, ◌≤◌, ◌⊎◌,
}
use xrunner.Base.Dict.{Dict, delete, lookup}
use xrunner.Agent.Hub.{
  Chan, Hub, chan_cap, channels, closed_chan, drop_empty, open_chan, push, rest_of, send_all,
  send_drop_oldest, subs_of, targets, unsubscribe, update,
}
use xrunner.Agent.Last.{drop-append-above, last, last-append_last, length-last}
use xrunner.Session.Defs.{AgentEvent}

rest_of-drop : (q : List AgentEvent) → rest_of q ≡ drop 1 q
rest_of-drop [] = refl
rest_of-drop (x ∷ q) = refl

-- A send keeps the last events that there is room for, the new one among them.
push-last :
    (evt : AgentEvent) (q : List AgentEvent)
    → length q ≤ chan_cap
    → push evt q ≡ last chan_cap (q ++ evt ∷ [])
push-last evt q h =
    let size = length-append q (evt ∷ []) in
    elim (Bool-cases (ltb (length q) chan_cap)) [
      | inl room ↦
          let z : length (q ++ evt ∷ []) - chan_cap ≡ 0 =
            omega (arith, size, ltb→lt (length q) chan_cap room) in
          rw room (rw z refl)
      | inr full ↦
          let exact : length q ≡ chan_cap = ground (arith, full) in
          let left = length-drop 1 q in
          let room : ltb (length (drop 1 q)) chan_cap ≡ true = ground (arith, left, exact) in
          let z : length (q ++ evt ∷ []) - chan_cap ≡ 1 = omega (arith, size, exact) in
          rw full (
            rw (rest_of-drop q, room, z)
              (sym (drop-append-above 1 q (evt ∷ []) (omega (arith, exact)))))
    ]

-- The events sent to one channel, one after the other.
unfoldable pub send_events : ℕ → List AgentEvent → Hub → Option Hub
unfolding send_drop_oldest
send_events c [] s = some s
send_events c (evt ∷ evts) s = send_drop_oldest c evt s >>= λ t. send_events c evts t

-- A subscriber that reads nothing finds the last 8192 of the events that its channel held and that
-- were sent to it, in order: the oldest ones are dropped, and a send never blocks or fails.
pub send_events_last :
    (c : ℕ) (evts q : List AgentEvent) (s : Hub)
    → s.chans c ≡ open_chan q
    → length q ≤ chan_cap
    → Returns (λ t. t.chans c ≡ open_chan (last chan_cap (q ++ evts))) (send_events c evts s)
unfolding send_events send_drop_oldest
send_events_last c [] q s e h =
    let z : length q - chan_cap ≡ 0 = omega (arith, h) in (s, refl, rw (append-nil q, z) e)
send_events_last c (evt ∷ evts) q s e h =
    let q' = push evt q in
    let p : q' ≡ last chan_cap (q ++ evt ∷ []) = push-last evt q h in
    let t = record s { chans = update s.chans c (open_chan q') } in
    let at_c : t.chans c ≡ open_chan q' = rw (==-self c) refl in
    let small : length q' ≤ chan_cap = rw p (length-last chan_cap (q ++ evt ∷ [])) in
    let (u, ran, k) = send_events_last c evts q' t at_c small in
    (
      u,
      rw e ran,
      k
          ∙ ap open_chan (
              ap (λ l. last chan_cap (l ++ evts)) p
              ∙ last-append_last chan_cap (q ++ evt ∷ []) evts
              ∙ ap (last chan_cap) (append_assoc q (evt ∷ []) evts)),
    )

-- A channel is among some.
abbrev pub Among : ℕ → List ℕ → Type 0
Among c [] = ⊥
Among c (d ∷ cs) = (c ≡ d) ⊎ Among c cs

lookup-Among : (id c : ℕ) (subs : Dict ℕ ℕ) → lookup id subs ≡ some c → Among c (channels subs)
unfolding lookup
lookup-Among id c [] e = cc
lookup-Among id c ((i, d) ∷ subs) e = elim (Bool-cases (eqb i id)) [
  | inl q ↦ inl (ground (arith, q, e))
  | inr q ↦ inr (lookup-Among id c subs (rw q at e))
]

Chan-cases :
    (ch : Chan)
    → ((q : List AgentEvent) × (ch ≡ open_chan q)) ⊎ ((q : List AgentEvent) × (ch ≡ closed_chan q))
Chan-cases (open_chan q) = inl (q, refl)
Chan-cases (closed_chan q) = inr (q, refl)

later : (c d : ℕ) (cs : List ℕ) → eqb d c ≡ false → Among c (d ∷ cs) → Among c cs
later c d cs other (inl e) = absurd (ground (arith, e))
later c d cs other (inr m) = m

send_all-closed :
    (c : ℕ) (cs : List ℕ) (evt : AgentEvent) (q : List AgentEvent) (s : Hub)
    → s.chans c ≡ closed_chan q
    → Among c cs
    → send_all cs evt s ≡ none
unfolding send_all send_drop_oldest
send_all-closed c [] evt q s e m = absurd m
send_all-closed c (d ∷ cs) evt q s e m = elim (Bool-cases (eqb d c)) [
  | inl same ↦
      let shut : s.chans d ≡ closed_chan q = ap s.chans ((eqb_iff d c).0 same) ∙ e in rw shut refl
  | inr other ↦ elim (Chan-cases (s.chans d)) [
    | inr (p, shut) ↦ rw shut refl
    | inl (p, live) ↦
        let t = record s { chans = update s.chans d (open_chan (push evt p)) } in
        let still : t.chans c ≡ closed_chan q = rw other e in
        rw live (send_all-closed c cs evt q t still (later c d cs other m))
  ]
]

-- Between the two parts of a broadcast another goroutine may unsubscribe: the unsubscription of a
-- subscriber of the event's session succeeds and closes its channel, and the broadcast that has
-- already collected its targets then panics by a send on a closed channel.
pub broadcast_race :
    (evt : AgentEvent) (id c : ℕ) (q : List AgentEvent) (subs : Dict ℕ ℕ) (s : Hub)
    → lookup evt.session_id s.subscribers ≡ some subs
    → lookup id subs ≡ some c
    → s.chans c ≡ open_chan q
    → (t : Hub) × (unsubscribe evt.session_id id s ≡ some t)
      × (send_all (targets evt s) evt t ≡ none)
unfolding unsubscribe targets
broadcast_race evt id c q subs s found member live =
    let t = record s {
      chans = update s.chans c (closed_chan q);
      subscribers = drop_empty evt.session_id (delete id subs) s.subscribers;
    } in
    let shut : t.chans c ≡ closed_chan q = rw (==-self c) refl in
    let among : Among c (channels (subs_of evt.session_id s)) =
      rw found (lookup-Among id c subs member) in
    (t, rw found (rw (member, live) refl), send_all-closed c (targets evt s) evt q t shut among)
