-- ===== src/Control/Mirror/Drain.antt =====
-- The loop of `drain` against a plain replay of the events, whatever the batches are.
use xrunner.Base.{List, Option, [], map, none, refl, some, true, ◌++◌, ◌>>=◌, ◌∷◌, ◌≡◌}
use xrunner.Control.Store.Defs.{Store}
use xrunner.Control.Mirror.{
  Delivers, Delivery, Fetched, Outcome, came_empty, caught_up, drain, fetched, handle_batch, report,
  retried, ◌>>ok◌,
}

module _ {E : Type 0} (apply : E → Store → Option Store) where
  -- The events applied one after the other.
  unfoldable pub replay : List E → Store → Option Store
  replay [] s = some s
  replay (e ∷ es) s = apply e s >>= λ t. replay es t

  replay_bind :
      (xs ys : List E) (o : Option Store)
      → ((t : Store) → replay (xs ++ ys) t ≡ (replay xs t >>= λ u. replay ys u))
      → (o >>= λ t. replay (xs ++ ys) t) ≡ ((o >>= λ t. replay xs t) >>= λ u. replay ys u)
  replay_bind xs ys none h = refl
  replay_bind xs ys (some t) h = h t

  pub replay-append :
      (xs ys : List E) (s : Store) → replay (xs ++ ys) s ≡ (replay xs s >>= λ t. replay ys t)
  unfolding replay
  replay-append [] ys s = refl
  replay-append (x ∷ xs) ys s = replay_bind xs ys (apply x s) (replay-append xs ys)

abbrev pub acked_message : {E : Type 0} → E → Delivery E
acked_message e = record { event = some e; acked = true }

-- The handler applies the event of a message that decodes, and reports whether it was acked.
abbrev pub Applies :
    {E : Type 0} → (Delivery E → Store → Outcome) → (E → Store → Option Store) → Type 0
Applies {E} handler apply =
    (e : E) (s : Store) → handler (acked_message e) s ≡ report true (apply e s)

module _ {E : Type 0} (handler : Delivery E → Store → Outcome) (apply : E → Store → Option Store)
    (applies : Applies handler apply) where
  batch_bind :
      (es : List E) (o : Option Store)
      → ((t : Store)
          → handle_batch handler (map acked_message es) t ≡ report true (replay apply es t))
      → (report true o >>ok λ t. handle_batch handler (map acked_message es) t)
        ≡ report true (o >>= λ t. replay apply es t)
  batch_bind es none h = refl
  batch_bind es (some t) h = h t

  handle_batch-eq-replay :
      (es : List E) (s : Store)
      → handle_batch handler (map acked_message es) s ≡ report true (replay apply es s)
  unfolding handle_batch replay
  handle_batch-eq-replay [] s = refl
  handle_batch-eq-replay (e ∷ es) s =
      rw (applies e s) (batch_bind es (apply e s) (handle_batch-eq-replay es))

  drain_bind :
      (es : List E) (fs : List (Fetched E)) (o : Option Store)
      → ((t : Store) → drain handler fs t ≡ report true (replay apply es t))
      → (report true o >>ok λ t. drain handler fs t) ≡ report true (o >>= λ t. replay apply es t)
  drain_bind es fs none h = refl
  drain_bind es fs (some t) h = h t

  -- However the messages are batched, and however often a fetch is retried, a drain that JetStream
  -- feeds applies every event once, in order, and reports success.
  pub drain-eq-replay :
      {fs : List (Fetched E)} {evs : List E}
      → Delivers fs evs
      → (s : Store) → drain handler fs s ≡ report true (replay apply evs s)
  unfolding drain replay
  drain-eq-replay caught_up s = refl
  drain-eq-replay came_empty s = refl
  drain-eq-replay (retried d) s = drain-eq-replay d s
  drain-eq-replay (fetched {fs = fs} {evs = evs} e es d) s =
      rw (handle_batch-eq-replay (e ∷ es) s, replay-append apply (e ∷ es) evs s)
        (drain_bind evs fs (replay apply (e ∷ es) s) (drain-eq-replay d))
