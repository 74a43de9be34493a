-- ===== src/Control/Store/Sending.antt =====
-- What the loops over channels do to channels that are open.
use xrunner.Base.{
  List, Returns, Returns-bind, [], arith, eqb, false, if◌then◌else◌, length, ltb, refl, some, true,
  ℕ, ◌++◌, ◌<◌, ◌∙◌, ◌∷◌, ◌≡◌, ◌≢◌, ◌≤◌,
}
use xrunner.Base.Dict.{Dict}
use xrunner.Control.Types.{LogChunk}
use xrunner.Control.Store.Channels.{
  Chan, Heap, broadcast, chan_cap, close, close_all, closed_chan, enqueue, offer, offer_all,
  open_chan, shut, update,
}
use xrunner.Control.Store.Refs.{count_refs}

abbrev pub IsOpen : Chan → Type 0
IsOpen (open_chan q) = Unit
IsOpen (closed_chan q) = ⊥

abbrev pub KeepsOpen : Heap → Heap → Type 0
KeepsOpen h h' = (d : ℕ) → IsOpen (h d) → IsOpen (h' d)

pub update-IsOpen :
    (h : Heap) (c d : ℕ) (q : List LogChunk) → IsOpen (h d) → IsOpen (update h c (open_chan q) d)
update-IsOpen h c d q p = elim (eqb c d) as (λ b. IsOpen (if b then open_chan q else h d)) [
  | true ↦ tt
  | false ↦ p
]

enqueue-KeepsOpen :
    (c : ℕ) (x : LogChunk) (h : Heap) (k : Chan)
    → IsOpen k
    → Returns (KeepsOpen h) (enqueue c x h k)
enqueue-KeepsOpen c x h (closed_chan q) o = absurd o
enqueue-KeepsOpen c x h (open_chan q) o =
    elim (ltb (length q) chan_cap)
      as (λ b.
        Returns (KeepsOpen h) (some (if b then update h c (open_chan (q ++ x ∷ [])) else h))) [
          | true ↦
              (update h c (open_chan (q ++ x ∷ [])), refl, λ d. update-IsOpen h c d (q ++ x ∷ []))
          | false ↦ (h, refl, λ d p. p)
        ]

offer-KeepsOpen :
    (c : ℕ) (x : LogChunk) (h : Heap) → IsOpen (h c) → Returns (KeepsOpen h) (offer c x h)
unfolding offer
offer-KeepsOpen c x h o = enqueue-KeepsOpen c x h (h c) o

offer_all-KeepsOpen :
    (c : ℕ) (xs : List LogChunk) (h : Heap)
    → IsOpen (h c)
    → Returns (KeepsOpen h) (offer_all c xs h)
unfolding offer_all
offer_all-KeepsOpen c [] h o = (h, refl, λ d k. k)
offer_all-KeepsOpen c (x ∷ xs) h o =
    Returns-bind (KeepsOpen h) (KeepsOpen h) (offer c x h) (offer_all c xs)
      (offer-KeepsOpen c x h o)
      λ h' k.
        let (h'', e, k') = offer_all-KeepsOpen c xs h' (k c o) in (h'', e, λ d p. k' d (k d p))

abbrev pub AllOpen : Dict ℕ ℕ → Heap → Type 0
AllOpen subs h = (d : ℕ) → 0 < count_refs d subs → IsOpen (h d)

pub broadcast-KeepsOpen :
    (subs : Dict ℕ ℕ) (xs : List LogChunk) (h : Heap)
    → AllOpen subs h
    → Returns (KeepsOpen h) (broadcast subs xs h)
unfolding broadcast count_refs
broadcast-KeepsOpen [] xs h o = (h, refl, λ d k. k)
broadcast-KeepsOpen ((id, c) ∷ subs) xs h o =
    Returns-bind (KeepsOpen h) (KeepsOpen h) (offer_all c xs h) (broadcast subs xs)
      (offer_all-KeepsOpen c xs h (o c (ground arith)))
      λ h' k.
        let (h'', e, k') = broadcast-KeepsOpen subs xs h' (λ d p. k d (o d (omega arith))) in
        (h'', e, λ d p. k' d (k d p))

abbrev pub KeepsOthers : Dict ℕ ℕ → Heap → Heap → Type 0
KeepsOthers subs h h' = (d : ℕ) → count_refs d subs ≡ 0 → h' d ≡ h d

shut_lem :
    (c : ℕ) (h : Heap) (k : Chan)
    → IsOpen k
    → Returns (λ h'. (d : ℕ) → c ≢ d → h' d ≡ h d) (shut c h k)
shut_lem c h (closed_chan q) o = absurd o
shut_lem c h (open_chan q) o = (update h c (closed_chan q), refl, λ d n. ground arith)

pub close_lem :
    (c : ℕ) (h : Heap) → IsOpen (h c) → Returns (λ h'. (d : ℕ) → c ≢ d → h' d ≡ h d) (close c h)
unfolding close
close_lem c h o = shut_lem c h (h c) o

pub close_all-KeepsOthers :
    (subs : Dict ℕ ℕ) (h : Heap)
    → AllOpen subs h
    → ((d : ℕ) → count_refs d subs ≤ 1)
    → Returns (KeepsOthers subs h) (close_all subs h)
unfolding close_all count_refs
close_all-KeepsOthers [] h o u = (h, refl, λ d k. refl)
close_all-KeepsOthers ((id, c) ∷ subs) h o u =
    Returns-bind (λ h'. (d : ℕ) → c ≢ d → h' d ≡ h d) (KeepsOthers ((id, c) ∷ subs) h) (close c h)
      (close_all subs) (close_lem c h (o c (ground arith)))
      λ h' k.
        let (h'', e, k') =
          close_all-KeepsOthers subs h' (λ d p. rw (k d (ground (arith, u c))) (o d (omega arith)))
            (λ d. omega (arith, u d)) in
        (h'', e, λ d z. k' d (omega arith) ∙ k d (ground arith))
