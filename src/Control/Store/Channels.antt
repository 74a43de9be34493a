-- ===== src/Control/Store/Channels.antt =====
-- Go channels of log chunks, as the store uses them: buffered, shared by reference, and closed
-- once. Sending on a closed channel and closing one twice are panics, which are `none`.
use xrunner.Base.{
  ℕ, Option, none, some, List, [], ◌∷◌, ◌++◌, length, ltb, eqb, if◌then◌else◌, ◌>>=◌,
}
use xrunner.Base.Dict.{Dict}
use xrunner.Control.Types.{LogChunk}

pub data Chan : Type 0 where
  open_chan closed_chan : List LogChunk → Chan

-- The channels that exist, by reference.
abbrev pub Heap : Type 0
Heap = ℕ → Chan

abbrev pub update : Heap → ℕ → Chan → Heap
update h c x d = if eqb c d then x else h d

-- make(chan *LogChunk, 128)
abbrev pub chan_cap : ℕ
chan_cap = 128

abbrev pub enqueue : ℕ → LogChunk → Heap → Chan → Option Heap
enqueue c x h (open_chan q) =
    some (if ltb (length q) chan_cap then update h c (open_chan (q ++ x ∷ [])) else h)
enqueue c x h (closed_chan q) = none

-- select { case ch <- x: default: }
unfoldable pub offer : ℕ → LogChunk → Heap → Option Heap
offer c x h = enqueue c x h (h c)

abbrev pub shut : ℕ → Heap → Chan → Option Heap
shut c h (open_chan q) = some (update h c (closed_chan q))
shut c h (closed_chan q) = none

-- close(ch)
unfoldable pub close : ℕ → Heap → Option Heap
close c h = shut c h (h c)

unfoldable pub offer_all : ℕ → List LogChunk → Heap → Option Heap
offer_all c [] h = some h
offer_all c (x ∷ xs) h = offer c x h >>= λ h'. offer_all c xs h'

-- The two loops `for _, ch := range subs` of the store.
unfoldable pub broadcast : Dict ℕ ℕ → List LogChunk → Heap → Option Heap
broadcast [] xs h = some h
broadcast ((id, c) ∷ subs) xs h = offer_all c xs h >>= λ h'. broadcast subs xs h'

unfoldable pub close_all : Dict ℕ ℕ → Heap → Option Heap
close_all [] h = some h
close_all ((id, c) ∷ subs) h = close c h >>= λ h'. close_all subs h'
