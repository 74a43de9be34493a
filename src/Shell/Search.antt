-- ===== src/Shell/Search.antt =====
-- searchLogRange and SearchShell of internal/remote/shell.go, over the bytes of a log file that does not
-- change meanwhile and is read without an error, for a call that is not cancelled.
pub mod Soundness
use xrunner.Base.{
  Bool, List, Option, [], drop, eqb, false, if◌then◌else◌, leb, length, ltb, none, some, suc, take,
  true, zero, ℕ, ◌&&◌, ◌*◌, ◌++◌, ◌+◌, ◌-◌, ◌||◌, ◌∷◌,
}
use xrunner.Shell.Bytes.{index}
use Prim.Native.Nat.{max, min}

abbrev pub chunk : ℕ
chunk = 256 * 1024

abbrev pub Hit : Type 0
Hit = ℕ × List ℕ

-- Where the part of a window begins that is carried over.
abbrev pub kept_from : ℕ → ℕ → ℕ
kept_from overlap len = if ltb 0 overlap && ltb overlap len then len - overlap else 0

module _ (file : List ℕ) (query : List ℕ) (start : ℕ) (end : ℕ) (context_bytes : ℕ) where
  abbrev pub snippet : List ℕ → ℕ → List ℕ
  snippet window place =
      let s0 = place - context_bytes in
      let s1 = min (length window) (place + length query + context_bytes) in
      take (s1 - s0) (drop s0 window)

  -- One occurrence at `place`: `outside` says that its offset is not in the range. `again` goes on
  -- from an index, with room for so many more.
  abbrev pub at_place : Bool → (ℕ → ℕ → List Hit) → ℕ → ℕ → ℕ → List ℕ → List Hit
  at_place true again place off room window = again (place + 1) room
  at_place false again place off room window =
      (off, snippet window place)
      ∷ (if leb room 1 then [] else again (place + max 1 (length query)) (room - 1))

  abbrev pub at_index : Option ℕ → (ℕ → ℕ → List Hit) → ℕ → ℕ → List ℕ → ℕ → List Hit
  at_index none again idx room window base = []
  at_index (some j) again idx room window base =
      let place = idx + j in
      let off = base + place in at_place (ltb off start || leb end off) again place off room window

  -- The loop over a window, which stands at `base` in the file. The index grows in each turn.
  unfoldable pub scan : ℕ → List ℕ → ℕ → ℕ → ℕ → List Hit
  unfolding index
  scan zero window base idx room = []
  scan (suc fuel) window base idx room =
      at_index (index (drop idx window) query) (scan fuel window base) idx room window base

  abbrev pub overlap : ℕ
  overlap = length query + context_bytes - 1

  -- After a window: `done` says that there is no room, or no more to read.
  abbrev pub and_more : Bool → List Hit → (ℕ → List ℕ → ℕ → List Hit) → ℕ → List ℕ → ℕ → List Hit
  and_more true hits again base carry room = hits
  and_more false hits again base carry room = hits ++ again base carry (room - length hits)

  -- A turn of the loop over the chunks, where `base < end` holds.
  abbrev pub turn : Bool → (ℕ → List ℕ → ℕ → List Hit) → ℕ → List ℕ → ℕ → List Hit
  turn false again base carry room = []
  turn true again base carry room =
      let to_read = min chunk (end - base) in
      let read = take to_read (drop base file) in
      let window = carry ++ read in
      let hits = scan (suc (length window)) window (base - length carry) 0 room in
      and_more (leb room (length hits) || (eqb (length read) 0 || ltb (length read) to_read)) hits
        again (base + length read) (drop (kept_from overlap (length window)) window) room

  unfoldable pub search_chunks : ℕ → ℕ → List ℕ → ℕ → List Hit
  unfolding scan
  search_chunks zero base carry room = []
  search_chunks (suc fuel) base carry room =
      turn (ltb base end) (search_chunks fuel) base carry room

  -- Each turn but the last reads a byte, so the length of the file is fuel enough.
  unfoldable pub search_log_range : ℕ → List Hit
  unfolding search_chunks
  search_log_range zero = []
  search_log_range (suc max_matches) = search_chunks (suc (length file)) start [] (suc max_matches)
