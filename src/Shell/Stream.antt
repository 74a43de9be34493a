-- ===== src/Shell/Stream.antt =====
-- StreamShell of internal/remote/shell.go, without `follow`.
use xrunner.Base.{
  Bool-cases, List, [], arith, drop, if◌then◌else◌, inl, inr, leb, length, length-drop, length-take,
  ltb, refl, suc, sym, take, take-append-rest, zero, ℕ, ◌*◌, ◌++◌, ◌+◌, ◌<◌, ◌^◌, ◌∷◌, ◌≡◌, ◌≤◌,
  ◌⊎◌,
}

abbrev pub Piece : Type 0
Piece = ℕ × List ℕ

unfoldable pub stream_max_chunk : ℕ → ℕ
stream_max_chunk zero = 64 * 1024
stream_max_chunk (suc n) = if ltb (256 * 1024) (suc n) then 256 * 1024 else suc n

-- The loop, on fuel: each turn reads a byte or ends.
unfoldable pub stream_loop : ℕ → ℕ → ℕ → List ℕ → List Piece
stream_loop zero max_chunk offset file = []
stream_loop (suc fuel) max_chunk offset [] = []
stream_loop (suc fuel) max_chunk offset (c ∷ file) =
    let piece = take max_chunk (c ∷ file) in
    (offset, piece)
    ∷ stream_loop fuel max_chunk (offset + length piece) (drop (length piece) (c ∷ file))

-- The conversion to int64, with what is negative then set to 0.
abbrev pub first_offset : ℕ → ℕ
first_offset asked = if leb (2 ^ 63) asked then 0 else asked

-- What is sent of a log.
unfoldable pub stream_shell : ℕ → ℕ → List ℕ → List Piece
unfolding stream_loop stream_max_chunk
stream_shell asked offset file =
    let rest = drop (first_offset offset) file in
    stream_loop (suc (length rest)) (stream_max_chunk asked) (first_offset offset) rest

-- The length of a piece for the size that the client asked for, with 0 for no size.
abbrev pub Fits : ℕ → ℕ → Type 0
Fits zero n = (1 ≤ n) × (n ≤ 64 * 1024)
Fits (suc asked) n = (1 ≤ n) × (n ≤ suc asked) × (n ≤ 256 * 1024)

-- The pieces lie one behind the other from `at` on, each has a length that fits, and together they
-- are the bytes.
abbrev pub ArePieces : ℕ → ℕ → List Piece → List ℕ → Type 0
ArePieces asked at [] bytes = bytes ≡ []
ArePieces asked at ((offset, piece) ∷ pieces) bytes =
    (offset ≡ at)
    × Fits asked (length piece)
    × ((rest : List ℕ) × (bytes ≡ piece ++ rest) × ArePieces asked (at + length piece) pieces rest)

-- Where a stream starts for the offset that the client asked for, which is negative as an int64 if
-- it is 2^63 or more.
abbrev pub StartsAt : ℕ → ℕ → Type 0
StartsAt offset at = ((offset < 2 ^ 63) × (at ≡ offset)) ⊎ ((2 ^ 63 ≤ offset) × (at ≡ 0))

stream_max_chunk_pos : (asked : ℕ) → 1 ≤ stream_max_chunk asked
unfolding stream_max_chunk
stream_max_chunk_pos zero = omega arith
stream_max_chunk_pos (suc n) = ground arith

stream_max_chunk_bounds : (asked : ℕ) → stream_max_chunk (suc asked) ≤ 256 * 1024
unfolding stream_max_chunk
stream_max_chunk_bounds asked = ground arith

stream_max_chunk_asked : (asked : ℕ) → stream_max_chunk (suc asked) ≤ suc asked
unfolding stream_max_chunk
stream_max_chunk_asked asked = ground arith

stream_max_chunk-Fits : (asked n : ℕ) → 1 ≤ n → n ≤ stream_max_chunk asked → Fits asked n
unfolding stream_max_chunk
stream_max_chunk-Fits zero n p h = (p, h)
stream_max_chunk-Fits (suc asked) n p h = (
  p,
  omega (arith, h, stream_max_chunk_asked asked),
  omega (arith, h, stream_max_chunk_bounds asked),
)

stream_loop-ArePieces :
    (fuel asked at : ℕ) (bytes : List ℕ)
    → length bytes < fuel
    → ArePieces asked at (stream_loop fuel (stream_max_chunk asked) at bytes) bytes
unfolding stream_loop
stream_loop-ArePieces zero asked at bytes h = absurd (omega arith)
stream_loop-ArePieces (suc fuel) asked at [] h = refl
stream_loop-ArePieces (suc fuel) asked at (c ∷ bytes) h =
    let m = stream_max_chunk asked in
    let p = stream_max_chunk_pos asked in
    let piece = take m (c ∷ bytes) in
    let size = length-take m (c ∷ bytes) in
    let left = length-drop (length piece) (c ∷ bytes) in
    (
      refl,
      stream_max_chunk-Fits asked (length piece) (omega (arith, size, p)) (omega (arith, size)),
      (
        drop (length piece) (c ∷ bytes),
        sym (take-append-rest m (c ∷ bytes)),
        stream_loop-ArePieces fuel asked (at + length piece) (drop (length piece) (c ∷ bytes))
            (omega (arith, size, left, p, h)),
      ),
    )

first_offset-StartsAt : (offset : ℕ) → StartsAt offset (first_offset offset)
first_offset-StartsAt offset = elim (Bool-cases (leb (2 ^ 63) offset)) [
  | inl q ↦ rw q (inr (ground arith, refl))
  | inr q ↦ rw q (inl (ground arith, refl))
]

-- A stream that does not follow the log ends, and has then sent exactly the bytes of the log from the
-- offset on, which is 0 if the client asked for 2^63 or more, in pieces that lie one behind the other;
-- none is empty, longer than 256 KiB, or longer than the size that the client asked for, and none is
-- longer than 64 KiB if it asked for none.
pub stream_shell-ArePieces :
    (asked offset : ℕ) (file : List ℕ)
    → (at : ℕ) × StartsAt offset at
      × ArePieces asked at (stream_shell asked offset file) (drop at file)
unfolding stream_shell
stream_shell-ArePieces asked offset file =
    let rest = drop (first_offset offset) file in
    (
      first_offset offset,
      first_offset-StartsAt offset,
      stream_loop-ArePieces (suc (length rest)) asked (first_offset offset) rest (omega arith),
    )
