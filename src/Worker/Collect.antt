-- ===== src/Worker/Collect.antt =====
-- collectStream of internal/worker/runner.go: a pipe cut into chunks at newlines.
use xrunner.Base.{
  Bool, Bool-cases, List, Text, [], arith, eqb, eqb_iff, false, false≢true, if◌then◌else◌, inl, inr,
  length, refl, some, suc, sym, true, zero, ℕ, ◌++◌, ◌<◌, ◌∙◌, ◌∷◌, ◌≡◌, ◌≢◌,
}
use xrunner.Control.Types.{LogChunk}

-- reader.ReadBytes('\n'): the bytes up to the first newline, with it, what follows, and whether
-- there was one. Without one the rest of the pipe is returned, with io.EOF.
unfoldable pub read_bytes : List ℕ → List ℕ × List ℕ × Bool
read_bytes [] = ([], [], false)
read_bytes (b ∷ bs) =
    let (line, rest, found_newline) = read_bytes bs in
    if eqb b 10 then (b ∷ [], bs, true) else (b ∷ line, rest, found_newline)

abbrev pub line_chunk : Text → ℕ → List ℕ → LogChunk
line_chunk stream now line = record {
  timestamp = some now;
  stream = stream;
  bytes = line;
  offset = 0;
}

-- if len(data) > 0 { … }
abbrev pub keep_line : Text → ℕ → List ℕ → List LogChunk → List LogChunk
keep_line stream now [] rest = rest
keep_line stream now (b ∷ line) rest = line_chunk stream now (b ∷ line) ∷ rest

-- The loop, on fuel: every round but the last takes a newline off the pipe. `clock` gives the time
-- by the rounds left.
unfoldable pub collect_loop : ℕ → Text → (ℕ → ℕ) → List ℕ → List LogChunk
collect_loop zero stream clock pipe = []
collect_loop (suc fuel) stream clock pipe =
    let (line, rest, found_newline) = read_bytes pipe in
    let next = collect_loop fuel stream clock rest in
    keep_line stream (clock fuel) line (if found_newline then next else [])

unfoldable pub collect_stream : Text → (ℕ → ℕ) → List ℕ → List LogChunk
collect_stream stream clock pipe = collect_loop (suc (length pipe)) stream clock pipe

-- The bytes of some chunks, joined.
abbrev pub bytes_of : List LogChunk → List ℕ
bytes_of [] = []
bytes_of (x ∷ xs) = x.bytes ++ bytes_of xs

-- A chunk that may be followed by another one: it is not empty, and has its only newline at its end.
abbrev pub IsLine : List ℕ → Type 0
IsLine [] = ⊥
IsLine (b ∷ []) = b ≡ 10
IsLine (b ∷ c ∷ bs) = (b ≢ 10) × IsLine (c ∷ bs)

-- The last chunk may lack its newline.
abbrev pub IsLastLine : List ℕ → Type 0
IsLastLine [] = ⊥
IsLastLine (b ∷ []) = Unit
IsLastLine (b ∷ c ∷ bs) = (b ≢ 10) × IsLastLine (c ∷ bs)

abbrev pub AreLines : List LogChunk → Type 0
AreLines [] = Unit
AreLines (x ∷ []) = IsLastLine x.bytes
AreLines (x ∷ y ∷ ys) = IsLine x.bytes × AreLines (y ∷ ys)

read_bytes-append : (pipe : List ℕ) → (read_bytes pipe).0 ++ (read_bytes pipe).1 ≡ pipe
unfolding read_bytes
read_bytes-append [] = refl
read_bytes-append (b ∷ bs) = ground (arith, read_bytes-append bs)

IsLine-cons : (b : ℕ) (l : List ℕ) → b ≢ 10 → IsLine l → IsLine (b ∷ l)
IsLine-cons b [] n h = absurd h
IsLine-cons b (c ∷ l) n h = (n, h)

IsLine-last : (l : List ℕ) → IsLine l → IsLastLine l
IsLine-last [] h = h
IsLine-last (b ∷ []) h = tt
IsLine-last (b ∷ c ∷ l) h = (h.0, IsLine-last (c ∷ l) h.1)

read_found :
    (pipe : List ℕ)
    → (read_bytes pipe).2 ≡ true
    → IsLine (read_bytes pipe).0 × (length (read_bytes pipe).1 < length pipe)
unfolding read_bytes
read_found [] h = cc
read_found (b ∷ bs) h = elim (Bool-cases (eqb b 10)) [
  | inl e ↦ rw e ((eqb_iff b 10).0 e, omega arith)
  | inr e ↦
      let (l, m) = read_found bs (rw e at h) in
      rw e (IsLine-cons b (read_bytes bs).0 (λ q. ground (arith, q)) l, omega (arith, m))
]

-- Without a newline the rest is empty, and the line is empty or a last line.
MayEnd : List ℕ → Type 0
MayEnd [] = Unit
MayEnd (b ∷ l) = IsLastLine (b ∷ l)

MayEnd-cons : (b : ℕ) (l : List ℕ) → b ≢ 10 → MayEnd l → MayEnd (b ∷ l)
unfolding MayEnd
MayEnd-cons b [] n h = tt
MayEnd-cons b (c ∷ l) n h = (n, h)

read_ended :
    (pipe : List ℕ)
    → (read_bytes pipe).2 ≡ false
    → MayEnd (read_bytes pipe).0 × ((read_bytes pipe).1 ≡ [])
unfolding read_bytes MayEnd
read_ended [] h = (tt, refl)
read_ended (b ∷ bs) h = elim (Bool-cases (eqb b 10)) [
  | inl e ↦ absurd (false≢true (sym (rw e at h)))
  | inr e ↦
      let (l, m) = read_ended bs (rw e at h) in
      rw e (MayEnd-cons b (read_bytes bs).0 (λ q. ground (arith, q)) l, m)
]

AreLines-cons :
    (x : LogChunk) (xs : List LogChunk) → IsLine x.bytes → AreLines xs → AreLines (x ∷ xs)
AreLines-cons x [] l h = IsLine-last x.bytes l
AreLines-cons x (y ∷ ys) l h = (l, h)

keep_line-AreLines :
    (stream : Text) (now : ℕ) (line : List ℕ) (xs : List LogChunk)
    → IsLine line
    → AreLines xs
    → AreLines (keep_line stream now line xs)
keep_line-AreLines stream now [] xs l h = absurd l
keep_line-AreLines stream now (b ∷ line) xs l h =
    AreLines-cons (line_chunk stream now (b ∷ line)) xs l h

keep_line-last :
    (stream : Text) (now : ℕ) (line : List ℕ)
    → MayEnd line
    → AreLines (keep_line stream now line [])
unfolding MayEnd
keep_line-last stream now [] h = tt
keep_line-last stream now (b ∷ line) h = h

bytes_of-keep_line :
    (stream : Text) (now : ℕ) (line : List ℕ) (xs : List LogChunk)
    → bytes_of (keep_line stream now line xs) ≡ line ++ bytes_of xs
bytes_of-keep_line stream now [] xs = refl
bytes_of-keep_line stream now (b ∷ line) xs = refl

collect_loop_lem :
    (fuel : ℕ) (stream : Text) (clock : ℕ → ℕ) (pipe : List ℕ)
    → length pipe < fuel
    → (bytes_of (collect_loop fuel stream clock pipe) ≡ pipe)
      × AreLines (collect_loop fuel stream clock pipe)
unfolding collect_loop
collect_loop_lem zero stream clock pipe h = absurd (omega arith)
collect_loop_lem (suc fuel) stream clock pipe h =
    let line = (read_bytes pipe).0 in
    let rest = (read_bytes pipe).1 in
    let next = collect_loop fuel stream clock rest in
    elim (Bool-cases (read_bytes pipe).2) [
      | inl e ↦
          let (l, m) = read_found pipe e in
          let (joined, lines) = collect_loop_lem fuel stream clock rest (omega (arith, m)) in
          rw e (
            bytes_of-keep_line stream (clock fuel) line next ∙ cc (joined, read_bytes-append pipe),
            keep_line-AreLines stream (clock fuel) line next l lines,
          )
      | inr e ↦
          let (l, m) = read_ended pipe e in
          rw e (
            bytes_of-keep_line stream (clock fuel) line [] ∙ cc (m, read_bytes-append pipe),
            keep_line-last stream (clock fuel) line l,
          )
    ]

-- The chunks of a pipe are its lines: joined they are the bytes that the command wrote, none is
-- empty, and each but the last has exactly one newline, at its end.
pub collect_stream-lossless :
    (stream : Text) (clock : ℕ → ℕ) (pipe : List ℕ)
    → (bytes_of (collect_stream stream clock pipe) ≡ pipe)
      × AreLines (collect_stream stream clock pipe)
unfolding collect_stream
collect_stream-lossless stream clock pipe =
    collect_loop_lem (suc (length pipe)) stream clock pipe (omega arith)
