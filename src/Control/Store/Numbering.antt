-- ===== src/Control/Store/Numbering.antt =====
-- The offsets of log chunks: AppendLogs numbers the chunks of a job 1, 2, 3, … without a gap.
use xrunner.Base.{
  ==-self, Bool-cases, List, Text, [], ap, arith, if◌then◌else◌, inl, inr, length, refl, sym,
  text_beq_iff, ℕ, ◌+◌, ◌<◌, ◌==◌, ◌^◌, ◌∙◌, ◌∷◌, ◌≡◌, nat_eq, text_eq,
}
use xrunner.Base.Dict.{Dict, insert, lookup-insert}
use xrunner.Control.Types.{LogChunk}
use xrunner.Control.Store.Defs.{Store, bump_log_offset_locked, counter, number_chunks, u64}

-- The chunks `xs`, with the offsets `n + 1`, `n + 2`, ….
abbrev pub numbered : ℕ → List LogChunk → List LogChunk
numbered n [] = []
numbered n (x ∷ xs) = record x { offset = n + 1 } ∷ numbered (n + 1) xs

pub counter-insert :
    (key j : Text) (v : ℕ) (m : Dict Text ℕ)
    → counter j (insert key v m) ≡ (if key == j then v else counter j m)
counter-insert key j v m = rw lookup-insert (ground arith)

-- Below the wrap-around, a bump adds one to the counter of its key.
counter-bump :
    (key j : Text) (n : ℕ) (s : Store)
    → counter key s.log_offsets ≡ n
    → n + 1 < 2 ^ 64
    → ((bump_log_offset_locked key s).1 ≡ n + 1)
      × (counter j (bump_log_offset_locked key s).0.log_offsets
          ≡ (if key == j then n + 1 else counter j s.log_offsets))
unfolding bump_log_offset_locked
counter-bump key j n s e b =
    let up : u64 (counter key s.log_offsets + 1) ≡ n + 1 = rw e (omega arith) in
    (up, counter-insert key j _ s.log_offsets ∙ rw up)

pub number_chunks-eq-numbered :
    (key : Text) (n : ℕ) (xs : List LogChunk) (s : Store)
    → counter key s.log_offsets ≡ n
    → n + length xs < 2 ^ 64
    → (number_chunks key xs s).1 ≡ numbered n xs
unfolding number_chunks
number_chunks-eq-numbered key n [] s e b = refl
number_chunks-eq-numbered key n (x ∷ xs) s e b =
    let (up, counted) = counter-bump key key n s e (omega arith) in
    cc (
      up,
      number_chunks-eq-numbered key (n + 1) xs (bump_log_offset_locked key s).0
          (counted ∙ rw (==-self key)) (omega arith),
    )

pub counter-number_chunks :
    (key j : Text) (n : ℕ) (xs : List LogChunk) (s : Store)
    → counter key s.log_offsets ≡ n
    → n + length xs < 2 ^ 64
    → counter j (number_chunks key xs s).0.log_offsets
      ≡ (if key == j then n + length xs else counter j s.log_offsets)
unfolding number_chunks
counter-number_chunks key j n [] s e b = elim (Bool-cases (key == j)) [
  | inl q ↦
      rw q (ap (λ i. counter i s.log_offsets) (sym ((text_beq_iff key j).0 q)) ∙ e ∙ omega arith)
  | inr q ↦ rw q
]
counter-number_chunks key j n (x ∷ xs) s e b =
    let (_, counted) = counter-bump key key n s e (omega arith) in
    let (_, counted_j) = counter-bump key j n s e (omega arith) in
    counter-number_chunks key j (n + 1) xs (bump_log_offset_locked key s).0
      (counted ∙ rw (==-self key)) (omega arith)
    ∙ ground (arith, counted_j)

-- Nothing but the offset counters has changed.
abbrev pub OnlyOffsets : Store → Store → Type 0
OnlyOffsets s t = t ≡ record s { log_offsets = t.log_offsets }

pub number_chunks-OnlyOffsets :
    (key : Text) (xs : List LogChunk) (s : Store) → OnlyOffsets s (number_chunks key xs s).0
unfolding number_chunks
number_chunks-OnlyOffsets key [] s = refl
number_chunks-OnlyOffsets key (x ∷ xs) s =
    number_chunks-OnlyOffsets key xs (bump_log_offset_locked key s).0
