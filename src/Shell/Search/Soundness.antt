-- ===== src/Shell/Search/Soundness.antt =====
-- What a search of a log reports is there.
use xrunner.Base.{
  All, All-append, Bool-cases, List, Option-cases, [], ap, arith, drop, drop-drop, eqb, false≢true,
  inl, inr, leb, length, length-append, length-drop, ltb, refl, some, suc, sym, take, true, zero, ℕ,
  ◌++◌, ◌+◌, ◌-◌, ◌<◌, ◌||◌, ◌∙◌, ◌∷◌, ◌≡◌, ◌≤◌,
}
use xrunner.Shell.Bytes.{index, index-Found, starts_with}
use xrunner.Shell.Search.{Hit, chunk, kept_from, overlap, scan, search_chunks, search_log_range}
use Prim.Native.Nat.{max, min}

starts_with_trans :
    (xs w q : List ℕ) → starts_with xs w ≡ true → starts_with w q ≡ true → starts_with xs q ≡ true
starts_with_trans xs w [] h k = refl
starts_with_trans xs [] (c ∷ q) h k = absurd (false≢true k)
starts_with_trans [] (b ∷ w) (c ∷ q) h k = absurd (false≢true h)
starts_with_trans (a ∷ xs) (b ∷ w) (c ∷ q) h k = ground (arith, starts_with_trans xs w q)

starts_with-drop :
    (i : ℕ) (xs w : List ℕ) → starts_with xs w ≡ true → starts_with (drop i xs) (drop i w) ≡ true
starts_with-drop zero xs w h = h
starts_with-drop (suc i) xs [] h = refl
starts_with-drop (suc i) [] (b ∷ w) h = absurd (false≢true h)
starts_with-drop (suc i) (a ∷ xs) (b ∷ w) h = starts_with-drop i xs w (ground (arith, h))

starts_with-append :
    (xs a b : List ℕ)
    → starts_with xs a ≡ true
    → starts_with (drop (length a) xs) b ≡ true
    → starts_with xs (a ++ b) ≡ true
starts_with-append xs [] b h k = k
starts_with-append [] (c ∷ a) b h k = absurd (false≢true h)
starts_with-append (x ∷ xs) (c ∷ a) b h k = ground (arith, h, starts_with-append xs a b)

starts_with-take : (n : ℕ) (xs : List ℕ) → starts_with xs (take n xs) ≡ true
starts_with-take zero xs = refl
starts_with-take (suc n) [] = refl
starts_with-take (suc n) (x ∷ xs) = ground (arith, starts_with-take n xs)

-- The file has the query at the offset, which is in the range.
abbrev pub IsHit : List ℕ → List ℕ → ℕ → ℕ → Hit → Type 0
IsHit file query start end (off, snip) =
    (starts_with (drop off file) query ≡ true) × (start ≤ off) × (off < end)

module _ (file : List ℕ) (query : List ℕ) (start : ℕ) (end : ℕ) (context_bytes : ℕ) where
  -- All reported are hits, and there is room for them.
  abbrev pub AreHits : ℕ → List Hit → Type 0
  AreHits room hits = All (IsHit file query start end) hits × (length hits ≤ room)

  hit :
      (window : List ℕ) (base idx j : ℕ)
      → starts_with (drop base file) window ≡ true
      → index (drop idx window) query ≡ some j
      → starts_with (drop (base + (idx + j)) file) query ≡ true
  hit window base idx j h q =
      let f = index-Found (drop idx window) query j q in
      let here : starts_with (drop (idx + j) window) query ≡ true =
        rw (drop-drop idx j window) f.0 in
      rw (drop-drop base (idx + j) file) (
        starts_with_trans (drop (idx + j) (drop base file)) (drop (idx + j) window) query
          (starts_with-drop (idx + j) (drop base file) window h) here)

  scan-AreHits :
      (fuel : ℕ) (window : List ℕ) (base idx room : ℕ)
      → starts_with (drop base file) window ≡ true
      → 0 < room
      → AreHits room (scan file query start end context_bytes fuel window base idx room)
  unfolding scan
  scan-AreHits zero window base idx room h r = (tt, omega arith)
  scan-AreHits (suc fuel) window base idx room h r =
      elim (Option-cases (index (drop idx window) query)) [
        | inl q ↦ rw q (tt, omega arith)
        | inr (j, q) ↦
            let off = base + (idx + j) in
            elim (Bool-cases (ltb off start || leb end off)) [
              | inl o ↦ rw (q, o) (scan-AreHits fuel window base (idx + j + 1) room h r)
              | inr o ↦ elim (Bool-cases (leb room 1)) [
                | inl l ↦
                    rw (q, o, l)
                      (((hit window base idx j h q, ground arith, ground arith), tt), omega arith)
                | inr l ↦
                    let (all, fits) =
                      scan-AreHits fuel window base (idx + j + max 1 (length query)) (room - 1) h
                        (ground arith) in
                    rw (q, o, l)
                      (
                        ((hit window base idx j h q, ground arith, ground arith), all),
                        ground (arith, fits),
                      )
              ]
            ]
      ]

  -- The carried part stands right before `base` in the file.
  abbrev pub IsCarry : ℕ → List ℕ → Type 0
  IsCarry base carry =
      (length carry ≤ base) × (starts_with (drop (base - length carry) file) carry ≡ true)

  window-stands :
      (base n : ℕ) (carry : List ℕ)
      → IsCarry base carry
      → starts_with (drop (base - length carry) file) (carry ++ take n (drop base file)) ≡ true
  window-stands base n carry h =
      let z : base - length carry + length carry ≡ base = omega (arith, h.0) in
      let behind : drop (length carry) (drop (base - length carry) file) ≡ drop base file =
        sym (drop-drop (base - length carry) (length carry) file) ∙ ap (λ k. drop k file) z in
      starts_with-append (drop (base - length carry) file) carry (take n (drop base file)) h.1
        (rw behind (starts_with-take n (drop base file)))

  IsCarry-next :
      (base n k : ℕ) (carry : List ℕ)
      → IsCarry base carry
      → let read = take n (drop base file) in
        k ≤ length (carry ++ read) → IsCarry (base + length read) (drop k (carry ++ read))
  IsCarry-next base n k carry h l =
      let read = take n (drop base file) in
      let window = carry ++ read in
      let size = length-append carry read in
      let left = length-drop k window in
      let z : base + length read - length (drop k window) ≡ base - length carry + k =
        omega (arith, size, left, h.0, l) in
      (
        omega (arith, size, left, h.0),
        rw (z, drop-drop (base - length carry) k file)
            (starts_with-drop k (drop (base - length carry) file) window
              (window-stands base n carry h)),
      )

  kept_from-bound : (over len : ℕ) → kept_from over len ≤ len
  kept_from-bound over len = ground arith

  AreHits-append :
      (room : ℕ) (xs ys : List Hit)
      → AreHits room xs
      → AreHits (room - length xs) ys
      → AreHits room (xs ++ ys)
  AreHits-append room xs ys h k = (
    All-append (IsHit file query start end) xs ys h.0 k.0,
    omega (arith, h.1, k.1, length-append xs ys),
  )

  search_chunks-AreHits :
      (fuel base : ℕ) (carry : List ℕ) (room : ℕ)
      → IsCarry base carry
      → 0 < room
      → AreHits room (search_chunks file query start end context_bytes fuel base carry room)
  unfolding search_chunks
  search_chunks-AreHits zero base carry room h r = (tt, omega arith)
  search_chunks-AreHits (suc fuel) base carry room h r = elim (Bool-cases (ltb base end)) [
    | inr q ↦ rw q (tt, omega arith)
    | inl q ↦
        let to_read = min chunk (end - base) in
        let read = take to_read (drop base file) in
        let window = carry ++ read in
        let hits =
          scan file query start end context_bytes (suc (length window)) window (base - length carry)
            0 room in
        let good =
          scan-AreHits (suc (length window)) window (base - length carry) 0 room
            (window-stands base to_read carry h) r in
        let next =
          drop (kept_from (overlap file query start end context_bytes) (length window)) window in
        elim (Bool-cases
          (leb room (length hits) || (eqb (length read) 0 || ltb (length read) to_read))) [
            | inl d ↦ rw (q, d) good
            | inr d ↦
                rw (q, d)
                  (AreHits-append room hits
                    (search_chunks file query start end context_bytes fuel (base + length read) next
                      (room - length hits))
                    good
                    (search_chunks-AreHits fuel (base + length read) next (room - length hits)
                      (IsCarry-next base to_read _ carry h (kept_from-bound _ (length window)))
                      (ground arith)))
          ]
  ]

  -- Every match that a search reports is in the asked range of the log, and the log has the
  -- query there; there are no more matches than asked for.
  pub search_log_range-AreHits :
      (max_matches : ℕ)
      → AreHits max_matches (search_log_range file query start end context_bytes max_matches)
  unfolding search_log_range
  search_log_range-AreHits zero = (tt, omega arith)
  search_log_range-AreHits (suc max_matches) =
      search_chunks-AreHits (suc (length file)) start [] (suc max_matches) (omega arith, refl)
        (omega arith)
