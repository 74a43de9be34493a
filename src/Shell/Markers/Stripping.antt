-- ===== src/Shell/Markers/Stripping.antt =====
-- stripXRMarkers: its loop ends, its markers stand in order, and whole frames are cut out.
use xrunner.Base.{
  All, All-append, Bool-cases, List, Option, Option-cases, [], ap, arith, codes, drop, drop-append,
  drop-drop, inl, inr, length, length-append, length-drop, nat_eq, refl, some, suc, take,
  take-append, text_eq, zero, ℕ, ◌++◌, ◌+◌, ◌-◌, ◌<◌, ◌==◌, ◌∙◌, ◌∷◌, ◌≡◌, ◌≢◌, ◌≤◌,
}
use xrunner.Control.Types.{ℤ}
use xrunner.Shell.Bytes.{index, index-append, index_byte, index_byte-append, index_byte-bound}
use xrunner.Shell.Markers.{
  XrMarker, at_bel, at_prefix, parse_parts, parse_xr_marker_payload, strip_from, strip_xr_markers,
  to_list, xr_osc_prefix,
}

-- The markers lie behind each other between two offsets.
abbrev pub InOrder : ℕ → List XrMarker → ℕ → Type 0
InOrder lo [] hi = lo ≤ hi
InOrder lo (m ∷ ms) hi =
    (lo ≤ m.start_offset) × (m.start_offset < m.end_offset) × InOrder m.end_offset ms hi

InOrder-lower :
    (lo lo' : ℕ) (ms : List XrMarker) (hi : ℕ) → lo' ≤ lo → InOrder lo ms hi → InOrder lo' ms hi
InOrder-lower lo lo' [] hi h o = omega arith
InOrder-lower lo lo' (m ∷ ms) hi h o = (omega (arith, o.0), o.1, o.2)

bel_in :
    (rest : List ℕ) (j k : ℕ)
    → index_byte (drop j rest) 7 ≡ some k
    → (j + k < length rest) × (length (drop (j + k + 1) rest) + (j + k + 1) ≡ length rest)
bel_in rest j k e =
    let b = index_byte-bound (drop j rest) 7 k e in
    let d = length-drop j rest in
    let d' = length-drop (j + k + 1) rest in (omega (arith, b, d), omega (arith, b, d, d'))

module _ (now : ℤ) (decode : List ℕ → Option (List ℕ)) where
  marked :
      (parts : List (List ℕ)) (s e lo hi : ℕ) (ms : List XrMarker)
      → lo ≤ s
      → s < e
      → InOrder e ms hi
      → InOrder lo (to_list now decode (parse_parts now decode parts s e) ++ ms) hi
  unfolding parse_parts
  marked [] s e lo hi ms h l o = InOrder-lower e lo ms hi (omega arith) o
  marked (kind ∷ []) s e lo hi ms h l o = InOrder-lower e lo ms hi (omega arith) o
  marked (kind ∷ id ∷ []) s e lo hi ms h l o = InOrder-lower e lo ms hi (omega arith) o
  marked (kind ∷ id ∷ ts ∷ []) s e lo hi ms h l o = InOrder-lower e lo ms hi (omega arith) o
  marked (kind ∷ id ∷ ts ∷ last ∷ more) s e lo hi ms h l o =
      elim (Bool-cases (kind == codes "cmd_start")) [
        | inl q ↦ rw q (h, l, o)
        | inr q ↦ elim (Bool-cases (kind == codes "cmd_end")) [
          | inl r ↦ rw (q, r) (h, l, o)
          | inr r ↦ rw (q, r) (InOrder-lower e lo ms hi (omega arith) o)
        ]
      ]

  strip_from-InOrder :
      (fuel : ℕ) (rest : List ℕ) (off : ℕ)
      → length rest < fuel
      → InOrder off (strip_from now decode fuel rest off).1 (off + length rest)
  unfolding strip_from at_prefix at_bel parse_xr_marker_payload
  strip_from-InOrder zero rest off h = absurd (omega arith)
  strip_from-InOrder (suc fuel) rest off h = elim (Option-cases (index rest xr_osc_prefix)) [
    | inl q ↦ rw q (omega arith)
    | inr (j, q) ↦ elim (Option-cases (index_byte (drop j rest) 7)) [
      | inl r ↦ rw (q, r) (omega arith)
      | inr (k, r) ↦
          let b = bel_in rest j k r in
          let n = off + (j + k + 1) in
          let later = strip_from-InOrder fuel (drop (j + k + 1) rest) n (omega (arith, b.1)) in
          let hi : n + length (drop (j + k + 1) rest) ≡ off + length rest = omega (arith, b.1) in
          rw (q, r)
            (marked _ (off + j) n off (off + length rest) _ (omega arith) (omega arith)
              (rw hi at later))
    ]
  ]

  -- The markers that are found lie one behind the other in the stretch of the log that was read,
  -- each with its start before its end.
  pub strip_xr_markers-InOrder :
      (b : List ℕ) (base_offset : ℕ)
      → InOrder base_offset (strip_xr_markers now decode b base_offset).1 (base_offset + length b)
  unfolding strip_xr_markers
  strip_xr_markers-InOrder b base_offset =
      strip_from-InOrder (suc (length b)) b base_offset (omega arith)

  -- Fuel above the length is enough.
  strip_from-enough :
      (f g : ℕ) (rest : List ℕ) (off : ℕ)
      → length rest < f
      → length rest < g
      → strip_from now decode f rest off ≡ strip_from now decode g rest off
  unfolding strip_from at_prefix at_bel
  strip_from-enough zero g rest off h k = absurd (omega arith)
  strip_from-enough (suc f) zero rest off h k = absurd (omega arith)
  strip_from-enough (suc f) (suc g) rest off h l = elim (Option-cases (index rest xr_osc_prefix)) [
    | inl q ↦ rw q
    | inr (j, q) ↦ elim (Option-cases (index_byte (drop j rest) 7)) [
      | inl r ↦ rw (q, r)
      | inr (k, r) ↦
          let b = bel_in rest j k r in
          rw (
            q,
            r,
            strip_from-enough f g (drop (j + k + 1) rest) (off + (j + k + 1)) (omega (arith, b.1))
                (omega (arith, b.1)),
          )
    ]
  ]

  drop-past : (xs ys : List ℕ) (n : ℕ) → drop (length xs + n) (xs ++ ys) ≡ drop n ys
  drop-past xs ys n = drop-drop (length xs) n (xs ++ ys) ∙ ap (drop n) (drop-append xs ys)

  -- One turn of the loop on output, a frame, and what follows.
  frame_step :
      (again : List ℕ → ℕ → List ℕ × List XrMarker) (x payload rest : List ℕ) (off : ℕ)
      → All (λ c. c ≢ 0x1b) x
      → All (λ c. c ≢ 7) payload
      → let b = x ++ ((xr_osc_prefix ++ payload) ++ 7 ∷ rest) in
        let start = off + length x in
        let end = start + (length payload + 10) in
        at_prefix now decode again (index b xr_osc_prefix) b off ≡ (
          x ++ (again rest end).0,
          to_list now decode (parse_xr_marker_payload now decode payload start end)
              ++ (again rest end).1,
        )
  unfolding at_prefix at_bel
  frame_step again x payload rest off h l =
      let frame = xr_osc_prefix ++ payload in
      let tail = frame ++ 7 ∷ rest in
      let b = x ++ tail in
      let k = length frame in
      let found : index b xr_osc_prefix ≡ some (length x) =
        index-append x tail 0x1b (codes "]777;XR;") h refl in
      let cut : drop (length x) b ≡ tail = drop-append x tail in
      let bel : index_byte tail 7 ≡ some k = index_byte-append frame rest 7 (
        All-append (λ c. c ≢ 7) xr_osc_prefix payload
          (
            omega arith,
            (
              omega arith,
              (
                omega arith,
                (
                  omega arith,
                  (omega arith, (omega arith, (omega arith, (omega arith, (omega arith, tt))))),
                ),
              ),
            ),
          )
          l) in
      let before : take (length x) b ≡ x = take-append x tail in
      let z : length x + k + 1 ≡ length x + (k + 1) = omega arith in
      let behind : drop (length x + k + 1) b ≡ rest =
        ap (λ n. drop n b) z ∙ drop-past x tail (k + 1) ∙ drop-past frame (7 ∷ rest) 1 in
      let size : k - 9 ≡ length payload = omega arith in
      let inside : take (k - 9) (drop (length x + 9) b) ≡ payload =
        ap (λ n. take n (drop (length x + 9) b)) size
        ∙ ap (take (length payload)) (drop-past x tail 9)
        ∙ take-append payload (7 ∷ rest) in
      let s : off + length x + (length payload + 10) ≡ off + (length x + k + 1) = omega arith in
      rw (s, found, cut, bel, before, behind, inside)

  -- Output `x` without an escape byte, followed by a frame around a payload without a BEL, is
  -- kept, the frame is cut out, its marker is read with the frame's offsets, and the
  -- stripping goes on behind the frame.
  pub strip_xr_markers-frame :
      (x payload rest : List ℕ) (off : ℕ)
      → All (λ c. c ≢ 0x1b) x
      → All (λ c. c ≢ 7) payload
      → let start = off + length x in
        let end = start + (length payload + 10) in
        let next = strip_xr_markers now decode rest end in
        strip_xr_markers now decode (x ++ ((xr_osc_prefix ++ payload) ++ 7 ∷ rest)) off ≡ (
          x ++ next.0,
          to_list now decode (parse_xr_marker_payload now decode payload start end) ++ next.1,
        )
  unfolding strip_xr_markers strip_from
  strip_xr_markers-frame x payload rest off h l =
      let b = x ++ ((xr_osc_prefix ++ payload) ++ 7 ∷ rest) in
      let end = off + length x + (length payload + 10) in
      let tail = (xr_osc_prefix ++ payload) ++ 7 ∷ rest in
      let whole : length b ≡ length x + length tail = length-append x tail in
      let framed : length tail ≡ length (xr_osc_prefix ++ payload) + suc (length rest) =
        length-append (xr_osc_prefix ++ payload) (7 ∷ rest) in
      let shorter : length rest < length b = omega (arith, whole, framed) in
      let e : strip_from now decode (length b) rest end
          ≡ strip_from now decode (suc (length rest)) rest end =
        strip_from-enough (length b) (suc (length rest)) rest end shorter (omega arith) in
      frame_step (strip_from now decode (length b)) x payload rest off h l
      ∙ ap
          (λ r. (
            x ++ r.0,
            to_list now decode (parse_xr_marker_payload now decode payload (off + length x) end)
                ++ r.1,
          ))
          e
