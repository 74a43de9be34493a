-- ===== src/Shell/Markers/Flushing.antt =====
-- flushablePrefixLen: how much of the output that was read can be passed on.
use xrunner.Base.{
  All, Bool-cases, List, Option, Option-cases, [], arith, drop, inl, inr, length, ltb, none, refl,
  some, suc, take, true, zero, ℕ, ◌++◌, ◌+◌, ◌-◌, ◌<◌, ◌∷◌, ◌≡◌, ◌≢◌, ◌≤◌, ◌⊎◌,
}
use xrunner.Control.Types.{ℤ}
use xrunner.Shell.Bytes.{Found, index, index_byte, last_index, last_index-Found, starts_with}
use xrunner.Shell.Markers.{
  at_prefix, flush_before, flushable_prefix_len, strip_from, strip_xr_markers, xr_osc_prefix,
}

-- Bytes are withheld only as an incomplete frame, and then at most 4096 of them.
abbrev pub Withheld : List ℕ → ℕ → Type 0
Withheld pending n =
    (starts_with (drop n pending) xr_osc_prefix ≡ true)
    × (index_byte (drop n pending) 7 ≡ none)
    × (n + 9 ≤ length pending)
    × (length pending ≤ n + 4096)

flush_before_lem :
    (pending : List ℕ) (last : Option ℕ)
    → ((j : ℕ) → last ≡ some j → Found pending xr_osc_prefix j)
    → (flush_before pending last ≡ length pending) ⊎ Withheld pending (flush_before pending last)
unfolding flush_before
flush_before_lem pending none h = inl refl
flush_before_lem pending (some last) h = elim (Option-cases (index_byte (drop last pending) 7)) [
  | inr (k, q) ↦ rw q (inl refl)
  | inl q ↦ elim (Bool-cases (ltb 4096 (length pending - last))) [
    | inl r ↦ rw (q, r) (inl refl)
    | inr r ↦ let f = h last refl in rw (q, r) (inr (f.0, q, f.1, ground arith))
  ]
]

-- Either all of the pending output is passed on, or all but an incomplete frame at its end, which
-- begins with the prefix, has no BEL, and is at most 4096 bytes long.
pub flushable_prefix_len_lem :
    (pending : List ℕ)
    → (flushable_prefix_len pending ≡ length pending)
      ⊎ Withheld pending (flushable_prefix_len pending)
unfolding flushable_prefix_len
flushable_prefix_len_lem pending =
    flush_before_lem pending (last_index pending xr_osc_prefix)
      (last_index-Found pending xr_osc_prefix)

last_index_absent :
    (x ys : List ℕ)
    → All (λ c. c ≢ 0x1b) x
    → last_index ys xr_osc_prefix ≡ none
    → last_index (x ++ ys) xr_osc_prefix ≡ none
unfolding last_index
last_index_absent [] ys h q = q
last_index_absent (c ∷ x) ys h q = ground (arith, last_index_absent x ys h.1 q)

index_absent :
    (x ys : List ℕ)
    → All (λ c. c ≢ 0x1b) x
    → index ys xr_osc_prefix ≡ none
    → index (x ++ ys) xr_osc_prefix ≡ none
unfolding index
index_absent [] ys h q = q
index_absent (c ∷ x) ys h q = ground (arith, index_absent x ys h.1 q)

partial_unfound :
    (k : ℕ)
    → k < 9
    → (last_index (take k xr_osc_prefix) xr_osc_prefix ≡ none)
      × (index (take k xr_osc_prefix) xr_osc_prefix ≡ none)
unfolding index last_index
partial_unfound zero h = (refl, refl)
partial_unfound (suc zero) h = (refl, refl)
partial_unfound (suc (suc zero)) h = (refl, refl)
partial_unfound (suc (suc (suc zero))) h = (refl, refl)
partial_unfound (suc (suc (suc (suc zero)))) h = (refl, refl)
partial_unfound (suc (suc (suc (suc (suc zero))))) h = (refl, refl)
partial_unfound (suc (suc (suc (suc (suc (suc zero)))))) h = (refl, refl)
partial_unfound (suc (suc (suc (suc (suc (suc (suc zero))))))) h = (refl, refl)
partial_unfound (suc (suc (suc (suc (suc (suc (suc (suc zero)))))))) h = (refl, refl)
partial_unfound (suc (suc (suc (suc (suc (suc (suc (suc (suc k))))))))) h = absurd (omega arith)

module _ (now : ℤ) (decode : List ℕ → Option (List ℕ)) where
  -- Output that breaks off inside the prefix of a frame is passed on whole, with the bytes of the
  -- prefix, and no marker: the rest of the frame, which the next read brings, is no frame any more.
  pub partial_prefix_leaks :
      (x : List ℕ) (k off : ℕ)
      → All (λ c. c ≢ 0x1b) x
      → k < 9
      → let pending = x ++ take k xr_osc_prefix in
        (flushable_prefix_len pending ≡ length pending)
        × (strip_xr_markers now decode pending off ≡ (pending, []))
  unfolding flushable_prefix_len flush_before strip_xr_markers strip_from at_prefix
  partial_prefix_leaks x k off h l =
      let p = partial_unfound k l in
      let a = last_index_absent x (take k xr_osc_prefix) h p.0 in
      let b = index_absent x (take k xr_osc_prefix) h p.1 in (rw a, rw b)
