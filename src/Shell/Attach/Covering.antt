-- ===== src/Shell/Attach/Covering.antt =====
-- Chunks of a log that lie one behind the other.
use xrunner.Base.{
  List, Option, [], ap, append-nil, append_assoc, arith, length, length-append, refl, subst, sym, ℕ,
  ◌++◌, ◌+◌, ◌∙◌, ◌∷◌, ◌≡◌,
}
use xrunner.Control.Types.{ℤ}
use xrunner.Shell.Attach.{
  OutputChunk, Sender, ServerMsg, completed, encoded, on_marker, on_markers, output, started,
}
use xrunner.Shell.Markers.{Kind, XrMarker, cmd_end, cmd_start, strip_xr_markers}
use xrunner.Shell.Search.{chunk}

abbrev pub outputs : List ServerMsg → List OutputChunk
outputs [] = []
outputs (started rec ∷ msgs) = outputs msgs
outputs (completed rec ∷ msgs) = outputs msgs
outputs (output chunk ∷ msgs) = chunk ∷ outputs msgs

pub outputs-append : (xs ys : List ServerMsg) → outputs (xs ++ ys) ≡ outputs xs ++ outputs ys
outputs-append [] ys = refl
outputs-append (started rec ∷ xs) ys = outputs-append xs ys
outputs-append (completed rec ∷ xs) ys = outputs-append xs ys
outputs-append (output chunk ∷ xs) ys = ap (λ l. chunk ∷ l) (outputs-append xs ys)

outputs-on_marker :
    (k : Kind) (m : XrMarker) (s : Sender) → outputs (on_marker k m s).sent ≡ outputs s.sent
unfolding on_marker
outputs-on_marker cmd_start m s = outputs-append s.sent _ ∙ append-nil (outputs s.sent)
outputs-on_marker cmd_end m s = outputs-append s.sent _ ∙ append-nil (outputs s.sent)

pub outputs-on_markers :
    (ms : List XrMarker) (s : Sender) → outputs (on_markers ms s).sent ≡ outputs s.sent
unfolding on_markers
outputs-on_markers [] s = refl
outputs-on_markers (m ∷ ms) s =
    outputs-on_markers ms (on_marker m.kind m s) ∙ outputs-on_marker m.kind m s

pub offset-on_markers : (ms : List XrMarker) (s : Sender) → (on_markers ms s).offset ≡ s.offset
unfolding on_markers
offset-on_markers [] s = refl
offset-on_markers (m ∷ ms) s = offset-on_markers ms (on_marker m.kind m s) ∙ offset-on_marker m.kind
  where
    offset-on_marker : (k : Kind) → (on_marker k m s).offset ≡ s.offset
    offset-on_marker cmd_start = refl
    offset-on_marker cmd_end = refl

module _ (now : ℤ) (decode : List ℕ → Option (List ℕ)) (encode : List ℕ → List ℕ) where
  -- The chunks lie one behind the other from the offset `at` on; each has the length of its part of the
  -- bytes, and that part without its markers, which may be compressed.
  abbrev pub Covers : ℕ → List OutputChunk → List ℕ → Type 0
  Covers at [] bytes = bytes ≡ []
  Covers at (c ∷ chunks) bytes =
      (raw : List ℕ) × (rest : List ℕ) × (bytes ≡ raw ++ rest)
      × (c.offset ≡ at)
      × (c.uncompressed_len ≡ length raw)
      × (c.bytes ≡ encoded now decode encode (strip_xr_markers now decode raw at).0)
      × Covers (at + length raw) chunks rest

  pub Covers-append :
      (at : ℕ) (cs ds : List OutputChunk) (bs es : List ℕ)
      → Covers at cs bs
      → Covers (at + length bs) ds es
      → Covers at (cs ++ ds) (bs ++ es)
  Covers-append at [] ds bs es h k =
      let none_yet : length bs ≡ 0 = ap length h in
      let here : at + length bs ≡ at = omega (arith, none_yet) in
      subst (λ x. Covers at ds (x ++ es)) (sym h) (subst (λ x. Covers x ds es) here k)
  Covers-append at (c ∷ cs) ds bs es (raw, rest, e, o, l, d, h) k =
      let size : length bs ≡ length raw + length rest = ap length e ∙ length-append raw rest in
      let here : at + length bs ≡ at + length raw + length rest = omega (arith, size) in
      (
        raw,
        rest ++ es,
        ap (λ x. x ++ es) e ∙ append_assoc raw rest es,
        o,
        l,
        d,
        Covers-append (at + length raw) cs ds rest es h (subst (λ x. Covers x ds es) here k),
      )
