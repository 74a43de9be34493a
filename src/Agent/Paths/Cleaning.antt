-- ===== src/Agent/Paths/Cleaning.antt =====
-- filepath.Clean on paths that are clean already, and which directories are accepted.
use xrunner.Base.{
  ==-self, All, Bool, Bool-cases, List, Text, ap, append-nil, append_assoc, arith, codes, eqb,
  eqb_iff, false, false≢true, inl, inr, is_empty, nat_eq, refl, reverse, some, sym, text_beq_iff,
  text_eq, true, ◌++◌, ◌==◌, ◌∙◌, ◌∷◌, ◌≡◌, ◌≢◌,
}
use xrunner.Agent.Paths.{
  FilePath, checked, clean, clean_elements, clean_step, dot, dot_dot, escapes, has_prefix,
  is_rooted, join, join_path, rel, rel_rest, render, resolve_under, resolved, slash, split_path,
  strip_common,
}
use mathlib.Core.List.{[], reverse-cons, reverse-append, reverse-reverse}

-- An element that Clean keeps.
abbrev pub IsName : Text → Type 0
IsName e =
    (is_empty e ≡ false) × ((e == dot) ≡ false) × ((e == dot_dot) ≡ false) × All (λ c. c ≢ slash) e

split_path-cons : (s : Text) → (p : Text) × (ps : List Text) × (split_path s ≡ p ∷ ps)
unfolding split_path
split_path-cons [] = ([], [], refl)
split_path-cons (c ∷ s) =
    let (p, ps, e) = split_path-cons s in
    elim (Bool-cases (eqb c slash)) [
      | inl q ↦ ([], split_path s, rw q refl)
      | inr q ↦ (c ∷ p, ps, rw (q, e) refl)
    ]

split_path-append : (a b : Text) → split_path (a ++ slash ∷ b) ≡ split_path a ++ split_path b
unfolding split_path
split_path-append [] b = refl
split_path-append (c ∷ a) b = elim (Bool-cases (eqb c slash)) [
  | inl q ↦ rw (q, split_path-append a b) refl
  | inr q ↦ let (p, ps, e) = split_path-cons a in rw (q, split_path-append a b) (rw e refl)
]

split_path-name : (e : Text) → All (λ c. c ≢ slash) e → split_path e ≡ e ∷ []
unfolding split_path
split_path-name [] h = refl
split_path-name (c ∷ e) h =
    let q : eqb c slash ≡ false = ground (arith, h.0) in rw (q, split_path-name e h.1) refl

-- The elements of a text that was joined from names.
split_path-join_path :
    (e : Text) (es : List Text) → All IsName (e ∷ es) → split_path (join_path (e ∷ es)) ≡ e ∷ es
unfolding join_path
split_path-join_path e [] h = split_path-name e h.0.3
split_path-join_path e (f ∷ es) h =
    split_path-append e (join_path (f ∷ es))
    ∙ ap (λ l. l ++ split_path (join_path (f ∷ es))) (split_path-name e h.0.3)
    ∙ ap (λ l. e ∷ l) (split_path-join_path f es h.1)

clean_step-name :
    (rooted : Bool) (out : List Text) (e : Text) → IsName e → clean_step rooted out e ≡ e ∷ out
clean_step-name rooted out e h = rw (h.0, h.1, h.2) refl

-- Names are put on the elements so far.
clean_elements-names :
    (rooted : Bool) (out es rest : List Text)
    → All IsName es
    → clean_elements rooted out (es ++ rest) ≡ clean_elements rooted (reverse es ++ out) rest
unfolding clean_elements
clean_elements-names rooted out [] rest h = refl
clean_elements-names rooted out (e ∷ es) rest h =
    ap (λ o. clean_elements rooted o (es ++ rest)) (clean_step-name rooted out e h.0)
    ∙ clean_elements-names rooted (e ∷ out) es rest h.1
    ∙ ap (λ l. clean_elements rooted l rest)
        (sym (append_assoc (reverse es) (e ∷ []) out)
          ∙ ap (λ l. l ++ out) (sym (reverse-cons e es)))

clean_joined :
    (es rest : List Text)
    → All IsName es
    → clean_elements true [] (split_path (join_path es) ++ rest)
      ≡ clean_elements true (reverse es) rest
unfolding clean_elements join_path split_path
clean_joined [] rest h = refl
clean_joined (e ∷ es) rest h =
    ap (λ l. clean_elements true [] (l ++ rest)) (split_path-join_path e es h)
    ∙ clean_elements-names true [] (e ∷ es) rest h
    ∙ ap (λ l. clean_elements true l rest) (append-nil (reverse (e ∷ es)))

-- A path below a directory, both made of names.
clean-names :
    (es : List Text) (f : Text) (fs : List Text)
    → All IsName es
    → All IsName (f ∷ fs)
    → clean_elements true [] (split_path (slash ∷ (join_path es ++ slash ∷ join_path (f ∷ fs))))
      ≡ es ++ f ∷ fs
unfolding clean_elements split_path
clean-names es f fs h k =
    let names = f ∷ fs in
    ap (clean_elements true []) (split_path-append (join_path es) (join_path names))
    ∙ ap (λ l. clean_elements true [] (split_path (join_path es) ++ l))
        (split_path-join_path f fs k)
    ∙ clean_joined es names h
    ∙ ap (clean_elements true (reverse es)) (sym (append-nil names))
    ∙ clean_elements-names true (reverse es) names [] k
    ∙ ap reverse (sym (reverse-append es names))
    ∙ reverse-reverse (es ++ names)

join-names :
    (root : FilePath) (f : Text) (fs : List Text)
    → root.rooted ≡ true
    → All IsName root.elements
    → All IsName (f ∷ fs)
    → join (render root) (join_path (f ∷ fs))
      ≡ record { rooted = true; elements = root.elements ++ f ∷ fs }
unfolding join render clean
join-names root f fs r h k =
    rw r (ap (λ es. record { rooted = true; elements = es }) (clean-names root.elements f fs h k))

strip_common-append : (es ts : List Text) → strip_common es (es ++ ts) ≡ ([], ts)
unfolding strip_common
strip_common-append [] ts = refl
strip_common-append (e ∷ es) ts = rw (==-self e) (strip_common-append es ts)

has_prefix-append : (s p : Text) → has_prefix s p ≡ true → (t : Text) × (s ≡ p ++ t)
has_prefix-append s [] h = (s, refl)
has_prefix-append [] (c ∷ p) h = absurd (false≢true h)
has_prefix-append (d ∷ s) (c ∷ p) h = elim (Bool-cases (eqb d c)) [
  | inl q ↦
      let (t, e) = has_prefix-append s p (rw q at h) in
      (t, rw ((eqb_iff d c).0 q) (ap (λ l. c ∷ l) e))
  | inr q ↦ absurd (false≢true (rw q at h))
]

abbrev head_of : List Text → Text
head_of [] = []
head_of (e ∷ es) = e

not_up : (f : Text) → IsName f → f ≢ dot_dot
not_up f h e = false≢true (sym h.2 ∙ (text_beq_iff f dot_dot).1 e)

-- Names joined do not begin with an element `..`.
join_path-inside :
    (f : Text) (fs : List Text) → All IsName (f ∷ fs) → escapes (join_path (f ∷ fs)) ≡ false
unfolding split_path
join_path-inside f fs k = elim (Bool-cases (join_path (f ∷ fs) == dot_dot)) [
  | inl q ↦
      let whole : f ∷ fs ≡ split_path dot_dot =
        sym (split_path-join_path f fs k)
        ∙ ap split_path ((text_beq_iff (join_path (f ∷ fs)) dot_dot).0 q) in
      absurd (not_up f k.0 (ap head_of whole ∙ refl))
  | inr q ↦ rw q (elim (Bool-cases (has_prefix (join_path (f ∷ fs)) (46 ∷ 46 ∷ slash ∷ []))) [
    | inr p ↦ p
    | inl p ↦
        let (t, e) = has_prefix-append (join_path (f ∷ fs)) (46 ∷ 46 ∷ slash ∷ []) p in
        let whole : f ∷ fs ≡ split_path (dot_dot ++ slash ∷ t) =
          sym (split_path-join_path f fs k) ∙ ap split_path e in
        absurd (not_up f k.0 (ap head_of whole))
  ])
]

join_path-relative :
    (f : Text) (fs : List Text) → All IsName (f ∷ fs) → is_rooted (join_path (f ∷ fs)) ≡ false
unfolding join_path
join_path-relative [] fs k = absurd (false≢true (sym k.0.0))
join_path-relative (c ∷ f) [] k = ground (arith, k.0.3.0)
join_path-relative (c ∷ f) (g ∷ fs) k = ground (arith, k.0.3.0)

rel-below :
    (root abs : FilePath) (f : Text) (fs : List Text)
    → root.rooted ≡ true
    → abs ≡ record { rooted = true; elements = root.elements ++ f ∷ fs }
    → rel root abs ≡ some (join_path (f ∷ fs))
unfolding rel
rel-below root abs f fs r e =
    ap (rel root) e ∙ rw r (ap rel_rest (strip_common-append root.elements (f ∷ fs)))

-- Under a workspace root that begins at `/` and is made of names, the part of resolveSessionWorkdir for a
-- cwd that is not blank accepts every cwd that is written as names with slashes between them, and gives the root's elements with
-- those behind them. A name is not empty, not `.` and not `..`, and has no slash.
pub resolve_under-accepts :
    (root : FilePath) (f : Text) (fs : List Text)
    → root.rooted ≡ true
    → All IsName root.elements
    → All IsName (f ∷ fs)
    → resolve_under root (join_path (f ∷ fs))
      ≡ resolved (record { rooted = true; elements = root.elements ++ f ∷ fs })
unfolding resolve_under
resolve_under-accepts root f fs r h k =
    let cwd = join_path (f ∷ fs) in
    let abs = join (render root) cwd in
    let here : abs ≡ record { rooted = true; elements = root.elements ++ f ∷ fs } =
      join-names root f fs r h k in
    let found : rel root abs ≡ some cwd = rel-below root abs f fs r here in
    rw (join_path-relative f fs k) (
      ap (checked (codes "invalid cwd") (codes "cwd escapes workspace root") abs) found
      ∙ rw (join_path-inside f fs k) (ap resolved here))
