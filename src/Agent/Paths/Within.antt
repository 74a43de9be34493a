-- ===== src/Agent/Paths/Within.antt =====
-- A path that is accepted lies under the workspace root.
use xrunner.Base.{
  Bool-cases, List, Option, Text, [], ap, append-nil, codes, false, false≢true, get_or, inl, inr,
  is_empty, nat_eq, none, refl, some, subst, sym, text_beq, text_beq_iff, text_eq, trim_space, true,
  ◌++◌, ◌==◌, ◌∙◌, ◌∷◌, ◌≡◌,
}
use xrunner.Agent.Paths.{
  FilePath, Resolved, checked, clean, dot_dot, escapes, is_rooted, join, join_path, or_root,
  refused, rel, rel_rest, render, resolve_session_workdir, resolve_under, resolve_write_path,
  resolved, strip_common, ups, write_under,
}

-- The path is the root with further elements below it.
abbrev pub Under : FilePath → FilePath → Type 0
Under root p =
    (p.rooted ≡ root.rooted) × ((below : List Text) × (p.elements ≡ root.elements ++ below))

strip_common-prefix : (bs ts rest : List Text) → strip_common bs ts ≡ ([], rest) → ts ≡ bs ++ rest
unfolding strip_common
strip_common-prefix [] ts rest e = ap (λ p. p.1) e
strip_common-prefix (b ∷ bs) [] rest e = cc
strip_common-prefix (b ∷ bs) (t ∷ ts) rest e = elim (Bool-cases (b == t)) [
  | inl q ↦
      let same : b ≡ t = (text_beq_iff b t).0 q in
      let ih = strip_common-prefix bs ts rest (rw q at e) in rw (sym same) (ap (λ l. b ∷ l) ih)
  | inr q ↦ absurd (cc (rw q at e))
]

-- A path to elements above the base begins with `..`.
up-escapes : (es : List Text) → escapes (join_path (dot_dot ∷ es)) ≡ true
unfolding join_path text_beq
up-escapes [] = refl
up-escapes (e ∷ es) = refl

rel_rest-within :
    (p : List Text × List Text) (r : Text) → rel_rest p ≡ some r → escapes r ≡ false → p.0 ≡ []
rel_rest-within ([], ts) r e h = refl
rel_rest-within (b ∷ bs, ts) r e h = elim (Bool-cases (b == dot_dot)) [
  | inl q ↦ absurd (cc (rw q at e))
  | inr q ↦ absurd (
      false≢true
        (sym h ∙ ap escapes (sym (ap (λ o. get_or o []) (rw q at e))) ∙ up-escapes (ups bs ++ ts)))
]

rel-Under :
    (root abs : FilePath) (r : Text) → rel root abs ≡ some r → escapes r ≡ false → Under root abs
unfolding rel
rel-Under root abs r e h =
    let p = strip_common root.elements abs.elements in
    let below : rel_rest p ≡ some r
        → (below : List Text) × (abs.elements ≡ root.elements ++ below) =
      λ q. (
        p.1,
        strip_common-prefix root.elements abs.elements p.1
            (ap (λ bs. (bs, p.1)) (rel_rest-within p r q h)),
      ) in
    elim (Bool-cases root.rooted) [
      | inl u ↦ elim (Bool-cases abs.rooted) [
        | inl v ↦ (v ∙ sym u, below (rw (u, v) at e))
        | inr v ↦ absurd (cc (rw (u, v) at e))
      ]
      | inr u ↦ elim (Bool-cases abs.rooted) [
        | inl v ↦ absurd (cc (rw (u, v) at e))
        | inr v ↦ (v ∙ sym u, below (rw (u, v) at e))
      ]
    ]

abbrev pub path_of : Resolved → FilePath → FilePath
path_of (resolved p) q = p
path_of (refused message) q = q

checked-Under :
    (invalid outside : Text) (root abs p : FilePath) (o : Option Text)
    → rel root abs ≡ o
    → checked invalid outside abs o ≡ resolved p
    → Under root p
checked-Under invalid outside root abs p none e c = absurd (cc c)
checked-Under invalid outside root abs p (some r) e c = elim (Bool-cases (escapes r)) [
  | inl q ↦ absurd (cc (rw q at c))
  | inr q ↦
      let same : abs ≡ p = ap (λ x. path_of x p) (rw q at c) in
      subst (Under root) same (rel-Under root abs r e q)
]

resolve_under-Under :
    (root p : FilePath) (cwd : Text) → resolve_under root cwd ≡ resolved p → Under root p
unfolding resolve_under
resolve_under-Under root p cwd c = elim (Bool-cases (is_rooted cwd)) [
  | inl q ↦ absurd (cc (rw q at c))
  | inr q ↦
      let abs = join (render root) cwd in
      checked-Under (codes "invalid cwd") (codes "cwd escapes workspace root") root abs p
        (rel root abs) refl (rw q at c)
]

write_under-Under :
    (root p : FilePath) (path : Text) → write_under root path ≡ resolved p → Under root p
unfolding write_under
write_under-Under root p path c = elim (Bool-cases (is_rooted path)) [
  | inl q ↦ absurd (cc (rw q at c))
  | inr q ↦
      let abs = join (render root) path in
      checked-Under (codes "invalid path") (codes "path escapes workspace root") root abs p
        (rel root abs) refl (rw q at c)
]

-- Whatever directory a tool call asks for, a directory that resolveSessionWorkdir accepts for a
-- session is its workspace root or lies, by its elements, under it.
pub resolve_session_workdir-Under :
    (workspace_root cwd : Text) (p : FilePath)
    → resolve_session_workdir (some workspace_root) cwd ≡ resolved p
    → Under (clean (or_root (trim_space workspace_root))) p
unfolding resolve_session_workdir
resolve_session_workdir-Under workspace_root cwd p c =
    let root = clean (or_root (trim_space workspace_root)) in
    elim (Bool-cases (is_empty (trim_space cwd))) [
      | inl q ↦
          let same : root ≡ p = ap (λ x. path_of x p) (rw q at c) in
          subst (Under root) same (refl, ([], sym (append-nil root.elements)))
      | inr q ↦ resolve_under-Under root p cwd (rw q at c)
    ]

-- Whatever path a tool call gives, a path that write_file_atomic accepts for a session is the session's
-- workspace root or lies, by its elements, under it.
pub resolve_write_path-Under :
    (workspace_root path : Text) (p : FilePath)
    → resolve_write_path (some workspace_root) path ≡ resolved p
    → Under (clean (or_root workspace_root)) p
unfolding resolve_write_path
resolve_write_path-Under workspace_root path p c =
    let root = clean (or_root workspace_root) in
    elim (Bool-cases (is_empty (trim_space path))) [
      | inl q ↦ absurd (cc (rw q at c))
      | inr q ↦ write_under-Under root p (trim_space path) (rw q at c)
    ]
