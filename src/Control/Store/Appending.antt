-- ===== src/Control/Store/Appending.antt =====
-- What AppendLogs does to the store: the log of the job grows by the numbered chunks, and they are
-- handed to the mirror.
use xrunner.Base.{
  Bool, Bool-cases, List, Returns, Returns-bind, Text, [], ap, append-nil, arith, false, get_or,
  if◌then◌else◌, inl, inr, length, length-append, map, refl, some, suc, sym, text_beq_iff, true, ℕ,
  ◌++◌, ◌+◌, ◌<◌, ◌==◌, ◌^◌, ◌∙◌, ◌∷◌, ◌≡◌, nat_eq, text_eq,
}
use xrunner.Base.Dict.{Dict, insert, lookup, lookup-insert}
use xrunner.Control.Types.{JobRef, LogChunk}
use xrunner.Control.Store.Sound.{
  IsSound, OnlyChans, broadcast_locked-IsSound, number_chunks-IsSound,
}
use xrunner.Control.Store.Numbering.{
  OnlyOffsets, counter-number_chunks, number_chunks-OnlyOffsets, number_chunks-eq-numbered,
  numbered,
}
use xrunner.Control.Store.Defs.{
  Store, append_logs, append_numbered, broadcast_locked, compound_key, counter, log_event, logs_of,
  mirror_logs, number_chunks,
}

-- `t` is `s` after the chunks `xs` were appended to the log of `ref`, which had `n` chunks.
pub record Grown (ref : JobRef) (n : ℕ) (xs : List LogChunk) (s t : Store) : Type 0 where
  pub logs_grow :
      (j : Text)
      → logs_of j t
        ≡ (if compound_key (some ref) == j then logs_of j s ++ numbered n xs else logs_of j s)
  pub counters_grow :
      (j : Text)
      → counter j t.log_offsets
        ≡ (if compound_key (some ref) == j then n + length xs else counter j s.log_offsets)
  pub jobs_kept : t.jobs ≡ s.jobs
  pub versions_kept : t.job_versions ≡ s.job_versions

-- … and the new chunks were handed to the mirror.
pub record Appended (ref : JobRef) (n : ℕ) (xs : List LogChunk) (s t : Store) : Type 0 where
  pub grown : Grown ref n xs s t
  pub open grown use *
  pub mirrored : t.js ≡ mirror_logs (map (log_event ref) (numbered n xs)) s.js

pub logs_of-insert :
    (key j : Text) (v : List LogChunk) (m : Dict Text (List LogChunk))
    → get_or (lookup j (insert key v m)) [] ≡ (if key == j then v else get_or (lookup j m) [])
logs_of-insert key j v m = rw lookup-insert (ground arith)

pub logs_of_grown :
    (key j : Text) (ys : List LogChunk) (m : Dict Text (List LogChunk))
    → get_or (lookup j (insert key (get_or (lookup key m) [] ++ ys) m)) []
      ≡ (if key == j then get_or (lookup j m) [] ++ ys else get_or (lookup j m) [])
logs_of_grown key j ys m =
    logs_of-insert key j (get_or (lookup key m) [] ++ ys) m ∙ elim (Bool-cases (key == j)) [
      | inl q ↦ rw q (ap (λ i. get_or (lookup i m) [] ++ ys) ((text_beq_iff key j).0 q))
      | inr q ↦ rw q
    ]

-- Under the wrap-around of the counter, AppendLogs succeeds, numbers the chunks on from the last
-- one, and changes no other log, no job, and no version.
pub append_numbered-Appended :
    (ref : JobRef) (n : ℕ) (xs : List LogChunk) (s : Store)
    → IsSound s
    → counter (compound_key (some ref)) s.log_offsets ≡ n
    → n + length xs < 2 ^ 64
    → Returns (λ t. IsSound t × Appended ref n xs s t) (append_numbered ref xs s)
unfolding append_numbered
append_numbered-Appended ref n xs s h e b =
    let key = compound_key (some ref) in
    let t = (number_chunks key xs s).0 in
    let copied = (number_chunks key xs s).1 in
    let k : IsSound t = number_chunks-IsSound key xs s h in
    let only : OnlyOffsets s t = number_chunks-OnlyOffsets key xs s in
    let same : copied ≡ numbered n xs = number_chunks-eq-numbered key n xs s e b in
    let u = record t { logs = insert key (logs_of key t ++ copied) t.logs } in
    Returns-bind (λ v. IsSound v × OnlyChans u v) (λ t'. IsSound t' × Appended ref n xs s t')
      (broadcast_locked key copied u) _
      (broadcast_locked-IsSound key copied u
        (record { unique = k.unique; live = k.live; fresh = k.fresh }))
      λ v p. (
        record v { js = mirror_logs (map (log_event ref) copied) v.js },
        refl,
        (
          record { unique = p.0.unique; live = p.0.live; fresh = p.0.fresh },
          record {
            grown = record {
              logs_grow = λ j.
                  ap (λ (w : Store). logs_of j w) p.1
                  ∙ logs_of_grown key j copied t.logs
                  ∙ cc (same, ap (λ (w : Store). w.logs) only);
              counters_grow = λ j.
                  ap (λ (w : Store). counter j w.log_offsets) p.1
                  ∙ counter-number_chunks key j n xs s e b;
              jobs_kept = ap (λ (w : Store). w.jobs) p.1 ∙ ap (λ (w : Store). w.jobs) only;
              versions_kept =
                  ap (λ (w : Store). w.job_versions) p.1 ∙ ap (λ (w : Store). w.job_versions) only;
            };
            mirrored = cc (same, ap (λ (w : Store). w.js) p.1, ap (λ (w : Store). w.js) only);
          },
        ),
      )

kept_log : (b : Bool) (l : List LogChunk) → l ≡ (if b then l ++ [] else l)
kept_log true l = rw append-nil
kept_log false l = refl

pub Grown-nil :
    (ref : JobRef) (n : ℕ) (s : Store)
    → counter (compound_key (some ref)) s.log_offsets ≡ n
    → Grown ref n [] s s
Grown-nil ref n s e = record {
  logs_grow = λ j. kept_log (compound_key (some ref) == j) (logs_of j s);
  counters_grow = λ j. elim (Bool-cases (compound_key (some ref) == j)) [
    | inl q ↦
        let same : counter j s.log_offsets ≡ n =
          ap (λ i. counter i s.log_offsets) (sym ((text_beq_iff _ j).0 q)) ∙ e in
        rw q (omega (arith, same))
    | inr q ↦ rw q
  ];
  jobs_kept = refl;
  versions_kept = refl;
}

pub append_logs-Grown :
    (ref : JobRef) (n : ℕ) (xs : List LogChunk) (s : Store)
    → IsSound s
    → counter (compound_key (some ref)) s.log_offsets ≡ n
    → n + length xs < 2 ^ 64
    → Returns (λ t. IsSound t × Grown ref n xs s t) (append_logs (some ref) xs s)
unfolding append_logs
append_logs-Grown ref n [] s h e b = (s, refl, (h, Grown-nil ref n s e))
append_logs-Grown ref n (x ∷ xs) s h e b =
    let (t, q, p) = append_numbered-Appended ref n (x ∷ xs) s h e b in (t, q, (p.0, p.1.grown))

-- The chunks of every log are numbered from 1 without a gap, and each counter is the number of
-- chunks that were recorded.
pub record IsNumbered (s : Store) : Type 0 where
  pub offsets : (key : Text) → logs_of key s ≡ numbered 0 (logs_of key s)
  pub counted : (key : Text) → counter key s.log_offsets ≡ length (logs_of key s)

pub numbered-append :
    (n : ℕ) (xs ys : List LogChunk)
    → numbered n (xs ++ ys) ≡ numbered n xs ++ numbered (n + length xs) ys
numbered-append n [] ys = ap (λ m. numbered m ys) (omega arith)
numbered-append n (x ∷ xs) ys =
    let e : n + 1 + length xs ≡ n + suc (length xs) = omega arith in
    cc (numbered-append (n + 1) xs ys, e)

numbered_again : (m n : ℕ) (xs : List LogChunk) → numbered m (numbered n xs) ≡ numbered m xs
numbered_again m n [] = refl
numbered_again m n (x ∷ xs) = cc (numbered_again (m + 1) (n + 1) xs)

length-numbered : (n : ℕ) (xs : List LogChunk) → length (numbered n xs) ≡ length xs
length-numbered n [] = refl
length-numbered n (x ∷ xs) = ap suc (length-numbered (n + 1) xs)

-- A numbered list stays numbered when it grows by chunks that are numbered on from its length.
numbered_grown :
    (n : ℕ) (l xs : List LogChunk)
    → l ≡ numbered 0 l
    → n ≡ length l
    → (l ++ numbered n xs ≡ numbered 0 (l ++ numbered n xs))
      × (n + length xs ≡ length (l ++ numbered n xs))
numbered_grown n l xs e q =
    let m : 0 + length l ≡ n = omega arith in
    let again : numbered (0 + length l) (numbered n xs) ≡ numbered n xs =
      numbered_again (0 + length l) n xs ∙ ap (λ k. numbered k xs) m in
    (
      cc (e, numbered-append 0 l (numbered n xs), again),
      omega (arith, length-append l (numbered n xs), length-numbered n xs),
    )

pub Grown-IsNumbered :
    (ref : JobRef) (n : ℕ) (xs : List LogChunk) (s t : Store)
    → IsNumbered s
    → counter (compound_key (some ref)) s.log_offsets ≡ n
    → Grown ref n xs s t
    → IsNumbered t
Grown-IsNumbered ref n xs s t h e a =
    let key = compound_key (some ref) in
    let both : (j : Text)
        → (logs_of j t ≡ numbered 0 (logs_of j t))
          × (counter j t.log_offsets ≡ length (logs_of j t)) =
      λ j. elim (Bool-cases (key == j)) [
        | inl q ↦
            let grown : logs_of j t ≡ logs_of j s ++ numbered n xs = a.logs_grow j ∙ rw q in
            let more : counter j t.log_offsets ≡ n + length xs = a.counters_grow j ∙ rw q in
            let same : counter j s.log_offsets ≡ n =
              ap (λ i. counter i s.log_offsets) (sym ((text_beq_iff key j).0 q)) ∙ e in
            let (l, m) = numbered_grown n (logs_of j s) xs (h.offsets j) (sym same ∙ h.counted j) in
            (rw grown l, rw grown (more ∙ m))
        | inr q ↦
            let kept : logs_of j t ≡ logs_of j s = a.logs_grow j ∙ rw q in
            let still : counter j t.log_offsets ≡ counter j s.log_offsets =
              a.counters_grow j ∙ rw q in
            (rw kept (h.offsets j), rw kept (still ∙ h.counted j))
      ] in
    record { offsets = λ j. (both j).0; counted = λ j. (both j).1 }
