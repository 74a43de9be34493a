-- ===== src/Shell/Queries/Matches.antt =====
-- The matches that SearchShell answers with.
use xrunner.Base.{
  All, All-append, Bool-cases, List, Text, [], arith, if◌then◌else◌, inl, inr, leb, length,
  length-append, refl, suc, trim_space, zero, ℕ, ◌-◌, ◌∷◌, ◌≡◌, ◌≤◌,
}
use xrunner.Session.Delimited.RoundTrip.{bound}
use xrunner.Shell.Queries.{
  Match, ShellCommandRecord, ShellSearchRequest, allowed, last_records, limit_of, named_hits,
  narrowed, no_command, search_allowed, search_end, search_matches, search_records, search_start,
}
use xrunner.Shell.Search.{Hit, search_log_range}
use xrunner.Shell.Search.Soundness.{IsHit, search_log_range-AreHits}
use Prim.Native.Nat.{max, min}

module _ (file : List ℕ) (query : List ℕ) (start : ℕ) (end : ℕ) where
  -- The matches are hits in the range, and no more than there is room for.
  abbrev pub AreMatches : ℕ → List Match → Type 0
  AreMatches room ms = All (λ m. IsHit file query start end m.1) ms × (length ms ≤ room)

  wider :
      (cid : Text) (a b : ℕ) (hits : List Hit)
      → start ≤ a
      → b ≤ end
      → All (IsHit file query a b) hits
      → All (λ m. IsHit file query start end m.1) (named_hits cid hits)
        × (length (named_hits cid hits) ≡ length hits)
  wider cid a b [] h k all = (tt, refl)
  wider cid a b ((off, snip) ∷ hits) h k ((is, lo, hi), all) =
      let (w, e) = wider cid a b hits h k all in
      (((is, omega arith, omega arith), w), omega (arith, e))

  search_records-AreMatches :
      (context_bytes : ℕ) (rs : List ShellCommandRecord) (room : ℕ)
      → AreMatches room (search_records file query start end context_bytes rs room)
  unfolding search_records
  search_records-AreMatches context_bytes [] room = (tt, omega arith)
  search_records-AreMatches context_bytes (r ∷ rs) room =
      let a = max start r.begin_offset in
      let b = min end r.end_offset in
      elim (Bool-cases (leb b a)) [
        | inl q ↦ rw q (search_records-AreMatches context_bytes rs room)
        | inr q ↦
            let hits = search_log_range file query a b context_bytes room in
            let (all, fits) = search_log_range-AreHits file query a b context_bytes room in
            let (w, e) = wider r.command_id a b hits (omega arith) (omega arith) all in
            elim (Bool-cases (leb room (length hits))) [
              | inl l ↦
                  rw (q, l)
                    (
                      All-append (λ m. IsHit file query start end m.1)
                          (named_hits r.command_id hits) [] w tt,
                      omega (arith, length-append (named_hits r.command_id hits) [], e, fits),
                    )
              | inr l ↦
                  let (w', fits') =
                    search_records-AreMatches context_bytes rs (room - length hits) in
                  let more =
                    search_records file query start end context_bytes rs (room - length hits) in
                  rw (q, l)
                    (
                      All-append (λ m. IsHit file query start end m.1)
                          (named_hits r.command_id hits) more w w',
                      omega (
                        arith,
                        length-append (named_hits r.command_id hits) more,
                        e,
                        fits,
                        fits',
                      ),
                    )
            ]
      ]

  search_allowed-AreMatches :
      (context_bytes : ℕ) (rs : List ShellCommandRecord) (room : ℕ)
      → AreMatches room (search_allowed file query start end context_bytes rs room)
  unfolding search_allowed
  search_allowed-AreMatches context_bytes [] room =
      let (all, fits) = search_log_range-AreHits file query start end context_bytes room in
      let (w, e) =
        wider [] start end (search_log_range file query start end context_bytes room) (omega arith)
          (omega arith) all in
      (w, omega (arith, e, fits))
  search_allowed-AreMatches context_bytes (r ∷ rs) room =
      search_records-AreMatches context_bytes (r ∷ rs) room

limit_of-bound : (default bound n : ℕ) → default ≤ bound → limit_of default bound n ≤ bound
limit_of-bound default bound zero h = h
limit_of-bound default bound (suc n) h = omega arith

-- Whatever the request and the timeline are, SearchShell answers with at most 500 matches, and at
-- each match's offset, which is in the requested range of the log, the log has the query.
pub search_matches-AreMatches :
    (req : ShellSearchRequest) (all : List ShellCommandRecord) (file : List ℕ)
    → AreMatches file req.query
        (search_start req (length file))
        (search_end req (length file))
        500
        (search_matches req all file)
unfolding search_matches
search_matches-AreMatches req all file =
    let cid = trim_space req.command_id in
    let picked = if narrowed req cid then allowed req cid (last_records 5000 all) else [] in
    elim (Bool-cases (no_command cid picked)) [
      | inl q ↦ rw q (tt, omega arith)
      | inr q ↦
          let (w, fits) =
            search_allowed-AreMatches file req.query (search_start req (length file))
              (search_end req (length file)) (limit_of 80 4096 req.context_bytes) picked
              (limit_of 50 500 req.max_matches) in
          rw q (w, omega (arith, fits, limit_of-bound 50 500 req.max_matches (omega arith)))
    ]
