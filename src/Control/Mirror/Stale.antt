-- ===== src/Control/Mirror/Stale.antt =====
-- applyReplayedJob keeps the largest version, but the job that was replayed last.
use xrunner.Base.{
  Text, ap, arith, false, get_or, if◌then◌else◌, ltb, nat_eq, some, text_eq, true, ℕ, ◌<◌, ◌∙◌, ◌≡◌,
}
use xrunner.Base.Dict.{Dict, insert, lookup, lookup-insert_self}
use xrunner.Control.Store.Defs.{Store, apply_replayed_job, compound_key, counter, get}
use xrunner.Control.Types.{Job, JobRef}

version_kept :
    (key : Text) (v w : ℕ) (versions : Dict Text ℕ)
    → v < w
    → counter key versions ≡ w
    → counter key (if ltb (counter key versions) v then insert key v versions else versions) ≡ w
version_kept key v w versions lt e =
    let not_newer : ltb (counter key versions) v ≡ false = ground (arith, e) in rw not_newer e

version_raised :
    (key : Text) (w : ℕ) (versions : Dict Text ℕ)
    → counter key versions < w
    → counter key (if ltb (counter key versions) w then insert key w versions else versions) ≡ w
version_raised key w versions lt =
    let newer : ltb (counter key versions) w ≡ true = ground arith in
    rw newer (ap (λ o. get_or o 0) (lookup-insert_self key w versions))

-- Where an update of a job is replayed behind one of a later version, which is itself later than
-- the store's version of the job, the store is left with the older job and the later version.
pub replay_stale :
    (ref : JobRef) (new old : Job) (v w : ℕ) (s : Store)
    → new.ref ≡ some ref
    → old.ref ≡ some ref
    → v < w
    → counter (compound_key (some ref)) s.job_versions < w
    → let t = apply_replayed_job old v (apply_replayed_job new w s) in
      (get (some ref) t ≡ some old) × (counter (compound_key (some ref)) t.job_versions ≡ w)
unfolding apply_replayed_job get
replay_stale ref new old v w s f g lt fresh =
    let key = compound_key (some ref) in
    let e_new : compound_key new.ref ≡ key = ap compound_key f in
    let e_old : compound_key old.ref ≡ key = ap compound_key g in
    let bump : Text → ℕ → Dict Text ℕ → Dict Text ℕ =
      λ k n m. if ltb (counter k m) n then insert k n m else m in
    (
      ap (λ k. lookup key (insert k old (insert (compound_key new.ref) new s.jobs))) e_old
          ∙ lookup-insert_self key old (insert (compound_key new.ref) new s.jobs),
      ap (λ k. counter key (bump (compound_key old.ref) v (bump k w s.job_versions))) e_new
          ∙ ap (λ k. counter key (bump k v (bump key w s.job_versions))) e_old
          ∙ version_kept key v w (bump key w s.job_versions) lt
              (version_raised key w s.job_versions fresh),
    )
