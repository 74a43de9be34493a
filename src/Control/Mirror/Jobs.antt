-- ===== src/Control/Mirror/Jobs.antt =====
-- Replaying the job events gives the jobs and versions of the store that published them.
use xrunner.Base.{
  Text, arith, if◌then◌else◌, ltb, some, ℕ, ◌+◌, ◌<◌, ◌==◌, ◌^◌, ◌∙◌, ◌≡◌, nat_eq, text_eq,
}
use xrunner.Base.Dict.{Dict, insert, lookup, lookup-insert}
use xrunner.Control.Types.{Job}
use xrunner.Control.Store.Numbering.{counter-insert}
use xrunner.Control.Store.Defs.{Store, apply_replayed_job, compound_key, counter, put, u64}

pub record SameJobs (r s : Store) : Type 0 where
  pub jobs : (key : Text) → lookup key r.jobs ≡ lookup key s.jobs
  pub versions : (key : Text) → counter key r.job_versions ≡ counter key s.job_versions

pub replayed_version :
    (key j : Text) (v : ℕ) (m : Dict Text ℕ)
    → counter key m < v
    → counter j (if ltb (counter key m) v then insert key v m else m)
      ≡ (if key == j then v else counter j m)
replayed_version key j v m h = counted (counter-insert key j v m)
  where
    counted :
        counter j (insert key v m) ≡ (if key == j then v else counter j m)
        → counter j (if ltb (counter key m) v then insert key v m else m)
          ≡ (if key == j then v else counter j m)
    counted e = ground arith

-- One more Put, and its event replayed.
pub put-SameJobs :
    (job : Job) (r s : Store)
    → counter (compound_key job.ref) s.job_versions + 1 < 2 ^ 64
    → SameJobs r s
    → SameJobs
        (apply_replayed_job job (u64 (counter (compound_key job.ref) s.job_versions + 1)) r)
        (put (some job) s)
unfolding apply_replayed_job put
put-SameJobs job r s b h =
    let key = compound_key job.ref in
    let v = u64 (counter key s.job_versions + 1) in
    let newer : counter key r.job_versions < v = rw (h.versions key) (omega arith) in
    record {
      jobs = λ j. lookup-insert key j job r.jobs ∙ cc (h.jobs j, lookup-insert key j job s.jobs);
      versions = λ j.
          replayed_version key j v r.job_versions newer
          ∙ cc (h.versions j, counter-insert key j v s.job_versions);
    }
