-- ===== src/Control/Tests/Sorting.antt =====
-- A sort by insertion that does what `sort.Slice` promises.
use xrunner.Base.{
  All, Bool, Bool-cases, List, Text, [], codes, false, if◌then◌else◌, inl, inr, nat_eq, none, refl,
  some, text_beq, text_eq, true, ℕ, ◌∷◌, ◌≡◌,
}
use xrunner.Base.Dict.{insert}
use xrunner.Control.JobSvc.Listing.{
  HasTime, IsByTime, IsOrder, IsSort, IsSortedBy, list, list_sound, of_tenant, same_text,
}
use xrunner.Control.Store.Defs.{Store, compound_key, empty, put}
use xrunner.Control.Types.{Job, JobState, pos}
use mathlib.Core.List.{Perm}
use mathlib.Core.List.Perm

unfoldable insert_by : (Job → Job → Bool) → Job → List Job → List Job
insert_by less x [] = x ∷ []
insert_by less x (y ∷ ys) =
    let rest = insert_by less x ys in if less y x then y ∷ rest else x ∷ y ∷ ys

unfoldable insertion_sort : (Job → Job → Bool) → List Job → List Job
unfolding insert_by
insertion_sort less [] = []
insertion_sort less (x ∷ xs) = insert_by less x (insertion_sort less xs)

insert_by-perm :
    (less : Job → Job → Bool) (x : Job) (ys : List Job) → Perm (insert_by less x ys) (x ∷ ys)
unfolding insert_by
insert_by-perm less x [] = Perm.refl _
insert_by-perm less x (y ∷ ys) =
    elim (less y x)
      as (λ b. Perm (if b then y ∷ insert_by less x ys else x ∷ y ∷ ys) (x ∷ y ∷ ys)) [
        | true ↦ Perm.trans (Perm.cons y (insert_by-perm less x ys)) (Perm.swap x y ys)
        | false ↦ Perm.refl _
      ]

insertion_sort-perm : (less : Job → Job → Bool) (xs : List Job) → Perm (insertion_sort less xs) xs
unfolding insertion_sort
insertion_sort-perm less [] = Perm.refl _
insertion_sort-perm less (x ∷ xs) =
    Perm.trans (insert_by-perm less x (insertion_sort less xs))
      (Perm.cons x (insertion_sort-perm less xs))

-- `y` may stand before the list.
abbrev MayPrecede : (Job → Job → Bool) → Job → List Job → Type 0
MayPrecede less y [] = Unit
MayPrecede less y (z ∷ zs) = less z y ≡ false

module _ (P : Job → Type 0) (less : Job → Job → Bool) (order : IsOrder P less) where
  sorted_cons :
      (y : Job) (zs : List Job)
      → MayPrecede less y zs
      → IsSortedBy less zs
      → IsSortedBy less (y ∷ zs)
  sorted_cons y [] m h = tt
  sorted_cons y (z ∷ zs) m h = (m, h)

  sorted_tail :
      (y : Job) (zs : List Job)
      → IsSortedBy less (y ∷ zs)
      → MayPrecede less y zs × IsSortedBy less zs
  sorted_tail y [] h = (tt, tt)
  sorted_tail y (z ∷ zs) h = h

  insert_by-IsSortedBy :
      (x : Job) (ys : List Job)
      → P x
      → All P ys
      → IsSortedBy less ys
      → All P (insert_by less x ys)
        × IsSortedBy less (insert_by less x ys)
        × ((y : Job)
            → P y
            → less y x ≡ true
            → MayPrecede less y ys
            → MayPrecede less y (insert_by less x ys))
  unfolding insert_by
  insert_by-IsSortedBy x [] p all h = ((p, tt), tt, λ y q before m. order.asym y x q p before)
  insert_by-IsSortedBy x (y ∷ ys) p (q, all) h =
      let (m, t) = sorted_tail y ys h in
      let (kept, sorted, keeps) = insert_by-IsSortedBy x ys p all t in
      elim (Bool-cases (less y x)) [
        | inl e ↦ rw e (
          (q, kept),
          sorted_cons y (insert_by less x ys) (keeps y q e m) sorted,
          λ z r before n. n,
        )
        | inr e ↦ rw e ((p, (q, all)), (e, h), λ z r before n. order.asym z x r p before)
      ]

  insertion_sort-IsSortedBy :
      (xs : List Job)
      → All P xs
      → All P (insertion_sort less xs) × IsSortedBy less (insertion_sort less xs)
  unfolding insertion_sort
  insertion_sort-IsSortedBy [] all = (tt, tt)
  insertion_sort-IsSortedBy (x ∷ xs) (p, all) =
      let (kept, sorted) = insertion_sort-IsSortedBy xs all in
      let (k, t, f) = insert_by-IsSortedBy x (insertion_sort less xs) p kept sorted in (k, t)

insertion_sort-IsSort : IsSort insertion_sort
insertion_sort-IsSort = record {
  permutes = insertion_sort-perm;
  orders = λ P less xs order all. insertion_sort-IsSortedBy P less order xs all;
}

abbrev job_at : Text → Text → ℕ → Job
job_at tenant id time = record {
  ref = some (record { tenant_id = tenant; job_id = id });
  display_name = [];
  workload = none;
  env = [];
  state = JobState.unspecified;
  create_time = some time;
  update_time = none;
  resource = none;
  policy = none;
  exit_code = pos 0;
  status_message = [];
  sandbox = none;
}

abbrev three_jobs : Store
three_jobs = put (some (job_at (codes "acme") (codes "b") 3)) (
    put (some (job_at (codes "other") (codes "c") 2))
      (put (some (job_at (codes "acme") (codes "a") 5)) (empty none)))

three_jobs-HasTime : All HasTime (of_tenant (codes "acme") three_jobs)
unfolding put insert empty text_beq same_text compound_key
three_jobs-HasTime = ((_, refl), ((_, refl), tt))

list_sound_example :
    Perm (list insertion_sort (codes "acme") three_jobs) (of_tenant (codes "acme") three_jobs)
    × IsByTime (list insertion_sort (codes "acme") three_jobs)
list_sound_example =
    list_sound insertion_sort (codes "acme") three_jobs insertion_sort-IsSort three_jobs-HasTime
