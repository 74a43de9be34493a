-- ===== src/Control/JobSvc/Listing.antt =====
-- `List` of store.go, and `ListJobs` of service.go. `sort.Slice` is a parameter of the model: the
-- laws are what its documentation says of a comparison that is a strict weak ordering.
use xrunner.Base.{
  All, Bool, List, Option, Text, [], ap, arith, codes, eqb, false, if◌then◌else◌, ltb, map, nat_eq,
  none, refl, some, subst, sym, text_beq_iff, text_eq, true, ℕ, ◌==◌, ◌∙◌, ◌∷◌, ◌≡◌, ◌≢◌, ◌≤◌,
}
use xrunner.Base.Dict.{Dict}
use xrunner.Control.Store.Defs.{Store}
use xrunner.Control.Types.{Job, job_id_of, tenant_of}
use xrunner.Grpc.{Result, err, invalid_argument, ok}
use mathlib.Core.List.{Perm, filter}
use mathlib.Core.Logic.{ite}

-- The closure that `List` sorts by. The library compares texts byte by byte.
unfoldable pub text_lt : Text → Text → Bool
text_lt s [] = false
text_lt [] (d ∷ t) = true
text_lt (c ∷ s) (d ∷ t) = if eqb c d then text_lt s t else ltb c d

abbrev pub by_time : Option ℕ → Option ℕ → Bool → Bool
by_time none right otherwise = otherwise
by_time (some l) none otherwise = otherwise
by_time (some l) (some r) otherwise = ltb l r

unfoldable pub job_before : Job → Job → Bool
job_before a b = by_time a.create_time b.create_time (text_lt (job_id_of a.ref) (job_id_of b.ref))

-- The loop over the map: the jobs whose own reference names the tenant.
unfoldable pub tenant_jobs : Text → Dict Text Job → List Job
tenant_jobs tenant [] = []
tenant_jobs tenant ((key, job) ∷ m) =
    let rest = tenant_jobs tenant m in if tenant_of job.ref == tenant then job ∷ rest else rest

unfoldable pub list : ((Job → Job → Bool) → List Job → List Job) → Text → Store → List Job
list sort tenant s = sort job_before (tenant_jobs tenant s.jobs)

unfoldable pub list_jobs :
    ((Job → Job → Bool) → List Job → List Job) → Text → Store → Result (List Job)
unfolding list
list_jobs sort tenant s =
    if tenant == codes ""
    then err invalid_argument (codes "tenant_id is required")
    else ok (list sort tenant s)

-- A comparison is a strict weak ordering of the jobs with `P`.
pub record IsOrder (P : Job → Type 0) (less : Job → Job → Bool) : Type 0 where
  pub asym : (a b : Job) → P a → P b → less a b ≡ true → less b a ≡ false
  pub transitive :
      (a b c : Job) → P a → P b → P c → less a b ≡ true → less b c ≡ true → less a c ≡ true
  pub unordered :
      (a b c : Job) → P a → P b → P c → less a b ≡ false → less b c ≡ false → less a c ≡ false

-- No job is less than the one in front of it.
abbrev pub IsSortedBy : (Job → Job → Bool) → List Job → Type 0
IsSortedBy less [] = Unit
IsSortedBy less (x ∷ []) = Unit
IsSortedBy less (x ∷ y ∷ ys) = (less y x ≡ false) × IsSortedBy less (y ∷ ys)

-- What `sort.Slice` promises: the same elements, which are still those with `P` if `P` held of all,
-- and, for a strict weak ordering of them, in order.
pub record IsSort (sort : (Job → Job → Bool) → List Job → List Job) : Type 1 where
  pub permutes : (less : Job → Job → Bool) (xs : List Job) → Perm (sort less xs) xs
  pub orders :
      (P : Job → Type 0) (less : Job → Job → Bool) (xs : List Job)
      → IsOrder P less
      → All P xs
      → All P (sort less xs) × IsSortedBy less (sort less xs)

unfoldable pub same_text : (s t : Text) → Dec (s ≡ t)
same_text s t = decide (s == t) refl
  where
    differ : true ≢ false
    differ h = cc

    decide : (b : Bool) → (s == t) ≡ b → Dec (s ≡ t)
    decide true q = yes ((text_beq_iff s t).0 q)
    decide false q = no λ e. absurd (differ (sym ((text_beq_iff s t).1 e) ∙ q))

-- The stored jobs of a tenant.
abbrev of_jobs : Text → Dict Text Job → List Job
of_jobs tenant m =
    filter {p = λ job. tenant_of job.ref ≡ tenant} (λ job. same_text (tenant_of job.ref) tenant)
      (map (λ e. e.1) m)

abbrev pub of_tenant : Text → Store → List Job
of_tenant tenant s = of_jobs tenant s.jobs

abbrev pub HasTime : Job → Type 0
HasTime job = (t : ℕ) × job.create_time ≡ some t

-- No job stands right behind one that was created later.
abbrev pub IsByTime : List Job → Type 0
IsByTime [] = Unit
IsByTime (x ∷ []) = Unit
IsByTime (x ∷ y ∷ ys) =
    ((l : ℕ) × (r : ℕ) × (x.create_time ≡ some l) × (y.create_time ≡ some r) × (l ≤ r))
    × IsByTime (y ∷ ys)

tenant_jobs-filter : (tenant : Text) (m : Dict Text Job) → tenant_jobs tenant m ≡ of_jobs tenant m
unfolding tenant_jobs
tenant_jobs-filter tenant [] = refl
tenant_jobs-filter tenant ((key, job) ∷ m) =
    let name = tenant_of job.ref in
    let same = text_beq_iff name tenant in
    let rest = tenant_jobs-filter tenant m in
    elim (same_text name tenant)
      as (λ d.
        (if name == tenant then job ∷ tenant_jobs tenant m else tenant_jobs tenant m)
        ≡ ite d (job ∷ of_jobs tenant m) (of_jobs tenant m)) [
          | yes e ↦ rw (same.1 e) (ap (λ l. job ∷ l) rest)
          | no n ↦ rw (not_true (λ q. n (same.0 q))) rest
        ]
  where
    not_true : {b : Bool} → (b ≢ true) → b ≡ false
    not_true {b = true} n = absurd (n refl)
    not_true {b = false} n = refl

job_before-ltb :
    (a b : Job) (l r : ℕ)
    → a.create_time ≡ some l
    → b.create_time ≡ some r
    → job_before a b ≡ ltb l r
unfolding job_before
job_before-ltb a b l r e f = rw (e, f) refl

job_before-IsOrder : IsOrder HasTime job_before
job_before-IsOrder = record {
  asym = λ a b (l, e) (r, f) h.
      rw (job_before-ltb b a r l f e) (ground (arith, job_before-ltb a b l r e f, h));
  transitive = λ a b c (l, e) (m, f) (r, g) h k.
      rw (job_before-ltb a c l r e g)
        (ground (arith, job_before-ltb a b l m e f, job_before-ltb b c m r f g, h, k));
  unordered = λ a b c (l, e) (m, f) (r, g) h k.
      rw (job_before-ltb a c l r e g)
        (ground (arith, job_before-ltb a b l m e f, job_before-ltb b c m r f g, h, k));
}

IsSortedBy-IsByTime : (xs : List Job) → All HasTime xs → IsSortedBy job_before xs → IsByTime xs
IsSortedBy-IsByTime [] t h = tt
IsSortedBy-IsByTime (x ∷ []) t h = tt
IsSortedBy-IsByTime (x ∷ y ∷ ys) ((l, e), t) (h, rest) =
    let (r, f) = t.0 in
    (
      (l, r, e, f, ground (arith, job_before-ltb y x r l f e, h)),
      IsSortedBy-IsByTime (y ∷ ys) t rest,
    )

-- If `sort.Slice` does what it promises, and every stored job of the tenant has a time of creation:
-- a listing holds exactly the stored jobs whose reference names the tenant, each as often as the store
-- does, and no job stands right behind one that was created later.
pub list_sound :
    (sort : (Job → Job → Bool) → List Job → List Job) (tenant : Text) (s : Store)
    → IsSort sort
    → All HasTime (of_tenant tenant s)
    → Perm (list sort tenant s) (of_tenant tenant s) × IsByTime (list sort tenant s)
unfolding list
list_sound sort tenant s law timed =
    let xs = tenant_jobs tenant s.jobs in
    let same : xs ≡ of_tenant tenant s = tenant_jobs-filter tenant s.jobs in
    let (kept, sorted) =
      law.orders HasTime job_before xs job_before-IsOrder (subst (All HasTime) (sym same) timed) in
    (
      subst (Perm (sort job_before xs)) same (law.permutes job_before xs),
      IsSortedBy-IsByTime (sort job_before xs) kept sorted,
    )
