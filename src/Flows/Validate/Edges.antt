-- ===== src/Flows/Validate/Edges.antt =====
-- The edges of a flow, from a job to the jobs that wait for it and back: src/attorney.ts
-- (validateFlowJobs).
use bun_boss.Base.{
  ℕ, ◌≡◌, refl, sym, ap, ◌∙◌, String, true, false, if◌then◌else◌, List, [], ◌∷◌, ◌++◌, str_eq, ◌==◌,
  length, select, arith, inl, inr, Bool-cases, All,
}
use bun_boss.Commands.{has_name}
use bun_boss.Flows.Create.{FlowJob}
use bun_boss.Flows.Validate.{children_of, children, in_degree, refs_of}
use bun_boss.Flows.Validate.Names.{times, times-append, Distinct, Among}
use text.Mathlib.TextEquality.{eq_iff}

abbrev pub deps_of : List FlowJob → String → List String
deps_of [] r = []
deps_of (job ∷ jobs) r = if str_eq job.ref r then job.depends_on else deps_of jobs r

pub in_degree-deps : (jobs : List FlowJob) (r : String) → in_degree jobs r ≡ length (deps_of jobs r)
unfolding in_degree
in_degree-deps [] r = refl
in_degree-deps (job ∷ jobs) r = ground (arith, in_degree-deps jobs r)

times-children_of :
    (deps : List String) (child c r : String)
    → times r (children_of deps child c) ≡ (if str_eq child r then times c deps else 0)
times-children_of [] child c r = ground arith
times-children_of (dep ∷ deps) child c r = ground (arith, times-children_of deps child c r)

times-absent :
    (jobs : List FlowJob) (c r : String)
    → has_name (refs_of jobs) r ≡ false
    → times r (children jobs c) ≡ 0
unfolding children
times-absent [] c r h = refl
times-absent (job ∷ jobs) c r h = ground (
  arith,
  times-append r (children_of job.depends_on job.ref c) (children jobs c),
  times-children_of job.depends_on job.ref c r,
  times-absent jobs c r,
)

-- A job is a child of a ref as often as it depends on it.
pub dual :
    (jobs : List FlowJob) (r c : String)
    → Distinct (refs_of jobs)
    → times r (children jobs c) ≡ times c (deps_of jobs r)
unfolding children
dual [] r c d = refl
dual (job ∷ jobs) r c d =
    times-append r (children_of job.depends_on job.ref c) (children jobs c)
    ∙ ground (
      arith,
      times-children_of job.depends_on job.ref c r,
      dual jobs r c d.1,
      times-absent jobs c r,
      d.0,
      eq_iff job.ref r,
    )

Among-append : (refs xs ys : List String) → Among refs xs → Among refs ys → Among refs (xs ++ ys)
Among-append refs [] ys a b = b
Among-append refs (x ∷ xs) ys a b = (a.0, Among-append refs xs ys a.1 b)

Among-cons : (r : String) (refs xs : List String) → Among refs xs → Among (r ∷ refs) xs
Among-cons r refs [] a = tt
Among-cons r refs (x ∷ xs) a = (ground (arith, a.0), Among-cons r refs xs a.1)

children_of-Among :
    (refs deps : List String) (child c : String)
    → has_name refs child ≡ true
    → Among refs (children_of deps child c)
children_of-Among refs [] child c h = tt
children_of-Among refs (dep ∷ deps) child c h = elim (Bool-cases (str_eq dep c)) [
  | inl e ↦ rw e (h, children_of-Among refs deps child c h)
  | inr e ↦ rw e (children_of-Among refs deps child c h)
]

pub children-Among : (jobs : List FlowJob) (c : String) → Among (refs_of jobs) (children jobs c)
unfolding children
children-Among [] c = tt
children-Among (job ∷ jobs) c =
    Among-append (refs_of (job ∷ jobs)) (children_of job.depends_on job.ref c) (children jobs c)
      (children_of-Among (refs_of (job ∷ jobs)) job.depends_on job.ref c
        (ground (arith, eq_iff job.ref job.ref)))
      (Among-cons job.ref (refs_of jobs) (children jobs c) (children-Among jobs c))

-- The jobs of degree zero, in their order.
module _ (degree : String → ℕ) where
  abbrev pub roots : List String → List String
  roots refs = select (λ r. degree r == 0) refs

  has_name-roots :
      (refs : List String) (n : String) → has_name refs n ≡ false → has_name (roots refs) n ≡ false
  has_name-roots [] n h = refl
  has_name-roots (r ∷ refs) n h = ground (arith, has_name-roots refs n)

  pub roots-Distinct : (refs : List String) → Distinct refs → Distinct (roots refs)
  roots-Distinct [] d = tt
  roots-Distinct (r ∷ refs) d = elim (Bool-cases (degree r == 0)) [
    | inl e ↦ rw e (has_name-roots refs r d.0, roots-Distinct refs d.1)
    | inr e ↦ rw e (roots-Distinct refs d.1)
  ]

  pub roots-All :
      (all refs : List String)
      → Among all refs
      → All (λ q. degree q ≡ 0) (roots refs)
        × All (λ q. has_name [] q ≡ false) (roots refs)
        × Among all (roots refs)
  roots-All all [] a = (tt, tt, tt)
  roots-All all (r ∷ refs) a = elim (Bool-cases (degree r == 0)) [
    | inl e ↦
        let (x, y, z) = roots-All all refs a.1 in rw e ((ground arith, x), (refl, y), (a.0, z))
    | inr e ↦ rw e (roots-All all refs a.1)
  ]

pub Among-self : (refs : List String) → Among refs refs
Among-self [] = tt
Among-self (r ∷ refs) = (ground (arith, eq_iff r r), Among-cons r refs refs (Among-self refs))

pub Among-has_name :
    (ys xs : List String) (n : String) → Among ys xs → has_name xs n ≡ true → has_name ys n ≡ true
Among-has_name ys [] n a h = cc
Among-has_name ys (x ∷ xs) n a h = elim (Bool-cases (str_eq x n)) [
  | inl e ↦ ap (has_name ys) (sym ((eq_iff x n).0 e)) ∙ a.0
  | inr e ↦ Among-has_name ys xs n a.1 (rw e at h)
]

pub refs_of-length : (jobs : List FlowJob) → length (refs_of jobs) ≡ length jobs
refs_of-length [] = refl
refs_of-length (job ∷ jobs) = omega (arith, refs_of-length jobs)

-- Each job is found by its ref.
deps_of-cons :
    (job : FlowJob) (jobs ks : List FlowJob)
    → has_name (refs_of ks) job.ref ≡ false
    → All (λ k. deps_of jobs k.ref ≡ k.depends_on) ks
    → All (λ k. deps_of (job ∷ jobs) k.ref ≡ k.depends_on) ks
deps_of-cons job jobs [] h a = tt
deps_of-cons job jobs (k ∷ ks) h a = (
  ground (arith, a.0, eq_iff job.ref k.ref, eq_iff k.ref job.ref),
  deps_of-cons job jobs ks (ground arith) a.1,
)

pub deps_of-own :
    (jobs : List FlowJob)
    → Distinct (refs_of jobs)
    → All (λ k. deps_of jobs k.ref ≡ k.depends_on) jobs
deps_of-own [] d = tt
deps_of-own (job ∷ jobs) d =
    (ground (arith, eq_iff job.ref job.ref), deps_of-cons job jobs jobs d.0 (deps_of-own jobs d.1))
