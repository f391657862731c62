-- ===== src/Flows/Validate/Acyclic.antt =====
-- What an accepted flow is: src/attorney.ts (validateFlowJobs).
use bun_boss.Base.{
  ℕ, ◌<◌, ◌≡◌, refl, sym, ap, ◌∙◌, String, Bool, true, false, not, List, [], ◌∷◌, str_eq, ◌==◌, ltb,
  length, arith, All, any,
}
use bun_boss.Attorney.{accepted, check}
use bun_boss.Commands.{has_name}
use bun_boss.Flows.Create.{FlowJob}
use bun_boss.Flows.Validate.{
  children, in_degree, sort_visits, refs_of, check_refs, check_dependencies, validate_flow_jobs,
}
use bun_boss.Flows.Validate.Names.{times, unseen-nil, Distinct, Among, pigeonhole}
use bun_boss.Flows.Validate.Sorted.{
  visits, visits-length, Inv, visits-Ordered, rank, seen, ordered-Distinct,
}
use bun_boss.Queues.Sound.{>>-eq-accepted}
use bun_boss.Names.{assert_object_name}
use text.Mathlib.TextEquality.{eq_iff}
use bun_boss.Flows.Validate.Edges.{
  deps_of, in_degree-deps, dual, children-Among, roots, roots-Distinct, roots-All, Among-self,
  Among-has_name, refs_of-length, deps_of-own,
}

module _ (jobs : List FlowJob) (distinct : Distinct (refs_of jobs)) where
  abbrev degree : String → ℕ
  degree = in_degree jobs

  dual_of : (r c : String) → times r (children jobs c) ≡ times c (deps_of jobs r)
  dual_of r c = dual jobs r c distinct

  abbrev start : List String
  start = roots degree (refs_of jobs)

  start-Inv :
      Inv
        (children jobs)
        (deps_of jobs)
        (refs_of jobs)
        dual_of
        (children-Among jobs)
        degree
        start
        []
  start-Inv =
      let (zeros, apart, among) =
        roots-All degree (refs_of jobs) (refs_of jobs) (Among-self (refs_of jobs)) in
      record {
        degrees = λ r. in_degree-deps jobs r ∙ sym (unseen-nil (deps_of jobs r));
        ordered = tt;
        listed = tt;
        waits = record {
          zeros = zeros;
          apart = apart;
          distinct = roots-Distinct degree (refs_of jobs) distinct;
          among = among;
        };
      }

  sorted : List String
  sorted =
      visits (children jobs) (deps_of jobs) (refs_of jobs) dual_of (children-Among jobs)
        (length jobs) degree start []

  -- Where the sort visits as many refs as there are jobs, it visits every ref.
  all_sorted :
      sort_visits (children jobs) (length jobs) degree start ≡ length jobs
      → (n : String) → has_name (refs_of jobs) n ≡ true
      → has_name sorted n ≡ true
  unfolding sorted
  all_sorted e n h =
      let (ordered, among) =
        visits-Ordered (children jobs) (deps_of jobs) (refs_of jobs) dual_of (children-Among jobs)
          (length jobs) degree start [] start-Inv in
      let len =
        visits-length (children jobs) (deps_of jobs) (refs_of jobs) dual_of (children-Among jobs)
          (length jobs) degree start [] in
      pigeonhole sorted (refs_of jobs) n
        (ordered-Distinct (children jobs) (deps_of jobs) (refs_of jobs) dual_of
          (children-Among jobs) sorted ordered)
        among (omega (arith, len, e, refs_of-length jobs)) h

  -- One dependency of a job.
  before :
      sort_visits (children jobs) (length jobs) degree start ≡ length jobs
      → (n d : String) → has_name (refs_of jobs) n ≡ true
      → has_name (deps_of jobs n) d ≡ true
      → (has_name (refs_of jobs) d ≡ true) × (rank sorted d < rank sorted n)
  unfolding sorted
  before e n d h k =
      let (ordered, among) =
        visits-Ordered (children jobs) (deps_of jobs) (refs_of jobs) dual_of (children-Among jobs)
          (length jobs) degree start [] start-Inv in
      let (found, less) =
        seen (children jobs) (deps_of jobs) (refs_of jobs) dual_of (children-Among jobs) sorted n d
          ordered (all_sorted e n h) k in
      (Among-has_name (refs_of jobs) sorted d among found, less)

-- A job comes after each job that it depends on, which is a job of the flow.
abbrev pub IsAfter : (String → ℕ) → List FlowJob → FlowJob → Type 0
IsAfter place jobs job =
    All (λ dep. (has_name (refs_of jobs) dep ≡ true) × (place dep < place job.ref)) job.depends_on

module _ (place : String → ℕ) (jobs : List FlowJob)
    (step : (n d : String)
      → has_name (refs_of jobs) n ≡ true
      → has_name (deps_of jobs n) d ≡ true
      → (has_name (refs_of jobs) d ≡ true) × (place d < place n)) where
  deps-IsAfter :
      (n : String) (deps all : List String)
      → has_name (refs_of jobs) n ≡ true
      → deps_of jobs n ≡ all
      → Among all deps
      → All (λ dep. (has_name (refs_of jobs) dep ≡ true) × (place dep < place n)) deps
  deps-IsAfter n [] all h e a = tt
  deps-IsAfter n (d ∷ deps) all h e a =
      (step n d h (ap (λ x. has_name x d) e ∙ a.0), deps-IsAfter n deps all h e a.1)

  jobs-IsAfter :
      (ks : List FlowJob)
      → Among (refs_of jobs) (refs_of ks)
      → All (λ k. deps_of jobs k.ref ≡ k.depends_on) ks
      → All (IsAfter place jobs) ks
  jobs-IsAfter [] a o = tt
  jobs-IsAfter (k ∷ ks) a o = (
    deps-IsAfter k.ref k.depends_on k.depends_on a.0 o.0 (Among-self k.depends_on),
    jobs-IsAfter ks a.1 o.1,
  )

checked : (b : Bool) (message : String) → check b message ≡ accepted tt → b ≡ true
checked true m h = refl
checked false m h = cc

same_number : (a b : ℕ) → (a == b) ≡ true → a ≡ b
same_number a b h = ground arith

apart_refs :
    (r : String) (refs xs : List String)
    → All (λ x. has_name (r ∷ refs) x ≡ false) xs
    → (has_name xs r ≡ false) × All (λ x. has_name refs x ≡ false) xs
apart_refs r refs [] a = (refl, tt)
apart_refs r refs (x ∷ xs) a =
    let (first, others) = apart_refs r refs xs a.1 in
    (ground (arith, a.0, first, eq_iff r x, eq_iff x r), (ground (arith, a.0), others))

check_refs-Distinct :
    (units : String → List ℕ) (refs : List String) (jobs : List FlowJob)
    → check_refs units refs jobs ≡ accepted tt
    → Distinct (refs_of jobs) × All (λ r. has_name refs r ≡ false) (refs_of jobs)
unfolding check_refs
check_refs-Distinct units refs [] h = (tt, tt)
check_refs-Distinct units refs (job ∷ jobs) h =
    let (c₁, h₁) = >>-eq-accepted (check (not (str_eq job.ref "")) _) _ h in
    let (c₂, h₂) = >>-eq-accepted (check (not (has_name refs job.ref)) _) _ h₁ in
    let (c₃, h₃) = >>-eq-accepted (check (not (str_eq job.name "")) _) _ h₂ in
    let (c₄, h₄) = >>-eq-accepted (assert_object_name (units job.name)) _ h₃ in
    let (distinct, apart) = check_refs-Distinct units (job.ref ∷ refs) jobs h₄ in
    let (first, others) = apart_refs job.ref refs (refs_of jobs) apart in
    let fresh = checked (not (has_name refs job.ref)) _ c₂ in
    ((first, distinct), (ground arith, others))

-- A flow that is accepted has distinct refs and no cycle: its refs can be placed so that each job comes
-- after all jobs that it depends on, and those are jobs of the flow.
pub validate_flow_jobs-IsAfter :
    (units : String → List ℕ) (jobs : List FlowJob)
    → validate_flow_jobs units jobs ≡ accepted tt
    → Distinct (refs_of jobs) × ((place : String → ℕ) × All (IsAfter place jobs) jobs)
unfolding validate_flow_jobs
validate_flow_jobs-IsAfter units jobs h =
    let (c₁, h₁) = >>-eq-accepted (check (ltb 1 (length jobs)) _) _ h in
    let (c₂, h₂) = >>-eq-accepted (check_refs units [] jobs) _ h₁ in
    let (c₃, h₃) =
      >>-eq-accepted (check (any (λ job. ltb 0 (length job.depends_on)) jobs) _) _ h₂ in
    let (c₄, h₄) = >>-eq-accepted (check_dependencies units (refs_of jobs) jobs) _ h₃ in
    let distinct = (check_refs-Distinct units [] jobs c₂).0 in
    let all =
      checked
        (sort_visits (children jobs) (length jobs) (in_degree jobs) (start jobs distinct)
          == length jobs)
        _ h₄ in
    (
      distinct,
      (
        rank (sorted jobs distinct),
        jobs-IsAfter (rank (sorted jobs distinct)) jobs (before jobs distinct (same_number _ _ all))
            jobs (Among-self (refs_of jobs)) (deps_of-own jobs distinct),
      ),
    )
