-- ===== src/Flows/Validate.antt =====
-- What flow() refuses: src/attorney.ts (validateFlowJobs, findDependencyCycle). The jobs are typed; the
-- characters of a name are a parameter. A job enters the queue of the sort once, and a path has no
-- job twice, so the number of jobs is enough fuel for both.
pub mod Names
pub mod Relaxed
pub mod Sorted
pub mod Edges
pub mod Acyclic
use bun_boss.Base.{
  ℕ, zero, suc, ◌-◌, String, not, if◌then◌else◌, List, [], ◌∷◌, ◌++◌, map, Option, none, some,
  str_eq, ltb, any, length, select, ◌==◌,
}
use Prim.Native.String.{◌++◌ as text_append}
use bun_boss.Job.{coalesce}
use bun_boss.Attorney.{Checked, accepted, ◌>>◌, check}
use bun_boss.Commands.{has_name}
use bun_boss.Names.{assert_object_name}
use bun_boss.Flows.Create.{FlowJob}

-- edges.get(ref): a job for each time that it names `ref`
abbrev pub children_of : List String → String → String → List String
children_of [] child ref = []
children_of (dep ∷ deps) child ref =
    if str_eq dep ref then child ∷ children_of deps child ref else children_of deps child ref

unfoldable pub children : List FlowJob → String → List String
children [] ref = []
children (job ∷ jobs) ref = children_of job.depends_on job.ref ref ++ children jobs ref

-- inDegree, before the sort
unfoldable pub in_degree : List FlowJob → String → ℕ
in_degree [] ref = 0
in_degree (job ∷ jobs) ref =
    if str_eq job.ref ref then length job.depends_on else in_degree jobs ref

-- The loop over the children of the current job.
abbrev pub lower : (String → ℕ) → String → String → ℕ
lower degree child ref = if str_eq ref child then degree child - 1 else degree ref

unfoldable pub relax : (String → ℕ) → List String → List String → (String → ℕ) × List String
relax degree queue [] = (degree, queue)
relax degree queue (child ∷ rest) =
    relax (lower degree child) (if degree child - 1 == 0 then queue ++ (child ∷ []) else queue) rest

-- The number of jobs that the sort visits.
unfoldable pub sort_visits : (String → List String) → ℕ → (String → ℕ) → List String → ℕ
unfolding relax
sort_visits edges fuel degree [] = 0
sort_visits edges zero degree (ref ∷ queue) = 0
sort_visits edges (suc fuel) degree (ref ∷ queue) =
    let (lowered, waiting) = relax degree queue (edges ref) in
    suc (sort_visits edges fuel lowered waiting)

abbrev pub refs_of : List FlowJob → List String
refs_of jobs = map (λ job. job.ref) jobs

-- path.slice(path.indexOf(ref))
unfoldable pub path_from : String → List String → List String
path_from ref [] = []
path_from ref (p ∷ path) = if str_eq p ref then p ∷ path else path_from ref path

-- The cycle, or the refs visited so far. `visiting` has the refs of the path.
abbrev pub or_next :
    Option (List String) × List String
    → (List String → Option (List String) × List String)
    → Option (List String) × List String
or_next (some cycle, visited) next = (some cycle, visited)
or_next (none, visited) next = next visited

abbrev pub over_children :
    (List String → String → Option (List String) × List String)
    → List String
    → List String
    → Option (List String) × List String
over_children visit visited [] = (none, visited)
over_children visit visited (child ∷ rest) =
    or_next (visit visited child) (λ seen. over_children visit seen rest)

abbrev pub done_with :
    String → Option (List String) × List String → Option (List String) × List String
done_with ref (some cycle, visited) = (some cycle, visited)
done_with ref (none, visited) = (none, ref ∷ visited)

unfoldable pub visit :
    (String → List String)
    → ℕ
    → List String
    → List String
    → String
    → Option (List String) × List String
unfolding path_from
visit edges zero path visited ref =
    if has_name path ref
    then (some (path_from ref path ++ (ref ∷ [])), visited)
    else (none, visited)
visit edges (suc fuel) path visited ref =
    if has_name path ref
    then (some (path_from ref path ++ (ref ∷ [])), visited)
    else if has_name visited ref
    then (none, visited)
    else done_with ref (
        over_children (λ seen child. visit edges fuel (path ++ (ref ∷ [])) seen child) visited
          (edges ref))

unfoldable pub find_dependency_cycle : List FlowJob → Option (List String)
unfolding visit children
find_dependency_cycle jobs =
    (over_children (λ seen ref. visit (children jobs) (length jobs) [] seen ref) []
      (refs_of jobs)).0

unfoldable pub join_arrows : List String → String
join_arrows [] = ""
join_arrows (r ∷ []) = r
join_arrows (r ∷ s ∷ rs) = text_append r (text_append " -> " (join_arrows (s ∷ rs)))

-- A message with a ref in double quotes.
abbrev naming : String → String → String → String
naming before ref after =
    text_append before (text_append "\"" (text_append ref (text_append "\"" after)))

module _ (units : String → List ℕ) where
  abbrev pub check_refs : List String → List FlowJob → Checked (Unit {0})
  unfolding assert_object_name
  check_refs refs [] = accepted tt
  check_refs refs (job ∷ jobs) = do
    check (not (str_eq job.ref "")) "each flow job must have a non-empty ref"
    check (not (has_name refs job.ref)) (naming "duplicate ref: " job.ref "")
    check (not (str_eq job.name "")) "each flow job must have a non-empty name"
    assert_object_name (units job.name)
    check_refs (job.ref ∷ refs) jobs

  abbrev pub check_depends_on : List String → String → List String → Checked (Unit {0})
  check_depends_on refs ref [] = accepted tt
  check_depends_on refs ref (dep ∷ deps) = do
    check (not (str_eq dep "")) "dependsOn entries must be non-empty strings"
    check (not (str_eq dep ref)) (naming "job " ref " cannot depend on itself")
    check (has_name refs dep) (naming "dependsOn ref " dep " not found in flow")
    check_depends_on refs ref deps

  abbrev pub check_dependencies : List String → List FlowJob → Checked (Unit {0})
  check_dependencies refs [] = accepted tt
  check_dependencies refs (job ∷ jobs) = do
    check_depends_on refs job.ref job.depends_on
    check_dependencies refs jobs

  unfoldable pub validate_flow_jobs : List FlowJob → Checked (Unit {0})
  unfolding check_refs children in_degree sort_visits find_dependency_cycle join_arrows
  validate_flow_jobs jobs = do
    check (ltb 1 (length jobs)) "flow requires at least 2 jobs"
    check_refs [] jobs
    check (any (λ job. ltb 0 (length job.depends_on)) jobs)
        "flow requires at least one job with dependsOn"
    check_dependencies (refs_of jobs) jobs
    let roots = select (λ ref. in_degree jobs ref == 0) (refs_of jobs)
    check (sort_visits (children jobs) (length jobs) (in_degree jobs) roots == length jobs) (
        text_append "flow contains a dependency cycle: "
          (join_arrows (coalesce (find_dependency_cycle jobs) [])))
