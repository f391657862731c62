-- ===== src/Flows/Create.antt =====
-- Making a flow: src/manager.ts (flow, once validateFlowJobs has accepted the jobs: their refs differ, and
-- every dependency is a ref of the flow). `ids` is refToId, `input_of` what the options of a job put
-- into its payload.
pub mod Counters
use bun_boss.Base.{
  ℕ, String, Bool, true, false, if◌then◌else◌, List, [], ◌∷◌, ◌++◌, map, Option, none, some, str_eq,
  ltb, any, length, ◌==◌,
}
use bun_boss.Job.{Job}
use bun_boss.Store.{Table}
use bun_boss.Commands.{has_name}
use bun_boss.Insert.{JobInput, QueueDefaults, insert_jobs}
use bun_boss.Flows.{Dependency, insert_dependencies}

pub record FlowJob : Type 0 where
  pub ref : String
  pub name : String
  pub depends_on : List String

-- [...new Set(dependsOn)]
unfoldable pub distinct_from : List String → List String → List String
distinct_from seen [] = []
distinct_from seen (r ∷ rs) =
    let kept = r ∷ distinct_from (r ∷ seen) rs in
    let dropped = distinct_from seen rs in if has_name seen r then dropped else kept

abbrev pub dependencies_of : FlowJob → List String
dependencies_of job = distinct_from [] job.depends_on

-- refToJob.get(ref).name; the jobs are searched from the first, since their refs differ
unfoldable pub name_of : List FlowJob → String → String
name_of [] ref = ""
name_of (job ∷ jobs) ref = if str_eq job.ref ref then job.name else name_of jobs ref

abbrev pub dependency_row : (String → ℕ) → List FlowJob → FlowJob → String → Dependency
dependency_row ids all job dep = record {
  child_name = job.name;
  child_id = ids job.ref;
  parent_name = name_of all dep;
  parent_id = ids dep;
}

-- depRows
unfoldable pub dependency_rows : (String → ℕ) → List FlowJob → List FlowJob → List Dependency
unfolding distinct_from name_of
dependency_rows ids all [] = []
dependency_rows ids all (job ∷ jobs) =
    map (dependency_row ids all job) (dependencies_of job) ++ dependency_rows ids all jobs

-- parentRefs
unfoldable pub is_parent_ref : List FlowJob → String → Bool
unfolding distinct_from
is_parent_ref jobs ref = any (λ job. has_name (dependencies_of job) ref) jobs

abbrev pub flag : Bool → Option Bool
flag b = if b then some true else none

abbrev pub counter : ℕ → Option ℕ
counter n = if n == 0 then none else some n

-- insertPayload
unfoldable pub flow_input : (String → ℕ) → (FlowJob → JobInput) → List FlowJob → FlowJob → JobInput
unfolding distinct_from is_parent_ref
flow_input ids input_of all job = record (input_of job) {
  id = some (ids job.ref);
  blocked = flag (ltb 0 (length (dependencies_of job)));
  blocking = flag (is_parent_ref all job.ref);
  pending_dependencies = counter (length (dependencies_of job));
}

-- byQueue
abbrev pub add_flow_job : FlowJob → List (String × List FlowJob) → List (String × List FlowJob)
add_flow_job job [] = (job.name, job ∷ []) ∷ []
add_flow_job job ((name, group) ∷ groups) =
    let rest = add_flow_job job groups in
    if str_eq name job.name then (name, group ++ (job ∷ [])) ∷ groups else (name, group) ∷ rest

unfoldable pub by_queue : List FlowJob → List (String × List FlowJob) → List (String × List FlowJob)
by_queue [] groups = groups
by_queue (job ∷ jobs) groups = by_queue jobs (add_flow_job job groups)

abbrev pub if_all_inserted : ℕ → Table × List Job → Option Table
if_all_inserted n (t, rows) = if length rows == n then some t else none

abbrev pub and_then {ℓ κ} : {A : Type ℓ} {B : Type κ} → Option A → (A → Option B) → Option B
and_then none f = none
and_then (some a) f = f a

-- A queue that is not there, or a row that is skipped, aborts the transaction.
unfoldable pub insert_groups :
    ℕ
    → (String → Option QueueDefaults)
    → (FlowJob → JobInput)
    → List (String × List FlowJob)
    → Table
    → Option Table
unfolding insert_jobs
insert_groups now queues input [] t = some t
insert_groups now queues input ((name, group) ∷ groups) t = and_then (queues name) (λ q.
    and_then (if_all_inserted (length group) (insert_jobs now (λ j. 0) q (map input group) t))
      (λ u. insert_groups now queues input groups u))

abbrev pub and_dependencies :
    List Dependency → List Dependency → Option Table → Option (Table × List Dependency)
and_dependencies new deps none = none
and_dependencies new deps (some t) = some (t, insert_dependencies new deps)

unfoldable pub flow :
    ℕ
    → (String → Option QueueDefaults)
    → (String → ℕ)
    → (FlowJob → JobInput)
    → List FlowJob
    → Table
    → List Dependency
    → Option (Table × List Dependency)
unfolding by_queue insert_groups flow_input dependency_rows insert_dependencies
flow now queues ids input_of jobs t deps =
    and_dependencies (dependency_rows ids jobs jobs) deps
      (insert_groups now queues (flow_input ids input_of jobs) (by_queue jobs []) t)
