-- ===== src/Tests/Waiting.antt =====
-- The results on flows, on a job that waits for another.
use bun_boss.Base.{
  ◌≡◌, refl, String, Bool, true, false, [], ◌∷◌, arith, All, List, ℕ, none, some, if◌then◌else◌,
  str_eq,
}
use bun_boss.Job.{Job, created, completed}
use bun_boss.Store.{Table, slots, occupied, distinct, has_slot, Slot-discrete}
use bun_boss.Store.Unique.{IsUnique, distinct-Nodup}
use bun_boss.Fetch.{sort_by, insert_by}
use bun_boss.Flows.{
  Dependency, edges, decremented, blocking_parents, resolved_row, resolve_flow_jobs,
  resolve_flow_jobs_no_cte, cleanup_dependencies, batches, is_resolved,
}
use bun_boss.Flows.Pending.{waits, IsPending, NotStuck, resolve_flow_jobs-IsPending}
use bun_boss.Flows.Split.{resolve_flow_jobs_no_cte-same}
use bun_boss.Flows.Cleanup.{cleanup_dependencies-IsPending}
use bun_boss.Flows.Drain.{batches-drained}
use bun_boss.Flows.Create.{FlowJob, distinct_from, flow_input}
use bun_boss.Insert.{JobInput, QueueDefaults}
use bun_boss.Flows.Validate.Names.{Distinct}
use bun_boss.Flows.Validate.Acyclic.{IsAfter, validate_flow_jobs-IsAfter}
use bun_boss.Flows.Validate.{
  refs_of, validate_flow_jobs, children, in_degree, sort_visits, relax, find_dependency_cycle,
  visit, path_from, join_arrows,
}
use bun_boss.Names.{assert_object_name}
use bun_boss.Attorney.{accepted, refused}
use bun_boss.Tests.{sample}
use mathlib.Core.Bool.{decide}

abbrev parent : Job
parent = record (sample 1 completed) { blocking = true }

abbrev child : Job
child = record (sample 2 created) { blocked = true; pending_dependencies = 1 }

abbrev family : Table
family = parent ∷ child ∷ []

abbrev link : Dependency
link = record { child_name = "mail"; child_id = 2; parent_name = "mail"; parent_id = 1 }

abbrev never : Job → Bool
never j = false

abbrev by_length : String → String → Bool
by_length a b = false

family-IsUnique : IsUnique family
unfolding distinct has_slot decide Slot-discrete slots occupied
family-IsUnique = distinct-Nodup (occupied family) refl

family-NotStuck : All NotStuck family
family-NotStuck = (λ h. refl, (λ h. absurd (ground arith), tt))

family-IsPending : IsPending (link ∷ []) family
unfolding waits edges
family-IsPending =
    (((λ h. absurd (ground arith)), ((λ h. (refl, omega arith)), tt)), family-NotStuck)

resolve_flow_jobs-IsPending_example :
    IsPending
      (link ∷ [])
      (resolve_flow_jobs never by_length never ("mail" ∷ []) (link ∷ []) family).0
resolve_flow_jobs-IsPending_example =
    resolve_flow_jobs-IsPending never by_length never ("mail" ∷ []) (link ∷ []) family
      family-IsUnique family-IsPending

resolve_flow_jobs_no_cte-same_example :
    resolve_flow_jobs_no_cte by_length never ("mail" ∷ []) (link ∷ []) family
    ≡ resolve_flow_jobs never by_length never ("mail" ∷ []) (link ∷ []) family
resolve_flow_jobs_no_cte-same_example =
    resolve_flow_jobs_no_cte-same never by_length never ("mail" ∷ []) (link ∷ []) family
      family-IsUnique family-NotStuck

cleanup_dependencies-IsPending_example :
    IsPending (cleanup_dependencies ("mail" ∷ []) family (link ∷ [])) family
cleanup_dependencies-IsPending_example =
    cleanup_dependencies-IsPending ("mail" ∷ []) family (link ∷ []) family-IsPending

-- One parent is resolved, and the child is free.
resolved_family : resolve_flow_jobs never by_length never ("mail" ∷ []) (link ∷ []) family ≡ (
  record parent { blocking = false }
      ∷ record child { blocked = false; pending_dependencies = 0 }
      ∷ [],
  1,
)
unfolding resolve_flow_jobs blocking_parents sort_by insert_by resolved_row decremented edges
resolved_family = refl

batches-drained_example :
    All
      (λ j. is_resolved ("mail" ∷ []) (λ k. false) j ≡ false)
      (batches
        (resolve_flow_jobs never by_length (λ j. false) ("mail" ∷ []) (link ∷ []))
        100
        family).0
unfolding batches resolve_flow_jobs blocking_parents sort_by insert_by resolved_row decremented
    edges
batches-drained_example =
    batches-drained never by_length ("mail" ∷ []) (link ∷ []) 100 family family-IsUnique
      family-NotStuck (omega arith)

-- A flow of two jobs, the second of which names the first twice.
abbrev first_job : FlowJob
first_job = record { ref = "a"; name = "mail"; depends_on = [] }

abbrev second_job : FlowJob
second_job = record { ref = "b"; name = "mail"; depends_on = "a" ∷ "a" ∷ [] }

abbrev two_jobs : List FlowJob
two_jobs = first_job ∷ second_job ∷ []

abbrev ref_ids : String → ℕ
ref_ids ref = if str_eq ref "a" then 1 else 2

abbrev empty_input : FlowJob → JobInput
empty_input j = record {
  id = none;
  priority = none;
  job_data = none;
  start_after = none;
  retry_limit = none;
  retry_delay = none;
  retry_delay_max = none;
  retry_backoff = none;
  singleton_key = none;
  singleton_seconds = none;
  singleton_offset = none;
  group_id = none;
  group_tier = none;
  expire_in_seconds = none;
  delete_after_seconds = none;
  retention_seconds = none;
  dead_letter = none;
  heartbeat_seconds = none;
  blocked = none;
  blocking = none;
  pending_dependencies = none;
}

abbrev queue_of : FlowJob → QueueDefaults
queue_of j = record {
  name = j.name;
  policy = none;
  expire_seconds = 900;
  deletion_seconds = 604800;
  retention_seconds = 1209600;
  retry_limit = 2;
  retry_delay = 0;
  retry_backoff = some false;
  retry_delay_max = none;
  dead_letter = none;
  heartbeat_seconds = none;
}

abbrev no_uuid : JobInput → ℕ
no_uuid j = 0

-- The dependency is counted once.
counted_once : (flow_input ref_ids empty_input two_jobs second_job).pending_dependencies ≡ some 1
unfolding flow_input distinct_from
counted_once = refl

-- Two jobs that wait for each other are refused, with the cycle.
abbrev waiting_first : FlowJob
waiting_first = record first_job { depends_on = "b" ∷ [] }

found_cycle : find_dependency_cycle (waiting_first ∷ second_job ∷ []) ≡ some ("a" ∷ "b" ∷ "a" ∷ [])
unfolding find_dependency_cycle visit children path_from
found_cycle = refl

abbrev mail_units : String → List ℕ
mail_units s = 109 ∷ []

accepted_flow : validate_flow_jobs mail_units two_jobs ≡ accepted tt
unfolding validate_flow_jobs assert_object_name children in_degree sort_visits relax
    find_dependency_cycle
accepted_flow = refl

refused_flow :
    validate_flow_jobs mail_units (waiting_first ∷ second_job ∷ [])
    ≡ refused "flow contains a dependency cycle: a -> b -> a"
unfolding validate_flow_jobs assert_object_name children in_degree sort_visits relax
    find_dependency_cycle visit path_from join_arrows
refused_flow = refl

validate_flow_jobs-IsAfter_example :
    Distinct (refs_of two_jobs) × ((place : String → ℕ) × All (IsAfter place two_jobs) two_jobs)
validate_flow_jobs-IsAfter_example = validate_flow_jobs-IsAfter mail_units two_jobs accepted_flow
