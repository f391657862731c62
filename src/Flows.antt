-- ===== src/Flows.antt =====
-- Flows, jobs that wait for other jobs: src/plans.ts (resolveFlowJobs and its split form, the table
-- of dependencies), src/manager.ts (resolveFlowJobsNoCte) and src/navigator.ts (the passes).
-- The columns that these statements set are in no unique index, so they meet no constraint error.
pub mod Sums
pub mod Keys
pub mod Rows
pub mod Pending
pub mod Groups
pub mod Split
pub mod Cleanup
pub mod Create
pub mod Validate
pub mod Drain
use bun_boss.Base.{
  ℕ, zero, suc, ◌+◌, ◌-◌, String, Bool, true, false, not, ◌&&◌, ◌||◌, if◌then◌else◌, List, [], ◌∷◌,
  ◌++◌, map, str_eq, ltb, leb, ◌==◌, any, take, select, reject, length,
}
use bun_boss.Job.{State, completed, state_eq, Job}
use bun_boss.Store.{Table, rows_after}
use bun_boss.Store.Keys.{has_key}
use bun_boss.Commands.{has_id, has_name}
use bun_boss.Fetch.{sort_by}

-- A row of job_dependency.
pub record Dependency : Type 0 where
  pub child_name : String
  pub child_id : ℕ
  pub parent_name : String
  pub parent_id : ℕ

abbrev pub is_child : Job → Dependency → Bool
is_child j d = str_eq j.name d.child_name && j.id == d.child_id

abbrev pub is_parent : Job → Dependency → Bool
is_parent p d = str_eq d.parent_name p.name && d.parent_id == p.id

abbrev pub same_dependency : Dependency → Dependency → Bool
same_dependency d e =
    str_eq d.child_name e.child_name
    && d.child_id == e.child_id
    && str_eq d.parent_name e.parent_name
    && d.parent_id == e.parent_id

-- insertDependencies, with ON CONFLICT DO NOTHING on the primary key.
unfoldable pub insert_dependencies : List Dependency → List Dependency → List Dependency
insert_dependencies [] deps = deps
insert_dependencies (d ∷ new) deps =
    let kept = insert_dependencies new deps in
    let added = insert_dependencies new (d ∷ deps) in
    if any (same_dependency d) deps then kept else added

unfoldable pub get_dependencies : String → ℕ → List Dependency → List (String × ℕ)
get_dependencies name id deps =
    map (λ d. (d.parent_name, d.parent_id))
      (select (λ d. str_eq d.child_name name && d.child_id == id) deps)

unfoldable pub get_dependents : String → ℕ → List Dependency → List (String × ℕ)
get_dependents name id deps =
    map (λ d. (d.child_name, d.child_id))
      (select (λ d. str_eq d.parent_name name && d.parent_id == id) deps)

abbrev pub exists_row : String → ℕ → Table → Bool
exists_row name id t = any (has_key name id) t

-- cleanupDependencies
abbrev pub is_orphan : List String → Table → Dependency → Bool
is_orphan queues t d =
    has_name queues d.child_name && not (exists_row d.child_name d.child_id t)
    || has_name queues d.parent_name && not (exists_row d.parent_name d.parent_id t)

unfoldable pub cleanup_dependencies : List String → Table → List Dependency → List Dependency
cleanup_dependencies queues t deps = reject (is_orphan queues t) deps

abbrev pub flow_batch_size : ℕ
flow_batch_size = 1000

-- ORDER BY name, id, by the collation of the database.
abbrev pub key_before : (String → String → Bool) → Job → Job → Bool
key_before name_lt a b = name_lt a.name b.name || (str_eq a.name b.name && ltb a.id b.id)

abbrev pub is_resolved : List String → (Job → Bool) → Job → Bool
is_resolved names locked j =
    j.blocking && (state_eq j.state completed && (has_name names j.name && not (locked j)))

-- locked_parents, and selectBlockingParents. Where the statement has no SKIP LOCKED, it waits for a
-- lock, and `locked` is never true.
unfoldable pub blocking_parents :
    (String → String → Bool) → (Job → Bool) → List String → Table → List Job
unfolding sort_by
blocking_parents name_lt locked names t =
    take flow_batch_size (sort_by (key_before name_lt) (select (is_resolved names locked) t))

-- A job's row of `decremented` joined with the parents: how many pairs there are.
unfoldable pub edges : List Dependency → Job → Job → ℕ
edges deps j p = length (select (λ d. is_child j d && is_parent p d) deps)

unfoldable pub decremented : List Dependency → List Job → Job → ℕ
unfolding edges
decremented deps [] j = 0
decremented deps (p ∷ ps) j = edges deps j p + decremented deps ps j

-- locked_children and the UPDATE that reads it, for a count of each job's rows in `decremented`.
abbrev pub is_unblocked : (Job → ℕ) → Job → Bool
is_unblocked n j = j.blocked && ltb 0 (n j)

abbrev pub unblocked : ℕ → Job → Job
unblocked n j = record j {
  pending_dependencies = j.pending_dependencies - n;
  blocked = ltb 0 (j.pending_dependencies - n);
}

abbrev pub not_blocking : Job → Job
not_blocking j = record j { blocking = false }

abbrev pub is_cleared : List Job → Job → Bool
is_cleared parents j = any (λ p. has_key p.name p.id j) parents

-- Both UPDATEs of the statement read the rows that it starts from. Of a row that both name, the
-- database runs only one; which one, it leaves open: `first` says it.
abbrev pub updated_by : Bool → Bool → ℕ → Job → Job
updated_by true clears n j = unblocked n j
updated_by false true n j = not_blocking j
updated_by false false n j = j

unfoldable pub resolved_row : (Job → Bool) → List Dependency → List Job → Job → Job
unfolding decremented
resolved_row first deps parents j =
    updated_by
      (is_unblocked (decremented deps parents) j && (first j || not (is_cleared parents j)))
      (is_cleared parents j) (decremented deps parents j) j

-- resolveFlowJobs: the new table, and the number of parents that it cleared.
unfoldable pub resolve_flow_jobs :
    (first : Job → Bool)
    → (String → String → Bool)
    → (Job → Bool)
    → List String
    → List Dependency
    → Table
    → Table × ℕ
unfolding blocking_parents resolved_row
resolve_flow_jobs first name_lt locked names deps t =
    let parents = blocking_parents name_lt locked names t in
    (map (resolved_row first deps parents) t, length (select (is_cleared parents) t))

-- decrementDependents for one queue of parents.
unfoldable pub decrements : List Dependency → String → List ℕ → Job → ℕ
decrements deps name ids j =
    length
      (select (λ d. is_child j d && (str_eq d.parent_name name && has_id ids d.parent_id)) deps)

unfoldable pub decrement_dependents : List Dependency → String → List ℕ → Table → Table
unfolding decrements rows_after
decrement_dependents deps name ids t =
    rows_after (is_unblocked (decrements deps name ids))
      (λ j. unblocked (decrements deps name ids j) j) t

-- clearBlocking
unfoldable pub clear_blocking : String → List ℕ → Table → Table
unfolding rows_after
clear_blocking name ids t = rows_after (λ j. str_eq j.name name && has_id ids j.id) not_blocking t

-- idsByName
abbrev pub add_id : Job → List (String × List ℕ) → List (String × List ℕ)
add_id p [] = (p.name, p.id ∷ []) ∷ []
add_id p ((name, ids) ∷ groups) =
    let rest = add_id p groups in
    if str_eq name p.name then (name, ids ++ (p.id ∷ [])) ∷ groups else (name, ids) ∷ rest

unfoldable pub ids_by_name : List Job → List (String × List ℕ) → List (String × List ℕ)
ids_by_name [] groups = groups
ids_by_name (p ∷ ps) groups = ids_by_name ps (add_id p groups)

unfoldable pub resolve_groups : List Dependency → List (String × List ℕ) → Table → Table
unfolding decrement_dependents clear_blocking
resolve_groups deps [] t = t
resolve_groups deps ((name, ids) ∷ groups) t =
    resolve_groups deps groups (clear_blocking name ids (decrement_dependents deps name ids t))

-- resolveFlowJobsNoCte
unfoldable pub resolve_flow_jobs_no_cte :
    (String → String → Bool) → (Job → Bool) → List String → List Dependency → Table → Table × ℕ
unfolding blocking_parents ids_by_name resolve_groups
resolve_flow_jobs_no_cte name_lt locked names deps t =
    let rows = blocking_parents name_lt locked names t in
    (resolve_groups deps (ids_by_name rows []) t, length rows)

-- The batches of one chunk of names: `left` of MAX_BATCHES_PER_PASS remain. Each batch is run by
-- `resolve`, one of the two forms; the result tells also how many batches were run.
unfoldable pub batches : (Table → Table × ℕ) → ℕ → Table → Table × ℕ
batches resolve zero t = (t, 0)
batches resolve (suc left) t =
    let (u, resolved) = resolve t in
    let (v, run) = batches resolve left u in
    if leb flow_batch_size resolved then (v, suc run) else (u, 1)
