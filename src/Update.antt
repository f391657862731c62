-- ===== src/Update.antt =====
-- Editing waiting jobs in place: src/plans.ts (updateJob) and src/manager.ts (update, upsert). A key that
-- the payload lacks is `none`; a key whose NULL clears the column holds an Option itself. A moment
-- before the epoch is the epoch. `queues` has the names in the queue table, which the foreign key of
-- job.dead_letter refers to. At most one statement of an upsert writes rows, so that it is the same
-- whether the key is tested behind the statement or at the commit.
pub mod Edits
use bun_boss.Base.{
  ℕ, suc, ◌+◌, ◌-◌, ◌*◌, String, Bool, true, false, not, ◌&&◌, if◌then◌else◌, List, [], ◌∷◌, map,
  Option, none, some, str_eq, ltb, ◌==◌, length, take, select,
}
use bun_boss.Job.{active, state_lt, ℤ, Job, coalesce}
use bun_boss.Store.{Table, Result, ok, unique_violation, update_rows}
use bun_boss.Commands.{has_id, has_name}
use bun_boss.Fetch.{sort_by}
use bun_boss.Insert.{StartAfter, start_time, JobInput, QueueDefaults, insert_jobs}

pub data MatchStrategy : Type 0 where
  newest oldest all : MatchStrategy

-- by: 'id' | 'singletonKey', with the key and the strategy.
pub data Target : Type 0 where
  by_id : ℕ → Target
  by_singleton_key : String → MatchStrategy → Target

pub record JobEdit : Type 0 where
  pub job_data : Option (Option String)
  pub priority : Option ℤ
  pub start_after : Option StartAfter
  pub retention_seconds : Option ℕ
  pub expire_in_seconds : Option ℕ
  pub delete_after_seconds : Option ℕ
  pub retry_limit : Option ℕ
  pub retry_delay : Option ℕ
  pub retry_backoff : Option Bool
  pub retry_delay_max : Option (Option ℕ)
  pub dead_letter : Option (Option String)
  pub heartbeat_seconds : Option (Option ℕ)
  pub group_id : Option (Option String)
  pub group_tier : Option (Option String)

abbrev pub has_key : String → Option String → Bool
has_key key none = false
has_key key (some k) = str_eq k key

abbrev pub is_waiting : Job → Bool
is_waiting j = state_lt j.state active

abbrev pub ids_of : List Job → List ℕ
ids_of js = map (λ j. j.id) js

-- The `target` CTE. Rows of one created_on stand in the table's order.
unfoldable pub targets : String → Target → Table → List ℕ
unfolding sort_by
targets name (by_id id) t =
    ids_of (select (λ j. str_eq j.name name && is_waiting j && j.id == id) t)
targets name (by_singleton_key key strategy) t =
    let rows = select (λ j. str_eq j.name name && is_waiting j && has_key key j.singleton_key) t in
    ids_of (elim strategy [
      | all ↦ rows
      | oldest ↦ take 1 (sort_by (λ a b. ltb a.created_on b.created_on) rows)
      | newest ↦ take 1 (sort_by (λ a b. ltb b.created_on a.created_on) rows)
    ])

abbrev pub edited_start : ℕ → Option StartAfter → Job → ℕ
edited_start now none j = j.start_after
edited_start now (some s) j = start_time now (some s)

abbrev pub edited_keep_until : ℕ → JobEdit → Job → Option ℕ → Option StartAfter → ℕ
edited_keep_until now e j (some seconds) start = edited_start now start j + seconds * 1000
edited_keep_until now e j none (some s) = start_time now (some s) + j.keep_until - j.start_after
edited_keep_until now e j none none = j.keep_until

-- The SET clause.
unfoldable pub edited : ℕ → JobEdit → Job → Job
edited now e j = record j {
  job_data = coalesce e.job_data j.job_data;
  priority = coalesce e.priority j.priority;
  start_after = edited_start now e.start_after j;
  keep_until = edited_keep_until now e j e.retention_seconds e.start_after;
  expire_seconds = coalesce e.expire_in_seconds j.expire_seconds;
  deletion_seconds = coalesce e.delete_after_seconds j.deletion_seconds;
  retry_limit = coalesce e.retry_limit j.retry_limit;
  retry_delay = coalesce e.retry_delay j.retry_delay;
  retry_backoff = coalesce e.retry_backoff j.retry_backoff;
  retry_delay_max = coalesce e.retry_delay_max j.retry_delay_max;
  dead_letter = coalesce e.dead_letter j.dead_letter;
  heartbeat_seconds = coalesce e.heartbeat_seconds j.heartbeat_seconds;
  group_id = coalesce e.group_id j.group_id;
  group_tier = coalesce e.group_tier j.group_tier;
}

-- The WHERE clause of the UPDATE: it has the ids of the target rows, not their queue.
abbrev pub is_edited : List ℕ → Job → Bool
is_edited ids j = has_id ids j.id && is_waiting j

-- What becomes of a transaction: its result, or the constraint that it breaks.
pub data Outcome {ℓ} (A : Type ℓ) : Type ℓ where
  done : A → Outcome A
  violates_unique : Outcome A
  violates_foreign_key : Outcome A

abbrev pub and_then {ℓ κ} : {A : Type ℓ} {B : Type κ} → Outcome A → (A → Outcome B) → Outcome B
and_then (done a) next = next a
and_then violates_unique next = violates_unique
and_then violates_foreign_key next = violates_foreign_key

-- dlq_fkey: dead_letter is NULL or the name of a queue.
abbrev pub names_queue : List String → Option String → Bool
names_queue queues none = true
names_queue queues (some d) = has_name queues d

abbrev pub all_refer : List String → List Job → Bool
all_refer queues [] = true
all_refer queues (j ∷ js) = names_queue queues j.dead_letter && all_refer queues js

-- The test of the foreign key on the rows that a statement wrote.
unfoldable pub referring {ℓ} : {A : Type ℓ} → List String → List Job → A → Outcome A
referring queues rows a = if all_refer queues rows then done a else violates_foreign_key

abbrev pub unless_unique {ℓ κ} : {A : Type ℓ} {B : Type κ} → Result A → (A → Outcome B) → Outcome B
unless_unique (ok a) next = next a
unless_unique unique_violation next = violates_unique

-- update: the new table and the ids returned.
unfoldable pub update_job :
    List String → ℕ → String → Target → JobEdit → Table → Outcome (Table × List ℕ)
unfolding targets edited referring
update_job queues now name target e t =
    let p = is_edited (targets name target t) in
    unless_unique (update_rows p (edited now e) t)
      λ u. referring queues (map (edited now e) (select p t)) (u, ids_of (select p t))

pub record UpsertResponse : Type 0 where
  pub jobs : List ℕ
  pub updated : ℕ
  pub inserted : ℕ

abbrev pub updated_response : Table × List ℕ → Outcome (Table × UpsertResponse)
updated_response (t, ids) = done (t, record { jobs = ids; updated = length ids; inserted = 0 })

module _ (queues : List String) where
  -- The second half of upsert, after an update that matched nothing: the insert, and one more update
  -- where it was skipped.
  unfoldable pub insert_or_update :
      (Table → Outcome (Table × List ℕ)) → Table × List Job → Outcome (Table × UpsertResponse)
  unfolding referring
  insert_or_update update (t, row ∷ rows) = referring queues (row ∷ rows) (
    t,
    record { jobs = ids_of (row ∷ rows); updated = 0; inserted = length (ids_of (row ∷ rows)) },
  )
  insert_or_update update (t, []) = and_then (update t) updated_response

  unfoldable pub after_update :
      (Table → Outcome (Table × List ℕ))
      → (Table → Table × List Job)
      → Table × List ℕ
      → Outcome (Table × UpsertResponse)
  unfolding insert_or_update
  after_update update insert (t, id ∷ ids) = updated_response (t, id ∷ ids)
  after_update update insert (t, []) = insert_or_update update (insert t)

  -- upsert: the transaction, whose statements see one another's changes. `j` and `e` are the one
  -- payload as the two statements read it.
  unfoldable pub upsert :
      ℕ
      → (JobInput → ℕ)
      → QueueDefaults
      → Target
      → JobEdit
      → JobInput
      → Table
      → Outcome (Table × UpsertResponse)
  unfolding update_job insert_jobs after_update
  upsert now uuid q target e j t =
      let update = update_job queues now q.name target e in
      and_then (update t) (after_update update (insert_jobs now uuid q (j ∷ [])))
