-- ===== src/Insert.antt =====
-- Creating jobs: src/plans.ts (insertJobs) and src/manager.ts (createJob, getDebounceStartAfter,
-- upsert's insert). A time given as a text is parsed by the database: it enters as the moment or the
-- delay that it stands for. Times are milliseconds since the epoch, singleton slots seconds.
pub mod Debounce
pub mod Throttle
use bun_boss.Base.{
  ℕ, zero, suc, ◌+◌, ◌-◌, ◌*◌, ◌/◌, ◌%◌, ◌≤◌, String, Bool, true, false, if◌then◌else◌, List, [],
  ◌∷◌, map, Option, none, some, str_eq, ltb, ◌==◌,
}
use bun_boss.Job.{State, created, ℤ, pos, Policy, Job, coalesce}
use bun_boss.Store.{Table}
use bun_boss.Fail.{insert_skipping}

-- "startAfter": a timestamp (it ends in Z), or an interval from now.
pub data StartAfter : Type 0 where
  at_time : ℕ → StartAfter
  in_ms : ℕ → StartAfter

-- One object of the JSON array that the statement reads; `none` is NULL or a missing key.
pub record JobInput : Type 0 where
  pub id : Option ℕ
  pub priority : Option ℤ
  pub job_data : Option String
  pub start_after : Option StartAfter
  pub retry_limit : Option ℕ
  pub retry_delay : Option ℕ
  pub retry_delay_max : Option ℕ
  pub retry_backoff : Option Bool
  pub singleton_key : Option String
  pub singleton_seconds : Option ℕ
  pub singleton_offset : Option ℕ
  pub group_id : Option String
  pub group_tier : Option String
  pub expire_in_seconds : Option ℕ
  pub delete_after_seconds : Option ℕ
  pub retention_seconds : Option ℕ
  pub dead_letter : Option String
  pub heartbeat_seconds : Option ℕ
  pub blocked : Option Bool
  pub blocking : Option Bool
  pub pending_dependencies : Option ℕ

-- The row of the queue table that the statement joins.
pub record QueueDefaults : Type 0 where
  pub name : String
  pub policy : Option Policy
  pub expire_seconds : ℕ
  pub deletion_seconds : ℕ
  pub retention_seconds : ℕ
  pub retry_limit : ℕ
  pub retry_delay : ℕ
  pub retry_backoff : Option Bool
  pub retry_delay_max : Option ℕ
  pub dead_letter : Option String
  pub heartbeat_seconds : Option ℕ

abbrev pub or_null {ℓ} : {A : Type ℓ} → Option A → Option A → Option A
or_null none d = d
or_null (some a) d = some a

abbrev pub start_time : ℕ → Option StartAfter → ℕ
start_time now none = now
start_time now (some (at_time t)) = t
start_time now (some (in_ms d)) = now + d

-- 'epoch' + singletonSeconds * floor((epoch(now) + offset) / singletonSeconds), in milliseconds;
-- the database refuses zero seconds, a division by zero.
unfoldable pub slot_ms : ℕ → ℕ → ℕ → ℕ
slot_ms now seconds offset = seconds * 1000 * ((now + offset * 1000) / (seconds * 1000))

abbrev pub singleton_slot : ℕ → Option ℕ → Option ℕ → Option ℕ
singleton_slot now none offset = none
singleton_slot now (some seconds) offset = some (slot_ms now seconds (coalesce offset 0))

-- A row of the SELECT; gen_random_uuid() is given.
unfoldable pub new_row : ℕ → (JobInput → ℕ) → QueueDefaults → JobInput → Job
unfolding slot_ms
new_row now uuid q j = record {
  id = coalesce j.id (uuid j);
  name = q.name;
  priority = coalesce j.priority (pos 0);
  job_data = j.job_data;
  state = created;
  retry_limit = coalesce j.retry_limit q.retry_limit;
  retry_count = 0;
  retry_delay = coalesce j.retry_delay q.retry_delay;
  retry_backoff = coalesce (or_null j.retry_backoff q.retry_backoff) false;
  retry_delay_max = or_null j.retry_delay_max q.retry_delay_max;
  expire_seconds = coalesce j.expire_in_seconds q.expire_seconds;
  deletion_seconds = coalesce j.delete_after_seconds q.deletion_seconds;
  singleton_key = j.singleton_key;
  singleton_on = singleton_slot now j.singleton_seconds j.singleton_offset;
  group_id = j.group_id;
  group_tier = j.group_tier;
  start_after = start_time now j.start_after;
  created_on = now;
  started_on = none;
  completed_on = none;
  keep_until =
      start_time now j.start_after + coalesce j.retention_seconds q.retention_seconds * 1000;
  output = none;
  dead_letter = or_null j.dead_letter q.dead_letter;
  policy = q.policy;
  heartbeat_on = none;
  heartbeat_seconds = or_null j.heartbeat_seconds q.heartbeat_seconds;
  blocked = coalesce j.blocked false;
  blocking = coalesce j.blocking false;
  pending_dependencies = coalesce j.pending_dependencies 0;
  source_name = none;
  source_id = none;
  source_created_on = none;
  source_retry_count = none;
}

-- The new table, and the rows returned, those that did not conflict.
unfoldable pub insert_jobs :
    ℕ → (JobInput → ℕ) → QueueDefaults → List JobInput → Table → Table × List Job
unfolding new_row insert_skipping
insert_jobs now uuid q js t = insert_skipping (map (new_row now uuid q) js) t

-- getDebounceStartAfter: `now` has the clock offset added; seconds in whole numbers.
unfoldable pub debounce_start_after : ℕ → ℕ → ℕ
debounce_start_after seconds now =
    let slot = now / (seconds * 1000) * (seconds * 1000) in
    let left = seconds - (now - slot) / 1000 in
    let start_after = if left == 0 then 1 else left in
    if ltb 1 seconds then start_after + 1 else start_after

-- The second try of createJob: the same job in the next slot.
abbrev pub in_next_slot : ℕ → ℕ → JobInput → JobInput
in_next_slot seconds now j = record j {
  start_after = some (in_ms (debounce_start_after seconds now * 1000));
  singleton_offset = some seconds;
}

-- The id of the row that a statement returned, if it returned one.
abbrev pub job_id : Table × List Job → Table × Option ℕ
job_id (t, []) = (t, none)
job_id (t, row ∷ rows) = (t, some row.id)

-- After a try that returned no row: the second try, for a job with singletonNextSlot.
abbrev pub or_try : Option (Table → Table × List Job) → Table × List Job → Table × Option ℕ
or_try next (t, row ∷ rows) = (t, some row.id)
or_try none (t, []) = (t, none)
or_try (some next) (t, []) = job_id (next t)

-- createJob: `db_now` is the database's clock and `now` this instance's, offset by the skew;
-- `next_slot` is singletonNextSlot with its singletonSeconds.
unfoldable pub create_job :
    (db_now now : ℕ)
    → (JobInput → ℕ)
    → QueueDefaults
    → Option ℕ
    → JobInput
    → Table
    → Table × Option ℕ
unfolding insert_jobs debounce_start_after
create_job db_now now uuid q next_slot j t =
    let next : Option (Table → Table × List Job) = elim next_slot [
      | none ↦ none
      | some seconds ↦ some (insert_jobs db_now uuid q (in_next_slot seconds now j ∷ []))
    ] in
    or_try next (insert_jobs db_now uuid q (j ∷ []) t)
