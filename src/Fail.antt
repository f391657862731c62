-- ===== src/Fail.antt =====
-- Failing jobs, as one statement: src/plans.ts (failJobs, failJobsBody and its callers), and split
-- into select, delete and re-insert: src/manager.ts (reinsertFailedJobs, failNoCte, expireJobsNoCte).
-- random() is given in thousandths for each job, below 1000; times are milliseconds.
pub mod Split
pub mod Backoff
pub mod Inserts
pub mod Apart
pub mod Core
pub mod Reinsert
pub mod Conserve
use bun_boss.Base.{
  ℕ, ◌+◌, ◌-◌, ◌*◌, ◌/◌, ◌^◌, min, max, String, Bool, true, false, not, ◌&&◌, ◌||◌, if◌then◌else◌,
  List, [], ◌∷◌, ◌++◌, map, Option, none, some, str_eq, ltb, ◌==◌, length, select, reject, any,
}
use bun_boss.Job.{
  State, created, retry, active, completed, cancelled, failed, state_lt, state_eq, ℤ, pos, Job,
}
use bun_boss.Store.{Table, Result, ok, unique_violation, ◌>>=◌, collides, commit}
use bun_boss.Commands.{is_target, has_name, has_id, elapsed}

-- The columns of the queue table that a dead letter job takes.
pub record Queue : Type 0 where
  pub name : String
  pub retry_limit : ℕ
  pub retry_backoff : Bool
  pub retry_delay : ℕ
  pub retention_seconds : ℕ
  pub deletion_seconds : ℕ
  pub expire_seconds : ℕ

-- What the statement reads from its surroundings: the clock, random(), gen_random_uuid() for the
-- dead letter copy of a job, and the queue table.
pub record Env : Type 0 where
  pub now : ℕ
  pub random : Job → ℕ
  pub uuid : Job → ℕ
  pub queues : List Queue

abbrev pub timed_out : String
timed_out = "{ \"value\": { \"message\": \"job timed out\" } }"

abbrev pub heartbeat_timed_out : String
heartbeat_timed_out = "{ \"value\": { \"message\": \"job heartbeat timeout\" } }"

abbrev pub least_of : Option ℕ → ℕ → ℕ
least_of none d = d
least_of (some m) d = min m d

-- GREATEST(retry_delay, 1) * (2 ^ LEAST(16, retry_count + 1) / 2 * (1 + random())), capped by
-- retry_delay_max, in milliseconds
unfoldable pub backoff_ms : ℕ → ℕ → Option ℕ → ℕ → ℕ
backoff_ms retry_delay retry_count retry_delay_max random =
    let half = 2 ^ min 16 (retry_count + 1) / 2 in
    let cap : Option ℕ = elim retry_delay_max [ none ↦ none | some m ↦ some (m * 1000) ] in
    least_of cap (max retry_delay 1 * (half * 1000 + half * random))

unfoldable pub retry_at : Env → Job → ℕ
unfolding backoff_ms
retry_at e j =
    if not j.retry_backoff
    then e.now + j.retry_delay * 1000
    else e.now + backoff_ms j.retry_delay j.retry_count j.retry_delay_max (e.random j)

abbrev pub can_retry : Bool → Job → Bool
can_retry force_terminal j = not force_terminal && ltb j.retry_count j.retry_limit

-- A row of retried_jobs.
unfoldable pub retried_row : Env → Bool → Option String → Job → Job
unfolding retry_at
retried_row e force_terminal output j = record j {
  state = if can_retry force_terminal j then retry else failed;
  start_after = if j.retry_count == j.retry_limit then j.start_after else retry_at e j;
  completed_on = if can_retry force_terminal j then none else some e.now;
  output = output;
  heartbeat_on = none;
  source_name = none;
  source_id = none;
  source_created_on = none;
  source_retry_count = none;
}

-- A row of failed_jobs.
unfoldable pub failed_row : Env → Option String → Job → Job
failed_row e output j = record j {
  state = failed;
  completed_on = some e.now;
  output = output;
  heartbeat_on = none;
  source_name = none;
  source_id = none;
  source_created_on = none;
  source_retry_count = none;
}

-- INSERT ... SELECT ... ON CONFLICT DO NOTHING RETURNING *: the table, and the rows inserted.
unfoldable pub insert_skipping : List Job → Table → Table × List Job
insert_skipping [] t = (t, [])
insert_skipping (r ∷ rs) t =
    let rest = insert_skipping rs (r ∷ t) in
    let skipped = insert_skipping rs t in if collides r t then skipped else (rest.0, r ∷ rest.1)

-- INSERT ... SELECT with no ON CONFLICT: a collision aborts the statement.
unfoldable pub insert_rows : List Job → Table → Result Table
insert_rows [] t = ok t
insert_rows (r ∷ rs) t =
    let rest = insert_rows rs (r ∷ t) in if collides r t then unique_violation else rest

-- The dead letter copy of a failed row: an INSERT that names fifteen columns, the rest by default.
unfoldable pub dead_letter_row : Env → Queue → Job → Job
dead_letter_row e q r = record {
  id = e.uuid r;
  name = q.name;
  priority = pos 0;
  job_data = r.job_data;
  state = created;
  retry_limit = q.retry_limit;
  retry_count = 0;
  retry_delay = q.retry_delay;
  retry_backoff = q.retry_backoff;
  retry_delay_max = none;
  expire_seconds = q.expire_seconds;
  deletion_seconds = q.deletion_seconds;
  singleton_key = r.singleton_key;
  singleton_on = none;
  group_id = none;
  group_tier = none;
  start_after = e.now;
  created_on = e.now;
  started_on = none;
  completed_on = none;
  keep_until = e.now + q.retention_seconds * 1000;
  output = r.output;
  dead_letter = none;
  policy = none;
  heartbeat_on = none;
  heartbeat_seconds = r.heartbeat_seconds;
  blocked = false;
  blocking = false;
  pending_dependencies = 0;
  source_name = some r.name;
  source_id = some r.id;
  source_created_on = some r.created_on;
  source_retry_count = some r.retry_count;
}

-- The queues whose name is the row's dead_letter.
abbrev pub dead_letter_queues : Env → Option String → List Queue
dead_letter_queues e none = []
dead_letter_queues e (some d) = select (λ q. str_eq q.name d) e.queues

unfoldable pub dead_letters_of : Env → Job → List Job
unfolding dead_letter_row
dead_letters_of e r =
    if state_eq r.state failed
    then map (λ q. dead_letter_row e q r) (dead_letter_queues e r.dead_letter)
    else []

unfoldable pub dead_letters : Env → List Job → List Job
unfolding dead_letters_of
dead_letters e [] = []
dead_letters e (r ∷ rs) = dead_letters_of e r ++ dead_letters e rs

-- deleted_jobs, retried_jobs and failed_jobs: delete the rows that match, re-insert them, and insert
-- those that collided as failed. The table, and the rows of `results`.
unfoldable pub reinserted :
    Env → Bool → (Job → Option String) → (Job → Bool) → Table → Result (Table × List Job)
unfolding retried_row failed_row insert_skipping insert_rows
reinserted e force_terminal output p t =
    let deleted = select p t in
    let (t₁, retried) =
      insert_skipping (map (λ j. retried_row e force_terminal (output j) j) deleted) (reject p t) in
    let failed_jobs =
      map (λ j. failed_row e (output j) j)
        (reject (λ j. any (λ r. r.id == j.id) retried) deleted) in
    insert_rows failed_jobs t₁ >>= λ t₂. ok (t₂, retried ++ failed_jobs)

-- failJobsBody: the failed rows are copied to their dead letter queues; the count is that of
-- `results`.
unfoldable pub fail_rows :
    Env → Bool → (Job → Option String) → (Job → Bool) → Table → Result (Table × ℕ)
unfolding reinserted dead_letters insert_rows
fail_rows e force_terminal output p t = reinserted e force_terminal output p t >>= λ r.
    insert_rows (dead_letters e r.1) r.0 >>= λ u. ok (u, length r.1)

-- selectJobsToFailById, failJobsById: name = $1 AND id = ANY($2) AND state < 'completed'
abbrev pub fails_by_id : String → List ℕ → Job → Bool
fails_by_id name ids j = is_target name ids j && state_lt j.state completed

-- failJobsByTimeout: active, and started_on + expire_seconds < now
abbrev pub fails_by_timeout : List String → ℕ → Job → Bool
fails_by_timeout queues now j =
    state_eq j.state active && elapsed j.started_on j.expire_seconds now && has_name queues j.name

abbrev pub heartbeat_elapsed : Option ℕ → Option ℕ → ℕ → Bool
heartbeat_elapsed on none now = false
heartbeat_elapsed on (some seconds) now = elapsed on seconds now

-- failJobsByHeartbeat
abbrev pub fails_by_heartbeat : List String → ℕ → Job → Bool
fails_by_heartbeat queues now j =
    state_eq j.state active
    && heartbeat_elapsed j.heartbeat_on j.heartbeat_seconds now
    && has_name queues j.name

unfoldable pub fail_jobs_by_id : Env → String → List ℕ → Option String → Table → Result (Table × ℕ)
unfolding fail_rows
fail_jobs_by_id e name ids output = fail_rows e false (λ j. output) (fails_by_id name ids)

unfoldable pub fail_jobs_by_timeout : Env → List String → Table → Result (Table × ℕ)
unfolding fail_rows
fail_jobs_by_timeout e queues =
    fail_rows e false (λ j. some timed_out) (fails_by_timeout queues e.now)

unfoldable pub fail_jobs_by_heartbeat : Env → List String → Table → Result (Table × ℕ)
unfolding fail_rows
fail_jobs_by_heartbeat e queues =
    fail_rows e false (λ j. some heartbeat_timed_out) (fails_by_heartbeat queues e.now)

-- failJobsByIdWithOutputs and, with forceTerminal, deadLetterJobsByIdWithOutputs: the outputs come
-- in a list of (id, output), whose first entry for an id the subquery reads.
abbrev pub output_for : List (ℕ × Option String) → ℕ → Option String
output_for [] id = none
output_for ((i, o) ∷ rest) id = if i == id then o else output_for rest id

unfoldable pub fail_jobs_with_outputs :
    Env → Bool → String → List (ℕ × Option String) → Table → Result (Table × ℕ)
unfolding fail_rows
fail_jobs_with_outputs e force_terminal name outputs =
    fail_rows e force_terminal (λ j. output_for outputs j.id)
      (fails_by_id name (map (λ o. o.0) outputs))
