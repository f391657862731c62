-- ===== src/Commands.antt =====
-- The commands that change jobs by id: src/plans.ts (completeJobs, cancelJobs, resumeJobs,
-- retryJobs, touchJobs, deleteJobsById, deletion) as src/manager.ts runs them. A statement takes the
-- table to the table that it leaves and the number of rows that it affected. `now` is the clock of
-- the statement. A constraint error leaves the table as it was.
pub mod Slots
pub mod Safe
pub mod Counts
use bun_boss.Base.{
  ℕ, ◌+◌, ◌*◌, String, Bool, true, false, not, ◌&&◌, ◌||◌, if◌then◌else◌, List, [], ◌∷◌, Option,
  none, some, str_eq, ltb, ◌==◌, length, select, reject, any,
}
use bun_boss.Job.{created, retry, active, completed, cancelled, failed, state_lt, state_eq, Job}
use bun_boss.Store.{Table, Result, ok, unique_violation, ◌>>=◌, update_rows}

pub record CommandResponse : Type 0 where
  pub jobs : List ℕ
  pub requested : ℕ
  pub affected : ℕ

-- id = ANY(ids)
abbrev pub has_id : List ℕ → ℕ → Bool
has_id ids id = any (λ i. i == id) ids

-- name = $1 AND id = ANY($2)
abbrev pub is_target : String → List ℕ → Job → Bool
is_target name ids j = str_eq j.name name && has_id ids j.id

abbrev pub has_name : List String → String → Bool
has_name names name = any (λ n. str_eq n name) names

-- WITH results AS (UPDATE ... RETURNING 1) SELECT COUNT(*) FROM results
unfoldable pub update_counted : (Job → Bool) → (Job → Job) → Table → Result (Table × ℕ)
update_counted p f t = update_rows p f t >>= λ u. ok (u, length (select p t))

abbrev pub response : List ℕ → ℕ → CommandResponse
response ids n = record { jobs = ids; requested = length ids; affected = n }

-- completeJobsUpdate: the WHERE clause and the SET clause.
abbrev pub completes : Bool → String → List ℕ → Job → Bool
completes include_queued name ids j =
    is_target name ids j
    && (if include_queued then state_lt j.state completed else state_eq j.state active)

abbrev pub set_completed : Bool → Option String → ℕ → Job → Job
set_completed include_queued output now j = record j {
  completed_on = some now;
  state = completed;
  output = output;
  blocked = if include_queued then false else j.blocked;
  pending_dependencies = if include_queued then 0 else j.pending_dependencies;
}

unfoldable pub complete_jobs :
    Bool → String → List ℕ → Option String → ℕ → Table → Result (Table × ℕ)
unfolding update_counted
complete_jobs include_queued name ids output now =
    update_counted (completes include_queued name ids) (set_completed include_queued output now)

-- Manager.complete
unfoldable pub complete :
    Bool → String → List ℕ → Option String → ℕ → Table → Result (Table × CommandResponse)
unfolding complete_jobs
complete include_queued name ids output now t =
    complete_jobs include_queued name ids output now t >>= λ r. ok (r.0, response ids r.1)

abbrev pub cancels : String → List ℕ → Job → Bool
cancels name ids j = is_target name ids j && state_lt j.state completed

abbrev pub set_cancelled : ℕ → Job → Job
set_cancelled now j = record j { completed_on = some now; state = cancelled }

unfoldable pub cancel_jobs : String → List ℕ → ℕ → Table → Result (Table × ℕ)
unfolding update_counted
cancel_jobs name ids now = update_counted (cancels name ids) (set_cancelled now)

abbrev pub resumes : String → List ℕ → Job → Bool
resumes name ids j = is_target name ids j && state_eq j.state cancelled

abbrev pub set_resumed : Job → Job
set_resumed j = record j { completed_on = none; state = created }

unfoldable pub resume_jobs : String → List ℕ → Table → Result (Table × ℕ)
unfolding update_counted
resume_jobs name ids = update_counted (resumes name ids) set_resumed

abbrev pub retries : String → List ℕ → Job → Bool
retries name ids j = is_target name ids j && state_eq j.state failed

abbrev pub set_retried : Job → Job
set_retried j = record j { state = retry; retry_limit = j.retry_limit + 1; completed_on = none }

unfoldable pub retry_jobs : String → List ℕ → Table → Result (Table × ℕ)
unfolding update_counted
retry_jobs name ids = update_counted (retries name ids) set_retried

abbrev pub touches : String → List ℕ → Job → Bool
touches name ids j = is_target name ids j && state_eq j.state active

abbrev pub set_touched : ℕ → Job → Job
set_touched now j = record j { heartbeat_on = some now }

unfoldable pub touch_jobs : String → List ℕ → ℕ → Table → Result (Table × ℕ)
unfolding update_counted
touch_jobs name ids now = update_counted (touches name ids) (set_touched now)

-- DELETE ... WHERE p, with the number of rows deleted
unfoldable pub delete_where : (Job → Bool) → Table → Table × ℕ
delete_where p t = (reject p t, length (select p t))

unfoldable pub delete_jobs_by_id : String → List ℕ → Table → Table × ℕ
unfolding delete_where
delete_jobs_by_id name ids = delete_where (is_target name ids)

unfoldable pub delete_queued_jobs : String → Table → Table × ℕ
unfolding delete_where
delete_queued_jobs name = delete_where λ j. str_eq j.name name && state_lt j.state active

unfoldable pub delete_stored_jobs : String → Table → Table × ℕ
unfolding delete_where
delete_stored_jobs name = delete_where λ j. str_eq j.name name && state_lt active j.state

unfoldable pub delete_all_jobs : String → Table → Table × ℕ
unfolding delete_where
delete_all_jobs name = delete_where λ j. str_eq j.name name

-- completed_on + deletion_seconds < now, which a NULL completed_on never passes
abbrev pub elapsed : Option ℕ → ℕ → ℕ → Bool
elapsed none seconds now = false
elapsed (some on) seconds now = ltb (on + seconds * 1000) now

abbrev pub is_expired_row : List String → ℕ → Job → Bool
is_expired_row queues now j =
    has_name queues j.name
    && ((ltb 0 j.deletion_seconds && elapsed j.completed_on j.deletion_seconds now)
        || (state_lt j.state active && ltb j.keep_until now))

unfoldable pub deletion : List String → ℕ → Table → Table × ℕ
unfolding delete_where
deletion queues now = delete_where (is_expired_row queues now)
