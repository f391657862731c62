-- ===== src/Fail/Split.antt =====
-- src/manager.ts without multi-mutation statements: reinsertFailedJobs, failNoCte, expireJobsNoCte.
-- The rows are selected, deleted, and put back one by one, in one transaction.
use bun_boss.Base.{
  ℕ, ◌+◌, String, Bool, true, false, if◌then◌else◌, List, [], ◌∷◌, map, Option, none, some, select,
  reject,
}
use bun_boss.Job.{Job, retry}
use bun_boss.Store.{Table, Result, ok, ◌>>=◌, collides}
use bun_boss.Commands.{is_target, has_id}
use bun_boss.Fail.{
  Env, retry_at, can_retry, dead_letter_row, dead_letter_queues, insert_rows, fails_by_id,
  fails_by_timeout, fails_by_heartbeat, failed_row, timed_out, heartbeat_timed_out,
}

-- insertRetryJob: ON CONFLICT DO NOTHING RETURNING id
unfoldable pub insert_retry_job : Job → Table → Table × Bool
insert_retry_job r t = if collides r t then (t, false) else (r ∷ t, true)

-- The row of the retry branch; the `failed` branch inserts `failed_row`.
unfoldable pub split_retry_row : Env → Option String → Job → Job
unfolding retry_at
split_retry_row e output j = record j {
  state = retry;
  start_after = retry_at e j;
  completed_on = none;
  output = output;
  heartbeat_on = none;
  source_name = none;
  source_id = none;
  source_created_on = none;
  source_retry_count = none;
}

-- insertDeadLetterJob
unfoldable pub insert_dead_letter_job : Env → Job → Table → Result Table
unfolding dead_letter_row insert_rows
insert_dead_letter_job e r =
    insert_rows (map (λ q. dead_letter_row e q r) (dead_letter_queues e r.dead_letter))

-- One turn of the loop of reinsertFailedJobs.
unfoldable pub reinsert_one : Env → Bool → (Job → Option String) → Job → Table → Result Table
unfolding insert_retry_job split_retry_row insert_dead_letter_job failed_row
reinsert_one e force_terminal output j t =
    let (t₁, retried) =
      if can_retry force_terminal j
      then insert_retry_job (split_retry_row e (output j) j) t
      else (t, false) in
    let r = failed_row e (output j) j in
    if retried then ok t₁ else insert_dead_letter_job e r (insert_retry_job r t₁).0

unfoldable pub reinsert_failed_jobs :
    Env → Bool → (Job → Option String) → List Job → Table → Result (Table × ℕ)
unfolding reinsert_one
reinsert_failed_jobs e force_terminal output [] t = ok (t, 0)
reinsert_failed_jobs e force_terminal output (j ∷ js) t =
    reinsert_one e force_terminal output j t >>= λ t₁.
    reinsert_failed_jobs e force_terminal output js t₁ >>= λ r. ok (r.0, r.1 + 1)

-- failNoCte: selectJobsToFailById, deleteJobsToFail (no test of the state), reinsertFailedJobs.
unfoldable pub fail_no_cte : Env → String → List ℕ → Option String → Table → Result (Table × ℕ)
unfolding reinsert_failed_jobs
fail_no_cte e name ids output t = elim (select (fails_by_id name ids) t) [
  | [] ↦ ok (t, 0)
  | j ∷ js ↦ reinsert_failed_jobs e false (λ j. output) (j ∷ js) (reject (is_target name ids) t)
]

-- expireJobsNoCte: deleteJobsByIds deletes by id alone.
unfoldable pub expire_jobs_no_cte : Env → Option String → (Job → Bool) → Table → Result (Table × ℕ)
unfolding reinsert_failed_jobs
expire_jobs_no_cte e output p t = elim (select p t) [
  | [] ↦ ok (t, 0)
  | j ∷ js ↦
      reinsert_failed_jobs e false (λ j. output) (j ∷ js)
        (reject (λ k. has_id (map (λ i. i.id) (j ∷ js)) k.id) t)
]

unfoldable pub fail_jobs_by_timeout_no_cte : Env → List String → Table → Result (Table × ℕ)
unfolding expire_jobs_no_cte
fail_jobs_by_timeout_no_cte e queues =
    expire_jobs_no_cte e (some timed_out) (fails_by_timeout queues e.now)

unfoldable pub fail_jobs_by_heartbeat_no_cte : Env → List String → Table → Result (Table × ℕ)
unfolding expire_jobs_no_cte
fail_jobs_by_heartbeat_no_cte e queues =
    expire_jobs_no_cte e (some heartbeat_timed_out) (fails_by_heartbeat queues e.now)
