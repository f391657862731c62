-- ===== src/Tests/Processing.antt =====
-- The results on a batch, for a worker's jobs.
use bun_boss.Base.{ℕ, ◌≡◌, refl, String, true, false, [], ◌∷◌, Option, none, some, All}
use bun_boss.Job.{Job, created, active, completed}
use bun_boss.Store.{
  Table, ok, rows_after, commit, update_rows, collides, overlaps, slots, occupied, distinct,
  has_slot, Slot-discrete,
}
use bun_boss.Commands.{update_counted}
use bun_boss.Tests.{sample, three_rows}
use bun_boss.Tests.Failing.{at_five}
use bun_boss.Fail.{
  fail_rows, fail_jobs_by_id, reinserted, insert_skipping, insert_rows, dead_letters, retried_row,
  dead_letters_of,
}
use bun_boss.Work.Settle.{
  array, entry, completed as reports_completed, settle_per_job, partition, disposition_of,
}
use bun_boss.Work.Process.{
  Failure, Finish, resolves, never, process_jobs, resolve_within_seconds, max_expiration, settle,
  fail_batch, or_fail, end_batch, run_commands, run_command, complete_jobs_with_outputs, refresh_ms,
  set_listed,
}
use bun_boss.Work.Process.Active.{NotActive}
use bun_boss.Work.Process.Settles.{process_jobs-NotActive}
use bun_boss.Work.Process.Heartbeat.{TouchedTwice, refresh_ms-TouchedTwice}
use mathlib.Core.Bool.{decide}

abbrev error_text : Failure → Option String
error_text f = some "error"

-- The handler reports on job 2 after 200 milliseconds.
abbrev reported : Finish
reported =
    resolves 200
      record { output = none; job_results = array (entry 2 reports_completed (some "done") ∷ []) }

abbrev job_two_done : Table
job_two_done =
    sample 1 created
    ∷ set_listed ((2, some "done") ∷ []) 5000 (sample 2 active)
    ∷ sample 3 completed
    ∷ []

reported_batch :
    process_jobs error_text at_five "mail" true (sample 2 active ∷ []) reported three_rows
    ≡ ok (job_two_done, 1)
unfolding process_jobs resolve_within_seconds max_expiration end_batch or_fail settle settle_per_job
    partition disposition_of run_commands run_command complete_jobs_with_outputs update_counted
    update_rows rows_after commit slots occupied distinct has_slot decide Slot-discrete
reported_batch = refl

process_jobs-NotActive_example : All (NotActive "mail" (2 ∷ [])) job_two_done
process_jobs-NotActive_example =
    process_jobs-NotActive error_text at_five "mail" true (sample 2 active ∷ []) reported three_rows
      job_two_done 1 reported_batch

-- A handler that does not end: the job goes back for a retry.
abandoned_batch :
    process_jobs error_text at_five "mail" false (sample 2 active ∷ []) never three_rows
    ≡ ok (
      retried_row at_five false (some "error") (sample 2 active)
          ∷ sample 1 created
          ∷ sample 3 completed
          ∷ [],
      0,
    )
unfolding process_jobs resolve_within_seconds max_expiration end_batch fail_batch fail_jobs_by_id
    fail_rows reinserted insert_skipping insert_rows dead_letters dead_letters_of collides overlaps
    slots occupied has_slot decide Slot-discrete retried_row
abandoned_batch = refl

abbrev beating : ℕ → Job
beating seconds = record (sample seconds active) { heartbeat_seconds = some seconds }

refresh_ms-TouchedTwice_example :
    All
      (TouchedTwice (refresh_ms none (beating 60 ∷ beating 10 ∷ sample 2 active ∷ [])))
      (beating 60 ∷ beating 10 ∷ sample 2 active ∷ [])
refresh_ms-TouchedTwice_example =
    refresh_ms-TouchedTwice (beating 60 ∷ beating 10 ∷ sample 2 active ∷ [])
