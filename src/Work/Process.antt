-- ===== src/Work/Process.antt =====
-- A batch from its handler to the table: src/manager.ts (processJobs, settlePerJob as it runs its
-- commands, completeWithOutputs, failWithOutputs) and src/tools.ts (resolveWithinSeconds). Values stand
-- as the text that the database stores; what is stored for an error is a parameter. A failure is one
-- statement, as without noMultiMutationCte. The spies are left out.
pub mod Heartbeat
pub mod Active
pub mod Settles
use bun_boss.Base.{
  ℕ, ◌*◌, ◌/◌, min, max, String, Bool, true, false, if◌then◌else◌, List, [], ◌∷◌, map, Option, none,
  some, leb, length, ◌==◌, ◌&&◌,
}
use bun_boss.Job.{active, completed, state_eq, Job}
use bun_boss.Store.{Table, Result, ok, unique_violation, ◌>>=◌}
use bun_boss.Commands.{is_target, update_counted, complete, CommandResponse}
use bun_boss.Fail.{Env, output_for, fail_jobs_by_id, fail_jobs_with_outputs}
use bun_boss.Work.Settle.{
  HandlerResult, Output, given, no_disposition, Command, fail_all, complete_with_outputs,
  fail_with_outputs, dead_letter_with_outputs, settle_per_job,
}

-- completeJobsWithOutputs: the WHERE clause and the SET clause, and the number of rows.
abbrev pub completes_listed : String → List (ℕ × Option String) → Job → Bool
completes_listed name items j = is_target name (map (λ i. i.0) items) j && state_eq j.state active

abbrev pub set_listed : List (ℕ × Option String) → ℕ → Job → Job
set_listed items now j = record j {
  completed_on = some now;
  state = completed;
  output = output_for items j.id;
}

unfoldable pub complete_jobs_with_outputs :
    String → List (ℕ × Option String) → ℕ → Table → Result (Table × ℕ)
unfolding update_counted
complete_jobs_with_outputs name items now =
    update_counted (completes_listed name items) (set_listed items now)

-- Why a batch fails.
pub data Failure : Type 0 where
  handler_threw : String → Failure
  execution_exceeded : ℕ → Failure
  constraint_violated : Failure
  not_an_array : Failure
  no_disposition_returned : Failure

-- What a handler resolves with, read as an output and as an array of job results.
pub record Resolution : Type 0 where
  pub output : Option String
  pub job_results : HandlerResult

-- When and how a handler ends, in milliseconds from its call.
pub data Finish : Type 0 where
  resolves : ℕ → Resolution → Finish
  throws : ℕ → String → Finish
  never : Finish

pub data Settled : Type 0 where
  resolved : Resolution → Settled
  rejected : Failure → Settled

-- Promise.race with a timer. At the same moment the handler comes first: its timer was set first.
unfoldable pub resolve_within_seconds : Finish → ℕ → Settled
resolve_within_seconds (resolves ms r) seconds =
    if leb ms (max 1 seconds * 1000) then resolved r else rejected (execution_exceeded seconds)
resolve_within_seconds (throws ms e) seconds =
    if leb ms (max 1 seconds * 1000)
    then rejected (handler_threw e)
    else rejected (execution_exceeded seconds)
resolve_within_seconds never seconds = rejected (execution_exceeded seconds)

unfoldable pub max_expiration : List Job → ℕ
max_expiration [] = 0
max_expiration (j ∷ jobs) = max j.expire_seconds (max_expiration jobs)

-- heartbeatSeconds of the batch: the least that is set and not 0, or 0
abbrev pub least_set : ℕ → ℕ → ℕ
least_set s rest = if s == 0 then rest else if rest == 0 then s else min s rest

abbrev pub seconds_of : Option ℕ → ℕ
seconds_of none = 0
seconds_of (some s) = s

unfoldable pub batch_heartbeat : List Job → ℕ
batch_heartbeat [] = 0
batch_heartbeat (j ∷ jobs) = least_set (seconds_of j.heartbeat_seconds) (batch_heartbeat jobs)

-- The interval of the touches, in milliseconds; `none` sets no timer.
unfoldable pub refresh_ms : Option ℕ → List Job → Option ℕ
unfolding batch_heartbeat
refresh_ms (some seconds) jobs = if batch_heartbeat jobs == 0 then none else some (seconds * 1000)
refresh_ms none jobs =
    if batch_heartbeat jobs == 0 then none else some (batch_heartbeat jobs * 1000 / 2)

abbrev pub unless_thrown : {A B : Type 0} → Result A → (A → B) → B → B
unless_thrown (ok a) next otherwise = next a
unless_thrown unique_violation next otherwise = otherwise

module _ (stored : Failure → Option String) (e : Env) (name : String) where
  abbrev pub output_text : Output → Option String
  output_text (given o) = o
  output_text no_disposition = stored no_disposition_returned

  abbrev pub texts : List (ℕ × Output) → List (ℕ × Option String)
  texts items = map (λ i. (i.0, output_text i.1)) items

  unfoldable pub run_command : Command → Table → Result (Table × ℕ)
  unfolding complete_jobs_with_outputs fail_jobs_by_id fail_jobs_with_outputs
  run_command (fail_all ids) = fail_jobs_by_id e name ids (stored not_an_array)
  run_command (complete_with_outputs items) = complete_jobs_with_outputs name (texts items) e.now
  run_command (fail_with_outputs items) = fail_jobs_with_outputs e false name (texts items)
  run_command (dead_letter_with_outputs items) = fail_jobs_with_outputs e true name (texts items)

  -- The commands in turn, up to the first that throws: the table, and whether all ran.
  unfoldable pub run_commands : List Command → Table → Table × Bool
  unfolding run_command
  run_commands [] t = (t, true)
  run_commands (c ∷ cs) t = unless_thrown (run_command c t) (λ r. run_commands cs r.0) (t, false)

  -- The settlement of a batch whose handler resolved: the table, and settledCount if nothing throws.
  unfoldable pub settle : Bool → List ℕ → Resolution → Table → Table × Option ℕ
  unfolding run_commands settle_per_job complete
  settle false ids r t =
      unless_thrown (complete false name ids (if length ids == 1 then r.output else none) e.now t)
        (λ done. (done.0, some (length ids))) (t, none)
  settle true ids r t =
      let (commands, count) = settle_per_job ids r.job_results in
      let (u, all_ran) = run_commands commands t in (u, if all_ran then some count else none)

  -- The catch clause.
  unfoldable pub fail_batch : List ℕ → Failure → Table → Result (Table × ℕ)
  unfolding fail_jobs_by_id
  fail_batch ids failure t = fail_jobs_by_id e name ids (stored failure) t >>= λ r. ok (r.0, 0)

  unfoldable pub or_fail : List ℕ → Table × Option ℕ → Result (Table × ℕ)
  unfolding fail_batch
  or_fail ids (u, some count) = ok (u, count)
  or_fail ids (u, none) = fail_batch ids constraint_violated u

  unfoldable pub end_batch : Bool → List ℕ → Settled → Table → Result (Table × ℕ)
  unfolding settle fail_batch or_fail
  end_batch per_job_results ids (resolved r) t = or_fail ids (settle per_job_results ids r t)
  end_batch per_job_results ids (rejected failure) t = fail_batch ids failure t

  -- `t` is the table when the handler is done or its time is over. The result is the table and the number
  -- of settled jobs; an error is one of fail() itself.
  unfoldable pub process_jobs : Bool → List Job → Finish → Table → Result (Table × ℕ)
  unfolding resolve_within_seconds max_expiration end_batch
  process_jobs per_job_results jobs finish t =
      end_batch per_job_results (map (λ j. j.id) jobs)
        (resolve_within_seconds finish (max_expiration jobs)) t
