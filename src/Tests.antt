-- ===== src/Tests.antt =====
-- Concrete rows, and each result applied to them.
mod Queueing
mod Supervising
mod Rows
mod Values
mod Failing
mod Lives
mod Waiting
mod Adapting
mod Arguing
mod Redriving
mod Processing
use bun_boss.Base.{ℕ, String, false, [], ◌∷◌, none, some}
use bun_boss.Job.{State, created, active, completed, pos, Policy, short, Job}
use bun_boss.Store.{Table}

-- A job of the queue "mail" that starts at once.
abbrev pub sample : ℕ → State → Job
sample id state = record {
  id = id;
  name = "mail";
  priority = pos 0;
  job_data = none;
  state = state;
  retry_limit = 2;
  retry_count = 0;
  retry_delay = 0;
  retry_backoff = false;
  retry_delay_max = none;
  expire_seconds = 900;
  deletion_seconds = 604800;
  singleton_key = some "daily";
  singleton_on = none;
  group_id = none;
  group_tier = none;
  start_after = 1000;
  created_on = 1000;
  started_on = none;
  completed_on = none;
  keep_until = 9000000;
  output = none;
  dead_letter = none;
  policy = some short;
  heartbeat_on = none;
  heartbeat_seconds = none;
  blocked = false;
  blocking = false;
  pending_dependencies = 0;
  source_name = none;
  source_id = none;
  source_created_on = none;
  source_retry_count = none;
}

abbrev pub three_rows : Table
three_rows = sample 1 created ∷ sample 2 active ∷ sample 3 completed ∷ []
