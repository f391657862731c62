-- ===== src/Tests/Values.antt =====
-- The results on values that hold no table.
use bun_boss.Base.{ℕ, ◌≤◌, ◌≡◌, refl, String, false, List, [], ◌∷◌, Option, none, length, any, All}
use bun_boss.Job.{ℤ, pos}
use bun_boss.Supervise.{QueueRef, supervise}
use bun_boss.Supervise.Chunks.{supervise-times, chunk_times, queue_times}
use bun_boss.Names.{assert_postgres_object_name, resolve_schema_name, byte_length}
use bun_boss.Names.Quoting.{assert_postgres_object_name-safe, is_dangerous}
use bun_boss.Attorney.{absent, num, Config, set_key}
use bun_boss.Work.Settle.{array, entry, completed, settle_per_job, all_named, settle_per_job-perm}
use bun_boss.Work.Interval.{PollOptions}
use bun_boss.Work.Loop.{
  start, notify, fetched, stop, new_worker, step, run, stop-fetches, run-IsAwake, IsAwake,
}
use mathlib.Core.List.{Perm}

abbrev two_tables : List QueueRef
two_tables =
    record { name = "a"; table = "job_common" }
    ∷ record { name = "b"; table = "jmail" }
    ∷ record { name = "c"; table = "job_common" }
    ∷ []

supervise-times_example :
    All (λ c. length c.1 ≤ 100) (supervise two_tables)
    × ((t x : String) → chunk_times t x (supervise two_tables) ≡ queue_times t x two_tables)
supervise-times_example = supervise-times two_tables

-- "A"
abbrev quoted_a : List ℕ
quoted_a = 34 ∷ 65 ∷ 34 ∷ []

assert_postgres_object_name-safe_example :
    (any is_dangerous (resolve_schema_name quoted_a) ≡ false)
    × ((1 ≤ length (resolve_schema_name quoted_a))
        × (byte_length (resolve_schema_name quoted_a) ≤ 50))
unfolding assert_postgres_object_name
assert_postgres_object_name-safe_example = assert_postgres_object_name-safe quoted_a refl

abbrev no_numbers : String → Option ℤ
no_numbers s = none

abbrev defaults : Config
defaults key = absent

abbrev ops_defaults : Config
ops_defaults = set_key "queueCacheIntervalSeconds" (num (pos 60000)) (
    set_key "monitorIntervalSeconds" (num (pos 60000)) (
      set_key "maintenanceIntervalSeconds" (num (pos 86400000))
        (set_key "superviseIntervalSeconds" (num (pos 60000)) defaults)))

abbrev polling_defaults : Config
polling_defaults =
    set_key "notifyPollingInterval" (num (pos 30000000))
      (set_key "pollingInterval" (num (pos 2000000)) defaults)

settle_per_job-perm_example :
    Perm
      (all_named (settle_per_job (1 ∷ 2 ∷ []) (array (entry 2 completed none ∷ []))).0)
      (1 ∷ 2 ∷ [])
settle_per_job-perm_example = settle_per_job-perm (1 ∷ 2 ∷ []) (array (entry 2 completed none ∷ []))

abbrev polls : PollOptions
polls = record {
  interval = 2000;
  notify_interval = 30000;
  burst_when_ready_exceeds = none;
  burst_when_batch_full = false;
  burst_while_non_empty = none;
  batch_size = 5;
}

stop-fetches_example :
    (run (step (start new_worker) stop) (fetched 3 ∷ [])).fetches ≡ (start new_worker).fetches
stop-fetches_example = stop-fetches (start new_worker) (fetched 3 ∷ [])

run-IsAwake_example :
    IsAwake (run new_worker (notify ∷ []))
    × IsAwake (run (start (run new_worker (notify ∷ []))) (fetched 3 ∷ []))
run-IsAwake_example = run-IsAwake (notify ∷ []) (fetched 3 ∷ [])
