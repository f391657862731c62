-- ===== src/Supervise/Pass.antt =====
-- A pass of the supervisor over the queues: src/boss.ts (#monitor, #maintain, supervise) with
-- src/plans.ts (trySetQueueMonitorTime, trySetQueueDeletionTime). The tests of `#stopping` in a chunk are
-- numbered in their order; what each finds is an argument. The time of a statement is
-- the pass's. staleAfter is that of Postgres.
pub mod Claims
pub mod Idle
pub mod Expires
use bun_boss.Base.{
  ℕ, suc, ◌-◌, ◌*◌, String, Bool, true, false, ◌&&◌, ◌||◌, if◌then◌else◌, List, [], ◌∷◌, ◌++◌, map,
  Option, none, some, ltb, ◌==◌, select,
}
use bun_boss.Job.{Job}
use bun_boss.Store.{Table, Result, ok, unique_violation}
use bun_boss.Attorney.{Checked, accepted, refused}
use bun_boss.Commands.{has_name, deletion}
use bun_boss.Fail.{Env, Queue, fail_jobs_by_timeout, fail_jobs_by_heartbeat}
use bun_boss.Fail.Split.{fail_jobs_by_timeout_no_cte, fail_jobs_by_heartbeat_no_cte}
use bun_boss.Flows.{Dependency, cleanup_dependencies}
use bun_boss.Queues.{QueueRow, Database, set_where}
use bun_boss.Queues.Stats.{cache_queue_stats}
use bun_boss.Supervise.{QueueRef, supervise}

-- now - COALESCE(column, now - interval '1 week') > seconds
abbrev pub is_stale : ℕ → ℕ → Option ℕ → Bool
is_stale now seconds none = ltb (seconds * 1000) 604800000
is_stale now seconds (some set) = ltb (seconds * 1000) (now - set)

pub data Column : Type 0 where
  monitor_on maintain_on : Column

abbrev pub stamp : Column → QueueRow → Option ℕ
stamp monitor_on q = q.monitor_on
stamp maintain_on q = q.maintain_on

abbrev pub set_stamp : Column → ℕ → QueueRow → QueueRow
set_stamp monitor_on now q = record q { monitor_on = some now }
set_stamp maintain_on now q = record q { maintain_on = some now }

abbrev pub is_due : Column → ℕ → ℕ → List String → QueueRow → Bool
is_due column now seconds names q =
    has_name names q.columns.name && is_stale now seconds (stamp column q)

-- trySetQueueTimestamp: the rows left, and the names returned.
unfoldable pub try_set : Column → ℕ → ℕ → List String → List QueueRow → List QueueRow × List String
unfolding set_where
try_set column now seconds names qs = (
  set_where (is_due column now seconds names) (set_stamp column now) qs,
  map (λ q. q.columns.name) (select (is_due column now seconds names) qs),
)

-- monitorIntervalSeconds, maintenanceIntervalSeconds, warningQueueSize, noMultiMutationCte; the
-- clock, random() and gen_random_uuid().
pub record Settings : Type 0 where
  pub monitor_seconds : ℕ
  pub maintenance_seconds : ℕ
  pub large_queue_size : ℕ
  pub no_multi_mutation_cte : Bool
  pub now : ℕ
  pub random : Job → ℕ
  pub uuid : Job → ℕ

abbrev pub dead_letter_columns : QueueRow → Queue
dead_letter_columns q = record {
  name = q.columns.name;
  retry_limit = q.columns.retry_limit;
  retry_backoff = q.columns.retry_backoff;
  retry_delay = q.columns.retry_delay;
  retention_seconds = q.columns.retention_seconds;
  deletion_seconds = q.columns.deletion_seconds;
  expire_seconds = q.columns.expire_seconds;
}

abbrev pub env_of : Settings → Database → Env
env_of c db = record {
  now = c.now;
  random = c.random;
  uuid = c.uuid;
  queues = map dead_letter_columns db.queues;
}

-- The database, the names warned of, and whether a statement raised an error.
abbrev pub Outcome : Type 0
Outcome = Database × (List String × Checked (Unit {0}))

abbrev pub is_large : ℕ → QueueRow → Bool
is_large large q =
    ltb (if q.columns.warning_queued == 0 then large else q.columns.warning_queued)
      q.columns.counts.queued_count

abbrev pub on_jobs : List String → Result (Table × ℕ) → Database → (Database → Outcome) → Outcome
on_jobs warned unique_violation db next = (db, (warned, refused "23505"))
on_jobs warned (ok (t, n)) db next = next (record db { jobs = t })

abbrev pub expire_by_timeout : Settings → List String → Database → Result (Table × ℕ)
expire_by_timeout c queues db =
    if c.no_multi_mutation_cte
    then fail_jobs_by_timeout_no_cte (env_of c db) queues db.jobs
    else fail_jobs_by_timeout (env_of c db) queues db.jobs

abbrev pub expire_by_heartbeat : Settings → List String → Database → Result (Table × ℕ)
expire_by_heartbeat c queues db =
    if c.no_multi_mutation_cte
    then fail_jobs_by_heartbeat_no_cte (env_of c db) queues db.jobs
    else fail_jobs_by_heartbeat (env_of c db) queues db.jobs

-- #monitor, from the refresh of the counts on; `queues` are those that trySetQueueMonitorTime returned.
abbrev pub monitor_queues : Settings → (ℕ → Bool) → List String → Database → Outcome
monitor_queues c stopping [] db = (db, ([], accepted tt))
monitor_queues c stopping (q ∷ queues) db =
    let (counted, rows) = cache_queue_stats c.now (q ∷ queues) db in
    let warned = map (λ r. r.columns.name) (select (is_large c.large_queue_size) rows) in
    if stopping 2
    then (counted, ([], accepted tt))
    else on_jobs warned (expire_by_timeout c (q ∷ queues) counted) counted λ d.
      if stopping 3
      then (d, (warned, accepted tt))
      else on_jobs warned (expire_by_heartbeat c (q ∷ queues) d) d λ e. (e, (warned, accepted tt))

unfoldable pub monitor : Settings → (ℕ → Bool) → List String → Database → Outcome
unfolding try_set
monitor c stopping names db =
    let (queues', due) = try_set monitor_on c.now c.monitor_seconds names db.queues in
    let set = record db { queues = queues' } in
    if stopping 0
    then (db, ([], accepted tt))
    else if stopping 1
    then (set, ([], accepted tt))
    else monitor_queues c stopping due set

-- #maintain, from the deletion on.
abbrev pub maintain_queues :
    Settings → List String → Database → List Dependency → Database × List Dependency
maintain_queues c [] db deps = (db, deps)
maintain_queues c (q ∷ queues) db deps =
    let t = (deletion (q ∷ queues) c.now db.jobs).0 in
    (record db { jobs = t }, cleanup_dependencies (q ∷ queues) t deps)

unfoldable pub maintain :
    Settings → (ℕ → Bool) → List String → Database → List Dependency → Database × List Dependency
unfolding try_set
maintain c stopping names db deps =
    let (queues', due) = try_set maintain_on c.now c.maintenance_seconds names db.queues in
    let set = record db { queues = queues' } in
    if stopping 4
    then (db, deps)
    else if stopping 5
    then (set, deps)
    else maintain_queues c due set deps

-- The chunks of a pass, in order. An error ends it, and so does a stop, which is tested before each.
pub record Passed : Type 0 where
  pub db : Database
  pub dependencies : List Dependency
  pub warned : List String
  pub outcome : Checked (Unit {0})

abbrev pub after_monitor :
    Settings
    → (ℕ → Bool)
    → List String
    → List Dependency
    → (Database → List Dependency → Passed)
    → Outcome
    → Passed
after_monitor c stopping names deps next (db, (warned, refused e)) = record {
  db = db;
  dependencies = deps;
  warned = warned;
  outcome = refused e;
}
after_monitor c stopping names deps next (db, (warned, accepted tt)) =
    let (db', deps') = maintain c stopping names db deps in
    let rest = next db' deps' in record rest { warned = warned ++ rest.warned }

unfoldable pub pass :
    Settings
    → (ℕ → ℕ → Bool)
    → ℕ
    → List (String × List String)
    → Database
    → List Dependency
    → Passed
unfolding monitor maintain
pass c stopping i [] db deps = record {
  db = db;
  dependencies = deps;
  warned = [];
  outcome = accepted tt;
}
pass c stopping i ((table, names) ∷ chunks) db deps =
    let worked =
      after_monitor c (stopping i) names deps (pass c stopping (suc i) chunks)
        (monitor c (stopping i) names db) in
    if stopping i 6
    then record { db = db; dependencies = deps; warned = []; outcome = accepted tt }
    else worked

-- #onSupervise: all queues, grouped by their table in chunks of names.
unfoldable pub on_supervise : Settings → (ℕ → ℕ → Bool) → Database → List Dependency → Passed
unfolding pass
on_supervise c stopping db deps =
    let refs = map (λ q. record { name = q.columns.name; table = q.columns.table }) db.queues in
    pass c stopping 0 (supervise refs) db deps
