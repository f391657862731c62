-- ===== src/Queues/Stats.antt =====
-- The counts of a queue's jobs, and their cache on the queue table: src/plans.ts (getQueueStats,
-- cacheQueueStats, refreshQueueStats, getQueueStatsCache) and src/manager.ts (getQueueStats).
pub mod Sums
pub mod Fresh
use bun_boss.Base.{
  ℕ, ◌+◌, ◌-◌, ◌*◌, String, Bool, true, false, not, ◌&&◌, ◌||◌, if◌then◌else◌, List, [], ◌∷◌, map,
  max, Option, none, some, str_eq, ltb, leb, length, take, select,
}
use Prim.Native.String.{◌++◌ as text_append}
use bun_boss.Job.{active, failed, state_lt, state_eq, policy_is, singleton, stately, Job}
use bun_boss.Store.{Table}
use bun_boss.Attorney.{Checked, accepted, refused, ◌>>=◌, ◌>>◌}
use bun_boss.Commands.{has_name}
use bun_boss.Names.{assert_queue_name}
use bun_boss.Queues.{Counts, no_counts, QueueRow, Database, is_named, has_queue, set_where}

-- count(*) FILTER (WHERE p)
abbrev pub count : (Job → Bool) → Table → ℕ
count p t = length (select p t)

abbrev pub is_queued : Job → Bool
is_queued j = state_lt j.state active

abbrev pub is_deferred : ℕ → Job → Bool
is_deferred now j = ltb now j.start_after && is_queued j

abbrev pub is_of : String → Job → Bool
is_of name j = str_eq j.name name

-- The aggregates over the rows of one group.
unfoldable pub counts_of : ℕ → Table → Counts
counts_of now t = record {
  deferred_count = count (is_deferred now) t;
  queued_count = count is_queued t;
  ready_count = count is_queued t - count (is_deferred now) t;
  active_count = count (λ j. state_eq j.state active) t;
  failed_count = count (λ j. state_eq j.state failed) t;
  total_count = length t;
}

abbrev pub is_singleton_active : Job → Bool
is_singleton_active j =
    (policy_is singleton j.policy || policy_is stately j.policy) && state_eq j.state active

-- array_agg over no rows is NULL.
abbrev pub or_null : {A : Type 0} → List A → Option (List A)
or_null [] = none
or_null (x ∷ xs) = some (x ∷ xs)

abbrev pub singletons_of : Table → Option (List (Option String))
singletons_of t = or_null (map (λ j. j.singleton_key) (select is_singleton_active t))

-- A row of getQueueStats, for a name: a queue without jobs has none.
unfoldable pub get_queue_stats :
    ℕ → String → Table → Option (Counts × Option (List (Option String)))
unfolding counts_of
get_queue_stats now name t = elim (select (is_of name) t) [
  | [] ↦ none
  | j ∷ rest ↦ some (counts_of now (j ∷ rest), singletons_of (j ∷ rest))
]

-- The row of the LEFT JOIN, with COALESCE(..., 0).
abbrev pub joined :
    Option (Counts × Option (List (Option String))) → Counts × Option (List (Option String))
joined none = (no_counts, none)
joined (some stats) = stats

abbrev pub ready_history_size : ℕ
ready_history_size = 60

unfoldable pub with_stats : ℕ → Table → QueueRow → QueueRow
unfolding get_queue_stats
with_stats now t q =
    let stats = joined (get_queue_stats now q.columns.name t) in
    record q {
      columns = record q.columns { counts = stats.0; singletons_active = stats.1 };
      ready_history = take ready_history_size (stats.0.ready_count ∷ q.ready_history);
    }

-- cacheQueueStats: the database, and the rows returned.
unfoldable pub cache_queue_stats : ℕ → List String → Database → Database × List QueueRow
unfolding with_stats set_where
cache_queue_stats now names db =
    let test : QueueRow → Bool = λ q. has_name names q.columns.name in
    (
      record db { queues = set_where test (with_stats now db.jobs) db.queues },
      map (with_stats now db.jobs) (select test db.queues),
    )

unfoldable pub refreshed_row : ℕ → Table → QueueRow → QueueRow
unfolding get_queue_stats
refreshed_row now t q =
    let stats = joined (get_queue_stats now q.columns.name t) in
    record q {
      columns = record q.columns { counts = stats.0; singletons_active = stats.1 };
      monitor_on = some now;
    }

-- refreshQueueStats
unfoldable pub refresh_queue_stats : ℕ → String → Database → Database
unfolding refreshed_row set_where
refresh_queue_stats now name db = record db {
  queues = set_where (is_named name) (refreshed_row now db.jobs) db.queues;
}

-- getQueueStatsCache: the row of that name
unfoldable pub find_row : String → List QueueRow → Option QueueRow
find_row name [] = none
find_row name (q ∷ qs) = if is_named name q then some q else find_row name qs

-- A QueueStats; `captured_on` is the clock where the row has none.
pub record Snapshot : Type 0 where
  pub name : String
  pub counts : Counts
  pub captured_on : ℕ

abbrev pub to_snapshot : ℕ → String → QueueRow → Snapshot
to_snapshot now name row = record {
  name = name;
  counts = row.columns.counts;
  captured_on = elim row.monitor_on [ none ↦ now | some t ↦ t ];
}

-- `monitorIntervalSeconds` and `superviseIntervalSeconds`
pub record Intervals : Type 0 where
  pub monitor_seconds : Option ℕ
  pub supervise_seconds : Option ℕ

abbrev pub or_zero : Option ℕ → ℕ
or_zero none = 0
or_zero (some n) = n

-- QUEUE_STATS_FORCE_TTL_SECONDS is 60, QUEUE_STATS_CACHE_TTL_SECONDS 3600.
unfoldable pub max_cache_age_ms : Bool → Intervals → ℕ
max_cache_age_ms force c =
    (if force then 60 else max 3600 (max (or_zero c.monitor_seconds) (or_zero c.supervise_seconds)))
    * 1000

-- cacheAgeMs <= maxCacheAgeMs; a queue that was never monitored is infinitely old
abbrev pub is_fresh : ℕ → ℕ → Option ℕ → Bool
is_fresh now max_age none = false
is_fresh now max_age (some captured) = leb (now - captured) max_age

abbrev pub or_cached : Option QueueRow → QueueRow → QueueRow
or_cached none cached = cached
or_cached (some row) cached = row

-- What is served for a row of the queue table: the cached counts, or those computed anew.
unfoldable pub serve : ℕ → Bool → Intervals → String → QueueRow → Database → Database × Snapshot
unfolding refresh_queue_stats find_row max_cache_age_ms
serve now force c name cached db =
    let db' = refresh_queue_stats now name db in
    if is_fresh now (max_cache_age_ms force c) cached.monitor_on
    then (db, to_snapshot now name cached)
    else (db', to_snapshot now name (or_cached (find_row name db'.queues) cached))

module _ (units : String → List ℕ) where
  abbrev pub or_missing :
      String → Option QueueRow → (QueueRow → Database × Snapshot) → Checked (Database × Snapshot)
  or_missing name none f = refused (text_append "Queue " (text_append name " does not exist"))
  or_missing name (some cached) f = accepted (f cached)

  -- Manager.getQueueStats
  unfoldable pub queue_stats :
      ℕ → Bool → Intervals → String → Database → Checked (Database × Snapshot)
  unfolding serve find_row
  queue_stats now force c name db =
      assert_queue_name (units name)
      >> or_missing name (find_row name db.queues) λ cached. serve now force c name cached db
