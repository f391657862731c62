-- ===== src/Redrive.antt =====
-- Moving jobs out of a dead letter queue: src/plans.ts (redriveJobs, selectJobsToRedrive,
-- insertRedriveJob) and src/manager.ts (redrive). A row locked by others is one of `locked`; jobs of
-- one moment come in the order of the table, which the statement leaves open.
pub mod Moves
use bun_boss.Base.{
  ℕ, ◌+◌, ◌*◌, String, Bool, true, false, not, ◌&&◌, if◌then◌else◌, List, [], ◌∷◌, ◌++◌, map,
  Option, none, some, str_eq, ltb, length, select, reject, take,
}
use bun_boss.Job.{State, created, active, state_lt, Job, coalesce}
use bun_boss.Store.{Table}
use bun_boss.Commands.{has_id}
use bun_boss.Fail.{insert_skipping}
use bun_boss.Fetch.{sort_by}
use bun_boss.Insert.{QueueDefaults, or_null}

abbrev pub find_queue : List QueueDefaults → String → Option QueueDefaults
find_queue [] name = none
find_queue (q ∷ qs) name = if str_eq q.name name then some q else find_queue qs name

-- The queue that is named COALESCE(destination, source_name).
abbrev pub destination_of : List QueueDefaults → Option String → Option QueueDefaults
destination_of qs none = none
destination_of qs (some name) = find_queue qs name

abbrev pub is_there {ℓ} : {A : Type ℓ} → Option A → Bool
is_there none = false
is_there (some a) = true

-- $3 IS NULL OR j.source_name = $3
abbrev pub from_source : Option String → Option String → Bool
from_source none source = true
from_source (some s) none = false
from_source (some s) (some source) = str_eq source s

pub record RedriveOptions : Type 0 where
  pub name : String
  pub destination : Option String
  pub source_name : Option String
  pub limit : ℕ

abbrev pub is_redrivable : RedriveOptions → List QueueDefaults → Job → Bool
is_redrivable o qs j =
    str_eq j.name o.name
    && (state_lt j.state active
        && (from_source o.source_name j.source_name
            && is_there (destination_of qs (or_null o.destination j.source_name))))

abbrev pub earlier : Job → Job → Bool
earlier a b = ltb a.created_on b.created_on

-- candidates, and selectJobsToRedrive, where no row is locked
unfoldable pub candidates : RedriveOptions → List QueueDefaults → (Job → Bool) → Table → List Job
unfolding sort_by
candidates o qs locked t =
    take o.limit (sort_by earlier (select (λ j. is_redrivable o qs j && not (locked j)) t))

-- A row of `ins`; gen_random_uuid() is given, and the other columns have their defaults.
abbrev pub redriven_row : ℕ → (Job → ℕ) → QueueDefaults → Job → Job
redriven_row now uuid q m = record {
  id = uuid m;
  name = q.name;
  priority = m.priority;
  job_data = m.job_data;
  state = created;
  retry_limit = q.retry_limit;
  retry_count = 0;
  retry_delay = q.retry_delay;
  retry_backoff = coalesce q.retry_backoff false;
  retry_delay_max = q.retry_delay_max;
  expire_seconds = q.expire_seconds;
  deletion_seconds = q.deletion_seconds;
  singleton_key = m.singleton_key;
  singleton_on = none;
  group_id = none;
  group_tier = none;
  start_after = now;
  created_on = now;
  started_on = none;
  completed_on = none;
  keep_until = now + q.retention_seconds * 1000;
  output = none;
  dead_letter = none;
  policy = q.policy;
  heartbeat_on = none;
  heartbeat_seconds = m.heartbeat_seconds;
  blocked = false;
  blocking = false;
  pending_dependencies = 0;
  source_name = none;
  source_id = none;
  source_created_on = none;
  source_retry_count = none;
}

abbrev pub row_for : ℕ → (Job → ℕ) → Option QueueDefaults → Job → List Job
row_for now uuid none m = []
row_for now uuid (some q) m = redriven_row now uuid q m ∷ []

-- moved JOIN queue
unfoldable pub redriven : ℕ → (Job → ℕ) → RedriveOptions → List QueueDefaults → List Job → List Job
redriven now uuid o qs [] = []
redriven now uuid o qs (m ∷ ms) =
    row_for now uuid (destination_of qs (or_null o.destination m.source_name)) m
    ++ redriven now uuid o qs ms

-- DELETE ... WHERE id IN (SELECT id FROM candidates), and deleteJobsByIds
abbrev pub is_moved : List Job → Job → Bool
is_moved cs j = has_id (map (λ c. c.id) cs) j.id

-- redriveJobs: the new table, and the number of rows inserted.
unfoldable pub redrive_jobs :
    ℕ → (Job → ℕ) → RedriveOptions → List QueueDefaults → (Job → Bool) → Table → Table × ℕ
unfolding candidates redriven insert_skipping
redrive_jobs now uuid o qs locked t =
    let cs = candidates o qs locked t in
    let moved = select (is_moved cs) t in
    let (u, rows) = insert_skipping (redriven now uuid o qs moved) (reject (is_moved cs) t) in
    (u, length rows)

-- The split form of Manager.redrive: a SELECT, a DELETE and an INSERT for each candidate.
unfoldable pub redrive_split :
    ℕ → (Job → ℕ) → RedriveOptions → List QueueDefaults → Table → Table × ℕ
unfolding candidates redriven insert_skipping
redrive_split now uuid o qs t =
    let cs = candidates o qs (λ j. false) t in
    let (u, rows) = insert_skipping (redriven now uuid o qs cs) (reject (is_moved cs) t) in
    (u, length rows)
