-- ===== src/Queues.antt =====
-- The queue table and the statements on it: src/plans.ts (createTableQueue, createQueueFunction,
-- createQueueSqlite, updateQueue, getQueues, deleteQueueFunction, deleteQueue, trySetQueueTimestamp).
-- A foreign key or a check that fails is its code. Options are typed: the checks of their
-- ranges are validate_queue_args of Arguments. All partitions are one table, so that the
-- table of a partition is only a name here; its name, a hash, is a parameter.
pub mod Sound
pub mod Cache
pub mod Entries
pub mod Coherent
pub mod Lookup
pub mod Histories
pub mod Stats
use bun_boss.Base.{
  ℕ, ◌-◌, ◌*◌, ◌+◌, String, Bool, true, false, not, ◌&&◌, ◌||◌, if◌then◌else◌, List, [], ◌∷◌, map,
  Option, none, some, str_eq, ltb, any, select, reject,
}
use bun_boss.Job.{Policy, Job}
use bun_boss.Store.{Table}
use bun_boss.Attorney.{Checked, accepted, refused, ◌>>=◌, ◌>>◌, check}
use bun_boss.Commands.{has_name}

pub record Counts : Type 0 where
  pub deferred_count : ℕ
  pub queued_count : ℕ
  pub ready_count : ℕ
  pub active_count : ℕ
  pub failed_count : ℕ
  pub total_count : ℕ

abbrev pub no_counts : Counts
no_counts = record {
  deferred_count = 0;
  queued_count = 0;
  ready_count = 0;
  active_count = 0;
  failed_count = 0;
  total_count = 0;
}

-- The columns that getQueues selects.
pub record QueueResult : Type 0 where
  pub name : String
  pub policy : Policy
  pub retry_limit : ℕ
  pub retry_delay : ℕ
  pub retry_backoff : Bool
  pub retry_delay_max : Option ℕ
  pub expire_seconds : ℕ
  pub retention_seconds : ℕ
  pub deletion_seconds : ℕ
  pub partition : Bool
  pub heartbeat_seconds : Option ℕ
  pub notify : Bool
  pub dead_letter : Option String
  pub warning_queued : ℕ
  pub counts : Counts
  pub singletons_active : Option (List (Option String))
  pub table : String
  pub created_on : ℕ
  pub updated_on : ℕ

-- A row of the queue table.
pub record QueueRow : Type 0 where
  pub columns : QueueResult
  pub ready_history : List ℕ
  pub monitor_on : Option ℕ
  pub maintain_on : Option ℕ

-- A row of the schedule table.
pub record Schedule : Type 0 where
  pub name : String
  pub key : String
  pub cron : String
  pub timezone : String
  pub job_data : Option String
  pub options : Option String
  pub created_on : ℕ
  pub updated_on : ℕ

pub record Database : Type 0 where
  pub queues : List QueueRow
  pub jobs : Table
  pub schedules : List Schedule

-- A key of the options' json.
pub data Field (A : Type 0) : Type 0 where
  missing null : Field A
  value : A → Field A

-- options->>'key'
abbrev pub as_column : {A : Type 0} → Field A → Option A
as_column missing = none
as_column null = none
as_column (value a) = some a

-- COALESCE(options->>'key', d)
abbrev pub or_default : {A : Type 0} → Field A → A → A
or_default missing d = d
or_default null d = d
or_default (value a) d = a

-- CASE WHEN options ? 'key' THEN options->>'key' ELSE column END
abbrev pub or_kept : {A : Type 0} → Field A → Option A → Option A
or_kept missing old = old
or_kept null old = none
or_kept (value a) old = some a

pub record QueueOptions : Type 0 where
  pub retry_limit : Field ℕ
  pub retry_delay : Field ℕ
  pub retry_backoff : Field Bool
  pub retry_delay_max : Field ℕ
  pub expire_in_seconds : Field ℕ
  pub retention_seconds : Field ℕ
  pub delete_after_seconds : Field ℕ
  pub warning_queue_size : Field ℕ
  pub dead_letter : Field String
  pub heartbeat_seconds : Field ℕ
  pub notify : Field Bool

abbrev pub is_named : String → QueueRow → Bool
is_named name q = str_eq q.columns.name name

unfoldable pub has_queue : List QueueRow → String → Bool
has_queue qs name = any (is_named name) qs

-- QUEUE_DEFAULTS are the numbers; `simple` is the form without partitioning, which also leaves
-- out the column `notify`.
unfoldable pub created_row :
    Bool → (String → String) → ℕ → String → Policy → Bool → QueueOptions → QueueRow
created_row simple hash now name policy partition o = record {
  columns = record {
    name = name;
    policy = policy;
    retry_limit = or_default o.retry_limit 2;
    retry_delay = or_default o.retry_delay 0;
    retry_backoff = or_default o.retry_backoff false;
    retry_delay_max = as_column o.retry_delay_max;
    expire_seconds = or_default o.expire_in_seconds 900;
    retention_seconds = or_default o.retention_seconds 1209600;
    deletion_seconds = or_default o.delete_after_seconds 604800;
    partition = not simple && partition;
    heartbeat_seconds = as_column o.heartbeat_seconds;
    notify = not simple && or_default o.notify false;
    dead_letter = as_column o.dead_letter;
    warning_queued = or_default o.warning_queue_size 0;
    counts = no_counts;
    singletons_active = none;
    table = if not simple && partition then hash name else "job";
    created_on = now;
    updated_on = now;
  };
  ready_history = [];
  monitor_on = none;
  maintain_on = none;
}

-- CHECK (dead_letter IS DISTINCT FROM name)
abbrev pub is_other : String → Option String → Bool
is_other name none = true
is_other name (some d) = not (str_eq d name)

-- dead_letter REFERENCES queue (name)
abbrev pub refers : List QueueRow → Option String → Bool
refers qs none = true
refers qs (some d) = has_queue qs d

abbrev pub check_row : List QueueRow → QueueRow → Checked (Unit {0})
check_row qs row = do
  check (is_other row.columns.name row.columns.dead_letter) "23514"
  check (refers qs row.columns.dead_letter) "23503"

-- INSERT ... ON CONFLICT DO NOTHING: the check comes first, the reference only with a new row.
unfoldable pub insert_queue : QueueRow → Database → Checked Database
unfolding has_queue
insert_queue row db =
    if has_queue db.queues row.columns.name
    then (check (is_other row.columns.name row.columns.dead_letter) "23514" >> accepted db)
    else (check_row db.queues row >> accepted (record db { queues = row ∷ db.queues }))

unfoldable pub updated_row : ℕ → QueueOptions → QueueRow → QueueRow
updated_row now o q = record q {
  columns = record q.columns {
    retry_limit = or_default o.retry_limit q.columns.retry_limit;
    retry_delay = or_default o.retry_delay q.columns.retry_delay;
    retry_backoff = or_default o.retry_backoff q.columns.retry_backoff;
    retry_delay_max = or_kept o.retry_delay_max q.columns.retry_delay_max;
    expire_seconds = or_default o.expire_in_seconds q.columns.expire_seconds;
    retention_seconds = or_default o.retention_seconds q.columns.retention_seconds;
    deletion_seconds = or_default o.delete_after_seconds q.columns.deletion_seconds;
    warning_queued = or_default o.warning_queue_size q.columns.warning_queued;
    heartbeat_seconds = or_kept o.heartbeat_seconds q.columns.heartbeat_seconds;
    notify = or_default o.notify q.columns.notify;
    dead_letter = or_kept o.dead_letter q.columns.dead_letter;
    updated_on = now;
  };
}

-- UPDATE queue SET f WHERE p, with the constraints of the rows that it changes.
unfoldable pub check_rows :
    (QueueRow → Bool) → (QueueRow → QueueRow) → List QueueRow → List QueueRow → Checked (Unit {0})
check_rows p f qs [] = accepted tt
check_rows p f qs (q ∷ rest) =
    (if p q then check_row qs (f q) else accepted tt) >> check_rows p f qs rest

unfoldable pub set_where : (QueueRow → Bool) → (QueueRow → QueueRow) → List QueueRow → List QueueRow
set_where p f qs = map (λ q. if p q then f q else q) qs

unfoldable pub update_queue : ℕ → String → QueueOptions → Database → Checked Database
unfolding check_rows set_where updated_row
update_queue now name o db = do
  check_rows (is_named name) (updated_row now o) db.queues db.queues
  accepted (record db { queues = set_where (is_named name) (updated_row now o) db.queues })

abbrev pub is_to : String → Option String → Bool
is_to name none = false
is_to name (some d) = str_eq d name

-- The jobs go first; a reference from another row refuses the whole; schedules go with the queue.
unfoldable pub delete_queue : String → Database → Checked Database
delete_queue name db =
    let jobs' = reject (λ j. str_eq j.name name) db.jobs in
    let queues' = reject (is_named name) db.queues in
    check (not (any (λ j. is_to name j.dead_letter) jobs')) "23503"
    >> (check (not (any (λ q. is_to name q.columns.dead_letter) queues')) "23503"
        >> accepted (record {
          queues = queues';
          jobs = jobs';
          schedules = reject (λ s. str_eq s.name name) db.schedules;
        }))

unfoldable pub get_queues : Option (List String) → Database → List QueueResult
get_queues none db = map (λ q. q.columns) db.queues
get_queues (some []) db = map (λ q. q.columns) db.queues
get_queues (some (n ∷ names)) db =
    map (λ q. q.columns) (select (λ q. has_name (n ∷ names) q.columns.name) db.queues)
