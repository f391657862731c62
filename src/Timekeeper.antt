-- ===== src/Timekeeper.antt =====
-- Cron schedules: src/timekeeper.ts (Timekeeper) with src/plans.ts (schedule, unschedule, getSchedules,
-- trySetCronTime). croner is a parameter: `previous cron tz t` is previousRuns(1, t), and `is_valid` says whether its constructor accepts an expression and a timezone. The tests
-- of `stopped` are numbered in their order. Times are milliseconds.
pub mod Occurrences
pub mod Once
pub mod Keyed
use bun_boss.Base.{
  ℕ, suc, ◌+◌, ◌-◌, ◌*◌, ◌/◌, String, Bool, true, false, not, ◌&&◌, ◌||◌, if◌then◌else◌, List, [],
  ◌∷◌, map, Option, none, some, str_eq, ltb, leb, select, reject,
}
use Prim.Native.String.{◌++◌ as text_append}
use bun_boss.Job.{ℤ, pos, negsuc, Job}
use bun_boss.Store.{Table}
use bun_boss.Attorney.{Checked, accepted, refused, ◌>>=◌, ◌>>◌, check}
use bun_boss.Names.{assert_key}
use bun_boss.Insert.{JobInput, QueueDefaults, insert_jobs}
use bun_boss.Queues.{Schedule, Database, has_queue}
use bun_boss.Supervise.Pass.{is_stale}

-- dbTime - local
unfoldable pub skew_of : ℕ → ℕ → ℤ
skew_of db_time local =
    if leb local db_time then pos (db_time - local) else negsuc (local - db_time - 1)

-- Date.now() + clockSkew
unfoldable pub database_time : ℕ → ℤ → ℕ
database_time now (pos s) = now + s
database_time now (negsuc s) = now - suc s

abbrev pub seconds_off : ℤ → ℕ
seconds_off (pos s) = s
seconds_off (negsuc s) = suc s

-- cacheClockSkew: the skew kept, and whether it is warned of; no time is an error, which keeps it.
unfoldable pub cache_clock_skew : ℕ → Option ℕ → ℤ → ℤ × Bool
unfolding skew_of
cache_clock_skew local none skew = (skew, false)
cache_clock_skew local (some db_time) skew =
    (skew_of db_time local, leb 60000 (seconds_off (skew_of db_time local)))

abbrev pub has_key : String → String → Schedule → Bool
has_key name key s = str_eq s.name name && str_eq s.key key

-- getSchedules: `sorted` is the order by name and key; an empty or missing name is `none`.
unfoldable pub get_schedules :
    (List Schedule → List Schedule) → Option String → Option String → List Schedule → List Schedule
get_schedules sorted none key l = sorted l
get_schedules sorted (some name) none l = sorted (select (λ s. str_eq s.name name) l)
get_schedules sorted (some name) (some key) l = select (has_key name key) l

-- INSERT ... ON CONFLICT (name, key) DO UPDATE
unfoldable pub put_schedule : ℕ → Schedule → List Schedule → List Schedule
put_schedule now s [] = record s { created_on = now; updated_on = now } ∷ []
put_schedule now s (x ∷ l) =
    if has_key s.name s.key x
    then record x {
      cron = s.cron;
      timezone = s.timezone;
      job_data = s.job_data;
      options = s.options;
      updated_on = now;
    }
      ∷ l
    else x ∷ put_schedule now s l

-- Timekeeper.schedule: `checks` are those of checkSendArgs, and a foreign key that fails is reported.
unfoldable pub schedule :
    (String → String → Bool)
    → (Schedule → Checked (Unit {0}))
    → (String → List ℕ)
    → ℕ
    → Schedule
    → Database
    → Checked Database
unfolding put_schedule
schedule is_valid checks units now s db = do
  check (is_valid s.cron s.timezone) "invalid cron"
  checks s
  assert_key (units s.key)
  check (has_queue db.queues s.name) (text_append "Queue " (text_append s.name " not found"))
  accepted (record db { schedules = put_schedule now s db.schedules })

unfoldable pub unschedule : String → String → Database → Database
unschedule name key db = record db { schedules = reject (has_key name key) db.schedules }

abbrev pub is_recent : ℕ → Option ℕ → Bool
is_recent now none = false
is_recent now (some t) = ltb (now - t) 60000

-- The jobs that cron() inserts; `request` is the json of { name, data, options }.
abbrev pub no_options : JobInput
no_options = record {
  id = none;
  priority = none;
  job_data = none;
  start_after = none;
  retry_limit = none;
  retry_delay = none;
  retry_delay_max = none;
  retry_backoff = none;
  singleton_key = none;
  singleton_seconds = none;
  singleton_offset = none;
  group_id = none;
  group_tier = none;
  expire_in_seconds = none;
  delete_after_seconds = none;
  retention_seconds = none;
  dead_letter = none;
  heartbeat_seconds = none;
  blocked = none;
  blocking = none;
  pending_dependencies = none;
}

unfoldable pub send_it_job : (Schedule → String) → Schedule → JobInput
send_it_job request s = record no_options {
  job_data = some (request s);
  singleton_key = some (text_append s.name (text_append "__" s.key));
  singleton_seconds = some 60;
}

abbrev pub insert_scheduled :
    (JobInput → ℕ) → QueueDefaults → ℕ → Bool → List JobInput → Table → Table
insert_scheduled uuid queue now stopped [] t = t
insert_scheduled uuid queue now stopped (j ∷ js) t =
    if stopped then t else (insert_jobs now uuid queue (j ∷ js) t).0

module _ (previous : String → String → ℕ → Option ℕ) where
  -- shouldSendIt: the anchor is the start of the next second.
  unfoldable pub should_send_it : String → String → ℕ → Bool
  should_send_it cron tz now = is_recent now (previous cron tz (now / 1000 * 1000 + 1000))

  -- cron(): `now` is the database's clock, and `time` the instance's idea of it.
  unfoldable pub cron :
      (List Schedule → List Schedule)
      → (Schedule → String)
      → (JobInput → ℕ)
      → QueueDefaults
      → ℕ
      → ℕ
      → Bool
      → Database
      → Database
  unfolding should_send_it send_it_job get_schedules
  cron sorted request uuid queue now time stopped db =
      let due =
        select (λ s. should_send_it s.cron s.timezone time)
          (get_schedules sorted none none db.schedules) in
      record db {
        jobs = insert_scheduled uuid queue now stopped (map (send_it_job request) due) db.jobs;
      }

  -- onCron: `cron_on` is a column of the version table, `local` the instance's clock.
  unfoldable pub on_cron :
      (List Schedule → List Schedule)
      → (Schedule → String)
      → (JobInput → ℕ)
      → QueueDefaults
      → ℕ
      → ℕ
      → ℕ
      → ℤ
      → Bool
      → (ℕ → Bool)
      → Option ℕ
      → Database
      → Option ℕ × Database
  unfolding cron database_time
  on_cron sorted request uuid queue seconds now local skew timekeeping stopped cron_on db =
      if stopped 0 || timekeeping
      then (cron_on, db)
      else if stopped 1
      then (cron_on, db)
      else if not (is_stale now seconds cron_on)
      then (cron_on, db)
      else if stopped 2
      then (some now, db)
      else (some now, cron sorted request uuid queue now (database_time local skew) (stopped 3) db)
