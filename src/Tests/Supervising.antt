-- ===== src/Tests/Supervising.antt =====
-- The results on counts, the supervisor and cron schedules, on a concrete database.
use bun_boss.Base.{
  ℕ, zero, suc, ◌+◌, ◌*◌, ◌/◌, ◌%◌, ◌≤◌, ◌<◌, ◌≡◌, ◌↔◌, refl, String, Bool, true, false, List, [],
  ◌∷◌, Option, none, some, length, select, arith, any, All, ◌==◌,
}
use bun_boss.Job.{Job, active}
use bun_boss.Store.{collides}
use bun_boss.Attorney.{accepted}
use bun_boss.Names.{assert_key, assert_queue_name}
use bun_boss.Fail.Split.{fail_jobs_by_timeout_no_cte, fail_jobs_by_heartbeat_no_cte}
use bun_boss.Insert.{QueueDefaults, new_row, slot_ms}
use bun_boss.Queues.{QueueRow, Database, Schedule, has_queue}
use bun_boss.Queues.Stats.{
  counts_of, is_of, count, find_row, cache_queue_stats, Intervals, queue_stats, max_cache_age_ms,
  serve,
}
use bun_boss.Queues.Stats.Sums.{is_finished, cache_queue_stats-counts}
use bun_boss.Queues.Stats.Fresh.{IsCurrent, queue_stats-IsCurrent}
use bun_boss.Supervise.Pass.{Settings, monitor_on, try_set, monitor}
use bun_boss.Supervise.Pass.Claims.{Try, claims, claims-le_one}
use bun_boss.Supervise.Pass.Expires.{IsAlive, monitor-expires}
use bun_boss.Timekeeper.{
  should_send_it, send_it_job, cron, schedule, unschedule, put_schedule, get_schedules,
}
use bun_boss.Timekeeper.Occurrences.{IsPrevious, second_of, should_send_it_iff, occurrence_sent}
use bun_boss.Timekeeper.Once.{cron_once, IsQueued, is_of as is_of_schedule}
use mathlib.Core.List.{Mem, mem-cons_self}
use bun_boss.Timekeeper.Keyed.{IsKeyed, schedule-roundtrip}
use mathlib.Core.Bool.{decide}
use bun_boss.Tests.{sample, three_rows}
use bun_boss.Tests.Queueing.{mail_row, two_queues, units}

-- An active job of `mail` that started at 1000 and may run for 900 seconds.
abbrev late_job : Job
late_job = record (sample 4 active) { started_on = some 1000 }

abbrev busy : Database
busy = record two_queues { jobs = late_job ∷ three_rows }

abbrev mail_counted : QueueRow
mail_counted = record mail_row {
  columns = record mail_row.columns {
    counts = record {
      deferred_count = 0;
      queued_count = 1;
      ready_count = 1;
      active_count = 2;
      failed_count = 0;
      total_count = 4;
    };
  };
  ready_history = 1 ∷ [];
}

cache_queue_stats-counts_example :
    let own = select (is_of "mail") busy.jobs in
    let c = mail_counted.columns.counts in
    (c ≡ counts_of 5000 own)
    × (c.deferred_count + c.ready_count ≡ c.queued_count)
    × (c.queued_count + c.active_count + c.failed_count + count is_finished own ≡ c.total_count)
    × (length mail_counted.ready_history ≤ 60)
unfolding cache_queue_stats find_row
cache_queue_stats-counts_example =
    cache_queue_stats-counts 5000 ("mail" ∷ []) busy "mail" mail_counted refl refl

abbrev no_intervals : Intervals
no_intervals = record { monitor_seconds = none; supervise_seconds = none }

abbrev mail_monitored : QueueRow
mail_monitored = record mail_counted { monitor_on = some 4000 }

abbrev monitored : Database
monitored = record busy { queues = mail_monitored ∷ [] }

-- A queue that was monitored a second ago.
queue_stats-IsCurrent_example :
    IsCurrent 5000
      (max_cache_age_ms false no_intervals)
      "mail"
      monitored
      (serve 5000 false no_intervals "mail" mail_monitored monitored)
unfolding queue_stats find_row assert_queue_name
queue_stats-IsCurrent_example =
    queue_stats-IsCurrent units 5000 false no_intervals "mail" monitored
      (serve 5000 false no_intervals "mail" mail_monitored monitored) refl

abbrev two_tries : List Try
two_tries =
    record { time = 5000; names = "mail" ∷ "dead" ∷ [] }
    ∷ record { time = 9000; names = "mail" ∷ [] }
    ∷ []

claims-le_one_example : claims monitor_on 60 "mail" two_tries busy.queues ≤ 1
unfolding has_queue
claims-le_one_example =
    claims-le_one monitor_on 60 5000 "mail" two_tries busy.queues
      ((omega arith, omega arith), ((omega arith, omega arith), tt)) (refl, (refl, tt))

first_claims : claims monitor_on 60 "mail" two_tries busy.queues ≡ 1
unfolding claims
first_claims = refl

abbrev settings : Settings
settings = record {
  monitor_seconds = 60;
  maintenance_seconds = 86400;
  large_queue_size = 10000;
  no_multi_mutation_cte = true;
  now = 2000000;
  random = λ j. 0;
  uuid = λ j. 9;
}

abbrev never_stopping : ℕ → Bool
never_stopping n = false

monitor-expires_example :
    All
      (IsAlive (try_set monitor_on 2000000 60 ("mail" ∷ []) busy.queues).1 2000000)
      (monitor settings never_stopping ("mail" ∷ []) busy).0.jobs
unfolding monitor fail_jobs_by_timeout_no_cte cache_queue_stats collides decide
    fail_jobs_by_heartbeat_no_cte
monitor-expires_example =
    monitor-expires settings never_stopping ("mail" ∷ []) busy refl refl refl refl refl

-- Every minute: the last whole minute before the second that a moment lies in.
abbrev each_minute : ℕ → Bool
each_minute u = u % 60000 == 0

abbrev minute_before : ℕ → Option ℕ
minute_before zero = none
minute_before (suc limit) = some (limit / 60000 * 60000)

abbrev previous : String → String → ℕ → Option ℕ
previous cron tz t = minute_before (second_of t)

each_minute-IsPrevious : IsPrevious each_minute (previous "* * * * *" "UTC")
each_minute-IsPrevious = record {
  on_seconds = λ u h. seconds u h;
  found = λ limit t h. found (second_of limit) t h;
  last = λ limit t u h o l. last (second_of limit) t u h o l;
  never = λ limit u h o l. never (second_of limit) u h l;
}
  where
    seconds : (u : ℕ) → each_minute u ≡ true → u % 1000 ≡ 0
    seconds u h = let e : u % 60000 ≡ 0 = ground arith in omega arith

    found : (limit t : ℕ) → minute_before limit ≡ some t → (each_minute t ≡ true) × (t < limit)
    found zero t h = cc
    found (suc limit) t h =
        let e : limit / 60000 * 60000 ≡ t = cc in
        let m : t % 60000 ≡ 0 = omega arith in (ground arith, omega arith)

    last : (limit t u : ℕ) → minute_before limit ≡ some t → each_minute u ≡ true → u < limit → u ≤ t
    last zero t u h o l = cc
    last (suc limit) t u h o l =
        let e : limit / 60000 * 60000 ≡ t = cc in
        let m : u % 60000 ≡ 0 = ground arith in omega arith

    never : (limit u : ℕ) → minute_before limit ≡ none → ¬ (u < limit)
    never zero u h l = omega arith
    never (suc limit) u h l = cc

should_send_it_iff_example :
    (should_send_it previous "* * * * *" "UTC" 125000 ≡ true)
    ↔ ((u : ℕ) × (each_minute u ≡ true) × (u ≤ 125000) × (125000 < u + 60000))
should_send_it_iff_example =
    should_send_it_iff previous "* * * * *" "UTC" each_minute each_minute-IsPrevious 125000

occurrence_sent_example :
    any (should_send_it previous "* * * * *" "UTC") (110000 ∷ 140000 ∷ 170000 ∷ []) ≡ true
occurrence_sent_example =
    occurrence_sent previous "* * * * *" "UTC" each_minute each_minute-IsPrevious 90000 120000
      (110000 ∷ 140000 ∷ 170000 ∷ []) refl (omega arith, (omega arith, (omega arith, tt)))
      (omega arith) (omega arith)

abbrev report : Schedule
report = record {
  name = "mail";
  key = "";
  cron = "* * * * *";
  timezone = "UTC";
  job_data = none;
  options = none;
  created_on = 0;
  updated_on = 0;
}

abbrev send_it : QueueDefaults
send_it = record {
  name = "__pgboss__send-it";
  policy = none;
  expire_seconds = 900;
  deletion_seconds = 604800;
  retention_seconds = 1209600;
  retry_limit = 2;
  retry_delay = 0;
  retry_backoff = none;
  retry_delay_max = none;
  dead_letter = none;
  heartbeat_seconds = none;
}

abbrev request : Schedule → String
request s = "{}"

-- The job of `report` for the minute at 120000 is queued, and the schedule is due.
abbrev queued_report : Job
unfolding new_row send_it_job
queued_report = new_row 125000 (λ j. 9) send_it (send_it_job request report)

abbrev due_again : Database
due_again = record two_queues { jobs = queued_report ∷ three_rows; schedules = report ∷ [] }

queued_report-IsQueued : IsQueued "__pgboss__send-it" report 120000 queued_report
unfolding queued_report slot_ms
queued_report-IsQueued = record {
  on_queue = refl;
  of_schedule = refl;
  in_minute = refl;
  not_cancelled = refl;
}

cron_once_example :
    let db' = cron previous (λ l. l) request (λ j. 8) send_it 150000 150000 false due_again in
    (select (is_of_schedule "__pgboss__send-it" report) db'.jobs
      ≡ select (is_of_schedule "__pgboss__send-it" report) due_again.jobs)
    × Mem queued_report db'.jobs
cron_once_example =
    cron_once previous (λ l. l) request (λ j. 8) send_it report 120000 150000 150000 false due_again
      queued_report (omega arith) (omega arith) (omega arith) queued_report-IsQueued mem-cons_self

schedule-roundtrip_example :
    let db' = record two_queues { schedules = put_schedule 5000 report [] } in
    let read = get_schedules (λ l. l) in
    let gone = (unschedule "mail" "" db').schedules in
    IsKeyed db'.schedules
    × ((x : Schedule) × (read (some "mail") (some "") db'.schedules ≡ x ∷ [])
        × ((x.name ≡ "mail")
            × (x.key ≡ "")
            × (x.cron ≡ "* * * * *")
            × (x.timezone ≡ "UTC")
            × (x.job_data ≡ none)
            × (x.options ≡ none)))
    × (read (some "dead") (some "") db'.schedules ≡ read (some "dead") (some "") [])
    × (read (some "mail") (some "") gone ≡ [])
    × (read (some "dead") (some "") gone ≡ read (some "dead") (some "") [])
unfolding schedule assert_key has_queue
schedule-roundtrip_example =
    schedule-roundtrip (λ c tz. true) (λ s. accepted tt) units 5000 (λ l. l) report two_queues
      (record two_queues { schedules = put_schedule 5000 report [] }) "dead" "" tt refl refl
