-- ===== src/Tests/Queueing.antt =====
-- The results on queues, their counts, the supervisor and cron schedules, on two concrete queues.
use bun_boss.Base.{
  ℕ, ◌≡◌, refl, String, Bool, true, false, if◌then◌else◌, List, [], ◌∷◌, Option, none, some, str_eq,
}
use bun_boss.Job.{standard}
use bun_boss.Names.{assert_queue_name}
use bun_boss.Queues.{
  QueueRow, QueueResult, QueueOptions, Database, missing, value, created_row, has_queue, no_counts,
  update_queue, delete_queue,
}
use bun_boss.Queues.Sound.{IsSound, deletes, execute-IsSound}
use bun_boss.Queues.Cache.{World, answers, empty, fails, entry, get_queue, update_queue_options}
use mathlib.Core.Option
use bun_boss.Queues.Entries.{stored}
use bun_boss.Queues.Coherent.{IsCoherent}
use bun_boss.Queues.Histories.{
  Action, update_action, delete_action, lookup_action, refresh_action, run, run-IsCoherent,
}
use bun_boss.Tests.{three_rows}

abbrev no_options : QueueOptions
no_options = record {
  retry_limit = missing;
  retry_delay = missing;
  retry_backoff = missing;
  retry_delay_max = missing;
  expire_in_seconds = missing;
  retention_seconds = missing;
  delete_after_seconds = missing;
  warning_queue_size = missing;
  dead_letter = missing;
  heartbeat_seconds = missing;
  notify = missing;
}

abbrev hash : String → String
hash name = "j0"

abbrev pub queue_row : String → Option String → Option ℕ → QueueRow
queue_row name dead_letter monitored = record {
  columns = record {
    name = name;
    policy = standard;
    retry_limit = 2;
    retry_delay = 0;
    retry_backoff = false;
    retry_delay_max = none;
    expire_seconds = 900;
    retention_seconds = 1209600;
    deletion_seconds = 604800;
    partition = false;
    heartbeat_seconds = none;
    notify = false;
    dead_letter = dead_letter;
    warning_queued = 0;
    counts = no_counts;
    singletons_active = none;
    table = "job";
    created_on = 1000;
    updated_on = 1000;
  };
  ready_history = [];
  monitor_on = monitored;
  maintain_on = none;
}

abbrev pub dead_row : QueueRow
dead_row = queue_row "dead" none none

abbrev pub mail_row : QueueRow
mail_row = queue_row "mail" (some "dead") none

-- createQueue makes this row.
created_dead : created_row false hash 1000 "dead" standard false no_options ≡ dead_row
unfolding created_row
created_dead = refl

abbrev pub two_queues : Database
two_queues = record { queues = mail_row ∷ dead_row ∷ []; jobs = three_rows; schedules = [] }

two_queues-IsSound : IsSound two_queues
unfolding has_queue
two_queues-IsSound = record {
  once = (refl, (refl, tt));
  linked = ((refl, refl), ((refl, refl), tt));
  housed = ((refl, refl), ((refl, refl), ((refl, refl), tt)));
  scheduled = tt;
}

-- Without the queue `mail` and its jobs.
abbrev without_mail : Database
without_mail = record { queues = dead_row ∷ []; jobs = []; schedules = [] }

execute-IsSound_example : IsSound without_mail
unfolding delete_queue
execute-IsSound_example =
    execute-IsSound (deletes "mail") two_queues without_mail two_queues-IsSound refl

-- Two queues in the table, one of them cached.
abbrev warm : World
warm = record { cache = some (mail_row.columns ∷ []); last_refresh_empty = false; db = two_queues }

warm-IsCoherent : IsCoherent warm
unfolding entry
warm-IsCoherent = record {
  sound = two_queues-IsSound;
  coheres = λ n q t h. agrees (str_eq "mail" n) _ h;
}
  where
    agrees :
        {q : QueueResult} (b : Bool) (o : Option QueueResult)
        → (if b then some mail_row.columns else none) ≡ some q
        → (if b then some mail_row.columns else o) ≡ some q
    agrees true o h = h
    agrees false o h = cc

-- A lookup, an update and a deletion, with reads that are wrongly empty.
abbrev some_actions : List Action
some_actions =
    lookup_action empty answers "dead"
    ∷ update_action 5000 answers answers empty "mail" (record no_options { retry_limit = value 5 })
    ∷ refresh_action empty
    ∷ delete_action answers answers "mail"
    ∷ []

abbrev pub units : String → List ℕ
units name = if str_eq name "" then [] else 97 ∷ []

run-IsCoherent_example : IsCoherent (run units some_actions warm)
run-IsCoherent_example = run-IsCoherent units some_actions warm refl warm-IsCoherent

-- The read-back of an update that fails leaves the old row in the cache.
stale_cache :
    let w =
      (update_queue_options units 5000 answers answers fails "mail"
        (record no_options { retry_limit = value 5 })
        warm).0 in
    (elim w.cache [ none ↦ none | some qs ↦ Option.map (λ q. q.retry_limit) (entry "mail" qs) ]
      ≡ some 2)
    × (Option.map (λ q. q.retry_limit) (stored "mail" w.db) ≡ some 5)
unfolding update_queue_options update_queue entry get_queue assert_queue_name has_queue
stale_cache = (refl, refl)
