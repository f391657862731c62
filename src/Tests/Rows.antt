-- ===== src/Tests/Rows.antt =====
-- The results on tables, on three concrete rows.
use bun_boss.Base.{
  ◌≡◌, refl, Bool, true, false, [], ◌∷◌, none, some, length, select, ◌≤◌, String, List, ◌⊎◌,
}
use bun_boss.Job.{Job, created, pos, short}
use bun_boss.Store.{
  ok, slots, occupied, distinct, has_slot, Slot-discrete, rows_after, update_rows, commit,
}
use bun_boss.Store.Unique.{IsUnique, distinct-Nodup}
use bun_boss.Commands.{completes, set_completed, complete, response}
use bun_boss.Commands.Safe.{complete_total}
use bun_boss.Fetch.{FetchOptions, fetch, claimed, is_claimed}
use bun_boss.Fetch.Claims.{fetch_bounded}
use bun_boss.Fetch.Claimable.{IsClaimable}
use bun_boss.Fetch.Eligible.{claimed-IsClaimable}
use bun_boss.Insert.{JobInput, QueueDefaults, create_job}
use bun_boss.Insert.Throttle.{create_job-AddsOne, AddsOne}
use bun_boss.Update.{
  done, violates_foreign_key, referring, by_id, JobEdit, update_job, upsert, is_edited, edited,
  targets, ids_of,
}
use bun_boss.Update.Edits.{update_job_total, upsert-Keeps, Keeps, Lacks, EitherLacks}
use bun_boss.Tests.{sample, three_rows}
use mathlib.Core.Bool.{decide}
use mathlib.Core.List.{mem-cons_self}

three_rows-IsUnique : IsUnique three_rows
unfolding distinct has_slot decide Slot-discrete slots occupied
three_rows-IsUnique = distinct-Nodup (occupied three_rows) refl

complete_total_example :
    let p = completes false "mail" (2 ∷ 3 ∷ []) in
    let u = rows_after p (set_completed false none 5000) three_rows in
    (complete false "mail" (2 ∷ 3 ∷ []) none 5000 three_rows
      ≡ ok (u, response (2 ∷ 3 ∷ []) (length (select p three_rows))))
    × IsUnique u
complete_total_example =
    complete_total false "mail" (2 ∷ 3 ∷ []) none 5000 three_rows three_rows-IsUnique

abbrev two_jobs : FetchOptions
two_jobs = record {
  name = "mail";
  policy = some short;
  limit = 2;
  priority = true;
  order_by_created_on = true;
  ignore_start_after = false;
  ignore_singletons = [];
  ignore_groups = [];
  min_priority = none;
  max_priority = none;
  group_concurrency = none;
}

abbrev none_locked : Job → Bool
none_locked j = false

fetch_bounded_example :
    (length (fetch two_jobs none_locked 5000 three_rows).1 ≤ 2)
    × IsUnique (fetch two_jobs none_locked 5000 three_rows).0
fetch_bounded_example = fetch_bounded two_jobs none_locked 5000 three_rows three_rows-IsUnique

claims_first :
    is_claimed two_jobs (claimed two_jobs none_locked 5000 three_rows) (sample 1 created) ≡ true
unfolding claimed
claims_first = refl

claimed-IsClaimable_example :
    IsClaimable two_jobs 5000 three_rows (sample 1 created)
    × (none_locked (sample 1 created) ≡ false)
claimed-IsClaimable_example =
    claimed-IsClaimable two_jobs none_locked 5000 three_rows (sample 1 created) three_rows-IsUnique
      mem-cons_self claims_first

abbrev mail_queue : QueueDefaults
mail_queue = record {
  name = "mail";
  policy = none;
  expire_seconds = 900;
  deletion_seconds = 604800;
  retention_seconds = 1209600;
  retry_limit = 2;
  retry_delay = 0;
  retry_backoff = none;
  retry_delay_max = none;
  dead_letter = none;
  heartbeat_seconds = none;
}

-- A job throttled to one a minute.
abbrev throttled_job : JobInput
throttled_job = record {
  id = none;
  priority = none;
  job_data = some "{}";
  start_after = none;
  retry_limit = none;
  retry_delay = none;
  retry_delay_max = none;
  retry_backoff = none;
  singleton_key = some "report";
  singleton_seconds = some 60;
  singleton_offset = none;
  group_id = none;
  group_tier = none;
  expire_in_seconds = none;
  delete_after_seconds = none;
  retention_seconds = none;
  dead_letter = none;
  heartbeat_seconds = none;
  blocked = none;
  blocking = none;
  pending_dependencies = none;
}

create_job-AddsOne_example :
    AddsOne "mail" three_rows
      (create_job 90000 90000 (λ j. 9) mail_queue (some 60) throttled_job three_rows)
    × IsUnique (create_job 90000 90000 (λ j. 9) mail_queue (some 60) throttled_job three_rows).0
create_job-AddsOne_example =
    create_job-AddsOne 90000 90000 (λ j. 9) mail_queue (some 60) throttled_job three_rows
      three_rows-IsUnique

abbrev to_priority : JobEdit
to_priority = record {
  job_data = none;
  priority = some (pos 5);
  start_after = none;
  retention_seconds = none;
  expire_in_seconds = none;
  delete_after_seconds = none;
  retry_limit = none;
  retry_delay = none;
  retry_backoff = none;
  retry_delay_max = none;
  dead_letter = none;
  heartbeat_seconds = none;
  group_id = none;
  group_tier = none;
}

-- The queue table has `mail` alone.
abbrev mail_only : List String
mail_only = "mail" ∷ []

update_job_total_example :
    let p = is_edited (targets "mail" (by_id 1) three_rows) in
    let u = rows_after p (edited 5000 to_priority) three_rows in
    Keeps mail_only
      (Lacks mail_only to_priority.dead_letter)
      three_rows
      (update_job mail_only 5000 "mail" (by_id 1) to_priority three_rows)
    × ((update_job mail_only 5000 "mail" (by_id 1) to_priority three_rows
          ≡ done (u, ids_of (select p three_rows)))
        ⊎ (update_job mail_only 5000 "mail" (by_id 1) to_priority three_rows
            ≡ violates_foreign_key))
update_job_total_example =
    update_job_total mail_only 5000 "mail" (by_id 1) to_priority three_rows three_rows-IsUnique
      (refl, (refl, (refl, tt)))

-- A dead letter queue that does not exist.
refused_edit :
    update_job mail_only 5000 "mail"
      (by_id 1)
      (record to_priority { dead_letter = some (some "dead") })
      three_rows
    ≡ violates_foreign_key
unfolding update_job update_rows rows_after commit distinct occupied slots has_slot decide
    Slot-discrete targets referring edited
refused_edit = refl

upsert-Keeps_example :
    Keeps mail_only
      (EitherLacks mail_only to_priority throttled_job)
      three_rows
      (upsert mail_only 5000 (λ j. 9) mail_queue (by_id 7) to_priority throttled_job three_rows)
upsert-Keeps_example =
    upsert-Keeps mail_only 5000 (λ j. 9) mail_queue (by_id 7) to_priority throttled_job refl
      three_rows three_rows-IsUnique (refl, (refl, (refl, tt)))
