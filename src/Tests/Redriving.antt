-- ===== src/Tests/Redriving.antt =====
-- The results on redriving and on serializing, on concrete rows and objects.
use bun_boss.Base.{
  ℕ, ◌+◌, ◌≡◌, refl, String, Bool, true, false, [], ◌∷◌, ◌++◌, none, some, arith, All, length,
  select, reject,
}
use bun_boss.Job.{Job, created, short}
use bun_boss.Store.{Table, slots, occupied, distinct, has_slot, Slot-discrete, overlaps, collides}
use bun_boss.Store.Unique.{IsUnique, distinct-Nodup}
use bun_boss.Fail.{insert_skipping}
use bun_boss.Fetch.{sort_by, insert_by}
use bun_boss.Insert.{QueueDefaults}
use bun_boss.Redrive.{RedriveOptions, redrive_jobs, is_moved, candidates, redriven, is_redrivable}
use bun_boss.Redrive.Moves.{redrive_jobs-moves}
use bun_boss.SerializeError.{
  Property, undefined_value, primitive, reference, Heap, serialize_error, destroy_circular,
  copy_object, copy_keys, copy_errors, value, marker, object, field, end,
}
use bun_boss.SerializeError.Terminates.{IsClosed, IsSome, serialize_error-IsSome}
use bun_boss.Tests.{sample}
use mathlib.Core.Bool.{decide}
use mathlib.Core.List.{Perm}

-- A dead job of "mail", one without a source, and the queue "mail".
abbrev dead : Job
dead = record (sample 1 created) { name = "dead"; source_name = some "mail"; policy = none }

abbrev orphan : Job
orphan = record dead { id = 2; source_name = none }

abbrev mail_queue : QueueDefaults
mail_queue = record {
  name = "mail";
  policy = some short;
  expire_seconds = 900;
  deletion_seconds = 604800;
  retention_seconds = 1209600;
  retry_limit = 2;
  retry_delay = 0;
  retry_backoff = some false;
  retry_delay_max = none;
  dead_letter = none;
  heartbeat_seconds = none;
}

abbrev redrive_options : RedriveOptions
redrive_options = record { name = "dead"; destination = none; source_name = none; limit = 1000 }

abbrev free : Job → Bool
free j = false

abbrev new_id : Job → ℕ
new_id j = j.id + 100

abbrev dead_rows : Table
dead_rows = dead ∷ orphan ∷ []

dead_rows-IsUnique : IsUnique dead_rows
unfolding distinct has_slot decide Slot-discrete slots occupied
dead_rows-IsUnique = distinct-Nodup (occupied dead_rows) refl

-- The orphan stays, the other job is moved.
one_moved : (redrive_jobs 5000 new_id redrive_options (mail_queue ∷ []) free dead_rows).1 ≡ 1
unfolding redrive_jobs candidates redriven insert_skipping sort_by insert_by collides overlaps
    has_slot decide Slot-discrete slots occupied
one_moved = refl

redrive_jobs-moves_example :
    let r = redrive_jobs 5000 new_id redrive_options (mail_queue ∷ []) free dead_rows in
    let moved = is_moved (candidates redrive_options (mail_queue ∷ []) free dead_rows) in
    let rows =
      (insert_skipping
        (redriven 5000 new_id redrive_options (mail_queue ∷ []) (select moved dead_rows))
        (reject moved dead_rows)).1 in
    IsUnique r.0
    × ((Perm r.0 (rows ++ reject moved dead_rows) × (r.1 ≡ length rows))
        × All
            (λ j.
              j.name ≡ "dead"
              → moved j ≡ true
              → is_redrivable redrive_options (mail_queue ∷ []) j ≡ true)
            dead_rows)
redrive_jobs-moves_example =
    redrive_jobs-moves 5000 new_id redrive_options (mail_queue ∷ []) free dead_rows
      dead_rows-IsUnique

-- An error whose cause is itself.
abbrev read_error : String → Property
read_error key = undefined_value

abbrev own_cause : Heap
own_cause i = record {
  is_buffer = false;
  is_stream = false;
  to_json = none;
  entries = ("message", primitive "failed") ∷ ("cause", reference 0) ∷ [];
  error_property = read_error;
}

circular_cause :
    serialize_error 1 own_cause 0
    ≡ some (
        object
          (field "message" (value (primitive "failed")) (field "cause" (marker "[Circular]") end)))
unfolding serialize_error destroy_circular copy_object copy_keys copy_errors
circular_cause = refl

own_cause-IsClosed : IsClosed 1 own_cause
own_cause-IsClosed i h = ((tt, (omega arith, tt)), λ key. tt)

serialize_error-IsSome_example : IsSome (serialize_error 1 own_cause 0)
serialize_error-IsSome_example =
    serialize_error-IsSome own_cause 1 0 own_cause-IsClosed (omega arith)
