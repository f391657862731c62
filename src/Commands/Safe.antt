-- ===== src/Commands/Safe.antt =====
-- What the commands by id do to the table: which of them can never break a unique index.
use bun_boss.Base.{◌≡◌, true, List, Option, Bool, ℕ, String, length, select}
use bun_boss.Job.{Job}
use bun_boss.Store.{Table, ok, rows_after, slots}
use bun_boss.Store.Unique.{IsUnique, update_rows_shrinking}
use bun_boss.Commands.{
  completes, set_completed, complete, cancels, set_cancelled, cancel_jobs, touches, set_touched,
  touch_jobs, update_counted, response,
}
use bun_boss.Commands.Slots.{
  slots-completed, slots-cancelled, slots-touched, completes-not_cancelled,
}
use mathlib.Core.List.{Sublist}
use mathlib.Core.List.Sublist

update_counted_shrinking :
    (p : Job → Bool) (f : Job → Job) (t : Table)
    → ((j : Job) → p j ≡ true → Sublist (slots (f j)) (slots j))
    → IsUnique t
    → (update_counted p f t ≡ ok (rows_after p f t, length (select p t)))
      × IsUnique (rows_after p f t)
unfolding update_counted
update_counted_shrinking p f t s u = let (e, v) = update_rows_shrinking p f t s u in (rw e, v)

-- Completing jobs of a table with unique indexes never raises a constraint error: it returns the
-- table with exactly the matching rows completed, their number as `affected` and the requested ids,
-- and the indexes stay unique. So for both values of `include_queued`.
pub complete_total :
    (include_queued : Bool) (name : String) (ids : List ℕ) (output : Option String) (now : ℕ)
    (t : Table)
    → IsUnique t
    → let p = completes include_queued name ids in
      let u = rows_after p (set_completed include_queued output now) t in
      (complete include_queued name ids output now t ≡ ok (u, response ids (length (select p t))))
      × IsUnique u
unfolding complete
complete_total q name ids output now t u =
    let (e, v) =
      update_counted_shrinking (completes q name ids) (set_completed q output now) t
        (λ j h. slots-completed q output now j (completes-not_cancelled q name ids j h)) u in
    (rw e, v)

-- Cancelling jobs of a table with unique indexes never raises a constraint error: exactly the jobs
-- named that are not completed, cancelled or failed become cancelled, their number is returned, and the
-- indexes stay unique.
pub cancel_jobs_total :
    (name : String) (ids : List ℕ) (now : ℕ) (t : Table)
    → IsUnique t
    → let p = cancels name ids in
      let u = rows_after p (set_cancelled now) t in
      (cancel_jobs name ids now t ≡ ok (u, length (select p t))) × IsUnique u
unfolding cancel_jobs
cancel_jobs_total name ids now t = update_counted_shrinking _ _ t (λ j h. slots-cancelled now j)

-- Touching jobs of a table with unique indexes never raises a constraint error: exactly the active jobs
-- named get a new heartbeat, their number is returned, and the indexes stay unique.
pub touch_jobs_total :
    (name : String) (ids : List ℕ) (now : ℕ) (t : Table)
    → IsUnique t
    → let p = touches name ids in
      let u = rows_after p (set_touched now) t in
      (touch_jobs name ids now t ≡ ok (u, length (select p t))) × IsUnique u
unfolding touch_jobs
touch_jobs_total name ids now t =
    update_counted_shrinking _ _ t (λ j h. rw (slots-touched now j) (Sublist.refl (slots j)))
