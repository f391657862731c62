-- ===== src/Timekeeper/Once.antt =====
-- An occurrence is queued once: src/timekeeper.ts (cron), by the singleton slot of a minute.
use bun_boss.Base.{
  ℕ, ◌+◌, ◌%◌, ◌≤◌, ◌<◌, ◌≡◌, refl, ap, ◌∙◌, String, Bool, true, false, ◌&&◌, List, [], ◌∷◌, map,
  Option, none, some, arith, str_eq, select, All, inl, inr, Bool-cases, &&-elim,
}
use bun_boss.Job.{Job, cancelled, state_eq}
use bun_boss.Store.{Table, Slot, slots, occupied, collides, throttle_slot}
use bun_boss.Store.Unique.{Disjoint_of_overlaps}
use bun_boss.Fail.{insert_skipping}
use bun_boss.Insert.{JobInput, QueueDefaults, insert_jobs, new_row, slot_ms}
use bun_boss.Queues.{Schedule, Database}
use bun_boss.Timekeeper.{cron, send_it_job, should_send_it, insert_scheduled, get_schedules}
use Prim.Native.String.{◌++◌ as text_append}
use mathlib.Core.Logic.Or
use mathlib.Core.List.{
  Mem, mem-cons_self, mem-cons_of_mem, mem-append_left, mem-append_right, eq-or-mem_of_mem-cons,
  not-mem-nil,
}
use text.Mathlib.TextEquality.{eq_iff}

-- Within the minute of an occurrence on a whole minute, the slot is the occurrence.
slot_ms-minute : (now u : ℕ) → u % 60000 ≡ 0 → u ≤ now → now < u + 60000 → slot_ms now 60 0 ≡ u
unfolding slot_ms
slot_ms-minute now u m a b = omega arith

-- The singleton key of a schedule's jobs.
abbrev pub key_of : Schedule → String
key_of s = text_append s.name (text_append "__" s.key)

abbrev pub has_text : String → Option String → Bool
has_text key none = false
has_text key (some k) = str_eq k key

-- A job on the queue that is of the schedule.
abbrev pub is_of : String → Schedule → Job → Bool
is_of queue s j = str_eq j.name queue && has_text (key_of s) j.singleton_key

-- The job of a schedule for one minute, whatever has become of it but being cancelled.
pub record IsQueued (queue : String) (s : Schedule) (u : ℕ) (j : Job) : Type 0 where
  pub on_queue : j.name ≡ queue
  pub of_schedule : j.singleton_key ≡ some (key_of s)
  pub in_minute : j.singleton_on ≡ some u
  pub not_cancelled : state_eq j.state cancelled ≡ false

mem-occupied : (x : Slot) (k : Job) (t : Table) → Mem k t → Mem x (slots k) → Mem x (occupied t)
unfolding occupied
mem-occupied x k [] m n = absurd (not-mem-nil m)
mem-occupied x k (j ∷ t) m n =
    Or.elim squash₁ (eq-or-mem_of_mem-cons m) (λ e. mem-append_left (occupied t) (rw (← e) n))
      (λ m'. mem-append_right (slots j) (mem-occupied x k t m' n))

IsQueued-slot :
    (queue : String) (s : Schedule) (u : ℕ) (j : Job)
    → IsQueued queue s u j
    → Mem (throttle_slot queue u (key_of s)) (slots j)
unfolding slots
IsQueued-slot queue s u j q =
    rw (q.in_minute, q.not_cancelled, q.of_schedule, q.on_queue) (mem-cons_of_mem _ mem-cons_self)

-- Rows of which those of the schedule want a slot that is taken.
module _ (p : Job → Bool) (x : Slot) (row : Job) (wanted : Mem x (slots row)) where
  Wants : Job → Type 0
  Wants r = p r ≡ true → Mem x (slots r)

  insert_skipping-select :
      (rows : List Job) (t : Table)
      → All Wants rows
      → Mem row t
      → (select p (insert_skipping rows t).0 ≡ select p t) × Mem row (insert_skipping rows t).0
  unfolding insert_skipping collides Wants
  insert_skipping-select [] t a m = (refl, m)
  insert_skipping-select (r ∷ rows) t a m = elim (Bool-cases (collides r t)) [
    | inl e ↦ rw e (insert_skipping-select rows t a.1 m)
    | inr e ↦ elim (Bool-cases (p r)) [
      | inl f ↦
          absurd (
            Disjoint_of_overlaps (slots r) (occupied t) e x (a.0 f) (mem-occupied x row t m wanted))
      | inr f ↦
          let (same, kept) = insert_skipping-select rows (r ∷ t) a.1 (mem-cons_of_mem r m) in
          rw e (same ∙ rw f refl, kept)
    ]
  ]

module _ (request : Schedule → String) (uuid : JobInput → ℕ) (queue : QueueDefaults) (s : Schedule)
    (u now : ℕ) (minute : u % 60000 ≡ 0) (from : u ≤ now) (before : now < u + 60000) where
  row_of : Schedule → Job
  row_of r = new_row now uuid queue (send_it_job request r)

  new-IsQueued :
      (r : Schedule) → is_of queue.name s (row_of r) ≡ true → IsQueued queue.name s u (row_of r)
  unfolding row_of new_row send_it_job
  new-IsQueued r h = record {
    on_queue = refl;
    of_schedule = ap some ((eq_iff _ _).0 (&&-elim {a = str_eq queue.name queue.name} h).1);
    in_minute = ap some (slot_ms-minute now u minute from before);
    not_cancelled = refl;
  }

  all-Wants :
      (row : Job) (wanted : Mem (throttle_slot queue.name u (key_of s)) (slots row))
      (due : List Schedule)
      → All
          (Wants (is_of queue.name s) (throttle_slot queue.name u (key_of s)) row wanted)
          (map (new_row now uuid queue) (map (send_it_job request) due))
  unfolding Wants row_of
  all-Wants row wanted [] = tt
  all-Wants row wanted (r ∷ due) =
      ((λ h. IsQueued-slot queue.name s u (row_of r) (new-IsQueued r h)), all-Wants row wanted due)

  inserted-select :
      (stopped : Bool) (due : List Schedule) (t : Table) (row : Job)
      → IsQueued queue.name s u row
      → Mem row t
      → (select
            (is_of queue.name s)
            (insert_scheduled uuid queue now stopped (map (send_it_job request) due) t)
          ≡ select (is_of queue.name s) t)
        × Mem row (insert_scheduled uuid queue now stopped (map (send_it_job request) due) t)
  unfolding insert_jobs
  inserted-select stopped [] t row q m = (refl, m)
  inserted-select true (r ∷ due) t row q m = (refl, m)
  inserted-select false (r ∷ due) t row q m =
      let wanted = IsQueued-slot queue.name s u row q in
      insert_skipping-select (is_of queue.name s) (throttle_slot queue.name u (key_of s)) row wanted
        (map (new_row now uuid queue) (map (send_it_job request) (r ∷ due))) t
        (all-Wants row wanted (r ∷ due)) m

-- Where a schedule's occurrence falls on a whole minute, and the table has a job of the schedule for that
-- minute that is not cancelled, a pass of cron() in the minute, of any instance and whichever schedules
-- are due in it, adds no job of the schedule and keeps the one that is there.
pub cron_once :
    (previous : String → String → ℕ → Option ℕ) (sorted : List Schedule → List Schedule)
    (request : Schedule → String) (uuid : JobInput → ℕ) (queue : QueueDefaults) (s : Schedule)
    (u now time : ℕ) (stopped : Bool) (db : Database) (row : Job)
    → u % 60000 ≡ 0
    → u ≤ now
    → now < u + 60000
    → IsQueued queue.name s u row
    → Mem row db.jobs
    → let db' = cron previous sorted request uuid queue now time stopped db in
      (select (is_of queue.name s) db'.jobs ≡ select (is_of queue.name s) db.jobs)
      × Mem row db'.jobs
unfolding cron
cron_once previous sorted request uuid queue s u now time stopped db row m a b q k =
    inserted-select request uuid queue s u now m a b stopped
      (select (λ r. should_send_it previous r.cron r.timezone time)
        (get_schedules sorted none none db.schedules))
      db.jobs row q k
