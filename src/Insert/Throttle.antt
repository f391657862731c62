-- ===== src/Insert/Throttle.antt =====
-- What INSERT ... ON CONFLICT DO NOTHING and createJob leave of the unique indexes.
use bun_boss.Base.{
  ℕ, ◌≡◌, refl, sym, ap, String, Bool, true, false, if◌then◌else◌, List, [], ◌∷◌, ◌++◌, Option,
  none, some, arith, inl, inr, Bool-cases,
}
use bun_boss.Job.{created, Policy, standard, short, singleton, stately, exclusive, Job, slot_key}
use bun_boss.Store.{
  Slot, Slot-discrete, pkey, throttle_slot, Table, slots, occupied, collides, distinct, has_slot,
  overlaps, policy_slots, index_throttle,
}
use bun_boss.Store.Unique.{IsUnique, Disjoint_of_overlaps, distinct-Nodup}
use bun_boss.Fail.{insert_skipping}
use bun_boss.Fail.Inserts.{insert_skipping-IsUnique}
use bun_boss.Insert.{
  JobInput, QueueDefaults, new_row, insert_jobs, create_job, in_next_slot, job_id, or_try,
  singleton_slot,
}
use mathlib.Core.Bool.{decide}
use mathlib.Core.List.{Nodup, Mem, mem-cons_self, mem-cons_of_mem, mem-append_left}

-- The slots of a new row are of different kinds.
distinct_kinds :
    (name key : String) (id : ℕ) (on : Option ℕ) (policy : Option Policy)
    → distinct (
        (pkey name id ∷ index_throttle name key on created) ++ policy_slots name key policy created)
      ≡ true
unfolding distinct has_slot decide Slot-discrete
distinct_kinds name key id none none = refl
distinct_kinds name key id none (some standard) = refl
distinct_kinds name key id none (some short) = refl
distinct_kinds name key id none (some singleton) = refl
distinct_kinds name key id none (some stately) = refl
distinct_kinds name key id none (some exclusive) = refl
distinct_kinds name key id (some n) none = refl
distinct_kinds name key id (some n) (some standard) = refl
distinct_kinds name key id (some n) (some short) = refl
distinct_kinds name key id (some n) (some singleton) = refl
distinct_kinds name key id (some n) (some stately) = refl
distinct_kinds name key id (some n) (some exclusive) = refl

pub slots-Nodup : (j : Job) → j.state ≡ created → Nodup (slots j)
unfolding slots
slots-Nodup j e =
    rw e (distinct-Nodup _ (distinct_kinds j.name (slot_key j) j.id j.singleton_on j.policy))

-- A table without the job, or the table with the job that the id names at its head.
abbrev pub AddsOne : String → Table → Table × Option ℕ → Type 0
AddsOne name t (t', none) = t' ≡ t
AddsOne name t (t', some id) =
    (row : Job) × ((t' ≡ row ∷ t) × ((row.id ≡ id) × ((row.name ≡ name) × (row.state ≡ created))))

-- One try: the row that it adds, or the table as it was.
abbrev pub Tried : String → Table → Table × List Job → Type 0
Tried name t (t', []) = t' ≡ t
Tried name t (t', row ∷ rows) = (t' ≡ row ∷ t) × ((row.name ≡ name) × (row.state ≡ created))

pub insert_jobs-Tried :
    (now : ℕ) (uuid : JobInput → ℕ) (q : QueueDefaults) (j : JobInput) (t : Table)
    → IsUnique t
    → Tried q.name t (insert_jobs now uuid q (j ∷ []) t)
      × IsUnique (insert_jobs now uuid q (j ∷ []) t).0
unfolding insert_jobs new_row insert_skipping
insert_jobs-Tried now uuid q j t u = (
  tried (collides (new_row now uuid q j) t),
  insert_skipping-IsUnique (new_row now uuid q j ∷ []) t
      (slots-Nodup (new_row now uuid q j) refl, tt) u,
)
  where
    row : Job
    row = new_row now uuid q j

    tried : (b : Bool) → Tried q.name t (if b then (t, []) else (row ∷ t, row ∷ []))
    tried true = refl
    tried false = (refl, (refl, refl))

job_id-AddsOne :
    (name : String) (t : Table) (r : Table × List Job) → Tried name t r → AddsOne name t (job_id r)
job_id-AddsOne name t (t', []) h = h
job_id-AddsOne name t (t', row ∷ rows) h = (row, (h.0, (refl, h.1)))

job_id-IsUnique : (r : Table × List Job) → IsUnique r.0 → IsUnique (job_id r).0
job_id-IsUnique (t', []) u = u
job_id-IsUnique (t', row ∷ rows) u = u

-- createJob on a table with unique indexes leaves them unique; it adds the one new job whose id it
-- returns and keeps every other row, or it returns nothing and changes nothing.
pub create_job-AddsOne :
    (db_now now : ℕ) (uuid : JobInput → ℕ) (q : QueueDefaults) (next_slot : Option ℕ) (j : JobInput)
    (t : Table)
    → IsUnique t
    → AddsOne q.name t (create_job db_now now uuid q next_slot j t)
      × IsUnique (create_job db_now now uuid q next_slot j t).0
unfolding create_job
create_job-AddsOne db_now now uuid q none j t u =
    let h = insert_jobs-Tried db_now uuid q j t u in
    only (insert_jobs db_now uuid q (j ∷ []) t) h.0 h.1
  where
    only :
        (r : Table × List Job)
        → Tried q.name t r
        → IsUnique r.0
        → AddsOne q.name t (or_try none r) × IsUnique (or_try none r).0
    only (t', []) h v = (h, v)
    only (t', row ∷ rows) h v = ((row, (h.0, (refl, h.1))), v)
create_job-AddsOne db_now now uuid q (some seconds) j t u =
    let h = insert_jobs-Tried db_now uuid q j t u in
    either (insert_jobs db_now uuid q (j ∷ []) t) h.0 h.1
  where
    again : Table → Table × List Job
    again = insert_jobs db_now uuid q (in_next_slot seconds now j ∷ [])

    tried : Tried q.name t (again t) × IsUnique (again t).0
    tried = insert_jobs-Tried db_now uuid q (in_next_slot seconds now j) t u

    second :
        (t' : Table)
        → t' ≡ t
        → AddsOne q.name t (job_id (again t')) × IsUnique (job_id (again t')).0
    second t' e =
        rw e (job_id-AddsOne q.name t (again t) tried.0, job_id-IsUnique (again t) tried.1)

    either :
        (r : Table × List Job)
        → Tried q.name t r
        → IsUnique r.0
        → AddsOne q.name t (or_try (some again) r) × IsUnique (or_try (some again) r).0
    either (t', []) h v = second t' h
    either (t', row ∷ rows) h v = ((row, (h.0, (refl, h.1))), v)

mem_throttle :
    (j : Job) (on : ℕ)
    → j.state ≡ created
    → j.singleton_on ≡ some on
    → Mem (throttle_slot j.name on (slot_key j)) (slots j)
unfolding slots
mem_throttle j on c e = rw (c, e) (mem-cons_of_mem _ mem-cons_self)

shared-collides :
    (r s : Job) (t : Table) (x : Slot)
    → Mem x (slots r)
    → Mem x (slots s)
    → collides s (r ∷ t) ≡ true
unfolding collides occupied overlaps
shared-collides r s t x m k = elim (Bool-cases (overlaps (slots s) (slots r ++ occupied t))) [
  | inl e ↦ e
  | inr e ↦ absurd (
      Disjoint_of_overlaps (slots s) (slots r ++ occupied t) e x k (mem-append_left (occupied t) m))
]

returned_row :
    (b : Bool) (r : Job) (t : Table) {t' : Table} {row : Job}
    → ◌≡◌ {A = Table × List Job} (if b then (t, []) else (r ∷ t, r ∷ [])) (t', row ∷ [])
    → t' ≡ r ∷ t
returned_row true r t h = ground arith
returned_row false r t h = sym (ap (λ p. p.0) h)

-- Where a job was inserted with a singleton slot, a later job for the same queue with the same
-- singleton key whose slot is the same is skipped, whatever else it asks for.
pub insert_jobs-throttled :
    (now later on : ℕ) (uuid : JobInput → ℕ) (q : QueueDefaults) (j k : JobInput) (t : Table)
    {t' : Table} {row : Job}
    → insert_jobs now uuid q (j ∷ []) t ≡ (t', row ∷ [])
    → singleton_slot now j.singleton_seconds j.singleton_offset ≡ some on
    → singleton_slot later k.singleton_seconds k.singleton_offset ≡ some on
    → j.singleton_key ≡ k.singleton_key
    → insert_jobs later uuid q (k ∷ []) t' ≡ (t', [])
unfolding insert_jobs insert_skipping new_row
insert_jobs-throttled now later on uuid q j k t {t'} h a b e =
    rw (returned_row (collides first t) first t h) (rw repeated refl)
  where
    first : Job
    first = new_row now uuid q j

    second : Job
    second = new_row later uuid q k

    repeated : collides second (first ∷ t) ≡ true
    repeated =
        shared-collides first second t (throttle_slot q.name on (slot_key second))
          (rw (← e) (mem_throttle first on refl a)) (mem_throttle second on refl b)
