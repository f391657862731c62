-- ===== src/Timekeeper/Keyed.antt =====
-- The schedule table by name and key: src/timekeeper.ts (schedule, unschedule, getSchedules).
use bun_boss.Base.{
  ℕ, ◌≡◌, refl, ap, ◌∙◌, String, Bool, true, false, ◌&&◌, List, [], ◌∷◌, some, str_eq, select,
  reject, any, arith, inl, inr, Bool-cases,
}
use bun_boss.Attorney.{Checked, accepted, check}
use bun_boss.Names.{assert_key}
use bun_boss.Queues.{Schedule, Database, has_queue}
use bun_boss.Queues.Sound.{>>-eq-accepted, accepted-injective}
use bun_boss.Timekeeper.{has_key, get_schedules, put_schedule, schedule, unschedule}
use mathlib.Core.Path.{subst}
use text.Mathlib.TextEquality.{eq_iff}

-- The primary key.
abbrev pub IsKeyed : List Schedule → Type 0
IsKeyed [] = Unit
IsKeyed (x ∷ l) = (any (has_key x.name x.key) l ≡ false) × IsKeyed l

abbrev Agree : Schedule → Schedule → Type 0
Agree x s =
    (x.name ≡ s.name)
    × (x.key ≡ s.key)
    × (x.cron ≡ s.cron)
    × (x.timezone ≡ s.timezone)
    × (x.job_data ≡ s.job_data)
    × (x.options ≡ s.options)

-- Two names and two keys are the same, or not.
has_key-same :
    (name key : String) (s : Schedule) → has_key name key s ≡ true → (s.name ≡ name) × (s.key ≡ key)
has_key-same name key s h = ground (arith, eq_iff s.name name, eq_iff s.key key)

select-absent :
    (name key : String) (l : List Schedule)
    → any (has_key name key) l ≡ false
    → select (has_key name key) l ≡ []
select-absent name key [] h = refl
select-absent name key (x ∷ l) h = ground (arith, select-absent name key l)

module _ (now : ℕ) (s : Schedule) where
  any-put :
      (name key : String) (l : List Schedule)
      → has_key name key s ≡ false
      → any (has_key name key) (put_schedule now s l) ≡ any (has_key name key) l
  unfolding put_schedule
  any-put name key [] h = rw h refl
  any-put name key (x ∷ l) h = elim (Bool-cases (has_key s.name s.key x)) [
    | inl e ↦ rw e refl
    | inr e ↦ rw (e, any-put name key l h)
  ]

  put-IsKeyed : (l : List Schedule) → IsKeyed l → IsKeyed (put_schedule now s l)
  unfolding put_schedule
  put-IsKeyed [] h = (refl, tt)
  put-IsKeyed (x ∷ l) h = elim (Bool-cases (has_key s.name s.key x)) [
    | inl e ↦ rw e (h.0, h.1)
    | inr e ↦ rw e (
      any-put x.name x.key l (
            ground (
              arith,
              eq_iff s.name x.name,
              eq_iff x.name s.name,
              eq_iff s.key x.key,
              eq_iff x.key s.key,
            ))
          ∙ h.0,
      put-IsKeyed l h.1,
    )
  ]

  put-same :
      (l : List Schedule)
      → IsKeyed l
      → (x : Schedule) × (select (has_key s.name s.key) (put_schedule now s l) ≡ x ∷ []) × Agree x s
  unfolding put_schedule
  put-same [] h = (
    record s { created_on = now; updated_on = now },
    ground (arith, eq_iff s.name s.name, eq_iff s.key s.key),
    (refl, refl, refl, refl, refl, refl),
  )
  put-same (x ∷ l) h = elim (Bool-cases (has_key s.name s.key x)) [
    | inl e ↦
        let (n, k) = has_key-same s.name s.key x e in
        let y : Schedule = record x {
          cron = s.cron;
          timezone = s.timezone;
          job_data = s.job_data;
          options = s.options;
          updated_on = now;
        } in
        (
          y,
          rw (e, e) (ap (◌∷◌ y) (select-absent s.name s.key l (rw (n, k) at h.0))),
          (n, k, refl, refl, refl, refl),
        )
    | inr e ↦ let (y, p, q) = put-same l h.1 in (y, rw (e, e) p, q)
  ]

  put-other :
      (name key : String) (l : List Schedule)
      → has_key name key s ≡ false
      → select (has_key name key) (put_schedule now s l) ≡ select (has_key name key) l
  unfolding put_schedule
  put-other name key [] h = rw h refl
  put-other name key (x ∷ l) h = elim (Bool-cases (has_key s.name s.key x)) [
    | inl e ↦
        let (n, k) = has_key-same s.name s.key x e in
        let unmet : has_key name key x ≡ false = rw (n, k) h in rw (e, unmet) refl
    | inr e ↦ rw (e, put-other name key l h)
  ]

-- What `unschedule` leaves.
reject-same :
    (name key : String) (l : List Schedule)
    → select (has_key name key) (reject (has_key name key) l) ≡ []
reject-same name key [] = refl
reject-same name key (x ∷ l) = ground (arith, reject-same name key l)

reject-other :
    (name key n k : String) (l : List Schedule)
    → (str_eq n name && str_eq k key) ≡ false
    → select (has_key n k) (reject (has_key name key) l) ≡ select (has_key n k) l
reject-other name key n k [] h = refl
reject-other name key n k (x ∷ l) h = ground (
  arith,
  reject-other name key n k l h,
  eq_iff x.name name,
  eq_iff x.name n,
  eq_iff x.key key,
  eq_iff x.key k,
  eq_iff n name,
  eq_iff k key,
)

-- A schedule that is accepted can be read by its name and key, and is the only one found there; the
-- names and keys stay unique, and what is read under any other name or key stays. Unscheduling it then
-- leaves nothing to read there, and what is read elsewhere.
pub schedule-roundtrip :
    (is_valid : String → String → Bool) (checks : Schedule → Checked (Unit {0}))
    (units : String → List ℕ) (now : ℕ) (sorted : List Schedule → List Schedule) (s : Schedule)
    (db db' : Database) (n k : String)
    → IsKeyed db.schedules
    → (str_eq n s.name && str_eq k s.key) ≡ false
    → schedule is_valid checks units now s db ≡ accepted db'
    → let read = get_schedules sorted in
      let gone = (unschedule s.name s.key db').schedules in
      IsKeyed db'.schedules
      × ((x : Schedule) × (read (some s.name) (some s.key) db'.schedules ≡ x ∷ []) × Agree x s)
      × (read (some n) (some k) db'.schedules ≡ read (some n) (some k) db.schedules)
      × (read (some s.name) (some s.key) gone ≡ [])
      × (read (some n) (some k) gone ≡ read (some n) (some k) db.schedules)
unfolding schedule get_schedules unschedule
schedule-roundtrip is_valid checks units now sorted s db db' n k keyed other h =
    let (c₁, h₁) = >>-eq-accepted (check (is_valid s.cron s.timezone) "invalid cron") _ h in
    let (c₂, h₂) = >>-eq-accepted (checks s) _ h₁ in
    let (c₃, h₃) = >>-eq-accepted (assert_key (units s.key)) _ h₂ in
    let (c₄, h₄) = >>-eq-accepted (check (has_queue db.queues s.name) _) _ h₃ in
    subst Goal
      (accepted-injective (record db { schedules = put_schedule now s db.schedules }) db' h₄)
      (
        put-IsKeyed now s db.schedules keyed,
        put-same now s db.schedules keyed,
        kept,
        reject-same s.name s.key _,
        reject-other s.name s.key n k (put_schedule now s db.schedules) other ∙ kept,
      )
  where
    kept :
        select (has_key n k) (put_schedule now s db.schedules) ≡ select (has_key n k) db.schedules
    kept =
        put-other now s n k db.schedules
          (ground (arith, other, eq_iff s.name n, eq_iff n s.name, eq_iff s.key k, eq_iff k s.key))

    Goal : Database → Type 0
    Goal d =
        IsKeyed d.schedules
        × ((x : Schedule) × (select (has_key s.name s.key) d.schedules ≡ x ∷ []) × Agree x s)
        × (select (has_key n k) d.schedules ≡ select (has_key n k) db.schedules)
        × (select (has_key s.name s.key) (reject (has_key s.name s.key) d.schedules) ≡ [])
        × (select (has_key n k) (reject (has_key s.name s.key) d.schedules)
            ≡ select (has_key n k) db.schedules)
