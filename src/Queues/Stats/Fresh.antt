-- ===== src/Queues/Stats/Fresh.antt =====
-- How old the counts are that getQueueStats of src/manager.ts serves.
use bun_boss.Base.{
  ℕ, ◌+◌, ◌≤◌, ◌≡◌, refl, ap, ◌∙◌, String, Bool, true, if◌then◌else◌, List, Option, none, some,
  select, arith, inl, inr, ◌⊎◌, Bool-cases,
}
use bun_boss.Attorney.{accepted}
use bun_boss.Queues.{QueueRow, Database, is_named}
use bun_boss.Queues.Sound.{>>-eq-accepted, accepted-injective}
use bun_boss.Names.{assert_queue_name}
use bun_boss.Queues.Stats.{
  is_of, counts_of, find_row, refreshed_row, refresh_queue_stats, Snapshot, Intervals,
  max_cache_age_ms, is_fresh, serve, or_missing, queue_stats,
}
use bun_boss.Queues.Stats.Sums.{mapped, find_row-set_where, find_row-name, joined-counts}
use mathlib.Core.Path.{subst}
use text.Mathlib.TextEquality.{eq_iff}

-- The row after a refresh.
find_row-refresh :
    (now : ℕ) (name : String) (db : Database) (cached : QueueRow)
    → find_row name db.queues ≡ some cached
    → find_row name (refresh_queue_stats now name db).queues
      ≡ some (refreshed_row now db.jobs cached)
unfolding refresh_queue_stats refreshed_row
find_row-refresh now name db cached h =
    find_row-set_where (is_named name) (refreshed_row now db.jobs) (λ q. refl) db.queues name
    ∙ (ap (mapped (λ q. if is_named name q then refreshed_row now db.jobs q else q)) h
        ∙ ap (λ b. some (if b then refreshed_row now db.jobs cached else cached))
            ((eq_iff cached.columns.name name).1 (find_row-name name db.queues cached h)))

-- What a call serves: counts of the jobs at this moment, or those of the queue's row with the time
-- that the row has, no older than a bound.
abbrev pub IsCurrent : ℕ → ℕ → String → Database → Database × Snapshot → Type 0
IsCurrent now max_age name db (db', s) =
    (s.name ≡ name)
    × (((db' ≡ db)
          × ((row : QueueRow) × (find_row name db.queues ≡ some row)
              × (s.counts ≡ row.columns.counts)
              × (row.monitor_on ≡ some s.captured_on)
              × (now ≤ s.captured_on + max_age)))
        ⊎ ((s.captured_on ≡ now) × (s.counts ≡ counts_of now (select (is_of name) db.jobs))))

serve-IsCurrent :
    (now : ℕ) (force : Bool) (c : Intervals) (name : String) (cached : QueueRow) (db : Database)
    → find_row name db.queues ≡ some cached
    → IsCurrent now (max_cache_age_ms force c) name db (serve now force c name cached db)
unfolding serve
serve-IsCurrent now force c name cached db h =
    elim (Bool-cases (is_fresh now (max_cache_age_ms force c) cached.monitor_on)) [
      | inl e ↦ rw e (
        refl,
        inl (refl, (cached, h, refl, (fresh cached.monitor_on e).0, (fresh cached.monitor_on e).1)),
      )
      | inr e ↦ rw (e, find_row-refresh now name db cached h) (refl, inr (refl, counted))
    ]
  where
    fresh :
        (m : Option ℕ)
        → is_fresh now (max_cache_age_ms force c) m ≡ true
        → (m ≡ some (elim m [ none ↦ now | some t ↦ t ]))
          × (now ≤ (elim m [ none ↦ now | some t ↦ t ]) + max_cache_age_ms force c)
    fresh none e = cc
    fresh (some t) e = (refl, ground arith)

    counted :
        (refreshed_row now db.jobs cached).columns.counts
        ≡ counts_of now (select (is_of name) db.jobs)
    counted =
        unfold refreshed_row in
        joined-counts now cached.columns.name db.jobs
        ∙ ap (λ m. counts_of now (select (is_of m) db.jobs)) (find_row-name name db.queues cached h)

-- Where getQueueStats answers, it serves either the counts and the time that the queue's row has, changing
-- nothing, and these are no older than the bound (a minute when forced, else an hour or a longer
-- interval), or the counts of the queue's jobs at this moment.
pub queue_stats-IsCurrent :
    (units : String → List ℕ) (now : ℕ) (force : Bool) (c : Intervals) (name : String)
    (db : Database) (r : Database × Snapshot)
    → queue_stats units now force c name db ≡ accepted r
    → IsCurrent now (max_cache_age_ms force c) name db r
unfolding queue_stats
queue_stats-IsCurrent units now force c name db r h =
    by_row (find_row name db.queues) refl (>>-eq-accepted (assert_queue_name (units name)) _ h).1
  where
    by_row :
        (o : Option QueueRow)
        → find_row name db.queues ≡ o
        → or_missing units name o (λ cached. serve now force c name cached db) ≡ accepted r
        → IsCurrent now (max_cache_age_ms force c) name db r
    by_row none e k = cc
    by_row (some cached) e k =
        subst (IsCurrent now (max_cache_age_ms force c) name db)
          (accepted-injective (serve now force c name cached db) r k)
          (serve-IsCurrent now force c name cached db e)
