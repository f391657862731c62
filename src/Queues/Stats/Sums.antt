-- ===== src/Queues/Stats/Sums.antt =====
-- What the cached counts of a queue say of its jobs: src/plans.ts (getQueueStats, cacheQueueStats).
use bun_boss.Base.{
  ℕ, ◌+◌, ◌≤◌, ◌≡◌, refl, sym, ap, ◌∙◌, String, Bool, true, false, ◌||◌, if◌then◌else◌, List, [],
  ◌∷◌, Option, none, some, length, take, select, arith, inl, inr, ◌⊎◌, zero, suc,
}
use bun_boss.Job.{
  State, created, retry, active, failed, completed, cancelled, state_eq, state_lt, Job,
}
use bun_boss.Store.{Table}
use bun_boss.Commands.{has_name}
use bun_boss.Queues.{Counts, QueueRow, Database, set_where}
use bun_boss.Queues.Stats.{
  count, is_queued, is_deferred, is_of, counts_of, get_queue_stats, joined, with_stats,
  cache_queue_stats, find_row, singletons_of,
}
use mathlib.Core.Path.{subst}
use text.Mathlib.TextEquality.{eq_iff}

abbrev pub is_finished : Job → Bool
is_finished j = state_eq j.state completed || state_eq j.state cancelled

deferred-le : (now : ℕ) (t : Table) → count (is_deferred now) t ≤ count is_queued t
deferred-le now [] = omega arith
deferred-le now (j ∷ t) = ground (arith, deferred-le now t)

-- A row is in exactly one of the four groups.
one_group :
    (s : State)
    → ((state_lt s active ≡ true)
        × (state_eq s active ≡ false)
        × (state_eq s failed ≡ false)
        × ((state_eq s completed || state_eq s cancelled) ≡ false))
      ⊎ ((state_lt s active ≡ false)
          × (((state_eq s active ≡ true)
                × (state_eq s failed ≡ false)
                × ((state_eq s completed || state_eq s cancelled) ≡ false))
              ⊎ ((state_eq s active ≡ false)
                  × (((state_eq s failed ≡ true)
                        × ((state_eq s completed || state_eq s cancelled) ≡ false))
                      ⊎ ((state_eq s failed ≡ false)
                          × ((state_eq s completed || state_eq s cancelled) ≡ true))))))
one_group created = inl (refl, refl, refl, refl)
one_group retry = inl (refl, refl, refl, refl)
one_group active = inr (refl, inl (refl, refl, refl))
one_group completed = inr (refl, inr (refl, inr (refl, refl)))
one_group cancelled = inr (refl, inr (refl, inr (refl, refl)))
one_group failed = inr (refl, inr (refl, inl (refl, refl)))

all_states :
    (t : Table)
    → count is_queued t
        + count (λ j. state_eq j.state active) t
        + count (λ j. state_eq j.state failed) t
        + count is_finished t
      ≡ length t
all_states [] = omega arith
all_states (j ∷ t) = elim (one_group j.state) [
  | inl (a, b, c, d) ↦ rw (a, b, c, d) (omega (arith, all_states t))
  | inr (a, inl (b, c, d)) ↦ rw (a, b, c, d) (omega (arith, all_states t))
  | inr (a, inr (b, inl (c, d))) ↦ rw (a, b, c, d) (omega (arith, all_states t))
  | inr (a, inr (b, inr (c, d))) ↦ rw (a, b, c, d) (omega (arith, all_states t))
]

abbrev pub mapped : (QueueRow → QueueRow) → Option QueueRow → Option QueueRow
mapped f none = none
mapped f (some q) = some (f q)

pub find_row-set_where :
    (p : QueueRow → Bool) (f : QueueRow → QueueRow)
    → ((q : QueueRow) → (f q).columns.name ≡ q.columns.name)
    → (qs : List QueueRow) (name : String)
    → find_row name (set_where p f qs) ≡ mapped (λ q. if p q then f q else q) (find_row name qs)
unfolding find_row set_where
find_row-set_where p f same [] name = refl
find_row-set_where p f same (q ∷ qs) name =
    ground (arith, find_row-set_where p f same qs name, same q)

pub find_row-name :
    (name : String) (qs : List QueueRow) (q : QueueRow)
    → find_row name qs ≡ some q
    → q.columns.name ≡ name
unfolding find_row
find_row-name name [] q h = cc
find_row-name name (r ∷ qs) q h =
    ground (arith, find_row-name name qs q, eq_iff r.columns.name name)

-- Without jobs the counts are zero.
pub joined-counts :
    (now : ℕ) (name : String) (t : Table)
    → (joined (get_queue_stats now name t)).0 ≡ counts_of now (select (is_of name) t)
unfolding get_queue_stats counts_of
joined-counts now name t = by_jobs (select (is_of name) t)
  where
    by_jobs :
        (own : Table)
        → (joined (elim own [
          | [] ↦ none
          | j ∷ rest ↦ some (counts_of now (j ∷ rest), singletons_of (j ∷ rest))
        ])).0
          ≡ counts_of now own
    by_jobs [] = refl
    by_jobs (j ∷ rest) = refl

take-le : (n : ℕ) (xs : List ℕ) → length (take n xs) ≤ n
take-le zero xs = omega arith
take-le (suc n) [] = omega arith
take-le (suc n) (x ∷ xs) = omega (arith, take-le n xs)

sums :
    (now : ℕ) (own : Table) (c : Counts)
    → c ≡ counts_of now own
    → (c.deferred_count + c.ready_count ≡ c.queued_count)
      × (c.queued_count + c.active_count + c.failed_count + count is_finished own ≡ c.total_count)
unfolding counts_of
sums now own c e = rw e (omega (arith, deferred-le now own), all_states own)

-- What cacheQueueStats leaves on the row of a queue that it is given: the counts are those of the
-- queue's own jobs; the deferred and the ready ones make up the queued, and the queued, the active, the
-- failed and the finished make up all; the history of ready counts has at most 60 samples.
pub cache_queue_stats-counts :
    (now : ℕ) (names : List String) (db : Database) (name : String) (q : QueueRow)
    → find_row name (cache_queue_stats now names db).0.queues ≡ some q
    → has_name names name ≡ true
    → let own = select (is_of name) db.jobs in
      let c = q.columns.counts in
      (c ≡ counts_of now own)
      × (c.deferred_count + c.ready_count ≡ c.queued_count)
      × (c.queued_count + c.active_count + c.failed_count + count is_finished own ≡ c.total_count)
      × (length q.ready_history ≤ 60)
unfolding cache_queue_stats with_stats
cache_queue_stats-counts now names db name q h n =
    by_row (find_row name db.queues) refl
      (sym (find_row-set_where test (with_stats now db.jobs) (λ r. refl) db.queues name) ∙ h)
  where
    test : QueueRow → Bool
    test r = has_name names r.columns.name

    own : Table
    own = select (is_of name) db.jobs

    Goal : QueueRow → Type 0
    Goal r =
        (r.columns.counts ≡ counts_of now own)
        × (r.columns.counts.deferred_count + r.columns.counts.ready_count
            ≡ r.columns.counts.queued_count)
        × (r.columns.counts.queued_count
              + r.columns.counts.active_count
              + r.columns.counts.failed_count
              + count is_finished own
            ≡ r.columns.counts.total_count)
        × (length r.ready_history ≤ 60)

    by_row :
        (o : Option QueueRow)
        → find_row name db.queues ≡ o
        → mapped (λ r. if test r then with_stats now db.jobs r else r) o ≡ some q
        → Goal q
    by_row none e k = cc
    by_row (some r) e k =
        let stats = joined (get_queue_stats now r.columns.name db.jobs) in
        let named = find_row-name name db.queues r e in
        let tested : test r ≡ true = ap (has_name names) named ∙ n in
        let counted =
          joined-counts now r.columns.name db.jobs
          ∙ ap (λ m. counts_of now (select (is_of m) db.jobs)) named in
        subst Goal (by_test (test r) tested k) (
          counted,
          (sums now own stats.0 counted).0,
          (sums now own stats.0 counted).1,
          take-le 60 (stats.0.ready_count ∷ r.ready_history),
        )
      where
        by_test :
            (b : Bool)
            → b ≡ true
            → some (if b then with_stats now db.jobs r else r) ≡ some q
            → with_stats now db.jobs r ≡ q
        by_test true t f = cc
        by_test false t f = cc
