-- ===== src/Queues/Lookup.antt =====
-- What getQueueCache of src/manager.ts finds.
use bun_boss.Base.{ℕ, ◌≡◌, refl, sym, String, Bool, true, false, List, Option, none, some}
use bun_boss.Attorney.{Checked, accepted, refused}
use bun_boss.Names.{assert_queue_name}
use bun_boss.Queues.{QueueResult, Database, get_queues}
use bun_boss.Queues.Coherent.{
  Coheres, everywhere, IsCoherent, Ensures, after-Ensures, Ensures-mono, IsStored, other,
  get_queue-IsStored, with_row-IsCoherent, is_trusted,
}
use bun_boss.Queues.Entries.{stored, first_of-entry}
use bun_boss.Queues.Cache.{
  Read, answers, empty, fails, World, after, return, entry, with_row, cache_queue_row, get_queue,
  cached, or_again, entry_or_read, from_cache, get_queue_cache,
}
use mathlib.Core.Path.{subst}

module _ (units : String → List ℕ) where
  -- A row found by get_queue_cache is that of the table.
  abbrev pub Found : String → World → World → QueueResult → Type 0
  Found name w v q = IsCoherent v × ((v.db ≡ w.db) × (stored name w.db ≡ some q))

  abbrev Known : String → World → World → Option QueueResult → Type 0
  Known name w v o = (v ≡ w) × IsStored name w.db o

  abbrev pub Same : World → World → Type 0
  Same w v = IsCoherent v × (v.db ≡ w.db)

  with_row-db :
      (q : QueueResult) (cache : Option (List QueueResult)) (w : World)
      → (with_row q cache w).0.db ≡ w.db
  with_row-db q none w = refl
  with_row-db q (some qs) w = refl

  split :
      {A : Type 0} (P : World → A → Type 0) (E : World → Type 0) (x : World × Checked A)
      → E x.0
      → ((a : A) → P x.0 a)
      → Ensures P E x
  split P E (w, accepted a) e p = p a
  split P E (w, refused m) e p = e

  pub to_other :
      (name : String) (cache : Option (List QueueResult)) (db : Database)
      → Coheres everywhere cache db
      → Coheres (other name) cache db
  to_other name none db h = tt
  to_other name (some qs) db h = λ n q t. h n q refl

  cached-Found :
      (name : String) (o : Option QueueResult) (w : World)
      → IsCoherent w
      → IsStored name w.db o
      → Ensures (Found name w) (Same w) (cached units o name w)
  unfolding cache_queue_row
  cached-Found name none w h s = (h, refl)
  cached-Found name (some q) w h s =
      let v = (with_row q w.cache w).0 in
      let kept : Same w v = (
        with_row-IsCoherent name q w.cache w refl h.sound (to_other name w.cache w.db h.coheres) s,
        with_row-db q w.cache w,
      ) in
      after-Ensures (λ u _. Same w u) (Found name w) (Same w) (with_row q w.cache w) _
        (split (λ u _. Same w u) (Same w) (with_row q w.cache w) kept (λ _. kept))
        (λ u _ k. (k.0, (k.1, s)))

  entry_or_read-Found :
      (r₁ r₂ : Read) (name : String) (o : Option QueueResult) (w : World)
      → IsCoherent w
      → IsStored name w.db o
      → Ensures (Found name w) (Same w) (entry_or_read units r₁ r₂ name o w)
  entry_or_read-Found r₁ r₂ name (some q) w h s = (h, (refl, s))
  entry_or_read-Found r₁ r₂ name none w h s =
      after-Ensures (Known name w) (Found name w) (Same w) _ _ (reads r₁) λ w₁ o k₁.
        after-Ensures (Known name w) (Found name w) (Same w) _ _ (again w₁ o k₁) λ w₂ o₂ k₂.
          subst (λ v. Ensures (Found name w) (Same w) (cached units o₂ name v)) (sym k₂.0)
            (cached-Found name o₂ w h k₂.1)
    where
      same : (v : World) → v ≡ w → Same w v
      same v e = subst (Same w) (sym e) (h, refl)

      reads : (r : Read) → Ensures (Known name w) (Same w) (get_queue units r name w)
      reads r =
          Ensures-mono _ (Known name w) _ (Same w) (get_queue units r name w) (λ v o k. k) same
            (get_queue-IsStored units r name w)

      again :
          (w₁ : World) (o : Option QueueResult)
          → Known name w w₁ o
          → Ensures (Known name w) (Same w) (or_again units r₂ name o w₁)
      again w₁ (some q) k = k
      again w₁ none k =
          subst (λ v. Ensures (Known name w) (Same w) (get_queue units r₂ name v)) (sym k.0)
            (reads r₂)

  -- Whatever its reads answer, getQueueCache keeps the cache in agreement with the table and the table
  -- as it is; what it returns is the row that the table has.
  pub get_queue_cache-Found :
      (r₁ r₂ : Read) (name : String) (w : World)
      → IsCoherent w
      → Ensures (Found name w) (Same w) (get_queue_cache units r₁ r₂ name w)
  unfolding get_queue_cache
  get_queue_cache-Found r₁ r₂ name w h = by_cache w.cache h.coheres
    where
      by_cache :
          (cache : Option (List QueueResult))
          → Coheres everywhere cache w.db
          → Ensures (Found name w) (Same w) (from_cache units r₁ r₂ name cache w)
      by_cache none c = (h, refl)
      by_cache (some qs) c =
          entry_or_read-Found r₁ r₂ name (entry name qs) w h (known (entry name qs) refl)
        where
          known : (o : Option QueueResult) → entry name qs ≡ o → IsStored name w.db o
          known none e = tt
          known (some q) e = c name q refl e

  abbrev pub not_both_empty : Read → Read → Bool
  not_both_empty empty empty = false
  not_both_empty r₁ r₂ = true

  row_cached :
      (q : QueueResult) (qs : List QueueResult) (cache : Option (List QueueResult)) (w : World)
      → cache ≡ some qs
      → (after (with_row q cache w) λ _. return q).1 ≡ accepted q
  row_cached q qs none w e = cc
  row_cached q qs (some rows) w e = refl

  get_queue-answers :
      (name : String) (w : World)
      → assert_queue_name (units name) ≡ accepted tt
      → get_queue units answers name w ≡ (w, accepted (stored name w.db))
  unfolding get_queue get_queues
  get_queue-answers name w a = rw (a, first_of-entry w.db.queues name)

  get_queue-empty :
      (name : String) (w : World)
      → assert_queue_name (units name) ≡ accepted tt
      → get_queue units empty name w ≡ (w, accepted none)
  unfolding get_queue get_queues
  get_queue-empty name w a = rw a

  -- Where the cache was read once and agrees with the table, getQueueCache returns the row of a queue
  -- that exists, cached or not, if neither of its reads fails and not both are wrongly empty.
  pub get_queue_cache_total :
      (r₁ r₂ : Read) (name : String) (q : QueueResult) (qs : List QueueResult) (w : World)
      → IsCoherent w
      → w.cache ≡ some qs
      → assert_queue_name (units name) ≡ accepted tt
      → stored name w.db ≡ some q
      → is_trusted r₁ ≡ true
      → is_trusted r₂ ≡ true
      → not_both_empty r₁ r₂ ≡ true
      → (get_queue_cache units r₁ r₂ name w).1 ≡ accepted q
  unfolding get_queue_cache cache_queue_row
  get_queue_cache_total r₁ r₂ name q qs w h e a s t₁ t₂ b =
      subst (λ c. (from_cache units r₁ r₂ name c w).1 ≡ accepted q) (sym e)
        (by_entry r₁ r₂ (entry name qs) refl t₁ t₂ b)
    where
      agrees : (p : QueueResult) → entry name qs ≡ some p → stored name w.db ≡ some p
      agrees p k = subst (λ c. Coheres everywhere c w.db) e h.coheres name p refl k

      by_entry :
          (r₁ r₂ : Read) (o : Option QueueResult)
          → entry name qs ≡ o
          → is_trusted r₁ ≡ true
          → is_trusted r₂ ≡ true
          → not_both_empty r₁ r₂ ≡ true
          → (entry_or_read units r₁ r₂ name o w).1 ≡ accepted q
      by_entry r₁ r₂ (some p) k t₁ t₂ b = let f = agrees p k in cc
      by_entry answers r₂ none k t₁ t₂ b =
          rw (get_queue-answers name w a, s) (row_cached q qs w.cache w e)
      by_entry empty answers none k t₁ t₂ b =
          rw (get_queue-empty name w a, get_queue-answers name w a, s) (row_cached q qs w.cache w e)
      by_entry empty empty none k t₁ t₂ b = cc
      by_entry empty fails none k t₁ t₂ b = cc
      by_entry fails r₂ none k t₁ t₂ b = cc
