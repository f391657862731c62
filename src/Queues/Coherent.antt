-- ===== src/Queues/Coherent.antt =====
-- The cache of queues agrees with the queue table: src/manager.ts.
use bun_boss.Base.{
  ℕ, ◌≡◌, refl, sym, String, Bool, true, false, not, List, [], ◌∷◌, Option, none, some, str_eq,
  reject, arith,
}
use bun_boss.Attorney.{Checked, accepted, refused}
use bun_boss.Names.{assert_queue_name}
use bun_boss.Queues.{QueueResult, Database, get_queues}
use bun_boss.Queues.Sound.{IsSound}
use bun_boss.Queues.Entries.{
  columns_of, stored, AgreesAt, entry-put, entry-reject, entry-name, first_of-entry,
}
use bun_boss.Queues.Cache.{
  Read, answers, empty, fails, World, M, after, lift, entry, put, read_as, first_of, with_row,
  cache_queue_row, evict_queue_cache, get_queue, keep_or_evict, refresh_queue_cache_entry,
}
use mathlib.Core.Path.{subst}
use text.Mathlib.TextEquality.{eq_iff}

abbrev pub Coheres : (String → Bool) → Option (List QueueResult) → Database → Type 0
Coheres test none db = Unit
Coheres test (some qs) db = AgreesAt test qs (columns_of db.queues)

abbrev pub everywhere : String → Bool
everywhere n = true

-- The database is sound, and each entry of the cache is the row of that name.
pub record IsCoherent (w : World) : Type 0 where
  pub sound : IsSound w.db
  pub coheres : Coheres everywhere w.cache w.db

-- What holds of the state, and of a result.
abbrev pub Ensures :
    {A : Type 0} → (World → A → Type 0) → (World → Type 0) → World × Checked A → Type 0
Ensures P E (w, accepted a) = P w a
Ensures P E (w, refused e) = E w

pub after-Ensures :
    {A B : Type 0} (P : World → A → Type 0) (Q : World → B → Type 0) (E : World → Type 0)
    (x : World × Checked A) (f : A → M B)
    → Ensures P E x
    → ((w : World) (a : A) → P w a → Ensures Q E (f a w))
    → Ensures Q E (after x f)
after-Ensures P Q E (w, accepted a) f h k = k w a h
after-Ensures P Q E (w, refused e) f h k = h

pub Ensures-mono :
    {A : Type 0} (P Q : World → A → Type 0) (E F : World → Type 0) (x : World × Checked A)
    → ((w : World) (a : A) → P w a → Q w a)
    → ((w : World) → E w → F w)
    → Ensures P E x
    → Ensures Q F x
Ensures-mono P Q E F (w, accepted a) f g h = f w a h
Ensures-mono P Q E F (w, refused e) f g h = g w h

-- The state, whatever the outcome.
pub left :
    {A : Type 0} (E : World → Type 0) (x : World × Checked A) → Ensures (λ w a. E w) E x → E x.0
left E (w, accepted a) h = h
left E (w, refused e) h = h

abbrev pub IsStored : String → Database → Option QueueResult → Type 0
IsStored n db none = Unit
IsStored n db (some q) = stored n db ≡ some q

to_IsStored :
    (n : String) (db : Database) (o : Option QueueResult) → stored n db ≡ o → IsStored n db o
to_IsStored n db none h = tt
to_IsStored n db (some q) h = h

-- Caching the row of a name, or evicting it, where the cache agrees at all other names.
abbrev pub other : String → String → Bool
other name n = not (str_eq name n)

put-AgreesAt :
    (name : String) (q : QueueResult) (qs rows : List QueueResult)
    → AgreesAt (other name) qs rows
    → entry name rows ≡ some q
    → AgreesAt everywhere (put q qs) rows
put-AgreesAt name q qs rows h e n k t p =
    ground
      (arith, h n k, entry-put q qs n, entry-name name rows q e, eq_iff q.name n, eq_iff name n)

evict-AgreesAt :
    (name : String) (qs rows : List QueueResult)
    → AgreesAt (other name) qs rows
    → AgreesAt everywhere (reject (λ q. str_eq q.name name) qs) rows
evict-AgreesAt name qs rows h n k t p =
    ground (arith, h n k, entry-reject name qs n, eq_iff n name, eq_iff name n)

pub with_row-IsCoherent :
    (name : String) (q : QueueResult) (cache : Option (List QueueResult)) (w : World)
    → w.cache ≡ cache
    → IsSound w.db
    → Coheres (other name) cache w.db
    → stored name w.db ≡ some q
    → IsCoherent (with_row q cache w).0
with_row-IsCoherent name q none w e s c h = record {
  sound = s;
  coheres = subst (λ k. Coheres everywhere k w.db) (sym e) tt;
}
with_row-IsCoherent name q (some qs) w e s c h = record {
  sound = s;
  coheres = put-AgreesAt name q qs (columns_of w.db.queues) c h;
}

pub evict-IsCoherent :
    (name : String) (w : World)
    → IsSound w.db
    → Coheres (other name) w.cache w.db
    → IsCoherent (evict_queue_cache name w)
unfolding evict_queue_cache
evict-IsCoherent name w s c = by_cache w.cache refl c
  where
    by_cache :
        (cache : Option (List QueueResult))
        → w.cache ≡ cache
        → Coheres (other name) cache w.db
        → IsCoherent (elim cache [
          | none ↦ w
          | some qs ↦ record w { cache = some (reject (λ q. str_eq q.name name) qs) }
        ])
    by_cache none e c = record {
      sound = s;
      coheres = subst (λ k. Coheres everywhere k w.db) (sym e) tt;
    }
    by_cache (some qs) e c = record {
      sound = s;
      coheres = evict-AgreesAt name qs (columns_of w.db.queues) c;
    }

-- The read-back of a queue.
abbrev pub is_trusted : Read → Bool
is_trusted answers = true
is_trusted empty = true
is_trusted fails = false

module _ (units : String → List ℕ) where
  pub get_queue-IsStored :
      (r : Read) (name : String) (w : World)
      → Ensures (λ v o. (v ≡ w) × IsStored name w.db o) (λ v. v ≡ w) (get_queue units r name w)
  unfolding get_queue get_queues
  get_queue-IsStored r name w = named r (assert_queue_name (units name))
    where
      named :
          (r : Read) (c : Checked (Unit {0}))
          → Ensures
              (λ v o. (v ≡ w) × IsStored name w.db o)
              (λ v. v ≡ w)
              (after
                (lift c w)
                λ _ v. (v, first_of (read_as r (get_queues (some (name ∷ [])) v.db))))
      named r (refused e) = refl
      named answers (accepted tt) =
          rw (first_of-entry w.db.queues name) (refl, to_IsStored name w.db _ refl)
      named empty (accepted tt) = (refl, tt)
      named fails (accepted tt) = refl

  keep_or_evict-IsCoherent :
      (name : String) (o : Option QueueResult) (w : World)
      → IsSound w.db
      → Coheres (other name) w.cache w.db
      → IsStored name w.db o
      → IsCoherent (keep_or_evict units name o w).0
  unfolding cache_queue_row
  keep_or_evict-IsCoherent name none w s c h = evict-IsCoherent name w s c
  keep_or_evict-IsCoherent name (some q) w s c h = with_row-IsCoherent name q w.cache w refl s c h

  pub refresh-IsCoherent :
      (r : Read) (name : String) (w : World)
      → is_trusted r ≡ true
      → assert_queue_name (units name) ≡ accepted tt
      → IsSound w.db
      → Coheres (other name) w.cache w.db
      → IsCoherent (refresh_queue_cache_entry units r name w).0
  unfolding refresh_queue_cache_entry get_queue get_queues
  refresh-IsCoherent answers name w t a s c =
      rw (a, first_of-entry w.db.queues name)
        (keep_or_evict-IsCoherent name (stored name w.db) w s c (to_IsStored name w.db _ refl))
  refresh-IsCoherent empty name w t a s c = rw a (evict-IsCoherent name w s c)
  refresh-IsCoherent fails name w t a s c = cc
