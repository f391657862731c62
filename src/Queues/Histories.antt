-- ===== src/Queues/Histories.antt =====
-- The queue operations of one instance, in any order: src/manager.ts. No other instance changes the
-- queue table meanwhile.
use bun_boss.Base.{
  ℕ, ◌≡◌, refl, sym, ◌∙◌, inl, inr, String, Bool, true, false, not, ◌&&◌, List, [], ◌∷◌, Option,
  none, some, str_eq, arith, Bool-cases, &&-elim,
}
use bun_boss.Job.{Policy}
use bun_boss.Attorney.{Checked, accepted, refused, check}
use bun_boss.Names.{assert_queue_name}
use bun_boss.Queues.{QueueResult, Database, QueueOptions, Field, missing, null, value, get_queues}
use bun_boss.Queues.Coherent.{
  Coheres, everywhere, IsCoherent, Ensures, after-Ensures, Ensures-mono, left, other,
  evict-IsCoherent, refresh-IsCoherent, is_trusted,
}
use bun_boss.Queues.Lookup.{Found, Same, get_queue_cache-Found}
use bun_boss.Queues.Sound.{IsSound, Statement, creates, updates, deletes, execute, execute-IsSound}
use bun_boss.Queues.Entries.{columns_of, target, stored-execute, entry-put_all, or_else}
use bun_boss.Queues.Cache.{
  ◌>>=◌, ◌>>◌, run_sql, execute_on, Read, answers, empty, fails, World, M, after, lift, return,
  entry, put_all, read_as, is_empty, has_entries, refreshed, on_cache_queues, get_queue_cache,
  refresh_queue_cache_entry, check_dead_letter, create_queue, update_queue_options, delete_found,
  delete_queue_by_name,
}

-- A call, with what its reads answer. The read-back of a queue comes last.
pub data Action : Type 0 where
  create_action :
      Bool
      → (String → String)
      → ℕ
      → Read
      → Read
      → Read
      → String
      → Policy
      → Bool
      → QueueOptions
      → Action
  update_action : ℕ → Read → Read → Read → String → QueueOptions → Action
  delete_action : Read → Read → String → Action
  lookup_action : Read → Read → String → Action
  refresh_action : Read → Action

abbrev pub read_back : Action → Bool
read_back (create_action simple hash now r₁ r₂ r₃ name policy partition o) = is_trusted r₃
read_back (update_action now r₁ r₂ r₃ name o) = is_trusted r₃
read_back (delete_action r₁ r₂ name) = true
read_back (lookup_action r₁ r₂ name) = true
read_back (refresh_action r) = true

not-true : (b : Bool) → not b ≡ true → b ≡ false
not-true b h = ground arith

-- A statement on one queue that an operation runs.
run_sql-Ensures :
    (s : Statement) (w : World)
    → IsCoherent w
    → Ensures
        (λ v _. IsSound v.db × Coheres (other (target s)) v.cache v.db)
        IsCoherent
        (run_sql (execute s) w)
run_sql-Ensures s w h = by_outcome (execute s w.db) refl
  where
    elsewhere :
        (cache : Option (List QueueResult)) (db' : Database)
        → execute s w.db ≡ accepted db'
        → Coheres everywhere cache w.db
        → Coheres (other (target s)) cache db'
    elsewhere none db' e c = tt
    elsewhere (some qs) db' e c =
        λ n q t k. stored-execute s w.db db' n e (not-true _ t) ∙ c n q refl k

    by_outcome :
        (c : Checked Database)
        → execute s w.db ≡ c
        → Ensures
            (λ v _. IsSound v.db × Coheres (other (target s)) v.cache v.db)
            IsCoherent
            (execute_on w c)
    by_outcome (accepted db') e =
        (execute-IsSound s w.db db' h.sound e, elsewhere w.cache db' e h.coheres)
    by_outcome (refused m) e = h

or_none :
    (n : String) (o : Option QueueResult) {q : QueueResult}
    → or_else o (entry n []) ≡ some q
    → o ≡ some q
unfolding entry
or_none n none k = k
or_none n (some p) k = k

absurd_entry :
    (n : String) (q : QueueResult) {o : Option QueueResult} → entry n [] ≡ some q → o ≡ some q
unfolding entry
absurd_entry n q k = cc

on_cache_queues-IsCoherent :
    (r : Read) (w : World) → IsCoherent w → IsCoherent (on_cache_queues r w)
unfolding on_cache_queues get_queues
on_cache_queues-IsCoherent r w h = by_read r
  where
    refilled :
        (rows : List QueueResult)
        → Coheres everywhere (some (put_all [] rows)) w.db
        → IsCoherent (refreshed w (accepted rows))
    refilled rows c =
        elim (Bool-cases (is_empty rows && (not w.last_refresh_empty && has_entries w.cache))) [
          | inl e ↦ rw e (record { sound = h.sound; coheres = h.coheres })
          | inr e ↦ rw e (record { sound = h.sound; coheres = c })
        ]

    by_read : (r : Read) → IsCoherent (refreshed w (read_as r (columns_of w.db.queues)))
    by_read answers =
        refilled (columns_of w.db.queues)
          λ n q t k. or_none n _ (sym (entry-put_all w.db.queues [] n h.sound.once) ∙ k)
    by_read empty = refilled [] λ n q t k. absurd_entry n q k
    by_read fails = h

both :
    {A : Type 0} (x : World × Checked A)
    → IsCoherent x.0
    → Ensures (λ v _. IsCoherent v) IsCoherent x
both (w, accepted a) h = h
both (w, refused e) h = h

module _ (units : String → List ℕ) where
  -- What follows once a name was accepted.
  named-IsCoherent :
      (name : String) (k : M (Unit {0})) (w : World)
      → IsCoherent w
      → (assert_queue_name (units name) ≡ accepted tt
          → Ensures (λ v _. IsCoherent v) IsCoherent (k w))
      → Ensures
          (λ v _. IsCoherent v)
          IsCoherent
          (after (lift (assert_queue_name (units name)) w) λ _. k)
  named-IsCoherent name k w h f = by_outcome (assert_queue_name (units name)) refl
    where
      by_outcome :
          (c : Checked (Unit {0}))
          → assert_queue_name (units name) ≡ c
          → Ensures (λ v _. IsCoherent v) IsCoherent (after (lift c w) λ _. k)
      by_outcome (accepted tt) e = f e
      by_outcome (refused m) e = h

  check_dead_letter-IsCoherent :
      (r₁ r₂ : Read) (name : String) (d : Field String) (w : World)
      → IsCoherent w
      → Ensures (λ v _. IsCoherent v) IsCoherent (check_dead_letter units r₁ r₂ name d w)
  check_dead_letter-IsCoherent r₁ r₂ name missing w h = h
  check_dead_letter-IsCoherent r₁ r₂ name null w h = h
  check_dead_letter-IsCoherent r₁ r₂ name (value d) w h = elim (Bool-cases (str_eq d "")) [
    | inl e ↦ rw e h
    | inr e ↦ rw e (
        named-IsCoherent d _ w h λ a.
          after-Ensures (λ v _. IsCoherent v) (λ v _. IsCoherent v) IsCoherent
            (lift (check (not (str_eq name d)) "deadLetter cannot be itself") w) _
            (checked (check (not (str_eq name d)) "deadLetter cannot be itself"))
            λ v _ k.
              after-Ensures (λ u _. IsCoherent u) (λ u _. IsCoherent u) IsCoherent
                (get_queue_cache units r₁ r₂ d v) _
                (Ensures-mono (Found units d v) (λ u _. IsCoherent u) (Same units v) IsCoherent
                  (get_queue_cache units r₁ r₂ d v) (λ u q f. f.0) (λ u f. f.0)
                  (get_queue_cache-Found units r₁ r₂ d v k))
                (λ u q f. f))
  ]
    where
      checked : (c : Checked (Unit {0})) → Ensures (λ v _. IsCoherent v) IsCoherent (lift c w)
      checked (accepted tt) = h
      checked (refused m) = h

  -- A statement on one queue, between the checks and the read-back.
  statement-IsCoherent :
      (s : Statement) (r₁ r₂ r₃ : Read) (d : Field String) (w : World)
      → is_trusted r₃ ≡ true
      → IsCoherent w
      → IsCoherent
          (after (lift (assert_queue_name (units (target s))) w) λ _.
            check_dead_letter units r₁ r₂ (target s) d
            >> (run_sql (execute s) >> refresh_queue_cache_entry units r₃ (target s))).0
  statement-IsCoherent s r₁ r₂ r₃ d w t h = left IsCoherent _ (
      named-IsCoherent (target s) _ w h λ a.
        after-Ensures (λ v _. IsCoherent v) (λ v _. IsCoherent v) IsCoherent
          (check_dead_letter units r₁ r₂ (target s) d w) _
          (check_dead_letter-IsCoherent r₁ r₂ (target s) d w h)
          λ v _ k.
            after-Ensures (λ u _. IsSound u.db × Coheres (other (target s)) u.cache u.db)
              (λ u _. IsCoherent u) IsCoherent (run_sql (execute s) v) _ (run_sql-Ensures s v k)
              λ u _ f.
                both (refresh_queue_cache_entry units r₃ (target s) u)
                  (refresh-IsCoherent units r₃ (target s) u t a f.0 f.1))

  delete_found-IsCoherent :
      (name : String) (x : World × Checked QueueResult)
      → IsCoherent x.0
      → IsCoherent (delete_found units name x).0
  delete_found-IsCoherent name (w, refused e) h = h
  delete_found-IsCoherent name (w, accepted q) h = left IsCoherent _ (
      after-Ensures (λ v _. IsSound v.db × Coheres (other name) v.cache v.db) (λ v _. IsCoherent v)
        IsCoherent (run_sql (execute (deletes name)) w) _ (run_sql-Ensures (deletes name) w h)
        λ v _ f. evict-IsCoherent name v f.0 f.1)

  abbrev pub perform : Action → M (Unit {0})
  perform (create_action simple hash now r₁ r₂ r₃ name policy partition o) =
      create_queue units simple hash now r₁ r₂ r₃ name policy partition o
  perform (update_action now r₁ r₂ r₃ name o) = update_queue_options units now r₁ r₂ r₃ name o
  perform (delete_action r₁ r₂ name) = delete_queue_by_name units r₁ r₂ name
  perform (lookup_action r₁ r₂ name) = do _ ← get_queue_cache units r₁ r₂ name; return tt
  perform (refresh_action r) = λ w. (on_cache_queues r w, accepted tt)

  looked_up :
      (r₁ r₂ : Read) (name : String) (w : World)
      → IsCoherent w
      → IsCoherent (get_queue_cache units r₁ r₂ name w).0
  looked_up r₁ r₂ name w h = left IsCoherent _ (
      Ensures-mono (Found units name w) (λ u _. IsCoherent u) (Same units w) IsCoherent
        (get_queue_cache units r₁ r₂ name w) (λ u q f. f.0) (λ u f. f.0)
        (get_queue_cache-Found units r₁ r₂ name w h))

  perform-IsCoherent :
      (a : Action) (w : World) → read_back a ≡ true → IsCoherent w → IsCoherent (perform a w).0
  unfolding create_queue update_queue_options delete_queue_by_name
  perform-IsCoherent (create_action simple hash now r₁ r₂ r₃ name policy partition o) w t h =
      statement-IsCoherent (creates simple hash now name policy partition o) r₁ r₂ r₃ o.dead_letter
        w t h
  perform-IsCoherent (update_action now r₁ r₂ r₃ name o) w t h =
      statement-IsCoherent (updates now name o) r₁ r₂ r₃ o.dead_letter w t h
  perform-IsCoherent (delete_action r₁ r₂ name) w t h = left IsCoherent _ (
      named-IsCoherent name _ w h λ a.
        both (delete_found units name (get_queue_cache units r₁ r₂ name w))
          (delete_found-IsCoherent name _ (looked_up r₁ r₂ name w h)))
  perform-IsCoherent (lookup_action r₁ r₂ name) w t h = left IsCoherent _ (
      after-Ensures (λ u _. IsCoherent u) (λ u _. IsCoherent u) IsCoherent
        (get_queue_cache units r₁ r₂ name w) _
        (both (get_queue_cache units r₁ r₂ name w) (looked_up r₁ r₂ name w h)) (λ u q f. f))
  perform-IsCoherent (refresh_action r) w t h = on_cache_queues-IsCoherent r w h

  abbrev pub run : List Action → World → World
  run [] w = w
  run (a ∷ actions) w = run actions (perform a w).0

  abbrev pub read_backs : List Action → Bool
  read_backs [] = true
  read_backs (a ∷ actions) = read_back a && read_backs actions

  -- In every history of an instance's calls that create, update, delete, look up and refresh queues,
  -- whatever their reads answer, the database stays sound and each cached queue is the row of the
  -- table, if no read-back after a change fails with an error. A wrongly empty answer does no harm.
  pub run-IsCoherent :
      (actions : List Action) (w : World)
      → read_backs actions ≡ true
      → IsCoherent w
      → IsCoherent (run actions w)
  run-IsCoherent [] w t h = h
  run-IsCoherent (a ∷ actions) w t h =
      let (first, others) = &&-elim {a = read_back a} t in
      run-IsCoherent actions (perform a w).0 others (perform-IsCoherent a w first h)
