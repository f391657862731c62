-- ===== src/Flows/Drain.antt =====
-- The batches of one pass over a chunk of queues.
use bun_boss.Base.{
  ℕ, zero, suc, ◌+◌, ◌<◌, ◌≡◌, refl, ap, ◌∙◌, inl, inr, String, Bool, true, false, not, ◌&&◌, ◌||◌,
  if◌then◌else◌, List, [], ◌∷◌, ◌++◌, map, arith, All, Bool-cases, length, reject, take, drop, leb,
}
use bun_boss.Job.{Job}
use bun_boss.Store.{Table, slots, occupied}
use bun_boss.Store.Unique.{IsUnique}
use bun_boss.Fail.Inserts.{All-map, All-zip}
use bun_boss.Flows.{
  Dependency, decremented, is_cleared, is_unblocked, updated_by, resolved_row, key_before,
  is_resolved, blocking_parents, resolve_flow_jobs, batches,
}
use bun_boss.Flows.Keys.{
  one_if, keyed, IsUnique-OneKey, All-Counted, Counted, All-cleared, key_swap,
}
use bun_boss.Flows.Sums.{total, Divides, Divides-batch}
use bun_boss.Flows.Rows.{updated_by-name, updated_by-state}
use bun_boss.Flows.Split.{cleared-length}
use bun_boss.Flows.Pending.{
  NotStuck, Apart, batch-Divides, batch-Apart, row-NotStuck, row-blocking, All-rows,
}

updated_by-slots : (u c : Bool) (n : ℕ) (j : Job) → slots (updated_by u c n j) ≡ slots j
unfolding slots
updated_by-slots true c n j = refl
updated_by-slots false true n j = refl
updated_by-slots false false n j = refl

resolved-occupied :
    (first : Job → Bool) (deps : List Dependency) (ps : List Job) (t : Table)
    → occupied (map (resolved_row first deps ps) t) ≡ occupied t
unfolding occupied resolved_row
resolved-occupied first deps ps [] = refl
resolved-occupied first deps ps (j ∷ t) =
    rw
      (
        updated_by-slots
            (is_unblocked (decremented deps ps) j && (first j || not (is_cleared ps j)))
            (is_cleared ps j) (decremented deps ps j) j,
        resolved-occupied first deps ps t,
      )
      refl

row-name :
    (first : Job → Bool) (deps : List Dependency) (ps : List Job) (j : Job)
    → (resolved_row first deps ps j).name ≡ j.name
unfolding resolved_row
row-name first deps ps j = updated_by-name _ (is_cleared ps j) (decremented deps ps j) j

row-state :
    (first : Job → Bool) (deps : List Dependency) (ps : List Job) (j : Job)
    → (resolved_row first deps ps j).state ≡ j.state
unfolding resolved_row
row-state first deps ps j = updated_by-state _ (is_cleared ps j) (decremented deps ps j) j

-- Nothing is left behind a batch that is not full.
short-drop : (n : ℕ) (l : List Job) → length (take n l) < n → drop n l ≡ []
short-drop zero l h = absurd (omega (arith, h))
short-drop (suc n) [] h = refl
short-drop (suc n) (j ∷ l) h = short-drop n l (omega (arith, h))

not_cleared-keyed : (ps : List Job) (r : Job) → is_cleared ps r ≡ false → total (keyed r) ps ≡ 0
not_cleared-keyed [] r h = refl
not_cleared-keyed (p ∷ ps) r h =
    zero_both (key_swap r p ∙ head _ h) (not_cleared-keyed ps r (tail _ h))
  where
    head : {a : Bool} (b : Bool) → (a || b) ≡ false → a ≡ false
    head b h = ground arith

    tail : (a : Bool) {b : Bool} → (a || b) ≡ false → b ≡ false
    tail a h = ground arith

    zero_both : {a : Bool} → a ≡ false → total (keyed r) ps ≡ 0 → one_if a + total (keyed r) ps ≡ 0
    zero_both e h = ground arith

-- Each row of the table is one of the batch or one of the others.
batch_or_other :
    (t : Table) (ps rest : List Job) (r : Job)
    → Divides t ps rest
    → Counted t r
    → is_cleared rest r ≡ false
    → is_cleared ps r ≡ true
batch_or_other t ps rest r d c h = elim (Bool-cases (is_cleared ps r)) [
  | inl e ↦ e
  | inr e ↦
      absurd (omega (arith, d (keyed r), c, not_cleared-keyed ps r e, not_cleared-keyed rest r h))
]

All-reject : (p : Job → Bool) (t : Table) → All (λ j. not (p j) ≡ true) (reject p t)
All-reject p [] = tt
All-reject p (j ∷ t) = elim (Bool-cases (p j)) [
  | inl e ↦ rw e (All-reject p t)
  | inr e ↦ rw e (rw e refl, All-reject p t)
]

abbrev unlocked : Job → Bool
unlocked j = false

module _ (first : Job → Bool) (name_lt : String → String → Bool) (names : List String)
    (deps : List Dependency) where
  abbrev batch : Table → List Job
  batch t = blocking_parents name_lt unlocked names t

  batch-rest :
      (t : Table)
      → length (batch t) < 1000
      → Divides t (batch t) (reject (is_resolved names unlocked) t)
  unfolding blocking_parents
  batch-rest t h f =
      Divides-batch (key_before name_lt) 1000 (is_resolved names unlocked) t f
      ∙ ap (λ l. total f (batch t) + total f (l ++ reject (is_resolved names unlocked) t))
          (short-drop 1000 _ h)

  -- A batch that is not full has every row that passes the test.
  All-taken :
      (t : Table)
      → IsUnique t
      → length (batch t) < 1000
      → All (λ r. is_resolved names unlocked r ≡ true → is_cleared (batch t) r ≡ true) t
  All-taken t u h = All-map _ _ t taken (
      All-zip _ _ t (All-Counted t) (
        All-cleared (λ r. not (is_resolved names unlocked r)) t rest (batch t)
          (λ f. d f ∙ swap (total f (batch t)) (total f rest)) (IsUnique-OneKey t u)
          (All-reject (is_resolved names unlocked) t)))
    where
      rest : List Job
      rest = reject (is_resolved names unlocked) t

      d : Divides t (batch t) rest
      d = batch-rest t h

      swap : (b c : ℕ) → b + c ≡ c + b
      swap b c = omega arith

      not_other : (b : Bool) {x : Bool} → (b ≡ true → not x ≡ true) → x ≡ true → b ≡ false
      not_other b f e = ground arith

      taken :
          (r : Job)
          → Counted t r × (is_cleared rest r ≡ true → not (is_resolved names unlocked r) ≡ true)
          → is_resolved names unlocked r ≡ true
          → is_cleared (batch t) r ≡ true
      taken r k e = batch_or_other t (batch t) rest r d k.0 (not_other (is_cleared rest r) k.1 e)

  -- After a batch that is not full, no row passes the test.
  short-drained :
      (t : Table)
      → IsUnique t
      → All NotStuck t
      → length (batch t) < 1000
      → All (λ j. is_resolved names unlocked j ≡ false) (map (resolved_row first deps (batch t)) t)
  short-drained t u s h =
      All-rows _ _ (resolved_row first deps (batch t)) t done
        (All-zip _ _ t (All-taken t u h) (batch-Apart name_lt unlocked names t u s))
    where
      none : (b c x : Bool) → ((b && x) ≡ true → c ≡ true) → ((b && not c) && x) ≡ false
      none b c x f = ground arith

      done :
          (j : Job)
          → (is_resolved names unlocked j ≡ true → is_cleared (batch t) j ≡ true)
            × Apart (batch t) j
          → is_resolved names unlocked (resolved_row first deps (batch t) j) ≡ false
      done j k =
          rw
            (
              row-blocking first deps (batch t) j k.1,
              row-name first deps (batch t) j,
              row-state first deps (batch t) j,
            )
            (none j.blocking (is_cleared (batch t) j) _ k.0)

  abbrev resolve : Table → Table × ℕ
  resolve t = resolve_flow_jobs first name_lt unlocked names deps t

  resolve-IsUnique : (t : Table) → IsUnique t → IsUnique (resolve t).0
  unfolding resolve_flow_jobs
  resolve-IsUnique t u = rw (resolved-occupied first deps (batch t) t) u

  resolve-NotStuck : (t : Table) → All NotStuck t → All NotStuck (resolve t).0
  unfolding resolve_flow_jobs
  resolve-NotStuck t s = All-rows _ _ _ t (row-NotStuck first deps (batch t)) s

  resolve-short :
      (t : Table)
      → IsUnique t
      → All NotStuck t
      → (resolve t).1 < 1000
      → All (λ j. is_resolved names unlocked j ≡ false) (resolve t).0
  unfolding resolve_flow_jobs
  resolve-short t u s h = short-drained t u s (
      rw
        (← cleared-length t (batch t) _ (batch-Divides name_lt unlocked names t)
          (IsUnique-OneKey t u))
        h)

-- With a table with unique indexes in which no completed job is blocked, and no row locked by others,
-- a pass over a chunk of queues that ends before its last batch leaves no completed job of these
-- queues that still blocks others.
pub batches-drained :
    (first : Job → Bool) (name_lt : String → String → Bool) (names : List String)
    (deps : List Dependency) (limit : ℕ) (t : Table)
    → IsUnique t
    → All NotStuck t
    → let r = batches (resolve_flow_jobs first name_lt (λ j. false) names deps) limit t in
      r.1 < limit → All (λ j. is_resolved names (λ k. false) j ≡ false) r.0
unfolding batches
batches-drained first name_lt names deps zero t u s h = absurd (omega (arith, h))
batches-drained first name_lt names deps (suc left) t u s h =
    by_size _ refl
      (λ k.
        batches-drained first name_lt names deps left _
          (resolve-IsUnique first name_lt names deps t u)
          (resolve-NotStuck first name_lt names deps t s) k)
      h
  where
    drained : Table → Type 0
    drained v = All (λ j. is_resolved names (λ k. false) j ≡ false) v

    one : Table × ℕ
    one = resolve first name_lt names deps t

    more : Table × ℕ
    more = batches (resolve first name_lt names deps) left one.0

    chosen : Bool → Table × ℕ
    chosen b = if b then (more.0, suc more.1) else (one.0, 1)

    short : (n : ℕ) → leb 1000 n ≡ false → n < 1000
    short n e = ground arith

    by_size :
        (b : Bool)
        → leb 1000 one.1 ≡ b
        → (more.1 < left → drained more.0)
        → (chosen b).1 < suc left
        → drained (chosen b).0
    by_size true e f h = f (omega (arith, h))
    by_size false e f h = resolve-short first name_lt names deps t u s (short one.1 e)
