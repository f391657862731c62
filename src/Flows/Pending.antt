-- ===== src/Flows/Pending.antt =====
-- What a blocked job waits for, and that resolving keeps count of it.
use bun_boss.Base.{
  ℕ, ◌+◌, ◌≤◌, ◌≡◌, refl, String, Bool, true, false, not, ◌&&◌, if◌then◌else◌, List, map, arith,
  All, select, reject, drop, ltb, ap, &&-elim, sym, ◌∙◌, [], ◌∷◌, ◌++◌,
}
use bun_boss.Job.{Job, completed, state_eq}
use bun_boss.Store.{Table}
use bun_boss.Store.Unique.{IsUnique}
use bun_boss.Fetch.{sort_by}
use bun_boss.Fail.Inserts.{All-map, All-zip}
use bun_boss.Flows.{
  Dependency, edges, decremented, is_cleared, resolved_row, key_before, is_resolved,
  flow_batch_size, blocking_parents, resolve_flow_jobs,
}
use bun_boss.Flows.Keys.{
  OneKey, IsUnique-OneKey, All-is_cleared, All-not_cleared, All-cleared, total-same, total-none,
  total-map,
}
use bun_boss.Flows.Rows.{
  updated_by-name, updated_by-id, updated_by-state, updated_by-blocking, updated_by-HasCount,
  updated_by-not_blocked, names_both, named_if, not_named,
}
use bun_boss.Flows.Sums.{total, Divides, Divides-batch, All-batch}

-- The dependencies of a job on jobs that still block others.
abbrev pub blocks : List Dependency → Job → Job → ℕ
blocks deps j p = if p.blocking then edges deps j p else 0

unfoldable pub waits : List Dependency → Table → Job → ℕ
waits deps t j = total (blocks deps j) t

-- A blocked job waits for at least one job, and its counter is the number that it waits for.
abbrev pub HasCount : List Dependency → Table → Job → Type 0
HasCount deps t j =
    j.blocked ≡ true → (j.pending_dependencies ≡ waits deps t j) × (1 ≤ waits deps t j)

abbrev pub NotStuck : Job → Type 0
NotStuck j = state_eq j.state completed ≡ true → j.blocked ≡ false

-- Every blocked job has its count, and no completed job is blocked.
abbrev pub IsPending : List Dependency → Table → Type 0
IsPending deps t = All (HasCount deps t) t × All NotStuck t

abbrev pub Apart : List Job → Job → Type 0
Apart parents r = is_cleared parents r ≡ true → r.blocked ≡ false

module _ (first : Job → Bool) (deps : List Dependency) (parents : List Job) where
  pub row-blocking :
      (r : Job)
      → Apart parents r
      → (resolved_row first deps parents r).blocking ≡ (r.blocking && not (is_cleared parents r))
  unfolding resolved_row
  row-blocking r h =
      updated_by-blocking _ (is_cleared parents r) (decremented deps parents r) r (
        names_both r.blocked (ltb 0 (decremented deps parents r)) (first r) (is_cleared parents r)
          h)

  row-HasCount :
      (w v : ℕ) (j : Job)
      → w ≡ decremented deps parents j + v
      → Apart parents j
      → (j.blocked ≡ true → (j.pending_dependencies ≡ w) × (1 ≤ w))
      → (resolved_row first deps parents j).blocked ≡ true
      → ((resolved_row first deps parents j).pending_dependencies ≡ v) × (1 ≤ v)
  unfolding resolved_row
  row-HasCount w v j e h k =
      updated_by-HasCount _ (is_cleared parents j) (decremented deps parents j) w v j e k
        (named_if j.blocked (ltb 0 (decremented deps parents j)) _)
        (not_named j.blocked (first j) (is_cleared parents j) (decremented deps parents j) h)

  pub row-NotStuck : (j : Job) → NotStuck j → NotStuck (resolved_row first deps parents j)
  unfolding resolved_row
  row-NotStuck j h e =
      updated_by-not_blocked _ (is_cleared parents j) (decremented deps parents j) j
        (named_if j.blocked (ltb 0 (decremented deps parents j)) _)
        (h (ap (λ s. state_eq s completed) (sym (updated_by-state _ _ _ j)) ∙ e))

  row-edges :
      (j p : Job)
      → edges deps (resolved_row first deps parents j) (resolved_row first deps parents p)
        ≡ edges deps j p
  unfolding edges resolved_row
  row-edges j p =
      rw
        (
          updated_by-name _ (is_cleared parents j) (decremented deps parents j) j,
          updated_by-id _ (is_cleared parents j) (decremented deps parents j) j,
          updated_by-name _ (is_cleared parents p) (decremented deps parents p) p,
          updated_by-id _ (is_cleared parents p) (decremented deps parents p) p,
        )
        refl

  -- What a row that is not cleared adds to the count.
  abbrev left : Job → Job → ℕ
  left j p = if p.blocking && not (is_cleared parents p) then edges deps j p else 0

  left-cleared : (j p : Job) → is_cleared parents p ≡ true → left j p ≡ 0
  left-cleared j p e = rw e (drop_false p.blocking)
    where
      drop_false : (b : Bool) → (if b && false then edges deps j p else 0) ≡ 0
      drop_false true = refl
      drop_false false = refl

  left-kept : (j p : Job) → is_cleared parents p ≡ false → left j p ≡ blocks deps j p
  left-kept j p e = rw e (drop_true p.blocking)
    where
      drop_true :
          (b : Bool) → (if b && true then edges deps j p else 0) ≡ (if b then edges deps j p else 0)
      drop_true true = refl
      drop_true false = refl

  total-decremented :
      (j : Job) (ps : List Job)
      → All (λ p. p.blocking ≡ true) ps
      → total (blocks deps j) ps ≡ decremented deps ps j
  unfolding decremented
  total-decremented j [] a = refl
  total-decremented j (p ∷ ps) a = rw (a.0, total-decremented j ps a.1) refl

  waits-resolved :
      (t : Table) (rest : List Job) (j : Job)
      → Divides t parents rest
      → OneKey t
      → All (λ p. p.blocking ≡ true) parents
      → All (Apart parents) t
      → waits deps t j
        ≡ decremented deps parents j
          + waits deps (map (resolved_row first deps parents) t) (resolved_row first deps parents j)
  unfolding waits edges
  waits-resolved t rest j d o b a =
      d (blocks deps j) ∙ ap2 (total-decremented j parents b) (sym after)
    where
      ap2 : {a b c e : ℕ} → a ≡ b → c ≡ e → a + c ≡ b + e
      ap2 p q = omega (arith, p, q)

      none_and : {a c e : ℕ} → a ≡ 0 → c ≡ e → a + c ≡ e
      none_and p q = omega (arith, p, q)

      each :
          (r : Job)
          → Apart parents r
          → blocks deps (resolved_row first deps parents j) (resolved_row first deps parents r)
            ≡ left j r
      each r h = rw (row-blocking r h, row-edges j r) refl

      after :
          total
            (blocks deps (resolved_row first deps parents j))
            (map (resolved_row first deps parents) t)
          ≡ total (blocks deps j) rest
      after =
          total-map _ _ t
          ∙ total-same _ (left j) t (All-map _ _ t each a)
          ∙ d (left j)
          ∙ none_and
              (total-none (left j) parents
                (All-map _ _ parents (left-cleared j) (All-is_cleared parents)))
              (total-same (left j) _ rest
                (All-map _ _ rest (left-kept j) (All-not_cleared t parents rest d o)))

pub All-rows :
    (P Q : Job → Type 0) (f : Job → Job) (t : Table)
    → ((j : Job) → P j → Q (f j))
    → All P t
    → All Q (map f t)
All-rows P Q f [] h a = tt
All-rows P Q f (j ∷ t) h a = (h j a.0, All-rows P Q f t h a.1)

batch-blocking :
    (name_lt : String → String → Bool) (locked : Job → Bool) (names : List String) (t : Table)
    → All (λ p. p.blocking ≡ true) (blocking_parents name_lt locked names t)
unfolding blocking_parents
batch-blocking name_lt locked names t =
    All-batch (λ p. p.blocking ≡ true) (key_before name_lt) flow_batch_size _ t
      (λ j h. (&&-elim {a = j.blocking} h).0)

batch-completed :
    (name_lt : String → String → Bool) (locked : Job → Bool) (names : List String) (t : Table)
    → All (λ p. state_eq p.state completed ≡ true) (blocking_parents name_lt locked names t)
unfolding blocking_parents
batch-completed name_lt locked names t =
    All-batch (λ p. state_eq p.state completed ≡ true) (key_before name_lt) flow_batch_size _ t
      (λ j h. (&&-elim {a = state_eq j.state completed} (&&-elim {a = j.blocking} h).1).0)

-- The rows of the table that are in no batch of parents.
abbrev pub others : (String → String → Bool) → (Job → Bool) → List String → Table → List Job
unfolding sort_by
others name_lt locked names t =
    drop flow_batch_size (sort_by (key_before name_lt) (select (is_resolved names locked) t))
    ++ reject (is_resolved names locked) t

pub batch-Divides :
    (name_lt : String → String → Bool) (locked : Job → Bool) (names : List String) (t : Table)
    → Divides t (blocking_parents name_lt locked names t) (others name_lt locked names t)
unfolding blocking_parents others
batch-Divides name_lt locked names t =
    Divides-batch (key_before name_lt) flow_batch_size (is_resolved names locked) t

-- The rows that a batch clears are completed.
pub batch-Apart :
    (name_lt : String → String → Bool) (locked : Job → Bool) (names : List String) (t : Table)
    → IsUnique t
    → All NotStuck t
    → All (Apart (blocking_parents name_lt locked names t)) t
batch-Apart name_lt locked names t u s =
    All-map _ _ t (λ j h c. h.0 (h.1 c))
      (All-zip _ _ t s (
        All-cleared (λ j. state_eq j.state completed) t (blocking_parents name_lt locked names t)
          (others name_lt locked names t) (batch-Divides name_lt locked names t)
          (IsUnique-OneKey t u) (batch-completed name_lt locked names t)))

-- In a table with unique indexes where the counter of every blocked job is the number of its
-- dependencies on jobs that still block, at least one, and no completed job is blocked, resolving a
-- batch of flow jobs keeps both, whatever rows other transactions hold locked: a job is blocked after
-- it only if a job that it depends on has not been resolved yet, and its counter says how many.
pub resolve_flow_jobs-IsPending :
    (first : Job → Bool) (name_lt : String → String → Bool) (locked : Job → Bool)
    (names : List String) (deps : List Dependency) (t : Table)
    → IsUnique t
    → IsPending deps t
    → IsPending deps (resolve_flow_jobs first name_lt locked names deps t).0
unfolding resolve_flow_jobs
resolve_flow_jobs-IsPending first name_lt locked names deps t u p = (
  All-rows _ _ row t (λ j h. row-HasCount first deps parents _ _ j (count j) h.1 h.0)
      (All-zip _ _ t p.0 apart),
  All-rows _ _ row t (row-NotStuck first deps parents) p.1,
)
  where
    parents : List Job
    parents = blocking_parents name_lt locked names t

    row : Job → Job
    row = resolved_row first deps parents

    apart : All (Apart parents) t
    apart = batch-Apart name_lt locked names t u p.1

    count : (j : Job) → waits deps t j ≡ decremented deps parents j + waits deps (map row t) (row j)
    count j =
        waits-resolved first deps parents t (others name_lt locked names t) j
          (batch-Divides name_lt locked names t) (IsUnique-OneKey t u)
          (batch-blocking name_lt locked names t) apart
