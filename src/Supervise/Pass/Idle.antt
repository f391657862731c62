-- ===== src/Supervise/Pass/Idle.antt =====
-- What failing a job leaves: each row that src/plans.ts (failJobsBody) and src/manager.ts
-- (reinsertFailedJobs) put back is not active.
use bun_boss.Base.{
  ℕ, ◌≡◌, refl, ap, String, Bool, true, false, if◌then◌else◌, List, [], ◌∷◌, ◌++◌, map, Option,
  select, reject, All, inl, inr, Bool-cases, any, ◌==◌,
}
use bun_boss.Job.{retry, active, failed, state_eq, Job}
use bun_boss.Store.{Table, Result, ok, unique_violation, ◌>>=◌, collides}
use bun_boss.Fail.Split.{
  insert_retry_job, split_retry_row, insert_dead_letter_job, reinsert_one, reinsert_failed_jobs,
}
use mathlib.Core.Path.{subst}
use bun_boss.Fail.{
  Env, Queue, can_retry, retried_row, failed_row, insert_skipping, insert_rows, dead_letter_row,
  dead_letter_queues, dead_letters_of, dead_letters, reinserted, fail_rows,
}

pub ok-injective : {A : Type 0} (a b : A) → ok a ≡ ok b → a ≡ b
ok-injective a b h = cc

-- A statement that follows another succeeds only after it.
pub split_ok :
    {A B : Type 0} {b : B} (first : Result A) (next : A → Result B)
    → ◌≡◌ {A = Result B} (first >>= next) (ok b)
    → (a : A) × (first ≡ ok a) × (next a ≡ ok b)
split_ok unique_violation next h = cc
split_ok (ok a) next h = (a, refl, h)

-- A predicate on rows that holds of all rows that are not active.
module _ (P : Job → Type 0) (idle : (j : Job) → state_eq j.state active ≡ false → P j) where
  All-++ : (xs ys : List Job) → All P xs → All P ys → All P (xs ++ ys)
  All-++ [] ys a b = b
  All-++ (x ∷ xs) ys a b = (a.0, All-++ xs ys a.1 b)

  insert_skipping-All :
      (rs : List Job) (t : Table)
      → All P rs
      → All P t
      → All P (insert_skipping rs t).0 × All P (insert_skipping rs t).1
  unfolding insert_skipping
  insert_skipping-All [] t a b = (b, tt)
  insert_skipping-All (r ∷ rs) t a b = elim (Bool-cases (collides r t)) [
    | inl e ↦ rw e (insert_skipping-All rs t a.1 b)
    | inr e ↦
        let (left, added) = insert_skipping-All rs (r ∷ t) a.1 (a.0, b) in rw e (left, (a.0, added))
  ]

  insert_rows-All :
      (rs : List Job) (t u : Table) → All P rs → All P t → insert_rows rs t ≡ ok u → All P u
  unfolding insert_rows
  insert_rows-All [] t u a b h = subst (All P) (ok-injective t u h) b
  insert_rows-All (r ∷ rs) t u a b h = elim (Bool-cases (collides r t)) [
    | inl e ↦ cc (rw e at h)
    | inr e ↦ insert_rows-All rs (r ∷ t) u a.1 (a.0, b) (rw e at h)
  ]

  retried_row-idle :
      (e : Env) (force : Bool) (output : Option String) (j : Job) → P (retried_row e force output j)
  unfolding retried_row
  retried_row-idle e force output j = idle _ (not_active (can_retry force j))
    where
      not_active : (b : Bool) → state_eq (if b then retry else failed) active ≡ false
      not_active true = refl
      not_active false = refl

  rows-idle : (f : Job → Job) → ((j : Job) → P (f j)) → (xs : List Job) → All P (map f xs)
  rows-idle f h [] = tt
  rows-idle f h (x ∷ xs) = (h x, rows-idle f h xs)

  failed_row-idle : (e : Env) (output : Option String) (j : Job) → P (failed_row e output j)
  unfolding failed_row
  failed_row-idle e output j = idle _ refl

  letters-idle : (e : Env) (r : Job) (qs : List Queue) → All P (map (λ q. dead_letter_row e q r) qs)
  unfolding dead_letter_row
  letters-idle e r [] = tt
  letters-idle e r (q ∷ qs) = (idle _ refl, letters-idle e r qs)

  dead_letters-idle : (e : Env) (rs : List Job) → All P (dead_letters e rs)
  unfolding dead_letters dead_letters_of dead_letter_row
  dead_letters-idle e [] = tt
  dead_letters-idle e (r ∷ rs) =
      All-++ (dead_letters_of e r) _ (copies (state_eq r.state failed)) (dead_letters-idle e rs)
    where
      copies :
          (b : Bool)
          → All P (
              if b
              then map (λ q. dead_letter_row e q r) (dead_letter_queues e r.dead_letter)
              else [])
      copies true = letters-idle e r (dead_letter_queues e r.dead_letter)
      copies false = tt

  -- As one statement: the rows left, the rows put back, and the dead letters.
  reinserted-All :
      (e : Env) (force : Bool) (output : Job → Option String) (p : Job → Bool) (t : Table)
      (r : Table × List Job)
      → All P (reject p t)
      → reinserted e force output p t ≡ ok r
      → All P r.0
  unfolding reinserted
  reinserted-All e force output p t r a h =
      let deleted = select p t in
      let (kept, retried) =
        insert_skipping (map (λ j. retried_row e force (output j) j) deleted) (reject p t) in
      let failed_jobs =
        map (λ j. failed_row e (output j) j)
          (reject (λ j. any (λ r. r.id == j.id) retried) deleted) in
      let put_back =
        insert_skipping-All (map (λ j. retried_row e force (output j) j) deleted) (reject p t)
          (rows-idle _ (λ j. retried_row-idle e force (output j) j) deleted) a in
      let (w, h₁, h₂) =
        split_ok (insert_rows failed_jobs kept) (λ t₂. ok (t₂, retried ++ failed_jobs)) h in
      subst (All P) (ap (λ x. x.0) (ok-injective _ r h₂)) (
        insert_rows-All failed_jobs kept w
          (rows-idle _ (λ j. failed_row-idle e (output j) j)
            (reject (λ j. any (λ r. r.id == j.id) retried) deleted))
          put_back.0 h₁)

  pub fail_rows-All :
      (e : Env) (force : Bool) (output : Job → Option String) (p : Job → Bool) (t u : Table) (n : ℕ)
      → All P (reject p t)
      → fail_rows e force output p t ≡ ok (u, n)
      → All P u
  unfolding fail_rows
  fail_rows-All e force output p t u n a h =
      let (r, h₁, h₂) = split_ok (reinserted e force output p t) _ h in
      let (v, h₃, h₄) = split_ok (insert_rows (dead_letters e r.1) r.0) _ h₂ in
      subst (All P) (ap (λ x. x.0) (ok-injective _ (u, n) h₄)) (
        insert_rows-All (dead_letters e r.1) r.0 v (dead_letters-idle e r.1)
          (reinserted-All e force output p t r a h₁) h₃)

  -- Split into statements: the rows of other ids, and what each turn puts back.
  insert_retry_job-All : (r : Job) (t : Table) → P r → All P t → All P (insert_retry_job r t).0
  unfolding insert_retry_job
  insert_retry_job-All r t a b = elim (Bool-cases (collides r t)) [
    | inl e ↦ rw e b
    | inr e ↦ rw e (a, b)
  ]

  split_retry_row-idle :
      (e : Env) (output : Option String) (j : Job) → P (split_retry_row e output j)
  unfolding split_retry_row
  split_retry_row-idle e output j = idle _ refl

  reinsert_one-All :
      (e : Env) (force : Bool) (output : Job → Option String) (j : Job) (t u : Table)
      → All P t
      → reinsert_one e force output j t ≡ ok u
      → All P u
  unfolding reinsert_one insert_dead_letter_job
  reinsert_one-All e force output j t u a h = by_try (can_retry force j) h
    where
      first : Bool → Table × Bool
      first b = if b then insert_retry_job (split_retry_row e (output j) j) t else (t, false)

      first-All : (b : Bool) → All P (first b).0
      first-All true = insert_retry_job-All _ t (split_retry_row-idle e (output j) j) a
      first-All false = a

      by_retried :
          (x : Table × Bool)
          → All P x.0
          → (if x.1
              then ok x.0
              else insert_dead_letter_job e
                  (failed_row e (output j) j)
                  (insert_retry_job (failed_row e (output j) j) x.0).0)
            ≡ ok u
          → All P u
      by_retried (v, true) b k = subst (All P) (ok-injective v u k) b
      by_retried (v, false) b k =
          insert_rows-All _ _ u (letters-idle e (failed_row e (output j) j) _)
            (insert_retry_job-All _ v (failed_row-idle e (output j) j) b) k

      by_try :
          (b : Bool)
          → (if (first b).1
              then ok (first b).0
              else insert_dead_letter_job e
                  (failed_row e (output j) j)
                  (insert_retry_job (failed_row e (output j) j) (first b).0).0)
            ≡ ok u
          → All P u
      by_try b k = by_retried (first b) (first-All b) k

  pub reinsert_failed_jobs-All :
      (e : Env) (force : Bool) (output : Job → Option String) (js : List Job) (t u : Table) (n : ℕ)
      → All P t
      → reinsert_failed_jobs e force output js t ≡ ok (u, n)
      → All P u
  unfolding reinsert_failed_jobs
  reinsert_failed_jobs-All e force output [] t u n a h =
      subst (All P) (ap (λ x. x.0) (ok-injective _ (u, n) h)) a
  reinsert_failed_jobs-All e force output (j ∷ js) t u n a h =
      let (v, h₁, h₂) = split_ok (reinsert_one e force output j t) _ h in
      let (w, h₃, h₄) = split_ok (reinsert_failed_jobs e force output js v) _ h₂ in
      subst (All P) (ap (λ x. x.0) (ok-injective _ (u, n) h₄)) (
        reinsert_failed_jobs-All e force output js v w.0 w.1
          (reinsert_one-All e force output j t v a h₁) h₃)
