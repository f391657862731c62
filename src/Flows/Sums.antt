-- ===== src/Flows/Sums.antt =====
-- Sums over the rows of a table, and tables that all sums agree on.
use bun_boss.Base.{
  ℕ, zero, suc, ◌+◌, ◌≡◌, refl, inl, inr, Bool, true, List, [], ◌∷◌, ◌++◌, arith, All, Bool-cases,
  take, drop, select, reject,
}
use bun_boss.Job.{Job}
use bun_boss.Store.{Table}
use bun_boss.Fetch.{insert_by, sort_by}
use bun_boss.Fail.Conserve.{All-selected}

abbrev pub total : (Job → ℕ) → List Job → ℕ
total f [] = 0
total f (j ∷ js) = f j + total f js

-- The rows of `t` are those of `parents` and those of `others`, in some order.
abbrev pub Divides : Table → List Job → List Job → Type 0
Divides t parents others = (f : Job → ℕ) → total f t ≡ total f parents + total f others

total-insert_by :
    (f : Job → ℕ) (lt : Job → Job → Bool) (j : Job) (l : List Job)
    → total f (insert_by lt j l) ≡ f j + total f l
unfolding insert_by
total-insert_by f lt j [] = refl
total-insert_by f lt j (k ∷ l) = elim (Bool-cases (lt k j)) [
  | inl e ↦ rw (e, total-insert_by f lt j l) (omega arith)
  | inr e ↦ rw e refl
]

total-sort_by :
    (f : Job → ℕ) (lt : Job → Job → Bool) (l : List Job) → total f (sort_by lt l) ≡ total f l
unfolding sort_by
total-sort_by f lt [] = refl
total-sort_by f lt (j ∷ l) = rw (total-insert_by f lt j (sort_by lt l), total-sort_by f lt l) refl

total-take :
    (f : Job → ℕ) (n : ℕ) (l : List Job) → total f l ≡ total f (take n l) + total f (drop n l)
total-take f zero l = omega arith
total-take f (suc n) [] = omega arith
total-take f (suc n) (j ∷ l) = omega (arith, total-take f n l)

total-select :
    (f : Job → ℕ) (p : Job → Bool) (l : List Job)
    → total f l ≡ total f (select p l) + total f (reject p l)
total-select f p [] = omega arith
total-select f p (j ∷ l) = elim (Bool-cases (p j)) [
  | inl e ↦ rw e (omega (arith, total-select f p l))
  | inr e ↦ rw e (omega (arith, total-select f p l))
]

total-append : (f : Job → ℕ) (l m : List Job) → total f (l ++ m) ≡ total f l + total f m
total-append f [] m = omega arith
total-append f (j ∷ l) m = omega (arith, total-append f l m)

-- A batch of the rows that pass a test, and the other rows.
pub Divides-batch :
    (lt : Job → Job → Bool) (n : ℕ) (p : Job → Bool) (t : Table)
    → Divides t (take n (sort_by lt (select p t))) (drop n (sort_by lt (select p t)) ++ reject p t)
Divides-batch lt n p t f = rw (total-append f (drop n (sort_by lt (select p t))) (reject p t)) (
    omega (
      arith,
      total-select f p t,
      total-sort_by f lt (select p t),
      total-take f n (sort_by lt (select p t)),
    ))

All-insert_by :
    (P : Job → Type 0) (lt : Job → Job → Bool) (j : Job) (l : List Job)
    → P j
    → All P l
    → All P (insert_by lt j l)
unfolding insert_by
All-insert_by P lt j [] h a = (h, tt)
All-insert_by P lt j (k ∷ l) h a = elim (Bool-cases (lt k j)) [
  | inl e ↦ rw e (a.0, All-insert_by P lt j l h a.1)
  | inr e ↦ rw e (h, a)
]

All-sort_by :
    (P : Job → Type 0) (lt : Job → Job → Bool) (l : List Job) → All P l → All P (sort_by lt l)
unfolding sort_by
All-sort_by P lt [] a = tt
All-sort_by P lt (j ∷ l) a = All-insert_by P lt j (sort_by lt l) a.0 (All-sort_by P lt l a.1)

All-take : (P : Job → Type 0) (n : ℕ) (l : List Job) → All P l → All P (take n l)
All-take P zero l a = tt
All-take P (suc n) [] a = tt
All-take P (suc n) (j ∷ l) a = (a.0, All-take P n l a.1)

-- What the test says of every row of a batch.
pub All-batch :
    (P : Job → Type 0) (lt : Job → Job → Bool) (n : ℕ) (p : Job → Bool) (t : Table)
    → ((j : Job) → p j ≡ true → P j)
    → All P (take n (sort_by lt (select p t)))
All-batch P lt n p t c = All-take P n _ (All-sort_by P lt (select p t) (All-selected P p t c))
