-- ===== src/Fail/Conserve.antt =====
-- Failing the jobs of one queue loses none of them.
use bun_boss.Base.{
  ℕ, ◌≡◌, refl, sym, ap, ◌∙◌, String, Bool, true, false, ◌||◌, Option, List, [], ◌∷◌, ◌++◌, map,
  arith, inl, inr, Bool-cases, All, select, reject, any, ◌==◌,
}
use bun_boss.Job.{Job}
use bun_boss.Store.{Table, Result, ok, unique_violation, ◌>>=◌, slots, collides, pkey}
use bun_boss.Store.Unique.{IsUnique}
use bun_boss.Store.Keys.{IsUnique-tail}
use bun_boss.Fail.{Env, insert_skipping, insert_rows, reinserted, retried_row, failed_row}
use bun_boss.Fail.Inserts.{Both, All-map, All-zip}
use bun_boss.Fail.Apart.{head-All, select-IsUnique}
use mathlib.Core.Path.{subst}
use mathlib.Core.List.{mem-cons_self, Perm, perm_middle}
use mathlib.Core.List.Perm

abbrev pub ids : List Job → List ℕ
ids js = map (λ j. j.id) js

abbrev has : List Job → Job → Bool
has rs j = any (λ r. r.id == j.id) rs

-- No id stands twice.
abbrev pub OwnIds : List Job → Type 0
OwnIds [] = Unit
OwnIds (j ∷ js) = All (λ k. (j.id == k.id) ≡ false) js × OwnIds js

or_both : (a b : Bool) → a ≡ false → b ≡ false → (a || b) ≡ false
or_both a b h k = ground arith

flip : (a b : ℕ) → (a == b) ≡ false → (b == a) ≡ false
flip a b h = ground arith

pub own : (a : ℕ) → (a == a) ≡ true
own a = ground arith

-- A row whose id no given row has is not among the rows inserted.
skipped-has :
    (f : Job → Job) (j : Job) (ks : List Job) (t : Table)
    → ((k : Job) → (f k).id ≡ k.id)
    → All (λ k. (j.id == k.id) ≡ false) ks
    → has (insert_skipping (map f ks) t).1 j ≡ false
unfolding insert_skipping
skipped-has f j [] t i a = refl
skipped-has f j (k ∷ ks) t i a = elim (Bool-cases (collides (f k) t)) [
  | inl e ↦ rw e (skipped-has f j ks t i a.1)
  | inr e ↦ rw e (
      or_both _ _ (ap (λ x. x == j.id) (i k) ∙ flip j.id k.id a.0)
        (skipped-has f j ks (f k ∷ t) i a.1))
]

-- A row of another id is passed over.
reject-has :
    (r : Job) (rs ks : List Job)
    → All (λ k. (r.id == k.id) ≡ false) ks
    → reject (has (r ∷ rs)) ks ≡ reject (has rs) ks
reject-has r rs [] a = refl
reject-has r rs (k ∷ ks) a = rw (a.0, reject-has r rs ks a.1) refl

-- The two steps of the induction below, for the rows `r` inserted after the first.
step_skipped :
    (k : Job) (r ks : List Job)
    → has r k ≡ false
    → Perm (ids r ++ ids (reject (has r) ks)) (ids ks)
    → Perm (ids r ++ ids (reject (has r) (k ∷ ks))) (k.id ∷ ids ks)
step_skipped k r ks h p =
    rw h (Perm.trans (perm_middle (ids r) (ids (reject (has r) ks))) (Perm.cons k.id p))

step_inserted :
    (k s : Job) (r ks : List Job)
    → s.id ≡ k.id
    → All (λ j. (k.id == j.id) ≡ false) ks
    → Perm (ids r ++ ids (reject (has r) ks)) (ids ks)
    → Perm (s.id ∷ (ids r ++ ids (reject (has (s ∷ r)) (k ∷ ks)))) (k.id ∷ ids ks)
step_inserted k s r ks e a p =
    rw (ap (λ x. (x == k.id) || has r k) e, own k.id)
      (rw (reject-has s r ks (rw e a)) (rw e (Perm.cons k.id p)))

abbrev pub Returned : Job → List Job → List Job → Type 0
Returned k ks r = Perm (ids r ++ ids (reject (has r) (k ∷ ks))) (k.id ∷ ids ks)

no_rows : (t : Table) → (insert_skipping [] t).1 ≡ []
unfolding insert_skipping
no_rows t = refl

skipped_rows :
    (k : Job) (rs : List Job) (t : Table)
    → collides k t ≡ true
    → (insert_skipping (k ∷ rs) t).1 ≡ (insert_skipping rs t).1
unfolding insert_skipping
skipped_rows k rs t e = rw e refl

inserted_rows :
    (k : Job) (rs : List Job) (t : Table)
    → collides k t ≡ false
    → (insert_skipping (k ∷ rs) t).1 ≡ k ∷ (insert_skipping rs (k ∷ t)).1
unfolding insert_skipping
inserted_rows k rs t e = rw e refl

insert_skipping-ids :
    (f : Job → Job) (ks : List Job) (t : Table)
    → ((k : Job) → (f k).id ≡ k.id)
    → OwnIds ks
    → let r = (insert_skipping (map f ks) t).1 in Perm (ids r ++ ids (reject (has r) ks)) (ids ks)
insert_skipping-ids f [] t i o = rw (no_rows t) (Perm.refl [])
insert_skipping-ids f (k ∷ ks) t i o = elim (Bool-cases (collides (f k) t)) [
  | inl e ↦
      subst (Returned k ks) (sym (skipped_rows (f k) (map f ks) t e))
        (step_skipped k _ ks (skipped-has f k ks t i o.0) (insert_skipping-ids f ks t i o.1))
  | inr e ↦
      subst (Returned k ks) (sym (inserted_rows (f k) (map f ks) t e))
        (step_inserted k (f k) _ ks (i k) o.0 (insert_skipping-ids f ks (f k ∷ t) i o.1))
]

same_slot :
    (j k : Job) → j.name ≡ k.name → (j.id == k.id) ≡ true → pkey j.name j.id ≡ pkey k.name k.id
same_slot j k e h = ground arith

-- Jobs of one queue that share no slot have different ids.
Both-id : (j k : Job) → Both j k → j.name ≡ k.name → (j.id == k.id) ≡ false
unfolding slots
Both-id j k d e = elim (Bool-cases (j.id == k.id)) [
  | inl h ↦ absurd (d (pkey j.name j.id) mem-cons_self (rw (same_slot j k e h) mem-cons_self))
  | inr h ↦ h
]

Named-OwnIds : (name : String) (t : Table) → All (λ j. j.name ≡ name) t → IsUnique t → OwnIds t
Named-OwnIds name [] a u = tt
Named-OwnIds name (j ∷ t) a u = (
  All-map _ _ t (λ k h. Both-id j k h.0 (a.0 ∙ sym h.1)) (All-zip _ _ t (head-All j t u) a.1),
  Named-OwnIds name t a.1 (IsUnique-tail j t u),
)

pub All-selected :
    (P : Job → Type 0) (p : Job → Bool) (t : Table)
    → ((j : Job) → p j ≡ true → P j)
    → All P (select p t)
All-selected P p [] c = tt
All-selected P p (j ∷ t) c = elim (Bool-cases (p j)) [
  | inl e ↦ rw e (c j e, All-selected P p t c)
  | inr e ↦ rw e (All-selected P p t c)
]

ids-append : (xs ys : List Job) → ids (xs ++ ys) ≡ ids xs ++ ids ys
ids-append [] ys = refl
ids-append (x ∷ xs) ys = ap (λ l. x.id ∷ l) (ids-append xs ys)

ids-map : (f : Job → Job) (js : List Job) → ((k : Job) → (f k).id ≡ k.id) → ids (map f js) ≡ ids js
ids-map f [] i = refl
ids-map f (j ∷ js) i = rw (i j, ids-map f js i) refl

returned :
    (r : Result Table) (rows : List Job) (u : Table) (results : List Job)
    → ◌≡◌ {A = Result (Table × List Job)} (r >>= λ t. ok (t, rows)) (ok (u, results))
    → rows ≡ results
returned unique_violation rows u results h = absurd (ground arith)
returned (ok v) rows u results h = ap (λ r. elim r [ ok x ↦ x.1 | unique_violation ↦ rows ]) h

-- Where the test selects jobs of one queue only, the table's indexes are unique, and the first half of
-- failing returns a table with its `results`, those have exactly the ids of the rows that it deleted,
-- each once.
pub reinserted-ids :
    (e : Env) (force_terminal : Bool) (output : Job → Option String) (p : Job → Bool)
    (name : String) (t u : Table) (results : List Job)
    → ((j : Job) → p j ≡ true → j.name ≡ name)
    → IsUnique t
    → reinserted e force_terminal output p t ≡ ok (u, results)
    → Perm (ids results) (ids (select p t))
unfolding reinserted retried_row failed_row
reinserted-ids e b o p name t u results n v h =
    rw (← returned (insert_rows failed_jobs t₁) (retried ++ failed_jobs) u results h) (
      rw
        (
          ids-append retried failed_jobs,
          ids-map (λ j. failed_row e (o j) j) (reject (has retried) d) (λ k. refl),
        )
        (insert_skipping-ids (λ j. retried_row e b (o j) j) d (reject p t) (λ k. refl)
          (Named-OwnIds name d (All-selected _ p t n) (select-IsUnique p t v))))
  where
    d : List Job
    d = select p t

    t₁ : Table
    t₁ = (insert_skipping (map (λ j. retried_row e b (o j) j) d) (reject p t)).0

    retried : List Job
    retried = (insert_skipping (map (λ j. retried_row e b (o j) j) d) (reject p t)).1

    failed_jobs : List Job
    failed_jobs = map (λ j. failed_row e (o j) j) (reject (has retried) d)
