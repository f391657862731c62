-- ===== src/Fail/Reinsert.antt =====
-- The first half of failJobsBody: the deleted rows go back into the table.
use bun_boss.Base.{
  ◌≡◌, refl, String, Bool, true, false, List, [], ◌∷◌, ◌++◌, map, Option, inl, inr, Bool-cases, All,
  select, reject, any, ◌==◌,
}
use bun_boss.Job.{completed, state_lt, Job}
use bun_boss.Store.{Table, ok, collides}
use bun_boss.Store.Unique.{IsUnique}
use bun_boss.Fail.Inserts.{
  cons-IsUnique, insert_skipping-IsUnique, insert_skipping-perm, insert_first, Both, All-map,
  All-zip, All-select, All-reject,
}
use bun_boss.Fail.Apart.{
  reject-IsUnique, select-reject-Both, others-Both, Ordered, IsUnique-Ordered, select-Ordered,
  reject-Ordered,
}
use bun_boss.Fail.Core.{
  slots-failed, core-retried, Beside, insert_skipping-Beside, core-Nodup, retried-Nodup,
  Both-Beside, Both-core,
}
use bun_boss.Fail.{Env, retried_row, failed_row, insert_skipping, insert_rows, reinserted}
use mathlib.Core.List.Perm
use mathlib.Core.List.{Perm, perm_middle, perm_append_comm, append_assoc}

abbrev CanFail : Job → Type 0
CanFail j = state_lt j.state completed ≡ true

-- The failed rows all go in.
insert_failed :
    (e : Env) (o : Job → Option String) (g : List Job) (t : Table)
    → All CanFail g
    → All (λ j. All (Beside j) t) g
    → Ordered g
    → IsUnique t
    → (u : Table) × ((insert_rows (map (λ j. failed_row e (o j) j) g) t ≡ ok u)
        × (IsUnique u × Perm u (map (λ j. failed_row e (o j) j) g ++ t)))
unfolding insert_rows
insert_failed e o [] t c a r u = (t, (refl, (u, Perm.refl t)))
insert_failed e o (j ∷ g) t c a r u =
    let row = failed_row e (o j) j in
    let free : collides row t ≡ false = insert_first row t (rw (slots-failed e (o j) j) a.0) in
    let beside =
      All-map _ _ g (λ k d. (rw (slots-failed e (o j) j) (Both-core k j d.0.0 c.0 d.0.1), d.1))
        (All-zip _ _ g (All-zip _ _ g c.1 r.0) a.1) in
    let rest =
      insert_failed e o g (row ∷ t) c.1 beside r.1
        (cons-IsUnique row t (rw (slots-failed e (o j) j) (core-Nodup j)) free u) in
    (
      rest.0,
      (
        rw free rest.1.0,
        (rest.1.1.0, Perm.trans rest.1.1.1 (perm_middle (map (λ k. failed_row e (o k) k) g) t)),
      ),
    )

All-of-map :
    (P Q : Job → Type 0) (f : Job → Job) (t : List Job)
    → ((k : Job) → P k → Q (f k))
    → All P t
    → All Q (map f t)
All-of-map P Q f [] g a = tt
All-of-map P Q f (k ∷ t) g a = (g k a.0, All-of-map P Q f t g a.1)

selected-CanFail :
    (p : Job → Bool) (t : Table) → ((j : Job) → p j ≡ true → CanFail j) → All CanFail (select p t)
selected-CanFail p [] c = tt
selected-CanFail p (j ∷ t) c = elim (Bool-cases (p j)) [
  | inl e ↦ rw e (c j e, selected-CanFail p t c)
  | inr e ↦ rw e (selected-CanFail p t c)
]

-- Every deleted row that was not re-inserted for a retry can come back beside the table.
rejected-Beside :
    (e : Env) (b : Bool) (o : Job → Option String) (p : Job → Bool) (t : Table)
    → ((j : Job) → p j ≡ true → CanFail j)
    → IsUnique t
    → let d = select p t in
      let r = insert_skipping (map (λ j. retried_row e b (o j) j) d) (reject p t) in
      All (λ j. All (Beside j) r.0) (reject (λ j. any (λ k. k.id == j.id) r.1) d)
unfolding retried_row
rejected-Beside e b o p t c u =
    All-map _ _ _ (λ j h. insert_skipping-Beside j _ _ h.0.0 h.0.1 h.1)
      (All-reject
        (λ j. All (Beside j) (reject p t) × All (λ r. (r.id == j.id) ≡ false → Beside j r) rows) _ d
        (All-zip _ _ d kept others))
  where
    d : List Job
    d = select p t

    rows : List Job
    rows = map (λ j. retried_row e b (o j) j) d

    can : All CanFail d
    can = selected-CanFail p t c

    kept : All (λ j. All (Beside j) (reject p t)) d
    kept =
        All-map _ _ d (λ j h. All-map _ _ (reject p t) (λ s k. Both-Beside j s h.0 k) h.1)
          (All-zip _ _ d can (select-reject-Both p t u))

    others : All (λ j. All (λ r. (r.id == j.id) ≡ false → Beside j r) rows) d
    others =
        All-map _ _ d
          (λ j h.
            All-of-map _ (λ r. (r.id == j.id) ≡ false → Beside j r) (λ k. retried_row e b (o k) k) d
              (λ k i n. core-retried e b (o k) j k (Both-core j k h.0 i.0 (i.1.0 n)))
              (All-zip _ _ d can (All-select (λ k. (k.id == j.id) ≡ false → Both j k) p t h.1.0)))
          (All-zip _ _ d can (
            All-select (λ j. All (λ k. (k.id == j.id) ≡ false → Both j k) t) p t (others-Both t u)))

All-rejected : (P : Job → Type 0) (p : Job → Bool) (t : List Job) → All P t → All P (reject p t)
All-rejected P p t a = All-map _ _ (reject p t) (λ j h. h.0) (All-reject P p t a)

shuffle : (f r k : List Job) → Perm (f ++ (r ++ k)) ((r ++ f) ++ k)
shuffle f r k = rw (← append_assoc f r k) (Perm.append_right k (perm_append_comm f r))

-- The first half of failing: where the test selects only jobs that are not completed, cancelled or
-- failed, and the table's indexes are unique, no insert raises a constraint error, whatever
-- retries collide. The indexes stay unique, and the new table holds exactly the rows that `results`
-- returns and the rows that were not selected.
pub reinserted_total :
    (e : Env) (force_terminal : Bool) (output : Job → Option String) (p : Job → Bool) (t : Table)
    → ((j : Job) → p j ≡ true → state_lt j.state completed ≡ true)
    → IsUnique t
    → (u : Table) × ((results : List Job) × ((reinserted e force_terminal output p t
            ≡ ok (u, results))
          × (IsUnique u × Perm u (results ++ reject p t))))
unfolding reinserted
reinserted_total e b o p t c u =
    (done.0, (retried ++ failed_jobs, (rw done.1.0 refl, (done.1.1.0, all_rows))))
  where
    d : List Job
    d = select p t

    rows : List Job
    rows = map (λ j. retried_row e b (o j) j) d

    t₁ : Table
    t₁ = (insert_skipping rows (reject p t)).0

    retried : List Job
    retried = (insert_skipping rows (reject p t)).1

    g : List Job
    g = reject (λ j. any (λ k. k.id == j.id) retried) d

    failed_jobs : List Job
    failed_jobs = map (λ j. failed_row e (o j) j) g

    unique : IsUnique t₁
    unique =
        insert_skipping-IsUnique rows (reject p t)
          (All-of-map CanFail _ (λ j. retried_row e b (o j) j) d (λ k i. retried-Nodup e b (o k) k)
            (selected-CanFail p t c))
          (reject-IsUnique p t u)

    done :
        (u : Table) × ((insert_rows failed_jobs t₁ ≡ ok u)
          × (IsUnique u × Perm u (failed_jobs ++ t₁)))
    done =
        insert_failed e o g t₁ (All-rejected CanFail _ d (selected-CanFail p t c))
          (rejected-Beside e b o p t c u)
          (reject-Ordered _ d (select-Ordered p t (IsUnique-Ordered t u))) unique

    all_rows : Perm done.0 ((retried ++ failed_jobs) ++ reject p t)
    all_rows = Perm.trans done.1.1.1 (
        Perm.trans (Perm.append_left failed_jobs (insert_skipping-perm rows (reject p t)))
          (shuffle failed_jobs retried (reject p t)))
