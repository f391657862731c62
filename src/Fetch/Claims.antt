-- ===== src/Fetch/Claims.antt =====
-- How many rows a fetch claims.
use bun_boss.Base.{
  String, ℕ, zero, suc, ◌≤◌, ◌≡◌, refl, inl, inr, Bool, List, [], ◌∷◌, map, Option, none, some,
  arith, length, take, select, Bool-cases,
}
use bun_boss.Job.{Job}
use bun_boss.Store.{Table, Result, ok, unique_violation, update_rows}
use bun_boss.Store.Unique.{IsUnique, update_rows-IsUnique}
use bun_boss.Store.Keys.{count-targets}
use bun_boss.Fetch.{
  FetchOptions, GroupConcurrency, next, first_of_key, group_filtered, is_singleton_fetch, claimed,
  is_claimed, set_active, fetch_next_job, fetch,
}

length-take-le : (n : ℕ) (l : List Job) → length (take n l) ≤ n
length-take-le zero l = omega arith
length-take-le (suc n) [] = omega arith
length-take-le (suc n) (x ∷ l) = omega (arith, length-take-le n l)

length-select-le : (p : Job → Bool) (l : List Job) → length (select p l) ≤ length l
length-select-le p [] = omega arith
length-select-le p (x ∷ l) = ground (arith, length-select-le p l)

length-map {ℓ} : {B : Type ℓ} (f : Job → B) (l : List Job) → length (map f l) ≡ length l
length-map f [] = refl
length-map f (x ∷ l) = omega (arith, length-map f l)

first_of_key-le :
    (seen : List (Option String)) (l : List Job) → length (first_of_key seen l) ≤ length l
unfolding first_of_key
first_of_key-le seen [] = omega arith
first_of_key-le seen (j ∷ l) =
    ground (arith, first_of_key-le seen l, first_of_key-le (j.singleton_key ∷ seen) l)

group_filtered-le :
    (t : Table) (name : String) (g : Option GroupConcurrency) (l : List Job)
    → length (group_filtered t name g l) ≤ length l
group_filtered-le t name none l = omega arith
group_filtered-le t name (some g) l = length-select-le _ l

claimed-le :
    (o : FetchOptions) (locked : Job → Bool) (now : ℕ) (t : Table)
    → length (claimed o locked now t) ≤ o.limit
unfolding claimed next
claimed-le o locked now t =
    let rows = next o locked now t in
    elim (Bool-cases (is_singleton_fetch o)) [
      | inl e ↦ rw e (
          omega (
            arith,
            group_filtered-le t o.name o.group_concurrency (first_of_key [] rows),
            first_of_key-le [] rows,
            length-take-le o.limit _,
          ))
      | inr e ↦ rw e (
          omega
            (arith, group_filtered-le t o.name o.group_concurrency rows, length-take-le o.limit _))
    ]

-- A fetch from a table with unique indexes returns at most `limit` jobs, and leaves the indexes
-- unique, also when the claim meets a constraint error and counts as empty.
pub fetch_bounded :
    (o : FetchOptions) (locked : Job → Bool) (now : ℕ) (t : Table)
    → IsUnique t
    → (length (fetch o locked now t).1 ≤ o.limit) × IsUnique (fetch o locked now t).0
unfolding fetch fetch_next_job
fetch_bounded o locked now t u = by_update (update_rows (is_claimed o rows) (set_active now) t) refl
  where
    rows : List Job
    rows = claimed o locked now t

    count : length (map (set_active now) (select (is_claimed o rows) t)) ≤ o.limit
    count = omega (
      arith,
      length-map (set_active now) (select (is_claimed o rows) t),
      count-targets o.name (map (λ k. k.id) rows) t u,
      length-map (λ k. k.id) rows,
      claimed-le o locked now t,
    )

    by_update :
        (r : Result Table)
        → update_rows (is_claimed o rows) (set_active now) t ≡ r
        → (length (fetch o locked now t).1 ≤ o.limit) × IsUnique (fetch o locked now t).0
    by_update (ok v) e = rw (e, fetch_next_job, fetch) (count, (update_rows-IsUnique _ _ t e).0)
    by_update unique_violation e = rw (e, fetch_next_job, fetch) (omega arith, u)
