-- ===== src/Redrive/Moves.antt =====
-- What redriving moves, and what it leaves in place.
use bun_boss.Base.{
  ℕ, ◌≡◌, refl, sym, ◌∙◌, inl, inr, Bool, true, false, not, ◌&&◌, ◌||◌, List, [], ◌∷◌, ◌++◌, Option,
  none, some, arith, All, Bool-cases, length, select, reject, drop, str_eq, ◌==◌, &&-elim,
}
use bun_boss.Job.{Job}
use bun_boss.Store.{Table, slots}
use bun_boss.Store.Unique.{IsUnique}
use bun_boss.Store.Keys.{has_key}
use bun_boss.Fail.{insert_skipping}
use bun_boss.Fail.Inserts.{insert_skipping-IsUnique, insert_skipping-perm, All-map}
use bun_boss.Fail.Apart.{reject-IsUnique}
use bun_boss.Fetch.{sort_by}
use bun_boss.Flows.{is_cleared}
use bun_boss.Flows.Keys.{IsUnique-OneKey, All-cleared}
use bun_boss.Flows.Sums.{Divides, Divides-batch, All-batch}
use bun_boss.Insert.{QueueDefaults, or_null}
use bun_boss.Insert.Throttle.{slots-Nodup}
use bun_boss.Redrive.{
  RedriveOptions, destination_of, is_redrivable, earlier, candidates, redriven_row, row_for,
  redriven, is_moved, redrive_jobs,
}
use mathlib.Core.List.{Nodup, Perm}
use text.Mathlib.TextEquality.{eq_iff}

All-append : (P : Job → Type 0) (xs ys : List Job) → All P xs → All P ys → All P (xs ++ ys)
All-append P [] ys a b = b
All-append P (x ∷ xs) ys a b = (a.0, All-append P xs ys a.1 b)

module _ (now : ℕ) (uuid : Job → ℕ) (o : RedriveOptions) (qs : List QueueDefaults) where
  redriven-Nodup : (ms : List Job) → All (λ r. Nodup (slots r)) (redriven now uuid o qs ms)
  unfolding redriven
  redriven-Nodup [] = tt
  redriven-Nodup (m ∷ ms) =
      All-append _ _ _ (one (destination_of qs (or_null o.destination m.source_name)))
        (redriven-Nodup ms)
    where
      one : (q : Option QueueDefaults) → All (λ r. Nodup (slots r)) (row_for now uuid q m)
      one none = tt
      one (some q) = (slots-Nodup (redriven_row now uuid q m) refl, tt)

module _ (o : RedriveOptions) (qs : List QueueDefaults) (locked : Job → Bool) (t : Table) where
  abbrev cs : List Job
  cs = candidates o qs locked t

  candidates-redrivable : All (λ c. is_redrivable o qs c ≡ true) cs
  unfolding candidates
  candidates-redrivable =
      All-batch (λ c. is_redrivable o qs c ≡ true) earlier o.limit _ t
        (λ j h. (&&-elim {a = is_redrivable o qs j} h).0)

  rest : List Job
  rest =
      drop o.limit (sort_by earlier (select (λ j. is_redrivable o qs j && not (locked j)) t))
      ++ reject (λ j. is_redrivable o qs j && not (locked j)) t

  candidates-Divides : Divides t cs rest
  unfolding candidates rest
  candidates-Divides = Divides-batch earlier o.limit _ t

  -- A row of the queue with the id of a candidate has its key.
  moved-cleared :
      (ds : List Job) (j : Job)
      → All (λ c. is_redrivable o qs c ≡ true) ds
      → j.name ≡ o.name
      → is_moved ds j ≡ true
      → is_cleared ds j ≡ true
  moved-cleared [] j a n h = h
  moved-cleared (d ∷ ds) j a n h = elim (Bool-cases (d.id == j.id)) [
    | inl e ↦
        rw
          (
            (eq_iff j.name d.name).1
                (n ∙ sym ((eq_iff d.name o.name).0 (&&-elim {a = str_eq d.name o.name} a.0).0)),
            e,
          )
          refl
    | inr e ↦ either (has_key d.name d.id j) (moved-cleared ds j a.1 n (later e h))
  ]
    where
      later : {x y : Bool} → x ≡ false → (x || y) ≡ true → y ≡ true
      later e h = ground arith

      either : (x : Bool) {y : Bool} → y ≡ true → (x || y) ≡ true
      either true h = refl
      either false h = h

  moved-redrivable :
      IsUnique t → All (λ j. j.name ≡ o.name → is_moved cs j ≡ true → is_redrivable o qs j ≡ true) t
  moved-redrivable u =
      All-map _ _ t (λ j f n h. f (moved-cleared cs j candidates-redrivable n h))
        (All-cleared (is_redrivable o qs) t cs rest candidates-Divides (IsUnique-OneKey t u)
          candidates-redrivable)

-- In a table with unique indexes, redriving keeps the indexes unique, the rows left are the new
-- ones, as many as it reports, and those whose id no candidate has; and a row of the dead letter
-- queue is taken out only if it has not started, comes from the source asked for and has a queue to go
-- to, so jobs without one stay.
pub redrive_jobs-moves :
    (now : ℕ) (uuid : Job → ℕ) (o : RedriveOptions) (qs : List QueueDefaults) (locked : Job → Bool)
    (t : Table)
    → IsUnique t
    → let r = redrive_jobs now uuid o qs locked t in
      let moved = is_moved (candidates o qs locked t) in
      let rows = (insert_skipping (redriven now uuid o qs (select moved t)) (reject moved t)).1 in
      IsUnique r.0
      × ((Perm r.0 (rows ++ reject moved t) × (r.1 ≡ length rows))
          × All (λ j. j.name ≡ o.name → moved j ≡ true → is_redrivable o qs j ≡ true) t)
unfolding redrive_jobs
redrive_jobs-moves now uuid o qs locked t u = (
  insert_skipping-IsUnique rows left (redriven-Nodup now uuid o qs _) (reject-IsUnique _ t u),
  ((insert_skipping-perm rows left, refl), moved-redrivable o qs locked t u),
)
  where
    moved : Job → Bool
    moved = is_moved (candidates o qs locked t)

    rows : List Job
    rows = redriven now uuid o qs (select moved t)

    left : Table
    left = reject moved t
