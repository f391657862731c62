-- ===== src/Update/Edits.antt =====
-- What update and upsert keep of the table.
use bun_boss.Base.{
  ℕ, ◌≡◌, refl, ap, ◌∙◌, String, true, List, [], ◌∷◌, inl, inr, Bool, false, Option, none, some,
  map, All, ◌⊎◌, if◌then◌else◌, Bool-cases, &&-elim, select, reject,
}
use bun_boss.Job.{Job, coalesce}
use bun_boss.Store.{Table, slots, rows_after, collides}
use bun_boss.Store.Unique.{IsUnique, update_rows_shrinking}
use bun_boss.Commands.{has_id, has_name}
use bun_boss.Insert.{JobInput, QueueDefaults, insert_jobs, new_row, or_null}
use bun_boss.Fail.{insert_skipping}
use bun_boss.Fail.Inserts.{cons-IsUnique}
use bun_boss.Insert.Throttle.{slots-Nodup}
use bun_boss.Update.{
  Outcome, done, violates_unique, violates_foreign_key, and_then, names_queue, all_refer, referring,
  Target, JobEdit, targets, edited, is_edited, is_waiting, ids_of, update_job, upsert, after_update,
  insert_or_update, updated_response,
}
use mathlib.Core.List.Sublist

slots-edited : (now : ℕ) (e : JobEdit) (j : Job) → slots (edited now e j) ≡ slots j
unfolding slots edited
slots-edited now e j = refl

waiting : (ids : List ℕ) (j : Job) → is_edited ids j ≡ true → is_waiting j ≡ true
waiting ids j h = (&&-elim {a = has_id ids j.id} h).1

kept_rows :
    (now : ℕ) (e : JobEdit) (ids : List ℕ) (t : Table)
    → reject is_waiting (rows_after (is_edited ids) (edited now e) t) ≡ reject is_waiting t
unfolding rows_after edited
kept_rows now e ids [] = refl
kept_rows now e ids (j ∷ t) = elim (Bool-cases (is_edited ids j)) [
  | inl h ↦ rw (h, waiting ids j h) (kept_rows now e ids t)
  | inr h ↦ rw (h, kept_rows now e ids t) refl
]

-- The dead letter queue of the job, if it has one, exists.
abbrev pub Refers : List String → Job → Type 0
Refers queues j = names_queue queues j.dead_letter ≡ true

all_refer-map :
    (queues : List String) (f : Job → Job) (rows : List Job)
    → ((j : Job) → Refers queues j → Refers queues (f j))
    → All (Refers queues) rows
    → all_refer queues (map f rows) ≡ true
all_refer-map queues f [] g a = refl
all_refer-map queues f (j ∷ rows) g a = rw (g j a.0) (all_refer-map queues f rows g a.1)

-- An edit breaks the foreign key only where it names a dead letter queue that does not exist.
abbrev pub Lacks : List String → Option (Option String) → Type 0
Lacks queues x = (d : String) × (x ≡ some (some d)) × (has_name queues d ≡ false)

lacking :
    (queues : List String) (x : Option (Option String)) (f : Job → Job) (rows : List Job)
    → ((j : Job) → (f j).dead_letter ≡ coalesce x j.dead_letter)
    → All (Refers queues) rows
    → all_refer queues (map f rows) ≡ false
    → Lacks queues x
lacking queues none f rows g a h =
    let e = all_refer-map queues f rows (λ j r. ap (names_queue queues) (g j) ∙ r) a in cc
lacking queues (some none) f rows g a h =
    let e = all_refer-map queues f rows (λ j r. ap (names_queue queues) (g j)) a in cc
lacking queues (some (some d)) f rows g a h = elim (Bool-cases (has_name queues d)) [
  | inl k ↦ let e = all_refer-map queues f rows (λ j r. ap (names_queue queues) (g j) ∙ k) a in cc
  | inr k ↦ (d, refl, k)
]

selected-Refers :
    (queues : List String) (p : Job → Bool) (t : Table)
    → All (Refers queues) t
    → All (Refers queues) (select p t)
selected-Refers queues p [] a = tt
selected-Refers queues p (j ∷ t) a = elim (Bool-cases (p j)) [
  | inl e ↦ rw e (a.0, selected-Refers queues p t a.1)
  | inr e ↦ rw e (selected-Refers queues p t a.1)
]

after-Refers :
    (queues : List String) (p : Job → Bool) (f : Job → Job) (t : Table)
    → All (Refers queues) t
    → all_refer queues (map f (select p t)) ≡ true
    → All (Refers queues) (rows_after p f t)
unfolding rows_after
after-Refers queues p f [] a h = tt
after-Refers queues p f (j ∷ t) a h = elim (Bool-cases (p j)) [
  | inl e ↦
      let both =
        &&-elim {a = names_queue queues (f j).dead_letter}
          {b = all_refer queues (map f (select p t))} (rw e at h) in
      rw e (both.0, after-Refers queues p f t a.1 both.1)
  | inr e ↦ rw e (a.0, after-Refers queues p f t a.1 (rw e at h))
]

edited-dead_letter :
    (now : ℕ) (e : JobEdit) (j : Job)
    → (edited now e j).dead_letter ≡ coalesce e.dead_letter j.dead_letter
unfolding edited
edited-dead_letter now e j = refl

-- What a transaction may come to: unique indexes, dead letter queues that exist, and the same active and
-- settled jobs, or the error of a foreign key where `lacks` holds; no other error.
abbrev pub Keeps : {A : Type 0} → List String → Type 0 → Table → Outcome (Table × A) → Type 0
Keeps queues lacks t (done (u, a)) =
    IsUnique u × (All (Refers queues) u × (reject is_waiting u ≡ reject is_waiting t))
Keeps queues lacks t violates_unique = ⊥
Keeps queues lacks t violates_foreign_key = lacks

-- On a table with unique indexes whose dead letter queues exist, an update raises no constraint error but
-- where its payload names a dead letter queue that does not exist. Else it returns the table with the
-- target rows edited, and their ids; the indexes stay unique, the dead letter queues exist, and every
-- job that is active or settled is as it was.
pub update_job_total :
    (queues : List String) (now : ℕ) (name : String) (target : Target) (e : JobEdit) (t : Table)
    → IsUnique t
    → All (Refers queues) t
    → let p = is_edited (targets name target t) in
      let u = rows_after p (edited now e) t in
      Keeps queues (Lacks queues e.dead_letter) t (update_job queues now name target e t)
      × ((update_job queues now name target e t ≡ done (u, ids_of (select p t)))
          ⊎ (update_job queues now name target e t ≡ violates_foreign_key))
unfolding update_job referring
update_job_total queues now name target e t u a =
    let p = is_edited (targets name target t) in
    let f = edited now e in
    let (eq, v) =
      update_rows_shrinking p f t (λ j h. rw (slots-edited now e j) (Sublist.refl (slots j))) u in
    elim (Bool-cases (all_refer queues (map f (select p t)))) [
      | inl k ↦
          rw (eq, k)
            (
              (v, (after-Refers queues p f t a k, kept_rows now e (targets name target t) t)),
              inl refl,
            )
      | inr k ↦
          rw (eq, k)
            (
              lacking queues e.dead_letter f (select p t) (edited-dead_letter now e)
                  (selected-Refers queues p t a) k,
              inr refl,
            )
    ]

-- Where the payload of an upsert, or the insert's reading of it, names a queue that does not exist.
abbrev pub EitherLacks : List String → JobEdit → JobInput → Type 0
EitherLacks queues e j =
    Lacks queues e.dead_letter
    ⊎ ((d : String) × (j.dead_letter ≡ some d) × (has_name queues d ≡ false))

widened :
    {A : Type 0} (queues : List String) (k l : Type 0) (t₀ t : Table) (r : Outcome (Table × A))
    → (k → l)
    → reject is_waiting t ≡ reject is_waiting t₀
    → Keeps queues k t r
    → Keeps queues l t₀ r
widened queues k l t₀ t (done (u, a)) f e h = (h.0, (h.1.0, h.1.1 ∙ e))
widened queues k l t₀ t violates_unique f e h = h
widened queues k l t₀ t violates_foreign_key f e h = f h

updated-Keeps :
    (queues : List String) (k : Type 0) (t : Table) (r : Outcome (Table × List ℕ))
    → Keeps queues k t r
    → Keeps queues k t (and_then r updated_response)
updated-Keeps queues k t (done (u, ids)) h = h
updated-Keeps queues k t violates_unique h = h
updated-Keeps queues k t violates_foreign_key h = h

-- The one new row, where the defaults of the queue name a dead letter queue that exists.
new_row-Refers :
    (queues : List String) (d q : Option String)
    → names_queue queues q ≡ true
    → names_queue queues (or_null d q) ≡ false
    → (x : String) × (d ≡ some x) × (has_name queues x ≡ false)
new_row-Refers queues none q h k = cc
new_row-Refers queues (some d) q h k = (d, refl, k)

module _ (queues : List String) (now : ℕ) (uuid : JobInput → ℕ) (q : QueueDefaults)
    (target : Target) (e : JobEdit) (j : JobInput)
    (refers : names_queue queues q.dead_letter ≡ true) where
  update : Table → Outcome (Table × List ℕ)
  update = update_job queues now q.name target e

  inserted-Keeps :
      (t : Table) (b : Bool)
      → collides (new_row now uuid q j) t ≡ b
      → IsUnique t
      → All (Refers queues) t
      → Keeps queues (EitherLacks queues e j) t (
          insert_or_update queues update
            (if b then (t, []) else (new_row now uuid q j ∷ t, new_row now uuid q j ∷ [])))
  unfolding insert_or_update referring update new_row
  inserted-Keeps t true c u a = updated-Keeps queues (EitherLacks queues e j) t (update t) (
      widened queues (Lacks queues e.dead_letter) (EitherLacks queues e j) t t (update t)
        (λ l. inl l) refl (update_job_total queues now q.name target e t u a).0)
  inserted-Keeps t false c u a =
      elim (Bool-cases (names_queue queues (or_null j.dead_letter q.dead_letter))) [
        | inl k ↦ rw k (
          cons-IsUnique (new_row now uuid q j) t (slots-Nodup (new_row now uuid q j) refl) c u,
          ((k, a), refl),
        )
        | inr k ↦ rw k (inr (new_row-Refers queues j.dead_letter q.dead_letter refers k))
      ]

  after-Keeps :
      (t : Table) (r : Outcome (Table × List ℕ))
      → Keeps queues (Lacks queues e.dead_letter) t r
      → Keeps queues
          (EitherLacks queues e j)
          t
          (and_then r (after_update queues update (insert_jobs now uuid q (j ∷ []))))
  unfolding after_update insert_jobs insert_skipping
  after-Keeps t violates_unique h = h
  after-Keeps t violates_foreign_key h = inl h
  after-Keeps t (done (t', id ∷ ids)) h = h
  after-Keeps t (done (t', [])) h =
      widened queues (EitherLacks queues e j) (EitherLacks queues e j) t t' _ (λ l. l) h.1.1
        (inserted-Keeps t' (collides (new_row now uuid q j) t') refl h.0 h.1.0)

  -- On a table with unique indexes whose dead letter queues exist, and for a queue whose own dead letter
  -- queue exists, upsert raises no constraint error but where its payload names a dead letter queue that
  -- does not exist, whichever of its statements run. Else the indexes stay unique, the dead letter
  -- queues exist, and every job that is active or settled is as it was.
  pub upsert-Keeps :
      (t : Table)
      → IsUnique t
      → All (Refers queues) t
      → Keeps queues (EitherLacks queues e j) t (upsert queues now uuid q target e j t)
  unfolding upsert update
  upsert-Keeps t u a =
      after-Keeps t (update_job queues now q.name target e t)
        (update_job_total queues now q.name target e t u a).0
