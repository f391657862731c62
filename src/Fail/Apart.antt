-- ===== src/Fail/Apart.antt =====
-- A table with unique indexes: its rows share no slot with one another.
use bun_boss.Base.{
  ◌≡◌, Bool, false, [], ◌∷◌, arith, inl, inr, Bool-cases, All, select, reject, ◌==◌,
}
use bun_boss.Job.{Job}
use bun_boss.Store.{Table, slots, occupied}
use bun_boss.Store.Unique.{IsUnique}
use bun_boss.Store.Keys.{IsUnique-tail}
use bun_boss.Fail.Inserts.{
  Disjoint_of_All, All-of_Disjoint, Both, All-map, All-zip, All-select, All-reject,
}
use mathlib.Core.List.{Nodup-append}

pub head-All : (j : Job) (t : Table) → IsUnique (j ∷ t) → All (Both j) t
unfolding occupied
head-All j t u = All-of_Disjoint (slots j) t (Nodup-append.0 u).2

Both-sym : (j k : Job) → Both j k → Both k j
Both-sym j k d = λ x m n. d x n m

pub reject-IsUnique : (p : Job → Bool) (t : Table) → IsUnique t → IsUnique (reject p t)
unfolding occupied
reject-IsUnique p [] u = u
reject-IsUnique p (j ∷ t) u = elim (Bool-cases (p j)) [
  | inl e ↦ rw e (reject-IsUnique p t (IsUnique-tail j t u))
  | inr e ↦
      let kept = All-map _ _ (reject p t) (λ k d. d.0) (All-reject (Both j) p t (head-All j t u)) in
      rw e (
        Nodup-append.1 (
          (Nodup-append.0 u).0,
          reject-IsUnique p t (IsUnique-tail j t u),
          Disjoint_of_All (slots j) (reject p t) kept,
        ))
]

pub select-IsUnique : (p : Job → Bool) (t : Table) → IsUnique t → IsUnique (select p t)
unfolding occupied
select-IsUnique p [] u = u
select-IsUnique p (j ∷ t) u = elim (Bool-cases (p j)) [
  | inl e ↦
      let kept = All-map _ _ (select p t) (λ k d. d.0) (All-select (Both j) p t (head-All j t u)) in
      rw e (
        Nodup-append.1 (
          (Nodup-append.0 u).0,
          select-IsUnique p t (IsUnique-tail j t u),
          Disjoint_of_All (slots j) (select p t) kept,
        ))
  | inr e ↦ rw e (select-IsUnique p t (IsUnique-tail j t u))
]

-- Each row that passes a test shares no slot with those that fail it.
pub select-reject-Both :
    (p : Job → Bool) (t : Table) → IsUnique t → All (λ j. All (Both j) (reject p t)) (select p t)
select-reject-Both p [] u = tt
select-reject-Both p (j ∷ t) u =
    let rest = select-reject-Both p t (IsUnique-tail j t u) in
    elim (Bool-cases (p j)) [
      | inl e ↦
          rw e
            (All-map _ _ (reject p t) (λ k d. d.0) (All-reject (Both j) p t (head-All j t u)), rest)
      | inr e ↦ rw e (
          All-map _ _ (select p t) (λ k d. (d.0, d.1))
            (All-zip _ _ (select p t)
              (All-map _ _ (select p t) (λ k d. Both-sym j k d.0)
                (All-select (Both j) p t (head-All j t u)))
              rest))
    ]

-- Rows with different ids share no slot.
pub others-Both :
    (t : Table) → IsUnique t → All (λ j. All (λ k. (k.id == j.id) ≡ false → Both j k) t) t
others-Both [] u = tt
others-Both (j ∷ t) u = (
  (λ h. absurd (same j h), All-map _ _ t (λ k d h. d) (head-All j t u)),
  All-map _ _ t (λ k d. (λ h. d.0, d.1))
      (All-zip _ _ t (All-map _ _ t (λ k d. Both-sym j k d) (head-All j t u))
        (others-Both t (IsUnique-tail j t u))),
)
  where
    same : (j : Job) → ¬ ((j.id == j.id) ≡ false)
    same j h = ground arith

-- Each row shares no slot with those before it.
abbrev pub Ordered : Table → Type 0
Ordered [] = Unit
Ordered (j ∷ t) = All (λ k. Both k j) t × Ordered t

pub IsUnique-Ordered : (t : Table) → IsUnique t → Ordered t
IsUnique-Ordered [] u = tt
IsUnique-Ordered (j ∷ t) u = (
  All-map _ _ t (λ k d. Both-sym j k d) (head-All j t u),
  IsUnique-Ordered t (IsUnique-tail j t u),
)

pub select-Ordered : (p : Job → Bool) (t : Table) → Ordered t → Ordered (select p t)
select-Ordered p [] a = tt
select-Ordered p (j ∷ t) a = elim (Bool-cases (p j)) [
  | inl e ↦ rw e (
    All-map _ _ (select p t) (λ k d. d.0) (All-select (λ k. Both k j) p t a.0),
    select-Ordered p t a.1,
  )
  | inr e ↦ rw e (select-Ordered p t a.1)
]

pub reject-Ordered : (p : Job → Bool) (t : Table) → Ordered t → Ordered (reject p t)
reject-Ordered p [] a = tt
reject-Ordered p (j ∷ t) a = elim (Bool-cases (p j)) [
  | inl e ↦ rw e (reject-Ordered p t a.1)
  | inr e ↦ rw e (
    All-map _ _ (reject p t) (λ k d. d.0) (All-reject (λ k. Both k j) p t a.0),
    reject-Ordered p t a.1,
  )
]
