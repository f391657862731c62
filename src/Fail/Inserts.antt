-- ===== src/Fail/Inserts.antt =====
-- What the inserts of several rows leave of the table, with and without ON CONFLICT DO NOTHING.
use bun_boss.Base.{
  ◌≡◌, Bool, true, false, List, [], ◌∷◌, ◌++◌, inl, inr, Bool-cases, All, select, reject,
}
use bun_boss.Job.{Job}
use bun_boss.Store.{Slot, Table, slots, occupied, collides}
use bun_boss.Store.Unique.{IsUnique, Disjoint_of_overlaps, overlaps_of_Disjoint}
use bun_boss.Fail.{insert_skipping}
use mathlib.Core.HLevel.{⊥_prop}
use mathlib.Core.Logic.Or
use mathlib.Core.List.{
  Nodup, Disjoint, Nodup-append, mem-append, mem-append_left, mem-append_right, Perm, perm_middle,
  not-mem-nil,
}
use mathlib.Core.List.Perm

pub Disjoint_append :
    (xs ys zs : List Slot) → Disjoint xs ys → Disjoint xs zs → Disjoint xs (ys ++ zs)
Disjoint_append xs ys zs d e =
    λ x m k. Or.elim ⊥_prop (mem-append.0 k) (λ l. d x m l) (λ l. e x m l)

pub Disjoint_of_All :
    (l : List Slot) (t : Table) → All (λ s. Disjoint l (slots s)) t → Disjoint l (occupied t)
unfolding occupied
Disjoint_of_All l [] a = λ x m k. not-mem-nil k
Disjoint_of_All l (s ∷ t) a = Disjoint_append l (slots s) (occupied t) a.0 (Disjoint_of_All l t a.1)

pub All-of_Disjoint :
    (l : List Slot) (t : Table) → Disjoint l (occupied t) → All (λ s. Disjoint l (slots s)) t
unfolding occupied
All-of_Disjoint l [] d = tt
All-of_Disjoint l (s ∷ t) d = (
  λ x m k. d x m (mem-append_left (occupied t) k),
  All-of_Disjoint l t (λ x m k. d x m (mem-append_right (slots s) k)),
)

pub cons-IsUnique :
    (r : Job) (t : Table) → Nodup (slots r) → collides r t ≡ false → IsUnique t → IsUnique (r ∷ t)
unfolding collides occupied
cons-IsUnique r t n e u = Nodup-append.1 (n, u, Disjoint_of_overlaps (slots r) (occupied t) e)

pub insert_skipping-IsUnique :
    (rows : List Job) (t : Table)
    → All (λ r. Nodup (slots r)) rows
    → IsUnique t
    → IsUnique (insert_skipping rows t).0
unfolding insert_skipping
insert_skipping-IsUnique [] t a u = u
insert_skipping-IsUnique (r ∷ rows) t a u = elim (Bool-cases (collides r t)) [
  | inl e ↦ rw e (insert_skipping-IsUnique rows t a.1 u)
  | inr e ↦ rw e (insert_skipping-IsUnique rows (r ∷ t) a.1 (cons-IsUnique r t a.0 e u))
]

pub insert_skipping-perm :
    (rows : List Job) (t : Table)
    → Perm (insert_skipping rows t).0 ((insert_skipping rows t).1 ++ t)
unfolding insert_skipping
insert_skipping-perm [] t = Perm.refl t
insert_skipping-perm (r ∷ rows) t = elim (Bool-cases (collides r t)) [
  | inl e ↦ rw e (insert_skipping-perm rows t)
  | inr e ↦ rw e (
      Perm.trans (insert_skipping-perm rows (r ∷ t))
        (perm_middle (insert_skipping rows (r ∷ t)).1 t))
]

-- A row that is disjoint from every row of the table is inserted.
pub insert_first :
    (r : Job) (t : Table) → All (λ s. Disjoint (slots r) (slots s)) t → collides r t ≡ false
unfolding collides
insert_first r t a = overlaps_of_Disjoint (slots r) (occupied t) (Disjoint_of_All (slots r) t a)

-- Two rows that share no slot.
abbrev pub Both : Job → Job → Type 0
Both j k = Disjoint (slots j) (slots k)

pub All-map : (P Q : Job → Type 0) (t : Table) → ((j : Job) → P j → Q j) → All P t → All Q t
All-map P Q [] f a = tt
All-map P Q (j ∷ t) f a = (f j a.0, All-map P Q t f a.1)

pub All-zip : (P Q : Job → Type 0) (t : Table) → All P t → All Q t → All (λ j. P j × Q j) t
All-zip P Q [] a b = tt
All-zip P Q (j ∷ t) a b = ((a.0, b.0), All-zip P Q t a.1 b.1)

pub All-select :
    (P : Job → Type 0) (p : Job → Bool) (t : Table)
    → All P t
    → All (λ j. P j × (p j ≡ true)) (select p t)
All-select P p [] a = tt
All-select P p (j ∷ t) a = elim (Bool-cases (p j)) [
  | inl e ↦ rw e ((a.0, e), All-select P p t a.1)
  | inr e ↦ rw e (All-select P p t a.1)
]

pub All-reject :
    (P : Job → Type 0) (p : Job → Bool) (t : Table)
    → All P t
    → All (λ j. P j × (p j ≡ false)) (reject p t)
All-reject P p [] a = tt
All-reject P p (j ∷ t) a = elim (Bool-cases (p j)) [
  | inl e ↦ rw e (All-reject P p t a.1)
  | inr e ↦ rw e ((a.0, e), All-reject P p t a.1)
]
