-- ===== src/Store/Unique.antt =====
-- The unique indexes as one set of slots without duplicates, and what keeps them so.
use bun_boss.Base.{◌≡◌, refl, inl, inr, Bool, true, false, List, [], ◌∷◌, Bool-cases, arith}
use bun_boss.Job.{Job}
use bun_boss.Store.{
  Slot, Slot-discrete, slots, Table, occupied, has_slot, overlaps, distinct, ok, commit, rows_after,
  update_rows,
}
use mathlib.Core.Bool.{decide}
use mathlib.Core.HLevel.{⊥_prop}
use mathlib.Core.Logic.Or
use mathlib.Core.List.Nodup
use mathlib.Core.List.Sublist
use mathlib.Core.List.{
  Mem, Nodup, Sublist, Disjoint, Nodup-cons, Nodup-nil, not-mem-nil, mem-cons_self, mem-cons_of_mem,
  eq-or-mem_of_mem-cons,
}

has_slot-mem : (s : Slot) (l : List Slot) → has_slot s l ≡ true → Mem s l
unfolding has_slot decide
has_slot-mem s [] h = absurd (ground arith)
has_slot-mem s (x ∷ xs) h = elim (Slot-discrete s x) [
  | yes e ↦ rw e mem-cons_self
  | no n ↦ mem-cons_of_mem x (has_slot-mem s xs (ground arith))
]

mem-has_slot : (s : Slot) (l : List Slot) → has_slot s l ≡ false → ¬ Mem s l
unfolding has_slot decide
mem-has_slot s [] h = not-mem-nil
mem-has_slot s (x ∷ xs) h = λ m.
    Or.elim ⊥_prop (eq-or-mem_of_mem-cons m) (λ e. ground arith) (mem-has_slot s xs (ground arith))

has_slot-false : (s : Slot) (l : List Slot) → ¬ Mem s l → has_slot s l ≡ false
has_slot-false s l n = elim (Bool-cases (has_slot s l)) [
  | inl t ↦ absurd (n (has_slot-mem s l t))
  | inr f ↦ f
]

pub Disjoint_of_overlaps : (xs ys : List Slot) → overlaps xs ys ≡ false → Disjoint xs ys
unfolding overlaps
Disjoint_of_overlaps [] ys h = λ a m. absurd (not-mem-nil m)
Disjoint_of_overlaps (x ∷ xs) ys h = λ a m k.
    Or.elim ⊥_prop (eq-or-mem_of_mem-cons m) (λ e. mem-has_slot x ys (ground arith) (rw (← e) k))
      (λ m'. Disjoint_of_overlaps xs ys (ground arith) a m' k)

pub overlaps_of_Disjoint : (xs ys : List Slot) → Disjoint xs ys → overlaps xs ys ≡ false
unfolding overlaps
overlaps_of_Disjoint [] ys d = refl
overlaps_of_Disjoint (x ∷ xs) ys d = ground (
  arith,
  has_slot-false x ys (d x mem-cons_self),
  overlaps_of_Disjoint xs ys (λ a m. d a (mem-cons_of_mem x m)),
)

pub distinct-Nodup : (l : List Slot) → distinct l ≡ true → Nodup l
unfolding distinct
distinct-Nodup [] h = Nodup-nil
distinct-Nodup (x ∷ xs) h =
    Nodup-cons.1 (mem-has_slot x xs (ground arith), distinct-Nodup xs (ground arith))

pub Nodup-distinct : (l : List Slot) → Nodup l → distinct l ≡ true
unfolding distinct
Nodup-distinct [] d = refl
Nodup-distinct (x ∷ xs) d =
    let (out, rest) = Nodup-cons.0 d in
    ground (arith, has_slot-false x xs out, Nodup-distinct xs rest)

-- No two rows of the table hold one slot of an index.
abbrev pub IsUnique : Table → Type 0
IsUnique t = Nodup (occupied t)

pub commit-eq-ok : (t : Table) → IsUnique t → commit t ≡ ok t
unfolding commit
commit-eq-ok t u = rw (Nodup-distinct (occupied t) u)

pub commit-IsUnique : (t : Table) {u : Table} → commit t ≡ ok u → IsUnique t × (t ≡ u)
unfolding commit
commit-IsUnique t h = elim (Bool-cases (distinct (occupied t))) [
  | inl e ↦ (distinct-Nodup (occupied t) e, ground arith)
  | inr e ↦ absurd (ground arith)
]

-- An update that gives up slots and takes none keeps the indexes unique.
pub rows_after-sublist :
    (p : Job → Bool) (f : Job → Job)
    → ((j : Job) → p j ≡ true → Sublist (slots (f j)) (slots j))
    → (t : Table) → Sublist (occupied (rows_after p f t)) (occupied t)
unfolding rows_after occupied
rows_after-sublist p f s [] = Sublist.refl []
rows_after-sublist p f s (j ∷ t) = elim (Bool-cases (p j)) [
  | inl e ↦ rw e (Sublist.append (s j e) (rows_after-sublist p f s t))
  | inr e ↦ rw e (Sublist.append (Sublist.refl (slots j)) (rows_after-sublist p f s t))
]

pub update_rows_shrinking :
    (p : Job → Bool) (f : Job → Job) (t : Table)
    → ((j : Job) → p j ≡ true → Sublist (slots (f j)) (slots j))
    → IsUnique t
    → (update_rows p f t ≡ ok (rows_after p f t)) × IsUnique (rows_after p f t)
unfolding update_rows
update_rows_shrinking p f t s u =
    let kept = Nodup.sublist (rows_after-sublist p f s t) u in (commit-eq-ok _ kept, kept)

pub update_rows-IsUnique :
    (p : Job → Bool) (f : Job → Job) (t : Table) {u : Table}
    → update_rows p f t ≡ ok u
    → IsUnique u × (rows_after p f t ≡ u)
unfolding update_rows
update_rows-IsUnique p f t h = let (v, e) = commit-IsUnique (rows_after p f t) h in (rw e at v, e)
