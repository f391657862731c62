-- ===== src/Flows/Cleanup.antt =====
-- Deleting the dependencies of rows that are gone changes no count.
use bun_boss.Base.{
  ℕ, ◌≡◌, refl, ap, inl, inr, String, Bool, true, false, not, ◌&&◌, ◌||◌, if◌then◌else◌, List, [],
  ◌∷◌, arith, All, Bool-cases, length,
}
use bun_boss.Job.{Job}
use bun_boss.Store.{Table}
use bun_boss.Store.Keys.{has_key}
use bun_boss.Commands.{has_name}
use bun_boss.Fail.Inserts.{All-map, All-zip}
use bun_boss.Flows.{
  Dependency, edges, is_child, is_parent, exists_row, is_orphan, cleanup_dependencies,
}
use bun_boss.Flows.Keys.{total-same}
use bun_boss.Flows.Pending.{waits, HasCount, IsPending}
use text.Mathlib.TextEquality.{eq_iff}

abbrev InTable : Table → Job → Type 0
InTable t j = (name : String) (id : ℕ) → has_key name id j ≡ true → exists_row name id t ≡ true

either : (a : Bool) {b : Bool} → b ≡ true → (a || b) ≡ true
either true h = refl
either false h = h

first : {a : Bool} (b : Bool) → a ≡ true → (a || b) ≡ true
first b h = ground arith

rows-InTable : (t : Table) → All (InTable t) t
rows-InTable [] = tt
rows-InTable (j ∷ t) = (
  λ name id h. first (exists_row name id t) h,
  All-map (InTable t) (InTable (j ∷ t)) t
      (λ k f name id h. either (has_key name id j) (f name id h)) (rows-InTable t),
)

-- A dependency between two rows of the table is no orphan.
not_orphan :
    (queues : List String) (t : Table) (j p : Job) (d : Dependency)
    → InTable t j
    → InTable t p
    → (is_child j d && is_parent p d) ≡ true
    → is_orphan queues t d ≡ false
not_orphan queues t j p d f g h =
    neither (has_name queues d.child_name) (has_name queues d.parent_name)
      (f d.child_name d.child_id (child (is_parent p d) h))
      (g d.parent_name d.parent_id (parent (is_child j d) h))
  where
    neither : (a b : Bool) {c e : Bool} → c ≡ true → e ≡ true → (a && not c || b && not e) ≡ false
    neither a b h k = ground arith

    child : (x : Bool) → (is_child j d && x) ≡ true → has_key d.child_name d.child_id j ≡ true
    child x h = ground arith

    parent : (x : Bool) → (x && is_parent p d) ≡ true → has_key d.parent_name d.parent_id p ≡ true
    parent x h = ground (arith, eq_iff d.parent_name p.name, eq_iff p.name d.parent_name)

one_more :
    (b : Bool) (d : Dependency) (xs ys : List Dependency)
    → length xs ≡ length ys
    → length (if b then d ∷ xs else xs) ≡ length (if b then d ∷ ys else ys)
one_more true d xs ys e = omega (arith, e)
one_more false d xs ys e = e

clash : {a : Bool} → a ≡ true → a ≡ false → ⊥
clash h k = ground arith

orphan-apart :
    (queues : List String) (t : Table) (j p : Job) (d : Dependency)
    → InTable t j
    → InTable t p
    → is_orphan queues t d ≡ true
    → (is_child j d && is_parent p d) ≡ false
orphan-apart queues t j p d f g e = elim (Bool-cases (is_child j d && is_parent p d)) [
  | inl h ↦ absurd (clash e (not_orphan queues t j p d f g h))
  | inr h ↦ h
]

kept-edges :
    (queues : List String) (t : Table) (deps : List Dependency) (j p : Job)
    → InTable t j
    → InTable t p
    → edges (cleanup_dependencies queues t deps) j p ≡ edges deps j p
unfolding edges cleanup_dependencies
kept-edges queues t [] j p f g = refl
kept-edges queues t (d ∷ deps) j p f g = elim (Bool-cases (is_orphan queues t d)) [
  | inl e ↦ rw (e, orphan-apart queues t j p d f g e) (kept-edges queues t deps j p f g)
  | inr e ↦ rw e (one_more (is_child j d && is_parent p d) d _ _ (kept-edges queues t deps j p f g))
]

kept-waits :
    (queues : List String) (t : Table) (deps : List Dependency) (j : Job)
    → InTable t j
    → waits (cleanup_dependencies queues t deps) t j ≡ waits deps t j
unfolding waits
kept-waits queues t deps j f = total-same _ _ t (
    All-map _ _ t (λ p g. ap (λ n. if p.blocking then n else 0) (kept-edges queues t deps j p f g))
      (rows-InTable t))

-- The cleanup of dependencies keeps the counters right: where every blocked job's counter is the
-- number of its dependencies on jobs that still block, at least one, it is so after the cleanup.
pub cleanup_dependencies-IsPending :
    (queues : List String) (t : Table) (deps : List Dependency)
    → IsPending deps t
    → IsPending (cleanup_dependencies queues t deps) t
cleanup_dependencies-IsPending queues t deps h =
    (All-map _ _ t (λ j k. counted j k.0 k.1) (All-zip _ _ t h.0 (rows-InTable t)), h.1)
  where
    counted :
        (j : Job)
        → HasCount deps t j
        → InTable t j
        → HasCount (cleanup_dependencies queues t deps) t j
    counted j c f b = rw (kept-waits queues t deps j f) (c b)
