-- ===== src/Store/Keys.antt =====
-- The primary key (name, id): a queue and an id name at most one row.
use bun_boss.Base.{
  ℕ, ◌+◌, ◌≤◌, ◌≡◌, refl, inl, inr, String, Bool, true, ◌&&◌, ◌||◌, List, [], ◌∷◌, Bool-cases,
  arith, str_eq, ◌==◌, length, select,
}
use bun_boss.Job.{Job}
use bun_boss.Store.{pkey, slots, Table, occupied}
use bun_boss.Store.Unique.{IsUnique}
use bun_boss.Commands.{is_target}
use text.Mathlib.TextEquality.{eq_iff}
use mathlib.Core.List.{Mem, Nodup-append, mem-cons_self, mem-append_right}

abbrev pub has_key : String → ℕ → Job → Bool
has_key name i j = str_eq j.name name && (i == j.id)

pub IsUnique-tail : (j : Job) (t : Table) → IsUnique (j ∷ t) → IsUnique t
unfolding occupied
IsUnique-tail j t u = (Nodup-append.0 u).1

pub IsUnique-head : (j : Job) (t : Table) → IsUnique (j ∷ t) → ¬ Mem (pkey j.name j.id) (occupied t)
unfolding occupied slots
IsUnique-head j t u = (Nodup-append.0 u).2 (pkey j.name j.id) mem-cons_self

key_of :
    (name : String) (i : ℕ) (j : Job) → has_key name i j ≡ true → pkey name i ≡ pkey j.name j.id
key_of name i j h = ground (arith, eq_iff j.name name)

pub no_key :
    (name : String) (i : ℕ) (t : Table)
    → ¬ Mem (pkey name i) (occupied t)
    → length (select (has_key name i) t) ≡ 0
unfolding occupied slots
no_key name i [] n = refl
no_key name i (j ∷ t) n = elim (Bool-cases (has_key name i j)) [
  | inl e ↦ absurd (n (rw (key_of name i j e) mem-cons_self))
  | inr e ↦ rw e (no_key name i t (λ m. n (mem-append_right (slots j) m)))
]

pub one_key :
    (name : String) (i : ℕ) (t : Table) → IsUnique t → length (select (has_key name i) t) ≤ 1
one_key name i [] u = omega arith
one_key name i (j ∷ t) u = elim (Bool-cases (has_key name i j)) [
  | inl e ↦ rw e (omega (arith, no_key name i t (rw (key_of name i j e) (IsUnique-head j t u))))
  | inr e ↦ rw e (one_key name i t (IsUnique-tail j t u))
]

count_or :
    (p q r : Job → Bool)
    → ((j : Job) → p j ≡ true → (q j || r j) ≡ true)
    → (t : Table) → length (select p t) ≤ length (select q t) + length (select r t)
count_or p q r h [] = omega arith
count_or p q r h (j ∷ t) = ground (arith, h j, count_or p q r h t)

-- At most one row of a queue for each id that is named.
pub count-targets :
    (name : String) (ids : List ℕ) (t : Table)
    → IsUnique t
    → length (select (is_target name ids) t) ≤ length ids
count-targets name [] t u = omega (arith, nothing t)
  where
    nothing : (t : Table) → length (select (is_target name []) t) ≡ 0
    nothing [] = refl
    nothing (j ∷ t) = ground (arith, nothing t)
count-targets name (i ∷ ids) t u = omega (
  arith,
  count_or (is_target name (i ∷ ids)) (has_key name i) (is_target name ids) (λ j h. ground arith) t,
  one_key name i t u,
  count-targets name ids t u,
)

pub count-le :
    (p q : Job → Bool)
    → ((j : Job) → p j ≡ true → q j ≡ true)
    → (t : Table) → length (select p t) ≤ length (select q t)
count-le p q h [] = omega arith
count-le p q h (j ∷ t) = ground (arith, h j, count-le p q h t)
