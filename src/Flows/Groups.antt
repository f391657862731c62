-- ===== src/Flows/Groups.antt =====
-- The groups of the parents by queue hold each of them once.
use bun_boss.Base.{
  ℕ, ◌+◌, ◌≡◌, refl, ap, sym, ◌∙◌, inl, inr, String, Bool, true, false, ◌&&◌, ◌||◌, if◌then◌else◌,
  List, [], ◌∷◌, ◌++◌, arith, All, Bool-cases, length, select, ◌==◌, str_eq, any,
}
use bun_boss.Job.{Job}
use bun_boss.Store.{Table}
use bun_boss.Store.Keys.{has_key}
use bun_boss.Store.Unique.{IsUnique}
use bun_boss.Commands.{has_id}
use bun_boss.Fail.Inserts.{All-map, All-zip}
use bun_boss.Flows.{
  Dependency, edges, decremented, is_child, is_parent, is_cleared, blocking_parents, decrements,
  add_id, ids_by_name,
}
use bun_boss.Flows.Keys.{keyed_self, OneKey, keyed, IsUnique-OneKey, one_if}
use bun_boss.Flows.Sums.{total}
use bun_boss.Flows.Pending.{batch-Divides}
use text.Mathlib.TextEquality.{eq_iff}

-- The statements for the groups of parents, row by row.
abbrev pub in_group : String × List ℕ → Job → Bool
in_group g j = str_eq j.name g.0 && has_id g.1 j.id

abbrev pub held : List (String × List ℕ) → Job → Bool
held groups j = any (λ g. in_group g j) groups

unfoldable pub sum : List Dependency → List (String × List ℕ) → Job → ℕ
unfolding decrements
sum deps [] j = 0
sum deps (g ∷ groups) j = decrements deps g.0 g.1 j + sum deps groups j

has_id-append : (ids : List ℕ) (i k : ℕ) → has_id (ids ++ (i ∷ [])) k ≡ (has_id ids k || i == k)
has_id-append [] i k = ground arith
has_id-append (a ∷ ids) i k = rw (has_id-append ids i k) (assoc (a == k) (has_id ids k) (i == k))
  where
    assoc : (x y z : Bool) → (x || (y || z)) ≡ ((x || y) || z)
    assoc true y z = refl
    assoc false y z = refl

-- The groups of a batch of parents have its keys, each once.
held-add_id :
    (p : Job) (groups : List (String × List ℕ)) (j : Job)
    → held (add_id p groups) j ≡ (held groups j || has_key p.name p.id j)
held-add_id p [] j = first (str_eq j.name p.name) (p.id == j.id)
  where
    first : (a b : Bool) → ((a && (b || false)) || false) ≡ (a && b)
    first a b = ground arith
held-add_id p ((name, ids) ∷ groups) j = elim (Bool-cases (str_eq name p.name)) [
  | inl e ↦
      rw (e, has_id-append ids p.id j.id, ap (λ x. str_eq j.name x) ((eq_iff name p.name).0 e))
        (same (str_eq j.name p.name) (has_id ids j.id) (p.id == j.id) (held groups j))
  | inr e ↦
      rw (e, held-add_id p groups j)
        (assoc (in_group (name, ids) j) (held groups j) (has_key p.name p.id j))
]
  where
    same : (a b c h : Bool) → ((a && (b || c)) || h) ≡ (((a && b) || h) || (a && c))
    same a b c h = ground arith

    assoc : (x y z : Bool) → (x || (y || z)) ≡ ((x || y) || z)
    assoc x y z = ground arith

count_both :
    (a b c : Dependency → Bool) (deps : List Dependency)
    → ((d : Dependency) → one_if (a d) ≡ one_if (b d) + one_if (c d))
    → length (select a deps) ≡ length (select b deps) + length (select c deps)
count_both a b c [] h = omega arith
count_both a b c (d ∷ deps) h = one (a d) (b d) (c d) (h d) (count_both a b c deps h)
  where
    one :
        (x y z : Bool)
        → one_if x ≡ one_if y + one_if z
        → length (select a deps) ≡ length (select b deps) + length (select c deps)
        → length (if x then d ∷ select a deps else select a deps)
          ≡ length (if y then d ∷ select b deps else select b deps)
            + length (if z then d ∷ select c deps else select c deps)
    one x y z h e = ground arith

-- The dependencies on one more parent of a group.
decrements-append :
    (deps : List Dependency) (p : Job) (ids : List ℕ) (j : Job)
    → has_id ids p.id ≡ false
    → decrements deps p.name (ids ++ (p.id ∷ [])) j ≡ decrements deps p.name ids j + edges deps j p
unfolding decrements edges
decrements-append deps p ids j h = count_both _ _ _ deps each
  where
    cases :
        (x y q : Bool) {r s : Bool}
        → r ≡ s
        → (s ≡ true → q ≡ false)
        → one_if (x && (y && (q || r))) ≡ one_if (x && (y && q)) + one_if (x && (y && s))
    cases x y q e f = ground arith

    flip : (a b : ℕ) → (a == b) ≡ (b == a)
    flip a b = ground arith

    absent : (d : Dependency) → (d.parent_id == p.id) ≡ true → has_id ids d.parent_id ≡ false
    absent d e = rw (same d.parent_id p.id e) h
      where
        same : (a b : ℕ) → (a == b) ≡ true → a ≡ b
        same a b e = ground arith

    each :
        (d : Dependency)
        → one_if (
            is_child j d
            && (str_eq d.parent_name p.name && has_id (ids ++ (p.id ∷ [])) d.parent_id))
          ≡ one_if (is_child j d && (str_eq d.parent_name p.name && has_id ids d.parent_id))
            + one_if (is_child j d && is_parent p d)
    each d = rw (has_id-append ids p.id d.parent_id) (
        cases (is_child j d) (str_eq d.parent_name p.name) (has_id ids d.parent_id)
          (flip p.id d.parent_id) (absent d))

decrements-none : (deps : List Dependency) (name : String) (j : Job) → decrements deps name [] j ≡ 0
unfolding decrements
decrements-none [] name j = refl
decrements-none (d ∷ deps) name j =
    rw (none (is_child j d) (str_eq d.parent_name name)) (decrements-none deps name j)
  where
    none : (x y : Bool) → (x && (y && false)) ≡ false
    none x y = ground arith

decrements-single :
    (deps : List Dependency) (p : Job) (j : Job)
    → decrements deps p.name (p.id ∷ []) j ≡ edges deps j p
decrements-single deps p j =
    omega (arith, decrements-append deps p [] j refl, decrements-none deps p.name j)

sum-add_id :
    (deps : List Dependency) (p : Job) (groups : List (String × List ℕ)) (j : Job)
    → held groups p ≡ false
    → sum deps (add_id p groups) j ≡ sum deps groups j + edges deps j p
unfolding sum
sum-add_id deps p [] j h = rw (decrements-single deps p j) (omega arith)
sum-add_id deps p ((name, ids) ∷ groups) j h = elim (Bool-cases (str_eq name p.name)) [
  | inl e ↦ rw e (extend ((eq_iff name p.name).0 e))
  | inr e ↦ rw (e, sum-add_id deps p groups j (rest (in_group (name, ids) p) h)) (omega arith)
]
  where
    rest : (a : Bool) {b : Bool} → (a || b) ≡ false → b ≡ false
    rest true h = ground arith
    rest false h = h

    absent : (a c : Bool) {b : Bool} → a ≡ true → ((a && b) || c) ≡ false → b ≡ false
    absent a c e h = ground arith

    extend :
        name ≡ p.name
        → decrements deps name (ids ++ (p.id ∷ [])) j + sum deps groups j
          ≡ decrements deps name ids j + sum deps groups j + edges deps j p
    extend e =
        rw
          (
            e,
            decrements-append deps p ids j
                (absent (str_eq p.name name) (held groups p) ((eq_iff p.name name).1 (sym e)) h),
          )
          (omega arith)

-- No row has the key of an earlier one.
abbrev pub Distinct : List Job → Type 0
Distinct [] = Unit
Distinct (p ∷ ps) = All (λ k. has_key p.name p.id k ≡ false) ps × Distinct ps

OneKey-Distinct : (ps : List Job) → OneKey ps → Distinct ps
OneKey-Distinct [] o = tt
OneKey-Distinct (p ∷ ps) o =
    (none ps (omega (arith, o p, keyed_self p)), OneKey-Distinct ps (λ k. omega (arith, o k)))
  where
    none : (l : List Job) → total (keyed p) l ≡ 0 → All (λ k. has_key p.name p.id k ≡ false) l
    none [] h = tt
    none (k ∷ l) h = (zero_of _ _ h, none l (omega (arith, h)))
      where
        zero_of : (b : Bool) (n : ℕ) → one_if b + n ≡ 0 → b ≡ false
        zero_of true n h = ground arith
        zero_of false n h = refl

pub ids_by_name-sum :
    (deps : List Dependency) (ps : List Job) (groups : List (String × List ℕ)) (j : Job)
    → Distinct ps
    → All (λ p. held groups p ≡ false) ps
    → (sum deps (ids_by_name ps groups) j ≡ sum deps groups j + decremented deps ps j)
      × (held (ids_by_name ps groups) j ≡ (held groups j || is_cleared ps j))
unfolding ids_by_name decremented
ids_by_name-sum deps [] groups j d h = (omega arith, ground arith)
ids_by_name-sum deps (p ∷ ps) groups j d h =
    let rest = ids_by_name-sum deps ps (add_id p groups) j d.1 later in
    (
      omega (arith, rest.0, sum-add_id deps p groups j h.0),
      rest.1
          ∙ ap (λ x. x || is_cleared ps j) (held-add_id p groups j)
          ∙ assoc (held groups j) (has_key p.name p.id j) (is_cleared ps j),
    )
  where
    neither : (a b : Bool) → a ≡ false → b ≡ false → (a || b) ≡ false
    neither a b e f = ground arith

    later : All (λ k. held (add_id p groups) k ≡ false) ps
    later =
        All-map _ _ ps (λ k e. held-add_id p groups k ∙ neither _ _ e.0 e.1)
          (All-zip _ _ ps h.1 d.0)

    assoc : (x y z : Bool) → ((x || y) || z) ≡ (x || (y || z))
    assoc x y z = ground arith

pub batch-Distinct :
    (name_lt : String → String → Bool) (locked : Job → Bool) (names : List String) (t : Table)
    → IsUnique t
    → Distinct (blocking_parents name_lt locked names t)
batch-Distinct name_lt locked names t u =
    OneKey-Distinct _
      (λ k. omega (arith, batch-Divides name_lt locked names t (keyed k), IsUnique-OneKey t u k))
