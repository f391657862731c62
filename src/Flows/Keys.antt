-- ===== src/Flows/Keys.antt =====
-- Rows by their primary key, and the rows that a list of parents clears.
use bun_boss.Base.{
  ℕ, ◌+◌, ◌≤◌, ◌≡◌, ◌∙◌, refl, inl, inr, Bool, true, false, ◌||◌, if◌then◌else◌, List, [], ◌∷◌, map,
  arith, All, Bool-cases, length, select,
}
use bun_boss.Job.{Job}
use bun_boss.Store.{Table}
use bun_boss.Store.Unique.{IsUnique}
use bun_boss.Store.Keys.{has_key, one_key}
use bun_boss.Fail.Inserts.{All-map}
use bun_boss.Fail.Conserve.{own}
use bun_boss.Flows.{is_cleared}
use text.Mathlib.TextEquality.{eq_iff}
use bun_boss.Flows.Sums.{Divides, total}

abbrev pub one_if : Bool → ℕ
one_if b = if b then 1 else 0

-- The rows with the key of a row.
abbrev pub keyed : Job → Job → ℕ
keyed k j = one_if (has_key k.name k.id j)

total-keyed : (k : Job) (t : Table) → total (keyed k) t ≡ length (select (has_key k.name k.id) t)
total-keyed k [] = refl
total-keyed k (j ∷ t) = elim (Bool-cases (has_key k.name k.id j)) [
  | inl e ↦ rw (e, total-keyed k t) (omega arith)
  | inr e ↦ rw (e, total-keyed k t) (omega arith)
]

pub own_key : (j : Job) → has_key j.name j.id j ≡ true
own_key j = rw ((eq_iff j.name j.name).1 refl) (own j.id)

pub key_swap : (j k : Job) → has_key j.name j.id k ≡ has_key k.name k.id j
key_swap j k = ground (arith, eq_iff j.name k.name, eq_iff k.name j.name)

-- At most one row has the key of a row.
abbrev pub OneKey : List Job → Type 0
OneKey l = (k : Job) → total (keyed k) l ≤ 1

pub IsUnique-OneKey : (t : Table) → IsUnique t → OneKey t
IsUnique-OneKey t u k = rw (total-keyed k t) (one_key k.name k.id t u)

pub is_cleared-keyed : (ps : List Job) (r : Job) → total (keyed r) ps ≡ 0 → is_cleared ps r ≡ false
is_cleared-keyed [] r h = refl
is_cleared-keyed (p ∷ ps) r h = elim (Bool-cases (has_key r.name r.id p)) [
  | inl e ↦ absurd (zero_one e h)
  | inr e ↦ rw (key_swap p r, e) (is_cleared-keyed ps r (rest e h))
]
  where
    zero_one : {b : Bool} → b ≡ true → one_if b + total (keyed r) ps ≡ 0 → ⊥
    zero_one e h = ground arith

    rest : {b : Bool} → b ≡ false → one_if b + total (keyed r) ps ≡ 0 → total (keyed r) ps ≡ 0
    rest e h = ground arith

pub keyed_self : (r : Job) → keyed r r ≡ 1
keyed_self r = rw (own_key r) refl

-- Each row of a list is among the rows with its key.
abbrev pub Counted : List Job → Job → Type 0
Counted l r = 1 ≤ total (keyed r) l

pub All-Counted : (l : List Job) → All (Counted l) l
All-Counted [] = tt
All-Counted (r ∷ l) = (
  first (keyed_self r),
  All-map (Counted l) (Counted (r ∷ l)) l (λ k h. omega (arith, h)) (All-Counted l),
)
  where
    first : {n : ℕ} → n ≡ 1 → 1 ≤ n + total (keyed r) l
    first e = omega arith

pub All-is_cleared : (ps : List Job) → All (λ p. is_cleared ps p ≡ true) ps
All-is_cleared [] = tt
All-is_cleared (p ∷ ps) = (
  rw (own_key p) refl,
  All-map _ _ ps (λ k h. either (has_key p.name p.id k) h) (All-is_cleared ps),
)
  where
    either : (a : Bool) {b : Bool} → b ≡ true → (a || b) ≡ true
    either true h = refl
    either false h = h

pub All-not_cleared :
    (t : Table) (ps rest : List Job)
    → Divides t ps rest
    → OneKey t
    → All (λ r. is_cleared ps r ≡ false) rest
All-not_cleared t ps rest d o =
    All-map (Counted rest) _ rest (λ r c. is_cleared-keyed ps r (none r c)) (All-Counted rest)
  where
    none : (r : Job) → 1 ≤ total (keyed r) rest → total (keyed r) ps ≡ 0
    none r c = omega (arith, d (keyed r), o r)

pub total-same : (f g : Job → ℕ) (l : List Job) → All (λ j. f j ≡ g j) l → total f l ≡ total g l
total-same f g [] a = refl
total-same f g (j ∷ l) a = rw (a.0, total-same f g l a.1) refl

pub total-none : (f : Job → ℕ) (l : List Job) → All (λ j. f j ≡ 0) l → total f l ≡ 0
total-none f [] a = refl
total-none f (j ∷ l) a = omega (arith, a.0, total-none f l a.1)

pub total-map :
    (f : Job → ℕ) (g : Job → Job) (l : List Job) → total f (map g l) ≡ total (λ j. f (g j)) l
total-map f g [] = refl
total-map f g (j ∷ l) = rw (total-map f g l) refl

total-le : (f g : Job → ℕ) (l : List Job) → ((j : Job) → f j ≤ g j) → total f l ≤ total g l
total-le f g [] h = omega arith
total-le f g (j ∷ l) h = omega (arith, h j, total-le f g l h)

keyed-cleared : (ps : List Job) (r : Job) → is_cleared ps r ≡ true → 1 ≤ total (keyed r) ps
keyed-cleared [] r h = absurd (ground arith)
keyed-cleared (p ∷ ps) r h = elim (Bool-cases (has_key p.name p.id r)) [
  | inl e ↦ here (key_swap r p ∙ e)
  | inr e ↦ there _ (keyed-cleared ps r (later e h))
]
  where
    here : {b : Bool} → b ≡ true → 1 ≤ one_if b + total (keyed r) ps
    here e = ground arith

    later : {a b : Bool} → a ≡ false → (a || b) ≡ true → b ≡ true
    later e h = ground arith

    there : (n : ℕ) {m : ℕ} → 1 ≤ m → 1 ≤ n + m
    there n h = omega arith

-- Where a key names at most one row, a row that has the key of one of the parents is that parent.
pub All-cleared :
    (q : Job → Bool) (t : Table) (ps rest : List Job)
    → Divides t ps rest
    → OneKey t
    → All (λ p. q p ≡ true) ps
    → All (λ r. is_cleared ps r ≡ true → q r ≡ true) t
All-cleared q t ps rest d o a = All-map (Failing t) _ t one (counted t)
  where
    fails : Job → Job → ℕ
    fails r j = if q j then 0 else keyed r j

    Failing : List Job → Job → Type 0
    Failing l r = fails r r ≤ total (fails r) l

    counted : (l : List Job) → All (Failing l) l
    counted [] = tt
    counted (r ∷ l) =
        (omega arith, All-map (Failing l) (Failing (r ∷ l)) l (λ k h. omega (arith, h)) (counted l))

    fails-le : (r j : Job) → fails r j ≤ keyed r j
    fails-le r j = elim (Bool-cases (q j)) [
      | inl e ↦ rw e (omega arith)
      | inr e ↦ rw e (omega arith)
    ]

    failing : (r : Job) → q r ≡ false → fails r r ≡ 1
    failing r e = rw e (keyed_self r)

    passed : (r : Job) → total (fails r) ps ≡ 0
    passed r = total-none (fails r) ps (All-map _ _ ps (λ p e. rw e refl) a)

    clash : (r : Job) → Failing t r → is_cleared ps r ≡ true → fails r r ≡ 1 → ⊥
    clash r f c e = omega (
      arith,
      d (fails r),
      d (keyed r),
      o r,
      keyed-cleared ps r c,
      passed r,
      total-le (fails r) (keyed r) rest (fails-le r),
    )

    one : (r : Job) → Failing t r → is_cleared ps r ≡ true → q r ≡ true
    one r f c = elim (Bool-cases (q r)) [ inl e ↦ e | inr e ↦ absurd (clash r f c (failing r e)) ]
