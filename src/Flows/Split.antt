-- ===== src/Flows/Split.antt =====
-- The split form of resolving flow jobs does what the single statement does.
use bun_boss.Base.{
  ℕ, ◌+◌, ◌-◌, ◌≡◌, refl, ap, sym, ◌∙◌, inl, inr, ◌⊎◌, String, Bool, true, false, not, ◌&&◌, ◌||◌,
  if◌then◌else◌, List, [], ◌∷◌, map, arith, All, Bool-cases, length, select, ltb,
}
use bun_boss.Job.{Job}
use bun_boss.Store.{Table, rows_after}
use bun_boss.Store.Unique.{IsUnique}
use bun_boss.Fail.Inserts.{All-map}
use bun_boss.Flows.{
  Dependency, decremented, is_cleared, unblocked, not_blocking, updated_by, resolved_row,
  blocking_parents, resolve_flow_jobs, decrements, decrement_dependents, clear_blocking,
  ids_by_name, resolve_groups, resolve_flow_jobs_no_cte,
}
use bun_boss.Flows.Keys.{
  OneKey, IsUnique-OneKey, All-is_cleared, All-not_cleared, total-same, total-none, one_if,
}
use bun_boss.Flows.Sums.{total, Divides}
use bun_boss.Flows.Groups.{in_group, held, sum, ids_by_name-sum, batch-Distinct}
use bun_boss.Flows.Pending.{NotStuck, Apart, others, batch-Divides, batch-Apart}

-- The counter and the flags of a row after `n` of its dependencies are resolved, and itself if `c`.
abbrev counter : ℕ → Bool → ℕ → ℕ
counter n b p = if b && ltb 0 n then p - n else p

abbrev flag : ℕ → Bool → ℕ → Bool
flag n b p = if b && ltb 0 n then ltb 0 (p - n) else b

abbrev settled : ℕ → Bool → Job → Job
settled n c j = record j {
  pending_dependencies = counter n j.blocked j.pending_dependencies;
  blocked = flag n j.blocked j.pending_dependencies;
  blocking = if c then false else j.blocking;
}

counter-twice :
    (n m : ℕ) (b : Bool) (p : ℕ) → counter m (flag n b p) (counter n b p) ≡ counter (n + m) b p
counter-twice n m true p = ground arith
counter-twice n m false p = refl

flag-twice : (n m : ℕ) (b : Bool) (p : ℕ) → flag m (flag n b p) (counter n b p) ≡ flag (n + m) b p
flag-twice n m true p = ground arith
flag-twice n m false p = refl

twice :
    (c d b : Bool) → (if d then false else if c then false else b) ≡ (if c || d then false else b)
twice true true b = refl
twice true false b = refl
twice false d b = refl

settled-settled :
    (n m : ℕ) (c d : Bool) (j : Job) → settled m d (settled n c j) ≡ settled (n + m) (c || d) j
settled-settled n m c d j =
    rw
      (
        counter-twice n m j.blocked j.pending_dependencies,
        flag-twice n m j.blocked j.pending_dependencies,
        twice c d j.blocking,
      )
      refl

updated_by-unblock :
    (n : ℕ) (j : Job)
    → j.blocked ≡ true
    → (ltb 0 n ≡ true) ⊎ (ltb 0 n ≡ false)
    → updated_by (true && ltb 0 n && true) false n j ≡ settled n false j
updated_by-unblock n j e (inl k) = rw (k, e) refl
updated_by-unblock n j e (inr k) = rw (k, e) refl

updated_by-settled :
    (n : ℕ) (b f c : Bool) (j : Job)
    → j.blocked ≡ b
    → (c ≡ true → b ≡ false)
    → updated_by (b && ltb 0 n && (f || not c)) c n j ≡ settled n c j
updated_by-settled n true f true j e h = absurd (ground (arith, h refl))
updated_by-settled n true true false j e h = updated_by-unblock n j e (Bool-cases (ltb 0 n))
updated_by-settled n true false false j e h = updated_by-unblock n j e (Bool-cases (ltb 0 n))
updated_by-settled n false f true j e h = rw e refl
updated_by-settled n false f false j e h = rw e refl

resolved_row-settled :
    (first : Job → Bool) (deps : List Dependency) (parents : List Job) (j : Job)
    → Apart parents j
    → resolved_row first deps parents j
      ≡ settled (decremented deps parents j) (is_cleared parents j) j
unfolding resolved_row
resolved_row-settled first deps parents j h =
    updated_by-settled (decremented deps parents j) j.blocked (first j) (is_cleared parents j) j
      refl h

clear_row : (Job → Bool) → Job → Job
clear_row p j = if p j then not_blocking j else j

clear_row-settled :
    (n : ℕ) (p : Job → Bool) (j : Job)
    → p (unblocked n j) ≡ p j
    → clear_row p (if j.blocked && ltb 0 n then unblocked n j else j) ≡ settled n (p j) j
unfolding clear_row
clear_row-settled n p j e = elim (Bool-cases (j.blocked && ltb 0 n)) [
  | inl f ↦ elim (Bool-cases (p j)) [ inl h ↦ rw (f, e, h) refl | inr h ↦ rw (f, e, h) refl ]
  | inr f ↦ elim (Bool-cases (p j)) [ inl h ↦ rw (f, h) refl | inr h ↦ rw (f, h) refl ]
]

sum-settled :
    (deps : List Dependency) (groups : List (String × List ℕ)) (n : ℕ) (c : Bool) (j : Job)
    → sum deps groups (settled n c j) ≡ sum deps groups j
unfolding sum decrements
sum-settled deps [] n c j = refl
sum-settled deps (g ∷ groups) n c j = rw (sum-settled deps groups n c j) refl

held-settled :
    (groups : List (String × List ℕ)) (n : ℕ) (c : Bool) (j : Job)
    → held groups (settled n c j) ≡ held groups j
held-settled groups n c j = refl

cons-eq : {j k : Job} {t u : Table} → j ≡ k → t ≡ u → j ∷ t ≡ k ∷ u
cons-eq {k} {t} e f = ap (λ x. x ∷ t) e ∙ ap (λ x. k ∷ x) f

clear-decrement :
    (deps : List Dependency) (name : String) (ids : List ℕ) (t : Table)
    → clear_blocking name ids (decrement_dependents deps name ids t)
      ≡ map (λ j. settled (decrements deps name ids j) (in_group (name, ids) j) j) t
unfolding clear_blocking decrement_dependents rows_after clear_row
clear-decrement deps name ids [] = refl
clear-decrement deps name ids (j ∷ t) =
    cons-eq (clear_row-settled (decrements deps name ids j) (in_group (name, ids)) j refl)
      (clear-decrement deps name ids t)

map-settled :
    (deps : List Dependency) (groups : List (String × List ℕ)) (n : Job → ℕ) (c : Job → Bool)
    (t : Table)
    → map (λ j. settled (sum deps groups j) (held groups j) j) (map (λ j. settled (n j) (c j) j) t)
      ≡ map (λ j. settled (n j + sum deps groups j) (c j || held groups j) j) t
map-settled deps groups n c [] = refl
map-settled deps groups n c (j ∷ t) =
    rw
      (
        map-settled deps groups n c t,
        sum-settled deps groups (n j) (c j) j,
        settled-settled (n j) (sum deps groups j) (c j) (held groups j) j,
      )
      refl

map-none : (t : Table) → t ≡ map (λ j. settled 0 false j) t
map-none [] = refl
map-none (j ∷ t) = rw (← map-none t) (ap (λ k. k ∷ t) (none (Bool-cases j.blocked)))
  where
    none : (j.blocked ≡ true) ⊎ (j.blocked ≡ false) → j ≡ settled 0 false j
    none (inl e) = rw e refl
    none (inr e) = rw e refl

resolve_groups-map :
    (deps : List Dependency) (groups : List (String × List ℕ)) (t : Table)
    → resolve_groups deps groups t ≡ map (λ j. settled (sum deps groups j) (held groups j) j) t
unfolding resolve_groups sum
resolve_groups-map deps [] t = map-none t
resolve_groups-map deps ((name, ids) ∷ groups) t =
    resolve_groups-map deps groups _
    ∙ ap (map (λ j. settled (sum deps groups j) (held groups j) j))
        (clear-decrement deps name ids t)
    ∙ map-settled deps groups (decrements deps name ids) (in_group (name, ids)) t

map-same : (f g : Job → Job) (t : Table) → All (λ j. f j ≡ g j) t → map f t ≡ map g t
map-same f g [] a = refl
map-same f g (j ∷ t) a = cons-eq a.0 (map-same f g t a.1)

-- The number of rows that are cleared is the number of parents.
pub cleared-length :
    (t : Table) (ps rest : List Job)
    → Divides t ps rest
    → OneKey t
    → length (select (is_cleared ps) t) ≡ length ps
cleared-length t ps rest d o =
    count t
    ∙ d (λ j. one_if (is_cleared ps j))
    ∙ both
        (total-same _ (λ j. 1) ps (All-map _ _ ps (λ p e. rw e refl) (All-is_cleared ps)) ∙ ones ps)
        (total-none _ rest (All-map _ _ rest (λ p e. rw e refl) (All-not_cleared t ps rest d o)))
  where
    count :
        (l : List Job) → length (select (is_cleared ps) l) ≡ total (λ j. one_if (is_cleared ps j)) l
    count [] = refl
    count (j ∷ l) = elim (Bool-cases (is_cleared ps j)) [
      | inl e ↦ rw (e, count l) (omega arith)
      | inr e ↦ rw (e, count l) (omega arith)
    ]

    ones : (l : List Job) → total (λ j. 1) l ≡ length l
    ones [] = refl
    ones (j ∷ l) = omega (arith, ones l)

    both : {a b c : ℕ} → a ≡ c → b ≡ 0 → a + b ≡ c
    both e f = omega (arith, e, f)

-- In a table with unique indexes where no completed job is blocked, the split form that a database
-- without several changes in one statement runs (a SELECT of the parents, then for each of their
-- queues one UPDATE of the children and one of the parents) leaves the same table and reports the
-- same number of parents as the single statement, whatever rows are locked.
pub resolve_flow_jobs_no_cte-same :
    (first : Job → Bool) (name_lt : String → String → Bool) (locked : Job → Bool)
    (names : List String) (deps : List Dependency) (t : Table)
    → IsUnique t
    → All NotStuck t
    → resolve_flow_jobs_no_cte name_lt locked names deps t
      ≡ resolve_flow_jobs first name_lt locked names deps t
unfolding resolve_flow_jobs_no_cte resolve_flow_jobs sum
resolve_flow_jobs_no_cte-same first name_lt locked names deps t u s = pair rows count
  where
    ps : List Job
    ps = blocking_parents name_lt locked names t

    pair : {a b : Table} {m n : ℕ} → a ≡ b → m ≡ n → ◌≡◌ {A = Table × ℕ} (a, m) (b, n)
    pair {b} {m} e f = ap (λ x. (x, m)) e ∙ ap (λ x. (b, x)) f

    nothing_held : (l : List Job) → All (λ p. held [] p ≡ false) l
    nothing_held [] = tt
    nothing_held (p ∷ l) = (refl, nothing_held l)

    row :
        (j : Job)
        → Apart ps j
        → settled (sum deps (ids_by_name ps []) j) (held (ids_by_name ps []) j) j
          ≡ resolved_row first deps ps j
    row j h =
        let r =
          ids_by_name-sum deps ps [] j (batch-Distinct name_lt locked names t u)
            (nothing_held ps) in
        ap (λ n. settled n (held (ids_by_name ps []) j) j) (r.0 ∙ from_zero _)
        ∙ ap (λ c. settled (decremented deps ps j) c j) r.1
        ∙ sym (resolved_row-settled first deps ps j h)
      where
        from_zero : (n : ℕ) → 0 + n ≡ n
        from_zero n = omega arith

    rows : resolve_groups deps (ids_by_name ps []) t ≡ map (resolved_row first deps ps) t
    rows =
        resolve_groups-map deps (ids_by_name ps []) t
        ∙ map-same _ _ t (All-map _ _ t row (batch-Apart name_lt locked names t u s))

    count : length ps ≡ length (select (is_cleared ps) t)
    count = sym (
        cleared-length t ps (others name_lt locked names t) (batch-Divides name_lt locked names t)
          (IsUnique-OneKey t u))
