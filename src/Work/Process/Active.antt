-- ===== src/Work/Process/Active.antt =====
-- The active rows that a statement leaves, for the settlement of a batch: src/manager.ts
-- (processJobs).
use bun_boss.Base.{
  ℕ, ◌≡◌, refl, sym, ap, ◌∙◌, String, Bool, true, false, ◌&&◌, ◌||◌, if◌then◌else◌, List, [], ◌∷◌,
  ◌++◌, Option, All, arith, inl, inr, Bool-cases,
}
use bun_boss.Job.{
  State, created, retry, active, completed, cancelled, failed, state_eq, state_lt, Job,
}
use bun_boss.Store.{Table, ok, unique_violation, commit, update_rows, rows_after}
use bun_boss.Commands.{has_id, is_target, update_counted}
use bun_boss.Supervise.Pass.Idle.{ok-injective, fail_rows-All, split_ok}
use bun_boss.Supervise.Pass.Expires.{reject-All}
use bun_boss.Fail.{Env, fails_by_id, fail_rows}
use mathlib.Core.List.{Perm, Permᴰ}
use mathlib.Core.Logic.{∥∥₁_elim}
use mathlib.Core.Bool.{Bool-set}

-- The job is not one of these, or is not active.
abbrev pub NotActive : String → List ℕ → Job → Type 0
NotActive name ids j = (is_target name ids j && state_eq j.state active) ≡ false

active-lt : (s : State) → state_eq s active ≡ true → state_lt s completed ≡ true
active-lt created h = refl
active-lt retry h = refl
active-lt active h = refl
active-lt completed h = cc
active-lt cancelled h = cc
active-lt failed h = cc

has_id-append : (xs ys : List ℕ) (id : ℕ) → has_id (xs ++ ys) id ≡ (has_id xs id || has_id ys id)
has_id-append [] ys id = refl
has_id-append (x ∷ xs) ys id = ground (arith, has_id-append xs ys id)

has_id-listed : {xs ys : List ℕ} (id : ℕ) → Permᴰ xs ys → has_id xs id ≡ has_id ys id
has_id-listed id Permᴰ.nil = refl
has_id-listed id (Permᴰ.cons e p) = ground (arith, e, has_id-listed id p)
has_id-listed id (Permᴰ.swap a b) = ground (arith, a, b)
has_id-listed id (Permᴰ.trans p q) = has_id-listed id p ∙ has_id-listed id q

pub has_id-perm : {xs ys : List ℕ} (id : ℕ) → Perm xs ys → has_id xs id ≡ has_id ys id
has_id-perm id p = ∥∥₁_elim p (Bool-set _ _) (λ d. has_id-listed id d)

pub All-weaker : (P Q : Job → Type 0) (t : Table) → ((j : Job) → P j → Q j) → All P t → All Q t
All-weaker P Q [] f a = tt
All-weaker P Q (j ∷ t) f a = (f j a.0, All-weaker P Q t f a.1)

module _ (name : String) (old new : List ℕ) where
  stays :
      (j : Job)
      → (is_target name new j && state_eq j.state active) ≡ false
      → NotActive name old j
      → NotActive name (old ++ new) j
  stays j h q = ground (arith, has_id-append old new j.id)

  idle : (j : Job) → state_eq j.state active ≡ false → NotActive name (old ++ new) j
  idle j h = ground arith

  pub fail-NotActive :
      (e : Env) (force : Bool) (output : Job → Option String) (t u : Table) (n : ℕ)
      → All (NotActive name old) t
      → fail_rows e force output (fails_by_id name new) t ≡ ok (u, n)
      → All (NotActive name (old ++ new)) u
  fail-NotActive e force output t u n a h =
      fail_rows-All (NotActive name (old ++ new)) idle e force output (fails_by_id name new) t u n
        (reject-All (NotActive name (old ++ new)) (NotActive name old) (fails_by_id name new) idle
          (λ j k q. stays j (unmet (is_target name new j) _ _ k (active-lt j.state)) q) t a)
        h
    where
      unmet :
          (target lt act : Bool)
          → (target && lt) ≡ false
          → (act ≡ true → lt ≡ true)
          → (target && act) ≡ false
      unmet false lt act k f = refl
      unmet true lt false k f = refl
      unmet true lt true k f = sym (f refl) ∙ k

  pub after-NotActive :
      (p : Job → Bool) (f : Job → Job) (t : Table)
      → ((j : Job) → state_eq (f j).state active ≡ false)
      → ((j : Job) → p j ≡ (is_target name new j && state_eq j.state active))
      → All (NotActive name old) t
      → All (NotActive name (old ++ new)) (rows_after p f t)
  unfolding rows_after
  after-NotActive p f [] g d a = tt
  after-NotActive p f (j ∷ t) g d a = elim (Bool-cases (p j)) [
    | inl e ↦ rw e (idle (f j) (g j), after-NotActive p f t g d a.1)
    | inr e ↦ rw e (stays j (sym (d j) ∙ e) a.0, after-NotActive p f t g d a.1)
  ]

committed : (t u : Table) → commit t ≡ ok u → t ≡ u
unfolding commit
committed t u h = by_test _ h
  where
    by_test : (b : Bool) → (if b then ok t else unique_violation) ≡ ok u → t ≡ u
    by_test true k = ok-injective t u k
    by_test false k = cc

pub update_counted-after :
    (p : Job → Bool) (f : Job → Job) (t u : Table) (n : ℕ)
    → update_counted p f t ≡ ok (u, n)
    → rows_after p f t ≡ u
unfolding update_counted update_rows
update_counted-after p f t u n h =
    let (v, h₁, h₂) = split_ok (commit (rows_after p f t)) _ h in
    committed _ v h₁ ∙ ap (λ x. x.0) (ok-injective _ (u, n) h₂)
