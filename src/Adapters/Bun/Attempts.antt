-- ===== src/Adapters/Bun/Attempts.antt =====
-- The retries of a statement that met an aborted transaction.
use bun_boss.Base.{
  ℕ, zero, suc, ◌+◌, ◌≤◌, ◌≡◌, refl, inl, inr, ◌⊎◌, Bool, true, false, not, ◌||◌, List, Option,
  none, some, leb, arith, Bool-cases,
}
use bun_boss.Adapters.Bun.{
  Failure, has_code, promote_sql_state, Answer, Reply, answered, failed, Handle, is_pooled, run,
  attempt_text, gives_up, after_run, attempts, execute_sql,
}

-- An error that is thrown on: its SQLSTATE stands in `code`, and it is none that another attempt could
-- cure, or the fourth one in a row.
abbrev pub IsFinal : Handle → ℕ → Failure → Type 0
IsFinal handle attempt e =
    ((has_code "25P02" e ≡ false) ⊎ ((attempt ≡ 3) ⊎ (is_pooled handle ≡ false)))

abbrev pub Ends : {R S : Type 0} → Handle → Option (Reply (List R) × ℕ × S) → Type 0
Ends handle none = ⊥
Ends handle (some (answered rows, attempt, s)) = attempt ≤ 3
Ends handle (some (failed e, attempt, s)) = (attempt ≤ 3) × IsFinal handle attempt e

give_up :
    (n : ℕ) (a p : Bool)
    → n ≤ 3
    → (not a || (leb 3 n || not p)) ≡ true
    → (a ≡ false) ⊎ ((n ≡ 3) ⊎ (p ≡ false))
give_up n false p h e = inl refl
give_up n true false h e = inr (inr refl)
give_up n true true h e = inr (inl (ground arith))

retry_again : (n : ℕ) (a p : Bool) → n ≤ 3 → (not a || (leb 3 n || not p)) ≡ false → suc n ≤ 3
retry_again n a p h e = ground arith

module _ {R V S : Type 0} (send : List ℕ → List V → S → Reply (Answer R) × S)
    (send_reserved : List ℕ → S → Reply (Answer R) × S) (handle : Handle) where
  after_run-Ends :
      (n : ℕ) (again : S → Option (Reply (List R) × ℕ × S)) (r : Reply (List R) × S)
      → n ≤ 3
      → ((s : S) → suc n ≤ 3 → Ends handle (again s))
      → Ends handle (after_run send send_reserved handle n again r)
  unfolding gives_up
  after_run-Ends n again (answered rows, s) h k = h
  after_run-Ends n again (failed e, s) h k =
      elim (Bool-cases (gives_up send send_reserved handle n (promote_sql_state e))) [
        | inl g ↦ rw g (h, give_up n _ _ h g)
        | inr g ↦ rw g (k s (retry_again n _ _ h g))
      ]

  attempts-Ends :
      (fuel n : ℕ) (query : List ℕ) (values : List V) (s : S)
      → n + fuel ≡ 4
      → n ≤ 3
      → Ends handle (attempts send send_reserved handle fuel n query values s)
  unfolding attempts
  attempts-Ends zero n query values s e h = absurd (omega (arith, e, h))
  attempts-Ends (suc fuel) n query values s e h =
      after_run-Ends n _
        (run send send_reserved handle (attempt_text send send_reserved handle n query values)
          values s)
        h (λ u k. attempts-Ends fuel (suc n) query values _ (omega (arith, e)) k)

-- For every driver, executeSql ends after at most four attempts, the first and three retries. Where it
-- throws, the error is none of an aborted transaction, or the handle is not pooled, or it is the
-- error of the fourth attempt.
pub execute_sql-Ends :
    {R V S : Type 0} (send : List ℕ → List V → S → Reply (Answer R) × S)
    (send_reserved : List ℕ → S → Reply (Answer R) × S) (handle : Handle) (query : List ℕ)
    (values : List V) (s : S)
    → Ends handle (execute_sql send send_reserved handle 4 query values s)
unfolding execute_sql
execute_sql-Ends send send_reserved handle query values s =
    attempts-Ends send send_reserved handle 4 0 query values s (omega arith) (omega arith)
