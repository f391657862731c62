-- ===== src/Supervise/Pass/Expires.antt =====
-- What the monitor leaves of the jobs that have expired: src/boss.ts (#monitor) with src/plans.ts
-- (failJobsByTimeout, failJobsByHeartbeat).
use bun_boss.Base.{
  ℕ, ◌≡◌, refl, sym, ap, ◌∙◌, String, Bool, true, false, ◌&&◌, if◌then◌else◌, List, [], ◌∷◌, map,
  Option, select, reject, All, arith, inl, inr, Bool-cases,
}
use bun_boss.Job.{active, state_eq, Job}
use bun_boss.Store.{Table, Result, ok, unique_violation}
use bun_boss.Commands.{has_id, elapsed}
use bun_boss.Supervise.Pass.Idle.{ok-injective, fail_rows-All, reinsert_failed_jobs-All}
use bun_boss.Attorney.{accepted}
use bun_boss.Queues.{Database}
use bun_boss.Supervise.Pass.{
  monitor_on, Settings, Outcome, try_set, env_of, on_jobs, expire_by_timeout, expire_by_heartbeat,
  monitor_queues, monitor,
}
use bun_boss.Fail.Split.{
  reinsert_failed_jobs, expire_jobs_no_cte, fail_jobs_by_timeout_no_cte,
  fail_jobs_by_heartbeat_no_cte,
}
use mathlib.Core.Path.{subst}
use bun_boss.Fail.{
  Env, fails_by_timeout, fails_by_heartbeat, heartbeat_elapsed, fail_jobs_by_timeout,
  fail_jobs_by_heartbeat,
}

module _ (p : Job → Bool) where
  abbrev IsSelected : List Job → Job → Type 0
  IsSelected js j = p j ≡ true → has_id (map (λ i. i.id) js) j.id ≡ true

  All-wider :
      (k : Job) (js t : List Job)
      → All (IsSelected js) t
      → All (IsSelected (if p k then k ∷ js else js)) t
  All-wider k js [] a = tt
  All-wider k js (j ∷ t) a = ((λ e. wider (p k) (a.0 e)), All-wider k js t a.1)
    where
      wider :
          (b : Bool)
          → has_id (map (λ i. i.id) js) j.id ≡ true
          → has_id (map (λ i. i.id) (if b then k ∷ js else js)) j.id ≡ true
      wider true h = ground arith
      wider false h = h

  -- The ids of the selected rows.
  IsSelected-ids : (t : Table) → All (IsSelected (select p t)) t
  IsSelected-ids [] = tt
  IsSelected-ids (j ∷ t) =
      ((λ e. rw e (ground arith)), All-wider j (select p t) t (IsSelected-ids t))

reject-none : (t : Table) → reject (λ (j : Job). false) t ≡ t
reject-none [] = refl
reject-none (j ∷ t) = ap (◌∷◌ j) (reject-none t)

-- Rows that fail the test, or were put back.
module _ (P Q : Job → Type 0) (p : Job → Bool)
    (idle : (j : Job) → state_eq j.state active ≡ false → P j)
    (rest : (j : Job) → p j ≡ false → Q j → P j) where
  pub reject-All : (t : Table) → All Q t → All P (reject p t)
  reject-All [] a = tt
  reject-All (j ∷ t) a = elim (Bool-cases (p j)) [
    | inl e ↦ rw e (reject-All t a.1)
    | inr e ↦ rw e (rest j e a.0, reject-All t a.1)
  ]

  -- A row of another id than the rows selected fails the test.
  others-All :
      (ids : List ℕ) (t : Table)
      → All (λ j. p j ≡ true → has_id ids j.id ≡ true) t
      → All Q t
      → All P (reject (λ k. has_id ids k.id) t)
  others-All ids [] h a = tt
  others-All ids (j ∷ t) h a = elim (Bool-cases (has_id ids j.id)) [
    | inl e ↦ rw e (others-All ids t h.1 a.1)
    | inr e ↦ rw e (rest j (unmet (p j) h.0 e) a.0, others-All ids t h.1 a.1)
  ]
    where
      unmet : (b : Bool) {c : Bool} → (b ≡ true → c ≡ true) → c ≡ false → b ≡ false
      unmet true f e = sym (f refl) ∙ e
      unmet false f e = refl

  expire_jobs_no_cte-All :
      (e : Env) (output : Option String) (t u : Table) (n : ℕ)
      → All Q t
      → expire_jobs_no_cte e output p t ≡ ok (u, n)
      → All P u
  unfolding expire_jobs_no_cte
  expire_jobs_no_cte-All e output t u n a h = by_selected (select p t) (IsSelected-ids p t) h
    where
      by_selected :
          (js : List Job)
          → All (IsSelected p js) t
          → ◌≡◌ {A = Result (Table × ℕ)}
              (elim js [
                | [] ↦ ok (t, 0)
                | j ∷ rest ↦
                    reinsert_failed_jobs e false
                      (λ k. output)
                      (j ∷ rest)
                      (reject (λ k. has_id (map (λ i. i.id) (j ∷ rest)) k.id) t)
              ])
              (ok (u, n))
          → All P u
      by_selected [] s k =
          subst (All P) (reject-none t ∙ ap (λ x. x.0) (ok-injective _ (u, n) k))
            (others-All [] t s a)
      by_selected (j ∷ js) s k =
          reinsert_failed_jobs-All P idle e false (λ i. output) (j ∷ js) _ u n
            (others-All (map (λ i. i.id) (j ∷ js)) t s a) k

-- No row of these queues has timed out.
abbrev pub InTime : List String → ℕ → Job → Type 0
InTime queues now j = fails_by_timeout queues now j ≡ false

abbrev pub IsAlive : List String → ℕ → Job → Type 0
IsAlive queues now j = InTime queues now j × (fails_by_heartbeat queues now j ≡ false)

timeout-idle :
    (queues : List String) (now : ℕ) (j : Job)
    → state_eq j.state active ≡ false
    → InTime queues now j
timeout-idle queues now j h = rw h refl

IsAlive-idle :
    (queues : List String) (now : ℕ) (j : Job)
    → state_eq j.state active ≡ false
    → IsAlive queues now j
IsAlive-idle queues now j h = (rw h refl, rw h refl)

All-any : (t : Table) → All (λ j. Unit {0}) t
All-any [] = tt
All-any (j ∷ t) = (tt, All-any t)

expire_by_timeout-All :
    (c : Settings) (queues : List String) (db : Database) (u : Table) (n : ℕ)
    → expire_by_timeout c queues db ≡ ok (u, n)
    → All (InTime queues c.now) u
unfolding fail_jobs_by_timeout fail_jobs_by_timeout_no_cte
expire_by_timeout-All c queues db u n h = by_form c.no_multi_mutation_cte h
  where
    by_form :
        (b : Bool)
        → (if b
            then fail_jobs_by_timeout_no_cte (env_of c db) queues db.jobs
            else fail_jobs_by_timeout (env_of c db) queues db.jobs)
          ≡ ok (u, n)
        → All (InTime queues c.now) u
    by_form true k =
        expire_jobs_no_cte-All (InTime queues c.now) (λ j. Unit {0}) (fails_by_timeout queues c.now)
          (timeout-idle queues c.now) (λ j e _. e) (env_of c db) _ db.jobs u n (All-any db.jobs) k
    by_form false k =
        fail_rows-All (InTime queues c.now) (timeout-idle queues c.now) (env_of c db) false _
          (fails_by_timeout queues c.now) db.jobs u n
          (reject-All (InTime queues c.now) (λ j. Unit {0}) (fails_by_timeout queues c.now)
            (timeout-idle queues c.now) (λ j e _. e) db.jobs (All-any db.jobs))
          k

expire_by_heartbeat-All :
    (c : Settings) (queues : List String) (db : Database) (u : Table) (n : ℕ)
    → All (InTime queues c.now) db.jobs
    → expire_by_heartbeat c queues db ≡ ok (u, n)
    → All (IsAlive queues c.now) u
unfolding fail_jobs_by_heartbeat fail_jobs_by_heartbeat_no_cte
expire_by_heartbeat-All c queues db u n a h = by_form c.no_multi_mutation_cte h
  where
    by_form :
        (b : Bool)
        → (if b
            then fail_jobs_by_heartbeat_no_cte (env_of c db) queues db.jobs
            else fail_jobs_by_heartbeat (env_of c db) queues db.jobs)
          ≡ ok (u, n)
        → All (IsAlive queues c.now) u
    by_form true k =
        expire_jobs_no_cte-All (IsAlive queues c.now) (InTime queues c.now)
          (fails_by_heartbeat queues c.now) (IsAlive-idle queues c.now) (λ j e q. (q, e))
          (env_of c db) _ db.jobs u n a k
    by_form false k =
        fail_rows-All (IsAlive queues c.now) (IsAlive-idle queues c.now) (env_of c db) false _
          (fails_by_heartbeat queues c.now) db.jobs u n
          (reject-All (IsAlive queues c.now) (InTime queues c.now) (fails_by_heartbeat queues c.now)
            (IsAlive-idle queues c.now) (λ j e q. (q, e)) db.jobs a)
          k

none_due : (now : ℕ) (t : Table) → All (IsAlive [] now) t
none_due now [] = tt
none_due now (j ∷ t) = (
  (
    nobody (state_eq j.state active) (elapsed j.started_on j.expire_seconds now),
    nobody (state_eq j.state active) (heartbeat_elapsed j.heartbeat_on j.heartbeat_seconds now),
  ),
  none_due now t,
)
  where
    nobody : (a b : Bool) → (a && b && false) ≡ false
    nobody a b = ground arith

-- The two statements, whose errors end the monitor.
expired-All :
    (c : Settings) (stopping : ℕ → Bool) (queues warned : List String) (counted : Database)
    → stopping 3 ≡ false
    → let x = on_jobs warned (expire_by_timeout c queues counted) counted λ d.
      if stopping 3
      then (d, (warned, accepted tt))
      else on_jobs warned (expire_by_heartbeat c queues d) d λ e. (e, (warned, accepted tt)) in
      x.1.1 ≡ accepted tt → All (IsAlive queues c.now) x.0.jobs
expired-All c stopping queues warned counted s₃ h =
    by_timeout (expire_by_timeout c queues counted) refl h
  where
    by_heartbeat :
        (d : Database) (r : Result (Table × ℕ))
        → All (InTime queues c.now) d.jobs
        → expire_by_heartbeat c queues d ≡ r
        → (on_jobs warned r d λ e. (e, (warned, accepted tt))).1.1 ≡ accepted tt
        → All (IsAlive queues c.now) (on_jobs warned r d λ e. (e, (warned, accepted tt))).0.jobs
    by_heartbeat d unique_violation a e k = cc
    by_heartbeat d (ok (u, n)) a e k = expire_by_heartbeat-All c queues d u n a e

    next : Database → Outcome
    next d =
        if stopping 3
        then (d, (warned, accepted tt))
        else on_jobs warned (expire_by_heartbeat c queues d) d λ e. (e, (warned, accepted tt))

    by_timeout :
        (r : Result (Table × ℕ))
        → expire_by_timeout c queues counted ≡ r
        → (on_jobs warned r counted next).1.1 ≡ accepted tt
        → All (IsAlive queues c.now) (on_jobs warned r counted next).0.jobs
    by_timeout unique_violation e k = cc
    by_timeout (ok (t, n)) e k =
        let d = record counted { jobs = t } in
        rw s₃ (
          by_heartbeat d (expire_by_heartbeat c queues d)
            (expire_by_timeout-All c queues counted t n e) refl (rw s₃ at k))

monitor_queues-All :
    (c : Settings) (stopping : ℕ → Bool) (queues : List String) (db : Database)
    → stopping 2 ≡ false
    → stopping 3 ≡ false
    → (monitor_queues c stopping queues db).1.1 ≡ accepted tt
    → All (IsAlive queues c.now) (monitor_queues c stopping queues db).0.jobs
monitor_queues-All c stopping [] db s₂ s₃ h = none_due c.now db.jobs
monitor_queues-All c stopping (q ∷ queues) db s₂ s₃ h =
    rw s₂ (expired-All c stopping (q ∷ queues) _ _ s₃ (rw s₂ at h))

-- A monitor that is not stopped and meets no error leaves no active job, in the queues that it claimed,
-- that has run longer than it may or whose last heartbeat is too old, whichever form of the
-- statements the database has.
pub monitor-expires :
    (c : Settings) (stopping : ℕ → Bool) (names : List String) (db : Database)
    → stopping 0 ≡ false
    → stopping 1 ≡ false
    → stopping 2 ≡ false
    → stopping 3 ≡ false
    → (monitor c stopping names db).1.1 ≡ accepted tt
    → All
        (IsAlive (try_set monitor_on c.now c.monitor_seconds names db.queues).1 c.now)
        (monitor c stopping names db).0.jobs
unfolding monitor
monitor-expires c stopping names db s₀ s₁ s₂ s₃ h =
    rw (s₀, s₁)
      (monitor_queues-All c stopping (try_set monitor_on c.now c.monitor_seconds names db.queues).1
        _ s₂ s₃ (rw (s₀, s₁) at h))
