-- ===== src/Work/Process/Settles.antt =====
-- What is left of a batch: src/manager.ts (processJobs).
use bun_boss.Base.{
  ℕ, ◌≡◌, refl, sym, ap, ◌∙◌, String, Bool, true, false, ◌&&◌, if◌then◌else◌, List, [], ◌∷◌, ◌++◌,
  map, Option, none, some, All, arith, ◌==◌, length, str_eq,
}
use bun_boss.Job.{active, state_eq, Job}
use bun_boss.Store.{Table, Result, ok, unique_violation, ◌>>=◌}
use bun_boss.Commands.{is_target, complete_jobs, complete, response, CommandResponse}
use bun_boss.Supervise.Pass.Idle.{ok-injective, split_ok}
use bun_boss.Fail.{Env, fail_jobs_by_id, fail_jobs_with_outputs}
use bun_boss.Work.Settle.{
  Command, fail_all, complete_with_outputs, fail_with_outputs, dead_letter_with_outputs, named,
  all_named, settle_per_job, settle_per_job-perm, Output,
}
use bun_boss.Work.Process.{
  Failure, Finish, Resolution, resolved, rejected, resolve_within_seconds, max_expiration,
  complete_jobs_with_outputs, texts, run_command, run_commands, settle, fail_batch, or_fail,
  process_jobs, constraint_violated, unless_thrown, end_batch, Settled,
}
use mathlib.Core.List.{append-nil, append_assoc}
use mathlib.Core.Path.{subst}
use bun_boss.Work.Process.Active.{
  NotActive, has_id-perm, All-weaker, fail-NotActive, after-NotActive, update_counted-after,
}

nothing_named : (name : String) (t : Table) → All (NotActive name []) t
nothing_named name [] = tt
nothing_named name (j ∷ t) = (ground arith, nothing_named name t)

module _ (stored : Failure → Option String) (e : Env) (name : String) where
  texts-ids :
      (items : List (ℕ × Output))
      → map (λ i. i.0) (texts stored e name items) ≡ map (λ i. i.0) items
  texts-ids [] = refl
  texts-ids (i ∷ items) = ap (◌∷◌ i.0) (texts-ids items)

  run_command-NotActive :
      (old : List ℕ) (c : Command) (t u : Table) (n : ℕ)
      → All (NotActive name old) t
      → run_command stored e name c t ≡ ok (u, n)
      → All (NotActive name (old ++ named c)) u
  unfolding run_command complete_jobs_with_outputs fail_jobs_by_id fail_jobs_with_outputs
  run_command-NotActive old (fail_all ids) t u n a h =
      fail-NotActive name old ids e false _ t u n a h
  run_command-NotActive old (complete_with_outputs items) t u n a h =
      subst (All (NotActive name (old ++ map (λ i. i.0) items))) (update_counted-after _ _ t u n h)
        (after-NotActive name old (map (λ i. i.0) items) _ _ t (λ j. refl)
          (λ j. ap (λ ids. is_target name ids j && state_eq j.state active) (texts-ids items)) a)
  run_command-NotActive old (fail_with_outputs items) t u n a h =
      subst (λ ids. All (NotActive name (old ++ ids)) u) (texts-ids items)
        (fail-NotActive name old _ e false _ t u n a h)
  run_command-NotActive old (dead_letter_with_outputs items) t u n a h =
      subst (λ ids. All (NotActive name (old ++ ids)) u) (texts-ids items)
        (fail-NotActive name old _ e true _ t u n a h)

  run_commands-NotActive :
      (old : List ℕ) (cs : List Command) (t : Table)
      → All (NotActive name old) t
      → (run_commands stored e name cs t).1 ≡ true
      → All (NotActive name (old ++ all_named cs)) (run_commands stored e name cs t).0
  unfolding run_commands all_named
  run_commands-NotActive old [] t a h =
      subst (λ ids. All (NotActive name ids) t) (sym (append-nil old)) a
  run_commands-NotActive old (c ∷ cs) t a h =
      by_result (run_command stored e name c t) refl
        (λ d b k. run_commands-NotActive (old ++ named c) cs d.0 b k) h
    where
      next : Table × ℕ → Table × Bool
      next d = run_commands stored e name cs d.0

      by_result :
          (r : Result (Table × ℕ))
          → run_command stored e name c t ≡ r
          → ((d : Table × ℕ)
              → All (NotActive name (old ++ named c)) d.0
              → (next d).1 ≡ true
              → All (NotActive name ((old ++ named c) ++ all_named cs)) (next d).0)
          → (unless_thrown r next (t, false)).1 ≡ true
          → All
              (NotActive name (old ++ (named c ++ all_named cs)))
              (unless_thrown r next (t, false)).0
      by_result (ok d) q rest k =
          subst (λ ids. All (NotActive name ids) (next d).0)
            (append_assoc old (named c) (all_named cs))
            (rest d (run_command-NotActive old c t d.0 d.1 a q) k)
      by_result unique_violation q rest k = cc

  fail_batch-NotActive :
      (ids : List ℕ) (failure : Failure) (t u : Table) (n : ℕ)
      → fail_batch stored e name ids failure t ≡ ok (u, n)
      → All (NotActive name ids) u
  unfolding fail_batch fail_jobs_by_id
  fail_batch-NotActive ids failure t u n h =
      let (r, h₁, h₂) = split_ok (fail_jobs_by_id e name ids (stored failure) t) _ h in
      subst (All (NotActive name ids)) (ap (λ x. x.0) (ok-injective _ (u, n) h₂))
        (fail-NotActive name [] ids e false _ t r.0 r.1 (nothing_named name t) h₁)

  settle-NotActive :
      (per_job : Bool) (ids : List ℕ) (r : Resolution) (t : Table) (n : ℕ)
      → (settle stored e name per_job ids r t).1 ≡ some n
      → All (NotActive name ids) (settle stored e name per_job ids r t).0
  unfolding settle complete complete_jobs
  settle-NotActive false ids r t n h = by_result _ refl h
    where
      counted : Table × CommandResponse → Table × Option ℕ
      counted done = (done.0, some (length ids))

      by_result :
          (d : Result (Table × ℕ))
          → complete_jobs false name ids (if length ids == 1 then r.output else none) e.now t ≡ d
          → (unless_thrown (d >>= λ x. ok (x.0, response ids x.1)) counted (t, none)).1 ≡ some n
          → All
              (NotActive name ids)
              (unless_thrown (d >>= λ x. ok (x.0, response ids x.1)) counted (t, none)).0
      by_result (ok d) q k =
          subst (All (NotActive name ids)) (update_counted-after _ _ t d.0 d.1 q)
            (after-NotActive name [] ids _ _ t (λ j. refl) (λ j. refl) (nothing_named name t))
      by_result unique_violation q k = cc
  settle-NotActive true ids r t n h =
      All-weaker _ _ (run_commands stored e name cs t).0
        (λ j a.
          ap (λ b. (str_eq j.name name && b) && state_eq j.state active)
            (sym (has_id-perm j.id (settle_per_job-perm ids r.job_results)))
          ∙ a)
        (run_commands-NotActive [] cs t (nothing_named name t) (ran _ _ h))
    where
      cs : List Command
      cs = (settle_per_job ids r.job_results).0

      ran : (b : Bool) (m : ℕ) → ◌≡◌ {A = Option ℕ} (if b then some m else none) (some n) → b ≡ true
      ran true m k = refl
      ran false m k = cc

  or_fail-NotActive :
      (ids : List ℕ) (s : Table × Option ℕ) (u : Table) (n : ℕ)
      → ((m : ℕ) → s.1 ≡ some m → All (NotActive name ids) s.0)
      → or_fail stored e name ids s ≡ ok (u, n)
      → All (NotActive name ids) u
  unfolding or_fail
  or_fail-NotActive ids (v, some m) u n f h =
      subst (All (NotActive name ids)) (ap (λ x. x.0) (ok-injective _ (u, n) h)) (f m refl)
  or_fail-NotActive ids (v, none) u n f h = fail_batch-NotActive ids constraint_violated v u n h

  end_batch-NotActive :
      (per_job : Bool) (ids : List ℕ) (s : Settled) (t u : Table) (n : ℕ)
      → end_batch stored e name per_job ids s t ≡ ok (u, n)
      → All (NotActive name ids) u
  unfolding end_batch
  end_batch-NotActive b ids (resolved r) t u n h =
      or_fail-NotActive ids (settle stored e name b ids r t) u n (settle-NotActive b ids r t) h
  end_batch-NotActive b ids (rejected failure) t u n h = fail_batch-NotActive ids failure t u n h

  -- When a batch has been processed, no job of it is active in the table: not where its handler resolves,
  -- with or without a result per job, not where it throws or exceeds its time, and not where a command of
  -- the settlement breaks a unique index. Only an error of fail() itself is left out.
  pub process_jobs-NotActive :
      (per_job_results : Bool) (jobs : List Job) (finish : Finish) (t u : Table) (n : ℕ)
      → process_jobs stored e name per_job_results jobs finish t ≡ ok (u, n)
      → All (NotActive name (map (λ j. j.id) jobs)) u
  unfolding process_jobs
  process_jobs-NotActive b jobs finish t u n h =
      end_batch-NotActive b (map (λ j. j.id) jobs)
        (resolve_within_seconds finish (max_expiration jobs)) t u n h
