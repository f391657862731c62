-- ===== src/Spy.antt =====
-- src/spy.ts (JobSpy): the record of job transitions that tests wait on. A promise stands here as
-- its number. The map's key `${id}:${state}` is the pair of the two: a state holds no colon. The copies
-- that structuredClone makes are the values themselves.
use bun_boss.Base.{
  ℕ, ◌≡◌, String, Bool, true, false, ◌&&◌, if◌then◌else◌, List, [], ◌∷◌, ◌++◌, map, Option, none,
  some, str_eq, ◌==◌, All, Bool-cases, inl, inr, select, reject,
}

pub data JobSpyState : Type 0 where
  created active completed failed : JobSpyState

abbrev code : JobSpyState → ℕ
code created = 0
code active = 1
code completed = 2
code failed = 3

abbrev pub same_state : JobSpyState → JobSpyState → Bool
same_state s t = code s == code t

pub record SpyJob (T : Type 0) : Type 0 where
  pub id : String
  pub name : String
  pub job_data : T
  pub state : JobSpyState
  pub output : Option String

-- A waiter: whom it waits for, and its promise. A falsy specificId is `none`.
pub record SpyPromise (T : Type 0) : Type 0 where
  pub specific_id : Option String
  pub data_selector : T → Bool
  pub awaited_state : JobSpyState
  pub promise : ℕ

pub record Spy (T : Type 0) : Type 0 where
  pub job_results : List (SpyJob T)
  pub pending_promises : List (SpyPromise T)

abbrev pub is_id : Option String → String → Bool
is_id none id = true
is_id (some s) id = str_eq id s

module _ {T : Type 0} where
  -- job.state === awaitedState && selector(job)
  abbrev pub fits : SpyPromise T → SpyJob T → Bool
  fits p job =
      same_state job.state p.awaited_state
      && (is_id p.specific_id job.id && p.data_selector job.job_data)

  unfoldable pub find_fit : SpyPromise T → List (SpyJob T) → Option (SpyJob T)
  find_fit p [] = none
  find_fit p (job ∷ jobs) = if fits p job then some job else find_fit p jobs

  unfoldable pub clear : Spy T → Spy T
  clear s = record { job_results = []; pending_promises = [] }

  -- waitForJob: the job that the promise resolves with at once, or a new pending promise.
  abbrev pub register : SpyPromise T → Spy T → Option (SpyJob T) → Spy T × Option (SpyJob T)
  register p s (some job) = (s, some job)
  register p s none = (record s { pending_promises = s.pending_promises ++ p ∷ [] }, none)

  unfoldable pub wait_for_job : SpyPromise T → Spy T → Spy T × Option (SpyJob T)
  unfolding find_fit
  wait_for_job p s = register p s (find_fit p s.job_results)

  -- Map.set: a key keeps its place.
  unfoldable pub set_result : SpyJob T → List (SpyJob T) → List (SpyJob T)
  set_result job [] = job ∷ []
  set_result job (j ∷ js) =
      if str_eq j.id job.id && same_state j.state job.state then job ∷ js else j ∷ set_result job js

  -- addJob: the new state, and the promises that resolve with the job, oldest first.
  unfoldable pub add_job : SpyJob T → Spy T → Spy T × List ℕ
  unfolding set_result
  add_job job s = (
    record {
      job_results = set_result job s.job_results;
      pending_promises = reject (λ p. fits p job) s.pending_promises;
    },
    map (λ p. p.promise) (select (λ p. fits p job) s.pending_promises),
  )

  -- No promise is left pending that a recorded job could resolve.
  abbrev pub NoneMissed : Spy T → Type 0
  NoneMissed s = All (λ p. All (λ job. fits p job ≡ false) s.job_results) s.pending_promises

  set_result-All :
      (P : SpyJob T → Type 0) (job : SpyJob T) (js : List (SpyJob T))
      → P job
      → All P js
      → All P (set_result job js)
  unfolding set_result
  set_result-All P job [] p a = (p, tt)
  set_result-All P job (j ∷ js) p a =
      elim (Bool-cases (str_eq j.id job.id && same_state j.state job.state)) [
        | inl e ↦ rw e (p, a.1)
        | inr e ↦ rw e (a.0, set_result-All P job js p a.1)
      ]

  kept :
      (job : SpyJob T) (results : List (SpyJob T)) (ps : List (SpyPromise T))
      → All (λ p. All (λ j. fits p j ≡ false) results) ps
      → All
          (λ p. All (λ j. fits p j ≡ false) (set_result job results))
          (reject (λ p. fits p job) ps)
  kept job results [] a = tt
  kept job results (p ∷ ps) a = elim (Bool-cases (fits p job)) [
    | inl e ↦ rw e (kept job results ps a.1)
    | inr e ↦
        rw e (set_result-All (λ j. fits p j ≡ false) job results e a.0, kept job results ps a.1)
  ]

  -- addJob keeps it so that no pending promise fits a recorded job.
  pub add_job-NoneMissed :
      (job : SpyJob T) (s : Spy T) → NoneMissed s → NoneMissed (add_job job s).0
  unfolding add_job
  add_job-NoneMissed job s a = kept job s.job_results s.pending_promises a

  -- What a call that found `r` among the recorded jobs may claim.
  abbrev pub Resolves : SpyPromise T → List (SpyJob T) → Option (SpyJob T) → Type 0
  Resolves p js none = All (λ j. fits p j ≡ false) js
  Resolves p js (some job) = fits p job ≡ true

  find_fit-Resolves : (p : SpyPromise T) (js : List (SpyJob T)) → Resolves p js (find_fit p js)
  unfolding find_fit
  find_fit-Resolves p [] = tt
  find_fit-Resolves p (j ∷ js) = elim (Bool-cases (fits p j)) [
    | inl e ↦ rw e e
    | inr e ↦ rw e (missed (find_fit p js) e (find_fit-Resolves p js))
  ]
    where
      missed : (r : Option (SpyJob T)) → fits p j ≡ false → Resolves p js r → Resolves p (j ∷ js) r
      missed none e h = (e, h)
      missed (some job) e h = h

  All-snoc :
      (P : SpyPromise T → Type 0) (ps : List (SpyPromise T)) (p : SpyPromise T)
      → All P ps
      → P p
      → All P (ps ++ p ∷ [])
  All-snoc P [] p a h = (h, tt)
  All-snoc P (x ∷ xs) p a h = (a.0, All-snoc P xs p a.1 h)

  -- Where no pending promise fits a recorded job, waiting keeps it so; and it resolves at once with a
  -- job that the promise fits, or no recorded job could have resolved it.
  pub wait_for_job-NoneMissed :
      (p : SpyPromise T) (s : Spy T)
      → NoneMissed s
      → NoneMissed (wait_for_job p s).0 × Resolves p s.job_results (wait_for_job p s).1
  unfolding wait_for_job
  wait_for_job-NoneMissed p s a =
      by_fit (find_fit p s.job_results) (find_fit-Resolves p s.job_results)
    where
      by_fit :
          (r : Option (SpyJob T))
          → Resolves p s.job_results r
          → NoneMissed (register p s r).0 × Resolves p s.job_results (register p s r).1
      by_fit none h = (All-snoc _ s.pending_promises p a h, h)
      by_fit (some job) h = (a, h)
