-- ===== src/Work/Process/Heartbeat.antt =====
-- How often the jobs of a batch are touched, and how long their handler has: src/manager.ts (processJobs).
use bun_boss.Base.{ℕ, ◌*◌, ◌/◌, ◌≤◌, ◌<◌, ◌≡◌, List, [], ◌∷◌, Option, none, some, All, arith}
use bun_boss.Job.{Job}
use bun_boss.Work.Process.{max_expiration, least_set, seconds_of, batch_heartbeat, refresh_ms}

-- A job without a heartbeat, or with one that is no less than this.
abbrev pub Reaches : ℕ → Job → Type 0
Reaches s j = 0 < seconds_of j.heartbeat_seconds → (0 < s) × (s ≤ seconds_of j.heartbeat_seconds)

module _ (s r : ℕ) (step : 0 < r → (0 < s) × (s ≤ r)) where
  lower-Reaches : (jobs : List Job) → All (Reaches r) jobs → All (Reaches s) jobs
  lower-Reaches [] a = tt
  lower-Reaches (j ∷ jobs) a = (
    (λ k. let (p, q) = a.0 k in let (x, y) = step p in (x, omega (arith, q, y))),
    lower-Reaches jobs a.1,
  )

batch_heartbeat-Reaches : (jobs : List Job) → All (Reaches (batch_heartbeat jobs)) jobs
unfolding batch_heartbeat
batch_heartbeat-Reaches [] = tt
batch_heartbeat-Reaches (j ∷ jobs) = (
  (λ h. ground arith),
  lower-Reaches (least_set (seconds_of j.heartbeat_seconds) (batch_heartbeat jobs))
      (batch_heartbeat jobs) (λ h. ground arith) jobs (batch_heartbeat-Reaches jobs),
)

-- Touched in time: twice within each heartbeat.
abbrev pub TouchedTwice : Option ℕ → Job → Type 0
TouchedTwice interval j =
    0 < seconds_of j.heartbeat_seconds
    → (ms : ℕ) × (interval ≡ some ms) × (ms * 2 ≤ seconds_of j.heartbeat_seconds * 1000)

half : (n : ℕ) → n * 1000 / 2 * 2 ≡ n * 1000
half n = omega arith

touched :
    (jobs ks : List Job)
    → All (Reaches (batch_heartbeat jobs)) ks
    → All (TouchedTwice (refresh_ms none jobs)) ks
unfolding refresh_ms
touched jobs [] a = tt
touched jobs (j ∷ ks) a = (
  (λ h.
      let (positive, le) = a.0 h in
      (
        batch_heartbeat jobs * 1000 / 2,
        ground (arith, positive),
        omega (arith, le, half (batch_heartbeat jobs)),
      )),
  touched jobs ks a.1,
)

-- Where the interval of the touches is left to the batch, each job of it that has a heartbeat, also
-- among jobs with other heartbeats and with none, is touched at least twice in the time of its own.
pub refresh_ms-TouchedTwice : (jobs : List Job) → All (TouchedTwice (refresh_ms none jobs)) jobs
refresh_ms-TouchedTwice jobs = touched jobs jobs (batch_heartbeat-Reaches jobs)

-- The handler has the time of the job that expires last.
within :
    (jobs : List Job) (seconds : ℕ)
    → max_expiration jobs ≤ seconds
    → All (λ j. j.expire_seconds ≤ seconds) jobs
unfolding max_expiration
within [] s h = tt
within (j ∷ jobs) s h = (ground arith, within jobs s (ground arith))

pub max_expiration-le : (jobs : List Job) → All (λ j. j.expire_seconds ≤ max_expiration jobs) jobs
max_expiration-le jobs = within jobs (max_expiration jobs) (omega arith)
