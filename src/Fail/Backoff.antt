-- ===== src/Fail/Backoff.antt =====
-- How long a failed job waits before its next attempt.
use bun_boss.Base.{
  ℕ, suc, zero, ◌+◌, ◌*◌, ◌/◌, ◌^◌, ◌≤◌, ◌<◌, ◌≡◌, refl, min, max, none, some, arith,
}
use bun_boss.Fail.{backoff_ms}
use native.Mathlib.Nat.{pow-suc}

half_of_pow : (k : ℕ) → 2 ^ suc k / 2 ≡ 2 ^ k
half_of_pow k = omega (arith, pow-suc 2 k)

pow_pos : (k : ℕ) → 0 < 2 ^ k
pow_pos zero = omega arith
pow_pos (suc k) = omega (arith, pow-suc 2 k, pow_pos k)

spread :
    (m h r : ℕ)
    → 0 < m
    → 0 < h
    → r < 1000
    → (m * (h * 1000) ≤ m * (h * 1000 + h * r)) × (m * (h * 1000 + h * r) < m * (h * 2000))
spread m h r pm ph lt =
    let product : 0 < m * h = grind arith in
    let top : m * h * r ≤ m * h * 999 = grind arith in (omega arith, omega arith)

-- With backoff and no cap, a failed job waits between 2^k and 2 * 2^k seconds, times its retry
-- delay (at least 1), where k is its retry count, or 15 if that is less. (`random` is the value of
-- random() in thousandths.)
pub backoff_ms_bounds :
    (retry_delay retry_count random : ℕ)
    → random < 1000
    → let half = 2 ^ min 15 retry_count in
      let d = backoff_ms retry_delay retry_count none random in
      (max retry_delay 1 * (half * 1000) ≤ d) × (d < max retry_delay 1 * (half * 2000))
unfolding backoff_ms
backoff_ms_bounds delay count random h =
    let e : min 16 (count + 1) ≡ suc (min 15 count) = omega arith in
    rw (e, half_of_pow (min 15 count))
      (spread (max delay 1) (2 ^ min 15 count) random (omega arith) (pow_pos (min 15 count)) h)

-- A cap is never exceeded, a cap of 0 included, and a wait below the cap is not changed by it.
pub backoff_ms_capped :
    (retry_delay retry_count cap random : ℕ)
    → backoff_ms retry_delay retry_count (some cap) random
      ≡ min (cap * 1000) (backoff_ms retry_delay retry_count none random)
unfolding backoff_ms
backoff_ms_capped delay count cap random = refl
