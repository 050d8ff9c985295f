-- ===== src/Notify/Worker/Backoff.antt =====
-- The backoff of a delivery (`backoffFor`, internal/server/notify/worker.go).
use diyddns.Prelude.{ℕ, ◌+◌, ◌-◌, ◌*◌, ◌^◌, ◌≤◌, ◌<◌, arith}
use native.Mathlib.Nat.{one-le-pow, pow-le-pow_right}
use diyddns.Notify.Worker.{backoff_for, delay_for}

-- The factor is from 0.9 to 1.1.
abbrev pub Jitter : (ℕ → ℕ) → Type 0
Jitter jittered = (n : ℕ) → (9 * n ≤ 10 * jittered n) × (10 * jittered n ≤ 11 * n)

pow_bounds : (k : ℕ) → k ≤ 14 → (1 ≤ 2 ^ k) × (2 ^ k ≤ 16384)
pow_bounds k h = (
  one-le-pow k 2 (omega arith),
  omega (arith, pow-le-pow_right {n = 2} (omega arith) {i = k} {j = 14} h),
)

-- With the jitter from 0.9 to 1.1, and after any number of attempts that the configuration lets be
-- followed by another, 1 to 15: no product passes an int64, so the delay is no wrapped negative one,
-- and the next attempt is at least 13 seconds away, and at most 16 minutes.
pub delay_for-bounds :
    (jittered : ℕ → ℕ) (attempts : ℕ)
    → Jitter jittered
    → 1 ≤ attempts
    → attempts ≤ 15
    → (15000000000 * 2 ^ (attempts + 1 - 2) < 2 ^ 63)
      × (jittered (15000000000 * 2 ^ (attempts + 1 - 2)) < 2 ^ 63)
      × (13 ≤ delay_for jittered attempts)
      × (delay_for jittered attempts ≤ 960)
unfolding backoff_for
delay_for-bounds jittered attempts j p q =
    let (lo, hi) = pow_bounds (attempts + 1 - 2) (omega (arith, q)) in
    let (a, b) = j (15000000000 * 2 ^ (attempts + 1 - 2)) in ground (arith, lo, hi, a, b)
