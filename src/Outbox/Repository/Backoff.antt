-- ===== src/Outbox/Repository/Backoff.antt =====
-- The delays between attempts.
use native.Mathlib.Nat.{pow-suc}
use ecommerce_commons.Prelude.{ℕ, zero, suc, ◌*◌, ◌^◌, ◌≤◌, min, ◌≡◌, arith}
use ecommerce_commons.Outbox.Repository.{backoff}

pow-pos : (n : ℕ) → 1 ≤ 2 ^ n
pow-pos zero = omega arith
pow-pos (suc n) = omega (arith, pow-pos n, pow-suc 2 n)

-- A delay is at least 30 s or the maximum, at most the maximum, and does not shrink from one attempt
-- to the next: it doubles until the maximum is reached.
backoff_bounds :
    (max_backoff attempts : ℕ)
    → (min 30000 max_backoff ≤ backoff max_backoff attempts)
      × (backoff max_backoff attempts ≤ max_backoff)
      × (backoff max_backoff (suc attempts) ≡ min (2 * backoff max_backoff attempts) max_backoff)
unfolding backoff
backoff_bounds max_backoff attempts =
    (omega (arith, pow-pos attempts), omega arith, omega (arith, pow-suc 2 attempts))
