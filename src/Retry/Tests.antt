-- ===== src/Retry/Tests.antt =====
-- Round trips on concrete environments.
use ecommerce_commons.Prelude.{ℕ, zero, suc, ◌≤◌, true, none, some, ◌≡◌, refl, arith, pos}
use ecommerce_commons.GoError.{leaf, is}
use ecommerce_commons.Retry.{
  conn_expired, conn_reset, is_expired, is_retryable_error, Outcome, done, failed, Environment,
  RetryTransport, send, do_request, decide, attempts, fresh, round_trip,
}
use ecommerce_commons.Retry.Bounds.{
  IsNotExpired, IsSettled, Within, round_trip-Within, round_trip_diverges,
}
use ecommerce_commons.Retry.Answers.{IsHonest, round_trip-IsHonest}

-- An expired connection, a reset one, then answers.
abbrev answer : ℕ → Outcome ℕ
answer zero = failed (leaf conn_expired)
answer (suc zero) = failed (leaf conn_reset)
answer (suc (suc n)) = done 200

abbrev flaky : Environment ℕ
flaky = record { respond = answer; get_body = none }

abbrev twice : RetryTransport
twice = record { has_transport = true; max_retries = pos 2 }

reset-IsNotExpired : IsNotExpired {R = ℕ} (failed (leaf conn_reset))
unfolding is_expired is
reset-IsNotExpired = refl

flaky-IsSettled : IsSettled flaky 1
flaky-IsSettled = record { requests = settled; bodies = λ body k e h. cc }
  where
    settled : (k : ℕ) → 1 ≤ k → IsNotExpired (answer k)
    settled zero h = absurd (omega arith)
    settled (suc zero) h = reset-IsNotExpired
    settled (suc (suc k)) h = tt

round_trip-Within_example : Within 5 (round_trip flaky twice 9)
round_trip-Within_example = round_trip-Within flaky twice 1 9 flaky-IsSettled (omega arith)

round_trip-flaky :
    round_trip flaky twice 9 ≡ some (done 200, record { sent = 3; bodies = 0; closed_idle = 0 })
unfolding round_trip attempts do_request send decide is_expired is_retryable_error is
round_trip-flaky = refl

round_trip-IsHonest_example :
    IsHonest flaky twice fresh (done 200) (record { sent = 3; bodies = 0; closed_idle = 0 })
round_trip-IsHonest_example = round_trip-IsHonest flaky twice 9 round_trip-flaky

-- Every connection is expired.
abbrev expiring : Environment ℕ
expiring = record { respond = λ n. failed (leaf conn_expired); get_body = none }

expired : is_expired (leaf conn_expired) ≡ true
unfolding is_expired is
expired = refl

round_trip_diverges_example : round_trip expiring twice 50 ≡ none
round_trip_diverges_example =
    round_trip_diverges expiring twice (leaf conn_expired) 50 (λ k. refl) expired (omega arith)
