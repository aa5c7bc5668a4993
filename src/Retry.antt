-- ===== src/Retry.antt =====
-- pkg/http/client/retry.go: the transport that retries a request on transient errors.
-- The transport below it, and the request's `GetBody`, are an environment that answers each call by
-- its number. The loop has no bound of its own, since an expired connection does not count: it takes
-- fuel, and `none` means that the fuel ran out.
mod Bounds
mod Answers
mod Tests
use ecommerce_commons.Prelude.{
  ℕ, zero, suc, ◌+◌, ◌==◌, Bool, true, false, not, ◌||◌, Option, none, some, String, if◌then◌else◌,
  ℤ, pos, negsuc, le_int, lt_int,
}
use ecommerce_commons.GoError.{GoError, is}

-- The errors that the transport tells apart.
pub data NetError : Type 0 where
  conn_expired conn_refused conn_reset net_unreachable eof unexpected_eof broken_pipe net_closed :
      NetError

abbrev index : NetError → ℕ
index conn_expired = 0
index conn_refused = 1
index conn_reset = 2
index net_unreachable = 3
index eof = 4
index unexpected_eof = 5
index broken_pipe = 6
index net_closed = 7

abbrev pub named : NetError → NetError → Bool
named e f = index e == index f

-- `errors.Is(err, ErrConnExpired)`
unfoldable pub is_expired : GoError NetError → Bool
is_expired e = is (named conn_expired) e

-- `isRetryableError`
unfoldable pub is_retryable_error : GoError NetError → Bool
is_retryable_error e =
    is (named conn_refused) e
    || is (named conn_reset) e
    || is (named net_unreachable) e
    || is (named eof) e
    || is (named unexpected_eof) e
    || is (named broken_pipe) e
    || is (named net_closed) e

pub data Outcome (R : Type 0) : Type 0 where
  done : R → Outcome R
  failed : GoError NetError → Outcome R

-- What lies outside: the n-th request sent below, and the n-th call of `GetBody`, if there is one.
pub record Environment (R : Type 0) : Type 0 where
  pub respond : ℕ → Outcome R
  pub get_body : Option (ℕ → Option (GoError NetError))

-- How often each was called, and how often the idle connections were closed.
pub record Trace : Type 0 where
  pub sent : ℕ
  pub bodies : ℕ
  pub closed_idle : ℕ

-- `retryTransport`, with whether `transport` is set.
pub record RetryTransport : Type 0 where
  pub has_transport : Bool
  pub max_retries : ℤ

abbrev pub next : ℤ → ℤ
next (pos n) = pos (n + 1)
next (negsuc zero) = pos 0
next (negsuc (suc n)) = negsuc n

module _ {R : Type 0} (env : Environment R) where
  unfoldable pub send : Trace → Outcome R × Trace
  send t = (env.respond t.sent, record t { sent = t.sent + 1 })

  -- `req.GetBody` set or not, on a retry.
  unfoldable pub send_again : Option (ℕ → Option (GoError NetError)) → Trace → Outcome R × Trace
  unfolding send
  send_again none t = send t
  send_again (some body) t = elim (body t.bodies) [
    | some e ↦ (failed e, record t { bodies = t.bodies + 1 })
    | none ↦ send (record t { bodies = t.bodies + 1 })
  ]

  -- `doRequest`
  unfoldable pub do_request : ℤ → Trace → Outcome R × Trace
  unfolding send send_again
  do_request attempt t = if lt_int (pos 0) attempt then send_again env.get_body t else send t

  -- What follows the loop: fresh connections, and one more attempt.
  unfoldable pub final_attempt : RetryTransport → Trace → Outcome R × Trace
  unfolding do_request
  final_attempt rt t =
      do_request (next rt.max_retries)
        (if rt.has_transport then record t { closed_idle = t.closed_idle + 1 } else t)

  -- What the loop does with an outcome; `again` is the next round, for the attempt that it is.
  unfoldable pub decide :
      Outcome R × Trace → (ℕ → Trace → Option (Outcome R × Trace)) → ℕ → Option (Outcome R × Trace)
  decide (done r, t) again attempt = some (done r, t)
  decide (failed e, t) again attempt = elim (is_expired e) [
    | true ↦ again attempt t
    | false ↦ elim (is_retryable_error e) [
      | false ↦ some (failed e, t)
      | true ↦ again (attempt + 1) t
    ]
  ]

  -- The `for` loop of `RoundTrip`.
  unfoldable pub attempts : RetryTransport → ℕ → ℕ → Trace → Option (Outcome R × Trace)
  attempts rt zero attempt t = none
  attempts rt (suc fuel) attempt t = elim (le_int (pos attempt) rt.max_retries) [
    | true ↦ decide (do_request (pos attempt) t) (attempts rt fuel) attempt
    | false ↦ some (final_attempt rt t)
  ]

abbrev pub fresh : Trace
fresh = record { sent = 0; bodies = 0; closed_idle = 0 }

-- `RoundTrip`
unfoldable pub round_trip :
    {R : Type 0} → Environment R → RetryTransport → ℕ → Option (Outcome R × Trace)
round_trip env rt fuel = attempts env rt fuel 0 fresh
