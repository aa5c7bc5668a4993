-- ===== src/Interceptors.antt =====
-- pkg/http/connect/interceptor: the interceptors that the server's configuration switches on, around a
-- handler, in the order of the priorities in fxconfig/module.go. The state is the number of permits of
-- the bulkhead's semaphore that are taken, and what the handler changes. A panic is a reply that passes
-- up to the recovery. Logging is left out: the interceptor that logs returns what it is given.
pub mod Guarded
mod Tests
use ecommerce_commons.Prelude.{
  ℕ, suc, ◌-◌, Bool, true, false, not, ◌||◌, ◌&&◌, if◌then◌else◌, pos, lt_int,
}
use ecommerce_commons.ServerConfig.{Config}

-- The codes of connect that the interceptors answer with.
pub data Code : Type 0 where
  unavailable resource_exhausted internal deadline_exceeded invalid_argument : Code

pub data Reply (R : Type 0) : Type 0 where
  response : R → Reply R
  rpc_error : Code → Reply R
  panic : Reply R

-- What the libraries and the clock answer for one request: whether it is no protobuf message or a valid
-- one, whether the limiter allows it, whether a permit is had before the bulkhead's timeout, and whether
-- the deadline has passed once the handler returns.
pub record RequestEnvironment : Type 0 where
  pub is_valid : Bool
  pub allowed : Bool
  pub acquired : Bool
  pub is_late : Bool

abbrev pub UnaryFunc : Type 0 → Type 0 → Type 0
UnaryFunc R W = ℕ × W → Reply R × (ℕ × W)

abbrev pub after_panic : {R : Type 0} → Reply R → Reply R
after_panic (response r) = response r
after_panic (rpc_error c) = rpc_error c
after_panic panic = rpc_error internal

abbrev pub on_time : {R : Type 0} → Bool → Reply R → Reply R
on_time is_late panic = panic
on_time is_late (response r) = if is_late then rpc_error deadline_exceeded else response r
on_time is_late (rpc_error c) = if is_late then rpc_error deadline_exceeded else rpc_error c

module _ {R W : Type 0} where
  -- The handler has no access to the semaphore.
  abbrev pub handled : (W → Reply R × W) → UnaryFunc R W
  handled handler s = ((handler s.1).0, (s.0, (handler s.1).1))

  -- `RecoveryUnaryInterceptor`
  unfoldable pub recovery : UnaryFunc R W → UnaryFunc R W
  recovery next s = (after_panic (next s).0, (next s).1)

  -- `NewValidationInterceptor`
  unfoldable pub validation : Bool → UnaryFunc R W → UnaryFunc R W
  validation is_valid next s = if is_valid then next s else (rpc_error invalid_argument, s)

  -- `NewTimeoutInterceptor`: a response that comes with an error is dropped by connect.
  unfoldable pub timeout : Bool → UnaryFunc R W → UnaryFunc R W
  timeout is_late next s = (on_time is_late (next s).0, (next s).1)

  -- `NewRateLimitInterceptor`
  unfoldable pub rate_limit : Bool → UnaryFunc R W → UnaryFunc R W
  rate_limit allowed next s = if allowed then next s else (rpc_error resource_exhausted, s)

  -- `defer sem.Release(1)`, which a panic runs, too.
  abbrev pub release : Reply R × (ℕ × W) → Reply R × (ℕ × W)
  release p = (p.0, (p.1.0 - 1, p.1.1))

  -- `NewBulkheadInterceptor`
  unfoldable pub bulkhead : Bool → UnaryFunc R W → UnaryFunc R W
  bulkhead acquired next s =
      if acquired then release (next (suc s.0, s.1)) else (rpc_error unavailable, s)

  -- An interceptor that is switched off is no part of the chain.
  abbrev pub when : Bool → (UnaryFunc R W → UnaryFunc R W) → UnaryFunc R W → UnaryFunc R W
  when enabled interceptor next = if enabled then interceptor next else next

  -- The chain: recovery, validation, timeout, rate limit, bulkhead.
  unfoldable pub interceptor_chain : Config → RequestEnvironment → (W → Reply R × W) → UnaryFunc R W
  unfolding recovery validation timeout rate_limit bulkhead
  interceptor_chain cfg env handler = recovery (
      validation env.is_valid (
        when (lt_int (pos 0) cfg.timeout.request_timeout) (timeout env.is_late) (
          when cfg.rate_limit.enabled (rate_limit env.allowed)
            (when cfg.bulkhead.enabled (bulkhead env.acquired) (handled handler)))))
