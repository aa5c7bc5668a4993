-- ===== src/Consumer/Processor.antt =====
-- pkg/kafka/consumer/processor.go: a handler is run with retries, and a panic becomes an error.
-- `backoff.Retry` of github.com/cenkalti/backoff is a parameter with the laws that its documentation
-- states. The state of a run is the world of the handler and the counters of the closure.
pub mod Calls
pub mod Laws
use Prim.Native.String.{◌++◌ as join}
use ecommerce_commons.Prelude.{
  ℕ, zero, suc, ◌+◌, ◌≤◌, String, Bool, true, false, Option, none, some, ◌≡◌, ◌||◌, ltb, refl,
  arith, if◌then◌else◌,
}
use ecommerce_commons.GoError.{leaf, wrap, error_text}
use ecommerce_commons.Consumer.{
  Error, Failure, skip_message, permanent, panic_error, is_skip, is_permanent,
}
use ecommerce_commons.Consumer.Router.{Event, Reply, returns, panics, Handler}

-- What one call of a retried operation returns: no error, `backoff.Permanent(err)`, or an error.
pub data Attempt : Type 0 where
  succeeded : Attempt
  gave_up : Error → Attempt
  failed : Error → Attempt

-- `backoff.Retry` with `WithMaxRetries` and `WithContext`, on an operation over a state `S`; `ended`
-- is the error of the context, if that is done by the end of the wait that follows an attempt.
pub record Retrier : Type 1 where
  pub retry : {S : Type 0} → (S → Attempt × S) → (S → Option Error) → ℕ → S → Option Error × S
  pub on_success :
      {S : Type 0} (op : S → Attempt × S) (ended : S → Option Error) (n : ℕ) (s : S) {s' : S}
      → op s ≡ (succeeded, s')
      → retry op ended n s ≡ (none, s')
  pub on_permanent :
      {S : Type 0} (op : S → Attempt × S) (ended : S → Option Error) (n : ℕ) (s : S) {s' : S}
      {e : Error}
      → op s ≡ (gave_up e, s')
      → retry op ended n s ≡ (some e, s')
  pub on_context_end :
      {S : Type 0} (op : S → Attempt × S) (ended : S → Option Error) (n : ℕ) (s : S) {s' : S}
      {e c : Error}
      → op s ≡ (failed e, s')
      → ended s' ≡ some c
      → retry op ended n s ≡ (some c, s')
  pub on_exhausted :
      {S : Type 0} (op : S → Attempt × S) (ended : S → Option Error) (s : S) {s' : S} {e : Error}
      → op s ≡ (failed e, s')
      → ended s' ≡ none
      → retry op ended 0 s ≡ (some e, s')
  pub on_failure :
      {S : Type 0} (op : S → Attempt × S) (ended : S → Option Error) (n : ℕ) (s : S) {s' : S}
      {e : Error}
      → op s ≡ (failed e, s')
      → ended s' ≡ none
      → retry op ended (suc n) s ≡ retry op ended n s'

-- The world, the closure's `attempt`, and the messages logged as errors: of panics, and of a failure
-- after the last retry.
pub record Run (W : Type 0) : Type 0 where
  pub world : W
  pub attempt : ℕ
  pub panics_logged : ℕ
  pub failures_logged : ℕ

-- `Error()` of the package's own errors
abbrev pub failure_text : Failure → String
failure_text skip_message = "skip message processing"
failure_text permanent = "permanent error"
failure_text (panic_error panic stack) = join "panic: " panic

module _ {W : Type 0} (handler : Handler W) where
  -- `process`: `%v` of the `panicError` puts its text behind `ErrPermanent`, which alone is wrapped.
  unfoldable pub recovered : Reply → Run W → Option Error × Run W
  recovered (returns e) s = (e, s)
  recovered (panics panic stack) s = (
    some (wrap "" (leaf permanent) (join ": panic: " panic)),
    record s { panics_logged = s.panics_logged + 1 },
  )

  unfoldable pub process : Event → Run W → Option Error × Run W
  unfolding recovered
  process event s =
      let (reply, w) = handler event s.world in recovered reply (record s { world = w })

  -- The closure that `executeWithRetry` retries, after its call of `process`.
  unfoldable pub classify : ℕ → Option Error × Run W → Attempt × Run W
  classify max_retries (none, s) = (succeeded, s)
  classify max_retries (some e, s) = if is_skip e || is_permanent e then (gave_up e, s) else (
    failed e,
    if ltb max_retries s.attempt then record s { failures_logged = s.failures_logged + 1 } else s,
  )

  unfoldable pub operation : ℕ → Event → Run W → Attempt × Run W
  unfolding process classify
  operation max_retries event s =
      classify max_retries (process event (record s { attempt = s.attempt + 1 }))

  -- `executeWithRetry`
  unfoldable pub execute_with_retry :
      Retrier → (W → Option Error) → ℕ → Event → W → Option Error × Run W
  unfolding operation
  execute_with_retry retrier ended max_retries event w =
      retrier.retry (operation max_retries event) (λ s. ended s.world) max_retries
        (record { world = w; attempt = 0; panics_logged = 0; failures_logged = 0 })
