-- ===== src/Interceptors/Guarded.antt =====
-- Which requests reach the handler, what they are answered, and what is left of the permits.
use ecommerce_commons.Prelude.{
  ℕ, suc, ◌-◌, Bool, true, false, not, ◌||◌, ◌&&◌, if◌then◌else◌, pos, lt_int, ◌≡◌, ◌≢◌, refl,
  arith, ap, ◌∙◌,
}
use ecommerce_commons.ServerConfig.{Config}
use ecommerce_commons.Interceptors.{
  Code, unavailable, resource_exhausted, internal, deadline_exceeded, invalid_argument, Reply,
  response, rpc_error, panic, RequestEnvironment, UnaryFunc, after_panic, handled, recovery,
  validation, on_time, timeout, rate_limit, bulkhead, when, interceptor_chain,
}

-- Whether the request gets to the handler.
abbrev pub reaches : Config → RequestEnvironment → Bool
reaches cfg env =
    env.is_valid
    && ((not cfg.rate_limit.enabled || env.allowed) && (not cfg.bulkhead.enabled || env.acquired))

-- What the interceptors answer to a request that does not reach the handler.
abbrev pub refusal : Config → RequestEnvironment → Code
refusal cfg env =
    if not env.is_valid
    then invalid_argument
    else if lt_int (pos 0) cfg.timeout.request_timeout && env.is_late
    then deadline_exceeded
    else if cfg.rate_limit.enabled && not env.allowed
    then resource_exhausted
    else unavailable

module _ {R W : Type 0} (handler : W → Reply R × W) where
  -- A request in a state, that reaches the handler or is refused with a code.
  abbrev Ends : Bool → Code → UnaryFunc R W → Type 0
  Ends reached code f =
      (s : ℕ × W)
      → ((f s).0 ≡ (if reached then (handler s.1).0 else rpc_error code))
        × ((f s).1 ≡ (if reached then (s.0, (handler s.1).1) else s))

  after_bulkhead :
      (enabled acquired : Bool)
      → Ends
          (not enabled || acquired)
          unavailable
          (when enabled (bulkhead acquired) (handled handler))
  unfolding bulkhead
  after_bulkhead false acquired s = (refl, refl)
  after_bulkhead true true s = (refl, ap (λ n. (n, (handler s.1).1)) (back s.0))
    where
      back : (n : ℕ) → suc n - 1 ≡ n
      back n = omega arith
  after_bulkhead true false s = (refl, refl)

  after_limit :
      (enabled allowed reached : Bool) (code : Code) (next : UnaryFunc R W)
      → Ends reached code next
      → Ends
          ((not enabled || allowed) && reached)
          (if enabled && not allowed then resource_exhausted else code)
          (when enabled (rate_limit allowed) next)
  unfolding rate_limit
  after_limit false allowed reached code next h s = h s
  after_limit true true reached code next h s = h s
  after_limit true false reached code next h s = (refl, refl)

  -- What a client gets of the handler's reply: a panic is an internal error, whenever it comes; all else
  -- that comes too late is a missed deadline.
  abbrev pub client_reply : Bool → Reply R → Reply R
  client_reply is_late panic = rpc_error internal
  client_reply true (response r) = rpc_error deadline_exceeded
  client_reply true (rpc_error c) = rpc_error deadline_exceeded
  client_reply false (response r) = response r
  client_reply false (rpc_error c) = rpc_error c

  client_reply_lem :
      (enabled is_late : Bool) (r : Reply R)
      → after_panic (if enabled then on_time is_late r else r) ≡ client_reply (enabled && is_late) r
  client_reply_lem true is_late panic = refl
  client_reply_lem true true (response r) = refl
  client_reply_lem true true (rpc_error c) = refl
  client_reply_lem true false (response r) = refl
  client_reply_lem true false (rpc_error c) = refl
  client_reply_lem false is_late panic = refl
  client_reply_lem false is_late (response r) = refl
  client_reply_lem false is_late (rpc_error c) = refl

  -- The reply of the whole chain.
  abbrev pub answered : Bool → Bool → Code → W → Reply R
  answered reached is_late code w =
      if reached then client_reply is_late (handler w).0 else rpc_error code

  after_timeout :
      (enabled is_late reached : Bool) (code : Code) (next : UnaryFunc R W) (s : ℕ × W)
      → Ends reached code next
      → (after_panic (when enabled (timeout is_late) next s).0
          ≡ answered reached
              (enabled && is_late)
              (if enabled && is_late then deadline_exceeded else code)
              s.1)
        × ((when enabled (timeout is_late) next s).1
            ≡ (if reached then (s.0, (handler s.1).1) else s))
  unfolding timeout
  after_timeout true is_late true code next s h = (
    ap (λ r. after_panic (on_time is_late r)) (h s).0
        ∙ client_reply_lem true is_late (handler s.1).0,
    (h s).1,
  )
  after_timeout true true false code next s h =
      (ap (λ r. after_panic (on_time true r)) (h s).0, (h s).1)
  after_timeout true false false code next s h =
      (ap (λ r. after_panic (on_time false r)) (h s).0, (h s).1)
  after_timeout false is_late true code next s h =
      (ap after_panic (h s).0 ∙ client_reply_lem false is_late (handler s.1).0, (h s).1)
  after_timeout false is_late false code next s h = (ap after_panic (h s).0, (h s).1)

  after_panic_lem : (r : Reply R) → after_panic r ≢ panic
  after_panic_lem (response r) e = ground arith
  after_panic_lem (rpc_error c) e = ground arith
  after_panic_lem panic e = ground arith

  -- For every configuration, request and handler, and whatever the validator, the limiter, the
  -- semaphore and the clock answer: the handler is run exactly if the message is valid and those of the
  -- limiter and the bulkhead that are switched on let it pass; then its panic is answered with an
  -- internal error, a response or an error after the deadline, if requests have a timeout, with a missed
  -- deadline, and else its own reply is; a request that is refused gets the code of the interceptor that
  -- refuses it, or of the missed deadline; the permits are as before, a panic of the handler included;
  -- and no panic leaves the chain.
  pub interceptor_chain_lem :
      (cfg : Config) (env : RequestEnvironment) (s : ℕ × W)
      → ((interceptor_chain cfg env handler s).0
          ≡ answered
              (reaches cfg env)
              (lt_int (pos 0) cfg.timeout.request_timeout && env.is_late)
              (refusal cfg env)
              s.1)
        × ((interceptor_chain cfg env handler s).1
            ≡ (if reaches cfg env then (s.0, (handler s.1).1) else s))
        × ((interceptor_chain cfg env handler s).0 ≢ panic)
  unfolding interceptor_chain recovery validation
  interceptor_chain_lem cfg env s =
      let whole = by_validity env.is_valid in
      (
        whole.0,
        whole.1,
        after_panic_lem (validation env.is_valid (when enabled (timeout env.is_late) inner) s).0,
      )
    where
      enabled : Bool
      enabled = lt_int (pos 0) cfg.timeout.request_timeout

      limited : Bool
      limited =
          (not cfg.rate_limit.enabled || env.allowed) && (not cfg.bulkhead.enabled || env.acquired)

      inner : UnaryFunc R W
      inner =
          when cfg.rate_limit.enabled (rate_limit env.allowed)
            (when cfg.bulkhead.enabled (bulkhead env.acquired) (handled handler))

      code : Code
      code = if cfg.rate_limit.enabled && not env.allowed then resource_exhausted else unavailable

      by_validity :
          (v : Bool)
          → (after_panic (validation v (when enabled (timeout env.is_late) inner) s).0
              ≡ answered
                  (v && limited)
                  (enabled && env.is_late)
                  (if not v
                    then invalid_argument
                    else if enabled && env.is_late
                    then deadline_exceeded
                    else code)
                  s.1)
            × ((validation v (when enabled (timeout env.is_late) inner) s).1
                ≡ (if v && limited then (s.0, (handler s.1).1) else s))
      by_validity true = after_timeout enabled env.is_late limited code inner s (
          after_limit cfg.rate_limit.enabled env.allowed (not cfg.bulkhead.enabled || env.acquired)
            unavailable _ (after_bulkhead cfg.bulkhead.enabled env.acquired))
      by_validity false = (refl, refl)
