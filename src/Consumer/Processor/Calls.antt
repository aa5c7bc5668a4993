-- ===== src/Consumer/Processor/Calls.antt =====
-- How often a handler is called for an event, and what comes of it.
use Prim.Native.String.{◌++◌ as join}
use ecommerce_commons.Prelude.{
  ℕ, zero, suc, ◌+◌, ◌≤◌, String, true, false, Option, none, some, ◌≡◌, ◌||◌, ◌⊎◌, inl, inr, ltb,
  refl, sym, arith, if◌then◌else◌,
}
use ecommerce_commons.GoError.{leaf, wrap, is}
use ecommerce_commons.Consumer.{Error, permanent, is_skip, is_permanent, panic_stack}
use ecommerce_commons.Consumer.Router.{Event, Reply, returns, panics, Handler}
use ecommerce_commons.Consumer.Processor.{
  Attempt, succeeded, gave_up, failed, Retrier, Run, recovered, process, classify, operation,
  execute_with_retry,
}
use ecommerce_commons.Consumer.Processor.Laws.{Rule, retry_ind}

module _ {W : Type 0} (handler : Handler W) (event : Event) (max : ℕ) where
  -- One attempt counts one call, and logs at most one failure, after the last retry only.
  operation-attempt : (s : Run W) → (operation handler max event s).1.attempt ≡ s.attempt + 1
  unfolding operation
  operation-attempt s = ground arith

  abbrev op : Run W → Attempt × Run W
  op = operation handler max event

  abbrev CallsOf : ℕ → Run W → Option Error × Run W → Type 0
  CallsOf n s r = (s.attempt + 1 ≤ r.1.attempt) × (r.1.attempt ≤ s.attempt + n + 1)

  after : {a : Attempt} (s s' : Run W) → op s ≡ (a, s') → s'.attempt ≡ s.attempt + 1
  after s s' e = ground (arith, operation-attempt s)

  calls_rule : Rule op CallsOf
  calls_rule = record {
    success = λ n s s' e. omega (arith, after s s' e);
    giving_up = λ n s s' x e. omega (arith, after s s' e);
    context_end = λ n s s' x c e. omega (arith, after s s' e);
    exhausted = λ s s' x e. omega (arith, after s s' e);
    again = λ n s s' x r e h. omega (arith, after s s' e);
  }

-- The handler is called at least once for an event, and at most `max_retries` + 1 times, whatever it
-- does and however the context ends.
execute_calls :
    (retrier : Retrier) {W : Type 0} (handler : Handler W) (ended : W → Option Error) (max : ℕ)
    (event : Event) (w : W)
    → let run = (execute_with_retry handler retrier ended max event w).1 in
      (1 ≤ run.attempt) × (run.attempt ≤ max + 1)
unfolding execute_with_retry
execute_calls retrier handler ended max event w =
    let start : Run _ = record { world = w; attempt = 0; panics_logged = 0; failures_logged = 0 } in
    let h =
      retry_ind retrier (operation handler max event) (λ s. ended s.world)
        (calls_rule handler event max) max start in
    omega arith

-- The error that `process` returns for a reply: a panic becomes a permanent error.
abbrev pub verdict : Reply → Option Error
verdict (returns e) = e
verdict (panics panic stack) = some (wrap "" (leaf permanent) (join ": panic: " panic))

-- No retry follows such a verdict.
abbrev pub IsSettled : Option Error → Type 0
IsSettled none = Unit
IsSettled (some e) = (is_skip e || is_permanent e) ≡ true

-- A panic is a permanent error, and it is settled.
pub panic-IsSettled : (panic stack : String) → IsSettled (verdict (panics panic stack))
unfolding is_skip is_permanent is
panic-IsSettled panic stack = refl

-- One attempt whose verdict is settled.
settled-attempt :
    {W : Type 0} (handler : Handler W) (max : ℕ) (reply : Reply) (s : Run W)
    → IsSettled (verdict reply)
    → (s' : Run W) × (s'.attempt ≡ s.attempt)
      × (s'.world ≡ s.world)
      × ((classify handler max (recovered handler reply s) ≡ (succeeded, s'))
            × (verdict reply ≡ none)
          ⊎ ((e : Error) × (classify handler max (recovered handler reply s) ≡ (gave_up e, s'))
              × (verdict reply ≡ some e)))
unfolding classify recovered is_skip is_permanent
settled-attempt handler max (returns none) s h = (s, refl, refl, inl (refl, refl))
settled-attempt handler max (returns (some e)) s h = (s, refl, refl, inr (e, rw h, refl))
settled-attempt handler max (panics p st) s h =
    (record s { panics_logged = s.panics_logged + 1 }, refl, refl, inr (_, refl, refl))

module _ (retrier : Retrier) {W : Type 0} (handler : Handler W) (ended : W → Option Error) (max : ℕ)
    (event : Event) where
  -- A first reply that is settled (no error, a skip, a permanent error, a panic) is the only one: its
  -- verdict is the result, and the world is as that call left it.
  pub execute_once :
      (w : W)
      → IsSettled (verdict (handler event w).0)
      → let r = execute_with_retry handler retrier ended max event w in
        (r.0 ≡ verdict (handler event w).0) × (r.1.attempt ≡ 1) × (r.1.world ≡ (handler event w).1)
  unfolding execute_with_retry operation process
  execute_once w settled =
      let start : Run W = record {
        world = w;
        attempt = 0;
        panics_logged = 0;
        failures_logged = 0;
      } in
      let first : Run W = record {
        world = (handler event w).1;
        attempt = 1;
        panics_logged = 0;
        failures_logged = 0;
      } in
      let (s', a, b, ends) = settled-attempt handler max (handler event w).0 first settled in
      elim ends [
        | inl (e, v) ↦
            rw (retrier.on_success (operation handler max event) (λ s. ended s.world) max start e)
              (sym v, a, b)
        | inr (x, e, v) ↦
            rw (retrier.on_permanent (operation handler max event) (λ s. ended s.world) max start e)
              (sym v, a, b)
      ]

  module _ (x : Error) (all : (w : W) → (handler event w).0 ≡ returns (some x))
      (transient : (is_skip x || is_permanent x) ≡ false) (never : (w : W) → ended w ≡ none) where
    abbrev called : Run W → Run W
    called s = record s { world = (handler event s.world).1; attempt = s.attempt + 1 }

    abbrev failing : Run W → Run W
    failing s =
        let s' = called s in
        if ltb max s'.attempt then record s' { failures_logged = s'.failures_logged + 1 } else s'

    operation-fails : (s : Run W) → operation handler max event s ≡ (failed x, failing s)
    unfolding operation process recovered classify
    operation-fails s = rw (all s.world, transient)

    failing-facts :
        (s : Run W)
        → ((failing s).attempt ≡ s.attempt + 1)
          × ((failing s).failures_logged
              ≡ (if ltb max (s.attempt + 1) then s.failures_logged + 1 else s.failures_logged))
    failing-facts s = ground arith

    retry-exhausts :
        (n : ℕ) (s : Run W)
        → s.attempt + n ≡ max
        → s.failures_logged ≡ 0
        → let r = retrier.retry (operation handler max event) (λ s. ended s.world) n s in
          (r.0 ≡ some x) × (r.1.attempt ≡ max + 1) × (r.1.failures_logged ≡ 1)
    retry-exhausts zero s h g =
        let facts = failing-facts s in
        rw
          (retrier.on_exhausted (operation handler max event) (λ s. ended s.world) s
            (operation-fails s) (never _))
          (refl, omega arith, ground arith)
    retry-exhausts (suc n) s h g =
        let facts = failing-facts s in
        rw
          (retrier.on_failure (operation handler max event) (λ s. ended s.world) n s
            (operation-fails s) (never _))
          (retry-exhausts n (failing s) (omega arith) (ground arith))

    -- A handler that always fails with an error that is neither a skip nor permanent is called exactly
    -- `max_retries` + 1 times while the context lasts; that error is the result, and it is logged as
    -- an error once.
    pub execute_exhausts :
        (w : W)
        → let r = execute_with_retry handler retrier ended max event w in
          (r.0 ≡ some x) × (r.1.attempt ≡ max + 1) × (r.1.failures_logged ≡ 1)
    unfolding execute_with_retry
    execute_exhausts w =
        retry-exhausts max
          (record { world = w; attempt = 0; panics_logged = 0; failures_logged = 0 }) (omega arith)
          refl

abbrev pub HidesPanic : Option Error → Type 0
HidesPanic none = ⊥
HidesPanic (some e) = (is_permanent e ≡ true) × (panic_stack e ≡ none)

module _ (retrier : Retrier) {W : Type 0} (handler : Handler W) (ended : W → Option Error) (max : ℕ)
    (event : Event) where
  -- If the handler panics on its first call, the result is a permanent error that hides the panic:
  -- `errors.As` finds no `panicError` in it, so no stack is found for it.
  execute_panic_hidden :
      (w : W) (panic stack : String)
      → (handler event w).0 ≡ panics panic stack
      → HidesPanic (execute_with_retry handler retrier ended max event w).0
  unfolding is_permanent panic_stack
  execute_panic_hidden w panic stack e =
      let settled : IsSettled (verdict (handler event w).0) = rw e (panic-IsSettled panic stack) in
      let (result, _, _) = execute_once retrier handler ended max event w settled in
      rw (result, e) (refl, refl)
