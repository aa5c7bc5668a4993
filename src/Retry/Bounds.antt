-- ===== src/Retry/Bounds.antt =====
-- How many requests a `RoundTrip` sends, and when it ends.
use native.Mathlib.Decide.{dec_le}
use ecommerce_commons.Prelude.{
  ℕ, zero, suc, ◌+◌, ◌-◌, ◌≤◌, ◌<◌, Bool, true, false, Option, none, some, ◌≡◌, refl, arith, pos, ℤ,
  pos_part, neg_part, le_int, if◌then◌else◌,
}
use ecommerce_commons.GoError.{GoError}
use ecommerce_commons.Retry.{
  NetError, is_expired, is_retryable_error, Outcome, done, failed, Environment, Trace,
  RetryTransport, next, send, send_again, do_request, final_attempt, decide, attempts, fresh,
  round_trip,
}

-- What an outcome must not be, for the loop to come closer to its end.
abbrev pub IsNotExpired : {R : Type 0} → Outcome R → Type 0
IsNotExpired (done r) = Unit
IsNotExpired (failed e) = is_expired e ≡ false

-- From the n-th request on no connection is expired, and `GetBody` never fails in that way.
pub record IsSettled {R : Type 0} (env : Environment R) (n : ℕ) : Type 0 where
  pub requests : (k : ℕ) → n ≤ k → IsNotExpired (env.respond k)
  pub bodies :
      (body : ℕ → Option (GoError NetError)) (k : ℕ) (e : GoError NetError)
      → env.get_body ≡ some body
      → body k ≡ some e
      → is_expired e ≡ false

module _ {R : Type 0} (env : Environment R) where
  -- A call of `doRequest` sends the next request, or fails before it sends one.
  pub data Asked (t : Trace) : Outcome R × Trace → Type 0 where
    sent :
        (t' : Trace)
        → t'.sent ≡ t.sent + 1
        → t'.closed_idle ≡ t.closed_idle
        → Asked t (env.respond t.sent, t')
    no_body :
        (t' : Trace) (body : ℕ → Option (GoError NetError)) (k : ℕ) (e : GoError NetError)
        → env.get_body ≡ some body
        → body k ≡ some e
        → t'.sent ≡ t.sent
        → t'.closed_idle ≡ t.closed_idle
        → Asked t (failed e, t')

  send_again-Asked :
      (b : Option (ℕ → Option (GoError NetError))) (t : Trace)
      → env.get_body ≡ b
      → Asked t (send_again env b t)
  unfolding send_again
  send_again-Asked none t h = sent _ refl refl
  send_again-Asked (some body) t h = go (body t.bodies) refl
    where
      t' : Trace
      t' = record t { bodies = t.bodies + 1 }

      go :
          (o : Option (GoError NetError))
          → body t.bodies ≡ o
          → Asked t (elim o [ some e ↦ (failed e, t') | none ↦ send env t' ])
      go (some e) g = no_body t' body t.bodies e h g refl refl
      go none g = sent _ refl refl

  pub do_request-Asked : (attempt : ℤ) (t : Trace) → Asked t (do_request env attempt t)
  unfolding do_request
  do_request-Asked attempt t = go _
    where
      go : (b : Bool) → Asked t (if b then send_again env env.get_body t else send env t)
      go true = send_again-Asked env.get_body t refl
      go false = sent _ refl refl

-- The attempts that count: `max_retries + 1`, or none if that is negative.
abbrev pub rounds : RetryTransport → ℕ
rounds rt = pos_part rt.max_retries + 1 - neg_part rt.max_retries

-- The loop ended, with at most so many requests sent.
abbrev pub Within : {R : Type 0} → ℕ → Option (Outcome R × Trace) → Type 0
Within b none = ⊥
Within b (some (o, t)) = t.sent ≤ b

module _ {R : Type 0} (env : Environment R) (rt : RetryTransport) (n b : ℕ)
    (settled : IsSettled env n) where
  abbrev Rest : ℕ → Type 0
  Rest fuel =
      (attempt : ℕ) (t : Trace)
      → (n - t.sent) + (rounds rt - attempt) < fuel
      → t.sent + (n - t.sent) + (rounds rt - attempt) + 1 ≤ b
      → Within b (attempts env rt fuel attempt t)

  final-Within : (t : Trace) → t.sent + 1 ≤ b → Within b (some (final_attempt env rt t))
  unfolding final_attempt
  final-Within t h = go rt.has_transport
    where
      start : Bool → Trace
      start c = if c then record t { closed_idle = t.closed_idle + 1 } else t

      same : (c : Bool) → (start c).sent ≡ t.sent
      same true = refl
      same false = refl

      asked : (t : Trace) (p : Outcome R × Trace) → Asked env t p → t.sent + 1 ≤ b → p.1.sent ≤ b
      asked t p (sent t' e _) g = omega arith
      asked t p (no_body t' _ _ _ _ _ e _) g = omega arith

      go : (c : Bool) → (do_request env (next rt.max_retries) (start c)).1.sent ≤ b
      go c =
          asked (start c) _ (do_request-Asked env (next rt.max_retries) (start c))
            (omega (arith, same c))

  failed-Within :
      (fuel attempt : ℕ) (t : Trace) (e : GoError NetError)
      → t.sent ≤ b
      → (is_expired e ≡ true → Within b (attempts env rt fuel attempt t))
      → Within b (attempts env rt fuel (attempt + 1) t)
      → Within b (decide env (failed e, t) (attempts env rt fuel) attempt)
  unfolding decide
  failed-Within fuel attempt t e low expired again = go (is_expired e) refl (is_retryable_error e)
    where
      go :
          (x : Bool)
          → is_expired e ≡ x
          → (y : Bool)
          → Within b (elim x [
            | true ↦ attempts env rt fuel attempt t
            | false ↦ elim y [
              | false ↦ some (failed e, t)
              | true ↦ attempts env rt fuel (attempt + 1) t
            ]
          ])
      go true h y = expired h
      go false h true = again
      go false h false = low

  answered-Within :
      (fuel attempt : ℕ) (t t' : Trace) (o : Outcome R)
      → Rest fuel
      → t'.sent ≡ t.sent + 1
      → (n ≤ t.sent → IsNotExpired o)
      → attempt < rounds rt
      → (n - t.sent) + (rounds rt - attempt) < suc fuel
      → t.sent + (n - t.sent) + (rounds rt - attempt) + 1 ≤ b
      → Within b (decide env (o, t') (attempts env rt fuel) attempt)
  answered-Within fuel attempt t t' (done r) rest e fine more h g = unfold decide in omega arith
  answered-Within fuel attempt t t' (failed x) rest e fine more h g =
      failed-Within fuel attempt t' x (omega arith)
        (λ ex.
          let early : t.sent < n = early_of (fine) ex in
          rest attempt t' (omega arith) (omega arith))
        (rest (attempt + 1) t' (omega arith) (omega arith))
    where
      early_of : (n ≤ t.sent → is_expired x ≡ false) → is_expired x ≡ true → t.sent < n
      early_of f ex = elim (dec_le n t.sent) [ yes l ↦ cc (f l) | no l ↦ omega arith ]

  asked-Within :
      (fuel attempt : ℕ) (t : Trace) (p : Outcome R × Trace)
      → Rest fuel
      → Asked env t p
      → attempt < rounds rt
      → (n - t.sent) + (rounds rt - attempt) < suc fuel
      → t.sent + (n - t.sent) + (rounds rt - attempt) + 1 ≤ b
      → Within b (decide env p (attempts env rt fuel) attempt)
  asked-Within fuel attempt t p rest (sent t' e _) more h g =
      answered-Within fuel attempt t t' (env.respond t.sent) rest e (settled.requests t.sent) more h
        g
  asked-Within fuel attempt t p rest (no_body t' body k x has fails e _) more h g =
      failed-Within fuel attempt t' x (omega arith)
        (λ ex. absurd (cc (settled.bodies body k x has fails)))
        (rest (attempt + 1) t' (omega arith) (omega arith))

  attempts-Within : (fuel : ℕ) → Rest fuel
  unfolding attempts
  attempts-Within zero attempt t h g = absurd (omega arith)
  attempts-Within (suc fuel) attempt t h g =
      go (attempts-Within fuel) (le_int (pos attempt) rt.max_retries) refl
    where
      go :
          Rest fuel
          → (more : Bool) → le_int (pos attempt) rt.max_retries ≡ more
          → Within b (elim more [
            | true ↦ decide env (do_request env (pos attempt) t) (attempts env rt fuel) attempt
            | false ↦ some (final_attempt env rt t)
          ])
      go rest true e =
          asked-Within fuel attempt t _ rest (do_request-Asked env (pos attempt) t) (ground arith) h
            g
      go rest false e = final-Within t (omega arith)

-- If from the n-th request on no connection is expired, `RoundTrip` ends, on any fuel above
-- n + max_retries + 1, and it has sent at most n + max_retries + 2 requests (n + 1 if `max_retries`
-- is negative).
pub round_trip-Within :
    {R : Type 0} (env : Environment R) (rt : RetryTransport) (n fuel : ℕ)
    → IsSettled env n
    → n + rounds rt < fuel
    → Within (n + rounds rt + 1) (round_trip env rt fuel)
unfolding round_trip
round_trip-Within env rt n fuel settled h =
    attempts-Within env rt n (n + rounds rt + 1) settled fuel 0 fresh (omega arith) (omega arith)

-- One more expired connection, and the loop is where it was.
spin :
    {R : Type 0} (env : Environment R) (rt : RetryTransport) (e : GoError NetError) (fuel : ℕ)
    (t : Trace)
    → ((k : ℕ) → env.respond k ≡ failed e)
    → is_expired e ≡ true
    → le_int (pos 0) rt.max_retries ≡ true
    → attempts env rt fuel 0 t ≡ none
unfolding attempts do_request decide send
spin env rt e zero t all ex more = refl
spin env rt e (suc fuel) t all ex more =
    let t' = record t { sent = t.sent + 1 } in
    ground (arith, all t.sent, spin env rt e fuel t' all ex more)

-- If every connection is expired when it is used, `RoundTrip` does not end: no fuel is enough,
-- unless `max_retries` is negative, and no attempt counts.
pub round_trip_diverges :
    {R : Type 0} (env : Environment R) (rt : RetryTransport) (e : GoError NetError) (fuel : ℕ)
    → ((k : ℕ) → env.respond k ≡ failed e)
    → is_expired e ≡ true
    → 0 < rounds rt
    → round_trip env rt fuel ≡ none
unfolding round_trip
round_trip_diverges env rt e fuel all ex more = spin env rt e fuel fresh all ex (ground arith)
