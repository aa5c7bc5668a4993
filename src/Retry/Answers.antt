-- ===== src/Retry/Answers.antt =====
-- What a `RoundTrip` returns.
use ecommerce_commons.Prelude.{
  ℕ, zero, suc, ◌+◌, ◌≤◌, Bool, true, false, Option, none, some, ◌≡◌, ◌⊎◌, inl, inr, refl, arith,
  pos, ℤ, le_int, lt_int, if◌then◌else◌, subst, sym, ◌∙◌,
}
use ecommerce_commons.GoError.{GoError}
use ecommerce_commons.Retry.{
  NetError, is_expired, is_retryable_error, Outcome, done, failed, Environment, Trace,
  RetryTransport, next, send, send_again, do_request, final_attempt, decide, attempts, fresh,
  round_trip,
}

-- A lower bound of the attempts made: each sends a request, or, where there is a `GetBody`, each but the
-- first calls that.
abbrev pub count : Option (ℕ → Option (GoError NetError)) → Trace → ℕ
count none t = t.sent
count (some body) t = suc t.bodies

module _ {R : Type 0} (env : Environment R) where
  abbrev pub counted : Trace → ℕ
  counted t = count env.get_body t

  -- One attempt more is counted, or it was the first.
  abbrev IsCounted : ℤ → ℕ → ℕ → Type 0
  IsCounted attempt n n' = ((lt_int (pos 0) attempt ≡ false) × (1 ≤ n')) ⊎ (suc n ≤ n')

  -- A call of `doRequest` sends the next request, or fails in the next call of `GetBody`.
  data Tried (attempt : ℤ) (t : Trace) : Outcome R × Trace → Type 0 where
    answered :
        (t' : Trace)
        → t'.sent ≡ suc t.sent
        → IsCounted attempt (counted t) (counted t')
        → t'.closed_idle ≡ t.closed_idle
        → Tried attempt t (env.respond t.sent, t')
    no_body :
        (t' : Trace) (body : ℕ → Option (GoError NetError)) (e : GoError NetError)
        → env.get_body ≡ some body
        → body t.bodies ≡ some e
        → t'.bodies ≡ suc t.bodies
        → IsCounted attempt (counted t) (counted t')
        → t'.closed_idle ≡ t.closed_idle
        → Tried attempt t (failed e, t')

  one_more : (n : ℕ) → n + 1 ≡ suc n
  one_more n = omega arith

  counted-of :
      (o : Option (ℕ → Option (GoError NetError))) (attempt : ℤ) (t t' : Trace)
      → env.get_body ≡ o
      → IsCounted attempt (count o t) (count o t')
      → IsCounted attempt (counted t) (counted t')
  counted-of o attempt t t' h c = subst (λ b. IsCounted attempt (count b t) (count b t')) (sym h) c

  send_again-Tried :
      (attempt : ℤ) (b : Option (ℕ → Option (GoError NetError))) (t : Trace)
      → env.get_body ≡ b
      → Tried attempt t (send_again env b t)
  unfolding send_again send
  send_again-Tried attempt none t h =
      answered _ (one_more t.sent) (counted-of none attempt t _ h (inr (omega arith))) refl
  send_again-Tried attempt (some body) t h = go (body t.bodies) refl
    where
      t' : Trace
      t' = record t { bodies = t.bodies + 1 }

      go :
          (o : Option (GoError NetError))
          → body t.bodies ≡ o
          → Tried attempt t (elim o [ some e ↦ (failed e, t') | none ↦ send env t' ])
      go (some e) g =
          no_body t' body e h g (one_more t.bodies)
            (counted-of (some body) attempt t _ h (inr (omega arith))) refl
      go none g =
          answered _ (one_more t.sent) (counted-of (some body) attempt t _ h (inr (omega arith)))
            refl

  first-IsCounted :
      (o : Option (ℕ → Option (GoError NetError))) (attempt : ℤ) (t : Trace)
      → lt_int (pos 0) attempt ≡ false
      → IsCounted attempt (count o t) (count o (record t { sent = t.sent + 1 }))
  first-IsCounted none attempt t f = inr (omega arith)
  first-IsCounted (some body) attempt t f = inl (f, omega arith)

  do_request-Tried : (attempt : ℤ) (t : Trace) → Tried attempt t (do_request env attempt t)
  unfolding do_request send
  do_request-Tried attempt t = go (lt_int (pos 0) attempt) refl
    where
      go :
          (b : Bool)
          → lt_int (pos 0) attempt ≡ b
          → Tried attempt t (if b then send_again env env.get_body t else send env t)
      go true f = send_again-Tried attempt env.get_body t refl
      go false f = answered _ (one_more t.sent) (first-IsCounted env.get_body attempt t f) refl

module _ {R : Type 0} (env : Environment R) (rt : RetryTransport) where
  -- The outcome of the last request, or of the last call of `GetBody`.
  abbrev pub IsLast : Outcome R → Trace → Type 0
  IsLast (done r) t = (k : ℕ) × (t.sent ≡ suc k) × (env.respond k ≡ done r)
  IsLast (failed e) t =
      ((k : ℕ) × (t.sent ≡ suc k) × (env.respond k ≡ failed e))
      ⊎ ((body : ℕ → Option (GoError NetError)) × (k : ℕ) × (env.get_body ≡ some body)
          × (t.bodies ≡ suc k)
          × (body k ≡ some e))

  -- More than `max_retries` + 1 attempts were made, and the idle connections were closed once, if there is
  -- a transport to close them on.
  abbrev pub IsFinal : Trace → Trace → Type 0
  IsFinal t t' =
      (lt_int (next rt.max_retries) (pos (counted env t')) ≡ true)
      × (t'.closed_idle ≡ (if rt.has_transport then suc t.closed_idle else t.closed_idle))

  -- No retry could mend this error.
  abbrev pub IsHopeless : GoError NetError → Type 0
  IsHopeless e = (is_expired e ≡ false) × (is_retryable_error e ≡ false)

  abbrev pub IsHonest : Trace → Outcome R → Trace → Type 0
  IsHonest t (done r) t' = IsLast (done r) t'
  IsHonest t (failed e) t' =
      IsLast (failed e) t' × ((IsHopeless e × (t'.closed_idle ≡ t.closed_idle)) ⊎ IsFinal t t')

  abbrev HonestResult : Trace → Option (Outcome R × Trace) → Type 0
  HonestResult t none = Unit
  HonestResult t (some (o, t')) = IsHonest t o t'

  enough :
      (n n' : ℕ)
      → lt_int rt.max_retries (pos n) ≡ true
      → IsCounted env (next rt.max_retries) n n'
      → lt_int (next rt.max_retries) (pos n') ≡ true
  enough n n' many c = ground arith

  -- The final attempt, from a trace in which the idle connections were closed or could not be.
  final-IsHonest :
      (t₀ t : Trace) (p : Outcome R × Trace)
      → lt_int rt.max_retries (pos (counted env t)) ≡ true
      → t.closed_idle ≡ (if rt.has_transport then suc t₀.closed_idle else t₀.closed_idle)
      → Tried env (next rt.max_retries) t p
      → IsHonest t₀ p.0 p.1
  final-IsHonest t₀ t p many h (answered t' e n c) = go (env.respond t.sent) refl
    where
      go : (o : Outcome R) → env.respond t.sent ≡ o → IsHonest t₀ o t'
      go (done r) g = (t.sent, e, g)
      go (failed x) g =
          (inl (t.sent, e, g), inr (enough (counted env t) (counted env t') many n, c ∙ h))
  final-IsHonest t₀ t p many h (no_body t' body x is g b n c) =
      (inr (body, t.bodies, is, b, g), inr (enough (counted env t) (counted env t') many n, c ∙ h))

  final_attempt-IsHonest :
      (t₀ t : Trace)
      → lt_int rt.max_retries (pos (counted env t)) ≡ true
      → t.closed_idle ≡ t₀.closed_idle
      → HonestResult t₀ (some (final_attempt env rt t))
  unfolding final_attempt
  final_attempt-IsHonest t₀ t many h =
      final-IsHonest t₀ (start rt.has_transport) _ (kept rt.has_transport) (closed rt.has_transport)
        (do_request-Tried env (next rt.max_retries) _)
    where
      start : Bool → Trace
      start c = if c then record t { closed_idle = t.closed_idle + 1 } else t

      closed_uncounted :
          (o : Option (ℕ → Option (GoError NetError))) → count o (start true) ≡ count o t
      closed_uncounted none = refl
      closed_uncounted (some body) = refl

      kept : (c : Bool) → lt_int rt.max_retries (pos (counted env (start c))) ≡ true
      kept true = rw (closed_uncounted env.get_body) many
      kept false = many

      closed :
          (c : Bool) → (start c).closed_idle ≡ (if c then suc t₀.closed_idle else t₀.closed_idle)
      closed true = omega (arith, h)
      closed false = h

  abbrev Rest : Trace → ℕ → Type 0
  Rest t₀ fuel =
      (attempt : ℕ) (t : Trace)
      → attempt ≤ counted env t
      → t.closed_idle ≡ t₀.closed_idle
      → HonestResult t₀ (attempts env rt fuel attempt t)

  failed-IsHonest :
      (t₀ t : Trace) (fuel attempt : ℕ) (e : GoError NetError)
      → Rest t₀ fuel
      → suc attempt ≤ counted env t
      → t.closed_idle ≡ t₀.closed_idle
      → IsLast (failed e) t
      → HonestResult t₀ (decide env (failed e, t) (attempts env rt fuel) attempt)
  unfolding decide
  failed-IsHonest t₀ t fuel attempt e rest l h last =
      go (is_expired e) refl (is_retryable_error e) refl
    where
      go :
          (x : Bool)
          → is_expired e ≡ x
          → (y : Bool) → is_retryable_error e ≡ y
          → HonestResult t₀ (elim x [
            | true ↦ attempts env rt fuel attempt t
            | false ↦ elim y [
              | false ↦ some (failed e, t)
              | true ↦ attempts env rt fuel (attempt + 1) t
            ]
          ])
      go true _ _ _ = rest attempt t (omega (arith, l)) h
      go false _ true _ = rest (attempt + 1) t (omega (arith, l)) h
      go false g false g' = (last, inl ((g, g'), h))

  progress : (attempt n n' : ℕ) → attempt ≤ n → IsCounted env (pos attempt) n n' → suc attempt ≤ n'
  progress attempt n n' l c = ground arith

  decide-IsHonest :
      (t₀ t : Trace) (fuel attempt : ℕ) (p : Outcome R × Trace)
      → Rest t₀ fuel
      → attempt ≤ counted env t
      → t.closed_idle ≡ t₀.closed_idle
      → Tried env (pos attempt) t p
      → HonestResult t₀ (decide env p (attempts env rt fuel) attempt)
  decide-IsHonest t₀ t fuel attempt p rest l h (answered t' e n c) = go (env.respond t.sent) refl
    where
      go :
          (o : Outcome R)
          → env.respond t.sent ≡ o
          → HonestResult t₀ (decide env (o, t') (attempts env rt fuel) attempt)
      go (done r) g = unfold decide in (t.sent, e, g)
      go (failed x) g =
          failed-IsHonest t₀ t' fuel attempt x rest
            (progress attempt (counted env t) (counted env t') l n) (c ∙ h) (inl (t.sent, e, g))
  decide-IsHonest t₀ t fuel attempt p rest l h (no_body t' body x is g b n c) =
      failed-IsHonest t₀ t' fuel attempt x rest
        (progress attempt (counted env t) (counted env t') l n) (c ∙ h)
        (inr (body, t.bodies, is, b, g))

  attempts-IsHonest : (t₀ : Trace) (fuel : ℕ) → Rest t₀ fuel
  unfolding attempts
  attempts-IsHonest t₀ zero attempt t l h = tt
  attempts-IsHonest t₀ (suc fuel) attempt t l h =
      go (attempts-IsHonest t₀ fuel) (le_int (pos attempt) rt.max_retries) refl
    where
      go :
          Rest t₀ fuel
          → (more : Bool) → le_int (pos attempt) rt.max_retries ≡ more
          → HonestResult t₀ (elim more [
            | true ↦ decide env (do_request env (pos attempt) t) (attempts env rt fuel) attempt
            | false ↦ some (final_attempt env rt t)
          ])
      go rest true m =
          decide-IsHonest t₀ t fuel attempt _ rest l h (do_request-Tried env (pos attempt) t)
      go rest false m = final_attempt-IsHonest t₀ t (ground arith) h

-- What `RoundTrip` returns is honest: a response is that of the last request sent; an error is that of
-- the last request, or of the last call of `GetBody`, and either it is neither an expired connection nor
-- retryable, and no idle connections were closed, or more than `max_retries` + 1 attempts were made, and
-- the idle connections were closed once if there is a transport to close them on.
pub round_trip-IsHonest :
    {R : Type 0} (env : Environment R) (rt : RetryTransport) (fuel : ℕ) {o : Outcome R} {t : Trace}
    → round_trip env rt fuel ≡ some (o, t)
    → IsHonest env rt fresh o t
unfolding round_trip
round_trip-IsHonest env rt fuel {o = o} {t = t} e =
    subst (HonestResult env rt fresh) e
      (attempts-IsHonest env rt fresh fuel 0 fresh (omega arith) refl)
