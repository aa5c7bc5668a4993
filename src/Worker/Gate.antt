-- ===== src/Worker/Gate.antt =====
-- What is known of the readiness whenever a worker has called its run function.
use ecommerce_commons.Prelude.{
  ℕ, suc, String, Bool, true, false, not, ◌&&◌, ◌||◌, ◌==◌, ◌≤◌, Option, none, some, if◌then◌else◌,
  ◌≡◌, refl, arith, ap, subst,
}
use ecommerce_commons.Health.{
  Readiness, ContextError, canceled, WaitReady, components_ready, wait_ended,
}
use ecommerce_commons.Health.Latch.{Grows, step-Grows}
use ecommerce_commons.Worker.{
  Options, Phase, idle, waiting_ready, waiting_traffic, waiting_probe, running, ended, BaseWorker,
  context_error, call_run, end, after_ready, start, after_run, Step, Reachable, created, stepped,
}

-- What the options ask of the readiness.
abbrev pub is_open : Options → Readiness → Bool
is_open o r =
    (not o.wait_ready || r.ready_chan)
    && (not o.wait_for_traffic_ready
        || (r.ready_chan && (not r.is_kubernetes || r.kubernetes_ready_chan)))

-- What holds in each phase.
abbrev Knows : Options → Phase → ℕ → ℕ → Readiness → Type 0
Knows o idle calls shutdowns r = (calls ≡ 0) × (shutdowns ≡ 0)
Knows o waiting_ready calls shutdowns r = (calls ≡ 0) × (shutdowns ≡ 0)
Knows o waiting_traffic calls shutdowns r =
    (calls ≡ 0) × (shutdowns ≡ 0) × ((not o.wait_ready || r.ready_chan) ≡ true)
Knows o waiting_probe calls shutdowns r = (calls ≡ 0) × (shutdowns ≡ 0) × (r.ready_chan ≡ true)
Knows o running calls shutdowns r = (calls ≡ 1) × (shutdowns ≡ 0) × (is_open o r ≡ true)
Knows o ended calls shutdowns r =
    (calls ≤ 1)
    × (shutdowns ≤ (if o.shutdown_on_error then calls else 0))
    × (((calls == 0) || is_open o r) ≡ true)

abbrev Holds : Options → BaseWorker → Type 0
Holds o w = Knows o w.phase w.calls w.shutdowns w.readiness

waited : (r : Readiness) (ctx : Option ContextError) → WaitReady r ctx none → r.ready_chan ≡ true
waited r ctx (components_ready e) = e

-- A call of the readiness keeps what is known.
kept :
    (o : Options) (p : Phase) (calls shutdowns : ℕ) (r r' : Readiness)
    → Grows r r'
    → Knows o p calls shutdowns r
    → Knows o p calls shutdowns r'
kept o idle calls shutdowns r r' g h = h
kept o waiting_ready calls shutdowns r r' g h = h
kept o waiting_traffic calls shutdowns r r' g h = (h.0, h.1, ground (arith, h.2, g.ready))
kept o waiting_probe calls shutdowns r r' g h = (h.0, h.1, g.ready h.2)
kept o running calls shutdowns r r' g h =
    (h.0, h.1, ground (arith, h.2, g.ready, g.kubernetes, g.mode))
kept o ended calls shutdowns r r' g h =
    (h.0, h.1, ground (arith, h.2, g.ready, g.kubernetes, g.mode))

called :
    (o : Options) (w : BaseWorker)
    → w.calls ≡ 0
    → w.shutdowns ≡ 0
    → is_open o w.readiness ≡ true
    → Holds o (call_run w)
called o w c s h = (ground (arith, c), s, h)

-- Of two states that a test chooses from.
by_option :
    (o : Options) (b : Bool) (v w : BaseWorker)
    → (b ≡ true → Holds o v)
    → (b ≡ false → Holds o w)
    → Holds o (if b then v else w)
by_option o true v w f g = f refl
by_option o false v w f g = g refl

after_ready-Holds :
    (o : Options) (w : BaseWorker)
    → w.calls ≡ 0
    → w.shutdowns ≡ 0
    → (not o.wait_ready || w.readiness.ready_chan) ≡ true
    → Holds o (after_ready o w)
after_ready-Holds o w c s h =
    by_option o o.wait_for_traffic_ready (record w { phase = waiting_traffic }) (call_run w)
      (λ e. (c, s, h)) (λ direct. called o w c s (ground (arith, h, direct)))

start-Holds : (o : Options) (w : BaseWorker) → w.calls ≡ 0 → w.shutdowns ≡ 0 → Holds o (start o w)
start-Holds o w c s =
    by_option o o.wait_ready (record w { phase = waiting_ready }) (after_ready o w) (λ e. (c, s))
      (λ direct. after_ready-Holds o w c s (ground (arith, direct)))

never_called : (o : Options) (w : BaseWorker) → w.calls ≡ 0 → w.shutdowns ≡ 0 → Holds o (end w)
never_called o w c s = (ground (arith, c), ground (arith, s), ground (arith, c))

after_run-Holds :
    (o : Options) (err : Option String) (w : BaseWorker)
    → w.calls ≡ 1
    → w.shutdowns ≡ 0
    → is_open o w.readiness ≡ true
    → Holds o (after_run o err w)
after_run-Holds o none w c s h = (ground (arith, c), ground (arith, s), ground (arith, h))
after_run-Holds o (some err) w c s h =
    by_option o o.shutdown_on_error (record w { phase = ended; shutdowns = suc w.shutdowns })
      (end w) (λ e. (ground (arith, c), ground (arith, s, c, e), ground (arith, h)))
      (λ e. (ground (arith, c), ground (arith, s), ground (arith, h)))

-- What holds in the phase that the worker is in.
in_phase :
    (o : Options) (w : BaseWorker) (p : Phase)
    → w.phase ≡ p
    → Holds o w
    → Knows o p w.calls w.shutdowns w.readiness
in_phase o w p e h = subst (λ q. Knows o q w.calls w.shutdowns w.readiness) e h

step-Holds : (o : Options) (w w' : BaseWorker) → Holds o w → Step o w w' → Holds o w'
step-Holds o w w' h (Step.on_readiness c r e) =
    kept o w.phase w.calls w.shutdowns w.readiness r (step-Grows c w.readiness e) h
step-Holds o w w' h (Step.on_start e) = let k = in_phase o w idle e h in start-Holds o w k.0 k.1
step-Holds o w w' h Step.on_stop = h
step-Holds o w w' h (Step.on_ready e waits) =
    let k = in_phase o w waiting_ready e h in
    after_ready-Holds o w k.0 k.1
      (ground (arith, waited w.readiness (context_error w.cancelled) waits))
step-Holds o w w' h (Step.on_ready_stopped err e waits) =
    let k = in_phase o w waiting_ready e h in never_called o w k.0 k.1
step-Holds o w w' h (Step.on_traffic_local e waits mode) =
    let k = in_phase o w waiting_traffic e h in
    called o w k.0 k.1 (ground (arith, waited w.readiness (context_error w.cancelled) waits, mode))
step-Holds o w w' h (Step.on_traffic_kubernetes e waits mode) =
    let k = in_phase o w waiting_traffic e h in
    (k.0, k.1, waited w.readiness (context_error w.cancelled) waits)
step-Holds o w w' h (Step.on_traffic_stopped err e waits) =
    let k = in_phase o w waiting_traffic e h in never_called o w k.0 k.1
step-Holds o w w' h (Step.on_probe e probe) =
    let k = in_phase o w waiting_probe e h in called o w k.0 k.1 (ground (arith, k.2, probe))
step-Holds o w w' h (Step.on_probe_stopped err e waits) =
    let k = in_phase o w waiting_probe e h in never_called o w k.0 k.1
step-Holds o w w' h (Step.on_return err e) =
    let k = in_phase o w running e h in after_run-Holds o err w k.0 k.1 k.2

reachable-Holds : (o : Options) (r : Readiness) (w : BaseWorker) → Reachable o r w → Holds o w
reachable-Holds o r w created = (refl, refl)
reachable-Holds o r w (stepped v _ s t) = step-Holds o v w (reachable-Holds o r v s) t

consequences :
    (o : Options) (p : Phase) (calls shutdowns : ℕ) (r : Readiness)
    → Knows o p calls shutdowns r
    → (calls ≤ 1)
      × (shutdowns ≤ (if o.shutdown_on_error then calls else 0))
      × (((calls == 0) || is_open o r) ≡ true)
consequences o idle calls shutdowns r h =
    (ground (arith, h.0), ground (arith, h.1), ground (arith, h.0))
consequences o waiting_ready calls shutdowns r h =
    (ground (arith, h.0), ground (arith, h.1), ground (arith, h.0))
consequences o waiting_traffic calls shutdowns r h =
    (ground (arith, h.0), ground (arith, h.1), ground (arith, h.0))
consequences o waiting_probe calls shutdowns r h =
    (ground (arith, h.0), ground (arith, h.1), ground (arith, h.0))
consequences o running calls shutdowns r h =
    (ground (arith, h.0), ground (arith, h.1), ground (arith, h.2))
consequences o ended calls shutdowns r h = h

-- However a worker's steps interleave with the calls of a readiness: it calls its run function at most
-- once, asks for a shutdown at most as often and only with `WithShutdown`, and if it has called the
-- function, the components are ready where `WithReady` or `WithTrafficReady` asks for that, and with
-- the latter on Kubernetes the probe has been answered, too.
pub worker_gated :
    (o : Options) (r : Readiness) (w : BaseWorker)
    → Reachable o r w
    → (w.calls ≤ 1)
      × (w.shutdowns ≤ (if o.shutdown_on_error then w.calls else 0))
      × (((w.calls == 0) || is_open o w.readiness) ≡ true)
worker_gated o r w s =
    consequences o w.phase w.calls w.shutdowns w.readiness (reachable-Holds o r w s)

-- The phases in which the goroutine waits.
abbrev pub is_waiting : Phase → Bool
is_waiting idle = false
is_waiting waiting_ready = true
is_waiting waiting_traffic = true
is_waiting waiting_probe = true
is_waiting running = false
is_waiting ended = false

-- A worker that waits for readiness and is stopped can end, and does so without a call of its run
-- function.
stop_ends_waiting :
    (o : Options) (w : BaseWorker)
    → w.cancelled ≡ true
    → is_waiting w.phase ≡ true
    → (v : BaseWorker) × Step o w v × (v.phase ≡ ended) × (v.calls ≡ w.calls)
stop_ends_waiting o w stop waits = by_phase w.phase refl waits
  where
    canceled_context : context_error w.cancelled ≡ some canceled
    canceled_context = ap context_error stop

    by_phase :
        (p : Phase)
        → w.phase ≡ p
        → is_waiting p ≡ true
        → (v : BaseWorker) × Step o w v × (v.phase ≡ ended) × (v.calls ≡ w.calls)
    by_phase idle e h = ground arith
    by_phase waiting_ready e h =
        (end w, Step.on_ready_stopped canceled e (wait_ended canceled canceled_context), refl, refl)
    by_phase waiting_traffic e h = (
      end w,
      Step.on_traffic_stopped canceled e (wait_ended canceled canceled_context),
      refl,
      refl,
    )
    by_phase waiting_probe e h =
        (end w, Step.on_probe_stopped canceled e canceled_context, refl, refl)
    by_phase running e h = ground arith
    by_phase ended e h = ground arith
