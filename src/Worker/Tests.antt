-- ===== src/Worker/Tests.antt =====
-- Runs of a worker on concrete inputs.
use ecommerce_commons.Prelude.{
  true, false, some, [], ◌∷◌, ◌||◌, ◌==◌, ◌≤◌, if◌then◌else◌, ◌≡◌, refl,
}
use ecommerce_commons.Health.{Readiness, traffic, components_ready, step, mark_traffic_ready}
use ecommerce_commons.Worker.{
  Options, with_traffic_ready, with_shutdown, options, apply_all, waiting_probe, BaseWorker,
  new_worker, Step, Reachable, created, stepped, start, after_run, call_run,
}
use ecommerce_commons.Worker.Gate.{is_open, worker_gated}

-- All components are ready, and the probe was not answered.
abbrev ready : Readiness
ready = record {
  components = [];
  ready_chan = true;
  ready_once = true;
  kubernetes_ready_chan = false;
  kubernetes_ready_once = false;
  kubernetes_notified_at = 0;
  is_kubernetes = true;
}

abbrev probed : Readiness
probed = record ready {
  kubernetes_ready_chan = true;
  kubernetes_ready_once = true;
  kubernetes_notified_at = 5;
}

abbrev careful : Options
careful = record { wait_for_traffic_ready = true; wait_ready = false; shutdown_on_error = true }

options_lem : options (with_traffic_ready ∷ with_shutdown ∷ []) ≡ careful
unfolding options apply_all
options_lem = refl

abbrev started : BaseWorker
started = start careful (new_worker ready)

abbrev probing : BaseWorker
probing = record started { phase = waiting_probe }

abbrev allowed : BaseWorker
allowed = record probing { readiness = probed }

abbrev failed : BaseWorker
failed = after_run careful (some "lost connection") (call_run allowed)

failing_run : Reachable careful ready failed
unfolding step mark_traffic_ready
failing_run =
    stepped (call_run allowed) failed
      (stepped allowed (call_run allowed)
        (stepped probing allowed
          (stepped started probing (stepped (new_worker ready) started created (Step.on_start refl))
            (Step.on_traffic_kubernetes refl (components_ready refl) refl))
          (Step.on_readiness (traffic 5) probed refl))
        (Step.on_probe refl refl))
      (Step.on_return (some "lost connection") refl)

worker_gated_example :
    (failed.calls ≤ 1)
    × (failed.shutdowns ≤ (if true then failed.calls else 0))
    × (((failed.calls == 0) || is_open careful failed.readiness) ≡ true)
worker_gated_example = worker_gated careful ready failed failing_run
