-- ===== src/Worker.antt =====
-- pkg/core/worker/worker.go: a worker waits for readiness, runs its function once, and may ask for the
-- shutdown of the application. Its goroutine runs beside everything that calls `Readiness` (`Health`),
-- so it is a step relation on the worker and the readiness together. fx starts a worker once. What the
-- run function does is left open: it returns, with an error or without. Logging is left out.
pub mod Gate
mod Tests
use ecommerce_commons.Prelude.{
  ℕ, suc, String, Bool, true, false, Option, none, some, List, [], ◌∷◌, if◌then◌else◌, ◌≡◌,
}
use ecommerce_commons.Health.{Readiness, Call, step, ContextError, canceled, WaitReady}

-- `Options`
pub record Options : Type 0 where
  pub wait_for_traffic_ready : Bool
  pub wait_ready : Bool
  pub shutdown_on_error : Bool

-- `WithTrafficReady`, `WithReady`, `WithShutdown`
pub data WorkerOption : Type 0 where
  with_traffic_ready with_ready with_shutdown : WorkerOption

abbrev pub apply : WorkerOption → Options → Options
apply with_traffic_ready o = record o { wait_for_traffic_ready = true }
apply with_ready o = record o { wait_ready = true }
apply with_shutdown o = record o { shutdown_on_error = true }

-- The loop of `RunWorker`, from `Options{}` on.
unfoldable pub apply_all : List WorkerOption → Options → Options
apply_all [] o = o
apply_all (x ∷ xs) o = apply_all xs (apply x o)

unfoldable pub options : List WorkerOption → Options
options xs =
    apply_all xs
      (record { wait_for_traffic_ready = false; wait_ready = false; shutdown_on_error = false })

-- Where the goroutine is: not started, in `WaitReady`, in the two waits of `WaitForTrafficReady`, in
-- the run function, or at its end.
pub data Phase : Type 0 where
  idle waiting_ready waiting_traffic waiting_probe running ended : Phase

-- `baseWorker`, with the calls of the run function and of `Shutdown` counted.
pub record BaseWorker : Type 0 where
  pub phase : Phase
  pub cancelled : Bool
  pub calls : ℕ
  pub shutdowns : ℕ
  pub readiness : Readiness

abbrev pub new_worker : Readiness → BaseWorker
new_worker r = record { phase = idle; cancelled = false; calls = 0; shutdowns = 0; readiness = r }

-- The error of the worker's context: `Stop` cancels it.
abbrev pub context_error : Bool → Option ContextError
context_error false = none
context_error true = some canceled

-- Whether `Start` has made the context.
abbrev pub has_context : Phase → Bool
has_context idle = false
has_context waiting_ready = true
has_context waiting_traffic = true
has_context waiting_probe = true
has_context running = true
has_context ended = true

-- `Stop`, up to its wait for the goroutine, which changes nothing.
abbrev pub stop : BaseWorker → BaseWorker
stop w = record w { cancelled = if has_context w.phase then true else w.cancelled }

abbrev pub call_run : BaseWorker → BaseWorker
call_run w = record w { phase = running; calls = suc w.calls }

abbrev pub end : BaseWorker → BaseWorker
end w = record w { phase = ended }

-- What `run` does once readiness is no longer waited for.
abbrev pub after_ready : Options → BaseWorker → BaseWorker
after_ready o w =
    if o.wait_for_traffic_ready then record w { phase = waiting_traffic } else call_run w

-- `Start`
abbrev pub start : Options → BaseWorker → BaseWorker
start o w = if o.wait_ready then record w { phase = waiting_ready } else after_ready o w

-- What `run` does with the error of the run function.
abbrev pub after_run : Options → Option String → BaseWorker → BaseWorker
after_run o none w = end w
after_run o (some err) w =
    if o.shutdown_on_error then record w { phase = ended; shutdowns = suc w.shutdowns } else end w

-- One step: of another goroutine on the readiness, of `Start`, of `Stop`, or of the goroutine.
pub data Step (o : Options) (w : BaseWorker) : BaseWorker → Type 0 where
  on_readiness :
      (c : Call) (r : Readiness)
      → step c w.readiness ≡ some r
      → Step o w (record w { readiness = r })
  on_start : w.phase ≡ idle → Step o w (start o w)
  on_stop : Step o w (stop w)
  on_ready :
      w.phase ≡ waiting_ready
      → WaitReady w.readiness (context_error w.cancelled) none
      → Step o w (after_ready o w)
  on_ready_stopped :
      (e : ContextError)
      → w.phase ≡ waiting_ready
      → WaitReady w.readiness (context_error w.cancelled) (some e)
      → Step o w (end w)
  on_traffic_local :
      w.phase ≡ waiting_traffic
      → WaitReady w.readiness (context_error w.cancelled) none
      → w.readiness.is_kubernetes ≡ false
      → Step o w (call_run w)
  on_traffic_kubernetes :
      w.phase ≡ waiting_traffic
      → WaitReady w.readiness (context_error w.cancelled) none
      → w.readiness.is_kubernetes ≡ true
      → Step o w (record w { phase = waiting_probe })
  on_traffic_stopped :
      (e : ContextError)
      → w.phase ≡ waiting_traffic
      → WaitReady w.readiness (context_error w.cancelled) (some e)
      → Step o w (end w)
  on_probe :
      w.phase ≡ waiting_probe → w.readiness.kubernetes_ready_chan ≡ true → Step o w (call_run w)
  on_probe_stopped :
      (e : ContextError)
      → w.phase ≡ waiting_probe
      → context_error w.cancelled ≡ some e
      → Step o w (end w)
  on_return : (err : Option String) → w.phase ≡ running → Step o w (after_run o err w)

-- What a worker can come to from its creation.
pub data Reachable (o : Options) (r : Readiness) : BaseWorker → Type 0 where
  created : Reachable o r (new_worker r)
  stepped : (w w' : BaseWorker) → Reachable o r w → Step o w w' → Reachable o r w'
