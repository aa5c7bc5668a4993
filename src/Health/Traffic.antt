-- ===== src/Health/Traffic.antt =====
-- pkg/core/health/readiness.go, `MarkTrafficReady` called by concurrent probes: its reads of the two
-- channels, its `Once` and its `close` are steps of their own, and the steps of all goroutines, with
-- those of the calls under the mutex, follow one another in any order.
pub mod Safe
use ecommerce_commons.Prelude.{
  ℕ, zero, suc, String, Bool, Option, none, some, List, [], ◌∷◌, ◌>>=◌, if◌then◌else◌,
}
use ecommerce_commons.Health.{
  Readiness, new_readiness, Marker, add_component, call_marker, is_ready, take_once,
  close_kubernetes,
}

-- The state, and how many goroutines in `MarkTrafficReady` have seen that the components are ready, have
-- then seen that Kubernetes was not told, and are in the function of the `Once`, before the `close`.
pub record Probed : Type 0 where
  pub readiness : Readiness
  pub ready_seen : ℕ
  pub open_seen : ℕ
  pub closing : ℕ

pub data Event : Type 0 where
  component_added : String → ℕ → Event
  marker_used : Marker → ℕ → Event
  ready_checked open_checked : Event
  once_entered : ℕ → Event
  channel_closed : Event

-- `if !r.IsReady()`
unfoldable pub check_ready : Probed → Probed
check_ready s = if is_ready s.readiness then record s { ready_seen = suc s.ready_seen } else s

-- `case <-r.kubernetesReadyChan`, for one of the goroutines that have come so far.
unfoldable pub check_open : ℕ → Probed → Probed
check_open zero s = s
check_open (suc n) s =
    if s.readiness.kubernetes_ready_chan
    then record s { ready_seen = n }
    else record s { ready_seen = n; open_seen = suc s.open_seen }

-- `kubernetesReadyOnce.Do`: who does not take it leaves, once it was done.
abbrev pub entered : ℕ → Probed → Option Readiness → Probed
entered n s none = record s { open_seen = n }
entered n s (some r) = record s { readiness = r; open_seen = n; closing = suc s.closing }

unfoldable pub enter_once : ℕ → ℕ → Probed → Probed
unfolding take_once
enter_once now zero s = s
enter_once now (suc n) s = entered n s (take_once now s.readiness)

-- The `close`; a second one panics.
unfoldable pub close_one : ℕ → Probed → Option Probed
unfolding close_kubernetes
close_one zero s = some s
close_one (suc n) s = do
  r ← close_kubernetes s.readiness
  some (record s { readiness = r; closing = n })

unfoldable pub advance : Event → Probed → Option Probed
unfolding check_ready check_open enter_once close_one
advance (component_added name now) s = do
  t ← add_component name now s.readiness
  some (record s { readiness = t.0 })
advance (marker_used m now) s = do
  r ← call_marker m now s.readiness
  some (record s { readiness = r })
advance ready_checked s = some (check_ready s)
advance open_checked s = some (check_open s.ready_seen s)
advance (once_entered now) s = some (enter_once now s.open_seen s)
advance channel_closed s = close_one s.closing s

unfoldable pub advance_all : List Event → Probed → Option Probed
advance_all [] s = some s
advance_all (e ∷ es) s = advance e s >>= advance_all es

abbrev pub unprobed : Bool → Probed
unprobed kubernetes = record {
  readiness = new_readiness kubernetes;
  ready_seen = 0;
  open_seen = 0;
  closing = 0;
}
