-- ===== src/Health.antt =====
-- pkg/core/health/readiness.go and interfaces.go: which components have started, and whether
-- traffic may come in. `AddComponent`, the markers and `GetStatus` run under the mutex, so each is a
-- function on the state; the steps of `MarkTrafficReady` do not, and Traffic.antt interleaves them.
-- A channel that is only ever closed is the Boolean "closed"; closing it twice is Go's panic, which
-- is `none`. Time is a number of nanoseconds since the zero `time.Time`. Logging is left out.
mod Invariant
pub mod Latch
mod Panics
mod Traffic
mod Exact
mod Status
mod Probe
mod Tests
use ecommerce_commons.Prelude.{
  ◌≡◌, ◌>>=◌, ℕ, String, Bool, true, false, Option, none, some, List, [], ◌∷◌, ◌&&◌, not, ltb,
  str_eq, if◌then◌else◌, length, lookup, insert,
}

-- `component`
pub record Component : Type 0 where
  pub name : String
  pub ready : Bool
  pub started_at : ℕ
  pub ready_at : ℕ

-- `Readiness`; a `sync.Once` is the Boolean "has run".
pub record Readiness : Type 0 where
  pub components : List (String × Component)
  pub ready_chan : Bool
  pub ready_once : Bool
  pub kubernetes_ready_chan : Bool
  pub kubernetes_ready_once : Bool
  pub kubernetes_notified_at : ℕ
  pub is_kubernetes : Bool

unfoldable pub new_readiness : Bool → Readiness
new_readiness is_kubernetes = record {
  components = [];
  ready_chan = false;
  ready_once = false;
  kubernetes_ready_chan = false;
  kubernetes_ready_once = false;
  kubernetes_notified_at = 0;
  is_kubernetes = is_kubernetes;
}

-- The function that `AddComponent` returns: it does nothing, or it marks the component of its name.
pub data Marker : Type 0 where
  noop : Marker
  mark : String → Marker

-- `AddComponent` under the lock: a name that is taken gets the marker that does nothing.
unfoldable pub register : String → ℕ → Readiness → Readiness × Marker
register name now r = elim (lookup name r.components) [
  | some _ ↦ (r, noop)
  | none ↦
      let comp : Component = record {
        name = name;
        ready = false;
        started_at = now;
        ready_at = 0;
      } in
      (record r { components = insert name comp r.components }, mark name)
]

-- `AddComponent`; the empty name panics.
unfoldable pub add_component : String → ℕ → Readiness → Option (Readiness × Marker)
unfolding register
add_component name now r = if str_eq name "" then none else some (register name now r)

-- The loop over `r.components`: no component is left that is not ready.
unfoldable pub every_ready : List (String × Component) → Bool
every_ready [] = true
every_ready ((_, c) ∷ rest) = c.ready && every_ready rest

-- `readyOnce.Do(close(readyChan))`
unfoldable pub close_ready : Readiness → Option Readiness
close_ready r =
    if r.ready_once
    then some r
    else if r.ready_chan
    then none
    else some (record r { ready_once = true; ready_chan = true })

unfoldable pub check_all_ready : Readiness → Option Readiness
unfolding every_ready close_ready
check_all_ready r =
    if ltb 0 (length r.components) && every_ready r.components then close_ready r else some r

-- The marking function's body, from where the component is known not to be ready.
unfoldable pub finish_mark : String → ℕ → Component → Readiness → Option Readiness
unfolding check_all_ready
finish_mark name now comp r =
    let comp' = record comp { ready = true; ready_at = now } in
    check_all_ready (record r { components = insert name comp' r.components })

-- The marking function, after its lookup. A missing component would be a nil pointer: a panic.
unfoldable pub mark_found : String → ℕ → Readiness → Option Component → Option Readiness
mark_found name now r none = none
mark_found name now r (some comp) = if comp.ready then some r else finish_mark name now comp r

unfoldable pub mark_ready : String → ℕ → Readiness → Option Readiness
mark_ready name now r = mark_found name now r (lookup name r.components)

unfoldable pub call_marker : Marker → ℕ → Readiness → Option Readiness
call_marker noop now r = some r
call_marker (mark name) now r = mark_ready name now r

-- `IsReady`
abbrev pub is_ready : Readiness → Bool
is_ready r = r.ready_chan

-- `kubernetesReadyOnce`: the first to come takes it and sets the time, under the mutex; a later one has
-- nothing left to do, which is `none`.
unfoldable pub take_once : ℕ → Readiness → Option Readiness
take_once now r =
    if r.kubernetes_ready_once
    then none
    else some (record r { kubernetes_ready_once = true; kubernetes_notified_at = now })

-- `close(r.kubernetesReadyChan)`
unfoldable pub close_kubernetes : Readiness → Option Readiness
close_kubernetes r =
    if r.kubernetes_ready_chan then none else some (record r { kubernetes_ready_chan = true })

abbrev pub after_once : Readiness → Option Readiness → Option Readiness
after_once r none = some r
after_once r (some taken) = close_kubernetes taken

-- `MarkTrafficReady`, where no other call comes between its steps; Traffic.antt has them apart.
unfoldable pub mark_traffic_ready : ℕ → Readiness → Option Readiness
unfolding take_once close_kubernetes
mark_traffic_ready now r =
    if not (is_ready r)
    then some r
    else if r.kubernetes_ready_chan
    then some r
    else after_once r (take_once now r)

-- The calls that reach a `Readiness`, each at its time.
pub data Call : Type 0 where
  add : String → ℕ → Call
  use_marker : Marker → ℕ → Call
  traffic : ℕ → Call

unfoldable pub step : Call → Readiness → Option Readiness
step (add name now) r = do t ← add_component name now r; some t.0
step (use_marker m now) r = call_marker m now r
step (traffic now) r = mark_traffic_ready now r

-- A run of calls; a panic ends it.
unfoldable pub run : List Call → Readiness → Option Readiness
run [] r = some r
run (c ∷ cs) r = step c r >>= run cs

-- What a waiter sees when it wakes: the state, and the error of its context once that is done.
pub data ContextError : Type 0 where
  canceled deadline_exceeded : ContextError

-- `WaitReady`: a `select` takes any branch that is open, and blocks while there is none.
pub data WaitReady (r : Readiness) (ctx : Option ContextError) : Option ContextError → Type 0 where
  components_ready : r.ready_chan ≡ true → WaitReady r ctx none
  wait_ended : (e : ContextError) → ctx ≡ some e → WaitReady r ctx (some e)

-- `WaitForTrafficReady`: it waits twice, the second time in a later state `r'`.
pub data WaitForTrafficReady (r r' : Readiness) (ctx ctx' : Option ContextError)
    : Option ContextError → Type 0 where
  not_ready :
      (e : ContextError) → WaitReady r ctx (some e) → WaitForTrafficReady r r' ctx ctx' (some e)
  local_mode :
      WaitReady r ctx none → r.is_kubernetes ≡ false → WaitForTrafficReady r r' ctx ctx' none
  probed :
      WaitReady r ctx none
      → r.is_kubernetes ≡ true
      → r'.kubernetes_ready_chan ≡ true
      → WaitForTrafficReady r r' ctx ctx' none
  probe_wait_ended :
      (e : ContextError)
      → WaitReady r ctx none
      → r.is_kubernetes ≡ true
      → ctx' ≡ some e
      → WaitForTrafficReady r r' ctx ctx' (some e)
