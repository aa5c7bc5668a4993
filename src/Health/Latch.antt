-- ===== src/Health/Latch.antt =====
-- What runs of calls on a `Readiness` keep.
use ecommerce_commons.Prelude.{
  ℕ, String, true, Option, none, some, List, [], ◌∷◌, ◌≡◌, arith, lookup, >>=-eq-some,
}
use ecommerce_commons.Health.{
  Component, Readiness, noop, mark, register, add_component, mark_ready, mark_traffic_ready,
  finish_mark, mark_found, call_marker, Call, add, use_marker, traffic, step, run, is_ready,
}
use ecommerce_commons.Health.Invariant.{
  IsWellFormed, add_component-IsWellFormed, mark_ready-IsWellFormed,
  mark_traffic_ready-IsWellFormed,
}

-- One call keeps the invariant.
pub step-IsWellFormed :
    (c : Call) (r : Readiness) {r' : Readiness}
    → IsWellFormed r
    → step c r ≡ some r'
    → IsWellFormed r'
unfolding step add_component call_marker
step-IsWellFormed (add name now) r {r' = r'} w e = ground (
  arith,
  add_component-IsWellFormed name now r {r' = (register name now r).0} {m = (register name now r).1}
      w,
)
step-IsWellFormed (use_marker noop now) r w e = ground arith
step-IsWellFormed (use_marker (mark name) now) r w e = mark_ready-IsWellFormed name now r w e
step-IsWellFormed (traffic now) r w e = mark_traffic_ready-IsWellFormed now r w e

-- The invariant holds after any run of calls on a well-formed state.
pub run-IsWellFormed :
    (cs : List Call) (r : Readiness) {r' : Readiness}
    → IsWellFormed r
    → run cs r ≡ some r'
    → IsWellFormed r'
unfolding run
run-IsWellFormed [] r w e = ground arith
run-IsWellFormed (c ∷ cs) r {r' = r'} w e =
    let (s, e₁, e₂) = >>=-eq-some (step c r) (run cs) e in
    run-IsWellFormed cs s (step-IsWellFormed c r w e₁) e₂

-- What only ever goes up: both channels, and the set of names.
pub record Grows (r r' : Readiness) : Type 0 where
  pub ready : r.ready_chan ≡ true → r'.ready_chan ≡ true
  pub kubernetes : r.kubernetes_ready_chan ≡ true → r'.kubernetes_ready_chan ≡ true
  pub mode : r'.is_kubernetes ≡ r.is_kubernetes
  pub notified :
      r.kubernetes_ready_chan ≡ true
      → IsWellFormed r
      → r'.kubernetes_notified_at ≡ r.kubernetes_notified_at

finish_mark-Grows :
    (name : String) (now : ℕ) (c : Component) (r r' : Readiness)
    → finish_mark name now c r ≡ some r'
    → Grows r r'
unfolding finish_mark
finish_mark-Grows name now c r r' e = ground arith

mark_found-Grows :
    (name : String) (now : ℕ) (r : Readiness) (o : Option Component) {r' : Readiness}
    → mark_found name now r o ≡ some r'
    → Grows r r'
unfolding mark_found
mark_found-Grows name now r none e = cc
mark_found-Grows name now r (some c) {r' = r'} e = ground (arith, finish_mark-Grows name now c r r')

pub step-Grows : (c : Call) (r : Readiness) {r' : Readiness} → step c r ≡ some r' → Grows r r'
unfolding step add_component call_marker mark_ready mark_traffic_ready
step-Grows (add name now) r e = ground arith
step-Grows (use_marker noop now) r e = ground arith
step-Grows (use_marker (mark name) now) r {r' = r'} e =
    mark_found-Grows name now r (lookup name r.components) e
step-Grows (traffic now) r e = ground arith

run-Grows :
    (cs : List Call) (r : Readiness) {r' : Readiness}
    → IsWellFormed r
    → run cs r ≡ some r'
    → Grows r r'
unfolding run
run-Grows [] r w e = ground arith
run-Grows (c ∷ cs) r {r' = r'} w e =
    let (s, e₁, e₂) = >>=-eq-some (step c r) (run cs) e in
    let first = step-Grows c r e₁ in
    let rest = run-Grows cs s (step-IsWellFormed c r w e₁) e₂ in
    let w' = step-IsWellFormed c r w e₁ in ground arith

-- Once the components were ready, that stays, whatever calls follow.
run_ready_latched :
    (cs : List Call) (r : Readiness) {r' : Readiness}
    → IsWellFormed r
    → run cs r ≡ some r'
    → is_ready r ≡ true
    → is_ready r' ≡ true
run_ready_latched cs r w e h = (run-Grows cs r w e).ready h

-- Once Kubernetes was told, that stays, whatever calls follow: the service is ready then, and the
-- time of the notification does not change.
run_traffic_latched :
    (cs : List Call) (r : Readiness) {r' : Readiness}
    → IsWellFormed r
    → run cs r ≡ some r'
    → r.kubernetes_ready_chan ≡ true
    → (is_ready r' ≡ true)
      × (r'.kubernetes_ready_chan ≡ true)
      × (r'.kubernetes_notified_at ≡ r.kubernetes_notified_at)
run_traffic_latched cs r w e h =
    let g = run-Grows cs r w e in
    (g.ready (w.traffic_after_ready h), g.kubernetes h, g.notified h w)
