-- ===== src/Health/Exact.antt =====
-- When a `Readiness` reports ready, against the components that it holds.
use ecommerce_commons.Prelude.{
  ℕ, String, true, false, Option, none, some, [], ◌≡◌, ◌⊎◌, inl, inr, refl, arith, lookup,
  length-insert-pos,
}
use ecommerce_commons.Health.{
  Component, Readiness, Marker, register, add_component, every_ready, mark_ready, finish_mark,
  mark_found, WaitForTrafficReady, local_mode, probed, ContextError, is_ready, components_ready,
}
use ecommerce_commons.Health.Invariant.{every_ready-insert, IsWellFormed}

finish_mark-exact :
    (name : String) (now : ℕ) (c : Component) (r r' : Readiness)
    → is_ready r ≡ false
    → IsWellFormed r
    → finish_mark name now c r ≡ some r'
    → is_ready r' ≡ every_ready r'.components
unfolding finish_mark
finish_mark-exact name now c r r' u w e =
    let c' : Component = record c { ready = true; ready_at = now } in
    ground (arith, length-insert-pos name c' r.components)

mark_found-exact :
    (name : String) (now : ℕ) (r : Readiness) (o : Option Component) {r' : Readiness}
    → is_ready r ≡ false
    → IsWellFormed r
    → (r.components ≡ [] → o ≡ none)
    → mark_found name now r o ≡ some r'
    → is_ready r' ≡ every_ready r'.components
unfolding mark_found
mark_found-exact name now r none u w n e = cc
mark_found-exact name now r (some c) {r' = r'} u w n e =
    ground (arith, finish_mark-exact name now c r r' u w)

lookup-nil : (name : String) (r : Readiness) → r.components ≡ [] → lookup name r.components ≡ none
unfolding lookup
lookup-nil name r e = rw e

-- While the service is not ready, a call of a marking function makes it ready exactly when after it
-- every registered component is ready.
pub mark_ready_exact :
    (name : String) (now : ℕ) (r : Readiness) {r' : Readiness}
    → IsWellFormed r
    → is_ready r ≡ false
    → mark_ready name now r ≡ some r'
    → is_ready r' ≡ every_ready r'.components
unfolding mark_ready
mark_ready_exact name now r w u e = mark_found-exact name now r _ u w (lookup-nil name r) e

-- A component that is added once the service is ready does not take that back: the service reports
-- ready while that component is not.
pub late_component :
    (name : String) (now : ℕ) (r : Readiness) {r' : Readiness} {m : Marker}
    → is_ready r ≡ true
    → lookup name r.components ≡ none
    → add_component name now r ≡ some (r', m)
    → (is_ready r' ≡ true) × (every_ready r'.components ≡ false)
unfolding add_component register
late_component name now r u n e =
    let comp : Component = record { name = name; ready = false; started_at = now; ready_at = 0 } in
    ground (arith, every_ready-insert name comp r.components refl)

-- A wait for traffic returns without an error only after the components were ready, and in
-- Kubernetes only after the probe has been answered.
wait_for_traffic_sound :
    (r r' : Readiness) {ctx ctx' : Option ContextError}
    → WaitForTrafficReady r r' ctx ctx' none
    → (is_ready r ≡ true) × ((r.is_kubernetes ≡ false) ⊎ (r'.kubernetes_ready_chan ≡ true))
wait_for_traffic_sound r r' (local_mode (components_ready h) l) = (h, inl l)
wait_for_traffic_sound r r' (probed (components_ready h) k p) = (h, inr p)
