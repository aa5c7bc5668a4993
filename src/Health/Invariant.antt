-- ===== src/Health/Invariant.antt =====
-- What holds of the readiness state between two calls.
use ecommerce_commons.Prelude.{
  ℕ, String, Bool, true, false, Option, none, none, some, List, [], ◌∷◌, ◌≡◌, ◌⊎◌, refl, arith,
  insert, length-insert-pos,
}
use ecommerce_commons.Health.{
  Component, Readiness, new_readiness, Marker, add_component, every_ready, mark_ready,
  mark_traffic_ready, finish_mark, mark_found,
}

-- `readyChan` is closed exactly when its `Once` has run, likewise for Kubernetes; Kubernetes is told
-- only after the components were ready; and while `readyChan` is open a component is missing.
pub record IsWellFormed (r : Readiness) : Type 0 where
  pub once_is_chan : r.ready_once ≡ r.ready_chan
  pub kubernetes_once : r.kubernetes_ready_once ≡ r.kubernetes_ready_chan
  pub traffic_after_ready : r.kubernetes_ready_chan ≡ true → r.ready_chan ≡ true
  pub waits_for_one :
      r.ready_chan ≡ false → (r.components ≡ []) ⊎ (every_ready r.components ≡ false)

pub new_readiness-IsWellFormed : (k : Bool) → IsWellFormed (new_readiness k)
unfolding new_readiness every_ready
new_readiness-IsWellFormed k = ground arith

-- A fresh entry that is not ready makes the loop answer no.
pub every_ready-insert :
    (name : String) (c : Component) (m : List (String × Component))
    → c.ready ≡ false
    → every_ready (insert name c m) ≡ false
unfolding every_ready insert
every_ready-insert name c [] h = ground arith
every_ready-insert name c ((j, d) ∷ m) h = ground (arith, every_ready-insert name c m)

pub add_component-IsWellFormed :
    (name : String) (now : ℕ) (r : Readiness) {r' : Readiness} {m : Marker}
    → IsWellFormed r
    → add_component name now r ≡ some (r', m)
    → IsWellFormed r'
unfolding add_component
add_component-IsWellFormed name now r w e =
    let comp : Component = record { name = name; ready = false; started_at = now; ready_at = 0 } in
    ground (arith, every_ready-insert name comp r.components refl)

-- The check that a marking function ends with restores what the open channel promises.
finish_mark-IsWellFormed :
    (name : String) (now : ℕ) (c : Component) (r r' : Readiness)
    → IsWellFormed r
    → finish_mark name now c r ≡ some r'
    → IsWellFormed r'
unfolding finish_mark
finish_mark-IsWellFormed name now c r r' w e =
    let c' : Component = record c { ready = true; ready_at = now } in
    ground (arith, length-insert-pos name c' r.components)

mark_found-IsWellFormed :
    (name : String) (now : ℕ) (r : Readiness) (o : Option Component) {r' : Readiness}
    → IsWellFormed r
    → mark_found name now r o ≡ some r'
    → IsWellFormed r'
unfolding mark_found
mark_found-IsWellFormed name now r none w e = cc
mark_found-IsWellFormed name now r (some c) {r' = r'} w e =
    ground (arith, finish_mark-IsWellFormed name now c r r' w)

-- Every call of a marking function keeps the invariant.
pub mark_ready-IsWellFormed :
    (name : String) (now : ℕ) (r : Readiness) {r' : Readiness}
    → IsWellFormed r
    → mark_ready name now r ≡ some r'
    → IsWellFormed r'
unfolding mark_ready
mark_ready-IsWellFormed name now r w e = mark_found-IsWellFormed name now r _ w e

pub mark_traffic_ready-IsWellFormed :
    (now : ℕ) (r : Readiness) {r' : Readiness}
    → IsWellFormed r
    → mark_traffic_ready now r ≡ some r'
    → IsWellFormed r'
unfolding mark_traffic_ready
mark_traffic_ready-IsWellFormed now r w e = ground arith
