-- ===== src/Health/Panics.antt =====
-- Whether runs of calls on a `Readiness` panic.
use ecommerce_commons.Prelude.{
  ℕ, String, Bool, true, false, Option, none, some, List, [], ◌∷◌, ◌≡◌, ◌≢◌, inl, inr, refl, arith,
  lookup, str_eq, eq_iff, lookup-insert, >>=-ne-none, contains, Bool-cases, subst,
}
use ecommerce_commons.Health.{
  Component, Readiness, new_readiness, noop, mark, register, add_component, mark_ready,
  mark_traffic_ready, finish_mark, mark_found, call_marker, Call, add, use_marker, traffic, step,
  run,
}
use ecommerce_commons.Health.Invariant.{IsWellFormed, new_readiness-IsWellFormed}
use ecommerce_commons.Health.Latch.{step-IsWellFormed}

-- The names under which markers may be used: those that were added before.
abbrev pub IsIssued : List String → List Call → Type 0
IsIssued known [] = Unit
IsIssued known (add name now ∷ cs) = (name ≢ "") × IsIssued (name ∷ known) cs
IsIssued known (use_marker noop now ∷ cs) = IsIssued known cs
IsIssued known (use_marker (mark name) now ∷ cs) = (contains name known ≡ true) × IsIssued known cs
IsIssued known (traffic now ∷ cs) = IsIssued known cs

abbrev pub IsRegistered : Readiness → String → Type 0
IsRegistered r name = lookup name r.components ≢ none

abbrev pub Knows : List String → Readiness → Type 0
Knows known r = (name : String) → contains name known ≡ true → IsRegistered r name

pub register-Knows :
    (name : String) (now : ℕ) (known : List String) (r : Readiness)
    → Knows known r
    → Knows (name ∷ known) (register name now r).0
unfolding register
register-Knows name now known r k other h =
    let comp : Component = record { name = name; ready = false; started_at = now; ready_at = 0 } in
    ground (
      arith,
      k other,
      lookup-insert name other comp r.components,
      eq_iff name other,
      eq_iff other name,
    )

finish_mark-Knows :
    (name : String) (now : ℕ) (known : List String) (c : Component) (r r' : Readiness)
    → Knows known r
    → finish_mark name now c r ≡ some r'
    → Knows known r'
unfolding finish_mark
finish_mark-Knows name now known c r r' k e other h =
    let c' : Component = record c { ready = true; ready_at = now } in
    ground (arith, k other, lookup-insert name other c' r.components)

finish_mark-ne-none :
    (name : String) (now : ℕ) (c : Component) (r : Readiness)
    → r.ready_once ≡ r.ready_chan
    → finish_mark name now c r ≢ none
unfolding finish_mark
finish_mark-ne-none name now c r w = ground arith

pub mark_found-Knows :
    (name : String) (now : ℕ) (known : List String) (r : Readiness) (o : Option Component)
    {r' : Readiness}
    → Knows known r
    → mark_found name now r o ≡ some r'
    → Knows known r'
unfolding mark_found finish_mark
mark_found-Knows name now known r none k e = cc
mark_found-Knows name now known r (some c) {r' = r'} k e = elim (Bool-cases c.ready) [
  | inl old ↦
      let same : some r ≡ some r' = rw old at e in subst (Knows known) {x = r} {y = r'} (cc) k
  | inr new ↦ finish_mark-Knows name now known c r r' k (rw new at e)
]

pub mark_found-ne-none :
    (name : String) (now : ℕ) (r : Readiness) (o : Option Component)
    → r.ready_once ≡ r.ready_chan
    → o ≢ none
    → mark_found name now r o ≢ none
unfolding mark_found
mark_found-ne-none name now r none w h = absurd (h refl)
mark_found-ne-none name now r (some c) w h = ground (arith, finish_mark-ne-none name now c r w)

traffic-components :
    (now : ℕ) (r : Readiness) {r' : Readiness}
    → mark_traffic_ready now r ≡ some r'
    → r'.components ≡ r.components
unfolding mark_traffic_ready
traffic-components now r e = ground arith

traffic-ne-none : (now : ℕ) (r : Readiness) → IsWellFormed r → mark_traffic_ready now r ≢ none
unfolding mark_traffic_ready
traffic-ne-none now r w = ground arith

step-Knows-add :
    (name : String) (now : ℕ) (known : List String) (r : Readiness) {s : Readiness}
    → Knows known r
    → step (add name now) r ≡ some s
    → Knows (name ∷ known) s
unfolding step add_component
step-Knows-add name now known r {s = s} k e = elim (Bool-cases (str_eq name "")) [
  | inl bad ↦ let e' : none ≡ some s = rw bad at e in cc
  | inr good ↦
      let e' : some (register name now r).0 ≡ some s = rw good at e in
      subst (Knows (name ∷ known)) {x = (register name now r).0} {y = s} (cc)
        (register-Knows name now known r k)
]

run-ne-none :
    (cs : List Call) (known : List String) (r : Readiness)
    → IsWellFormed r
    → Knows known r
    → IsIssued known cs
    → run cs r ≢ none
unfolding run step call_marker mark_ready
run-ne-none [] known r w k h = ground arith
run-ne-none (add name now ∷ cs) known r w k h =
    >>=-ne-none (step (add name now) r) (run cs)
      (unfold add_component in ground (arith, eq_iff name ""))
      λ s e.
        run-ne-none cs (name ∷ known) s (step-IsWellFormed (add name now) r w e)
          (step-Knows-add name now known r k e) h.1
run-ne-none (use_marker noop now ∷ cs) known r w k h = run-ne-none cs known r w k h
run-ne-none (use_marker (mark name) now ∷ cs) known r w k h =
    >>=-ne-none (step (use_marker (mark name) now) r) (run cs)
      (mark_found-ne-none name now r _ w.once_is_chan (k name h.0))
      λ s e.
        run-ne-none cs known s (step-IsWellFormed (use_marker (mark name) now) r w e)
          (mark_found-Knows name now known r (lookup name r.components) k e) h.1
run-ne-none (traffic now ∷ cs) known r w k h =
    >>=-ne-none (step (traffic now) r) (run cs) (traffic-ne-none now r w) λ s e.
      run-ne-none cs known s (step-IsWellFormed (traffic now) r w e)
        (λ name g. rw (traffic-components now r e) (k name g)) h

-- A run of whole calls from a new `Readiness` never panics, if every added name is non-empty and every
-- marker that is used was handed out by an earlier add.
run_no_panic :
    (kubernetes : Bool) (cs : List Call) → IsIssued [] cs → run cs (new_readiness kubernetes) ≢ none
run_no_panic kubernetes cs h =
    run-ne-none cs [] (new_readiness kubernetes) (new_readiness-IsWellFormed kubernetes)
      (λ name g. cc) h
