-- ===== src/Health/Tests.antt =====
-- Runs of the readiness state on concrete calls.
use mathlib.Core.List.{Permᴰ, Pairwise, not-mem-nil, eq-or-mem_of_mem-cons}
use mathlib.Core.Logic.Or
use mathlib.Core.HLevel.{¬_prop}
use ecommerce_commons.Prelude.{
  String, true, false, none, some, List, [], ◌∷◌, ◌≡◌, ◌≢◌, refl, arith, lookup, insert, ap, ◌∙◌,
  str_ne→≢,
}
use ecommerce_commons.Health.{
  Component, Readiness, new_readiness, mark, add_component, register, every_ready, mark_ready,
  mark_found, finish_mark, check_all_ready, close_ready, call_marker, mark_traffic_ready, Call, add,
  use_marker, traffic, step, run, is_ready,
}
use ecommerce_commons.Health.Invariant.{IsWellFormed, new_readiness-IsWellFormed}
use ecommerce_commons.Health.Latch.{run-IsWellFormed}
use ecommerce_commons.Health.Traffic.{
  Event, component_added, marker_used, ready_checked, open_checked, once_entered, channel_closed,
  advance_all, unprobed,
}
use ecommerce_commons.Health.Traffic.Safe.{IsOrderly, advance_all_no_panic}
use ecommerce_commons.Health.Exact.{mark_ready_exact, late_component}
use ecommerce_commons.Health.Status.{Distinct}
use ecommerce_commons.Health.Probe.{Request}

abbrev startup : List Call
startup =
    add "kafka" 1
    ∷ add "db" 2
    ∷ use_marker (mark "db") 3
    ∷ use_marker (mark "kafka") 4
    ∷ traffic 5
    ∷ []

abbrev kafka : Component
kafka = record { name = "kafka"; ready = true; started_at = 1; ready_at = 4 }

abbrev db : Component
db = record { name = "db"; ready = true; started_at = 2; ready_at = 3 }

-- Both components are ready, and Kubernetes was told.
abbrev started : Readiness
started = record {
  components = ("kafka", kafka) ∷ ("db", db) ∷ [];
  ready_chan = true;
  ready_once = true;
  kubernetes_ready_chan = true;
  kubernetes_ready_once = true;
  kubernetes_notified_at = 5;
  is_kubernetes = true;
}

-- One of two components is ready.
abbrev starting : Readiness
starting = record {
  components = ("kafka", record kafka { ready = false; ready_at = 0 }) ∷ ("db", db) ∷ [];
  ready_chan = false;
  ready_once = false;
  kubernetes_ready_chan = false;
  kubernetes_ready_once = false;
  kubernetes_notified_at = 0;
  is_kubernetes = true;
}

run-startup : run startup (new_readiness true) ≡ some started
unfolding run step add_component register call_marker mark_ready mark_found finish_mark
    check_all_ready close_ready every_ready mark_traffic_ready new_readiness lookup insert
run-startup = refl

-- Two probes see the open channel before either tells Kubernetes.
abbrev probes : List Event
probes =
    component_added "db" 2
    ∷ marker_used (mark "db") 3
    ∷ ready_checked
    ∷ ready_checked
    ∷ open_checked
    ∷ open_checked
    ∷ once_entered 5
    ∷ once_entered 5
    ∷ channel_closed
    ∷ channel_closed
    ∷ []

probes-IsOrderly : IsOrderly [] probes
probes-IsOrderly = (str_ne→≢ "db" "" refl, (refl, tt))

advance_all_no_panic_example : advance_all probes (unprobed true) ≢ none
advance_all_no_panic_example = advance_all_no_panic true probes probes-IsOrderly

started-IsWellFormed : IsWellFormed started
started-IsWellFormed =
    run-IsWellFormed startup (new_readiness true) (new_readiness-IsWellFormed true) run-startup

starting-IsWellFormed : IsWellFormed starting
unfolding every_ready
starting-IsWellFormed = ground arith

abbrev late : List Call
late = add "cache" 7 ∷ []

abbrev with_cache : Readiness
with_cache = record started {
  components =
      ("kafka", kafka)
      ∷ ("db", db)
      ∷ ("cache", record { name = "cache"; ready = false; started_at = 7; ready_at = 0 })
      ∷ [];
}

run-late : run late started ≡ some with_cache
unfolding run step add_component register lookup insert
run-late = refl

abbrev marked : Readiness
marked = record starting {
  components = ("kafka", kafka) ∷ ("db", db) ∷ [];
  ready_chan = true;
  ready_once = true;
}

mark_ready-starting : mark_ready "kafka" 4 starting ≡ some marked
unfolding mark_ready mark_found finish_mark check_all_ready close_ready every_ready lookup insert
mark_ready-starting = refl

mark_ready_exact_example : is_ready marked ≡ every_ready marked.components
mark_ready_exact_example =
    mark_ready_exact "kafka" 4 starting starting-IsWellFormed refl mark_ready-starting

add_component-started : add_component "cache" 7 started ≡ some (with_cache, mark "cache")
unfolding add_component register lookup insert
add_component-started = refl

lookup-cache : lookup "cache" started.components ≡ none
unfolding lookup
lookup-cache = refl

late_component_example : (is_ready with_cache ≡ true) × (every_ready with_cache.components ≡ false)
late_component_example = late_component "cache" 7 started refl lookup-cache add_component-started

db_is_not_kafka : (d : String × Component) → d ≡ ("db", db) → "kafka" ≢ d.1.name
db_is_not_kafka d e same =
    let names : d.1.name ≡ "db" = ap (λ x. x.1.name) e in
    let equal : "kafka" ≡ "db" = same ∙ names in str_ne→≢ "kafka" "db" refl equal

started-Distinct : Distinct started.components
started-Distinct =
    Pairwise.cons
      (λ d m.
        Or.elim ¬_prop (eq-or-mem_of_mem-cons m) (db_is_not_kafka d) (λ n. absurd (not-mem-nil n)))
      (Pairwise.cons (λ d m. absurd (not-mem-nil m)) Pairwise.nil)

swapped : Permᴰ started.components (("db", db) ∷ ("kafka", kafka) ∷ [])
swapped = Permᴰ.swap refl refl

abbrev probe : Request
probe = record { format = ""; accept = "*/*" }
