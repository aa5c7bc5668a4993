-- ===== src/Health/Probe.antt =====
-- pkg/http/health/handler.go: the readiness and liveness endpoints over the readiness state.
use ecommerce_commons.Prelude.{
  ℕ, String, Bool, true, Option, some, ◌≡◌, ◌||◌, ◌&&◌, not, str_eq, refl, arith, if◌then◌else◌,
  ◌>>=◌,
}
use ecommerce_commons.Health.{Readiness, is_ready, mark_traffic_ready}
use ecommerce_commons.Health.Status.{ReadinessStatus, get_status}
use ecommerce_commons.Health.Invariant.{IsWellFormed}

pub data Body : Type 0 where
  text : String → Body
  json : ReadinessStatus → Body

pub record Response : Type 0 where
  pub code : ℕ
  pub body : Body

-- What the handler reads of a request: the query's `format` and the `Accept` header.
pub record Request : Type 0 where
  pub format : String
  pub accept : String

abbrev wants_json : Request → Bool
wants_json q = str_eq q.format "json" || str_eq q.accept "application/json"

abbrev pub status_ok : ℕ
status_ok = 200

abbrev pub status_service_unavailable : ℕ
status_service_unavailable = 503

-- `HealthHandler.IsReady`
unfoldable pub serve_ready : Request → ℕ → Readiness → Option (Response × Readiness)
serve_ready q now r =
    if wants_json q
    then (let status = get_status r in
        some (
          record {
            code = if status.ready then status_ok else status_service_unavailable;
            body = json status;
          },
          r,
        ))
    else if is_ready r
    then (do
      r' ← mark_traffic_ready now r
      some (record { code = status_ok; body = text "ready" }, r'))
    else some (record { code = status_service_unavailable; body = text "not ready" }, r)

-- `HealthHandler.IsLive`
unfoldable pub serve_live : Response
serve_live = record { code = status_ok; body = text "alive" }

-- The state after a probe: only a plain-text probe of a ready service tells Kubernetes, once.
abbrev pub probed : Request → ℕ → Readiness → Readiness
probed q now r =
    if is_ready r && not (wants_json q) && not r.kubernetes_ready_chan
    then record r {
      kubernetes_ready_once = true;
      kubernetes_ready_chan = true;
      kubernetes_notified_at = now;
    }
    else r

body_of : Request → Readiness → Body
body_of q r =
    if wants_json q then json (get_status r) else text (if is_ready r then "ready" else "not ready")

-- Every probe is answered, with 200 if the service is ready and 503 if not, and it leaves the state
-- `probed`: a JSON probe, and any probe of a service that is not ready or was told, changes nothing.
serve_ready_lem :
    (q : Request) (now : ℕ) (r : Readiness)
    → IsWellFormed r
    → (answer : Response) × (serve_ready q now r ≡ some (answer, probed q now r))
      × (answer.code ≡ (if is_ready r then 200 else 503))
unfolding serve_ready mark_traffic_ready get_status body_of
serve_ready_lem q now r w =
    (record { code = if is_ready r then 200 else 503; body = body_of q r }, ground arith, refl)
