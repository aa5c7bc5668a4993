-- ===== src/HttpClient.antt =====
-- pkg/http/client (client.go, auth.go, tenant.go): the settings of a client and the transports around
-- the one of `Retry`. Headers are an association list by their canonical names; the transport below is
-- a function of the headers that reach it. The source of tokens is a parameter. Durations are `ℤ`
-- nanoseconds.
pub mod Propagated
mod Tests
use Prim.Native.String.{◌++◌ as join}
use ecommerce_commons.Prelude.{
  String, Bool, true, false, Option, none, some, List, ℤ, pos, le_int, second, ◌*◌, str_eq, insert,
  if◌then◌else◌,
}
use ecommerce_commons.Outbox.Create.{slug_from_context}

-- `Config`
pub record ClientConfig : Type 0 where
  pub base_url : String
  pub timeout : Option ℤ
  pub max_idle_conns_per_host : Option ℤ
  pub idle_conn_timeout : Option ℤ
  pub max_conn_lifetime : Option ℤ

abbrev pub given_or : ℤ → Option ℤ → Option ℤ
given_or default none = some default
given_or default (some x) = some x

-- `ApplyDefaults`
unfoldable pub default_client : ClientConfig → ClientConfig
default_client c = record c {
  timeout = given_or (pos (10 * second)) c.timeout;
  max_idle_conns_per_host = given_or (pos 100) c.max_idle_conns_per_host;
  idle_conn_timeout = given_or (pos (90 * second)) c.idle_conn_timeout;
  max_conn_lifetime = given_or (pos (60 * second)) c.max_conn_lifetime;
}

-- `Validate`
unfoldable pub check_client : ClientConfig → Option String
check_client c = if str_eq c.base_url "" then some "base-url is required" else none

-- `min(maxIdleConnsPerHost, MaxRetriesCap)`
abbrev pub client_retries : ℤ → ℤ
client_retries conns = if le_int conns (pos 5) then conns else pos 5

abbrev pub Headers : Type 0
Headers = List (String × String)

-- What a call of a client ends with: what the transport below returns, or the error of the token.
pub data Sent (R : Type 0) : Type 0 where
  sent : R → Sent R
  no_token : Sent R

abbrev pub tenant_slug_header : String
tenant_slug_header = "X-Tenant-Slug"

module _ {R : Type 0} where
  abbrev pub with_tenant : Option String → (Headers → R) → Headers → R
  with_tenant none base headers = base headers
  with_tenant (some slug) base headers = base (insert tenant_slug_header slug headers)

  -- `RoundTrip` of `tenantTransport`, in a context with this slug
  unfoldable pub tenant_transport : Option String → (Headers → R) → Headers → R
  tenant_transport ctx base headers = with_tenant (slug_from_context ctx) base headers

  -- `RoundTrip` of `authTransport`, with what the source answers
  unfoldable pub auth_transport : Option String → (Headers → R) → Headers → Sent R
  auth_transport none base headers = no_token
  auth_transport (some token) base headers =
      sent (base (insert "Authorization" (join "Bearer " token) headers))

  -- The chain of `newHTTPClient`; `none` is a client without a source of tokens.
  unfoldable pub client_call :
      Option (Option String) → Option String → (Headers → R) → Headers → Sent R
  unfolding tenant_transport auth_transport
  client_call none ctx base headers = sent (tenant_transport ctx base headers)
  client_call (some answer) ctx base headers =
      auth_transport answer (tenant_transport ctx base) headers
