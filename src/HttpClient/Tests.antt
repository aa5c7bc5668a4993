-- ===== src/HttpClient/Tests.antt =====
-- A call between two services on concrete headers.
use Prim.Native.String.{◌++◌ as join}
use ecommerce_commons.Prelude.{String, Option, none, some, [], ◌∷◌, length, ◌≡◌, refl}
use ecommerce_commons.Security.{Context, Request, Answer, answered, resolver_interceptor}
use ecommerce_commons.HttpClient.{sent, tenant_slug_header, client_call, Headers}
use ecommerce_commons.HttpClient.Propagated.{get_header, outgoing, tenant_propagated}

abbrev plain : Headers
plain = ("Content-Type", "application/proto") ∷ (tenant_slug_header, "other") ∷ []

abbrev request : Request
request = record { procedure = "/shop.Orders/Get"; authorization = ""; tenant_slug = "" }

abbrev nobody : Context
nobody = record { slug = none; claims = none }

abbrev echo : Context → Answer (Option String)
echo ctx = answered ctx.slug

tenant_propagated_example :
    (client_call (some (some "abc")) (some "acme") length plain
      ≡ sent (length (outgoing "abc" "acme" plain)))
    × (get_header "Authorization" (outgoing "abc" "acme" plain) ≡ join "Bearer " "abc")
    × (get_header "Content-Type" (outgoing "abc" "acme" plain) ≡ get_header "Content-Type" plain)
    × (resolver_interceptor echo
          (record request {
            tenant_slug = get_header tenant_slug_header (outgoing "abc" "acme" plain);
          })
          nobody
        ≡ echo (record nobody { slug = some "acme" }))
tenant_propagated_example =
    tenant_propagated "abc" "acme" "Content-Type" plain length echo request nobody refl refl refl
