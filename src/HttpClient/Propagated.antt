-- ===== src/HttpClient/Propagated.antt =====
-- The tenant of a call, from the context of the caller to the context of the service that is called.
use Prim.Native.String.{◌++◌ as join}
use ecommerce_commons.Prelude.{
  String, false, Option, none, some, str_eq, lookup, insert, lookup-insert, if◌then◌else◌, ◌≡◌, ap,
  ◌∙◌,
}
use ecommerce_commons.Outbox.Create.{slug_from_context}
use ecommerce_commons.Security.{
  Context, Request, Answer, refused, invalid_argument, resolver_interceptor,
}
use ecommerce_commons.HttpClient.{
  Headers, sent, tenant_slug_header, with_tenant, tenant_transport, auth_transport, client_call,
}

abbrev pub or_blank_text : Option String → String
or_blank_text none = ""
or_blank_text (some v) = v

-- `Header.Get`
abbrev pub get_header : String → Headers → String
get_header k headers = or_blank_text (lookup k headers)

-- What the transport below gets, for a token and a slug.
abbrev pub outgoing : String → String → Headers → Headers
outgoing token slug headers =
    insert tenant_slug_header slug (insert "Authorization" (join "Bearer " token) headers)

-- A call with a token, in the context of a tenant: the transport below is called once, with headers
-- that name the tenant and carry the token and leave every other header as it is; and a service that
-- takes the tenant of its request from them runs in the context of that tenant.
pub tenant_propagated :
    {R P : Type 0}
    → (token slug k : String) (headers : Headers) (base : Headers → R) (next : Context → Answer P)
      (q : Request) (ctx : Context)
    → str_eq slug "" ≡ false
    → str_eq tenant_slug_header k ≡ false
    → str_eq "Authorization" k ≡ false
    → (client_call (some (some token)) (some slug) base headers
        ≡ sent (base (outgoing token slug headers)))
      × (get_header "Authorization" (outgoing token slug headers) ≡ join "Bearer " token)
      × (get_header k (outgoing token slug headers) ≡ get_header k headers)
      × (resolver_interceptor next
            (record q { tenant_slug = get_header tenant_slug_header (outgoing token slug headers) })
            ctx
          ≡ next (record ctx { slug = some slug }))
unfolding client_call tenant_transport auth_transport slug_from_context resolver_interceptor
tenant_propagated token slug k headers base next q ctx named other1 other2 = (
  ap
      (λ b. sent (
        with_tenant (if b then none else some slug) base
          (insert "Authorization" (join "Bearer " token) headers)))
      named,
  ap or_blank_text (
      lookup-insert tenant_slug_header "Authorization" slug
        (insert "Authorization" (join "Bearer " token) headers)
      ∙ lookup-insert "Authorization" "Authorization" (join "Bearer " token) headers),
  ap or_blank_text kept,
  ap (λ s. resolver_interceptor next (record q { tenant_slug = s }) ctx)
        (ap or_blank_text (
          lookup-insert tenant_slug_header tenant_slug_header slug
            (insert "Authorization" (join "Bearer " token) headers)))
      ∙ ap (λ b. if b then refused invalid_argument else next (record ctx { slug = some slug }))
          named,
)
  where
    inner : Headers
    inner = insert "Authorization" (join "Bearer " token) headers

    kept : lookup k (outgoing token slug headers) ≡ lookup k headers
    kept =
        lookup-insert tenant_slug_header k slug inner
        ∙ ap (λ b. if b then some slug else lookup k inner) other1
        ∙ lookup-insert "Authorization" k (join "Bearer " token) headers
        ∙ ap (λ b. if b then some (join "Bearer " token) else lookup k headers) other2
