-- ===== src/Security/Tests.antt =====
-- A request with a token, through the interceptors.
use ecommerce_commons.Prelude.{
  String, Option, none, some, [], ◌∷◌, ◌≡◌, inl, inr, refl, str_eq, str_ne→≢, lookup, if◌then◌else◌,
}
use ecommerce_commons.Security.{
  split, JwtClaims, strip, trim_prefix, Request, answered, ProcedurePermissions, chain,
}
use ecommerce_commons.Security.Access.{
  HasOne, as_claims, IsAllowed, permitted, OnlyAllowed, allowed_reaches, chain-OnlyAllowed,
}

-- The one token that the parser knows.
abbrev token : JwtClaims
token = record { subject = "u"; role = "editor"; tenant = "acme"; scope = "openid orders:write" }

abbrev parse : String → Option JwtClaims
parse text = if str_eq text "t1" then some token else none

abbrev permissions : ProcedurePermissions
permissions = ("/orders/Create", some ("orders:write" ∷ [])) ∷ ("/orders/Health", none) ∷ []

abbrev call : Request
call = record { procedure = "/orders/Create"; authorization = "Bearer t1"; tenant_slug = "acme" }

call-token : trim_prefix "Bearer " call.authorization ≡ "t1"
unfolding trim_prefix strip
call-token = refl

call-lookup : lookup call.procedure permissions ≡ some (some ("orders:write" ∷ []))
unfolding lookup
call-lookup = refl

call-split : split token.scope ≡ "openid" ∷ "orders:write" ∷ []
unfolding split
call-split = refl

call-HasOne : HasOne token ("orders:write" ∷ [])
unfolding split
call-HasOne = inr ("orders:write", refl, (refl, (str_ne→≢ "orders:write" "" refl), refl))

call-IsAllowed :
    IsAllowed parse permissions call
      (record { slug = some "acme"; claims = some (as_claims token) })
unfolding trim_prefix strip
call-IsAllowed =
    permitted ("orders:write" ∷ []) token (str_ne→≢ "acme" "" refl) call-lookup
      (str_ne→≢ "t1" "" refl) refl (str_ne→≢ "u" "" refl) call-HasOne (inl refl)

chain-OnlyAllowed_example :
    OnlyAllowed parse permissions call (chain parse permissions answered call)
chain-OnlyAllowed_example = chain-OnlyAllowed parse permissions call

allowed_reaches_example :
    chain parse permissions answered call
    ≡ answered (record { slug = some "acme"; claims = some (as_claims token) })
allowed_reaches_example = allowed_reaches answered parse permissions call call-IsAllowed
