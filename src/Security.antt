-- ===== src/Security.antt =====
-- pkg/security/validation (claims.go, context.go, validator.go, interceptor.go) and pkg/tenant
-- (interceptor.go, context.go): who may call a procedure. An interceptor is a function of the rest of
-- the chain; the order is that of the priorities 18, 22 and 26 in the modules pkg/tenant/fxconfig
-- and pkg/security/validation/fxconfig. The parsing of a JWT, with its signature, its issuer, its
-- audience and its time, is a parameter. A response of the service is of any type.
pub mod Access
mod Tests
use Prim.Native.Char.{Char, code}
use Prim.Native.String.{String}
use ecommerce_commons.Prelude.{
  Bool, true, false, not, ◌&&◌, ◌||◌, Option, none, some, List, [], ◌∷◌, ◌==◌, str_eq, contains,
  lookup, if◌then◌else◌,
}

-- `Claims`
pub record Claims : Type 0 where
  pub tenant : String
  pub role : String
  pub permissions : List String

-- The loop of `HasAnyPermission`.
unfoldable pub any_granted : List String → List String → Bool
any_granted granted [] = false
any_granted granted (p ∷ ps) = contains p granted || any_granted granted ps

-- `HasAnyPermission`
unfoldable pub has_any_permission : Claims → List String → Bool
has_any_permission c [] = true
has_any_permission c (p ∷ ps) = any_granted c.permissions (p ∷ ps)

-- `IsTenantScoped`
unfoldable pub is_tenant_scoped : Claims → Bool
is_tenant_scoped c = not (str_eq c.tenant "")

-- `CanAccessAnyTenant`
unfoldable pub can_access_any_tenant : Claims → Bool
can_access_any_tenant c =
    if not (str_eq c.tenant "") then false else contains "cross-tenant" c.permissions

-- `jwtClaims`, with the registered claim that is used.
pub record JwtClaims : Type 0 where
  pub subject : String
  pub role : String
  pub tenant : String
  pub scope : String

-- `oidcScopes`
abbrev pub oidc_scopes : List String
oidc_scopes = "openid" ∷ "profile" ∷ "email" ∷ "offline_access" ∷ "all" ∷ []

unfoldable pub is_oidc : String → Bool
is_oidc s = contains s oidc_scopes

-- `strings.Split(s, " ")`
abbrev pub is_blank : Char → Bool
is_blank c = code c == 32

abbrev pub add_first : Char → List String → List String
add_first c [] = (String.◌∷◌ c String.[]) ∷ []
add_first c (w ∷ ws) = (String.◌∷◌ c w) ∷ ws

unfoldable pub split : String → List String
split String.[] = "" ∷ []
split (String.◌∷◌ c s) = let rest = split s in if is_blank c then "" ∷ rest else add_first c rest

-- The loop of `parseScopes`.
unfoldable pub own_scopes : List String → List String
own_scopes [] = []
own_scopes (s ∷ parts) =
    let rest = own_scopes parts in if not (str_eq s "") && not (is_oidc s) then s ∷ rest else rest

-- `parseScopes`
unfoldable pub parse_scopes : String → List String
parse_scopes scope = if str_eq scope "" then [] else own_scopes (split scope)

-- `ValidateToken`, after the parser, which accepts or refuses the token.
unfoldable pub claims_of : Option JwtClaims → Option Claims
claims_of none = none
claims_of (some c) =
    if str_eq c.subject ""
    then none
    else some (record { tenant = c.tenant; role = c.role; permissions = parse_scopes c.scope })

unfoldable pub validate_token : (String → Option JwtClaims) → String → Option Claims
unfolding claims_of
validate_token parse token = claims_of (parse token)

-- `strings.TrimPrefix`
unfoldable pub strip : String → String → Option String
strip String.[] s = some s
strip (String.◌∷◌ c p) String.[] = none
strip (String.◌∷◌ c p) (String.◌∷◌ d s) =
    let rest = strip p s in if code c == code d then rest else none

abbrev pub or_whole : String → Option String → String
or_whole s none = s
or_whole s (some rest) = rest

unfoldable pub trim_prefix : String → String → String
unfolding strip
trim_prefix p s = or_whole s (strip p s)

-- What the interceptors read of a request, and what they keep in its context.
pub record Request : Type 0 where
  pub procedure : String
  pub authorization : String
  pub tenant_slug : String

pub record Context : Type 0 where
  pub slug : Option String
  pub claims : Option Claims

pub data Code : Type 0 where
  invalid_argument unauthenticated permission_denied : Code

pub data Answer (R : Type 0) : Type 0 where
  answered : R → Answer R
  refused : Code → Answer R
  panicked : Answer R

-- `ProcedurePermissions`: an entry that is nil is `none`.
abbrev pub ProcedurePermissions : Type 0
ProcedurePermissions = List (String × Option (List String))

module _ {R : Type 0} (next : Context → Answer R) where
  -- `NewResolverInterceptor`
  unfoldable pub resolver_interceptor : Request → Context → Answer R
  resolver_interceptor q ctx =
      if str_eq q.tenant_slug ""
      then refused invalid_argument
      else next (record ctx { slug = some q.tenant_slug })

  -- `NewAuthInterceptor`, from the end of it: the permissions of the claims, the token's claims, the
  -- token, the permissions that the procedure asks for.
  unfoldable pub authorized : List String → Context → Option Claims → Answer R
  authorized perms ctx none = refused unauthenticated
  authorized perms ctx (some claims) =
      if has_any_permission claims perms
      then next (record ctx { claims = some claims })
      else refused permission_denied

  unfoldable pub with_token :
      (String → Option JwtClaims) → List String → String → Context → Answer R
  unfolding authorized
  with_token parse perms token ctx =
      if str_eq token ""
      then refused unauthenticated
      else authorized perms ctx (validate_token parse token)

  unfoldable pub for_procedure :
      (String → Option JwtClaims) → Request → Context → Option (Option (List String)) → Answer R
  unfolding with_token
  for_procedure parse q ctx none = refused permission_denied
  for_procedure parse q ctx (some none) = next ctx
  for_procedure parse q ctx (some (some perms)) =
      with_token parse perms (trim_prefix "Bearer " q.authorization) ctx

  unfoldable pub auth_interceptor :
      (String → Option JwtClaims) → ProcedurePermissions → Request → Context → Answer R
  unfolding for_procedure
  auth_interceptor parse perms q ctx = for_procedure parse q ctx (lookup q.procedure perms)

  -- `NewValidatorInterceptor`; `MustSlugFromContext` panics without a slug.
  unfoldable pub matches_tenant : Context → Claims → Option String → Answer R
  matches_tenant ctx claims none = panicked
  matches_tenant ctx claims (some slug) =
      if str_eq slug ""
      then panicked
      else if is_tenant_scoped claims && not (str_eq claims.tenant slug)
      then refused permission_denied
      else if not (is_tenant_scoped claims) && not (can_access_any_tenant claims)
      then refused permission_denied
      else next ctx

  unfoldable pub for_claims : Context → Option Claims → Answer R
  unfolding matches_tenant
  for_claims ctx none = next ctx
  for_claims ctx (some claims) = matches_tenant ctx claims ctx.slug

  unfoldable pub validator_interceptor : Context → Answer R
  unfolding for_claims
  validator_interceptor ctx = for_claims ctx ctx.claims

-- The three in the order of their priorities, in front of the service.
unfoldable pub chain :
    {R : Type 0}
    → (String → Option JwtClaims)
    → ProcedurePermissions
    → (Context → Answer R)
    → Request
    → Answer R
unfolding resolver_interceptor auth_interceptor validator_interceptor
chain parse perms service q =
    resolver_interceptor (auth_interceptor (validator_interceptor service) parse perms q) q
      (record { slug = none; claims = none })
