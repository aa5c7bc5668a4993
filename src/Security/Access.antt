-- ===== src/Security/Access.antt =====
-- Which requests reach the service.
use ecommerce_commons.Prelude.{
  String, Bool, true, false, not, ◌&&◌, Option, none, some, List, [], ◌∷◌, ◌≡◌, ◌≢◌, ◌⊎◌, inl, inr,
  refl, arith, str_eq, eq_iff, str_eq→≡, Bool-cases, str_ne→≢, ap, ◌∙◌, contains, lookup,
  if◌then◌else◌,
}
use ecommerce_commons.Security.{
  Claims, any_granted, has_any_permission, claims_of, is_tenant_scoped, can_access_any_tenant,
  is_oidc, split, own_scopes, parse_scopes, JwtClaims, validate_token, trim_prefix, Request,
  Context, Answer, answered, refused, panicked, permission_denied, ProcedurePermissions,
  resolver_interceptor, authorized, with_token, for_procedure, auth_interceptor, matches_tenant,
  for_claims, validator_interceptor, chain,
}

contains-own_scopes :
    (p : String) (parts : List String)
    → contains p (own_scopes parts) ≡ (contains p parts && not (str_eq p "") && not (is_oidc p))
unfolding own_scopes
contains-own_scopes p [] = refl
contains-own_scopes p (s ∷ parts) = elim (Bool-cases (str_eq p s)) [
  | inl same ↦
      let equal = str_eq→≡ p s same in
      ground (arith, contains-own_scopes p parts, ap is_oidc equal, ap (λ t. str_eq t "") equal)
  | inr other ↦ ground (arith, contains-own_scopes p parts)
]

-- The permissions of a token are the parts of its scope between blanks, less the empty ones and the
-- standard scopes of OpenID Connect.
contains-parse_scopes :
    (p scope : String)
    → contains p (parse_scopes scope)
      ≡ (contains p (split scope) && not (str_eq p "") && not (is_oidc p))
unfolding parse_scopes
contains-parse_scopes p scope = elim (Bool-cases (str_eq scope "")) [
  | inl empty ↦
      let none_split : contains p (split scope) ≡ str_eq p "" =
        ap (λ s. contains p (split s)) (str_eq→≡ scope "" empty) ∙ split-empty p in
      ground arith
  | inr some_scope ↦ rw some_scope (contains-own_scopes p (split scope))
]
  where
    split-empty : (p : String) → contains p (split "") ≡ str_eq p ""
    split-empty p = unfold split in ground arith

-- The scopes of OpenID Connect, which are no permissions.
abbrev pub standard_scopes : List String
standard_scopes = "openid" ∷ "profile" ∷ "email" ∷ "offline_access" ∷ "all" ∷ []

-- The token's scope has this permission, between blanks.
abbrev pub Grants : JwtClaims → String → Type 0
Grants j p = (contains p (split j.scope) ≡ true) × (p ≢ "") × (contains p standard_scopes ≡ false)

-- The token has one of the permissions, or none is asked for.
abbrev pub HasOne : JwtClaims → List String → Type 0
HasOne j required = (required ≡ []) ⊎ ((p : String) × (contains p required ≡ true) × Grants j p)

-- The token may act for this tenant: it is the token's own, or the token has none and the scope for
-- all tenants.
abbrev pub ActsFor : JwtClaims → String → Type 0
ActsFor j slug =
    (j.tenant ≡ slug) ⊎ ((j.tenant ≡ "") × (contains "cross-tenant" (split j.scope) ≡ true))

-- The claims that the service finds in its context.
abbrev pub as_claims : JwtClaims → Claims
as_claims j = record { tenant = j.tenant; role = j.role; permissions = parse_scopes j.scope }

-- A request that may reach the service, and the context that it gets there.
pub data IsAllowed (parse : String → Option JwtClaims) (perms : ProcedurePermissions) (q : Request)
    : Context → Type 0 where
  open_to_all :
      q.tenant_slug ≢ ""
      → lookup q.procedure perms ≡ some none
      → IsAllowed parse perms q (record { slug = some q.tenant_slug; claims = none })
  permitted :
      (required : List String) (j : JwtClaims)
      → q.tenant_slug ≢ ""
      → lookup q.procedure perms ≡ some (some required)
      → trim_prefix "Bearer " q.authorization ≢ ""
      → parse (trim_prefix "Bearer " q.authorization) ≡ some j
      → j.subject ≢ ""
      → HasOne j required
      → ActsFor j q.tenant_slug
      → IsAllowed parse perms q (record { slug = some q.tenant_slug; claims = some (as_claims j) })

-- A permission of the claims is one that the scope grants, and conversely.
Grants-of : (j : JwtClaims) (p : String) → contains p (parse_scopes j.scope) ≡ true → Grants j p
unfolding is_oidc
Grants-of j p h = (
  ground (arith, contains-parse_scopes p j.scope),
  ground (arith, contains-parse_scopes p j.scope, eq_iff p ""),
  ground (arith, contains-parse_scopes p j.scope),
)

Grants-to : (j : JwtClaims) (p : String) → Grants j p → contains p (parse_scopes j.scope) ≡ true
unfolding is_oidc
Grants-to j p h = ground (arith, contains-parse_scopes p j.scope, eq_iff p "")

any_granted_found :
    (granted ps : List String)
    → any_granted granted ps ≡ true
    → (p : String) × (contains p ps ≡ true) × (contains p granted ≡ true)
unfolding any_granted
any_granted_found granted [] h = ground arith
any_granted_found granted (p ∷ ps) h = elim (Bool-cases (contains p granted)) [
  | inl has ↦ (p, ground (arith, eq_iff p p), has)
  | inr lacks ↦
      let (x, asked, has) = any_granted_found granted ps (ground arith) in (x, ground arith, has)
]

any_granted-true :
    (granted ps : List String) (p : String)
    → contains p ps ≡ true
    → contains p granted ≡ true
    → any_granted granted ps ≡ true
unfolding any_granted
any_granted-true granted [] p h g = ground arith
any_granted-true granted (x ∷ ps) p h g =
    ground (arith, eq_iff p x, ap (λ y. contains y granted), any_granted-true granted ps p)

HasOne-of :
    (j : JwtClaims) (required : List String)
    → has_any_permission (as_claims j) required ≡ true
    → HasOne j required
unfolding has_any_permission
HasOne-of j [] h = inl refl
HasOne-of j (x ∷ required) h =
    let (p, asked, has) = any_granted_found (parse_scopes j.scope) (x ∷ required) h in
    inr (p, asked, Grants-of j p has)

HasOne-to :
    (j : JwtClaims) (required : List String)
    → HasOne j required
    → has_any_permission (as_claims j) required ≡ true
unfolding has_any_permission
HasOne-to j [] h = refl
HasOne-to j (x ∷ required) (inl empty) = absurd (cc)
HasOne-to j (x ∷ required) (inr (p, asked, grants)) =
    any_granted-true (parse_scopes j.scope) (x ∷ required) p asked (Grants-to j p grants)

-- What `ActsFor` is of the claims.
cross_tenant :
    (j : JwtClaims)
    → contains "cross-tenant" (parse_scopes j.scope) ≡ contains "cross-tenant" (split j.scope)
unfolding is_oidc
cross_tenant j =
    let whole = contains-parse_scopes "cross-tenant" j.scope in
    whole ∙ unchanged (contains "cross-tenant" (split j.scope))
  where
    unchanged :
        (b : Bool) → (b && not (str_eq "cross-tenant" "") && not (is_oidc "cross-tenant")) ≡ b
    unchanged true = refl
    unchanged false = refl

-- `ValidateToken` accepts what the parser accepts, if it has a subject.
validate_token-some :
    (parse : String → Option JwtClaims) (token : String) (j : JwtClaims)
    → parse token ≡ some j
    → j.subject ≢ ""
    → validate_token parse token ≡ some (as_claims j)
unfolding validate_token claims_of
validate_token-some parse token j h n =
    let subject : str_eq j.subject "" ≡ false = ground (arith, eq_iff j.subject "") in
    rw (h, subject)

-- The claims of an accepted token are those that the parser read.
abbrev pub FromToken : (String → Option JwtClaims) → String → Option Claims → Type 0
FromToken parse token none = Unit
FromToken parse token (some c) =
    (j : JwtClaims) × (parse token ≡ some j) × (j.subject ≢ "") × (c ≡ as_claims j)

validate_token-FromToken :
    (parse : String → Option JwtClaims) (token : String)
    → FromToken parse token (validate_token parse token)
unfolding validate_token claims_of
validate_token-FromToken parse token = go (parse token) refl
  where
    go : (o : Option JwtClaims) → parse token ≡ o → FromToken parse token (claims_of o)
    go none h = tt
    go (some j) h = elim (Bool-cases (str_eq j.subject "")) [
      | inl missing ↦ rw missing tt
      | inr given ↦ rw given (j, h, str_ne→≢ j.subject "" given, refl)
    ]

module _ {R : Type 0} (service : Context → Answer R) where
  matches-ActsFor :
      (ctx : Context) (j : JwtClaims) (slug : String)
      → slug ≢ ""
      → ActsFor j slug
      → matches_tenant service ctx (as_claims j) (some slug) ≡ service ctx
  unfolding matches_tenant is_tenant_scoped can_access_any_tenant
  matches-ActsFor ctx j slug n h =
      ground (arith, cross_tenant j, eq_iff slug "", eq_iff j.tenant slug, eq_iff j.tenant "")

  -- A request is answered by the service, in the context of its tenant and of its token's claims, if it
  -- names a tenant, and its procedure is public, or its token is one that the parser accepts, has a
  -- subject, has a permission that the procedure asks for, unless it asks for none, and is of that tenant,
  -- or of no tenant and has the scope for all.
  pub allowed_reaches :
      (parse : String → Option JwtClaims) (perms : ProcedurePermissions) (q : Request)
      {ctx : Context}
      → IsAllowed parse perms q ctx
      → chain parse perms service q ≡ service ctx
  unfolding chain resolver_interceptor auth_interceptor for_procedure validator_interceptor
      for_claims with_token authorized
  allowed_reaches parse perms q (open_to_all n l) =
      let named : str_eq q.tenant_slug "" ≡ false = ground (arith, eq_iff q.tenant_slug "") in
      rw (named, l)
  allowed_reaches parse perms q (permitted required j n l t v s h a) =
      let named : str_eq q.tenant_slug "" ≡ false = ground (arith, eq_iff q.tenant_slug "") in
      let token : str_eq (trim_prefix "Bearer " q.authorization) "" ≡ false =
        ground (arith, eq_iff (trim_prefix "Bearer " q.authorization) "") in
      rw (named, l, token, validate_token-some parse _ j v s, HasOne-to j required h)
        (matches-ActsFor (record { slug = some q.tenant_slug; claims = some (as_claims j) }) j
          q.tenant_slug n a)

module _ (parse : String → Option JwtClaims) (perms : ProcedurePermissions) (q : Request) where
  -- An answer of the chain in front of a service that answers with its context: it is a refusal, or
  -- the context of a request that is allowed; it is no panic.
  abbrev pub OnlyAllowed : Answer Context → Type 0
  OnlyAllowed (answered ctx) = IsAllowed parse perms q ctx
  OnlyAllowed (refused code) = Unit
  OnlyAllowed panicked = ⊥

  matches-OnlyAllowed :
      (ctx : Context) (j : JwtClaims) (slug : String)
      → slug ≢ ""
      → (ActsFor j slug → IsAllowed parse perms q ctx)
      → OnlyAllowed (matches_tenant answered ctx (as_claims j) (some slug))
  unfolding matches_tenant is_tenant_scoped can_access_any_tenant
  matches-OnlyAllowed ctx j slug n allowed =
      let named : str_eq slug "" ≡ false = ground (arith, eq_iff slug "") in
      rw named (go _ refl _ refl)
    where
      foreign : Bool
      foreign = not (str_eq j.tenant "") && not (str_eq j.tenant slug)

      untrusted : Bool
      untrusted =
          not (not (str_eq j.tenant ""))
          && not (
              if not (str_eq j.tenant "")
              then false
              else contains "cross-tenant" (parse_scopes j.scope))

      acts : foreign ≡ false → untrusted ≡ false → ActsFor j slug
      acts f u = elim (Bool-cases (str_eq j.tenant "")) [
        | inl general ↦ inr (str_eq→≡ j.tenant "" general, ground (arith, cross_tenant j))
        | inr own ↦ inl (ground (arith, eq_iff j.tenant slug))
      ]

      go :
          (f : Bool)
          → foreign ≡ f
          → (u : Bool) → untrusted ≡ u
          → OnlyAllowed (
              if f
              then refused permission_denied
              else if u
              then refused permission_denied
              else answered ctx)
      go true _ _ _ = tt
      go false _ true _ = tt
      go false f false u = allowed (acts f u)

  abbrev named_context : Context
  named_context = record { slug = some q.tenant_slug; claims = none }

  authorized-OnlyAllowed :
      (required : List String) (o : Option Claims)
      → q.tenant_slug ≢ ""
      → lookup q.procedure perms ≡ some (some required)
      → trim_prefix "Bearer " q.authorization ≢ ""
      → FromToken parse (trim_prefix "Bearer " q.authorization) o
      → OnlyAllowed (authorized (validator_interceptor answered) required named_context o)
  unfolding authorized validator_interceptor for_claims
  authorized-OnlyAllowed required none n l m v = tt
  authorized-OnlyAllowed required (some c) n l m (j, parsed, subject, is_c) =
      rw is_c (go (has_any_permission (as_claims j) required) refl)
    where
      ctx : Context
      ctx = record { slug = some q.tenant_slug; claims = some (as_claims j) }

      go :
          (b : Bool)
          → has_any_permission (as_claims j) required ≡ b
          → OnlyAllowed (
              if b
              then matches_tenant answered ctx (as_claims j) (some q.tenant_slug)
              else refused permission_denied)
      go false h = tt
      go true h =
          matches-OnlyAllowed ctx j q.tenant_slug n
            (permitted required j n l m parsed subject (HasOne-of j required h))

  procedure-OnlyAllowed :
      (o : Option (Option (List String)))
      → q.tenant_slug ≢ ""
      → lookup q.procedure perms ≡ o
      → OnlyAllowed (for_procedure (validator_interceptor answered) parse q named_context o)
  unfolding for_procedure with_token validator_interceptor for_claims
  procedure-OnlyAllowed none n l = tt
  procedure-OnlyAllowed (some none) n l = open_to_all n l
  procedure-OnlyAllowed (some (some required)) n l =
      let token = trim_prefix "Bearer " q.authorization in
      elim (Bool-cases (str_eq token "")) [
        | inl missing ↦ rw missing tt
        | inr given ↦ rw given (
            authorized-OnlyAllowed required (validate_token parse token) n l
              (str_ne→≢ token "" given) (validate_token-FromToken parse token))
      ]

  -- The three interceptors let a request through to the service only if it is allowed: it names a
  -- tenant, and its procedure is public, or its token is one that the parser accepts, has a subject,
  -- has a permission in its scope that the procedure asks for, unless it asks for none, and is of that
  -- tenant, or of no tenant and has the scope for all; then the service sees that tenant and the
  -- token's claims. They never panic.
  pub chain-OnlyAllowed : OnlyAllowed (chain parse perms answered q)
  unfolding chain resolver_interceptor auth_interceptor
  chain-OnlyAllowed = elim (Bool-cases (str_eq q.tenant_slug "")) [
    | inl missing ↦ rw missing tt
    | inr given ↦
        rw given
          (procedure-OnlyAllowed (lookup q.procedure perms) (str_ne→≢ q.tenant_slug "" given) refl)
  ]
