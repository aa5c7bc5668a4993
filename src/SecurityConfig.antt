-- ===== src/SecurityConfig.antt =====
-- pkg/security/validation/config.go and pkg/security/token/config.go: the settings of the validation of
-- tokens and of the tokens that the service asks for. A part that is not configured is switched off. An
-- error is the text of its message.
pub mod Complete
use ecommerce_commons.Prelude.{
  String, Bool, true, false, not, ◌&&◌, ◌||◌, Option, none, some, List, [], ◌∷◌, str_eq,
  if◌then◌else◌,
}

-- `Config` of validation
pub record ValidationConfig : Type 0 where
  pub enabled : Option Bool
  pub jwks_url : String
  pub issuer : String
  pub audience : String

-- `Config` of token
pub record TokenConfig : Type 0 where
  pub enabled : Option Bool
  pub client_id : String
  pub client_secret : String
  pub token_url : String
  pub resource : String
  pub scopes : List String

-- `if c.Enabled == nil`: on, unless everything is blank.
abbrev pub enabled_or : Bool → Option Bool → Option Bool
enabled_or all_blank none = some (not all_blank)
enabled_or all_blank (some b) = some b

-- `c.Enabled != nil && !*c.Enabled`
abbrev pub is_disabled : Option Bool → Bool
is_disabled none = false
is_disabled (some b) = not b

abbrev pub is_empty : List String → Bool
is_empty [] = true
is_empty (x ∷ xs) = false

abbrev pub default_scopes : List String → List String
default_scopes [] = "openid" ∷ []
default_scopes (x ∷ xs) = x ∷ xs

abbrev pub validation_blank : ValidationConfig → Bool
validation_blank c = str_eq c.jwks_url "" && (str_eq c.issuer "" && str_eq c.audience "")

-- `ApplyDefaults` of validation
unfoldable pub default_validation : ValidationConfig → ValidationConfig
default_validation c = record c { enabled = enabled_or (validation_blank c) c.enabled }

-- `Validate` of validation
unfoldable pub check_validation : ValidationConfig → Option String
check_validation c =
    if is_disabled c.enabled
    then none
    else if str_eq c.jwks_url ""
    then some "security.jwks.jwks-url is required"
    else if str_eq c.issuer ""
    then some "security.jwks.issuer is required"
    else if str_eq c.audience ""
    then some "security.jwks.audience is required"
    else none

abbrev pub token_blank : TokenConfig → Bool
token_blank c =
    str_eq c.client_id ""
    && (str_eq c.client_secret ""
        && (str_eq c.token_url "" && (str_eq c.resource "" && is_empty c.scopes)))

-- `ApplyDefaults` of token
unfoldable pub default_token : TokenConfig → TokenConfig
default_token c = record c {
  enabled = enabled_or (token_blank c) c.enabled;
  scopes = default_scopes c.scopes;
}

-- `Validate` of token
unfoldable pub check_token : TokenConfig → Option String
check_token c =
    if is_disabled c.enabled
    then none
    else if str_eq c.client_id ""
    then some "security.client-credentials.client-id is required"
    else if str_eq c.client_secret ""
    then some "security.client-credentials.client-secret is required"
    else if str_eq c.token_url ""
    then some "security.client-credentials.token-url is required"
    else none
