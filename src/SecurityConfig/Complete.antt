-- ===== src/SecurityConfig/Complete.antt =====
-- What a configuration that was loaded is: complete, or switched off.
use ecommerce_commons.Prelude.{
  String, Bool, true, false, not, ◌&&◌, ◌||◌, Option, none, some, List, [], ◌∷◌, str_eq, ◌≡◌, refl,
  arith, sym, ap, ◌∙◌,
}
use ecommerce_commons.Loader.{Configurable, Source, load, loaded, load-IsLoaded}
use ecommerce_commons.SecurityConfig.{
  ValidationConfig, TokenConfig, enabled_or, is_disabled, validation_blank, default_validation,
  check_validation, default_token, check_token, is_empty, default_scopes,
}

abbrev pub validation_config : Configurable ValidationConfig
validation_config = record { apply_defaults = default_validation; validate = check_validation }

abbrev pub has_validation : ValidationConfig → Bool
has_validation c =
    not (str_eq c.jwks_url "") && (not (str_eq c.issuer "") && not (str_eq c.audience ""))

checked :
    (c : ValidationConfig)
    → check_validation c ≡ none
    → (is_disabled c.enabled || has_validation c) ≡ true
unfolding check_validation
checked c h = ground (arith, h)

-- Defaults that were set are not set again.
default_validation_twice :
    (c : ValidationConfig) → default_validation (default_validation c) ≡ default_validation c
unfolding default_validation
default_validation_twice c = ap (λ e. record c { enabled = e }) (settled c.enabled)
  where
    settled :
        (o : Option Bool)
        → enabled_or (validation_blank c) (enabled_or (validation_blank c) o)
          ≡ enabled_or (validation_blank c) o
    settled none = refl
    settled (some b) = refl

-- A configuration of the validation that was loaded is switched off, or names its keys, its issuer and
-- its audience; and loading it again does not change it.
load_validation :
    (source : Source ValidationConfig) (key : String) (override : Option ValidationConfig)
    (empty : ValidationConfig) (cfg : ValidationConfig)
    → load validation_config source key override empty ≡ loaded cfg
    → ((is_disabled cfg.enabled || has_validation cfg) ≡ true) × (default_validation cfg ≡ cfg)
load_validation source key override empty cfg e =
    let l = load-IsLoaded validation_config source key override empty e in
    (
      checked cfg l.valid,
      ap default_validation l.with_defaults ∙ default_validation_twice l.raw ∙ sym l.with_defaults,
    )

abbrev pub token_config : Configurable TokenConfig
token_config = record { apply_defaults = default_token; validate = check_token }

abbrev pub has_credentials : TokenConfig → Bool
has_credentials c =
    not (str_eq c.client_id "") && (not (str_eq c.client_secret "") && not (str_eq c.token_url ""))

checked_token :
    (c : TokenConfig) → check_token c ≡ none → (is_disabled c.enabled || has_credentials c) ≡ true
unfolding check_token
checked_token c h = ground (arith, h)

scopes_given : (xs : List String) → is_empty (default_scopes xs) ≡ false
scopes_given [] = refl
scopes_given (x ∷ xs) = refl

-- A configuration of the tokens that was loaded is switched off, or has credentials and the address to
-- ask; and it asks for at least one scope.
load_token :
    (source : Source TokenConfig) (key : String) (override : Option TokenConfig)
    (empty : TokenConfig) (cfg : TokenConfig)
    → load token_config source key override empty ≡ loaded cfg
    → ((is_disabled cfg.enabled || has_credentials cfg) ≡ true) × (is_empty cfg.scopes ≡ false)
unfolding default_token
load_token source key override empty cfg e =
    let l = load-IsLoaded token_config source key override empty e in
    (
      checked_token cfg l.valid,
      ap (λ c. is_empty c.scopes) l.with_defaults ∙ scopes_given l.raw.scopes,
    )
