-- ===== src/Mongo/Config/Uri.antt =====
-- The URI of a tenant's database, which the tenants' migrations make of the base URI
-- (pkg/tenant/migrator.go), against the URI that the connection of the same settings has.
use Prim.Native.String.{◌++◌ as join}
use ecommerce_commons.Prelude.{
  String, Bool, true, false, not, ◌||◌, Option, none, some, str_eq, if◌then◌else◌, ◌≡◌, ap, sym,
  ◌∙◌,
}
use ecommerce_commons.Mongo.Config.{
  MongoConfig, Url, Packages, fields_url, with_database, build_uri, base_url, build_base_uri,
}

-- `MigrateTenant` of pkg/tenant/migrator.go, up to the URL that it migrates.
unfoldable pub tenant_url : Packages → MongoConfig → String → Option String
unfolding build_base_uri
tenant_url go c database = elim (go.parse (build_base_uri go c)) [
  | none ↦ none
  | some u ↦ some (go.print (record u { path = join "/" database }))
]

module _ (go : Packages) (c : MongoConfig) (database : String) where
  abbrev service : MongoConfig
  service = record c { database = database }

  -- Of the URL that the base URI prints, where it is parsed back.
  from_base :
      (u : Url)
      → go.parse (go.print u) ≡ some u
      → build_base_uri go c ≡ go.print u
      → tenant_url go c database ≡ some (go.print (record u { path = join "/" database }))
  unfolding tenant_url
  from_base u round e =
      ap
        (λ o. elim o as (λ p. Option String) [
          | none ↦ none
          | some v ↦ some (go.print (record v { path = join "/" database }))
        ])
        (ap go.parse e ∙ round)

  -- Without a connection string, and where the base URL is parsed back from its text: the migrations of
  -- a tenant run on the URI that a service with the same settings and the tenant's database connects
  -- to.
  tenant_url_fields :
      str_eq c.connection_string "" ≡ true
      → go.parse (go.print (fields_url c "")) ≡ some (fields_url c "")
      → tenant_url go c database ≡ some (build_uri go (record c { database = database }))
  unfolding build_uri build_base_uri
  tenant_url_fields blank round =
      from_base (fields_url c "") round (
        ap
          (λ b.
            if not b
            then base_url go c (go.parse c.connection_string)
            else go.print (fields_url c ""))
          blank)
      ∙ sym (
          ap
            (λ b. some (
              if not b
              then if not (str_eq database "")
                then with_database go service (go.parse c.connection_string)
                else c.connection_string
              else go.print (fields_url c (join "/" database))))
            blank)

  -- With a connection string that is parsed and names no database, a tenant's database with a name, and
  -- where the URL without a path is parsed back from its text: the migrations of a tenant, which parse
  -- the base URI and set its path, run on the URI that a service with the same settings and the
  -- tenant's database connects to.
  pub tenant_url_string :
      (u : Url)
      → str_eq c.connection_string "" ≡ false
      → str_eq database "" ≡ false
      → go.parse c.connection_string ≡ some u
      → (str_eq u.path "" || str_eq u.path "/") ≡ true
      → go.parse (go.print (record u { path = "" })) ≡ some (record u { path = "" })
      → tenant_url go c database ≡ some (build_uri go (record c { database = database }))
  unfolding build_uri build_base_uri
  tenant_url_string u given named parses bare round =
      from_base (record u { path = "" }) round
        (ap
            (λ b.
              if not b
              then base_url go c (go.parse c.connection_string)
              else go.print (fields_url c ""))
            given
          ∙ ap (base_url go c) parses)
      ∙ sym (
          ap
            (λ b. some (
              if not b
              then named_uri (str_eq database "") (go.parse c.connection_string)
              else go.print (fields_url c (join "/" database))))
            given
          ∙ ap (λ b. some (named_uri b (go.parse c.connection_string))) named
          ∙ ap (λ o. some (with_database go service o)) parses
          ∙ ap
              (λ b. some (
                if b
                then go.print (record u { path = join "/" database })
                else c.connection_string))
              bare)
    where
      named_uri : Bool → Option Url → String
      named_uri b o = if not b then with_database go service o else c.connection_string
