-- ===== src/Tenant/Cleanup/Dropped.antt =====
-- The databases of the tenants, where the cleaner of cleaner.go is the only one.
use ecommerce_commons.Prelude.{String, false, List, [], ◌∷◌, contains, ◌≡◌}
use ecommerce_commons.Database.{Fault}
use ecommerce_commons.Tenant.Registry.{Registry}
use ecommerce_commons.Tenant.Lifecycle.{tenant_database}
use ecommerce_commons.Tenant.Cleanup.{Cleaner, mongo_cleaner}

module _ (base : String) (drops : String → Fault) where
  abbrev only_mongo : List (Cleaner (List String))
  only_mongo = mongo_cleaner base drops ∷ []

  abbrev IsDropped : String → List String → Type 0
  IsDropped k ds = contains (tenant_database base k) ds ≡ false
