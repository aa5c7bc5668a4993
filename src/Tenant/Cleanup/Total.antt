-- ===== src/Tenant/Cleanup/Total.antt =====
-- A tick on which nothing fails.
use ecommerce_commons.Prelude.{String, Bool, true, false, List, ◌≡◌, refl, arith}
use ecommerce_commons.Database.{fine}
use ecommerce_commons.Tenant.Registry.{Registry, remove}
use ecommerce_commons.Tenant.Cleanup.{Cleaner, run_cleaners, after_cleaners, cleanup_tenant}

module _ {S : Type 0} (cleaners : List (Cleaner S)) where
  -- The registry after one tenant, and after a list of tenants.
  pub cleaned :
      (slug : String) (w : Registry × S)
      → (run_cleaners cleaners slug w.1).0 ≡ true
      → (cleanup_tenant cleaners fine slug w).0 ≡ remove slug w.0
  unfolding cleanup_tenant
  cleaned slug w = after (run_cleaners cleaners slug w.1)
    where
      after : (p : Bool × S) → p.0 ≡ true → (after_cleaners fine slug w.0 p).0 ≡ remove slug w.0
      after (true, s) e = refl
      after (false, s) e = ground arith
