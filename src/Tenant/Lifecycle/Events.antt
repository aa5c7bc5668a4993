-- ===== src/Tenant/Lifecycle/Events.antt =====
-- A tenant that is created, and a tenant that is deleted, by the events of the tenant service.
use ecommerce_commons.Prelude.{
  ℕ, ◌+◌, String, Bool, true, false, List, [], ◌∷◌, ◌++◌, ◌≡◌, refl, if◌then◌else◌, str_eq,
}
use ecommerce_commons.Database.{Fault, attempt}
use ecommerce_commons.Tenant.Registry.{Registry, upsert}
use ecommerce_commons.Tenant.Registry.View.{find}
use ecommerce_commons.Tenant.Sync.Reconcile.{
  Effect, weaken, attempt-Effect, IsLive, IsDoomed, upsert-Writes, mark-Writes,
}
use ecommerce_commons.Tenant.Lifecycle.{
  TenantMigrationRunner, World, tenant_database, migrate_tenant, registered, create,
  event_deletion_delay, delete,
}
use ecommerce_commons.Tenant.Lifecycle.Migrated.{migrate_tenant_lem}

-- The migrations after a call that returned without an error, and after one that returned an error.
abbrev pub Migrates : String → List String → Bool → List String → Type 0
Migrates database ds ok new = new ≡ (if ok then ds ++ (database ∷ []) else ds)

-- What `Create` does to the record of `k` and to the migrations.
abbrev pub CreateOutcome : TenantMigrationRunner → String → String → World → Bool × World → Type 0
CreateOutcome runner slug k w p =
    Effect IsLive (str_eq slug k) p.0 (find k w.registry) (find k p.1.registry)
    × Migrates (tenant_database runner.base_database slug) w.migrated p.0 p.1.migrated

-- Whatever fails, creating a tenant touches no record but its own, which is active if no error is
-- returned and else as it was or active; exactly if no error is returned, the tenant's database is
-- migrated, and it is the only one.
pub create_lem :
    (runner : TenantMigrationRunner) (fault : Fault) (now : ℕ) (slug k : String) (w : World)
    → CreateOutcome runner slug k w (create runner fault now slug w)
unfolding create
create_lem runner fault now slug k w =
    after (attempt fault (upsert now slug) w.registry)
      (attempt-Effect k IsLive _ (upsert-Writes k (λ n. now)) 0 slug w.registry fault)
  where
    after :
        (p : Bool × Registry)
        → Effect IsLive (str_eq slug k) p.0 (find k w.registry) (find k p.1)
        → CreateOutcome runner slug k w (registered runner slug w.migrated p)
    after (true, c) e = (
      weaken k IsLive (str_eq slug k) (migrate_tenant runner slug w.migrated).0 (find k w.registry)
          (find k c) e,
      migrate_tenant_lem runner slug w.migrated,
    )
    after (false, c) e = (e, refl)

-- Whatever fails, deleting a tenant touches no record but its own, which is pending deletion from
-- the delay on if no error is returned, and else as it was or so.
delete_lem :
    (fault : Fault) (now later : ℕ) (slug k : String) (c : Registry)
    → Effect
        (IsDoomed (now + event_deletion_delay))
        (str_eq slug k)
        (delete fault now later slug c).0
        (find k c)
        (find k (delete fault now later slug c).1)
unfolding delete
delete_lem fault now later slug k c =
    attempt-Effect k (IsDoomed (now + event_deletion_delay)) _
      (mark-Writes k (λ n. later) (now + event_deletion_delay)) 0 slug c fault
