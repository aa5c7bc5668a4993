-- ===== src/Tenant/Lifecycle.antt =====
-- pkg/tenant/lifecycle.go and migrator.go, with MigrateDatabase of pkg/mongo/migration.go: the tenants
-- that a service creates and deletes, and the database of each. `url.Parse` of the base URI and the
-- library golang-migrate are parameters. Logging is left out, and so is closing the migrator, whose
-- errors are only logged.
pub mod Migrated
pub mod Events
use Prim.Native.String.{◌++◌ as join}
use ecommerce_commons.Prelude.{ℕ, ◌+◌, ◌*◌, String, Bool, true, false, List, [], ◌∷◌, ◌++◌}
use ecommerce_commons.Database.{Fault, attempt, and_then}
use ecommerce_commons.Tenant.Registry.{
  TenantRecord, Registry, upsert, mark_for_deletion, find_active,
}
use ecommerce_commons.Tenant.Sync.{Lo, Environment, Synced, slugs, failed, sync}

-- What `Up` of golang-migrate answers.
pub data Up : Type 0 where
  applied no_change up_error : Up

-- The runner's fields, whether the base URI parses, whether a migrator for a database can be made, and
-- what its `Up` answers.
pub record TenantMigrationRunner : Type 0 where
  pub base_database : String
  pub parses : Bool
  pub migrator : String → Bool
  pub up : String → Up

-- The registry, and the names of the databases that were brought up to date.
pub record World : Type 0 where
  pub registry : Registry
  pub migrated : List String

-- `fmt.Sprintf("%s_%s", base, slug)`, of the migrations, the cleaner and the collections.
abbrev pub tenant_database : String → String → String
tenant_database base slug = join (join base "_") slug

abbrev pub after_up : Up → String → List String → Bool × List String
after_up applied database ds = (true, ds ++ (database ∷ []))
after_up no_change database ds = (true, ds ++ (database ∷ []))
after_up up_error database ds = (false, ds)

abbrev pub with_migrator : Bool → Up → String → List String → Bool × List String
with_migrator false answer database ds = (false, ds)
with_migrator true answer database ds = after_up answer database ds

-- `MigrateDatabase`
unfoldable pub migrate_database : TenantMigrationRunner → String → List String → Bool × List String
migrate_database runner database ds =
    with_migrator (runner.migrator database) (runner.up database) database ds

abbrev pub parsed : Bool → TenantMigrationRunner → String → List String → Bool × List String
parsed false runner database ds = (false, ds)
parsed true runner database ds = migrate_database runner database ds

-- `MigrateTenant`
unfoldable pub migrate_tenant : TenantMigrationRunner → String → List String → Bool × List String
migrate_tenant runner slug ds =
    parsed runner.parses runner (tenant_database runner.base_database slug) ds

-- The loop of `Run`.
unfoldable pub migrate_all :
    TenantMigrationRunner → List TenantRecord → List String → Bool × List String
migrate_all runner [] ds = (true, ds)
migrate_all runner (r ∷ rs) ds = and_then (migrate_tenant runner r.slug ds) (migrate_all runner rs)

abbrev pub with_databases : World → Bool × List String → Bool × World
with_databases w p = (p.0, record w { migrated = p.1 })

-- After the registry was synchronised: whether it can be read again.
abbrev pub migrate_active : TenantMigrationRunner → Bool → World → Bool × World
migrate_active runner false w = (false, w)
migrate_active runner true w =
    with_databases w (migrate_all runner (find_active w.registry) w.migrated)

abbrev pub after_run_sync :
    TenantMigrationRunner → Bool → List String → Synced × Registry → Bool × World
after_run_sync runner listable ds (slugs xs, c) =
    migrate_active runner listable (record { registry = c; migrated = ds })
after_run_sync runner listable ds (failed, c) = (false, record { registry = c; migrated = ds })

-- `Run`
unfoldable pub run : TenantMigrationRunner → Lo → Environment → Bool → World → Bool × World
run runner lo env listable w = after_run_sync runner listable w.migrated (sync lo env w.registry)

abbrev pub registered :
    TenantMigrationRunner → String → List String → Bool × Registry → Bool × World
registered runner slug ds (true, c) =
    with_databases (record { registry = c; migrated = ds }) (migrate_tenant runner slug ds)
registered runner slug ds (false, c) = (false, record { registry = c; migrated = ds })

-- `Create`
unfoldable pub create : TenantMigrationRunner → Fault → ℕ → String → World → Bool × World
create runner fault now slug w =
    registered runner slug w.migrated (attempt fault (upsert now slug) w.registry)

-- `eventDeletionDelay`
abbrev pub event_deletion_delay : ℕ
event_deletion_delay = 5 * 60000

-- `Delete`: the deadline is reckoned before the call, at `now`, and the write is made at `later`.
unfoldable pub delete : Fault → ℕ → ℕ → String → Registry → Bool × Registry
delete fault now later slug =
    attempt fault (mark_for_deletion later (now + event_deletion_delay) slug)
