-- ===== src/Tenant/Lifecycle/Migrated.antt =====
-- Which databases are brought up to date, by a run over all tenants and for a tenant that is created.
use mathlib.Core.List.{append-nil, append_assoc}
use ecommerce_commons.Prelude.{
  ℕ, String, Bool, true, false, some, List, [], ◌∷◌, ◌++◌, map, contains, ◌≡◌, ◌≢◌, refl, arith,
  ◌∙◌, ap, sym, if◌then◌else◌,
}
use ecommerce_commons.Database.{fine, and_then}
use ecommerce_commons.Tenant.Registry.{TenantRecord, Registry, find_active}
use ecommerce_commons.Tenant.Registry.View.{IsKeyed, slugs}
use ecommerce_commons.Tenant.Sync.{Lo, Environment, Synced, failed, sync}
use ecommerce_commons.Tenant.Sync.{slugs as returned}
use ecommerce_commons.Tenant.Sync.Outcome.{is_synced}
use ecommerce_commons.Tenant.Sync.Converge.{synced_active, sync_returns}
use ecommerce_commons.Tenant.Lifecycle.{
  Up, applied, no_change, up_error, TenantMigrationRunner, World, tenant_database, after_up,
  with_migrator, migrate_database, parsed, migrate_tenant, migrate_all, after_run_sync, run,
}

module _ (runner : TenantMigrationRunner) where
  abbrev pub database_of : String → String
  database_of = tenant_database runner.base_database

  -- A migration that returned without an error is recorded, one that returned an error is not.
  abbrev pub Recorded : String → List String → Bool × List String → Type 0
  Recorded database ds p = p.1 ≡ (if p.0 then ds ++ (database ∷ []) else ds)

  after_up_lem :
      (u : Up) (database : String) (ds : List String)
      → Recorded database ds (after_up u database ds)
  after_up_lem applied database ds = refl
  after_up_lem no_change database ds = refl
  after_up_lem up_error database ds = refl

  pub migrate_tenant_lem :
      (slug : String) (ds : List String)
      → Recorded (database_of slug) ds (migrate_tenant runner slug ds)
  unfolding migrate_tenant migrate_database
  migrate_tenant_lem slug ds = by_uri runner.parses
    where
      by_migrator :
          (b : Bool)
          → Recorded
              (database_of slug)
              ds
              (with_migrator b (runner.up (database_of slug)) (database_of slug) ds)
      by_migrator true = after_up_lem (runner.up (database_of slug)) (database_of slug) ds
      by_migrator false = refl

      by_uri : (b : Bool) → Recorded (database_of slug) ds (parsed b runner (database_of slug) ds)
      by_uri true = by_migrator (runner.migrator (database_of slug))
      by_uri false = refl

  migrate_all_lem :
      (rs : List TenantRecord) (ds : List String)
      → (migrate_all runner rs ds).0 ≡ true
      → (migrate_all runner rs ds).1 ≡ ds ++ map database_of (slugs rs)
  unfolding migrate_all
  migrate_all_lem [] ds ok = sym (append-nil ds)
  migrate_all_lem (r ∷ rs) ds ok =
      after (migrate_tenant runner r.slug ds) (migrate_tenant_lem r.slug ds) (migrate_all_lem rs) ok
    where
      after :
          (p : Bool × List String)
          → Recorded (database_of r.slug) ds p
          → ((ds : List String)
              → (migrate_all runner rs ds).0 ≡ true
              → (migrate_all runner rs ds).1 ≡ ds ++ map database_of (slugs rs))
          → (and_then p (migrate_all runner rs)).0 ≡ true
          → (and_then p (migrate_all runner rs)).1 ≡ ds ++ map database_of (slugs (r ∷ rs))
      after (true, m) e rest ok =
          rest m ok ∙ ap (λ x. x ++ map database_of (slugs rs)) e ∙ append_assoc ds _ _
      after (false, m) e rest ok = ground arith

  migrate_all_total :
      (rs : List TenantRecord) (ds : List String)
      → ((slug : String) (ds : List String) → (migrate_tenant runner slug ds).0 ≡ true)
      → (migrate_all runner rs ds).0 ≡ true
  unfolding migrate_all
  migrate_all_total [] ds each = refl
  migrate_all_total (r ∷ rs) ds each =
      after (migrate_tenant runner r.slug ds) (each r.slug ds) (λ m. migrate_all_total rs m each)
    where
      after :
          (p : Bool × List String)
          → p.0 ≡ true
          → ((m : List String) → (migrate_all runner rs m).0 ≡ true)
          → (and_then p (migrate_all runner rs)).0 ≡ true
      after (true, m) e rest = rest m
      after (false, m) e rest = e

  migrate_tenant_total :
      (slug : String) (ds : List String)
      → runner.parses ≡ true
      → runner.migrator (database_of slug) ≡ true
      → runner.up (database_of slug) ≢ up_error
      → (migrate_tenant runner slug ds).0 ≡ true
  unfolding migrate_tenant migrate_database
  migrate_tenant_total slug ds parse made up =
      ap (λ b. (parsed b runner (database_of slug) ds).0) parse
      ∙ ap (λ b. (with_migrator b (runner.up (database_of slug)) (database_of slug) ds).0) made
      ∙ by_answer (runner.up (database_of slug)) up
    where
      by_answer : (u : Up) → u ≢ up_error → (after_up u (database_of slug) ds).0 ≡ true
      by_answer applied h = refl
      by_answer no_change h = refl
      by_answer up_error h = absurd (h refl)

  -- What a run without an error has done.
  abbrev Ran : List String → Synced × Registry → Bool × World → Type 0
  Ran ds p q =
      (is_synced p.0 ≡ true)
      × (q.1.registry ≡ p.1)
      × (q.1.migrated ≡ ds ++ map database_of (slugs (find_active p.1)))

  after_run_sync_lem :
      (listable : Bool) (ds : List String) (p : Synced × Registry)
      → (after_run_sync runner listable ds p).0 ≡ true
      → Ran ds p (after_run_sync runner listable ds p)
  after_run_sync_lem true ds (returned xs, c) ok =
      (refl, refl, migrate_all_lem (find_active c) ds ok)
  after_run_sync_lem false ds (returned xs, c) ok = ground arith
  after_run_sync_lem listable ds (failed, c) ok = ground arith

  -- A run that returns without an error, where each slug has one record, the registry can be read
  -- and the service answers with `api`, leaves exactly the tenants of `api` active, and has
  -- migrated the database of each active tenant and no other.
  pub run_migrates :
      (lo : Lo) (env : Environment) (listable : Bool) (w : World) (api : List String) (k : String)
      → IsKeyed w.registry
      → env.readable ≡ true
      → env.api ≡ some api
      → (run runner lo env listable w).0 ≡ true
      → (contains k (slugs (find_active (run runner lo env listable w).1.registry))
          ≡ contains k api)
        × ((run runner lo env listable w).1.migrated
            ≡ w.migrated
              ++ map database_of (slugs (find_active (run runner lo env listable w).1.registry)))
  unfolding run
  run_migrates lo env listable w api k keyed readable answered ok = (
    ap (λ c. contains k (slugs (find_active c))) ran.1
        ∙ synced_active lo env api w.registry k keyed readable answered ran.0,
    ran.2 ∙ ap (λ c. w.migrated ++ map database_of (slugs (find_active c))) (sym ran.1),
  )
    where
      ran :
          Ran w.migrated
            (sync lo env w.registry)
            (after_run_sync runner listable w.migrated (sync lo env w.registry))
      ran = after_run_sync_lem listable w.migrated (sync lo env w.registry) ok

  -- The run returns without an error if the registry can be read, the service answers, every write
  -- succeeds, the base URI parses, a migrator can be made for every database, and no `Up` fails.
  pub run_completes :
      (lo : Lo) (env : Environment) (w : World) (api : List String)
      → env.readable ≡ true
      → env.api ≡ some api
      → ((n : ℕ) → env.upserts n ≡ fine)
      → ((n : ℕ) → env.marks n ≡ fine)
      → runner.parses ≡ true
      → ((database : String) → runner.migrator database ≡ true)
      → ((database : String) → runner.up database ≢ up_error)
      → (run runner lo env true w).0 ≡ true
  unfolding run
  run_completes lo env w api readable answered up down parse made applies =
      after (sync lo env w.registry) (sync_returns lo env api w.registry readable answered up down)
    where
      after :
          (p : Synced × Registry)
          → p.0 ≡ returned api
          → (after_run_sync runner true w.migrated p).0 ≡ true
      after (returned xs, c) e =
          migrate_all_total (find_active c) w.migrated (λ s ds.
            migrate_tenant_total s ds parse (made (database_of s)) (applies (database_of s)))
      after (failed, c) e = ap is_synced e
