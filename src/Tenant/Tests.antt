-- ===== src/Tenant/Tests.antt =====
-- Runs of the tenants' registry on concrete inputs.
use ecommerce_commons.Prelude.{
  String, Bool, true, not, ◌&&◌, none, some, List, [], ◌∷◌, ◌++◌, contains, map, ◌≡◌, ◌≢◌, refl,
  arith, str_eq, Bool-cases, inl, inr, subst, str_eq→≡, ◌+◌, if◌then◌else◌, eq_iff,
}
use ecommerce_commons.Database.{fine, refused, lost}
use ecommerce_commons.Tenant.Registry.{
  active, pending_deletion, TenantRecord, Registry, find_pending_deletion, find_active, upsert,
}
use ecommerce_commons.Tenant.Registry.View.{find, is_live, IsKeyed}
use ecommerce_commons.Tenant.Registry.View.{slugs as slugs_of}
use ecommerce_commons.Tenant.Sync.{deletion_delay, Lo, Environment, slugs, sync}
use ecommerce_commons.Tenant.Sync.Reconcile.{Reconciled}
use ecommerce_commons.Tenant.Sync.Outcome.{is_synced, sync_reconciles}
use ecommerce_commons.Tenant.Sync.Converge.{sync_converges}
use ecommerce_commons.Tenant.Lifecycle.{
  applied, up_error, TenantMigrationRunner, World, tenant_database, run, create,
}
use ecommerce_commons.Tenant.Lifecycle.Migrated.{run_migrates, run_completes}
use ecommerce_commons.Tenant.Lifecycle.Events.{CreateOutcome, create_lem}
use ecommerce_commons.Tenant.Cleanup.{
  Cleaner, CleanupEnvironment, process_expired_tenants, mongo_cleaner, run_cleaners,
}
use ecommerce_commons.Tenant.Cleanup.Race.{recreated_removed}

unfoldable without : List String → List String → List String
without [] ys = []
without (x ∷ xs) ys = let rest = without xs ys in if contains x ys then rest else x ∷ rest

contains-without_lem :
    (k : String) (xs ys : List String)
    → contains k (without xs ys) ≡ (contains k xs && not (contains k ys))
unfolding without
contains-without_lem k [] ys = refl
contains-without_lem k (x ∷ xs) ys = elim (Bool-cases (str_eq k x)) [
  | inl same ↦
      subst (λ z. contains k (without (z ∷ xs) ys) ≡ (contains k (z ∷ xs) && not (contains k ys)))
        (str_eq→≡ k x same) (ground (arith, contains-without_lem k xs ys, eq_iff k k))
  | inr differ ↦ ground (arith, contains-without_lem k xs ys, differ)
]

abbrev concrete_lo : Lo
concrete_lo = record {
  without = without;
  contains-without = contains-without_lem;
  slugs = map (λ r. r.slug);
  slugs_lem = λ rs. refl;
}

abbrev shop : TenantRecord
shop = record {
  slug = "shop";
  status = active;
  delete_after = none;
  created_at = 1;
  modified_at = 1;
}

abbrev old : TenantRecord
old = record { slug = "old"; status = active; delete_after = none; created_at = 1; modified_at = 1 }

abbrev expired : TenantRecord
expired = record {
  slug = "gone";
  status = pending_deletion;
  delete_after = some 5;
  created_at = 1;
  modified_at = 1;
}

abbrev registry : Registry
registry = shop ∷ old ∷ []

abbrev calm : Environment
calm = record {
  upserts = λ n. fine;
  upsert_time = λ n. 10;
  marks = λ n. fine;
  mark_time = λ n. 20;
  now = 15;
  readable = true;
  api = some ("shop" ∷ "new" ∷ []);
}

-- The marks fail.
abbrev troubled : Environment
troubled = record calm { marks = λ n. refused }

sync_reconciles_example :
    (IsKeyed (sync concrete_lo troubled registry).1)
    × Reconciled
        (15 + deletion_delay)
        (is_synced (sync concrete_lo troubled registry).0)
        (contains "old" ("shop" ∷ "new" ∷ []))
        (is_live (find "old" registry))
        (find "old" registry)
        (find "old" (sync concrete_lo troubled registry).1)
unfolding find
sync_reconciles_example =
    sync_reconciles concrete_lo troubled ("shop" ∷ "new" ∷ []) registry "old" (refl, (refl, tt))
      refl refl

sync_converges_example :
    ((sync concrete_lo calm registry).0 ≡ slugs ("shop" ∷ "new" ∷ []))
    × (contains "old" (slugs_of (find_active (sync concrete_lo calm registry).1))
        ≡ contains "old" ("shop" ∷ "new" ∷ []))
unfolding find
sync_converges_example =
    sync_converges concrete_lo calm ("shop" ∷ "new" ∷ []) registry "old" (refl, (refl, tt)) refl
      refl (λ n. refl) (λ n. refl)

abbrev runner : TenantMigrationRunner
runner = record { base_database = "db"; parses = true; migrator = λ d. true; up = λ d. applied }

abbrev world : World
world = record { registry = registry; migrated = [] }

applied≢up_error : applied ≢ up_error
applied≢up_error e = ground arith

abbrev ran : Bool × World
ran = run runner concrete_lo calm true world

ran_fine : ran.0 ≡ true
ran_fine =
    run_completes runner concrete_lo calm world ("shop" ∷ "new" ∷ []) refl refl (λ n. refl)
      (λ n. refl) refl (λ d. refl) (λ d. applied≢up_error)

run_migrates_example :
    (contains "new" (slugs_of (find_active ran.1.registry)) ≡ contains "new" ("shop" ∷ "new" ∷ []))
    × (ran.1.migrated ≡ [] ++ map (tenant_database "db") (slugs_of (find_active ran.1.registry)))
unfolding find
run_migrates_example =
    run_migrates runner concrete_lo calm true world ("shop" ∷ "new" ∷ []) "new" (refl, (refl, tt))
      refl refl ran_fine

run_completes_example : ran.0 ≡ true
run_completes_example =
    run_completes runner concrete_lo calm world ("shop" ∷ "new" ∷ []) refl refl (λ n. refl)
      (λ n. refl) refl (λ d. refl) (λ d. applied≢up_error)

create_lem_example : CreateOutcome runner "new" "old" world (create runner lost 7 "new" world)
create_lem_example = create_lem runner lost 7 "new" "old" world

abbrev tick : CleanupEnvironment
tick = record { readable = true; now = 9; removals = λ n. fine; meanwhile = λ n c. c }

abbrev two : Registry
two = expired ∷ shop ∷ []

abbrev dropper : List (Cleaner (List String))
dropper = mongo_cleaner "db" (λ d. fine) ∷ []

abbrev raced : CleanupEnvironment
raced = record tick { meanwhile = λ n c. upsert 8 "gone" c }

recreated_removed_example :
    (is_live (find "gone" (upsert 8 "gone" two)) ≡ true)
    × (find "gone" (process_expired_tenants dropper raced (two, "db_gone" ∷ [])).0 ≡ none)
unfolding find run_cleaners mongo_cleaner find_pending_deletion
recreated_removed_example =
    recreated_removed dropper raced expired 8 two ("db_gone" ∷ []) (refl, (refl, tt)) refl refl refl
      refl refl
