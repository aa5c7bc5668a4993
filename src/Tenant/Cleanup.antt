-- ===== src/Tenant/Cleanup.antt =====
-- pkg/tenant/cleanup_worker.go and cleaner.go: the tenants whose deadline has passed are cleaned up and
-- leave the registry. `S` is what the cleaners change, and a cleaner is a function of the slug. The
-- registry is shared: `meanwhile n` is what other processes do to it before the n-th tenant is cleaned
-- up. One tick of `Run` is one call of `process_expired_tenants`; logging is left out.
pub mod Gone
pub mod Dropped
pub mod Total
pub mod Race
use ecommerce_commons.Prelude.{
  ℕ, suc, String, Bool, true, false, not, List, [], ◌∷◌, str_eq, if◌then◌else◌,
}
use ecommerce_commons.Database.{Fault, attempt, and_then}
use ecommerce_commons.Tenant.Registry.{TenantRecord, Registry, find_pending_deletion, remove}
use ecommerce_commons.Tenant.Lifecycle.{tenant_database}

-- `Cleaner`
abbrev pub Cleaner : Type 0 → Type 0
Cleaner S = String → S → Bool × S

-- Whether `FindPendingDeletion` answers and when it is called, and how the n-th `Remove` ends.
pub record CleanupEnvironment : Type 0 where
  pub readable : Bool
  pub now : ℕ
  pub removals : ℕ → Fault
  pub meanwhile : ℕ → Registry → Registry

module _ {S : Type 0} where
  -- The loop over the cleaners, which stops at the first error.
  unfoldable pub run_cleaners : List (Cleaner S) → String → S → Bool × S
  run_cleaners [] slug s = (true, s)
  run_cleaners (cleaner ∷ rest) slug s = and_then (cleaner slug s) (run_cleaners rest slug)

  abbrev pub after_cleaners : Fault → String → Registry → Bool × S → Registry × S
  after_cleaners fault slug c (true, s) = ((attempt fault (remove slug) c).1, s)
  after_cleaners fault slug c (false, s) = (c, s)

  -- `cleanupTenant`
  unfoldable pub cleanup_tenant : List (Cleaner S) → Fault → String → Registry × S → Registry × S
  cleanup_tenant cleaners fault slug w =
      after_cleaners fault slug w.0 (run_cleaners cleaners slug w.1)

  unfoldable pub cleanup_each :
      List (Cleaner S) → CleanupEnvironment → ℕ → List TenantRecord → Registry × S → Registry × S
  cleanup_each cleaners env n [] w = w
  cleanup_each cleaners env n (r ∷ rs) w =
      cleanup_each cleaners env (suc n) rs
        (cleanup_tenant cleaners (env.removals n) r.slug (env.meanwhile n w.0, w.1))

  abbrev pub cleanup_found :
      List (Cleaner S) → CleanupEnvironment → Bool → Registry × S → Registry × S
  cleanup_found cleaners env false w = w
  cleanup_found cleaners env true w =
      cleanup_each cleaners env 0 (find_pending_deletion env.now w.0) w

  -- `processExpiredTenants`
  unfoldable pub process_expired_tenants :
      List (Cleaner S) → CleanupEnvironment → Registry × S → Registry × S
  process_expired_tenants cleaners env w = cleanup_found cleaners env env.readable w

-- `Drop` of a database, among the names of the databases that exist.
unfoldable pub drop : String → List String → List String
drop name [] = []
drop name (d ∷ ds) = let rest = drop name ds in if str_eq d name then rest else d ∷ rest

-- `CleanupTenant` of `mongoCleaner`; how the drop of a database ends is chosen by its name.
unfoldable pub mongo_cleaner : String → (String → Fault) → Cleaner (List String)
mongo_cleaner base drops slug =
    attempt (drops (tenant_database base slug)) (drop (tenant_database base slug))
