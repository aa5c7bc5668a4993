-- ===== src/Tenant.antt =====
-- pkg/tenant: the registry of tenants and what keeps it in step with the tenant service. The children
-- follow the files: `Registry` (repository.go), `Sync` (sync.go), `Lifecycle` (lifecycle.go,
-- migrator.go), `Cleanup` (cleanup_worker.go, cleaner.go).
pub mod Registry
pub mod Sync
pub mod Lifecycle
pub mod Cleanup
mod Tests
