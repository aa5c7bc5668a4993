-- ===== src/Tenant/Cleanup/Race.antt =====
-- A tenant that is created again between the query for the expired tenants and its turn to be cleaned
-- up. Its record is not read again before it is removed.
use ecommerce_commons.Prelude.{ℕ, true, List, [], ◌∷◌, none, ◌≡◌, arith, ◌∙◌, ap, eq_iff}
use ecommerce_commons.Database.{fine}
use ecommerce_commons.Tenant.Registry.{
  TenantRecord, Registry, find_pending_deletion, remove, upsert,
}
use ecommerce_commons.Tenant.Registry.View.{find, IsKeyed, find-remove, is_live, upsert-IsKeyed}
use ecommerce_commons.Tenant.Sync.Reconcile.{upsert-Writes}
use ecommerce_commons.Tenant.Cleanup.{
  Cleaner, CleanupEnvironment, run_cleaners, cleanup_tenant, cleanup_each, cleanup_found,
  process_expired_tenants,
}
use ecommerce_commons.Tenant.Cleanup.Total.{cleaned}

module _ {S : Type 0} (cleaners : List (Cleaner S)) where
  -- If one tenant is due, and it is created again after the query for expired tenants and before
  -- its clean-up, where no cleaner and not the removal fails, then it is active when its clean-up
  -- starts, and the tick removes it all the same.
  pub recreated_removed :
      (env : CleanupEnvironment) (r : TenantRecord) (t : ℕ) (c : Registry) (s : S)
      → IsKeyed c
      → env.readable ≡ true
      → find_pending_deletion env.now c ≡ r ∷ []
      → env.meanwhile 0 c ≡ upsert t r.slug c
      → env.removals 0 ≡ fine
      → (run_cleaners cleaners r.slug s).0 ≡ true
      → (is_live (find r.slug (env.meanwhile 0 c)) ≡ true)
        × (find r.slug (process_expired_tenants cleaners env (c, s)).0 ≡ none)
  unfolding process_expired_tenants cleanup_each
  recreated_removed env r t c s h readable due again removed succeed = (
    ap (λ v. is_live (find r.slug v)) again ∙ (upsert-Writes r.slug (λ n. t)).own 0 c,
    ap (λ b. find r.slug (cleanup_found cleaners env b (c, s)).0) readable
        ∙ ap (λ rs. find r.slug (cleanup_each cleaners env 0 rs (c, s)).0) due
        ∙ ap (λ f. find r.slug (cleanup_tenant cleaners f r.slug (env.meanwhile 0 c, s)).0) removed
        ∙ ap (find r.slug) (cleaned cleaners r.slug (env.meanwhile 0 c, s) succeed)
        ∙ ap (λ v. find r.slug (remove r.slug v)) again
        ∙ ground (
          arith,
          find-remove r.slug r.slug (upsert t r.slug c) (upsert-IsKeyed t r.slug c h),
          eq_iff r.slug r.slug,
        ),
  )
