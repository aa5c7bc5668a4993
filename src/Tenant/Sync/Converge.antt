-- ===== src/Tenant/Sync/Converge.antt =====
-- The registry after runs of `Sync` on which nothing fails.
use ecommerce_commons.Prelude.{
  ℕ, ◌+◌, String, Bool, true, false, Option, some, List, contains, ◌≡◌, refl, arith, suc, [], ◌∷◌,
  ◌∙◌, ap, subst,
}
use ecommerce_commons.Database.{Fault, fine, and_then}
use ecommerce_commons.Tenant.Registry.{
  TenantRecord, Registry, is_active, upsert, mark_for_deletion, find_active,
}
use ecommerce_commons.Tenant.Registry.View.{find, IsKeyed, is_live, contains-find_active}
use ecommerce_commons.Tenant.Registry.View.{slugs as slugs_of}
use ecommerce_commons.Tenant.Sync.{
  Lo, Environment, deletion_delay, each, upsert_all, mark_all, slugs_from_registry, sync_registry,
  slugs, after_sync, sync_with, sync_read, sync,
}
use ecommerce_commons.Tenant.Sync.Reconcile.{Reconciled}
use ecommerce_commons.Tenant.Sync.Outcome.{is_synced, sync_reconciles}

-- The tenants that are active at the end, where the run returned without an error.
live_after :
    (t : ℕ) (in_api live : Bool) (old new : Option TenantRecord)
    → is_live old ≡ live
    → Reconciled t true in_api live old new
    → is_live new ≡ in_api
live_after t true true old new l e = ap is_live e ∙ l
live_after t true false old new l e = e
live_after t false true old new l e = ap is_live e.1 ∙ ap is_active e.2
live_after t false false old new l e = ap is_live e ∙ l

each_fine :
    (fault : ℕ → Fault) (write : ℕ → String → Registry → Registry)
    → ((n : ℕ) → fault n ≡ fine)
    → (n : ℕ) (ss : List String) (c : Registry) → (each fault write n ss c).0 ≡ true
unfolding each
each_fine fault write all n [] c = refl
each_fine fault write all n (s ∷ ss) c =
    rw (all n) (each_fine fault write all (suc n) ss (write n s c))

sync_registry_fine :
    (lo : Lo) (env : Environment) (api locals : List String) (c : Registry)
    → ((n : ℕ) → env.upserts n ≡ fine)
    → ((n : ℕ) → env.marks n ≡ fine)
    → (sync_registry lo env api locals c).0 ≡ true
unfolding sync_registry upsert_all mark_all
sync_registry_fine lo env api locals c up down =
    joined (upsert_all env (lo.without api locals) c)
      (each_fine env.upserts (λ n. upsert (env.upsert_time n)) up 0 (lo.without api locals) c)
  where
    joined :
        (p : Bool × Registry)
        → p.0 ≡ true
        → (and_then p (mark_all env (lo.without locals api))).0 ≡ true
    joined (true, m) e =
        each_fine env.marks (λ n. mark_for_deletion (env.mark_time n) (env.now + deletion_delay))
          down 0 (lo.without locals api) m
    joined (false, m) e = e

after_sync_fine :
    (api : List String) (p : Bool × Registry) → p.0 ≡ true → (after_sync api p).0 ≡ slugs api
after_sync_fine api (true, m) e = refl
after_sync_fine api (false, m) e = ground arith

pub sync_returns :
    (lo : Lo) (env : Environment) (api : List String) (c : Registry)
    → env.readable ≡ true
    → env.api ≡ some api
    → ((n : ℕ) → env.upserts n ≡ fine)
    → ((n : ℕ) → env.marks n ≡ fine)
    → (sync lo env c).0 ≡ slugs api
unfolding sync sync_with
sync_returns lo env api c readable answered up down =
    ap (λ b. (sync_read lo env b c).0) readable
    ∙ ap (λ a. (sync_with lo env a (slugs_from_registry lo c) c).0) answered
    ∙ (after_sync_fine api _ (sync_registry_fine lo env api (slugs_from_registry lo c) c up down))

-- The active tenants are the service's, after a run that returned without an error.
pub synced_active :
    (lo : Lo) (env : Environment) (api : List String) (c : Registry) (k : String)
    → IsKeyed c
    → env.readable ≡ true
    → env.api ≡ some api
    → is_synced (sync lo env c).0 ≡ true
    → contains k (slugs_of (find_active (sync lo env c).1)) ≡ contains k api
synced_active lo env api c k h readable answered ok =
    contains-find_active k (sync lo env c).1 (sync_reconciles lo env api c k h readable answered).0
    ∙ live_after deadline (contains k api) (is_live (find k c)) (find k c)
        (find k (sync lo env c).1) refl
        (subst
          (λ b.
            Reconciled deadline b (contains k api) (is_live (find k c)) (find k c)
              (find k (sync lo env c).1))
          ok (sync_reconciles lo env api c k h readable answered).1)
  where
    deadline : ℕ
    deadline = env.now + deletion_delay

-- If the registry can be read, with one record for each slug, the service answers and every write
-- succeeds, `Sync` returns the service's slugs, and the active tenants are exactly those.
pub sync_converges :
    (lo : Lo) (env : Environment) (api : List String) (c : Registry) (k : String)
    → IsKeyed c
    → env.readable ≡ true
    → env.api ≡ some api
    → ((n : ℕ) → env.upserts n ≡ fine)
    → ((n : ℕ) → env.marks n ≡ fine)
    → ((sync lo env c).0 ≡ slugs api)
      × (contains k (slugs_of (find_active (sync lo env c).1)) ≡ contains k api)
sync_converges lo env api c k h readable answered up down =
    (returned, synced_active lo env api c k h readable answered (ap is_synced returned))
  where
    returned : (sync lo env c).0 ≡ slugs api
    returned = sync_returns lo env api c readable answered up down
