-- ===== src/Tenant/Sync.antt =====
-- pkg/tenant/sync.go: the registry follows the tenant service. `SlugsProvider` and the functions of
-- the package lo are parameters. The calls of a loop are numbered, and how each one ends is chosen by
-- the environment. Logging is left out.
pub mod Reconcile
pub mod Outcome
pub mod Converge
use ecommerce_commons.Prelude.{
  ℕ, suc, ◌+◌, ◌*◌, String, Bool, true, false, not, ◌&&◌, Option, none, some, List, [], ◌∷◌,
  contains, map, ◌≡◌,
}
use ecommerce_commons.Database.{Fault, attempt, and_then}
use ecommerce_commons.Tenant.Registry.{
  TenantRecord, Registry, upsert, mark_for_deletion, find_active,
}

-- `lo.Without` and `lo.Map(records, ...)` with the slug of a record.
pub record Lo : Type 0 where
  pub without : List String → List String → List String
  pub contains-without :
      (k : String) (xs ys : List String)
      → contains k (without xs ys) ≡ (contains k xs && not (contains k ys))
  pub slugs : List TenantRecord → List String
  pub slugs_lem : (rs : List TenantRecord) → slugs rs ≡ map (λ r. r.slug) rs

-- How the n-th upsert ends and when it is made, the same of the marks; the time that `deleteAfter` is
-- reckoned from; whether the registry can be read; what the service answers, if it does.
pub record Environment : Type 0 where
  pub upserts : ℕ → Fault
  pub upsert_time : ℕ → ℕ
  pub marks : ℕ → Fault
  pub mark_time : ℕ → ℕ
  pub now : ℕ
  pub readable : Bool
  pub api : Option (List String)

-- `deletionDelay`
abbrev pub deletion_delay : ℕ
deletion_delay = 5 * 60000

-- The loops of `syncRegistry`, with the n-th write for a slug. They stop at the first error.
unfoldable pub each :
    (ℕ → Fault) → (ℕ → String → Registry → Registry) → ℕ → List String → Registry → Bool × Registry
each fault write n [] c = (true, c)
each fault write n (s ∷ ss) c =
    and_then (attempt (fault n) (write n s) c) (each fault write (suc n) ss)

unfoldable pub upsert_all : Environment → List String → Registry → Bool × Registry
unfolding each
upsert_all env = each env.upserts (λ n. upsert (env.upsert_time n)) 0

unfoldable pub mark_all : Environment → List String → Registry → Bool × Registry
unfolding each
mark_all env =
    each env.marks (λ n. mark_for_deletion (env.mark_time n) (env.now + deletion_delay)) 0

-- `slugsFromRegistry`, where the registry can be read.
unfoldable pub slugs_from_registry : Lo → Registry → List String
slugs_from_registry lo c = lo.slugs (find_active c)

-- `syncRegistry`
unfoldable pub sync_registry :
    Lo → Environment → List String → List String → Registry → Bool × Registry
unfolding upsert_all mark_all
sync_registry lo env api_slugs local_slugs c =
    and_then (upsert_all env (lo.without api_slugs local_slugs) c)
      (mark_all env (lo.without local_slugs api_slugs))

-- What `Sync` returns: slugs, or an error.
pub data Synced : Type 0 where
  slugs : List String → Synced
  failed : Synced

abbrev pub after_sync : List String → Bool × Registry → Synced × Registry
after_sync api_slugs (true, c) = (slugs api_slugs, c)
after_sync api_slugs (false, c) = (failed, c)

unfoldable pub sync_with :
    Lo → Environment → Option (List String) → List String → Registry → Synced × Registry
unfolding sync_registry
sync_with lo env none local_slugs c = (slugs local_slugs, c)
sync_with lo env (some api_slugs) local_slugs c =
    after_sync api_slugs (sync_registry lo env api_slugs local_slugs c)

abbrev pub sync_read : Lo → Environment → Bool → Registry → Synced × Registry
sync_read lo env false c = (failed, c)
sync_read lo env true c = sync_with lo env env.api (slugs_from_registry lo c) c

-- `Sync`
unfoldable pub sync : Lo → Environment → Registry → Synced × Registry
unfolding sync_with slugs_from_registry
sync lo env c = sync_read lo env env.readable c
