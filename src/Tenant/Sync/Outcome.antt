-- ===== src/Tenant/Sync/Outcome.antt =====
-- Whole runs of `Sync`: what they return, and the registry they leave behind.
use ecommerce_commons.Prelude.{
  ℕ, ◌+◌, String, Bool, true, false, not, ◌&&◌, none, some, List, contains, ◌≡◌, refl, ◌∙◌, ap,
  subst, if◌then◌else◌,
}
use ecommerce_commons.Database.{and_then}
use ecommerce_commons.Tenant.Registry.{Registry, find_active}
use ecommerce_commons.Tenant.Registry.View.{find, IsKeyed, is_live, contains-find_active}
use ecommerce_commons.Tenant.Sync.{
  Lo, Environment, deletion_delay, upsert_all, mark_all, slugs_from_registry, sync_registry, Synced,
  slugs, failed, after_sync, sync_with, sync_read, sync,
}
use ecommerce_commons.Tenant.Sync.Reconcile.{
  Effect, each-Effect, each-IsKeyed, IsLive, IsDoomed, upsert-Writes, mark-Writes, Reconciled,
  both_loops, first_loop,
}

module _ (lo : Lo) (env : Environment) where
  local-live :
      (k : String) (c : Registry)
      → IsKeyed c
      → contains k (slugs_from_registry lo c) ≡ is_live (find k c)
  unfolding slugs_from_registry
  local-live k c h = ap (contains k) (lo.slugs_lem (find_active c)) ∙ contains-find_active k c h

  module _ (api : List String) (c : Registry) (k : String) (h : IsKeyed c) where
    abbrev local : List String
    local = slugs_from_registry lo c

    abbrev deadline : ℕ
    deadline = env.now + deletion_delay

    abbrev creations : Bool × Registry
    creations = upsert_all env (lo.without api local) c

    abbrev deletions : Registry → Bool × Registry
    deletions = mark_all env (lo.without local api)

    abbrev Outcome : Bool × Registry → Type 0
    Outcome p =
        Reconciled deadline p.0 (contains k api) (is_live (find k c)) (find k c) (find k p.1)

    first :
        Effect IsLive
          (contains k api && not (is_live (find k c)))
          creations.0
          (find k c)
          (find k creations.1)
    unfolding upsert_all
    first =
        subst (λ b. Effect IsLive b creations.0 (find k c) (find k creations.1))
          (lo.contains-without k api local ∙ ap (λ b. contains k api && not b) (local-live k c h))
          (each-Effect k IsLive env.upserts _ (upsert-Writes k env.upsert_time) 0
            (lo.without api local) c)

    second :
        (m : Registry)
        → Effect
            (IsDoomed deadline)
            (is_live (find k c) && not (contains k api))
            (deletions m).0
            (find k m)
            (find k (deletions m).1)
    unfolding mark_all
    second m =
        subst
          (λ b. Effect (IsDoomed deadline) b (deletions m).0 (find k m) (find k (deletions m).1))
          (lo.contains-without k local api ∙ ap (λ b. b && not (contains k api)) (local-live k c h))
          (each-Effect k (IsDoomed deadline) env.marks _ (mark-Writes k env.mark_time deadline) 0
            (lo.without local api) m)

    sync_registry_lem : Outcome (sync_registry lo env api local c)
    unfolding sync_registry
    sync_registry_lem = joined creations first
      where
        joined :
            (p : Bool × Registry)
            → Effect IsLive (contains k api && not (is_live (find k c))) p.0 (find k c) (find k p.1)
            → Outcome (and_then p deletions)
        joined (true, m) e =
            both_loops deadline k (deletions m).0 (contains k api) (is_live (find k c)) (find k c)
              (find k m) (find k (deletions m).1) e (second m)
        joined (false, m) e =
            first_loop deadline (contains k api) (is_live (find k c)) (find k c) (find k m) e

  sync_registry-IsKeyed :
      (api locals : List String) (c : Registry)
      → IsKeyed c
      → IsKeyed (sync_registry lo env api locals c).1
  unfolding sync_registry upsert_all mark_all
  sync_registry-IsKeyed api locals c h = joined (upsert_all env (lo.without api locals) c) (
      each-IsKeyed "" IsLive env.upserts _ (upsert-Writes "" env.upsert_time) 0
        (lo.without api locals) c h)
    where
      joined :
          (p : Bool × Registry)
          → IsKeyed p.1
          → IsKeyed (and_then p (mark_all env (lo.without locals api))).1
      joined (true, m) e =
          each-IsKeyed "" (IsDoomed (env.now + deletion_delay)) env.marks _
            (mark-Writes "" env.mark_time (env.now + deletion_delay)) 0 (lo.without locals api) m e
      joined (false, m) e = e

abbrev pub is_synced : Synced → Bool
is_synced (slugs xs) = true
is_synced failed = false

abbrev After : ℕ → List String → String → Registry → Synced × Registry → Type 0
After t api k c p =
    IsKeyed p.1
    × Reconciled t (is_synced p.0) (contains k api) (is_live (find k c)) (find k c) (find k p.1)

after_sync_lem :
    (t : ℕ) (api : List String) (k : String) (c : Registry) (p : Bool × Registry)
    → IsKeyed p.1
    → Reconciled t p.0 (contains k api) (is_live (find k c)) (find k c) (find k p.1)
    → After t api k c (after_sync api p)
after_sync_lem t api k c (true, m) h e = (h, e)
after_sync_lem t api k c (false, m) h e = (h, e)

-- Where each slug has one record, the registry can be read and the service answers with `api`, a
-- run keeps one record for each slug, and for every slug k: a tenant that is active and named by
-- the service is untouched, and so is one that is neither; one that is named and not active is
-- active afterwards; one that is active and not named is pending deletion from `deletion_delay`
-- on. If a write failed, the last two may also be as they were, and `Sync` returns an error.
pub sync_reconciles :
    (lo : Lo) (env : Environment) (api : List String) (c : Registry) (k : String)
    → IsKeyed c
    → env.readable ≡ true
    → env.api ≡ some api
    → IsKeyed (sync lo env c).1
      × Reconciled
          (env.now + deletion_delay)
          (is_synced (sync lo env c).0)
          (contains k api)
          (is_live (find k c))
          (find k c)
          (find k (sync lo env c).1)
unfolding sync sync_with
sync_reconciles lo env api c k h readable answered =
    rw (readable, answered)
      (after_sync_lem (env.now + deletion_delay) api k c
        (sync_registry lo env api (slugs_from_registry lo c) c)
        (sync_registry-IsKeyed lo env api (slugs_from_registry lo c) c h)
        (sync_registry_lem lo env api c k h))

-- If the service does not answer, a run changes nothing, and returns the active tenants of the
-- registry, or an error if it cannot be read.
sync_offline :
    (lo : Lo) (env : Environment) (c : Registry)
    → env.api ≡ none
    → ((sync lo env c).1 ≡ c)
      × ((sync lo env c).0 ≡ (if env.readable then slugs (lo.slugs (find_active c)) else failed))
unfolding sync sync_with slugs_from_registry
sync_offline lo env c unreached = by_read env.readable
  where
    by_read :
        (b : Bool)
        → ((sync_read lo env b c).1 ≡ c)
          × ((sync_read lo env b c).0 ≡ (if b then slugs (lo.slugs (find_active c)) else failed))
    by_read true = rw unreached (refl, refl)
    by_read false = (refl, refl)
