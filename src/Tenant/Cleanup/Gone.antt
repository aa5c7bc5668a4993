-- ===== src/Tenant/Cleanup/Gone.antt =====
-- Which tenants a tick takes out of the registry, and what has been cleaned up by then, where no other
-- process changes the registry meanwhile.
use ecommerce_commons.Prelude.{
  ℕ, suc, String, Bool, true, false, Option, none, List, [], ◌∷◌, contains, ◌≡◌, refl, arith, ◌∙◌,
  sym, subst, ◌⊎◌, inl, inr, str_eq, str_eq→≡, str_ne_comm, Bool-cases, eq_iff,
}
use ecommerce_commons.Database.{Fault, fine, refused, lost, attempt}
use ecommerce_commons.Tenant.Registry.{TenantRecord, Registry, find_pending_deletion, remove}
use ecommerce_commons.Tenant.Registry.View.{
  find, IsKeyed, slugs, is_overdue, find-remove, remove-IsKeyed, contains-find_pending_deletion,
}
use ecommerce_commons.Tenant.Cleanup.{
  Cleaner, CleanupEnvironment, run_cleaners, after_cleaners, cleanup_tenant, cleanup_each,
  cleanup_found, process_expired_tenants,
}

-- A record that is not swept is as it was; one that is swept is as it was, or gone with `C` done.
abbrev pub Swept : Bool → Type 0 → Option TenantRecord → Option TenantRecord → Type 0
Swept false C old new = new ≡ old
Swept true C old new = (new ≡ old) ⊎ ((new ≡ none) × C)

from_same :
    (b : Bool) (C : Type 0) (start old new : Option TenantRecord)
    → old ≡ start
    → Swept b C old new
    → Swept b C start new
from_same b C start old new e h = subst (λ o. Swept b C o new) e h

may_sweep :
    (b : Bool) (C : Type 0) (old new : Option TenantRecord)
    → Swept b C old new
    → Swept true C old new
may_sweep false C old new e = inl e
may_sweep true C old new e = e

stays_gone :
    (b : Bool) (C : Type 0) (old mid new : Option TenantRecord)
    → mid ≡ none
    → C
    → Swept b C mid new
    → Swept true C old new
stays_gone false C old mid new gone c e = inr (e ∙ gone, c)
stays_gone true C old mid new gone c (inl e) = inr (e ∙ gone, c)
stays_gone true C old mid new gone c (inr e) = inr e

module _ {S : Type 0} (cleaners : List (Cleaner S)) where
  cleanup_tenant-IsKeyed :
      (f : Fault) (slug : String) (w : Registry × S)
      → IsKeyed w.0
      → IsKeyed (cleanup_tenant cleaners f slug w).0
  unfolding cleanup_tenant
  cleanup_tenant-IsKeyed f slug w h = after (run_cleaners cleaners slug w.1)
    where
      by_fault : (f : Fault) → IsKeyed (attempt f (remove slug) w.0).1
      by_fault fine = remove-IsKeyed slug w.0 h
      by_fault lost = remove-IsKeyed slug w.0 h
      by_fault refused = h

      after : (p : Bool × S) → IsKeyed (after_cleaners f slug w.0 p).0
      after (true, s) = by_fault f
      after (false, s) = h

  other_tenant :
      (f : Fault) (slug k : String) (w : Registry × S)
      → IsKeyed w.0
      → str_eq slug k ≡ false
      → find k (cleanup_tenant cleaners f slug w).0 ≡ find k w.0
  unfolding cleanup_tenant
  other_tenant f slug k w h differ = after (run_cleaners cleaners slug w.1)
    where
      kept : find k (remove slug w.0) ≡ find k w.0
      kept = find-remove k slug w.0 h ∙ rw differ

      by_fault : (f : Fault) → find k (attempt f (remove slug) w.0).1 ≡ find k w.0
      by_fault fine = kept
      by_fault lost = kept
      by_fault refused = refl

      after : (p : Bool × S) → find k (after_cleaners f slug w.0 p).0 ≡ find k w.0
      after (true, s) = by_fault f
      after (false, s) = refl

  -- `C` holds of what the cleaners leave for the tenant `k` when they return without an error, and no
  -- cleaning up of another tenant undoes it.
  module _ (k : String) (C : S → Type 0)
      (establish : (s : S) → (run_cleaners cleaners k s).0 ≡ true → C (run_cleaners cleaners k s).1)
      (keep : (slug : String) (s : S) → C s → C (run_cleaners cleaners slug s).1) where
    keep_tenant :
        (f : Fault) (slug : String) (w : Registry × S)
        → C w.1
        → C (cleanup_tenant cleaners f slug w).1
    unfolding cleanup_tenant
    keep_tenant f slug w c = after (run_cleaners cleaners slug w.1) (keep slug w.1 c)
      where
        after : (p : Bool × S) → C p.1 → C (after_cleaners f slug w.0 p).1
        after (true, s) h = h
        after (false, s) h = h

    own_tenant :
        (f : Fault) (w : Registry × S)
        → IsKeyed w.0
        → Swept true
            (C (cleanup_tenant cleaners f k w).1)
            (find k w.0)
            (find k (cleanup_tenant cleaners f k w).0)
    unfolding cleanup_tenant
    own_tenant f w h = after (run_cleaners cleaners k w.1) (establish w.1)
      where
        gone : find k (remove k w.0) ≡ none
        gone = ground (arith, find-remove k k w.0 h, eq_iff k k)

        by_fault :
            (f : Fault) (s : S)
            → C s
            → Swept true (C s) (find k w.0) (find k (attempt f (remove k) w.0).1)
        by_fault fine s c = inr (gone, c)
        by_fault lost s c = inr (gone, c)
        by_fault refused s c = inl refl

        after :
            (p : Bool × S)
            → (p.0 ≡ true → C p.1)
            → Swept true
                (C (after_cleaners f k w.0 p).1)
                (find k w.0)
                (find k (after_cleaners f k w.0 p).0)
        after (true, s) c = by_fault f s (c refl)
        after (false, s) c = inl refl

    module _ (env : CleanupEnvironment)
        (alone : (n : ℕ) (c : Registry) → env.meanwhile n c ≡ c) where
      keep_each :
          (n : ℕ) (rs : List TenantRecord) (w : Registry × S)
          → C w.1
          → C (cleanup_each cleaners env n rs w).1
      unfolding cleanup_each
      keep_each n [] w c = c
      keep_each n (r ∷ rs) w c =
          keep_each (suc n) rs _ (keep_tenant (env.removals n) r.slug (env.meanwhile n w.0, w.1) c)

      abbrev Result : Bool → Registry × S → Registry × S → Type 0
      Result b start end = Swept b (C end.1) (find k start.0) (find k end.0)

      -- The tenant of `r` is cleaned up first, then those of `rs`.
      step :
          (n : ℕ) (r : TenantRecord) (rs : List TenantRecord) (w end : Registry × S)
          → IsKeyed w.0
          → ((s : Registry × S) → C s.1 → C (cleanup_each cleaners env (suc n) rs s).1)
          → cleanup_each cleaners env (suc n) rs (cleanup_tenant cleaners (env.removals n) r.slug w)
            ≡ end
          → Result (contains k (slugs rs)) (cleanup_tenant cleaners (env.removals n) r.slug w) end
          → Result (contains k (slugs (r ∷ rs))) w end
      step n r rs w end h kept e rest = elim (Bool-cases (str_eq k r.slug)) [
        | inl mine ↦ rw mine (
            own (
              subst (λ x. Result true w (cleanup_tenant cleaners (env.removals n) x w))
                (str_eq→≡ k r.slug mine) (own_tenant (env.removals n) w h)))
        | inr differ ↦ rw differ (
            from_same (contains k (slugs rs)) _ (find k w.0) (find k mid.0) _
              (other_tenant (env.removals n) r.slug k w h (str_ne_comm k r.slug differ)) rest)
      ]
        where
          mid : Registry × S
          mid = cleanup_tenant cleaners (env.removals n) r.slug w

          own : Result true w mid → Result true w end
          own (inl same) =
              may_sweep (contains k (slugs rs)) _ _ _
                (from_same (contains k (slugs rs)) _ _ (find k mid.0) _ same rest)
          own (inr (gone, c)) =
              stays_gone (contains k (slugs rs)) _ _ (find k mid.0) _ gone
                (subst (λ v. C v.1) e (kept mid c)) rest

      each-Swept :
          (n : ℕ) (rs : List TenantRecord) (w : Registry × S)
          → IsKeyed w.0
          → Result (contains k (slugs rs)) w (cleanup_each cleaners env n rs w)
      unfolding cleanup_each
      each-Swept n [] w h = refl
      each-Swept n (r ∷ rs) w h =
          subst
            (λ c. Result (contains k (slugs (r ∷ rs))) w (
              cleanup_each cleaners env (suc n) rs
                (cleanup_tenant cleaners (env.removals n) r.slug (c, w.1))))
            (sym (alone n w.0))
            (step n r rs w
              (cleanup_each cleaners env (suc n) rs
                (cleanup_tenant cleaners (env.removals n) r.slug w))
              h (keep_each (suc n) rs) refl
              (each-Swept (suc n) rs (cleanup_tenant cleaners (env.removals n) r.slug w)
                (cleanup_tenant-IsKeyed (env.removals n) r.slug w h)))

      pub swept :
          (w : Registry × S)
          → IsKeyed w.0
          → Swept
              (is_overdue env.now (find k w.0))
              (C (process_expired_tenants cleaners env w).1)
              (find k w.0)
              (find k (process_expired_tenants cleaners env w).0)
      unfolding process_expired_tenants
      swept w h = by_read env.readable
        where
          unread : (b : Bool) → Swept b (C w.1) (find k w.0) (find k w.0)
          unread true = inl refl
          unread false = refl

          by_read :
              (b : Bool)
              → Swept
                  (is_overdue env.now (find k w.0))
                  (C (cleanup_found cleaners env b w).1)
                  (find k w.0)
                  (find k (cleanup_found cleaners env b w).0)
          by_read true =
              subst
                (λ b.
                  Swept b (C (cleanup_found cleaners env true w).1) (find k w.0)
                    (find k (cleanup_found cleaners env true w).0))
                (contains-find_pending_deletion env.now k w.0 h)
                (each-Swept 0 (find_pending_deletion env.now w.0) w h)
          by_read false = unread (is_overdue env.now (find k w.0))
