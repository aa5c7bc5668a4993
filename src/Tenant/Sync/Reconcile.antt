-- ===== src/Tenant/Sync/Reconcile.antt =====
-- What a run of `Sync` does to the tenant of a slug, with errors on its way and without.
use ecommerce_commons.Prelude.{
  ℕ, suc, String, Bool, true, false, not, ◌&&◌, Option, some, List, [], ◌∷◌, contains, ◌≡◌, refl,
  arith, ◌⊎◌, inl, inr, ◌∙◌, sym, subst, str_eq, str_eq→≡, str_ne_comm, Bool-cases, eq_iff,
}
use ecommerce_commons.Database.{Fault, fine, refused, lost, attempt, and_then}
use ecommerce_commons.Tenant.Registry.{
  pending_deletion, TenantRecord, Registry, upsert, mark_for_deletion, new_record,
}
use ecommerce_commons.Tenant.Registry.View.{
  find, IsKeyed, is_live, doomed, or_blank, find-upsert, find-mark_for_deletion, upsert-IsKeyed,
  mark_for_deletion-IsKeyed,
}
use ecommerce_commons.Tenant.Sync.{each}

-- A loop of writes that touches a record or not, and ends without an error or with one: an untouched
-- record is as it was, a touched one has the property at the end, or is as it was if there was an error.
abbrev pub Effect :
    (Option TenantRecord → Type 0)
    → Bool
    → Bool
    → Option TenantRecord
    → Option TenantRecord
    → Type 0
Effect P false ok old new = new ≡ old
Effect P true true old new = P new
Effect P true false old new = (new ≡ old) ⊎ P new

-- What a write does to the record of `k`.
pub record Writes (k : String) (P : Option TenantRecord → Type 0)
    (write : ℕ → String → Registry → Registry) : Type 0 where
  pub own : (n : ℕ) (c : Registry) → P (find k (write n k c))
  pub other :
      (n : ℕ) (s : String) (c : Registry) → str_eq s k ≡ false → find k (write n s c) ≡ find k c
  pub keyed : (n : ℕ) (s : String) (c : Registry) → IsKeyed c → IsKeyed (write n s c)

module _ (k : String) (P : Option TenantRecord → Type 0) where
  -- After the record got the property, the rest of the loop keeps it.
  settled :
      (touched ok : Bool) (old new : Option TenantRecord)
      → P old
      → Effect P touched ok old new
      → P new
  settled false ok old new h e = subst P (sym e) h
  settled true true old new h e = e
  settled true false old new h (inl e) = subst P (sym e) h
  settled true false old new h (inr e) = e

  to_Effect : (ok : Bool) (old new : Option TenantRecord) → P new → Effect P true ok old new
  to_Effect true old new h = h
  to_Effect false old new h = inr h

  from_start :
      (touched ok : Bool) (start old new : Option TenantRecord)
      → old ≡ start
      → Effect P touched ok old new
      → Effect P touched ok start new
  from_start touched ok start old new e h = subst (λ o. Effect P touched ok o new) e h

  untouched :
      (touched : Bool) (old new : Option TenantRecord) → new ≡ old → Effect P touched false old new
  untouched false old new e = e
  untouched true old new e = inl e

  pub weaken :
      (touched ok : Bool) (old new : Option TenantRecord)
      → Effect P touched true old new
      → Effect P touched ok old new
  weaken false ok old new h = h
  weaken true ok old new h = to_Effect ok old new h

  -- One write, for the slug `s`.
  pub attempt-Effect :
      (write : ℕ → String → Registry → Registry)
      → Writes k P write
      → (n : ℕ) (s : String) (c : Registry) (f : Fault)
      → Effect P
          (str_eq s k)
          (attempt f (write n s) c).0
          (find k c)
          (find k (attempt f (write n s) c).1)
  attempt-Effect write w n s c f = elim (Bool-cases (str_eq s k)) [
    | inl same ↦
        rw same
          (mine f (subst (λ x. P (find k (write n x c))) (sym (str_eq→≡ s k same)) (w.own n c)))
    | inr differ ↦ rw differ (others f (w.other n s c differ))
  ]
    where
      mine :
          (f : Fault)
          → P (find k (write n s c))
          → Effect P true
              (attempt f (write n s) c).0
              (find k c)
              (find k (attempt f (write n s) c).1)
      mine fine h = h
      mine refused h = inl refl
      mine lost h = inr h

      others :
          (f : Fault)
          → find k (write n s c) ≡ find k c
          → find k (attempt f (write n s) c).1 ≡ find k c
      others fine h = h
      others refused h = refl
      others lost h = h

  module _ (fault : ℕ → Fault) (write : ℕ → String → Registry → Registry)
      (w : Writes k P write) where
    pub each-IsKeyed :
        (n : ℕ) (ss : List String) (c : Registry) → IsKeyed c → IsKeyed (each fault write n ss c).1
    unfolding each
    each-IsKeyed n [] c h = h
    each-IsKeyed n (s ∷ ss) c h = go (each-IsKeyed (suc n) ss) (fault n)
      where
        go :
            ((c : Registry) → IsKeyed c → IsKeyed (each fault write (suc n) ss c).1)
            → (f : Fault)
            → IsKeyed (and_then (attempt f (write n s) c) (each fault write (suc n) ss)).1
        go rest fine = rest (write n s c) (w.keyed n s c h)
        go rest refused = h
        go rest lost = w.keyed n s c h

    abbrev Ends : Bool → Option TenantRecord → Bool × Registry → Type 0
    Ends touched old p = Effect P touched p.0 old (find k p.1)

    pub each-Effect :
        (n : ℕ) (ss : List String) (c : Registry)
        → Ends (contains k ss) (find k c) (each fault write n ss c)
    unfolding each
    each-Effect n [] c = refl
    each-Effect n (s ∷ ss) c = elim (Bool-cases (str_eq k s)) [
      | inl same ↦
          let own : P (find k (write n s c)) =
            subst (λ x. P (find k (write n x c))) (str_eq→≡ k s same) (w.own n c) in
          rw same (mine own (each-Effect (suc n) ss) (fault n))
      | inr differ ↦
          rw differ
            (others (w.other n s c (str_ne_comm k s differ)) (each-Effect (suc n) ss) (fault n))
    ]
      where
        next : Fault → Bool × Registry
        next f = and_then (attempt f (write n s) c) (each fault write (suc n) ss)

        mine :
            P (find k (write n s c))
            → ((c : Registry) → Ends (contains k ss) (find k c) (each fault write (suc n) ss c))
            → (f : Fault) → Ends true (find k c) (next f)
        mine own rest fine =
            to_Effect _ _ _ (settled (contains k ss) _ _ _ own (rest (write n s c)))
        mine own rest refused = inl refl
        mine own rest lost = inr own

        others :
            find k (write n s c) ≡ find k c
            → ((c : Registry) → Ends (contains k ss) (find k c) (each fault write (suc n) ss c))
            → (f : Fault) → Ends (contains k ss) (find k c) (next f)
        others same rest fine =
            from_start (contains k ss) _ (find k c) (find k (write n s c)) _ same
              (rest (write n s c))
        others same rest refused = untouched (contains k ss) _ _ refl
        others same rest lost = untouched (contains k ss) _ _ same

abbrev pub IsLive : Option TenantRecord → Type 0
IsLive o = is_live o ≡ true

-- Marked for deletion at this time.
abbrev pub IsDoomed : ℕ → Option TenantRecord → Type 0
IsDoomed t o =
    (r : TenantRecord) × (o ≡ some r) × (r.status ≡ pending_deletion) × (r.delete_after ≡ some t)

pub upsert-Writes : (k : String) (time : ℕ → ℕ) → Writes k IsLive (λ n. upsert (time n))
upsert-Writes k time = record {
  own = λ n c. ground (arith, find-upsert k k (time n) c, eq_iff k k);
  other = λ n s c h. find-upsert k s (time n) c ∙ rw h;
  keyed = λ n s c h. upsert-IsKeyed (time n) s c h;
}

pub mark-Writes :
    (k : String) (time : ℕ → ℕ) (t : ℕ) → Writes k (IsDoomed t) (λ n. mark_for_deletion (time n) t)
mark-Writes k time t = record {
  own = λ n c. (
    doomed (time n) t (or_blank (new_record (time n) k) (find k c)),
    find-mark_for_deletion k k (time n) t c ∙ rw (self k),
    refl,
    refl,
  );
  other = λ n s c h. find-mark_for_deletion k s (time n) t c ∙ rw h;
  keyed = λ n s c h. mark_for_deletion-IsKeyed (time n) t s c h;
}
  where
    self : (k : String) → str_eq k k ≡ true
    self k = ground (arith, eq_iff k k)

module _ (t : ℕ) where
  -- What a run makes of the tenant of a slug: by whether it returned without an error, whether the
  -- service names the slug, and whether the registry had it as active.
  abbrev pub Reconciled : Bool → Bool → Bool → Option TenantRecord → Option TenantRecord → Type 0
  Reconciled ok true true old new = new ≡ old
  Reconciled ok true false old new = Effect IsLive true ok old new
  Reconciled ok false true old new = Effect (IsDoomed t) true ok old new
  Reconciled ok false false old new = new ≡ old

  pub both_loops :
      (k : String) (ok in_api live : Bool) (old mid new : Option TenantRecord)
      → Effect IsLive (in_api && not live) true old mid
      → Effect (IsDoomed t) (live && not in_api) ok mid new
      → Reconciled ok in_api live old new
  both_loops k ok true true old mid new e1 e2 = e2 ∙ e1
  both_loops k ok true false old mid new e1 e2 =
      to_Effect k IsLive ok old new (subst IsLive (sym e2) e1)
  both_loops k ok false true old mid new e1 e2 = from_start k (IsDoomed t) true ok old mid new e1 e2
  both_loops k ok false false old mid new e1 e2 = e2 ∙ e1

  pub first_loop :
      (in_api live : Bool) (old new : Option TenantRecord)
      → Effect IsLive (in_api && not live) false old new
      → Reconciled false in_api live old new
  first_loop true true old new e = e
  first_loop true false old new e = e
  first_loop false true old new e = inl e
  first_loop false false old new e = e
