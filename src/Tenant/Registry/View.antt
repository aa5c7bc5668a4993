-- ===== src/Tenant/Registry/View.antt =====
-- The registry as a function from slugs to records, and each call as a change of that function.
use ecommerce_commons.Prelude.{
  ℕ, String, Bool, false, Option, none, some, List, [], ◌∷◌, str_eq, if◌then◌else◌, ◌≡◌, refl,
  arith, eq_iff, map, contains, str_eq→≡, Bool-cases, inl, inr, ap, sym, ◌∙◌,
}
use ecommerce_commons.Tenant.Registry.{
  active, pending_deletion, is_active, TenantRecord, Registry, update_or_insert, new_record, upsert,
  mark_for_deletion, is_expired, find_pending_deletion, find_active, remove,
}

unfoldable pub find : String → Registry → Option TenantRecord
find k [] = none
find k (r ∷ rs) = let rest = find k rs in if str_eq r.slug k then some r else rest

-- `_id` is a unique key.
abbrev pub IsKeyed : Registry → Type 0
IsKeyed [] = Unit
IsKeyed (r ∷ rs) = (find r.slug rs ≡ none) × IsKeyed rs

abbrev pub slugs : List TenantRecord → List String
slugs = map (λ r. r.slug)

abbrev pub or_blank : TenantRecord → Option TenantRecord → TenantRecord
or_blank blank none = blank
or_blank blank (some r) = r

find-update_or_insert :
    (k slug : String) (change : TenantRecord → TenantRecord) (blank : TenantRecord) (c : Registry)
    → ((r : TenantRecord) → (change r).slug ≡ r.slug)
    → blank.slug ≡ slug
    → find k (update_or_insert slug change blank c)
      ≡ (if str_eq slug k then some (change (or_blank blank (find slug c))) else find k c)
unfolding find update_or_insert
find-update_or_insert k slug change blank [] keeps e = ground (arith, keeps blank)
find-update_or_insert k slug change blank (r ∷ c) keeps e = ground (
  arith,
  keeps r,
  find-update_or_insert k slug change blank c keeps e,
  eq_iff r.slug slug,
  eq_iff r.slug k,
  eq_iff slug k,
)

-- Inserting or updating one slug leaves one document for each.
update_or_insert-IsKeyed :
    (slug : String) (change : TenantRecord → TenantRecord) (blank : TenantRecord) (c : Registry)
    → ((r : TenantRecord) → (change r).slug ≡ r.slug)
    → blank.slug ≡ slug
    → IsKeyed c
    → IsKeyed (update_or_insert slug change blank c)
unfolding find update_or_insert
update_or_insert-IsKeyed slug change blank [] keeps e h = (refl, tt)
update_or_insert-IsKeyed slug change blank (r ∷ c) keeps e h =
    elim (Bool-cases (str_eq r.slug slug)) [
      | inl same ↦ rw same (ap (λ s. find s c) (keeps r) ∙ h.0, h.1)
      | inr other ↦ rw other (
        ground (
          arith,
          find-update_or_insert r.slug slug change blank c keeps e,
          eq_iff slug r.slug,
          eq_iff r.slug slug,
        ),
        update_or_insert-IsKeyed slug change blank c keeps e h.1,
      )
    ]

abbrev activated : ℕ → TenantRecord → TenantRecord
activated now r = record r { status = active; delete_after = none; modified_at = now }

abbrev pub doomed : ℕ → ℕ → TenantRecord → TenantRecord
doomed now t r = record r { status = pending_deletion; delete_after = some t; modified_at = now }

pub find-upsert :
    (k slug : String) (now : ℕ) (c : Registry)
    → find k (upsert now slug c) ≡ (
        if str_eq slug k
        then some (activated now (or_blank (new_record now slug) (find slug c)))
        else find k c)
unfolding upsert
find-upsert k slug now c =
    find-update_or_insert k slug (activated now) (new_record now slug) c (λ r. refl) refl

pub find-mark_for_deletion :
    (k slug : String) (now t : ℕ) (c : Registry)
    → find k (mark_for_deletion now t slug c) ≡ (
        if str_eq slug k
        then some (doomed now t (or_blank (new_record now slug) (find slug c)))
        else find k c)
unfolding mark_for_deletion
find-mark_for_deletion k slug now t c =
    find-update_or_insert k slug (doomed now t) (new_record now slug) c (λ r. refl) refl

pub upsert-IsKeyed :
    (now : ℕ) (slug : String) (c : Registry) → IsKeyed c → IsKeyed (upsert now slug c)
unfolding upsert
upsert-IsKeyed now slug c h =
    update_or_insert-IsKeyed slug (activated now) (new_record now slug) c (λ r. refl) refl h

pub mark_for_deletion-IsKeyed :
    (now t : ℕ) (slug : String) (c : Registry)
    → IsKeyed c
    → IsKeyed (mark_for_deletion now t slug c)
unfolding mark_for_deletion
mark_for_deletion-IsKeyed now t slug c h =
    update_or_insert-IsKeyed slug (doomed now t) (new_record now slug) c (λ r. refl) refl h

pub find-remove :
    (k slug : String) (c : Registry)
    → IsKeyed c
    → find k (remove slug c) ≡ (if str_eq slug k then none else find k c)
unfolding find remove
find-remove k slug [] h = ground arith
find-remove k slug (r ∷ c) h = elim (Bool-cases (str_eq r.slug k)) [
  | inl mine ↦
      let absent : find k c ≡ none = ap (λ s. find s c) (sym (str_eq→≡ r.slug k mine)) ∙ h.0 in
      ground (arith, find-remove k slug c h.1, eq_iff r.slug slug, eq_iff r.slug k, eq_iff slug k)
  | inr other ↦
      ground (arith, find-remove k slug c h.1, eq_iff r.slug slug, eq_iff r.slug k, eq_iff slug k)
]

pub remove-IsKeyed : (slug : String) (c : Registry) → IsKeyed c → IsKeyed (remove slug c)
unfolding remove
remove-IsKeyed slug [] h = tt
remove-IsKeyed slug (r ∷ c) h = elim (Bool-cases (str_eq r.slug slug)) [
  | inl same ↦ rw same h.1
  | inr other ↦
      rw other (ground (arith, h.0, find-remove r.slug slug c h.1), remove-IsKeyed slug c h.1)
]

absent-active :
    (k : String) (c : Registry) → find k c ≡ none → contains k (slugs (find_active c)) ≡ false
unfolding find find_active
absent-active k [] h = refl
absent-active k (r ∷ c) h = ground (arith, absent-active k c, eq_iff k r.slug, eq_iff r.slug k)

abbrev pub is_live : Option TenantRecord → Bool
is_live none = false
is_live (some r) = is_active r.status

-- A slug is among the active ones exactly if the record of that slug is active.
pub contains-find_active :
    (k : String) (c : Registry)
    → IsKeyed c
    → contains k (slugs (find_active c)) ≡ is_live (find k c)
unfolding find find_active
contains-find_active k [] h = refl
contains-find_active k (r ∷ c) h = elim (Bool-cases (str_eq r.slug k)) [
  | inl mine ↦
      let absent : find k c ≡ none = ap (λ s. find s c) (sym (str_eq→≡ r.slug k mine)) ∙ h.0 in
      ground (arith, absent-active k c absent, eq_iff k r.slug, eq_iff r.slug k)
  | inr other ↦ ground (arith, contains-find_active k c h.1, eq_iff k r.slug, eq_iff r.slug k)
]

absent-pending :
    (now : ℕ) (k : String) (c : Registry)
    → find k c ≡ none
    → contains k (slugs (find_pending_deletion now c)) ≡ false
unfolding find find_pending_deletion
absent-pending now k [] h = refl
absent-pending now k (r ∷ c) h =
    ground (arith, absent-pending now k c, eq_iff k r.slug, eq_iff r.slug k)

abbrev pub is_overdue : ℕ → Option TenantRecord → Bool
is_overdue now none = false
is_overdue now (some r) = is_expired now r

-- A slug is to be deleted exactly if the record of that slug is pending and its date has come.
pub contains-find_pending_deletion :
    (now : ℕ) (k : String) (c : Registry)
    → IsKeyed c
    → contains k (slugs (find_pending_deletion now c)) ≡ is_overdue now (find k c)
unfolding find find_pending_deletion
contains-find_pending_deletion now k [] h = refl
contains-find_pending_deletion now k (r ∷ c) h = elim (Bool-cases (str_eq r.slug k)) [
  | inl mine ↦
      let absent : find k c ≡ none = ap (λ s. find s c) (sym (str_eq→≡ r.slug k mine)) ∙ h.0 in
      ground (arith, absent-pending now k c absent, eq_iff k r.slug, eq_iff r.slug k)
  | inr other ↦
      ground (arith, contains-find_pending_deletion now k c h.1, eq_iff k r.slug, eq_iff r.slug k)
]
