-- ===== src/Tenant/Registry.antt =====
-- pkg/tenant/repository.go: the tenants of a service, one document for each slug. Each call is one
-- operation on the list of documents, with the filter and the update that the source gives it, read as
-- MongoDB documents them. Times are milliseconds, as MongoDB keeps them.
pub mod View
use ecommerce_commons.Prelude.{
  ℕ, String, Bool, true, false, ◌&&◌, Option, none, some, List, [], ◌∷◌, leb, str_eq, if◌then◌else◌,
}

-- `Status`
pub data Status : Type 0 where
  active pending_deletion : Status

abbrev pub is_active : Status → Bool
is_active active = true
is_active pending_deletion = false

-- `Record`
pub record TenantRecord : Type 0 where
  pub slug : String
  pub status : Status
  pub delete_after : Option ℕ
  pub created_at : ℕ
  pub modified_at : ℕ

abbrev pub Registry : Type 0
Registry = List TenantRecord

-- `UpdateOne` with `SetUpsert(true)` on one `_id`: the document is changed, or a new one is made by
-- the same change.
unfoldable pub update_or_insert :
    String → (TenantRecord → TenantRecord) → TenantRecord → Registry → Registry
update_or_insert slug change blank [] = change blank ∷ []
update_or_insert slug change blank (r ∷ rs) =
    let rest = update_or_insert slug change blank rs in
    if str_eq r.slug slug then change r ∷ rs else r ∷ rest

-- What `$setOnInsert` and the filter give a new document; the rest is set by the update.
abbrev pub new_record : ℕ → String → TenantRecord
new_record now slug = record {
  slug = slug;
  status = active;
  delete_after = none;
  created_at = now;
  modified_at = now;
}

-- `Upsert`
unfoldable pub upsert : ℕ → String → Registry → Registry
unfolding update_or_insert
upsert now slug =
    update_or_insert slug
      (λ r. record r { status = active; delete_after = none; modified_at = now })
      (new_record now slug)

-- `MarkForDeletion`
unfoldable pub mark_for_deletion : ℕ → ℕ → String → Registry → Registry
unfolding update_or_insert
mark_for_deletion now delete_after slug =
    update_or_insert slug
      (λ r. record r {
        status = pending_deletion;
        delete_after = some delete_after;
        modified_at = now;
      })
      (new_record now slug)

-- `{"$lte": now}`: a date that is null does not match.
abbrev pub until : Option ℕ → ℕ → Bool
until none now = false
until (some t) now = leb t now

abbrev pub is_expired : ℕ → TenantRecord → Bool
is_expired now r = (if is_active r.status then false else true) && until r.delete_after now

-- `FindPendingDeletion`
unfoldable pub find_pending_deletion : ℕ → Registry → List TenantRecord
find_pending_deletion now [] = []
find_pending_deletion now (r ∷ rs) =
    let rest = find_pending_deletion now rs in if is_expired now r then r ∷ rest else rest

-- `FindActive`
unfoldable pub find_active : Registry → List TenantRecord
find_active [] = []
find_active (r ∷ rs) = let rest = find_active rs in if is_active r.status then r ∷ rest else rest

-- `Remove`: `DeleteOne` by `_id`.
unfoldable pub remove : String → Registry → Registry
remove slug [] = []
remove slug (r ∷ rs) = let rest = remove slug rs in if str_eq r.slug slug then rs else r ∷ rest
