-- ===== src/Mongo/Repository/Upserts.antt =====
-- What `UpsertIfNewer` does to the document of an id, and what it reports.
use ecommerce_commons.Prelude.{
  ◌≢◌, String, Bool, true, false, not, ◌&&◌, ◌||◌, Option, none, some, List, ltb, if◌then◌else◌,
  str_eq, ◌≡◌, refl, arith, ◌∙◌, ap, sym, subst, Bool-cases, inl, inr,
}
use ecommerce_commons.Database.{Fault, fine, refused, lost}
use ecommerce_commons.Mongo.Collection.{replace_one, exists_one}
use ecommerce_commons.Mongo.Collection.Keyed.{
  has_key, filter, or_same, is_some, passes, is_present, exists_one-find, is_some-replace_one,
  find-replace_one, replace_one-IsKeyed,
}
use ecommerce_commons.Mongo.Repository.{
  EntityMapper, wrapped, Answer, answer, failure, acknowledged, insert_new, UpdateResult,
  replaced_or_inserted, updated, upsert_if_newer,
}
use ecommerce_commons.Mongo.Repository.Writes.{
  is_written, is_fine, find_entity, IsCollection, id_of, version_of, accepts,
}
use ecommerce_commons.Mongo.Repository.Inserts.{
  acknowledged-collection, find-insert_new, insert_new-IsCollection,
}

module _ {D E : Type 0} (mapper : EntityMapper D E) (f : Fault) (d : D) (c : List E)
    (h : IsCollection mapper c) where
  abbrev is_older : E → Bool
  is_older e = ltb (mapper.get_version e) (version_of mapper d)

  abbrev older : Option (List E)
  older =
      replace_one (filter mapper.get_id (id_of mapper d) is_older (mapper.to_entity d) refl)
        (mapper.to_entity d) c

  abbrev stored : Option E
  stored = find_entity mapper (id_of mapper d) c

  abbrev outcome : Option (List E) → Answer UpdateResult × List E
  outcome = replaced_or_inserted mapper (mapper.to_entity d) c

  hit : is_some mapper.get_id older ≡ passes mapper.get_id is_older stored
  hit = is_some-replace_one mapper.get_id (id_of mapper d) is_older (mapper.to_entity d) refl c h

  accepts_lem :
      (o : Option E)
      → accepts mapper d o ≡ (not (is_present mapper.get_id o) || passes mapper.get_id is_older o)
  accepts_lem none = refl
  accepts_lem (some e) = refl

  updated-collection : (p : Answer UpdateResult × List E) → (updated mapper p).1 ≡ p.1
  updated-collection (answer r, c) = refl
  updated-collection (failure e, c) = refl

  updated-insert_new :
      (updated mapper (
        insert_new mapper
          (record { matched_count = 0; upserted_count = 1 })
          (mapper.to_entity d)
          c)).0
      ≡ (if exists_one (has_key mapper.get_id (id_of mapper d)) c
          then failure wrapped
          else answer true)
  updated-insert_new = elim (Bool-cases (exists_one (has_key mapper.get_id (id_of mapper d)) c)) [
    | inl taken ↦ rw taken refl
    | inr free ↦ rw free refl
  ]

  updated-outcome :
      (o : Option (List E))
      → is_some mapper.get_id o ≡ passes mapper.get_id is_older stored
      → (updated mapper (outcome o)).0
        ≡ (if accepts mapper d stored then answer true else failure wrapped)
  updated-outcome none e =
      updated-insert_new
      ∙ ground (arith, e, accepts_lem stored, exists_one-find mapper.get_id (id_of mapper d) c)
  updated-outcome (some c2) e = ground (arith, e, accepts_lem stored)

  find-outcome :
      (j : String) (o : Option (List E))
      → is_some mapper.get_id o ≡ passes mapper.get_id is_older stored
      → find_entity mapper j (or_same mapper.get_id c o) ≡ (
          if str_eq (id_of mapper d) j && passes mapper.get_id is_older stored
          then some (mapper.to_entity d)
          else find_entity mapper j c)
      → find_entity mapper j (outcome o).1 ≡ (
          if str_eq (id_of mapper d) j && accepts mapper d stored
          then some (mapper.to_entity d)
          else find_entity mapper j c)
  find-outcome j none e g =
      find-insert_new mapper (record { matched_count = 0; upserted_count = 1 }) (mapper.to_entity d)
        c h j
      ∙ ground (arith, e, accepts_lem stored)
  find-outcome j (some c2) e g = g ∙ ground (arith, e, accepts_lem stored)

  outcome-IsCollection :
      (o : Option (List E))
      → IsCollection mapper (or_same mapper.get_id c o)
      → IsCollection mapper (outcome o).1
  outcome-IsCollection none keyed =
      insert_new-IsCollection mapper (record { matched_count = 0; upserted_count = 1 })
        (mapper.to_entity d) c h
  outcome-IsCollection (some c2) keyed = keyed

  collection : (upsert_if_newer mapper f d c).1 ≡ (if is_written f then (outcome older).1 else c)
  unfolding upsert_if_newer
  collection =
      updated-collection (acknowledged mapper f c (outcome older))
      ∙ acknowledged-collection mapper f c (outcome older)

  pub find-upsert_if_newer :
      (j : String)
      → find_entity mapper j (upsert_if_newer mapper f d c).1 ≡ (
          if is_written f && (str_eq (id_of mapper d) j && accepts mapper d stored)
          then some (mapper.to_entity d)
          else find_entity mapper j c)
  find-upsert_if_newer j =
      ap (find_entity mapper j) collection
      ∙ ground (
        arith,
        find-outcome j older hit (
            find-replace_one mapper.get_id (id_of mapper d) is_older (mapper.to_entity d) refl j c
              h),
      )

  pub upsert_if_newer-IsCollection : IsCollection mapper (upsert_if_newer mapper f d c).1
  upsert_if_newer-IsCollection =
      subst (IsCollection mapper) (sym collection) (by_write (is_written f))
    where
      by_write : (w : Bool) → IsCollection mapper (if w then (outcome older).1 else c)
      by_write true = outcome-IsCollection older (
          replace_one-IsKeyed mapper.get_id (id_of mapper d) is_older (mapper.to_entity d) refl c h)
      by_write false = h

  upsert_if_newer-answer :
      (upsert_if_newer mapper f d c).0
      ≡ (if is_fine f && accepts mapper d stored then answer true else failure wrapped)
  unfolding upsert_if_newer
  upsert_if_newer-answer = by_fault f
    where
      by_fault :
          (f : Fault)
          → (updated mapper (acknowledged mapper f c (outcome older))).0
            ≡ (if is_fine f && accepts mapper d stored then answer true else failure wrapped)
      by_fault fine = updated-outcome older hit
      by_fault refused = refl
      by_fault lost = refl

  -- In a collection with one document for each id, `UpsertIfNewer` never returns false without an
  -- error, whatever the versions are and however the call ends.
  pub never_skips : (upsert_if_newer mapper f d c).0 ≢ answer false
  never_skips e =
      by_case (is_fine f && accepts mapper d (find_entity mapper (id_of mapper d) c))
        (sym upsert_if_newer-answer ∙ e)
    where
      by_case : (b : Bool) → (if b then answer true else failure wrapped) ≢ answer false
      by_case true e = ground arith
      by_case false e = ground arith
