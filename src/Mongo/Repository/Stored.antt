-- ===== src/Mongo/Repository/Stored.antt =====
-- What the reads find after a write.
use ecommerce_commons.Prelude.{
  String, Bool, true, false, not, ◌&&◌, Option, none, some, List, [], ◌∷◌, ◌++◌, if◌then◌else◌,
  str_eq, ◌≡◌, refl, arith, eq_iff, ◌∙◌, ap, sym, Bool-cases, inl, inr, ◌⊎◌, str_eq→≡,
}
use ecommerce_commons.Database.{fine}
use ecommerce_commons.Mongo.Collection.{exists_one}
use ecommerce_commons.Mongo.Collection.Keyed.{has_key, is_present, exists_one-find, find-delete_one}
use ecommerce_commons.Mongo.Repository.{
  EntityMapper, Reading, Answer, answer, failure, wrapped, entity_not_found, insert,
  find_one_by_filter, find_by_id, delete, exists, exists_with_filter,
}
use ecommerce_commons.Mongo.Repository.Writes.{find_entity, IsCollection, id_of}
use ecommerce_commons.Mongo.Repository.Inserts.{find-insert, insert-IsCollection}
use ecommerce_commons.Mongo.Repository.Versions.{is_answer}

-- A read that fails at nothing.
abbrev pub well : Reading
well = record { answers = true; decodes = true }

module _ {D E : Type 0} (mapper : EntityMapper D E) where
  -- What `FindByID` and `Exists` answer, by the document of the id.
  abbrev pub seen : Option E → Answer D
  seen none = failure entity_not_found
  seen (some e) = answer (mapper.to_domain e)

  find_by_id_lem :
      (k : String) (c : List E) → find_by_id mapper well k c ≡ seen (find_entity mapper k c)
  unfolding find_by_id find_one_by_filter
  find_by_id_lem k c = by_document (find_entity mapper k c)
    where
      by_document :
          (o : Option E)
          → (elim o [ none ↦ failure entity_not_found | some e ↦ answer (mapper.to_domain e) ])
            ≡ seen o
      by_document none = refl
      by_document (some e) = refl

  exists_lem :
      (k : String) (c : List E)
      → exists mapper true k c ≡ answer (is_present mapper.get_id (find_entity mapper k c))
  unfolding exists exists_with_filter
  exists_lem k c = ap answer (exists_one-find mapper.get_id k c)

  -- An insertion that is answered found no document of its id.
  was_absent :
      (d : D) (c : List E)
      → is_answer (insert mapper fine d c).0 ≡ true
      → is_present mapper.get_id (find_entity mapper (id_of mapper d) c) ≡ false
  unfolding insert
  was_absent d c =
      by_case (exists_one (has_key mapper.get_id (id_of mapper d)) c)
        (exists_one-find mapper.get_id (id_of mapper d) c)
    where
      choice : Bool → Answer Unit × List E
      choice b = if b then (failure wrapped, c) else (answer tt, c ++ (mapper.to_entity d ∷ []))

      by_case :
          (b : Bool)
          → b ≡ is_present mapper.get_id (find_entity mapper (id_of mapper d) c)
          → is_answer (choice b).0 ≡ true
          → is_present mapper.get_id (find_entity mapper (id_of mapper d) c) ≡ false
      by_case true e h = ground arith
      by_case false e h = sym e

  is_absent : (o : Option E) → is_present mapper.get_id o ≡ false → o ≡ none
  is_absent none e = refl
  is_absent (some x) e = ground arith

  module _ (d : D) (c : List E) (h : IsCollection mapper c)
      (ok : is_answer (insert mapper fine d c).0 ≡ true) where
    abbrev after : List E
    after = (insert mapper fine d c).1

    own : find_entity mapper (id_of mapper d) after ≡ some (mapper.to_entity d)
    own =
        find-insert mapper fine d c h (id_of mapper d)
        ∙ ground (arith, was_absent d c ok, eq_iff (id_of mapper d) (id_of mapper d))

    restored :
        (j : String)
        → find_entity mapper j (delete mapper fine (id_of mapper d) after).1
          ≡ find_entity mapper j c
    unfolding delete
    restored j =
        find-delete_one mapper.get_id j (id_of mapper d) after
          (insert-IsCollection mapper fine d c h)
        ∙ ap (λ o. if str_eq (id_of mapper d) j then none else o) (find-insert mapper fine d c h j)
        ∙ by_id (Bool-cases (str_eq (id_of mapper d) j))
      where
        by_id :
            ((str_eq (id_of mapper d) j ≡ true) ⊎ (str_eq (id_of mapper d) j ≡ false))
            → (if str_eq (id_of mapper d) j
                then none
                else if str_eq (id_of mapper d) j
                    && not (is_present mapper.get_id (find_entity mapper (id_of mapper d) c))
                then some (mapper.to_entity d)
                else find_entity mapper j c)
              ≡ find_entity mapper j c
        by_id (inl same) = rw same (
            sym (is_absent (find_entity mapper (id_of mapper d) c) (was_absent d c ok))
            ∙ ap (λ s. find_entity mapper s c) (str_eq→≡ (id_of mapper d) j same))
        by_id (inr other) = rw other refl

    -- After an insertion that returned without an error, in a collection with one document for each
    -- id, a `FindByID` that does not fail returns what the mapper and the encoding make of the entity, and
    -- an `Exists` that does not fail returns true; after a deletion then that does not fail, `FindByID`
    -- finds nothing, and every document is as before the insertion.
    pub insert_round_trip :
        (j : String)
        → (find_by_id mapper well (id_of mapper d) after
            ≡ answer (mapper.to_domain (mapper.to_entity d)))
          × (exists mapper true (id_of mapper d) after ≡ answer true)
          × (find_by_id mapper well (id_of mapper d) (delete mapper fine (id_of mapper d) after).1
              ≡ failure entity_not_found)
          × (find_entity mapper j (delete mapper fine (id_of mapper d) after).1
              ≡ find_entity mapper j c)
    insert_round_trip j = (
      find_by_id_lem (id_of mapper d) after ∙ ap seen own,
      exists_lem (id_of mapper d) after ∙ ap (λ o. answer (is_present mapper.get_id o)) own,
      find_by_id_lem (id_of mapper d) (delete mapper fine (id_of mapper d) after).1
          ∙ ap seen (
              restored (id_of mapper d)
              ∙ is_absent (find_entity mapper (id_of mapper d) c) (was_absent d c ok)),
      restored j,
    )
