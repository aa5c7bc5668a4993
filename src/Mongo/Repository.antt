-- ===== src/Mongo/Repository.antt =====
-- pkg/mongo/generic_repository.go: the operations of `GenericRepository` on one collection. A document
-- is what the driver encodes of an entity, its keys `_id` and `version` are what the mapper reads from
-- it, and a version counts up from 0, one for each write, so that it stays within an `int64`. `insert`
-- fails on an `_id` that is taken, and so does a replacement with upsert that matches no document, as
-- MongoDB documents it for a unique index.
pub mod Writes
pub mod Inserts
pub mod Upserts
pub mod Versions
pub mod Locking
pub mod Newer
pub mod Stored
pub mod Pages
use ecommerce_commons.Prelude.{
  ℕ, suc, ◌+◌, ◌-◌, ◌*◌, ◌/◌, ◌%◌, ◌^◌, String, Bool, true, false, ◌&&◌, ◌||◌, Option, none, some,
  List, [], ◌∷◌, ◌++◌, map, length, ltb, ◌==◌, if◌then◌else◌, ℤ, pos, negsuc, ◌≡◌,
}
use ecommerce_commons.Database.{Fault, fine, refused, lost}
use ecommerce_commons.Mongo.Collection.{
  find_one, find_all, replace_one, delete_one, exists_one, limit, skip,
}
use ecommerce_commons.Mongo.Collection.Keyed.{has_key}

-- `EntityMapper`, together with the encoding of the entities by the driver: `E` is a document as MongoDB
-- stores it, `to_entity` is `ToEntity` and the encoding, which rounds times to milliseconds, and
-- `to_domain` is the decoding and `ToDomain`. A document that cannot be encoded is a write that is refused.
-- Setting the version changes what the version reads as, and not the id.
pub record EntityMapper (D E : Type 0) : Type 0 where
  pub to_entity : D → E
  pub to_domain : E → D
  pub get_id : E → String
  pub get_version : E → ℕ
  pub set_version : ℕ → E → E
  pub get_version-set_version : (v : ℕ) (e : E) → get_version (set_version v e) ≡ v
  pub get_id-set_version : (v : ℕ) (e : E) → get_id (set_version v e) ≡ get_id e

-- `ErrEntityNotFound`, `ErrOptimisticLocking`, and the errors that are wrapped.
pub data RepositoryError : Type 0 where
  entity_not_found optimistic_locking wrapped : RepositoryError

pub data Answer (A : Type 0) : Type 0 where
  answer : A → Answer A
  failure : RepositoryError → Answer A

-- What `ReplaceOne` reports.
pub record UpdateResult : Type 0 where
  pub matched_count : ℕ
  pub upserted_count : ℕ

-- How a read ends: whether the database answers, and whether what it answers can be decoded.
pub record Reading : Type 0 where
  pub answers : Bool
  pub decodes : Bool

-- `QueryOptions`; a nil filter and a nil sort are `none`. A sort is the
-- order in which MongoDB answers this one query: with keys that are equal, another query can have another.
pub record QueryOptions (E : Type 0) : Type 0 where
  pub filter : Option (E → Bool)
  pub page : ℤ
  pub size : ℤ
  pub sort : Option (List E → List E)

-- `PageResult`
pub record PageResult (D : Type 0) : Type 0 where
  pub items : List D
  pub total : ℕ
  pub page : ℕ
  pub size : ℕ
  pub total_pages : ℕ

-- `if opts.Page < 1 { opts.Page = 1 }`, and the same of the size.
abbrev pub at_least_one : ℕ → ℤ → ℕ
at_least_one default (pos n) = if ltb 0 n then n else default
at_least_one default (negsuc n) = default

abbrev pub or_all : {E : Type 0} → Option (E → Bool) → E → Bool
or_all none e = true
or_all (some test) e = test e

abbrev pub sorted : {E : Type 0} → Option (List E → List E) → List E → List E
sorted none c = c
sorted (some order) c = order c

-- `int64((opts.Page - 1) * opts.Size)`, of 64 bits, read as a natural number; from 2 ^ 63 on it is
-- negative.
abbrev pub skip_of : ℕ → ℕ → ℕ
skip_of page size = ((page - 1) * size) % 2 ^ 64

-- `int(total) / opts.Size`, and one more if there is a remainder.
abbrev pub total_pages : ℕ → ℕ → ℕ
total_pages total size = if (total % size) == 0 then total / size else suc (total / size)

module _ {D E : Type 0} (mapper : EntityMapper D E) where
  abbrev decoded : {A : Type 0} → Reading → Answer A → Answer A
  decoded r a = if r.answers && r.decodes then a else failure wrapped

  -- The outcome of a write that the database acknowledges or refuses, or whose answer is lost.
  abbrev pub acknowledged : {A : Type 0} → Fault → List E → Answer A × List E → Answer A × List E
  acknowledged fine c p = p
  acknowledged refused c p = (failure wrapped, c)
  acknowledged lost c p = (failure wrapped, p.1)

  -- `InsertOne`
  abbrev pub insert_new : {A : Type 0} → A → E → List E → Answer A × List E
  insert_new a entity c =
      if exists_one (has_key mapper.get_id (mapper.get_id entity)) c
      then (failure wrapped, c)
      else (answer a, c ++ (entity ∷ []))

  -- `Insert`
  unfoldable pub insert : Fault → D → List E → Answer Unit × List E
  insert fault domain c = acknowledged fault c (insert_new tt (mapper.to_entity domain) c)

  -- `FindOneByFilter`. No document is `ErrNoDocuments`, which needs no decoding.
  unfoldable pub find_one_by_filter : Reading → (E → Bool) → List E → Answer D
  find_one_by_filter r test c =
      if r.answers
      then elim (find_one test c) [
        | none ↦ failure entity_not_found
        | some e ↦ if r.decodes then answer (mapper.to_domain e) else failure wrapped
      ]
      else failure wrapped

  -- `FindByID`
  unfoldable pub find_by_id : Reading → String → List E → Answer D
  unfolding find_one_by_filter
  find_by_id r id = find_one_by_filter r (has_key mapper.get_id id)

  -- `FindAll`
  unfoldable pub find_every : Reading → List E → Answer (List D)
  find_every r c = decoded r (answer (map mapper.to_domain c))

  -- `FindAllWithFilter`
  unfoldable pub find_all_with_filter :
      Reading → Option (E → Bool) → Option (List E → List E) → List E → Answer (List D)
  find_all_with_filter r filter sort c =
      decoded r (answer (map mapper.to_domain (sorted sort (find_all (or_all filter) c))))

  -- The second query of `FindWithOptions`, and its result.
  abbrev pub page_result : ℕ → ℕ → ℕ → List E → PageResult D
  page_result page size total found = record {
    items = map mapper.to_domain (limit size (skip (skip_of page size) found));
    total = total;
    page = page;
    size = size;
    total_pages = total_pages total size;
  }

  -- With the defaults set: a negative skip is an error of the database.
  abbrev pub find_page : Reading → QueryOptions E → ℕ → ℕ → ℕ → List E → Answer (PageResult D)
  find_page r opts page size total c =
      if ltb (skip_of page size) (2 ^ 63)
      then decoded r (
          answer (page_result page size total (sorted opts.sort (find_all (or_all opts.filter) c))))
      else failure wrapped

  -- `FindWithOptions`: the documents are counted in one state of the collection and read in another.
  unfoldable pub find_with_options :
      Bool → Reading → QueryOptions E → List E → List E → Answer (PageResult D)
  find_with_options countable r opts counted c =
      if countable
      then find_page r opts (at_least_one 1 opts.page) (at_least_one 10 opts.size)
          (length (find_all (or_all opts.filter) counted)) c
      else failure wrapped

  abbrev pub has_version : ℕ → E → Bool
  has_version v e = mapper.get_version e == v

  abbrev pub after_replace : Bool → E → List E → Option (List E) → Answer D × List E
  after_replace decodes new c none = (failure optimistic_locking, c)
  after_replace decodes new c (some c2) =
      (if decodes then answer (mapper.to_domain new) else failure wrapped, c2)

  -- `Update`, from the entity and its current version on.
  abbrev pub update_entity : Fault → Bool → ℕ → E → List E → Answer D × List E
  update_entity fault decodes current new c = acknowledged fault c (
      after_replace decodes new c (
        replace_one (λ e. has_key mapper.get_id (mapper.get_id new) e && has_version current e) new
          c))

  -- `Update`
  unfoldable pub update : Fault → Bool → D → List E → Answer D × List E
  update fault decodes domain c =
      let entity = mapper.to_entity domain in
      let current = mapper.get_version entity in
      update_entity fault decodes current (mapper.set_version (current + 1) entity) c

  -- `Delete`
  unfoldable pub delete : Fault → String → List E → Answer Unit × List E
  delete fault id c = acknowledged fault c (answer tt, delete_one (has_key mapper.get_id id) c)

  -- `ExistsWithFilter`
  unfoldable pub exists_with_filter : Bool → (E → Bool) → List E → Answer Bool
  exists_with_filter countable test c =
      if countable then answer (exists_one test c) else failure wrapped

  -- `Exists`
  unfoldable pub exists : Bool → String → List E → Answer Bool
  unfolding exists_with_filter
  exists countable id = exists_with_filter countable (has_key mapper.get_id id)

  -- `ReplaceOne` with `SetUpsert(true)`: a document is replaced, or else one is inserted.
  abbrev pub replaced_or_inserted : E → List E → Option (List E) → Answer UpdateResult × List E
  replaced_or_inserted entity c none =
      insert_new (record { matched_count = 0; upserted_count = 1 }) entity c
  replaced_or_inserted entity c (some c2) =
      (answer (record { matched_count = 1; upserted_count = 0 }), c2)

  -- `result.MatchedCount > 0 || result.UpsertedCount > 0`
  abbrev pub updated : Answer UpdateResult × List E → Answer Bool × List E
  updated (answer r, c) = (answer (ltb 0 r.matched_count || ltb 0 r.upserted_count), c)
  updated (failure e, c) = (failure e, c)

  -- `UpsertIfNewer`
  unfoldable pub upsert_if_newer : Fault → D → List E → Answer Bool × List E
  upsert_if_newer fault domain c =
      let entity = mapper.to_entity domain in
      updated (
        acknowledged fault c (
          replaced_or_inserted entity c (
            replace_one
              (λ e.
                has_key mapper.get_id (mapper.get_id entity) e
                && ltb (mapper.get_version e) (mapper.get_version entity))
              entity c)))
