-- ===== src/Mongo/Repository/Versions.antt =====
-- The writes of the repository that keep versions, and what runs of them do to the version of a
-- document. A deletion is none of them: it forgets the version.
use ecommerce_commons.Prelude.{
  ℕ, ◌+◌, String, Bool, true, false, Option, none, some, List, [], ◌∷◌, ltb, if◌then◌else◌, ◌≡◌,
  refl, arith, ◌∙◌, ap, sym, str_eq→≡,
}
use ecommerce_commons.Database.{Fault, fine, refused, lost}
use ecommerce_commons.Mongo.Collection.Keyed.{passes, is_present}
use ecommerce_commons.Mongo.Repository.{
  EntityMapper, RepositoryError, optimistic_locking, wrapped, Answer, answer, failure, insert,
  update, upsert_if_newer,
}
use ecommerce_commons.Mongo.Repository.Writes.{
  find_entity, IsCollection, id_of, version_of, next_entity, is_current, accepts, find-update,
  update-IsCollection,
}
use ecommerce_commons.Mongo.Repository.Inserts.{find-insert, insert-IsCollection}
use ecommerce_commons.Mongo.Repository.Upserts.{find-upsert_if_newer, upsert_if_newer-IsCollection}

-- The writes that keep versions: each with how it ends.
pub data Write (D : Type 0) : Type 0 where
  inserting : Fault → D → Write D
  updating : Fault → Bool → D → Write D
  upserting : Fault → D → Write D

abbrev pub is_answer : {A : Type 0} → Answer A → Bool
is_answer (answer a) = true
is_answer (failure e) = false

-- What `Update` answers on a version that is not the stored one.
abbrev pub stale : Fault → RepositoryError
stale fine = optimistic_locking
stale refused = wrapped
stale lost = wrapped

module _ {D E : Type 0} (mapper : EntityMapper D E) where
  unfoldable pub write : Write D → List E → List E
  write (inserting f d) c = (insert mapper f d c).1
  write (updating f decodes d) c = (update mapper f decodes d c).1
  write (upserting f d) c = (upsert_if_newer mapper f d c).1

  unfoldable pub write_all : List (Write D) → List E → List E
  write_all [] c = c
  write_all (w ∷ ws) c = write_all ws (write w c)

  -- There is a document, and its version is above `v`.
  abbrev pub is_above : ℕ → Option E → Bool
  is_above v = passes mapper.get_id (λ e. ltb v (mapper.get_version e))

  write-IsCollection :
      (w : Write D) (c : List E) → IsCollection mapper c → IsCollection mapper (write w c)
  unfolding write
  write-IsCollection (inserting f d) c h = insert-IsCollection mapper f d c h
  write-IsCollection (updating f decodes d) c h = update-IsCollection mapper f decodes d c h
  write-IsCollection (upserting f d) c h = upsert_if_newer-IsCollection mapper f d c h

  -- A document that replaces another has a greater version.
  next_above :
      (d : D) (v : ℕ) (o : Option E)
      → is_above v o ≡ true
      → is_current mapper d o ≡ true
      → is_above v (some (next_entity mapper d)) ≡ true
  next_above d v none a e = ground arith
  next_above d v (some x) a e =
      ground
        (arith, a, e, mapper.get_version-set_version (version_of mapper d + 1) (mapper.to_entity d))

  accepted_above :
      (d : D) (v : ℕ) (o : Option E)
      → is_above v o ≡ true
      → accepts mapper d o ≡ true
      → is_above v (some (mapper.to_entity d)) ≡ true
  accepted_above d v none a e = ground arith
  accepted_above d v (some x) a e = ground (arith, a, e)

  taken : (v : ℕ) (o : Option E) → is_above v o ≡ true → is_present mapper.get_id o ≡ true
  taken v none a = a
  taken v (some x) a = refl

  -- `b`: whether the document of `k` is replaced by `new`.
  chosen :
      (v : ℕ) (b : Bool) (new : E) (o : Option E)
      → is_above v o ≡ true
      → (b ≡ true → is_above v (some new) ≡ true)
      → is_above v (if b then some new else o) ≡ true
  chosen v true new o a h = h refl
  chosen v false new o a h = a

  write_above :
      (k : String) (v : ℕ) (w : Write D) (c : List E)
      → IsCollection mapper c
      → is_above v (find_entity mapper k c) ≡ true
      → is_above v (find_entity mapper k (write w c)) ≡ true
  unfolding write
  write_above k v (inserting f d) c h a =
      ap (is_above v) (find-insert mapper f d c h k)
      ∙ chosen v _ (mapper.to_entity d) (find_entity mapper k c) a (λ e. ground (
        arith,
        e,
        taken v (find_entity mapper k c) a,
        ap (λ s. find_entity mapper s c) (str_eq→≡ (id_of mapper d) k (ground (arith, e))),
      ))
  write_above k v (updating f decodes d) c h a =
      ap (is_above v) (find-update mapper f decodes d c h k)
      ∙ chosen v _ (next_entity mapper d) (find_entity mapper k c) a (λ e.
        next_above d v (find_entity mapper k c) a (
          ap (λ s. is_current mapper d (find_entity mapper s c))
            (sym (str_eq→≡ (id_of mapper d) k (ground (arith, e))))
          ∙ ground (arith, e)))
  write_above k v (upserting f d) c h a =
      ap (is_above v) (find-upsert_if_newer mapper f d c h k)
      ∙ chosen v _ (mapper.to_entity d) (find_entity mapper k c) a (λ e.
        accepted_above d v (find_entity mapper k c) a (
          ap (λ s. accepts mapper d (find_entity mapper s c))
            (sym (str_eq→≡ (id_of mapper d) k (ground (arith, e))))
          ∙ ground (arith, e)))

  pub write_all_above :
      (k : String) (v : ℕ) (ws : List (Write D)) (c : List E)
      → IsCollection mapper c
      → is_above v (find_entity mapper k c) ≡ true
      → IsCollection mapper (write_all ws c)
        × (is_above v (find_entity mapper k (write_all ws c)) ≡ true)
  unfolding write_all
  write_all_above k v [] c h a = (h, a)
  write_all_above k v (w ∷ ws) c h a =
      write_all_above k v ws (write w c) (write-IsCollection w c h) (write_above k v w c h a)
