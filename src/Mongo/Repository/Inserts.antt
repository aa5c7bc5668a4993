-- ===== src/Mongo/Repository/Inserts.antt =====
-- What an insertion does to the document of an id.
use ecommerce_commons.Prelude.{
  String, Bool, true, false, not, ◌&&◌, some, List, if◌then◌else◌, str_eq, ◌≡◌, refl, arith, eq_iff,
  ◌∙◌, ap, sym, subst, Bool-cases, inl, inr,
}
use ecommerce_commons.Database.{Fault, fine, refused, lost}
use ecommerce_commons.Mongo.Collection.{exists_one}
use ecommerce_commons.Mongo.Collection.Keyed.{
  has_key, is_present, exists_one-find, find-append, append-IsKeyed,
}
use ecommerce_commons.Mongo.Repository.{EntityMapper, Answer, acknowledged, insert_new, insert}
use ecommerce_commons.Mongo.Repository.Writes.{is_written, find_entity, IsCollection, id_of}

module _ {D E : Type 0} (mapper : EntityMapper D E) where
  pub acknowledged-collection :
      {A : Type 0}
      → (f : Fault) (c : List E) (p : Answer A × List E)
      → (acknowledged mapper f c p).1 ≡ (if is_written f then p.1 else c)
  acknowledged-collection fine c p = refl
  acknowledged-collection refused c p = refl
  acknowledged-collection lost c p = refl

  -- Of an insertion, for an outcome of any kind.
  module _ {A : Type 0} (a : A) (new : E) (c : List E) (h : IsCollection mapper c) where
    pub find-insert_new :
        (j : String)
        → find_entity mapper j (insert_new mapper a new c).1 ≡ (
            if str_eq (mapper.get_id new) j
              && not (is_present mapper.get_id (find_entity mapper (mapper.get_id new) c))
            then some new
            else find_entity mapper j c)
    find-insert_new j = ground (
      arith,
      exists_one-find mapper.get_id (mapper.get_id new) c,
      find-append mapper.get_id j c new,
      eq_iff (mapper.get_id new) j,
    )

    pub insert_new-IsCollection : IsCollection mapper (insert_new mapper a new c).1
    insert_new-IsCollection =
        elim (Bool-cases (exists_one (has_key mapper.get_id (mapper.get_id new)) c)) [
          | inl taken ↦ rw taken h
          | inr free ↦ rw free (
              append-IsKeyed mapper.get_id c new
                (ground (arith, free, exists_one-find mapper.get_id (mapper.get_id new) c)) h)
        ]

  module _ (f : Fault) (d : D) (c : List E) (h : IsCollection mapper c) where
    pub find-insert :
        (j : String)
        → find_entity mapper j (insert mapper f d c).1 ≡ (
            if is_written f
              && (str_eq (id_of mapper d) j
                  && not (is_present mapper.get_id (find_entity mapper (id_of mapper d) c)))
            then some (mapper.to_entity d)
            else find_entity mapper j c)
    unfolding insert
    find-insert j =
        ap (find_entity mapper j)
          (acknowledged-collection f c (insert_new mapper tt (mapper.to_entity d) c))
        ∙ ground (arith, find-insert_new tt (mapper.to_entity d) c h j)

    pub insert-IsCollection : IsCollection mapper (insert mapper f d c).1
    unfolding insert
    insert-IsCollection =
        subst (IsCollection mapper)
          (sym (acknowledged-collection f c (insert_new mapper tt (mapper.to_entity d) c)))
          (by_write (is_written f))
      where
        by_write :
            (w : Bool)
            → IsCollection mapper (if w then (insert_new mapper tt (mapper.to_entity d) c).1 else c)
        by_write true = insert_new-IsCollection tt (mapper.to_entity d) c h
        by_write false = h
