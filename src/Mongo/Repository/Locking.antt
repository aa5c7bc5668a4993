-- ===== src/Mongo/Repository/Locking.antt =====
-- Optimistic locking: of the writers that read a version of an entity, how many can replace it.
use ecommerce_commons.Prelude.{
  ℕ, ◌+◌, Bool, true, false, not, ◌&&◌, Option, none, some, List, if◌then◌else◌, str_eq, ◌≡◌, refl,
  arith, eq_iff, ◌∙◌, ap, sym,
}
use ecommerce_commons.Database.{Fault, fine, refused, lost}
use ecommerce_commons.Mongo.Repository.{
  EntityMapper, optimistic_locking, wrapped, answer, failure, update,
}
use ecommerce_commons.Mongo.Repository.Writes.{
  is_written, is_fine, find_entity, IsCollection, id_of, version_of, next_entity, is_current,
  find-update, update-answer, update-same, update-IsCollection,
}
use ecommerce_commons.Mongo.Repository.Versions.{
  Write, is_answer, stale, write_all, is_above, write_all_above,
}

module _ {D E : Type 0} (mapper : EntityMapper D E) where
  -- An update that is answered leaves a greater version.
  answered :
      (f : Fault) (decodes : Bool) (d : D) (c : List E)
      → IsCollection mapper c
      → is_answer (update mapper f decodes d c).0 ≡ true
      → is_above mapper
          (version_of mapper d)
          (find_entity mapper (id_of mapper d) (update mapper f decodes d c).1)
        ≡ true
  answered f decodes d c h ok =
      ap (is_above mapper (version_of mapper d))
        (find-update mapper f decodes d c h (id_of mapper d))
      ∙ by_case f (is_current mapper d (find_entity mapper (id_of mapper d) c))
          (ap is_answer (sym (update-answer mapper f decodes d c h)) ∙ ok)
    where
      by_case :
          (f : Fault) (b : Bool)
          → is_answer (
              if not (is_fine f)
              then failure wrapped
              else if not b
              then failure optimistic_locking
              else if decodes
              then answer (mapper.to_domain (next_entity mapper d))
              else failure wrapped)
            ≡ true
          → is_above mapper (version_of mapper d) (
              if is_written f && (str_eq (id_of mapper d) (id_of mapper d) && b)
              then some (next_entity mapper d)
              else find_entity mapper (id_of mapper d) c)
            ≡ true
      by_case fine true e = ground (
        arith,
        eq_iff (id_of mapper d) (id_of mapper d),
        mapper.get_version-set_version (version_of mapper d + 1) (mapper.to_entity d),
      )
      by_case fine false e = ground arith
      by_case refused b e = ground arith
      by_case lost b e = ground arith

  not_current :
      (d : D) (v : ℕ) (o : Option E)
      → version_of mapper d ≡ v
      → is_above mapper v o ≡ true
      → is_current mapper d o ≡ false
  not_current d v none e a = refl
  not_current d v (some x) e a = ground (arith, e, a)

  late_writer :
      (f : Fault) (decodes : Bool) (d : D) (c : List E)
      → IsCollection mapper c
      → is_above mapper (version_of mapper d) (find_entity mapper (id_of mapper d) c) ≡ true
      → ((update mapper f decodes d c).0 ≡ failure (stale f))
        × ((update mapper f decodes d c).1 ≡ c)
  late_writer f decodes d c h a =
      (update-answer mapper f decodes d c h ∙ by_fault f, update-same mapper f decodes d c h miss)
    where
      miss : is_current mapper d (find_entity mapper (id_of mapper d) c) ≡ false
      miss = not_current d (version_of mapper d) (find_entity mapper (id_of mapper d) c) refl a

      by_fault :
          (f : Fault)
          → (if not (is_fine f)
              then failure wrapped
              else if not (is_current mapper d (find_entity mapper (id_of mapper d) c))
              then failure optimistic_locking
              else if decodes
              then answer (mapper.to_domain (next_entity mapper d))
              else failure wrapped)
            ≡ failure (stale f)
      by_fault fine = rw miss
      by_fault refused = refl
      by_fault lost = refl

  -- Of two domain objects with the same id and version, in a collection with one document for each id:
  -- if the update of the first returns without an error, then after any insertions, updates and
  -- upserts, whatever fails among them, an update of the second changes nothing, and returns the error
  -- of optimistic locking, or that of the database.
  pub one_writer_wins :
      (f1 f2 : Fault) (decodes1 decodes2 : Bool) (d1 d2 : D) (ws : List (Write D)) (c : List E)
      → IsCollection mapper c
      → id_of mapper d2 ≡ id_of mapper d1
      → version_of mapper d2 ≡ version_of mapper d1
      → is_answer (update mapper f1 decodes1 d1 c).0 ≡ true
      → ((update mapper f2 decodes2 d2 (write_all mapper ws (update mapper f1 decodes1 d1 c).1)).0
          ≡ failure (stale f2))
        × ((update mapper f2 decodes2 d2 (write_all mapper ws (update mapper f1 decodes1 d1 c).1)).1
            ≡ write_all mapper ws (update mapper f1 decodes1 d1 c).1)
  one_writer_wins f1 f2 decodes1 decodes2 d1 d2 ws c h same_id same_version ok =
      late_writer f2 decodes2 d2 (write_all mapper ws (update mapper f1 decodes1 d1 c).1) after.0 (
        ap (λ v. is_above mapper v (find_entity mapper (id_of mapper d2) last)) same_version
        ∙ ap (λ k. is_above mapper (version_of mapper d1) (find_entity mapper k last)) same_id
        ∙ after.1)
    where
      last : List E
      last = write_all mapper ws (update mapper f1 decodes1 d1 c).1

      after :
          IsCollection mapper (write_all mapper ws (update mapper f1 decodes1 d1 c).1)
          × (is_above mapper (version_of mapper d1) (
                find_entity mapper
                  (id_of mapper d1)
                  (write_all mapper ws (update mapper f1 decodes1 d1 c).1))
              ≡ true)
      after =
          write_all_above mapper (id_of mapper d1) (version_of mapper d1) ws
            (update mapper f1 decodes1 d1 c).1 (update-IsCollection mapper f1 decodes1 d1 c h)
            (answered f1 decodes1 d1 c h ok)
