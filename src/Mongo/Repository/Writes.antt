-- ===== src/Mongo/Repository/Writes.antt =====
-- What the writes of the repository do to the document of an id.
use ecommerce_commons.Prelude.{
  ℕ, ◌+◌, String, Bool, true, false, not, ◌&&◌, Option, none, some, List, ltb, if◌then◌else◌,
  str_eq, ◌≡◌, refl, arith, ◌∙◌, ap, sym, subst,
}
use ecommerce_commons.Database.{Fault, fine, refused, lost}
use ecommerce_commons.Mongo.Collection.{replace_one}
use ecommerce_commons.Mongo.Collection.Keyed.{
  has_key, filter, find, IsKeyed, or_same, is_some, passes, is_some-replace_one, find-replace_one,
  replace_one-IsKeyed,
}
use ecommerce_commons.Mongo.Repository.{
  EntityMapper, optimistic_locking, wrapped, answer, failure, acknowledged, has_version,
  after_replace, update,
}

-- Whether the write was made, and whether its answer came.
abbrev pub is_written : Fault → Bool
is_written fine = true
is_written refused = false
is_written lost = true

abbrev pub is_fine : Fault → Bool
is_fine fine = true
is_fine refused = false
is_fine lost = false

module _ {D E : Type 0} (mapper : EntityMapper D E) where
  abbrev pub find_entity : String → List E → Option E
  find_entity = find mapper.get_id

  abbrev pub IsCollection : List E → Type 0
  IsCollection = IsKeyed mapper.get_id

  abbrev pub id_of : D → String
  id_of d = mapper.get_id (mapper.to_entity d)

  abbrev pub version_of : D → ℕ
  version_of d = mapper.get_version (mapper.to_entity d)

  -- What `Update` writes.
  abbrev pub next_entity : D → E
  next_entity d = mapper.set_version (version_of d + 1) (mapper.to_entity d)

  -- Whether the stored document, if there is one, has the version that `Update` was called with.
  abbrev pub is_current : D → Option E → Bool
  is_current d = passes mapper.get_id (has_version mapper (version_of d))

  -- Whether `UpsertIfNewer` writes: there is no document, or an older one.
  abbrev pub accepts : D → Option E → Bool
  accepts d none = true
  accepts d (some e) = ltb (mapper.get_version e) (version_of d)

  module _ (f : Fault) (decodes : Bool) (new : E) (c : List E) where
    after_replace-collection :
        (o : Option (List E))
        → (acknowledged mapper f c (after_replace mapper decodes new c o)).1
          ≡ (if is_written f then or_same mapper.get_id c o else c)
    after_replace-collection o = by_fault f o
      where
        by_fault :
            (f : Fault) (o : Option (List E))
            → (acknowledged mapper f c (after_replace mapper decodes new c o)).1
              ≡ (if is_written f then or_same mapper.get_id c o else c)
        by_fault fine none = refl
        by_fault fine (some c2) = refl
        by_fault refused o = refl
        by_fault lost none = refl
        by_fault lost (some c2) = refl

    after_replace-answer :
        (o : Option (List E))
        → (acknowledged mapper f c (after_replace mapper decodes new c o)).0 ≡ (
            if not (is_fine f)
            then failure wrapped
            else if not (is_some mapper.get_id o)
            then failure optimistic_locking
            else if decodes
            then answer (mapper.to_domain new)
            else failure wrapped)
    after_replace-answer o = by_fault f o
      where
        by_fault :
            (f : Fault) (o : Option (List E))
            → (acknowledged mapper f c (after_replace mapper decodes new c o)).0 ≡ (
                if not (is_fine f)
                then failure wrapped
                else if not (is_some mapper.get_id o)
                then failure optimistic_locking
                else if decodes
                then answer (mapper.to_domain new)
                else failure wrapped)
        by_fault fine none = refl
        by_fault fine (some c2) = refl
        by_fault refused o = refl
        by_fault lost o = refl

  module _ (f : Fault) (decodes : Bool) (d : D) (c : List E) (h : IsCollection c) where
    same_id : mapper.get_id (next_entity d) ≡ id_of d
    same_id = mapper.get_id-set_version (version_of d + 1) (mapper.to_entity d)

    abbrev replacing : Option (List E)
    replacing =
        replace_one
          (filter mapper.get_id (id_of d) (has_version mapper (version_of d)) (next_entity d)
            same_id)
          (next_entity d) c

    -- `Update` filters by the id of the entity whose version it has set.
    opened :
        update mapper f decodes d c
        ≡ acknowledged mapper f c (after_replace mapper decodes (next_entity d) c replacing)
    unfolding update
    opened =
        ap
          (λ k. acknowledged mapper f c (
            after_replace mapper decodes (next_entity d) c (
              replace_one (λ e. has_key mapper.get_id k e && has_version mapper (version_of d) e)
                (next_entity d) c)))
          same_id

    pub find-update :
        (j : String)
        → find_entity j (update mapper f decodes d c).1 ≡ (
            if is_written f && (str_eq (id_of d) j && is_current d (find_entity (id_of d) c))
            then some (next_entity d)
            else find_entity j c)
    find-update j =
        ap (λ p. find_entity j p.1) opened
        ∙ ap (find_entity j) (after_replace-collection f decodes (next_entity d) c replacing)
        ∙ by_write (is_written f)
      where
        by_write :
            (w : Bool)
            → find_entity j (if w then or_same mapper.get_id c replacing else c) ≡ (
                if w && (str_eq (id_of d) j && is_current d (find_entity (id_of d) c))
                then some (next_entity d)
                else find_entity j c)
        by_write true =
            find-replace_one mapper.get_id (id_of d) (has_version mapper (version_of d))
              (next_entity d) same_id j c h
        by_write false = refl

    pub update-answer : (update mapper f decodes d c).0 ≡ (
        if not (is_fine f)
        then failure wrapped
        else if not (is_current d (find_entity (id_of d) c))
        then failure optimistic_locking
        else if decodes
        then answer (mapper.to_domain (next_entity d))
        else failure wrapped)
    update-answer =
        ap (λ p. p.0) opened
        ∙ after_replace-answer f decodes (next_entity d) c replacing
        ∙ ap
            (λ b.
              if not (is_fine f)
              then failure wrapped
              else if not b
              then failure optimistic_locking
              else if decodes
              then answer (mapper.to_domain (next_entity d))
              else failure wrapped)
            (is_some-replace_one mapper.get_id (id_of d) (has_version mapper (version_of d))
              (next_entity d) same_id c h)

    -- An update that does not find its version changes nothing.
    pub update-same :
        is_current d (find_entity (id_of d) c) ≡ false → (update mapper f decodes d c).1 ≡ c
    update-same e =
        ap (λ p. p.1) opened
        ∙ after_replace-collection f decodes (next_entity d) c replacing
        ∙ by_match (is_written f) replacing (
            is_some-replace_one mapper.get_id (id_of d) (has_version mapper (version_of d))
              (next_entity d) same_id c h
            ∙ e)
      where
        by_match :
            (w : Bool) (o : Option (List E))
            → is_some mapper.get_id o ≡ false
            → (if w then or_same mapper.get_id c o else c) ≡ c
        by_match true none e = refl
        by_match true (some c2) e = ground arith
        by_match false o e = refl

    pub update-IsCollection : IsCollection (update mapper f decodes d c).1
    update-IsCollection =
        subst IsCollection
          (sym
            (ap (λ p. p.1) opened ∙ after_replace-collection f decodes (next_entity d) c replacing))
          (by_write (is_written f))
      where
        by_write : (w : Bool) → IsCollection (if w then or_same mapper.get_id c replacing else c)
        by_write true =
            replace_one-IsKeyed mapper.get_id (id_of d) (has_version mapper (version_of d))
              (next_entity d) same_id c h
        by_write false = h
