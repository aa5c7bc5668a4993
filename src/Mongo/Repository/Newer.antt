-- ===== src/Mongo/Repository/Newer.antt =====
-- Projections: entities that are written by `UpsertIfNewer` as events arrive, out of order and more
-- than once.
use ecommerce_commons.Prelude.{
  ℕ, String, Bool, true, false, ◌&&◌, Option, none, some, List, [], ◌∷◌, leb, if◌then◌else◌, str_eq,
  ◌≡◌, ◌⊎◌, inl, inr, refl, arith, ◌∙◌, ap, sym, subst, Bool-cases, str_eq→≡,
}
use ecommerce_commons.Database.{fine}
use ecommerce_commons.Mongo.Collection.{find_one}
use ecommerce_commons.Mongo.Collection.Keyed.{passes}
use ecommerce_commons.Mongo.Repository.{EntityMapper, upsert_if_newer}
use ecommerce_commons.Mongo.Repository.Writes.{
  find_entity, IsCollection, id_of, version_of, accepts,
}
use ecommerce_commons.Mongo.Repository.Upserts.{find-upsert_if_newer, upsert_if_newer-IsCollection}

-- `d` is an element of the list.
abbrev pub IsAmong : {D : Type 0} → D → List D → Type 0
IsAmong d [] = ⊥
IsAmong d (x ∷ xs) = (d ≡ x) ⊎ IsAmong d xs

module _ {D E : Type 0} (mapper : EntityMapper D E) where
  -- The events are applied one after the other, and no call fails.
  unfoldable pub project : List D → List E → List E
  project [] c = c
  project (d ∷ ds) c = project ds (upsert_if_newer mapper fine d c).1

  module _ (k : String) where
    -- One event, on the document of `k`.
    abbrev newer : D → Option E → Option E
    newer d o =
        if str_eq (id_of mapper d) k && accepts mapper d o then some (mapper.to_entity d) else o

    newest : List D → Option E → Option E
    newest [] o = o
    newest (d ∷ ds) o = newest ds (newer d o)

    by_id :
        (d : D) (c : List E)
        → (if str_eq (id_of mapper d) k && accepts mapper d (find_entity mapper (id_of mapper d) c)
            then some (mapper.to_entity d)
            else find_entity mapper k c)
          ≡ newer d (find_entity mapper k c)
    by_id d c = elim (Bool-cases (str_eq (id_of mapper d) k)) [
      | inl own ↦
          ap
            (λ s.
              if str_eq (id_of mapper d) k && accepts mapper d (find_entity mapper s c)
              then some (mapper.to_entity d)
              else find_entity mapper k c)
            (str_eq→≡ (id_of mapper d) k own)
      | inr other ↦ ground (arith, other)
    ]

    find-project :
        (ds : List D) (c : List E)
        → IsCollection mapper c
        → find_entity mapper k (project ds c) ≡ newest ds (find_entity mapper k c)
    unfolding project newest
    find-project [] c h = refl
    find-project (d ∷ ds) c h =
        find-project ds (upsert_if_newer mapper fine d c).1
          (upsert_if_newer-IsCollection mapper fine d c h)
        ∙ ap (newest ds) (find-upsert_if_newer mapper fine d c h k ∙ by_id d c)

    -- A document of that version or a greater one.
    abbrev has_reached : ℕ → Option E → Bool
    has_reached v = passes mapper.get_id (λ e. leb v (mapper.get_version e))

    newer_keeps :
        (d : D) (v : ℕ) (o : Option E) → has_reached v o ≡ true → has_reached v (newer d o) ≡ true
    newer_keeps d v none h = ground arith
    newer_keeps d v (some e) h = ground (arith, h)

    newer_reaches :
        (d : D) (o : Option E)
        → str_eq (id_of mapper d) k ≡ true
        → has_reached (version_of mapper d) (newer d o) ≡ true
    newer_reaches d none h = ground (arith, h)
    newer_reaches d (some e) h = ground (arith, h)

    newest_keeps :
        (ds : List D) (v : ℕ) (o : Option E)
        → has_reached v o ≡ true
        → has_reached v (newest ds o) ≡ true
    unfolding newest
    newest_keeps [] v o h = h
    newest_keeps (d ∷ ds) v o h = newest_keeps ds v (newer d o) (newer_keeps d v o h)

    newest_reaches :
        (d : D) (ds : List D) (o : Option E)
        → IsAmong d ds
        → str_eq (id_of mapper d) k ≡ true
        → has_reached (version_of mapper d) (newest ds o) ≡ true
    unfolding newest
    newest_reaches d [] o m h = elim m [ ]
    newest_reaches d (x ∷ xs) o (inl e) h =
        newest_keeps xs (version_of mapper d) (newer x o) (
          subst (λ y. has_reached (version_of mapper d) (newer y o) ≡ true) e (newer_reaches d o h))
    newest_reaches d (x ∷ xs) o (inr m) h = newest_reaches d xs (newer x o) m h

    -- Where the document comes from.
    abbrev IsOf : List D → Option E → Type 0
    IsOf ds o =
        (d : D) × IsAmong d ds
        × (str_eq (id_of mapper d) k ≡ true)
        × (o ≡ some (mapper.to_entity d))

    newest_origin : (ds : List D) (o : Option E) → (newest ds o ≡ o) ⊎ IsOf ds (newest ds o)
    unfolding newest
    newest_origin [] o = inl refl
    newest_origin (d ∷ ds) o = elim (newest_origin ds (newer d o)) [
      | inl same ↦ first (Bool-cases (str_eq (id_of mapper d) k && accepts mapper d o)) same
      | inr (x, m, i, e) ↦ inr (x, inr m, i, e)
    ]
      where
        first :
            ((str_eq (id_of mapper d) k && accepts mapper d o ≡ true)
              ⊎ (str_eq (id_of mapper d) k && accepts mapper d o ≡ false))
            → newest ds (newer d o) ≡ newer d o
            → (newest ds (newer d o) ≡ o) ⊎ IsOf (d ∷ ds) (newest ds (newer d o))
        first (inl taken) same = inr (d, inl refl, ground (arith, taken), same ∙ rw taken)
        first (inr left) same = inl (same ∙ rw left)

  -- The events of each id and version are copies of one: `history` is what was published.
  abbrev pub IsPublished : (String → ℕ → E) → List D → Type 0
  IsPublished history [] = Unit
  IsPublished history (d ∷ ds) =
      (mapper.to_entity d ≡ history (id_of mapper d) (version_of mapper d)) × IsPublished history ds

  published :
      (history : String → ℕ → E) (d : D) (ds : List D)
      → IsPublished history ds
      → IsAmong d ds
      → mapper.to_entity d ≡ history (id_of mapper d) (version_of mapper d)
  published history d [] p m = elim m [ ]
  published history d (x ∷ xs) p (inl e) =
      subst (λ y. mapper.to_entity y ≡ history (id_of mapper y) (version_of mapper y)) (sym e) p.0
  published history d (x ∷ xs) p (inr m) = published history d xs p.1 m

  module _ (history : String → ℕ → E) (k : String) where
    agree :
        (xs ys : List D) (o p : Option E)
        → IsPublished history xs
        → IsPublished history ys
        → IsOf k xs o
        → IsOf k ys p
        → ((d : D)
            → IsAmong d xs
            → str_eq (id_of mapper d) k ≡ true
            → has_reached k (version_of mapper d) p ≡ true)
        → ((d : D)
            → IsAmong d ys
            → str_eq (id_of mapper d) k ≡ true
            → has_reached k (version_of mapper d) o ≡ true)
        → o ≡ p
    agree xs ys o p hx hy (a, ma, ia, ea) (b, mb, ib, eb) up down =
        ea
        ∙ ap some (published history a xs hx ma ∙ same ∙ sym (published history b ys hy mb))
        ∙ sym eb
      where
        le1 : has_reached k (version_of mapper a) (some (mapper.to_entity b)) ≡ true
        le1 = ap (has_reached k (version_of mapper a)) (sym eb) ∙ up a ma ia

        le2 : has_reached k (version_of mapper b) (some (mapper.to_entity a)) ≡ true
        le2 = ap (has_reached k (version_of mapper b)) (sym ea) ∙ down b mb ib

        versions : version_of mapper a ≡ version_of mapper b
        versions = ground (arith, le1, le2)

        same :
            history (id_of mapper a) (version_of mapper a)
            ≡ history (id_of mapper b) (version_of mapper b)
        same =
            ap (λ i. history i (version_of mapper a))
              (str_eq→≡ (id_of mapper a) k ia ∙ sym (str_eq→≡ (id_of mapper b) k ib))
            ∙ ap (history (id_of mapper b)) versions

    absent_reached :
        (d : D) (o : Option E) → o ≡ none → has_reached k (version_of mapper d) o ≡ true → ⊥
    absent_reached d none e h = ground arith
    absent_reached d (some x) e h = ground arith

    same_newest :
        (xs ys : List D)
        → IsPublished history xs
        → IsPublished history ys
        → ((d : D) → IsAmong d xs → IsAmong d ys)
        → ((d : D) → IsAmong d ys → IsAmong d xs)
        → newest k xs none ≡ newest k ys none
    same_newest xs ys hx hy to from = by_origin (newest_origin k xs none) (newest_origin k ys none)
      where
        by_origin :
            ((newest k xs none ≡ none) ⊎ IsOf k xs (newest k xs none))
            → ((newest k ys none ≡ none) ⊎ IsOf k ys (newest k ys none))
            → newest k xs none ≡ newest k ys none
        by_origin (inl e) (inl f) = e ∙ sym f
        by_origin (inl e) (inr (b, m, i, f)) =
            absurd (absent_reached b (newest k xs none) e (newest_reaches k b xs none (from b m) i))
        by_origin (inr (a, m, i, e)) (inl f) =
            absurd (absent_reached a (newest k ys none) f (newest_reaches k a ys none (to a m) i))
        by_origin (inr a) (inr b) =
            agree xs ys (newest k xs none) (newest k ys none) hx hy a b
              (λ d m i. newest_reaches k d ys none (to d m) i)
              (λ d m i. newest_reaches k d xs none (from d m) i)

    -- Two services that apply the same events to empty collections, in any order and each as often as
    -- it arrives, end with the same document for every id, where no call fails and the events of one id
    -- and version are copies of one.
    pub projection_converges :
        (xs ys : List D)
        → IsPublished history xs
        → IsPublished history ys
        → ((d : D) → IsAmong d xs → IsAmong d ys)
        → ((d : D) → IsAmong d ys → IsAmong d xs)
        → find_entity mapper k (project xs []) ≡ find_entity mapper k (project ys [])
    unfolding find_one
    projection_converges xs ys hx hy to from =
        find-project k xs [] tt ∙ same_newest xs ys hx hy to from ∙ sym (find-project k ys [] tt)
