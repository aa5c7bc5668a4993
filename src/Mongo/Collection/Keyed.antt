-- ===== src/Mongo/Collection/Keyed.antt =====
-- A collection with one document for each `_id`, as a function from ids to documents.
use ecommerce_commons.Prelude.{
  String, Bool, true, false, ◌&&◌, Option, none, some, List, [], ◌∷◌, ◌++◌, if◌then◌else◌, str_eq,
  ◌≡◌, refl, arith, subst, eq_iff, ◌∙◌, ap, sym, str_eq→≡, Bool-cases, inl, inr,
}
use ecommerce_commons.Mongo.Collection.{find_one, replace_one, delete_one, exists_one}

module _ {E : Type 0} (id : E → String) where
  abbrev pub has_key : String → E → Bool
  has_key k e = str_eq (id e) k

  abbrev pub find : String → List E → Option E
  find k = find_one (has_key k)

  -- `_id` is a unique key.
  abbrev pub IsKeyed : List E → Type 0
  IsKeyed [] = Unit
  IsKeyed (e ∷ c) = (find (id e) c ≡ none) × IsKeyed c

  abbrev pub or_same : List E → Option (List E) → List E
  or_same c none = c
  or_same c (some c2) = c2

  abbrev pub is_some : Option (List E) → Bool
  is_some none = false
  is_some (some c) = true

  abbrev pub passes : (E → Bool) → Option E → Bool
  passes test none = false
  passes test (some e) = test e

  abbrev pub is_present : Option E → Bool
  is_present = passes (λ e. true)

  pub exists_one-find : (k : String) (c : List E) → exists_one (has_key k) c ≡ is_present (find k c)
  unfolding exists_one find_one
  exists_one-find k [] = refl
  exists_one-find k (e ∷ c) = ground (arith, exists_one-find k c)

  module _ (k : String) (test : E → Bool) (new : E) (same : id new ≡ k) where
    abbrev pub filter : E → Bool
    filter e = has_key k e && test e

    absent : (c : List E) → find k c ≡ none → replace_one filter new c ≡ none
    unfolding find_one replace_one
    absent [] h = refl
    absent (e ∷ c) h = ground (arith, absent c)

    pub is_some-replace_one :
        (c : List E) → IsKeyed c → is_some (replace_one filter new c) ≡ passes test (find k c)
    unfolding find_one replace_one
    is_some-replace_one [] h = refl
    is_some-replace_one (e ∷ c) h = elim (Bool-cases (str_eq (id e) k)) [
      | inl mine ↦
          let gone : replace_one filter new c ≡ none =
            absent c (ap (λ s. find s c) (sym (str_eq→≡ (id e) k mine)) ∙ h.0) in
          ground (arith, mine, gone)
      | inr other ↦ ground (arith, other, is_some-replace_one c h.1)
    ]

    -- The collection after the call.
    abbrev pub replaced : List E → List E
    replaced c = or_same c (replace_one filter new c)

    replaced_cons :
        (e : E) (c : List E) → replaced (e ∷ c) ≡ (if filter e then new ∷ c else e ∷ replaced c)
    unfolding replace_one
    replaced_cons e c = go (filter e) (replace_one filter new c)
      where
        go :
            (b : Bool) (o : Option (List E))
            → or_same
                (e ∷ c)
                (if b then some (new ∷ c) else elim o [ none ↦ none | some c2 ↦ some (e ∷ c2) ])
              ≡ (if b then new ∷ c else e ∷ or_same c o)
        go true o = refl
        go false none = refl
        go false (some c2) = refl

    pub find-replace_one :
        (j : String) (c : List E)
        → IsKeyed c
        → find j (replaced c)
          ≡ (if str_eq k j && passes test (find k c) then some new else find j c)
    unfolding find_one replace_one
    find-replace_one j [] h = ground arith
    find-replace_one j (e ∷ c) h = elim (Bool-cases (str_eq (id e) k)) [
      | inl mine ↦
          let gone : replace_one filter new c ≡ none =
            absent c (ap (λ s. find s c) (sym (str_eq→≡ (id e) k mine)) ∙ h.0) in
          ground (
            arith,
            mine,
            same,
            str_eq→≡ (id e) k mine,
            gone,
            replaced_cons e c,
            ap (find j) (replaced_cons e c),
          )
      | inr other ↦ ground (
        arith,
        other,
        find-replace_one j c h.1,
        replaced_cons e c,
        eq_iff k j,
        eq_iff (id e) j,
        eq_iff (id e) k,
      )
    ]

    pub replace_one-IsKeyed : (c : List E) → IsKeyed c → IsKeyed (replaced c)
    unfolding find_one replace_one
    replace_one-IsKeyed [] h = tt
    replace_one-IsKeyed (e ∷ c) h =
        subst IsKeyed (sym (replaced_cons e c)) (elim (Bool-cases (filter e)) [
          | inl hit ↦
              rw hit (
                ap (λ s. find s c) (same ∙ sym (str_eq→≡ (id e) k (ground (arith, hit)))) ∙ h.0,
                h.1,
              )
          | inr miss ↦ rw miss (
            find-replace_one (id e) c h.1 ∙ ground (arith, h.0, str_eq→≡ k (id e)),
            replace_one-IsKeyed c h.1,
          )
        ])

  pub find-append :
      (j : String) (c : List E) (new : E)
      → find j (c ++ (new ∷ []))
        ≡ (if is_present (find j c) then find j c else if str_eq (id new) j then some new else none)
  unfolding find_one
  find-append j [] new = refl
  find-append j (e ∷ c) new = ground (arith, find-append j c new)

  pub append-IsKeyed :
      (c : List E) (new : E) → find (id new) c ≡ none → IsKeyed c → IsKeyed (c ++ (new ∷ []))
  unfolding find_one
  append-IsKeyed [] new h keyed = (refl, tt)
  append-IsKeyed (e ∷ c) new h keyed = (
    find-append (id e) c new
        ∙ ground (arith, h, keyed.0, eq_iff (id new) (id e), eq_iff (id e) (id new)),
    append-IsKeyed c new (ground (arith, h)) keyed.1,
  )

  pub find-delete_one :
      (j k : String) (c : List E)
      → IsKeyed c
      → find j (delete_one (has_key k) c) ≡ (if str_eq k j then none else find j c)
  unfolding find_one delete_one
  find-delete_one j k [] h = ground arith
  find-delete_one j k (e ∷ c) h = elim (Bool-cases (str_eq (id e) j)) [
    | inl mine ↦
        let gone : find j c ≡ none = ap (λ s. find s c) (sym (str_eq→≡ (id e) j mine)) ∙ h.0 in
        ground (
          arith,
          mine,
          gone,
          find-delete_one j k c h.1,
          eq_iff (id e) k,
          eq_iff (id e) j,
          eq_iff k j,
        )
    | inr other ↦
        ground
          (arith, other, find-delete_one j k c h.1, eq_iff (id e) k, eq_iff (id e) j, eq_iff k j)
  ]

  delete_one-IsKeyed : (k : String) (c : List E) → IsKeyed c → IsKeyed (delete_one (has_key k) c)
  unfolding find_one delete_one
  delete_one-IsKeyed k [] h = tt
  delete_one-IsKeyed k (e ∷ c) h = elim (Bool-cases (str_eq (id e) k)) [
    | inl mine ↦ rw mine h.1
    | inr other ↦
        rw other (find-delete_one (id e) k c h.1 ∙ ground (arith, h.0), delete_one-IsKeyed k c h.1)
  ]
