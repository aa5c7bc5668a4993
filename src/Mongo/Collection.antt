-- ===== src/Mongo/Collection.antt =====
-- A collection of documents, in the order that a scan meets them, with the calls of the MongoDB driver
-- that pkg/mongo/generic_repository.go makes, as MongoDB documents them. A filter is a test.
pub mod Keyed
use ecommerce_commons.Prelude.{
  ℕ, zero, suc, String, Bool, true, false, ◌||◌, Option, none, some, List, [], ◌∷◌, ◌++◌,
  if◌then◌else◌, str_eq,
}

module _ {E : Type 0} where
  -- `FindOne`
  unfoldable pub find_one : (E → Bool) → List E → Option E
  find_one test [] = none
  find_one test (e ∷ c) = let rest = find_one test c in if test e then some e else rest

  -- `Find`
  unfoldable pub find_all : (E → Bool) → List E → List E
  find_all test [] = []
  find_all test (e ∷ c) = let rest = find_all test c in if test e then e ∷ rest else rest

  -- `FindOneAndReplace` and `ReplaceOne`, which replace the first document that matches, if any does.
  unfoldable pub replace_one : (E → Bool) → E → List E → Option (List E)
  replace_one test new [] = none
  replace_one test new (e ∷ c) =
      let rest = replace_one test new c in
      if test e then some (new ∷ c) else elim rest [ none ↦ none | some c2 ↦ some (e ∷ c2) ]

  -- `DeleteOne`
  unfoldable pub delete_one : (E → Bool) → List E → List E
  delete_one test [] = []
  delete_one test (e ∷ c) = let rest = delete_one test c in if test e then c else e ∷ rest

  -- Whether a document matches, and with that whether a count with limit 1 is above 0.
  unfoldable pub exists_one : (E → Bool) → List E → Bool
  exists_one test [] = false
  exists_one test (e ∷ c) = test e || exists_one test c

  -- `SetLimit`, `SetSkip`
  abbrev pub limit : ℕ → List E → List E
  limit zero c = []
  limit (suc n) [] = []
  limit (suc n) (e ∷ c) = e ∷ limit n c

  abbrev pub skip : ℕ → List E → List E
  skip zero c = c
  skip (suc n) [] = []
  skip (suc n) (e ∷ c) = skip n c
