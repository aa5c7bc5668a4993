-- ===== src/Prelude/Maps.antt =====
-- Go's `map[string]V` as an association list with one entry for each key.
use Prim.Native.Nat.{◌<◌}
use Prim.Native.String.{String}
use mathlib.Core.Path.{◌≡◌, refl, subst, ◌∙◌}
use mathlib.Core.Logic.{inl, inr}
use mathlib.Core.Bool.{false}
use mathlib.Core.Option.{Option, none, some}
use mathlib.Core.List.{List, [], ◌∷◌}
use native.Mathlib.Omega.{arith}
use text.Mathlib.TextEquality.{eq_iff}
use ecommerce_commons.Prelude.Tests.{str_eq, if◌then◌else◌, Bool-cases, str_eq→≡, str_ne_comm}
use ecommerce_commons.Prelude.Lists.{length}

module _ {ℓ} {V : Type ℓ} where
  unfoldable pub lookup : String → List (String × V) → Option V
  lookup k [] = none
  lookup k ((j, v) ∷ m) = if str_eq j k then some v else lookup k m

  unfoldable pub insert : String → V → List (String × V) → List (String × V)
  insert key new [] = (key, new) ∷ []
  insert key new ((there, old) ∷ rest) =
      let later = insert key new rest in
      if str_eq there key then (key, new) ∷ rest else (there, old) ∷ later

  -- The key that was inserted has the new value, and every other key has what it had.
  pub lookup-insert :
      (key k : String) (new : V) (entries : List (String × V))
      → lookup k (insert key new entries) ≡ (if str_eq key k then some new else lookup k entries)
  unfolding lookup insert
  lookup-insert key k new [] = refl
  lookup-insert key k new ((there, old) ∷ rest) =
      ground (arith, lookup-insert key k new rest, eq_iff there key, eq_iff there k, eq_iff key k)

  pub length-insert-pos : (k : String) (v : V) (m : List (String × V)) → 0 < length (insert k v m)
  unfolding insert
  length-insert-pos k v [] = omega arith
  length-insert-pos k v ((j, w) ∷ m) = ground arith

  -- An association list with one entry for each key.
  abbrev pub IsMap : List (String × V) → Type ℓ
  IsMap [] = Unit
  IsMap ((k, v) ∷ m) = (lookup k m ≡ none) × IsMap m

  lookup-insert_ne :
      (k j : String) (v : V) (m : List (String × V))
      → str_eq k j ≡ false
      → lookup j m ≡ none
      → lookup j (insert k v m) ≡ none
  lookup-insert_ne k j v m n h = lookup-insert k j v m ∙ rw n h

  lookup-nil : (k : String) → lookup k [] ≡ none
  unfolding lookup
  lookup-nil k = refl

  pub insert-IsMap : (k : String) (v : V) (m : List (String × V)) → IsMap m → IsMap (insert k v m)
  unfolding insert
  insert-IsMap k v [] h = (lookup-nil k, tt)
  insert-IsMap k v ((j, w) ∷ m) h = elim (Bool-cases (str_eq j k)) [
    | inl same ↦ rw same (subst (λ i. lookup i m ≡ none) (str_eq→≡ j k same) h.0, h.1)
    | inr other ↦
        rw other (lookup-insert_ne k j v m (str_ne_comm j k other) h.0, insert-IsMap k v m h.1)
  ]
