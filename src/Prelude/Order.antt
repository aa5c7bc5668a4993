-- ===== src/Prelude/Order.antt =====
-- The order of Go's strings: byte by byte. On UTF-8 text that is the order of the code points.
use Prim.Native.Nat.{Ordering, compare as compare_nat}
use Prim.Native.Char.{Char, code}
use Prim.Native.String.{String, compare, then}
use Prim.Native.String.compare as clauses
use mathlib.Core.Path.{◌≡◌}
use mathlib.Core.Logic.{◌≢◌}
use mathlib.Core.Bool.{Bool, true, false}
use native.Mathlib.Omega.{arith}
use text.Mathlib.TextEquality.{path_by_compare}
use text.Mathlib.TextPositions.{compare_refl}

-- `s < t`
abbrev pub str_lt : String → String → Bool
str_lt s t = elim (compare s t) [ Ordering.lt ↦ true | _ ↦ false ]

compare-cons :
    (c d : Char) (s t : String)
    → compare (String.◌∷◌ c s) (String.◌∷◌ d t) ≡ then (compare_nat (code c) (code d)) (compare s t)
compare-cons c d s t = clauses.cons-cons c d s t

compare-nil_cons : (d : Char) (t : String) → compare String.[] (String.◌∷◌ d t) ≡ Ordering.lt
compare-nil_cons d t = clauses.nil-cons d t

compare-cons_nil : (c : Char) (s : String) → compare (String.◌∷◌ c s) String.[] ≡ Ordering.gt
compare-cons_nil c s = clauses.cons-nil c s

compare-nil_nil : compare String.[] String.[] ≡ Ordering.eq
compare-nil_nil = clauses.nil-nil

compare_trans :
    (s t u : String)
    → compare s t ≡ Ordering.lt
    → compare t u ≡ Ordering.lt
    → compare s u ≡ Ordering.lt
compare_trans String.[] String.[] u h k = cc
compare_trans String.[] (String.◌∷◌ d t) String.[] h k = cc (compare-cons_nil d t)
compare_trans String.[] (String.◌∷◌ d t) (String.◌∷◌ e u) h k = compare-nil_cons e u
compare_trans (String.◌∷◌ c s) String.[] u h k = cc (compare-cons_nil c s)
compare_trans (String.◌∷◌ c s) (String.◌∷◌ d t) String.[] h k = cc (compare-cons_nil d t)
compare_trans (String.◌∷◌ c s) (String.◌∷◌ d t) (String.◌∷◌ e u) h k = ground (
  arith,
  compare-cons c d s t,
  compare-cons d e t u,
  compare-cons c e s u,
  compare_trans s t u,
  path_by_compare s t,
  path_by_compare t u,
)

compare_total : (s t : String) → compare s t ≡ Ordering.gt → compare t s ≡ Ordering.lt
compare_total String.[] String.[] h = cc
compare_total String.[] (String.◌∷◌ d t) h = cc (compare-nil_cons d t)
compare_total (String.◌∷◌ c s) String.[] h = compare-nil_cons c s
compare_total (String.◌∷◌ c s) (String.◌∷◌ d t) h =
    ground
      (arith, compare-cons c d s t, compare-cons d c t s, compare_total s t, compare-eq_comm s t)
  where
    compare-eq_comm : (a b : String) → compare a b ≡ Ordering.eq → compare b a ≡ Ordering.eq
    compare-eq_comm a b e = rw (path_by_compare a b e) (compare_refl b)

pub str_lt_trans : (s t u : String) → str_lt s t ≡ true → str_lt t u ≡ true → str_lt s u ≡ true
str_lt_trans s t u h k = ground (arith, compare_trans s t u)

str_lt_irrefl : (s : String) → str_lt s s ≡ false
str_lt_irrefl s = ground (arith, compare_refl s)

-- Distinct texts are ordered one way.
pub str_lt_total : (s t : String) → s ≢ t → str_lt s t ≡ false → str_lt t s ≡ true
str_lt_total s t n h = ground (arith, compare_total s t, path_by_compare s t)

pub str_lt_asymm : (s t : String) → str_lt s t ≡ true → str_lt t s ≡ false
str_lt_asymm s t h = ground (arith, compare_trans s t s, compare_refl s)

-- What is below a text is below every text that is not below it.
pub str_lt_of_lt_of_not_lt :
    (s t u : String) → str_lt s t ≡ true → str_lt u t ≡ false → str_lt s u ≡ true
str_lt_of_lt_of_not_lt s t u h k =
    ground (arith, compare_trans s t u, compare_total u t, path_by_compare u t)
