-- ===== src/Mongo/Repository/Pages.antt =====
-- Pagination: the pages of a query, from the first to the last one that the result announces.
use mathlib.Core.List.{map-append}
use native.Mathlib.Nat.{mul_comm, mul-le-mul_right}
use native.Mathlib.Omega.{div_any, mod_fact}
use ecommerce_commons.Prelude.{
  ℕ, zero, suc, ◌+◌, ◌-◌, ◌*◌, ◌/◌, ◌%◌, ◌^◌, ◌≤◌, ◌<◌, Bool, true, Option, List, [], ◌∷◌, ◌++◌,
  map, length, ltb, ◌==◌, if◌then◌else◌, pos, ◌≡◌, refl, arith, ◌∙◌, ap, sym, subst, Bool-cases,
  inl, inr,
}
use ecommerce_commons.Mongo.Collection.{find_all, limit, skip}
use ecommerce_commons.Mongo.Repository.Stored.{well}
use ecommerce_commons.Mongo.Repository.{
  EntityMapper, PageResult, Answer, answer, failure, wrapped, at_least_one, or_all, sorted, skip_of,
  total_pages, find_page, find_with_options,
}

succ_add : (a b : ℕ) → suc a + b ≡ suc (a + b)
succ_add a b = omega arith

no_pages : (size : ℕ) → 0 ≡ 0 * size
no_pages size = omega arith

next_page : (n size : ℕ) → n * size + size ≡ suc n * size
next_page n size = omega arith

module _ {E : Type 0} where
  limit-nil : (n : ℕ) → limit {E = E} n [] ≡ []
  limit-nil zero = refl
  limit-nil (suc n) = refl

  limit-add : (a b : ℕ) (c : List E) → limit (a + b) c ≡ limit a c ++ limit b (skip a c)
  limit-add zero b c = ap (λ n. limit n c) (omega arith)
  limit-add (suc a) b [] = limit-nil (suc a + b) ∙ sym (limit-nil b)
  limit-add (suc a) b (e ∷ c) =
      ap (λ n. limit n (e ∷ c)) (succ_add a b) ∙ ap (λ l. e ∷ l) (limit-add a b c)

  limit_all : (n : ℕ) (c : List E) → length c ≤ n → limit n c ≡ c
  limit_all zero [] h = refl
  limit_all zero (e ∷ c) h = ground (arith, h)
  limit_all (suc n) [] h = refl
  limit_all (suc n) (e ∷ c) h = ap (λ l. e ∷ l) (limit_all n c (omega (arith, h)))

  length-limit : (n : ℕ) (c : List E) → length (limit n c) ≤ n
  length-limit zero c = omega arith
  length-limit (suc n) [] = omega arith
  length-limit (suc n) (e ∷ c) = omega (arith, length-limit n c)

  -- The first `n` pages, one after the other.
  pages : ℕ → ℕ → List E → List E
  pages size zero c = []
  pages size (suc n) c = pages size n c ++ limit size (skip (n * size) c)

  pages-limit : (size n : ℕ) (c : List E) → pages size n c ≡ limit (n * size) c
  unfolding pages
  pages-limit size zero c = ap (λ n. limit n c) (no_pages size)
  pages-limit size (suc n) c =
      ap (λ l. l ++ limit size (skip (n * size) c)) (pages-limit size n c)
      ∙ sym (limit-add (n * size) size c)
      ∙ ap (λ m. limit m c) (next_page n size)

-- The announced pages hold all of the result.
enough : (total s : ℕ) → total ≤ total_pages total (suc s) * suc s
enough total s = elim (Bool-cases ((total % suc s) == 0)) [
  | inl even ↦ rw even (ground (arith, even, div_any total (suc s)))
  | inr odd ↦ rw odd (ground (arith, mod_fact total s, div_any total (suc s)))
]

-- An offset that fits into an `int64` stays as it is.
fits : (x : ℕ) → x < 2 ^ 63 → x % 2 ^ 64 ≡ x
fits x h = omega (arith, h)

pred_page : (i s : ℕ) → (suc i - 1) * suc s ≡ i * suc s
pred_page i s = ap (λ n. n * suc s) (before i)
  where
    before : (i : ℕ) → suc i - 1 ≡ i
    before i = omega arith

at_least_one_lem : (default n : ℕ) → at_least_one default (pos (suc n)) ≡ suc n
at_least_one_lem default n = ground arith

below_quotient : (total s i : ℕ) → i ≤ total / suc s → i * suc s ≤ total
below_quotient total s i h =
    grind (
      arith,
      h,
      div_any total (suc s),
      mul-le-mul_right (suc s) h,
      mul_comm (suc s) (total / suc s),
    )

-- The pages before the last one start within the result.
starts_within : (total s i : ℕ) → i < total_pages total (suc s) → i * suc s ≤ total
starts_within total s i = elim (Bool-cases ((total % suc s) == 0)) [
  | inl even ↦ rw even (λ h. below_quotient total s i (omega (arith, h)))
  | inr odd ↦ rw odd (λ h. below_quotient total s i (omega (arith, h)))
]

module _ {D E : Type 0} (mapper : EntityMapper D E) (filter : Option (E → Bool))
    (orders : ℕ → Option (List E → List E)) (c : List E) (s : ℕ) where
  -- What the query for a page finds, in the order of that query's answer.
  abbrev pub found : ℕ → List E
  found i = sorted (orders i) (find_all (or_all filter) c)

  abbrev total : ℕ
  total = length (find_all (or_all filter) c)

  -- `FindWithOptions` for the page `i` + 1 of size `s` + 1, where the collection does not change.
  unfoldable pub ask : ℕ → Answer (PageResult D)
  unfolding find_with_options
  ask i =
      find_with_options mapper true well
        (record { filter = filter; page = pos (suc i); size = pos (suc s); sort = orders i }) c c

  abbrev pub items_of : Answer (PageResult D) → List D
  items_of (answer r) = r.items
  items_of (failure e) = []

  -- The items of the first `n` pages.
  unfoldable pub read_pages : ℕ → List D
  unfolding ask
  read_pages zero = []
  read_pages (suc n) = read_pages n ++ items_of (ask n)

  ask_lem :
      (i : ℕ)
      → i * suc s < 2 ^ 63
      → ask i
        ≡ answer (record {
          items = map mapper.to_domain (limit (suc s) (skip (i * suc s) (found i)));
          total = total;
          page = suc i;
          size = suc s;
          total_pages = total_pages total (suc s);
        })
  unfolding ask find_with_options
  ask_lem i h =
      ap (λ p. asked p (at_least_one 10 (pos (suc s)))) (at_least_one_lem 1 i)
      ∙ ap (λ z. asked (suc i) z) (at_least_one_lem 10 s)
      ∙ ap (λ k. ended k) offset
      ∙ rw below refl
    where
      below : ltb (i * suc s) (2 ^ 63) ≡ true
      below = ground (arith, h)

      offset : skip_of (suc i) (suc s) ≡ i * suc s
      offset = ap (λ x. x % 2 ^ 64) (pred_page i s) ∙ fits (i * suc s) h

      asked : ℕ → ℕ → Answer (PageResult D)
      asked p z =
          find_page mapper well
            (record { filter = filter; page = pos (suc i); size = pos (suc s); sort = orders i }) p
            z total c

      ended : ℕ → Answer (PageResult D)
      ended k =
          if ltb k (2 ^ 63)
          then answer (record {
            items = map mapper.to_domain (limit (suc s) (skip k (found i)));
            total = total;
            page = suc i;
            size = suc s;
            total_pages = total_pages total (suc s);
          })
          else failure wrapped

  read_pages_lem :
      (n : ℕ)
      → ((i : ℕ) → found i ≡ found 0)
      → ((i : ℕ) → i < n → i * suc s < 2 ^ 63)
      → read_pages n ≡ map mapper.to_domain (pages (suc s) n (found 0))
  unfolding read_pages pages
  read_pages_lem zero agree h = refl
  read_pages_lem (suc n) agree h =
      ap (λ l. l ++ items_of (ask n)) (read_pages_lem n agree (λ i less. h i (omega (arith, less))))
      ∙ ap (λ a. map mapper.to_domain (pages (suc s) n (found 0)) ++ items_of a)
          (ask_lem n (h n (omega arith)))
      ∙ ap
          (λ l.
            map mapper.to_domain (pages (suc s) n (found 0))
            ++ map mapper.to_domain (limit (suc s) (skip (n * suc s) l)))
          (agree n)
      ∙ sym (
          map-append mapper.to_domain (pages (suc s) n (found 0))
            (limit (suc s) (skip (n * suc s) (found 0))))

  -- Where the collection does not change, no call fails, MongoDB answers the query of each page with all
  -- that it finds, in the same order for each (as with a sort key that no two documents share), and the
  -- number of documents fits into an `int64`: the pages from the first to the `total_pages`-th, of any
  -- size from 1 on, are together the whole result, in that order, without gap or repetition.
  pub pages_cover :
      ((i : ℕ) → found i ≡ found 0)
      → length (found 0) ≡ total
      → total < 2 ^ 63
      → read_pages (total_pages total (suc s)) ≡ map mapper.to_domain (found 0)
  pages_cover agree same fit =
      read_pages_lem (total_pages total (suc s)) agree
        (λ i less. omega (arith, starts_within total s i less, fit))
      ∙ ap (map mapper.to_domain) (
          pages-limit (suc s) (total_pages total (suc s)) (found 0)
          ∙ limit_all (total_pages total (suc s) * suc s) (found 0)
              (subst (λ n. n ≤ total_pages total (suc s) * suc s) (sym same) (enough total s)))
