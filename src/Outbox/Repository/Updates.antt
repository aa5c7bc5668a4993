-- ===== src/Outbox/Repository/Updates.antt =====
-- What each operation does to the ids of the collection and to what is sent.
use ecommerce_commons.Prelude.{
  ℕ, String, Bool, true, false, not, ◌&&◌, ◌||◌, ◌≡◌, ◌⊎◌, inl, inr, refl, arith, none, some, List,
  [], ◌∷◌, ◌++◌, str_eq, str_eq→≡, eq_iff, contains, Bool-cases, Option-cases, ap, ◌∙◌,
}
use ecommerce_commons.Outbox.Repository.{
  is_processing, OutboxEntity, Collection, select, lock, update_one, fetch_and_lock, has_id,
  insert_one, as_sent, update_as_sent,
}

-- `_id` is a unique key.
abbrev pub IsKeyed : Collection → Type 0
IsKeyed [] = Unit
IsKeyed (d ∷ c) = (has_id d.id c ≡ false) × IsKeyed c

abbrev pub is_sent : String → Collection → Bool
is_sent id [] = false
is_sent id (d ∷ c) = (str_eq d.id id && not (is_processing d.status)) || is_sent id c

-- What an update of single documents that keeps ids and unsends nothing does to the collection.
pub has_id-update_one :
    (id i : String) (max_backoff now : ℕ) (c : Collection)
    → has_id i (update_one id (lock max_backoff now) c) ≡ has_id i c
unfolding has_id update_one lock
has_id-update_one id i max_backoff now [] = refl
has_id-update_one id i max_backoff now (d ∷ c) =
    ground (arith, has_id-update_one id i max_backoff now c)

pub is_sent-update_one :
    (id i : String) (max_backoff now : ℕ) (c : Collection)
    → is_sent i (update_one id (lock max_backoff now) c) ≡ is_sent i c
unfolding update_one lock
is_sent-update_one id i max_backoff now [] = refl
is_sent-update_one id i max_backoff now (d ∷ c) =
    ground (arith, is_sent-update_one id i max_backoff now c)

pub has_id-update_as_sent :
    (now : ℕ) (ids : List String) (i : String) (c : Collection)
    → has_id i (update_as_sent now ids c) ≡ has_id i c
unfolding has_id update_as_sent as_sent
has_id-update_as_sent now ids i [] = refl
has_id-update_as_sent now ids i (d ∷ c) = ground (arith, has_id-update_as_sent now ids i c)

-- After the update a document is sent exactly if it was, or is there and among the ids.
pub is_sent-update_as_sent :
    (now : ℕ) (ids : List String) (i : String) (c : Collection)
    → is_sent i (update_as_sent now ids c) ≡ (is_sent i c || (contains i ids && has_id i c))
unfolding has_id update_as_sent as_sent
is_sent-update_as_sent now ids i [] = ground arith
is_sent-update_as_sent now ids i (d ∷ c) = elim (Bool-cases (str_eq d.id i)) [
  | inl same ↦
      ground
        (arith, is_sent-update_as_sent now ids i c, ap (λ x. contains x ids) (str_eq→≡ d.id i same))
  | inr other ↦ ground (arith, is_sent-update_as_sent now ids i c)
]

pub has_id-append :
    (i : String) (c c' : Collection) → has_id i (c ++ c') ≡ (has_id i c || has_id i c')
unfolding has_id
has_id-append i [] c' = refl
has_id-append i (d ∷ c) c' = ground (arith, has_id-append i c c')

pub is_sent-append :
    (i : String) (c c' : Collection) → is_sent i (c ++ c') ≡ (is_sent i c || is_sent i c')
is_sent-append i [] c' = refl
is_sent-append i (d ∷ c) c' = ground (arith, is_sent-append i c c')

pub update_one-IsKeyed :
    (id : String) (max_backoff now : ℕ) (c : Collection)
    → IsKeyed c
    → IsKeyed (update_one id (lock max_backoff now) c)
unfolding update_one lock
update_one-IsKeyed id max_backoff now [] h = tt
update_one-IsKeyed id max_backoff now (d ∷ c) h = (
  ground (arith, has_id-update_one id d.id max_backoff now c),
  update_one-IsKeyed id max_backoff now c h.1,
)

pub update_as_sent-IsKeyed :
    (now : ℕ) (ids : List String) (c : Collection) → IsKeyed c → IsKeyed (update_as_sent now ids c)
unfolding update_as_sent as_sent
update_as_sent-IsKeyed now ids [] h = tt
update_as_sent-IsKeyed now ids (d ∷ c) h =
    (ground (arith, has_id-update_as_sent now ids d.id c), update_as_sent-IsKeyed now ids c h.1)

pub append-IsKeyed :
    (d : OutboxEntity) (c : Collection) → IsKeyed c → has_id d.id c ≡ false → IsKeyed (c ++ d ∷ [])
unfolding has_id
append-IsKeyed d [] h n = (refl, tt)
append-IsKeyed d (e ∷ c) h n = (
  ground (arith, has_id-append e.id c (d ∷ []), eq_iff d.id e.id, eq_iff e.id d.id),
  append-IsKeyed d c h.1 (ground arith),
)

pub fetched-cases :
    (max_backoff now : ℕ) (c : Collection)
    → ((fetch_and_lock max_backoff now c).1 ≡ c)
      ⊎ ((id : String) × ((fetch_and_lock max_backoff now c).1
            ≡ update_one id (lock max_backoff now) c))
unfolding fetch_and_lock
fetched-cases max_backoff now c = elim (Option-cases (select now c)) [
  | inl nothing ↦ inl (ground arith)
  | inr (d, found) ↦ inr (d.id, ground arith)
]

-- A fetch and an insertion of a new document mark nothing as sent.
pub is_sent-fetch :
    (max_backoff now : ℕ) (c : Collection) (id : String)
    → is_sent id (fetch_and_lock max_backoff now c).1 ≡ is_sent id c
is_sent-fetch max_backoff now c id = elim (fetched-cases max_backoff now c) [
  | inl same ↦ rw same
  | inr (i, changed) ↦ rw changed (is_sent-update_one i id max_backoff now c)
]

pub is_sent-insert :
    (d : OutboxEntity) (c : Collection) (id : String) {c' : Collection}
    → is_processing d.status ≡ true
    → insert_one d c ≡ some c'
    → is_sent id c' ≡ is_sent id c
unfolding insert_one
is_sent-insert d c id {c' = c'} p h = elim (Bool-cases (has_id d.id c)) [
  | inl taken ↦ let no_insert : none ≡ some c' = rw taken at h in cc
  | inr free ↦
      let inserted : some (c ++ d ∷ []) ≡ some c' = rw free at h in
      let same : c ++ d ∷ [] ≡ c' = cc in rw (← same) (is_sent-append id c (d ∷ []) ∙ ground arith)
]
