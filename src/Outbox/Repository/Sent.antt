-- ===== src/Outbox/Repository/Sent.antt =====
-- The life of a document over any sequence of operations.
use ecommerce_commons.Prelude.{
  ℕ, String, true, false, ◌≡◌, ◌≢◌, inl, inr, refl, arith, Option, none, some, List, [], ◌∷◌,
  eq_iff, Bool-cases, ap, sym, subst, ◌∙◌,
}
use ecommerce_commons.Outbox.Repository.{
  is_processing, OutboxEntity, Collection, is_due, fetch_and_lock, has_id, insert_one,
  update_as_sent,
}
use ecommerce_commons.Outbox.Repository.Lease.{IsIn, lock-id, fetch_and_lock_found}
use ecommerce_commons.Outbox.Repository.Fetched.{has_id_of_IsIn}
use ecommerce_commons.Outbox.Repository.Updates.{
  IsKeyed, is_sent, has_id-update_one, is_sent-update_one, has_id-update_as_sent, has_id-append,
  is_sent-append, update_one-IsKeyed, update_as_sent-IsKeyed, append-IsKeyed, fetched-cases,
  is_sent-update_as_sent,
}

-- The calls of the repository, by whichever worker.
pub data Op : Type 0 where
  insert : OutboxEntity → Op
  fetch : (max_backoff now : ℕ) → Op
  mark_sent : ℕ → List String → Op

abbrev or_old : Collection → Option Collection → Collection
or_old c none = c
or_old c (some c') = c'

unfoldable pub apply : Op → Collection → Collection
apply (insert d) c = or_old c (insert_one d c)
apply (fetch max_backoff now) c = (fetch_and_lock max_backoff now c).1
apply (mark_sent now ids) c = update_as_sent now ids c

unfoldable pub apply_all : List Op → Collection → Collection
apply_all [] c = c
apply_all (op ∷ ops) c = apply_all ops (apply op c)

apply-IsKeyed : (op : Op) (c : Collection) → IsKeyed c → IsKeyed (apply op c)
unfolding apply insert_one
apply-IsKeyed (insert d) c h = elim (Bool-cases (has_id d.id c)) [
  | inl taken ↦ rw taken h
  | inr free ↦ rw free (append-IsKeyed d c h free)
]
apply-IsKeyed (fetch max_backoff now) c h = elim (fetched-cases max_backoff now c) [
  | inl same ↦ rw same h
  | inr (id, changed) ↦ rw changed (update_one-IsKeyed id max_backoff now c h)
]
apply-IsKeyed (mark_sent now ids) c h = update_as_sent-IsKeyed now ids c h

-- No operation loses a document or takes its status `SENT` back.
pub apply-keeps :
    (op : Op) (id : String) (c : Collection)
    → (has_id id c ≡ true → has_id id (apply op c) ≡ true)
      × (is_sent id c ≡ true → is_sent id (apply op c) ≡ true)
unfolding apply insert_one
apply-keeps (insert d) id c = elim (Bool-cases (has_id d.id c)) [
  | inl taken ↦ rw taken (λ h. h, λ h. h)
  | inr free ↦ rw free (
    λ h. ground (arith, has_id-append id c (d ∷ [])),
    λ h. ground (arith, is_sent-append id c (d ∷ [])),
  )
]
apply-keeps (fetch max_backoff now) id c = elim (fetched-cases max_backoff now c) [
  | inl same ↦ rw same (λ h. h, λ h. h)
  | inr (i, changed) ↦ rw changed (
    λ h. has_id-update_one i id max_backoff now c ∙ h,
    λ h. is_sent-update_one i id max_backoff now c ∙ h,
  )
]
apply-keeps (mark_sent now ids) id c =
    (λ h. has_id-update_as_sent now ids id c ∙ h, λ h. is_sent-update_as_sent now ids id c ∙ rw h)

apply_all-IsKeyed : (ops : List Op) (c : Collection) → IsKeyed c → IsKeyed (apply_all ops c)
unfolding apply_all
apply_all-IsKeyed [] c h = h
apply_all-IsKeyed (op ∷ ops) c h = apply_all-IsKeyed ops (apply op c) (apply-IsKeyed op c h)

sent_kept :
    (ops : List Op) (id : String) (c : Collection)
    → is_sent id c ≡ true
    → is_sent id (apply_all ops c) ≡ true
unfolding apply_all
sent_kept [] id c h = h
sent_kept (op ∷ ops) id c h = sent_kept ops id (apply op c) ((apply-keeps op id c).1 h)

-- In a collection with unique ids, a document that is not sent is not sent under another.
sent_of_absent : (id : String) (c : Collection) → has_id id c ≡ false → is_sent id c ≡ false
unfolding has_id
sent_of_absent id [] h = refl
sent_of_absent id (d ∷ c) h = ground (arith, sent_of_absent id c)

not_sent_of_processing :
    (d : OutboxEntity) (c : Collection)
    → IsKeyed c
    → IsIn d c
    → is_processing d.status ≡ true
    → is_sent d.id c ≡ false
not_sent_of_processing d [] k i p = elim i [ ]
not_sent_of_processing d (e ∷ c) k (inl same) p =
    let absent = sent_of_absent e.id c k.0 in
    ground (arith, ap (λ x. x.id) same, ap (λ x. x.status) same)
not_sent_of_processing d (e ∷ c) k (inr there) p =
    ground
      (arith, has_id_of_IsIn d c there, eq_iff e.id d.id, not_sent_of_processing d c k.1 there p)

due-processing : (now : ℕ) (d : OutboxEntity) → is_due now d ≡ true → is_processing d.status ≡ true
unfolding is_due
due-processing now d h = ground arith

-- What a fetch returns is not the document with this id.
abbrev pub IsOther : String → Option OutboxEntity → Type 0
IsOther id none = Unit
IsOther id (some d) = d.id ≢ id

-- In a collection with unique ids, a message that is marked as sent stays so, whatever operations
-- follow, and what a later fetch returns, if it returns one, is another.
pub sent_final :
    (ops : List Op) (c : Collection) (id : String) (max_backoff now : ℕ)
    → IsKeyed c
    → is_sent id c ≡ true
    → (is_sent id (apply_all ops c) ≡ true)
      × IsOther id (fetch_and_lock max_backoff now (apply_all ops c)).0
sent_final ops c id max_backoff now k s = (kept, go (fetch_and_lock max_backoff now c₁) refl)
  where
    c₁ : Collection
    c₁ = apply_all ops c

    kept : is_sent id c₁ ≡ true
    kept = sent_kept ops id c s

    go :
        (p : Option OutboxEntity × Collection)
        → fetch_and_lock max_backoff now c₁ ≡ p
        → IsOther id p.0
    go (none, c') f = tt
    go (some d, c') f = λ same.
        let (e, first, is_e, _) = fetch_and_lock_found max_backoff now c₁ f in
        let same' : e.id ≡ id =
          sym (lock-id max_backoff now e) ∙ ap (λ x. x.id) (sym is_e) ∙ same in
        let gone : is_sent id c₁ ≡ false =
          subst (λ i. is_sent i c₁ ≡ false) same'
            (not_sent_of_processing e c₁ (apply_all-IsKeyed ops c k) first.member
              (due-processing now e first.due)) in
        let still : is_sent id c₁ ≡ true = kept in ground arith
