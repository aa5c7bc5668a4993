-- ===== src/Outbox/Confirmer/Batches.antt =====
-- What becomes of the reports that the confirmer collects, and of the documents they are about.
use mathlib.Core.List.{append-nil, append_assoc}
use ecommerce_commons.Prelude.{
  ℕ, ◌≤◌, ◌<◌, String, Bool, true, false, ◌≡◌, refl, ◌&&◌, ◌||◌, arith, ap, sym, ◌∙◌, Option, none,
  some, List, [], ◌∷◌, ◌++◌, length, length-append, All, All-append, ◌==◌, Bool-cases, inl, inr,
  contains, str_eq, str_eq→≡,
}
use ecommerce_commons.Outbox.Repository.{Collection, has_id}
use ecommerce_commons.Outbox.Repository.Updates.{is_sent, is_sent-update_as_sent}
use ecommerce_commons.Outbox.Confirmer.{
  ConfirmResult, Wake, report, tick, Confirmer, new_confirmer, flush_batch, flush, wake, wake_all,
  run, delivered, reached, mark_delivered, handle_confirmation,
}

abbrev pub concat : List (List ConfirmResult) → List ConfirmResult
concat [] = []
concat (b ∷ bs) = b ++ concat bs

abbrev pub is_none {ℓ} : {A : Type ℓ} → Option A → Bool
is_none none = true
is_none (some a) = false

-- All that a confirmer has seen, in order.
abbrev pub seen : Confirmer → List ConfirmResult
seen c = concat c.flushed ++ c.results

abbrev pub reports : List Wake → List ConfirmResult
reports [] = []
reports (report r ∷ ws) = r ∷ reports ws
reports (tick ∷ ws) = reports ws

concat-snoc :
    (bs : List (List ConfirmResult)) (b : List ConfirmResult)
    → concat (bs ++ b ∷ []) ≡ concat bs ++ b
concat-snoc [] b = append-nil b
concat-snoc (x ∷ bs) b = ap (λ l. x ++ l) (concat-snoc bs b) ∙ sym (append_assoc x (concat bs) b)

-- A batch is not empty, and holds at most 100 reports.
abbrev pub IsBatch : List ConfirmResult → Type 0
IsBatch b = (1 ≤ length b) × (length b ≤ 100)

pub record IsFine (c : Confirmer) : Type 0 where
  pub room : length c.results < 100
  pub batches : All IsBatch c.flushed

seen-flush_batch :
    (rs : List ConfirmResult) (bs : List (List ConfirmResult))
    → seen (flush_batch rs bs) ≡ concat bs ++ rs
unfolding flush_batch
seen-flush_batch [] bs = refl
seen-flush_batch (r ∷ rs) bs = append-nil _ ∙ concat-snoc bs (r ∷ rs)

flush_batch-IsFine :
    (rs : List ConfirmResult) (bs : List (List ConfirmResult))
    → length rs ≤ 100
    → All IsBatch bs
    → IsFine (flush_batch rs bs) × (length (flush_batch rs bs).results ≡ 0)
unfolding flush_batch
flush_batch-IsFine [] bs h a = (record { room = omega arith; batches = a }, refl)
flush_batch-IsFine (r ∷ rs) bs h a = (
  record { room = omega arith; batches = All-append IsBatch bs _ a ((omega arith, h), tt) },
  refl,
)

wake-lem :
    (w : Wake) (c : Confirmer)
    → IsFine c
    → IsFine (wake w c) × (seen (wake w c) ≡ seen c ++ reports (w ∷ []))
unfolding wake flush
wake-lem (report r) c f =
    let rs = c.results ++ r ∷ [] in
    let grown = length-append c.results (r ∷ []) in
    elim (Bool-cases (length rs == 100)) [
      | inl full ↦ rw full (
        (flush_batch-IsFine rs c.flushed (omega (arith, f.room)) f.batches).0,
        seen-flush_batch rs c.flushed ∙ sym (append_assoc (concat c.flushed) c.results (r ∷ [])),
      )
      | inr part ↦ rw part (
        record { room = ground arith; batches = f.batches },
        sym (append_assoc (concat c.flushed) c.results (r ∷ [])),
      )
    ]
wake-lem tick c f = (
  (flush_batch-IsFine c.results c.flushed (omega (arith, f.room)) f.batches).0,
  seen-flush_batch c.results c.flushed ∙ sym (append-nil _),
)

wake_all-lem :
    (ws : List Wake) (c : Confirmer)
    → IsFine c
    → IsFine (wake_all ws c) × (seen (wake_all ws c) ≡ seen c ++ reports ws)
unfolding wake_all
wake_all-lem [] c f = (f, sym (append-nil _))
wake_all-lem (w ∷ ws) c f =
    let (f₁, s₁) = wake-lem w c f in
    let (f₂, s₂) = wake_all-lem ws (wake w c) f₁ in
    (
      f₂,
      s₂
          ∙ ap (λ l. l ++ reports ws) s₁
          ∙ append_assoc (seen c) (reports (w ∷ [])) (reports ws)
          ∙ ap (λ l. seen c ++ l) (reports-cons w ws),
    )
  where
    reports-cons : (w : Wake) (ws : List Wake) → reports (w ∷ []) ++ reports ws ≡ reports (w ∷ ws)
    reports-cons (report r) ws = refl
    reports-cons tick ws = refl

-- When `Run` has ended, every report that it received was handed over exactly once, in the order of
-- arrival, in batches of 1 to 100, however the ticker ran; and none is left over.
pub run_batches :
    (ws : List Wake)
    → (concat (run ws).flushed ≡ reports ws)
      × All IsBatch (run ws).flushed
      × (length (run ws).results ≡ 0)
unfolding run flush
run_batches ws =
    let start : IsFine new_confirmer = record { room = omega arith; batches = tt } in
    let (f, s) = wake_all-lem ws new_confirmer start in
    let c = wake_all ws new_confirmer in
    let (f', empty) = flush_batch-IsFine c.results c.flushed (omega (arith, f.room)) f.batches in
    let same = seen-flush_batch c.results c.flushed in
    (flushed_all (flush_batch c.results c.flushed) empty ∙ same ∙ s, f'.batches, empty)
  where
    flushed_all : (c : Confirmer) → length c.results ≡ 0 → concat c.flushed ≡ seen c
    flushed_all c e =
        sym (ap (λ l. concat c.flushed ++ l) (nil_of_length c.results e) ∙ append-nil _)
      where
        nil_of_length : (l : List ConfirmResult) → length l ≡ 0 → l ≡ []
        nil_of_length [] e = refl
        nil_of_length (x ∷ l) e = absurd (omega arith)

-- Is there a report of this id without an error?
abbrev pub was_delivered : String → List ConfirmResult → Bool
was_delivered id [] = false
was_delivered id (r ∷ rs) = (str_eq id r.id && is_none r.err) || was_delivered id rs

contains-delivered :
    (id : String) (rs : List ConfirmResult) → contains id (delivered rs) ≡ was_delivered id rs
unfolding delivered
contains-delivered id [] = refl
contains-delivered id (r ∷ rs) = ground (arith, contains-delivered id rs)

-- Whether the database updates this document.
abbrev pub covers : Option (String → Bool) → String → Bool
covers none id = true
covers (some applied) id = applied id

contains-reached :
    (applied : String → Bool) (id : String) (ids : List String)
    → contains id (reached applied ids) ≡ (applied id && contains id ids)
unfolding reached
contains-reached applied id [] = ground arith
contains-reached applied id (i ∷ ids) = elim (Bool-cases (str_eq id i)) [
  | inl same ↦ ground (arith, contains-reached applied id ids, ap applied (str_eq→≡ id i same))
  | inr other ↦ ground (arith, contains-reached applied id ids)
]

is_sent-mark_delivered :
    (now : ℕ) (answer : Option (String → Bool)) (ids : List String) (c : Collection) (id : String)
    → is_sent id (mark_delivered now answer ids c)
      ≡ (is_sent id c || (covers answer id && contains id ids && has_id id c))
unfolding mark_delivered
is_sent-mark_delivered now none [] c id = ground arith
is_sent-mark_delivered now (some applied) [] c id = ground arith
is_sent-mark_delivered now none (i ∷ ids) c id = is_sent-update_as_sent now (i ∷ ids) id c
is_sent-mark_delivered now (some applied) (i ∷ ids) c id =
    is_sent-update_as_sent now (reached applied (i ∷ ids)) id c
    ∙ rw (contains-reached applied id (i ∷ ids)) (ground arith)

-- After a batch a document is marked as sent exactly if it was before, or the database updated it and
-- the batch holds a report of its delivery without an error. So a failed delivery marks nothing, and
-- the document will be fetched again.
pub handle_confirmation_sent :
    (now : ℕ) (answer : Option (String → Bool)) (rs : List ConfirmResult) (c : Collection)
    (id : String)
    → is_sent id (handle_confirmation now answer rs c)
      ≡ (is_sent id c || (covers answer id && was_delivered id rs && has_id id c))
unfolding handle_confirmation
handle_confirmation_sent now answer rs c id =
    is_sent-mark_delivered now answer (delivered rs) c id ∙ rw (contains-delivered id rs)
