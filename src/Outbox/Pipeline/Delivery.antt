-- ===== src/Outbox/Pipeline/Delivery.antt =====
-- When a message is marked as sent, whatever the interleaving of the workers.
use ecommerce_commons.Prelude.{
  ℕ, String, Bool, true, false, not, ◌&&◌, ◌≡◌, refl, arith, ap, Option, none, some, List, [], ◌∷◌,
  ◌++◌, All, All-append, All-map, contains, eq_iff, subst,
}
use ecommerce_commons.Outbox.Repository.{OutboxEntity, is_processing, new_entity}
use ecommerce_commons.Outbox.Repository.Updates.{is_sent, is_sent-fetch, is_sent-insert}
use ecommerce_commons.Outbox.Confirmer.{ConfirmResult}
use ecommerce_commons.Outbox.Confirmer.Batches.{was_delivered, handle_confirmation_sent, is_none}
use ecommerce_commons.Outbox.Pipeline.{
  System, start, callback, acknowledge, Step, create, offer, fetch, fetch_dropped, send, confirm,
  Reach, here, after,
}

-- A report without an error is of a message that Kafka has acknowledged.
abbrev IsTrue : List String → ConfirmResult → Type 0
IsTrue acked r = (is_none r.err && not (contains r.id acked)) ≡ false

record IsSound (s : System) : Type 0 where
  reports : All (IsTrue s.acked) s.confirms
  marks : (id : String) → (is_sent id s.collection && not (contains id s.acked)) ≡ false

IsTrue-acknowledge :
    (d : OutboxEntity) (err : Option String) (acked : List String) (r : ConfirmResult)
    → IsTrue acked r
    → IsTrue (acknowledge d err acked) r
IsTrue-acknowledge d none acked r h = ground arith
IsTrue-acknowledge d (some e) acked r h = h

marks-acknowledge :
    (d : OutboxEntity) (err : Option String) (acked : List String) (id : String) (b : Bool)
    → (b && not (contains id acked)) ≡ false
    → (b && not (contains id (acknowledge d err acked))) ≡ false
marks-acknowledge d none acked id b h = ground arith
marks-acknowledge d (some e) acked id b h = h

callback-IsTrue :
    (d : OutboxEntity) (err : Option String) (acked : List String)
    → IsTrue (acknowledge d err acked) (callback d err)
callback-IsTrue d none acked = ground (arith, eq_iff d.id d.id)
callback-IsTrue d (some e) acked = refl

All-split :
    (P : ConfirmResult → Type 0) (xs ys : List ConfirmResult)
    → All P (xs ++ ys)
    → All P xs × All P ys
All-split P [] ys h = (tt, h)
All-split P (x ∷ xs) ys h = let (hx, hy) = All-split P xs ys h.1 in ((h.0, hx), hy)

was_delivered-acked :
    (acked : List String) (rs : List ConfirmResult) (id : String)
    → All (IsTrue acked) rs
    → (was_delivered id rs && not (contains id acked)) ≡ false
was_delivered-acked acked [] id h = refl
was_delivered-acked acked (r ∷ rs) id h =
    ground (arith, eq_iff id r.id, was_delivered-acked acked rs id h.1)

new-processing :
    (now : ℕ) (p i k t : String) (h : List (String × String))
    → is_processing (new_entity now p i k t h).status ≡ true
unfolding new_entity
new-processing now p i k t h = refl

Step-IsSound : {s t : System} → Step s t → IsSound s → IsSound t
Step-IsSound {s} (create now p i k t hs c e) h = record {
  reports = h.reports;
  marks = λ id.
      rw
        (is_sent-insert (new_entity now p i k t hs) s.collection id (new-processing now p i k t hs)
          e)
        (h.marks id);
}
Step-IsSound (offer d) h = record { reports = h.reports; marks = h.marks }
Step-IsSound {s} (fetch m now d c e) h = record {
  reports = h.reports;
  marks = λ id.
      ground (arith, is_sent-fetch m now s.collection id, ap (λ p. is_sent id p.1) e, h.marks id);
}
Step-IsSound {s} (fetch_dropped m now d c e) h = record {
  reports = h.reports;
  marks = λ id.
      ground (arith, is_sent-fetch m now s.collection id, ap (λ p. is_sent id p.1) e, h.marks id);
}
Step-IsSound {s} (send d rest err e) h = record {
  reports =
      All-append _ s.confirms _
        (All-map (IsTrue s.acked) (IsTrue (acknowledge d err s.acked)) s.confirms
          (IsTrue-acknowledge d err s.acked) h.reports)
        (callback-IsTrue d err s.acked, tt);
  marks = λ id. marks-acknowledge d err s.acked id _ (h.marks id);
}
Step-IsSound {s} (confirm front batch rest now answer e) h =
    let (in_front, others) =
      All-split (IsTrue s.acked) front _ (subst (All (IsTrue s.acked)) e h.reports) in
    let (in_batch, in_rest) = All-split (IsTrue s.acked) batch rest others in
    record {
      reports = All-append (IsTrue s.acked) front rest in_front in_rest;
      marks = λ id. ground (
        arith,
        handle_confirmation_sent now answer batch s.collection id,
        was_delivered-acked s.acked batch id in_batch,
        h.marks id,
      );
    }

Reach-IsSound : {s t : System} → IsSound s → Reach s t → IsSound t
Reach-IsSound h here = h
Reach-IsSound h (after r st) = Step-IsSound st (Reach-IsSound h r)

-- However the workers' steps interleave and whatever Kafka and the database answer, a message is
-- marked as sent only if Kafka has acknowledged it.
pub sent_only_acknowledged :
    {s : System} (id : String)
    → Reach start s
    → is_sent id s.collection ≡ true
    → contains id s.acked ≡ true
sent_only_acknowledged id r h =
    let sound = Reach-IsSound (record { reports = tt; marks = λ _. refl }) r in
    ground (arith, sound.marks id)
