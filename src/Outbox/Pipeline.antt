-- ===== src/Outbox/Pipeline.antt =====
-- The outbox workers together: pkg/kafka/outbox/fetcher.go, sender.go and confirmer.go, and the
-- channels `entitiesChan` and `confirmChan` between them. A step is one turn of one worker, or of
-- the program that creates a message and asks for its delivery; steps of different workers follow one
-- another in any order. Kafka's answers and the database's failures are chosen by the environment.
pub mod Delivery
use ecommerce_commons.Prelude.{ℕ, String, Bool, Option, none, some, List, [], ◌∷◌, ◌++◌, ◌≡◌}
use ecommerce_commons.Outbox.Repository.{
  OutboxEntity, Collection, new_entity, fetch_and_lock, insert_one,
}
use ecommerce_commons.Outbox.Confirmer.{ConfirmResult, handle_confirmation}

-- `acked` is what Kafka has acknowledged: it is there for the statements, and no worker reads it.
pub record System : Type 0 where
  pub collection : Collection
  pub entities : List OutboxEntity
  pub confirms : List ConfirmResult
  pub acked : List String

abbrev pub start : System
start = record { collection = []; entities = []; confirms = []; acked = [] }

-- The callback that `send` gives to the producer.
abbrev pub callback : OutboxEntity → Option String → ConfirmResult
callback d err = record { id = d.id; err = err }

abbrev pub acknowledge : OutboxEntity → Option String → List String → List String
acknowledge d none acked = d.id ∷ acked
acknowledge d (some e) acked = acked

pub data Step (s : System) : System → Type 0 where
  -- `Outbox.Create`: the document is inserted.
  create :
      (now : ℕ) (payload id key topic : String) (headers : List (String × String)) (c : Collection)
      → insert_one (new_entity now payload id key topic headers) s.collection ≡ some c
      → Step s (record s { collection = c })
  -- The `SendFunc` of a created document puts it into the channel.
  offer : (d : OutboxEntity) → Step s (record s { entities = s.entities ++ d ∷ [] })
  -- `Fetcher.Run`: a document is locked, and put into the channel.
  fetch :
      (max_backoff now : ℕ) (d : OutboxEntity) (c : Collection)
      → fetch_and_lock max_backoff now s.collection ≡ (some d, c)
      → Step s (record s { collection = c; entities = s.entities ++ d ∷ [] })
  -- The same, when the context ends before the channel takes the document.
  fetch_dropped :
      (max_backoff now : ℕ) (d : OutboxEntity) (c : Collection)
      → fetch_and_lock max_backoff now s.collection ≡ (some d, c)
      → Step s (record s { collection = c })
  -- `Sender.send`, and the report of Kafka, which comes with an error or without.
  send :
      (d : OutboxEntity) (rest : List OutboxEntity) (err : Option String)
      → s.entities ≡ d ∷ rest
      → Step s (record s {
        entities = rest;
        confirms = s.confirms ++ callback d err ∷ [];
        acked = acknowledge d err s.acked;
      })
  -- `Confirmer`: a batch of reports is taken (batches are
  -- handled by goroutines of their own, so not in order), and its successes are written back, as far as
  -- the database applies the update.
  confirm :
      (front batch rest : List ConfirmResult) (now : ℕ) (answer : Option (String → Bool))
      → s.confirms ≡ front ++ (batch ++ rest)
      → Step s (record s {
        collection = handle_confirmation now answer batch s.collection;
        confirms = front ++ rest;
      })

pub data Reach (s : System) : System → Type 0 where
  here : Reach s s
  after : {t u : System} → Reach s t → Step t u → Reach s u
