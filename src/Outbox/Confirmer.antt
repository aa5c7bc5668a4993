-- ===== src/Outbox/Confirmer.antt =====
-- pkg/kafka/outbox/confirmer.go: delivery reports are collected and written back in batches.
pub mod Batches
use ecommerce_commons.Prelude.{
  ℕ, String, Bool, Option, none, some, List, [], ◌∷◌, ◌++◌, length, ◌==◌, if◌then◌else◌,
}
use ecommerce_commons.Outbox.Repository.{Collection, update_as_sent}

-- `ConfirmResult`; the error of the producer is a text.
pub record ConfirmResult : Type 0 where
  pub id : String
  pub err : Option String

-- What the loop of `Run` can wake up for: a report, the ticker, or the end of the context.
pub data Wake : Type 0 where
  report : ConfirmResult → Wake
  tick : Wake

-- The collected results, and the batches that were handed to goroutines, the latest last.
pub record Confirmer : Type 0 where
  pub results : List ConfirmResult
  pub flushed : List (List ConfirmResult)

abbrev pub new_confirmer : Confirmer
new_confirmer = record { results = []; flushed = [] }

-- `flush`
unfoldable pub flush_batch : List ConfirmResult → List (List ConfirmResult) → Confirmer
flush_batch [] flushed = record { results = []; flushed = flushed }
flush_batch (r ∷ rs) flushed = record { results = []; flushed = flushed ++ (r ∷ rs) ∷ [] }

unfoldable pub flush : Confirmer → Confirmer
flush c = flush_batch c.results c.flushed

-- One round of the loop. A batch is full at 100 results.
unfoldable pub wake : Wake → Confirmer → Confirmer
wake (report r) c =
    let c' : Confirmer = record c { results = c.results ++ r ∷ [] } in
    if length c'.results == 100 then flush c' else c'
wake tick c = flush c

unfoldable pub wake_all : List Wake → Confirmer → Confirmer
wake_all [] c = c
wake_all (w ∷ ws) c = wake_all ws (wake w c)

-- `Run`: it ends with the context, and flushes once more.
unfoldable pub run : List Wake → Confirmer
run ws = flush (wake_all ws new_confirmer)

-- The loop of `handleConfirmation`: the ids of what was delivered.
unfoldable pub delivered : List ConfirmResult → List String
delivered [] = []
delivered (r ∷ rs) = elim r.err [ some _ ↦ delivered rs | none ↦ r.id ∷ delivered rs ]

-- The ids of those that an update reached.
unfoldable pub reached : (String → Bool) → List String → List String
reached applied [] = []
reached applied (id ∷ ids) =
    let rest = reached applied ids in if applied id then id ∷ rest else rest

-- `handleConfirmation`, with the database's answer: an update that ends with an error was applied to some
-- of the documents, to none or to all, and the answer is which.
unfoldable pub mark_delivered : ℕ → Option (String → Bool) → List String → Collection → Collection
unfolding reached
mark_delivered now answer [] c = c
mark_delivered now none (id ∷ ids) c = update_as_sent now (id ∷ ids) c
mark_delivered now (some applied) (id ∷ ids) c = update_as_sent now (reached applied (id ∷ ids)) c

unfoldable pub handle_confirmation :
    ℕ → Option (String → Bool) → List ConfirmResult → Collection → Collection
unfolding delivered mark_delivered
handle_confirmation now answer results c = mark_delivered now answer (delivered results) c
