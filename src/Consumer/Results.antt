-- ===== src/Consumer/Results.antt =====
-- pkg/kafka/consumer/result_handler.go and `processMessage` of processor.go: what follows from the
-- result of a handler. Every record is marked for commit at the end, by `defer`.
pub mod Delivery
use ecommerce_commons.Prelude.{ℕ, String, Option, none, some, List, [], ◌∷◌, ◌++◌, if◌then◌else◌}
use ecommerce_commons.Consumer.{KafkaRecord, Error, is_skip, is_permanent}
use ecommerce_commons.Consumer.Router.{Event, Handler}
use ecommerce_commons.Consumer.Processor.{Retrier, Run, execute_with_retry}
use ecommerce_commons.Consumer.Dlq.{
  Action, span_ok, span_error, mark_commit, Propagator, DlqHandler, send_to_dlq,
}

-- `ResultHandler`, with its dead letter handler and what the producer will answer to it.
pub record ResultHandler : Type 0 where
  pub dlq : DlqHandler
  pub propagator : Propagator
  pub dlq_answer : Option Error
  pub now : String

-- The `switch` of `handle`.
unfoldable pub react : ResultHandler → Option Error → KafkaRecord → List Action
react h none r = span_ok "message processed successfully" ∷ []
react h (some e) r =
    if is_skip e
    then span_ok "message skipped" ∷ []
    else if is_permanent e
    then span_error "permanent error - sending to DLQ"
      ∷ send_to_dlq h.propagator h.dlq h.dlq_answer r e h.now
    else span_error "message processing failed - sending to DLQ"
      ∷ send_to_dlq h.propagator h.dlq h.dlq_answer r e h.now

-- `handle`
unfoldable pub handle : ResultHandler → Option Error → KafkaRecord → List Action
unfolding react
handle h err r = react h err r ++ mark_commit r ∷ []

-- `MessageEnvelope`
pub record MessageEnvelope : Type 0 where
  pub event : Event
  pub kafka_record : KafkaRecord

-- `processMessage`; the handler's world holds the contexts that are taken from the headers.
unfoldable pub process_message :
    {W : Type 0}
    → Handler W
    → Retrier
    → (W → Option Error)
    → ℕ
    → ResultHandler
    → MessageEnvelope
    → W
    → List Action × Run W
unfolding handle
process_message handler retrier ended max h m w =
    let (err, run) = execute_with_retry handler retrier ended max m.event w in
    (handle h err m.kafka_record, run)
