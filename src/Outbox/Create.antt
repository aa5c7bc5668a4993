-- ===== src/Outbox/Create.antt =====
-- pkg/kafka/outbox/outbox.go, trace_propagator.go and `send` of sender.go,
-- pkg/kafka/kafkaproto/header_populator.go, pkg/tenant/messaging.go and context.go: a message becomes
-- a stored document, and later a Kafka record. A context is the tenant slug that it holds, if any; the
-- serializer, the new UUID, the clock and the OpenTelemetry propagator are parameters. A nil map is
-- the empty one.
pub mod Headers
use ecommerce_commons.Prelude.{
  ℕ, String, Bool, Option, none, some, List, [], ◌∷◌, ◌++◌, insert, pos, str_eq, if◌then◌else◌,
}
use ecommerce_commons.Decimal.{decimal}
use ecommerce_commons.Consumer.{KafkaRecord, RecordHeader, Error}
use ecommerce_commons.Consumer.Router.{Event}
use ecommerce_commons.Consumer.Dlq.{Propagator, to_headers}
use ecommerce_commons.Outbox.Repository.{OutboxEntity, Collection, new_entity, insert_one}

-- `SlugFromContext`: the empty slug counts as none.
unfoldable pub slug_from_context : Option String → Option String
slug_from_context none = none
slug_from_context (some slug) = if str_eq slug "" then none else some slug

abbrev pub header_key : String
header_key = "x-tenant-slug"

-- `SaveToHeaders`
unfoldable pub with_slug : Option String → List (String × String) → List (String × String)
with_slug none headers = headers
with_slug (some slug) headers = insert header_key slug headers

unfoldable pub save_to_headers : Option String → List (String × String) → List (String × String)
unfolding slug_from_context with_slug
save_to_headers ctx headers = with_slug (slug_from_context ctx) headers

-- `ContextFromKafkaHeaders`: the first header of that key decides.
unfoldable pub context_from_kafka_headers : Option String → List RecordHeader → Option String
context_from_kafka_headers ctx [] = ctx
context_from_kafka_headers ctx (h ∷ hs) =
    let rest = context_from_kafka_headers ctx hs in
    if str_eq h.key header_key then (if str_eq h.value "" then ctx else some h.value) else rest

-- `PopulateHeaders`, with the UUID that it makes.
unfoldable pub populate_headers :
    String → String → ℕ → Event → List (String × String) → List (String × String)
populate_headers source event_id now event headers = insert "timestamp" (decimal (pos now)) (
    insert "source" source
      (insert "event_type" event.type_name (insert "event_id" event_id headers)))

-- `SaveTraceContext`
unfoldable pub save_trace_context : Propagator → List (String × String) → List (String × String)
save_trace_context p headers = p.inject headers

-- `Message`
pub record Message : Type 0 where
  pub event : Event
  pub topic : String
  pub key : String
  pub headers : List (String × String)

-- What `Create` asks of its surroundings: the service's name, the propagator in this context, the
-- serializer, with its error.
pub record Surroundings : Type 0 where
  pub source : String
  pub propagator : Propagator
  pub serialize : Event → Option String

-- What `Create` does: it fails to serialize or to store, or the document is stored.
pub data Created : Type 0 where
  not_serialized not_stored : Created
  stored : OutboxEntity → Collection → Created

unfoldable pub entity_headers :
    Surroundings → Option String → String → ℕ → Message → List (String × String)
unfolding populate_headers save_trace_context save_to_headers
entity_headers env ctx event_id now msg = save_to_headers ctx (
    save_trace_context env.propagator
      (populate_headers env.source event_id now msg.event msg.headers))

unfoldable pub store : OutboxEntity → Option Collection → Created
store d none = not_stored
store d (some c) = stored d c

-- `Create`; `event_id` is the new UUID.
unfoldable pub serialized :
    Surroundings → Option String → String → ℕ → Message → Collection → Option String → Created
unfolding store entity_headers
serialized env ctx event_id now msg c none = not_serialized
serialized env ctx event_id now msg c (some payload) =
    let d =
      new_entity now payload event_id msg.key msg.topic (entity_headers env ctx event_id now msg) in
    store d (insert_one d c)

unfoldable pub create : Surroundings → Option String → String → ℕ → Message → Collection → Created
unfolding serialized
create env ctx event_id now msg c = serialized env ctx event_id now msg c (env.serialize msg.event)

-- Which branch the `select` of the `SendFunc` takes.
pub data Offer : Type 0 where
  context_done accepted timed_out : Offer

-- The function that `createSendFunc` returns, on the channel, with whether it returns an error.
unfoldable pub send_func :
    OutboxEntity → Offer → List OutboxEntity → List OutboxEntity × Option String
send_func d context_done ch = (ch, some "outbox didn't sent")
send_func d accepted ch = (ch ++ d ∷ [], none)
send_func d timed_out ch = (ch, some "entitiesChan is full")

-- The headers that `StartKafkaProducerSpan` returns.
unfoldable pub start_kafka_producer_span : Propagator → List (String × String) → List RecordHeader
unfolding to_headers
start_kafka_producer_span p headers = to_headers (p.inject headers)

-- The record that `send` gives to the producer.
unfoldable pub send_record : Propagator → OutboxEntity → KafkaRecord
unfolding start_kafka_producer_span
send_record p d = record {
  topic = d.topic;
  partition = pos 0;
  offset = pos 0;
  key = d.key;
  value = d.payload;
  headers = start_kafka_producer_span p d.headers;
}
