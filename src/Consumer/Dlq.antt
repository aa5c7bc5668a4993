-- ===== src/Consumer/Dlq.antt =====
-- pkg/kafka/consumer/dlq_handler.go, and `InjectContext` of tracing.go: a record that could not be
-- handled goes to the dead letter topic. The OpenTelemetry propagator and the producer's answer are
-- parameters. A Go map is walked in no fixed order; here it is the order of the association list.
pub mod Headers
use ecommerce_commons.Prelude.{
  String, Option, none, some, List, [], ◌∷◌, ◌++◌, map, insert, pos, ◌≡◌, Bool, false, lookup,
  IsMap,
}
use ecommerce_commons.GoError.{error_text}
use ecommerce_commons.Decimal.{decimal}
use ecommerce_commons.Consumer.{Bytes, RecordHeader, KafkaRecord, Error}
use ecommerce_commons.Consumer.Processor.{failure_text}

-- What the package does to the world around it, in order.
pub data Action : Type 0 where
  span_ok span_error : String → Action
  produced : KafkaRecord → Action
  dlq_not_configured : KafkaRecord → Action
  mark_commit : KafkaRecord → Action

-- `propagation.TextMapPropagator.Inject` into a map carrier. It sets only its own fields.
pub record Propagator : Type 0 where
  pub inject : List (String × String) → List (String × String)
  pub is_field : String → Bool
  pub inject-IsMap : (m : List (String × String)) → IsMap m → IsMap (inject m)
  pub inject_other :
      (m : List (String × String)) (key : String)
      → IsMap m
      → is_field key ≡ false
      → lookup key (inject m) ≡ lookup key m

-- The loop that puts headers into a map: a later header of the same key wins.
unfoldable pub headers_map_from :
    List (String × String) → List RecordHeader → List (String × String)
headers_map_from m [] = m
headers_map_from m (h ∷ hs) = headers_map_from (insert h.key h.value m) hs

unfoldable pub headers_map : List RecordHeader → List (String × String)
unfolding headers_map_from
headers_map hs = headers_map_from [] hs

-- The loop that makes headers of a map.
unfoldable pub to_headers : List (String × String) → List RecordHeader
to_headers [] = []
to_headers ((k, v) ∷ m) = record { key = k; value = v } ∷ to_headers m

-- `InjectContext`
unfoldable pub inject_context : Propagator → KafkaRecord → KafkaRecord
unfolding headers_map to_headers
inject_context p r = record r { headers = to_headers (p.inject (headers_map r.headers)) }

abbrev header : String → Bytes → RecordHeader
header k v = record { key = k; value = v }

-- The five headers that `SendToDLQ` adds; `now` is the time in RFC 3339.
unfoldable pub dlq_headers : KafkaRecord → Error → String → List RecordHeader
dlq_headers r e now =
    header "dlq.original.topic" r.topic
    ∷ header "dlq.original.partition" (decimal r.partition)
    ∷ header "dlq.original.offset" (decimal r.offset)
    ∷ header "dlq.error" (error_text failure_text e)
    ∷ header "dlq.timestamp" now
    ∷ []

-- The record that `SendToDLQ` makes, before the trace context goes in.
unfoldable pub dlq_draft : String → KafkaRecord → Error → String → KafkaRecord
unfolding dlq_headers
dlq_draft dlq_topic r e now = record {
  topic = dlq_topic;
  partition = pos 0;
  offset = pos 0;
  key = r.key;
  value = r.value;
  headers = r.headers ++ dlq_headers r e now;
}

unfoldable pub dlq_record : Propagator → String → KafkaRecord → Error → String → KafkaRecord
unfolding inject_context dlq_draft
dlq_record p dlq_topic r e now = inject_context p (dlq_draft dlq_topic r e now)

-- `DLQHandler`: the one with a topic, and the one for a consumer without a dead letter queue.
pub data DlqHandler : Type 0 where
  with_topic : String → DlqHandler
  noop : DlqHandler

-- `SendToDLQ`, with the error that the producer reports. It is logged, and nothing more.
unfoldable pub send_to_dlq :
    Propagator → DlqHandler → Option Error → KafkaRecord → Error → String → List Action
unfolding dlq_record
send_to_dlq p noop answer r e now = dlq_not_configured r ∷ []
send_to_dlq p (with_topic topic) answer r e now =
    produced (dlq_record p topic r e now) ∷ elim answer [
      | some _ ↦ span_error "failed to deliver message to DLQ" ∷ []
      | none ↦ span_ok "message sent to DLQ" ∷ []
    ]
