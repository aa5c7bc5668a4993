-- ===== src/Consumer/Deserializer.antt =====
-- pkg/kafka/consumer/deserializer.go and pkg/kafka/kafkaproto/deserializer.go: a record's bytes become
-- an event. The registry of protobuf types and `proto.Unmarshal` are parameters.
pub mod Outcomes
use Prim.Native.String.{◌++◌ as join}
use ecommerce_commons.Prelude.{
  String, Bool, true, false, Option, none, some, List, [], ◌∷◌, lookup, if◌then◌else◌,
}
use ecommerce_commons.GoError.{GoError, message, wrap}
use ecommerce_commons.Consumer.{Bytes, KafkaRecord, Error}
use ecommerce_commons.Consumer.Router.{Event}
use ecommerce_commons.Consumer.Dlq.{Action, Propagator, send_to_dlq, headers_map}
use ecommerce_commons.Consumer.Results.{ResultHandler, MessageEnvelope}

-- `protoregistry.GlobalTypes.FindMessageByName` with its error, and `proto.Unmarshal` into a message
-- of that type, with the content or its error; the name of the Go type of a message; and `%q` of `fmt`.
pub data Decoded (A : Type 0) : Type 0 where
  decoded : A → Decoded A
  invalid : Error → Decoded A

pub record Registry : Type 0 where
  pub find_message : String → Option Error
  pub unmarshal : String → Bytes → Decoded String
  pub go_type : String → String
  pub quote : String → String

abbrev pub missing_type : Error
missing_type = message "missing required header: event_type"

abbrev pub unknown_type : Registry → String → Error → Error
unknown_type g name e = wrap (join "unknown event type " (join (g.quote name) ": ")) e ""

abbrev pub malformed_event : Registry → String → Error → Error
malformed_event g name e = wrap (join "proto unmarshal failed for " (join (g.quote name) ": ")) e ""

-- `Deserialize` after each of its steps.
unfoldable pub unmarshalled : Registry → String → Decoded String → Decoded Event
unmarshalled g name (invalid e) = invalid (malformed_event g name e)
unmarshalled g name (decoded content) =
    decoded (record { type_name = name; go_type = g.go_type name; content = content })

unfoldable pub parse_as : Registry → String → Bytes → Option Error → Decoded Event
unfolding unmarshalled
parse_as g name bytes (some e) = invalid (unknown_type g name e)
parse_as g name bytes none = unmarshalled g name (g.unmarshal name bytes)

unfoldable pub with_type : Registry → Bytes → Option String → Decoded Event
unfolding parse_as
with_type g bytes none = invalid missing_type
with_type g bytes (some name) = parse_as g name bytes (g.find_message name)

-- `protoDeserializer.Deserialize`
unfoldable pub deserialize : Registry → Bytes → List (String × Bytes) → Decoded Event
unfolding with_type
deserialize g bytes headers = with_type g bytes (lookup "event_type" headers)

-- What follows from the result: a dead letter, or the envelope for the next channel. `accepted` says
-- which branch the last `select` takes: the channel's, or that of the context's end.
unfoldable pub forward :
    ResultHandler → Bool → KafkaRecord → Decoded Event → List Action × Option MessageEnvelope
forward h accepted r (invalid e) = (
  send_to_dlq h.propagator h.dlq h.dlq_answer r (wrap "deserialization failed: " e "") h.now,
  none,
)
forward h accepted r (decoded event) =
    ([], if accepted then some (record { event = event; kafka_record = r }) else none)

-- `deserializeAndSend`
unfoldable pub deserialize_and_send :
    Registry → ResultHandler → Bool → KafkaRecord → List Action × Option MessageEnvelope
deserialize_and_send g h accepted r =
    forward h accepted r (deserialize g r.value (headers_map r.headers))
