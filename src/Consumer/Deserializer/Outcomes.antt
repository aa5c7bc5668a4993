-- ===== src/Consumer/Deserializer/Outcomes.antt =====
-- What becomes of a record before it reaches a handler.
use ecommerce_commons.Prelude.{String, Bool, true, none, some, [], ◌≡◌, refl, lookup}
use ecommerce_commons.GoError.{wrap}
use ecommerce_commons.Consumer.{KafkaRecord, Error}
use ecommerce_commons.Consumer.Dlq.{headers_map}
use ecommerce_commons.Consumer.Results.{ResultHandler}
use ecommerce_commons.Consumer.Results.Delivery.{
  commits, productions, dead_letters, send_to_dlq_lem,
}
use ecommerce_commons.Consumer.Deserializer.{
  decoded, invalid, Registry, missing_type, unknown_type, malformed_event, deserialize, forward,
  deserialize_and_send,
}

-- A record that cannot be read: no event type among its headers, a type that is not known, or bytes
-- that are not of that type.
pub data IsUnreadable (g : Registry) (r : KafkaRecord) : Type 0 where
  no_type : lookup "event_type" (headers_map r.headers) ≡ none → IsUnreadable g r
  unknown :
      (name : String) (e : Error)
      → lookup "event_type" (headers_map r.headers) ≡ some name
      → g.find_message name ≡ some e
      → IsUnreadable g r
  malformed :
      (name : String) (e : Error)
      → lookup "event_type" (headers_map r.headers) ≡ some name
      → g.find_message name ≡ none
      → g.unmarshal name r.value ≡ invalid e
      → IsUnreadable g r

unreadable :
    (g : Registry) (r : KafkaRecord)
    → IsUnreadable g r
    → (e : Error) × (deserialize g r.value (headers_map r.headers) ≡ invalid e)
unfolding deserialize
unreadable g r (no_type h) = (missing_type, rw h)
unreadable g r (unknown name e h k) = (unknown_type g name e, rw (h, k))
unreadable g r (malformed name e h k u) = (malformed_event g name e, rw (h, k, u))

-- A record that cannot be read reaches no handler. It becomes one dead letter, if there is a topic,
-- and it is never marked for commit.
unreadable_uncommitted :
    (g : Registry) (h : ResultHandler) (accepted : Bool) (r : KafkaRecord)
    → IsUnreadable g r
    → let (actions, envelope) = deserialize_and_send g h accepted r in
      (envelope ≡ none)
      × (commits actions ≡ [])
      × ((e : Error) × (productions actions ≡ dead_letters h.dlq h.propagator h.now r e))
unfolding forward deserialize_and_send
unreadable_uncommitted g h accepted r u =
    let (e, bad) = unreadable g r u in
    let e' = wrap "deserialization failed: " e "" in
    let (c, p) = send_to_dlq_lem h.propagator h.dlq h.dlq_answer r e' h.now in
    rw bad (refl, c, (e', p))

deserialize-readable :
    (g : Registry) (r : KafkaRecord) (name content : String)
    → lookup "event_type" (headers_map r.headers) ≡ some name
    → g.find_message name ≡ none
    → g.unmarshal name r.value ≡ decoded content
    → deserialize g r.value (headers_map r.headers)
      ≡ decoded (record { type_name = name; go_type = g.go_type name; content = content })
unfolding deserialize
deserialize-readable g r name content t k u = rw (t, k, u)

-- A record that can be read goes on unchanged, with its event, and nothing else is done, if the
-- next channel takes it.
readable_forwarded :
    (g : Registry) (h : ResultHandler) (r : KafkaRecord) (name content : String)
    → lookup "event_type" (headers_map r.headers) ≡ some name
    → g.find_message name ≡ none
    → g.unmarshal name r.value ≡ decoded content
    → deserialize_and_send g h true r ≡ (
      [],
      some (record {
        event = record { type_name = name; go_type = g.go_type name; content = content };
        kafka_record = r;
      }),
    )
unfolding forward deserialize_and_send
readable_forwarded g h r name content t k u = rw (deserialize-readable g r name content t k u)
