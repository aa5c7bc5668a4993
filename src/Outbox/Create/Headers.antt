-- ===== src/Outbox/Create/Headers.antt =====
-- What a consumer finds in the headers of a message that went through the outbox.
use ecommerce_commons.Prelude.{
  ℕ, String, false, Option, none, some, List, [], ◌∷◌, ◌≡◌, ◌≢◌, refl, arith, ◌∙◌, subst, lookup,
  lookup-insert, IsMap, insert-IsMap, str_eq, eq_iff, if◌then◌else◌, pos,
}
use ecommerce_commons.Decimal.{decimal}
use ecommerce_commons.Consumer.Router.{Event}
use ecommerce_commons.Consumer.Dlq.{Propagator, to_headers, headers_map}
use ecommerce_commons.Consumer.Dlq.Headers.{lookup-headers_map-to_headers}
use ecommerce_commons.Outbox.Repository.{OutboxEntity, Collection, new_entity}
use ecommerce_commons.Outbox.Create.{
  slug_from_context, with_slug, save_to_headers, context_from_kafka_headers, header_key,
  populate_headers, save_trace_context, Message, Surroundings, stored, entity_headers, store,
  serialized, create, start_kafka_producer_span, send_record,
}

abbrev slug_or : Option String → Option String → Option String
slug_or ctx none = ctx
slug_or ctx (some v) = if str_eq v "" then ctx else some v

context_from-to_headers :
    (ctx : Option String) (m : List (String × String))
    → context_from_kafka_headers ctx (to_headers m) ≡ slug_or ctx (lookup header_key m)
unfolding context_from_kafka_headers to_headers lookup
context_from-to_headers ctx [] = refl
context_from-to_headers ctx ((k, v) ∷ m) = ground (arith, context_from-to_headers ctx m)

populate-IsMap :
    (source event_id : String) (now : ℕ) (event : Event) (m : List (String × String))
    → IsMap m
    → IsMap (populate_headers source event_id now event m)
unfolding populate_headers
populate-IsMap source event_id now event m h =
    insert-IsMap _ _ _ (insert-IsMap _ _ _ (insert-IsMap _ _ _ (insert-IsMap _ _ m h)))

lookup-populate :
    (source event_id : String) (now : ℕ) (event : Event) (m : List (String × String)) (k : String)
    → lookup k (populate_headers source event_id now event m) ≡ (
        if str_eq "timestamp" k
        then some (decimal (pos now))
        else if str_eq "source" k
        then some source
        else if str_eq "event_type" k
        then some event.type_name
        else if str_eq "event_id" k
        then some event_id
        else lookup k m)
unfolding populate_headers
lookup-populate source event_id now event m k = simp lookup-insert

-- The headers under which a message with this slug is stored.
abbrev pub expected : Surroundings → Option String → String → ℕ → Message → String → Option String
expected env slug event_id now msg k =
    if str_eq header_key k
    then slug
    else if str_eq "timestamp" k
    then some (decimal (pos now))
    else if str_eq "source" k
    then some env.source
    else if str_eq "event_type" k
    then some msg.event.type_name
    else if str_eq "event_id" k
    then some event_id
    else lookup k msg.headers

with_slug-IsMap : (o : Option String) (m : List (String × String)) → IsMap m → IsMap (with_slug o m)
unfolding with_slug
with_slug-IsMap none m h = h
with_slug-IsMap (some s) m h = insert-IsMap header_key s m h

entity_headers-IsMap :
    (env : Surroundings) (ctx : Option String) (event_id : String) (now : ℕ) (msg : Message)
    → IsMap msg.headers
    → IsMap (entity_headers env ctx event_id now msg)
unfolding entity_headers save_to_headers save_trace_context
entity_headers-IsMap env ctx event_id now msg h =
    with_slug-IsMap (slug_from_context ctx) _ (
      env.propagator.inject-IsMap _
        (populate-IsMap env.source event_id now msg.event msg.headers h))

lookup-entity_headers :
    (env : Surroundings) (slug : String) (event_id : String) (now : ℕ) (msg : Message) (k : String)
    → IsMap msg.headers
    → slug ≢ ""
    → env.propagator.is_field k ≡ false
    → lookup k (entity_headers env (some slug) event_id now msg)
      ≡ expected env (some slug) event_id now msg k
unfolding entity_headers save_to_headers save_trace_context slug_from_context
lookup-entity_headers env slug event_id now msg k h n f =
    let m = populate_headers env.source event_id now msg.event msg.headers in
    let inner =
      env.propagator.inject_other m k
        (populate-IsMap env.source event_id now msg.event msg.headers h) f
      ∙ lookup-populate env.source event_id now msg.event msg.headers k in
    let nonempty : str_eq slug "" ≡ false = ground (arith, eq_iff slug "") in
    rw nonempty
      (unfold with_slug in lookup-insert header_key k slug (env.propagator.inject m) ∙ rw inner)

-- The fields of a stored document that come from the message.
record IsOf (env : Surroundings) (ctx : Option String) (event_id : String) (now : ℕ) (msg : Message)
    (d : OutboxEntity) : Type 0 where
  headers : d.headers ≡ entity_headers env ctx event_id now msg
  id : d.id ≡ event_id
  key : d.key ≡ msg.key
  topic : d.topic ≡ msg.topic
  payload : env.serialize msg.event ≡ some d.payload

store-eq :
    (d' d : OutboxEntity) (o : Option Collection) {c : Collection}
    → store d' o ≡ stored d c
    → d' ≡ d
unfolding store
store-eq d' d none h = cc
store-eq d' d (some x) h = cc

create-IsOf :
    (env : Surroundings) (ctx : Option String) (event_id : String) (now : ℕ) (msg : Message)
    (c : Collection) {d : OutboxEntity} {c' : Collection}
    → create env ctx event_id now msg c ≡ stored d c'
    → IsOf env ctx event_id now msg d
unfolding create serialized new_entity
create-IsOf env ctx event_id now msg c {d = d} {c' = c'} e = go (env.serialize msg.event) refl e
  where
    go :
        (o : Option String)
        → env.serialize msg.event ≡ o
        → serialized env ctx event_id now msg c o ≡ stored d c'
        → IsOf env ctx event_id now msg d
    go none s g = cc
    go (some payload) s g =
        subst (IsOf env ctx event_id now msg) (store-eq _ d _ g)
          (record { headers = refl; id = refl; key = refl; topic = refl; payload = s })

-- A message that `Create` stores in the context of a tenant is sent as a record with the message's
-- topic and key and the event as serialized, and its document has the new event id. Under each key
-- that neither propagator uses the record's headers show its consumer the tenant's slug, the event's
-- type, that id, the service and the time, or what the message had under any other key; and the
-- consumer's context takes on the slug, if its key is none of the propagators'.
pub create_readable :
    (env : Surroundings) (slug event_id : String) (now : ℕ) (msg : Message) (c : Collection)
    (p : Propagator) (ctx : Option String) (k : String) {d : OutboxEntity} {c' : Collection}
    → IsMap msg.headers
    → slug ≢ ""
    → env.propagator.is_field header_key ≡ false
    → p.is_field header_key ≡ false
    → env.propagator.is_field k ≡ false
    → p.is_field k ≡ false
    → create env (some slug) event_id now msg c ≡ stored d c'
    → let r = send_record p d in
      (r.topic ≡ msg.topic)
      × (r.key ≡ msg.key)
      × (env.serialize msg.event ≡ some r.value)
      × (d.id ≡ event_id)
      × (lookup k (headers_map r.headers) ≡ expected env (some slug) event_id now msg k)
      × (context_from_kafka_headers ctx r.headers ≡ some slug)
unfolding send_record start_kafka_producer_span
create_readable env slug event_id now msg c p ctx k {d = d} maps n f g a b e =
    let made = create-IsOf env (some slug) event_id now msg c e in
    let is_map : IsMap d.headers =
      rw made.headers (entity_headers-IsMap env (some slug) event_id now msg maps) in
    let found : (j : String)
        → env.propagator.is_field j ≡ false
        → p.is_field j ≡ false
        → lookup j (p.inject d.headers) ≡ expected env (some slug) event_id now msg j =
      λ j a b.
        p.inject_other d.headers j is_map b
        ∙ rw made.headers (lookup-entity_headers env slug event_id now msg j maps n a) in
    let nonempty : str_eq slug "" ≡ false = ground (arith, eq_iff slug "") in
    (
      made.topic,
      made.key,
      made.payload,
      made.id,
      lookup-headers_map-to_headers k _ (p.inject-IsMap d.headers is_map) ∙ found k a b,
      context_from-to_headers ctx (p.inject d.headers) ∙ rw (found header_key f g, nonempty),
    )
