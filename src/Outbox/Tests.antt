-- ===== src/Outbox/Tests.antt =====
-- The outbox on concrete documents.
use ecommerce_commons.Prelude.{
  ℕ, String, true, false, none, some, List, [], ◌∷◌, ◌≡◌, ◌≢◌, refl, arith, All, IsMap, lookup,
  insert, str_ne→≢, str_eq, insert-IsMap, lookup-insert, ◌∙◌, contains, length,
}
use ecommerce_commons.Consumer.Dlq.{Propagator, headers_map}
use ecommerce_commons.Outbox.Repository.{
  processing, sent, OutboxEntity, Collection, is_due, sorts_before, better, select, backoff, lock,
  update_one, fetch_and_lock, has_id, new_entity, insert_one, as_sent, update_as_sent,
}
use ecommerce_commons.Outbox.Repository.Fetched.{leased, IsNext, Replaced, fetch_and_lock_lem}
use ecommerce_commons.Outbox.Repository.Exclusive.{fetch_and_lock_exclusive}
use ecommerce_commons.Outbox.Repository.Updates.{is_sent, IsKeyed}
use ecommerce_commons.Outbox.Repository.Sent.{Op, apply, apply_all, IsOther, sent_final}
use ecommerce_commons.Outbox.Confirmer.{ConfirmResult, report, tick, run, handle_confirmation}
use ecommerce_commons.Outbox.Confirmer.Batches.{concat, IsBatch, run_batches}
use ecommerce_commons.Outbox.Pipeline.{System, start, Step, Reach}
use ecommerce_commons.Outbox.Pipeline.Delivery.{sent_only_acknowledged}
use ecommerce_commons.Outbox.Create.{
  Message, Surroundings, stored, create, serialized, store, entity_headers, send_record,
  context_from_kafka_headers, header_key,
}
use ecommerce_commons.Outbox.Create.Headers.{expected, create_readable}

abbrev first : OutboxEntity
first = record {
  id = "a";
  payload = "created";
  key = "1";
  topic = "orders";
  headers = [];
  status = processing;
  created_at = 0;
  sent_at = none;
  lock_expires_at = some 10000;
  next_attempt_after = some 10000;
  attempts_to_send = 0;
  confirmations = 0;
}

abbrev second : OutboxEntity
second = record first {
  id = "b";
  created_at = 5;
  lock_expires_at = some 10005;
  next_attempt_after = some 10005;
}

abbrev locked : OutboxEntity
locked = record first {
  lock_expires_at = some 50000;
  attempts_to_send = 1;
  next_attempt_after = some 50000;
}

abbrev day : ℕ
day = 86400000

fetch_first : fetch_and_lock day 20000 (first ∷ second ∷ []) ≡ (some locked, locked ∷ second ∷ [])
unfolding fetch_and_lock select is_due better sorts_before lock update_one backoff
fetch_first = refl

first_two-IsKeyed : IsKeyed (first ∷ second ∷ [])
unfolding has_id
first_two-IsKeyed = (refl, (refl, tt))

fetch_and_lock_lem_example :
    (e : OutboxEntity) × IsNext 20000 (first ∷ second ∷ []) e
    × (locked ≡ leased day 20000 e)
    × Replaced e locked (first ∷ second ∷ []) (locked ∷ second ∷ [])
fetch_and_lock_lem_example =
    fetch_and_lock_lem day 20000 (first ∷ second ∷ []) first_two-IsKeyed fetch_first

abbrev second_locked : OutboxEntity
second_locked = record second {
  lock_expires_at = some 50001;
  attempts_to_send = 1;
  next_attempt_after = some 50001;
}

abbrev between : List Op
between = Op.fetch day 10000 ∷ Op.mark_sent 20001 ("c" ∷ []) ∷ []

fetch_second :
    fetch_and_lock day 20001 (apply_all between (locked ∷ second ∷ []))
    ≡ (some second_locked, locked ∷ second_locked ∷ [])
unfolding apply_all apply update_as_sent as_sent fetch_and_lock select is_due better sorts_before
    lock update_one backoff
fetch_second = refl

fetch_and_lock_exclusive_example : second_locked.id ≢ locked.id
fetch_and_lock_exclusive_example =
    fetch_and_lock_exclusive day 20000 day 20001 (first ∷ second ∷ []) between fetch_first
      (omega arith, (tt, tt)) (omega arith) fetch_second

fetch_nothing : fetch_and_lock day 10000 (first ∷ second ∷ []) ≡ (none, first ∷ second ∷ [])
unfolding fetch_and_lock select is_due
fetch_nothing = refl

-- The first document was sent, the second was not.
abbrev half : Collection
half =
    record first {
      status = sent;
      sent_at = some 30000;
      lock_expires_at = none;
      next_attempt_after = none;
      confirmations = 1;
    }
    ∷ second
    ∷ []

abbrev later : List Op
later = Op.fetch day 20000 ∷ []

half-IsKeyed : IsKeyed half
unfolding has_id
half-IsKeyed = (refl, (refl, tt))

abbrev second_again : OutboxEntity
second_again = record second {
  lock_expires_at = some 90001;
  attempts_to_send = 2;
  next_attempt_after = some 120001;
}

abbrev half_later : Collection
half_later =
    record first {
      status = sent;
      sent_at = some 30000;
      lock_expires_at = none;
      next_attempt_after = none;
      confirmations = 1;
    }
    ∷ second_again
    ∷ []

fetch_later : fetch_and_lock day 60001 (apply_all later half) ≡ (some second_again, half_later)
unfolding apply_all apply fetch_and_lock select is_due better sorts_before lock update_one backoff
fetch_later = refl

sent_final_example :
    (is_sent "a" (apply_all later half) ≡ true)
    × IsOther "a" (fetch_and_lock day 60001 (apply_all later half)).0
sent_final_example = sent_final later half "a" day 60001 half-IsKeyed refl

abbrev good : ConfirmResult
good = record { id = "a"; err = none }

abbrev bad : ConfirmResult
bad = record { id = "b"; err = some "timed out" }

run_batches_example :
    (concat (run (report good ∷ tick ∷ tick ∷ report bad ∷ [])).flushed ≡ good ∷ bad ∷ [])
    × All IsBatch (run (report good ∷ tick ∷ tick ∷ report bad ∷ [])).flushed
    × (length (run (report good ∷ tick ∷ tick ∷ report bad ∷ [])).results ≡ 0)
run_batches_example = run_batches (report good ∷ tick ∷ tick ∷ report bad ∷ [])

-- A message that is created, fetched, sent and confirmed.
abbrev created : System
created = record start { collection = first ∷ [] }

abbrev fetched : System
fetched = record created { collection = locked ∷ []; entities = locked ∷ [] }

abbrev delivered : System
delivered = record fetched { entities = []; confirms = good ∷ []; acked = "a" ∷ [] }

abbrev confirmed : System
confirmed = record delivered {
  collection = handle_confirmation 30000 none (good ∷ []) (locked ∷ []);
  confirms = [];
}

inserted : insert_one (new_entity 0 "created" "a" "1" "orders" []) [] ≡ some (first ∷ [])
unfolding insert_one new_entity has_id
inserted = refl

fetch_created : fetch_and_lock day 20000 (first ∷ []) ≡ (some locked, locked ∷ [])
unfolding fetch_and_lock select is_due better lock update_one backoff
fetch_created = refl

way : Reach start confirmed
way =
    Reach.after
      (Reach.after
        (Reach.after
          (Reach.after Reach.here
            (Step.create 0 "created" "a" "1" "orders" [] (first ∷ []) inserted))
          (Step.fetch day 20000 locked (locked ∷ []) fetch_created))
        (Step.send locked [] none refl))
      (Step.confirm [] (good ∷ []) [] 30000 none refl)

is_sent-confirmed : is_sent "a" confirmed.collection ≡ true
unfolding handle_confirmation update_as_sent as_sent
is_sent-confirmed = refl

sent_only_acknowledged_example : contains "a" confirmed.acked ≡ true
sent_only_acknowledged_example = sent_only_acknowledged {s = confirmed} "a" way is_sent-confirmed

-- A propagator that sets one field.
trace_parent : Propagator
trace_parent = record {
  inject = insert "traceparent" "00-1-2-01";
  is_field = str_eq "traceparent";
  inject-IsMap = insert-IsMap "traceparent" "00-1-2-01";
  inject_other = other;
}
  where
    other :
        (m : List (String × String)) (key : String)
        → IsMap m
        → str_eq "traceparent" key ≡ false
        → lookup key (insert "traceparent" "00-1-2-01" m) ≡ lookup key m
    other m key h n = lookup-insert "traceparent" key "00-1-2-01" m ∙ rw n

abbrev order_created : Message
order_created = record {
  event = record { type_name = "order.Created"; go_type = "*order.Created"; content = "7" };
  topic = "orders";
  key = "1";
  headers = [];
}

abbrev shop : Surroundings
shop = record {
  source = "shop";
  propagator = trace_parent;
  serialize = λ event. some event.content;
}

abbrev order_document : OutboxEntity
order_document =
    new_entity 4 "7" "a" "1" "orders" (entity_headers shop (some "acme") "a" 4 order_created)

create_order :
    create shop (some "acme") "a" 4 order_created [] ≡ stored order_document (order_document ∷ [])
unfolding create serialized store insert_one has_id
create_order = refl

not_a_field : trace_parent.is_field header_key ≡ false
unfolding trace_parent
not_a_field = refl

not_a_type_field : trace_parent.is_field "event_type" ≡ false
unfolding trace_parent
not_a_type_field = refl

create_readable_example :
    ((send_record trace_parent order_document).topic ≡ "orders")
    × ((send_record trace_parent order_document).key ≡ "1")
    × (shop.serialize order_created.event ≡ some (send_record trace_parent order_document).value)
    × (order_document.id ≡ "a")
    × (lookup "event_type" (headers_map (send_record trace_parent order_document).headers)
        ≡ expected shop (some "acme") "a" 4 order_created "event_type")
    × (context_from_kafka_headers none (send_record trace_parent order_document).headers
        ≡ some "acme")
create_readable_example =
    create_readable shop "acme" "a" 4 order_created [] trace_parent none "event_type" tt
      (str_ne→≢ "acme" "" refl) not_a_field not_a_field not_a_type_field not_a_type_field
      create_order
