-- ===== src/Consumer/Tests.antt =====
-- The consumer on concrete records, with a `Retrier`, a `Propagator` and a `Registry` that obey what
-- is asked of them.
use Prim.Native.String.{◌++◌ as join}
use ecommerce_commons.Prelude.{
  ℕ, zero, suc, ◌+◌, String, true, false, Option, none, some, List, [], ◌∷◌, ◌≡◌, ◌∙◌, refl, pos,
  ◌||◌, str_eq, insert, lookup, lookup-insert, insert-IsMap, IsMap, if◌then◌else◌,
}
use ecommerce_commons.GoError.{leaf, message, is}
use ecommerce_commons.Decimal.{decimal}
use ecommerce_commons.Consumer.{KafkaRecord, Error, permanent, is_skip, is_permanent}
use ecommerce_commons.Consumer.Reader.{Poll, run_reader}
use ecommerce_commons.Consumer.Reader.Forwarded.{polled, run_reader_lem}
use ecommerce_commons.Consumer.Router.{Event, returns, panics, Handler}
use ecommerce_commons.Consumer.Processor.{Attempt, succeeded, gave_up, failed, Retrier}
use ecommerce_commons.Consumer.Processor.Calls.{verdict, panic-IsSettled}
use ecommerce_commons.Consumer.Dlq.{
  Propagator, with_topic, dlq_record, headers_map, headers_map_from,
}
use ecommerce_commons.Consumer.Dlq.Headers.{dlq_record_lem}
use ecommerce_commons.Consumer.Results.{ResultHandler, handle, MessageEnvelope, process_message}
use ecommerce_commons.Consumer.Results.Delivery.{
  commits, productions, dead_letters, dead_letters_for, handle_lem, process_message_settled,
  process_message_exhausts,
}
use ecommerce_commons.Consumer.Deserializer.{decoded, Registry}

module _ {S : Type 0} (ended : S → Option Error) where
  abbrev stopped : Error → S → Option Error → Option Error × S
  stopped e s none = (some e, s)
  stopped e s (some c) = (some c, s)

  abbrev last : Attempt × S → Option Error × S
  last (succeeded, s) = (none, s)
  last (gave_up e, s) = (some e, s)
  last (failed e, s) = stopped e s (ended s)

  abbrev going : (S → Option Error × S) → S → Option Error → Option Error × S
  going again s none = again s
  going again s (some c) = (some c, s)

  abbrev turn : (S → Option Error × S) → Attempt × S → Option Error × S
  turn again (succeeded, s) = (none, s)
  turn again (gave_up e, s) = (some e, s)
  turn again (failed e, s) = going again s (ended s)

  module _ (op : S → Attempt × S) where
    abbrev retry_up_to : ℕ → S → Option Error × S
    retry_up_to zero s = last (op s)
    retry_up_to (suc n) s = turn (retry_up_to n) (op s)

    up_to-success : (n : ℕ) (s : S) {s' : S} → op s ≡ (succeeded, s') → retry_up_to n s ≡ (none, s')
    up_to-success zero s e = rw e
    up_to-success (suc n) s e = rw e

    up_to-permanent :
        (n : ℕ) (s : S) {s' : S} {e : Error}
        → op s ≡ (gave_up e, s')
        → retry_up_to n s ≡ (some e, s')
    up_to-permanent zero s e = rw e
    up_to-permanent (suc n) s e = rw e

    up_to-context_end :
        (n : ℕ) (s : S) {s' : S} {e c : Error}
        → op s ≡ (failed e, s')
        → ended s' ≡ some c
        → retry_up_to n s ≡ (some c, s')
    up_to-context_end zero s e c = rw (e, c)
    up_to-context_end (suc n) s e c = rw (e, c)

retrier : Retrier
retrier = record {
  retry = λ op ended n s. retry_up_to ended op n s;
  on_success = λ op ended n s e. up_to-success ended op n s e;
  on_permanent = λ op ended n s e. up_to-permanent ended op n s e;
  on_context_end = λ op ended n s e c. up_to-context_end ended op n s e c;
  on_exhausted = λ op ended s e c. rw (e, c);
  on_failure = λ op ended n s e c. rw (e, c);
}

-- The world counts the calls.
abbrev created : Event
created = record { type_name = "order.Created"; go_type = "*order.Created"; content = "7" }

abbrev shaky : Handler ℕ
shaky event n = (returns (some (message "no connection")), n + 1)

abbrev panicking : Handler ℕ
panicking event n = (panics "nil map" "main.go:1", n + 1)

abbrev endless : ℕ → Option Error
endless n = none

no_connection :
    (is_skip (message "no connection") || is_permanent (message "no connection")) ≡ false
unfolding is_skip is_permanent is
no_connection = refl

-- A propagator that sets one field.
trace_parent : Propagator
trace_parent = record {
  inject = insert "traceparent" "00-1-2-01";
  is_field = str_eq "traceparent";
  inject-IsMap = insert-IsMap "traceparent" "00-1-2-01";
  inject_other = other;
}
  where
    other :
        (m : List (String × String)) (key : String)
        → IsMap m
        → str_eq "traceparent" key ≡ false
        → lookup key (insert "traceparent" "00-1-2-01" m) ≡ lookup key m
    other m key h n = lookup-insert "traceparent" key "00-1-2-01" m ∙ rw n

abbrev order : KafkaRecord
order = record {
  topic = "orders";
  partition = pos 1;
  offset = pos 42;
  key = "1";
  value = "7";
  headers = record { key = "event_type"; value = "order.Created" } ∷ [];
}

abbrev results : ResultHandler
results = record {
  dlq = with_topic "orders.dlq";
  propagator = trace_parent;
  dlq_answer = none;
  now = "2024-01-01T00:00:00Z";
}

handle_lem_example :
    (commits (handle results (some (leaf permanent)) order) ≡ order ∷ [])
    × (productions (handle results (some (leaf permanent)) order)
        ≡ dead_letters_for results order (some (leaf permanent)))
handle_lem_example = handle_lem results (some (leaf permanent)) order

abbrev envelope : MessageEnvelope
envelope = record { event = created; kafka_record = order }

process_message_settled_example :
    (commits (process_message panicking retrier endless 2 results envelope 0).0 ≡ order ∷ [])
    × (productions (process_message panicking retrier endless 2 results envelope 0).0
        ≡ dead_letters_for results order (verdict (panics "nil map" "main.go:1")))
    × ((process_message panicking retrier endless 2 results envelope 0).1.attempt ≡ 1)
    × ((process_message panicking retrier endless 2 results envelope 0).1.world ≡ 1)
process_message_settled_example =
    process_message_settled panicking retrier endless 2 results envelope 0
      (panic-IsSettled "nil map" "main.go:1")

process_message_exhausts_example :
    (commits (process_message shaky retrier endless 2 results envelope 0).0 ≡ order ∷ [])
    × (productions (process_message shaky retrier endless 2 results envelope 0).0
        ≡ dead_letters results.dlq trace_parent results.now order (message "no connection"))
    × ((process_message shaky retrier endless 2 results envelope 0).1.attempt ≡ 3)
process_message_exhausts_example =
    process_message_exhausts shaky retrier endless 2 results envelope 0 (message "no connection")
      (λ n. refl) no_connection (λ n. refl)

not_a_field : trace_parent.is_field "dlq.original.offset" ≡ false
unfolding trace_parent
not_a_field = refl

dlq_record_lem_example :
    ((dlq_record trace_parent "orders.dlq" order (leaf permanent) "now").topic ≡ "orders.dlq")
    × ((dlq_record trace_parent "orders.dlq" order (leaf permanent) "now").key ≡ "1")
    × ((dlq_record trace_parent "orders.dlq" order (leaf permanent) "now").value ≡ "7")
    × (lookup "dlq.original.offset"
          (headers_map (dlq_record trace_parent "orders.dlq" order (leaf permanent) "now").headers)
        ≡ some (decimal (pos 42)))
dlq_record_lem_example =
    dlq_record_lem trace_parent "orders.dlq" order (leaf permanent) "now" "dlq.original.offset"
      not_a_field

-- A registry with one type, that reads every content.
abbrev registry : Registry
registry = record {
  find_message = λ name. if str_eq name "order.Created" then none else some (message "not found");
  unmarshal = λ name bytes. decoded bytes;
  go_type = λ name. join "*" name;
  quote = λ name. join "\"" (join name "\"");
}

order-type : lookup "event_type" (headers_map order.headers) ≡ some "order.Created"
unfolding headers_map headers_map_from lookup insert
order-type = refl

abbrev polled_record : ℕ → KafkaRecord
polled_record n = record {
  topic = "orders";
  partition = pos 0;
  offset = pos n;
  key = "k";
  value = "v";
  headers = [];
}

abbrev quiet : Poll
quiet = record {
  done_before = false;
  done_after = false;
  errors = [];
  records = polled_record 1 ∷ polled_record 2 ∷ [];
  done = λ n. false;
  prefers_done = λ n. true;
}

run_reader_lem_example : run_reader (quiet ∷ []) ≡ polled (quiet ∷ [])
run_reader_lem_example = run_reader_lem (quiet ∷ []) ((refl, refl, λ n. refl), tt)
