-- ===== src/Consumer/Results/Delivery.antt =====
-- What becomes of each record: commits and dead letters.
use mathlib.Core.List.{append-nil}
use ecommerce_commons.Prelude.{
  ◌∙◌, ℕ, ◌+◌, String, Bool, true, false, ◌||◌, Option, none, some, List, [], ◌∷◌, ◌++◌,
  if◌then◌else◌, ◌≡◌, refl, arith, ap,
}
use ecommerce_commons.Consumer.{KafkaRecord, Error, is_skip, is_permanent}
use ecommerce_commons.Consumer.Router.{returns, Handler}
use ecommerce_commons.Consumer.Processor.{Retrier, execute_with_retry}
use ecommerce_commons.Consumer.Processor.Calls.{verdict, IsSettled, execute_once, execute_exhausts}
use ecommerce_commons.Consumer.Dlq.{
  Action, span_ok, span_error, produced, dlq_not_configured, mark_commit, Propagator, DlqHandler,
  with_topic, noop, send_to_dlq, dlq_record,
}
use ecommerce_commons.Consumer.Results.{
  ResultHandler, react, handle, MessageEnvelope, process_message,
}

-- The records marked for commit, and the records produced.
abbrev pub commits : List Action → List KafkaRecord
commits [] = []
commits (mark_commit r ∷ l) = r ∷ commits l
commits (span_ok s ∷ l) = commits l
commits (span_error s ∷ l) = commits l
commits (produced r ∷ l) = commits l
commits (dlq_not_configured r ∷ l) = commits l

abbrev pub productions : List Action → List KafkaRecord
productions [] = []
productions (produced r ∷ l) = r ∷ productions l
productions (span_ok s ∷ l) = productions l
productions (span_error s ∷ l) = productions l
productions (mark_commit r ∷ l) = productions l
productions (dlq_not_configured r ∷ l) = productions l

-- What `SendToDLQ` produces: one record, if there is a dead letter topic.
abbrev pub dead_letters : DlqHandler → Propagator → String → KafkaRecord → Error → List KafkaRecord
dead_letters noop p now r e = []
dead_letters (with_topic topic) p now r e = dlq_record p topic r e now ∷ []

-- The dead letters that a result calls for.
abbrev pub dead_letters_for : ResultHandler → KafkaRecord → Option Error → List KafkaRecord
dead_letters_for h r none = []
dead_letters_for h r (some e) = if is_skip e then [] else dead_letters h.dlq h.propagator h.now r e

commits-append : (l l' : List Action) → commits (l ++ l') ≡ commits l ++ commits l'
commits-append [] l' = refl
commits-append (mark_commit r ∷ l) l' = ap (λ x. r ∷ x) (commits-append l l')
commits-append (span_ok s ∷ l) l' = commits-append l l'
commits-append (span_error s ∷ l) l' = commits-append l l'
commits-append (produced r ∷ l) l' = commits-append l l'
commits-append (dlq_not_configured r ∷ l) l' = commits-append l l'

productions-append : (l l' : List Action) → productions (l ++ l') ≡ productions l ++ productions l'
productions-append [] l' = refl
productions-append (produced r ∷ l) l' = ap (λ x. r ∷ x) (productions-append l l')
productions-append (span_ok s ∷ l) l' = productions-append l l'
productions-append (span_error s ∷ l) l' = productions-append l l'
productions-append (mark_commit r ∷ l) l' = productions-append l l'
productions-append (dlq_not_configured r ∷ l) l' = productions-append l l'

-- Sending a dead letter commits nothing, and produces one record if there is a topic.
pub send_to_dlq_lem :
    (p : Propagator) (d : DlqHandler) (answer : Option Error) (r : KafkaRecord) (e : Error)
    (now : String)
    → (commits (send_to_dlq p d answer r e now) ≡ [])
      × (productions (send_to_dlq p d answer r e now) ≡ dead_letters d p now r e)
unfolding send_to_dlq
send_to_dlq_lem p noop answer r e now = (refl, refl)
send_to_dlq_lem p (with_topic topic) none r e now = (refl, refl)
send_to_dlq_lem p (with_topic topic) (some x) r e now = (refl, refl)

react_lem :
    (h : ResultHandler) (err : Option Error) (r : KafkaRecord)
    → (commits (react h err r) ≡ []) × (productions (react h err r) ≡ dead_letters_for h r err)
unfolding react
react_lem h none r = (refl, refl)
react_lem h (some e) r = go (is_skip e) (is_permanent e)
  where
    sent : List Action
    sent = send_to_dlq h.propagator h.dlq h.dlq_answer r e h.now

    facts : (commits sent ≡ []) × (productions sent ≡ dead_letters h.dlq h.propagator h.now r e)
    facts = send_to_dlq_lem h.propagator h.dlq h.dlq_answer r e h.now

    branch : Bool → Bool → List Action
    branch skip fatal =
        if skip
        then span_ok "message skipped" ∷ []
        else if fatal
        then span_error "permanent error - sending to DLQ" ∷ sent
        else span_error "message processing failed - sending to DLQ" ∷ sent

    go :
        (skip fatal : Bool)
        → (commits (branch skip fatal) ≡ [])
          × (productions (branch skip fatal)
              ≡ (if skip then [] else dead_letters h.dlq h.propagator h.now r e))
    go true fatal = (refl, refl)
    go false true = facts
    go false false = facts

-- Whatever the result and whatever the producer answers, `handle` marks the record for commit exactly
-- once; it produces one dead letter, if the result is an error other than a skip and there is a dead
-- letter topic, and nothing otherwise.
pub handle_lem :
    (h : ResultHandler) (err : Option Error) (r : KafkaRecord)
    → (commits (handle h err r) ≡ r ∷ [])
      × (productions (handle h err r) ≡ dead_letters_for h r err)
unfolding handle
handle_lem h err r =
    let (c, p) = react_lem h err r in
    (
      commits-append (react h err r) (mark_commit r ∷ []) ∙ rw c,
      productions-append (react h err r) (mark_commit r ∷ []) ∙ rw p (append-nil _),
    )

module _ {W : Type 0} (handler : Handler W) (retrier : Retrier) (ended : W → Option Error) (max : ℕ)
    (h : ResultHandler) (m : MessageEnvelope) (w : W) where
  -- A message whose first handling settles it (no error, a skip, a permanent error, or a panic) is
  -- handled once and committed once, and its dead letters are those of that verdict: none for success
  -- and for a skip, one for a panic or a permanent error if there is a topic.
  pub process_message_settled :
      IsSettled (verdict (handler m.event w).0)
      → let r = process_message handler retrier ended max h m w in
        (commits r.0 ≡ m.kafka_record ∷ [])
        × (productions r.0 ≡ dead_letters_for h m.kafka_record (verdict (handler m.event w).0))
        × (r.1.attempt ≡ 1)
        × (r.1.world ≡ (handler m.event w).1)
  unfolding process_message
  process_message_settled settled =
      let (err, one, world) = execute_once retrier handler ended max m.event w settled in
      let r = execute_with_retry handler retrier ended max m.event w in
      let (c, p) = handle_lem h r.0 m.kafka_record in
      (c, p ∙ ap (dead_letters_for h m.kafka_record) err, one, world)

  -- A message whose handler always fails with an error `x` that is neither a skip nor permanent, while
  -- the context lasts: `max_retries` + 1 calls, one commit, and one dead letter if there is a topic.
  pub process_message_exhausts :
      (x : Error)
      → ((v : W) → (handler m.event v).0 ≡ returns (some x))
      → (is_skip x || is_permanent x) ≡ false
      → ((v : W) → ended v ≡ none)
      → let r = process_message handler retrier ended max h m w in
        (commits r.0 ≡ m.kafka_record ∷ [])
        × (productions r.0 ≡ dead_letters h.dlq h.propagator h.now m.kafka_record x)
        × (r.1.attempt ≡ max + 1)
  unfolding process_message
  process_message_exhausts x all transient never =
      let (err, calls, logged) =
        execute_exhausts retrier handler ended max m.event x all transient never w in
      let r = execute_with_retry handler retrier ended max m.event w in
      let (c, p) = handle_lem h r.0 m.kafka_record in
      let skip : is_skip x ≡ false = ground arith in
      (c, p ∙ ap (dead_letters_for h m.kafka_record) err ∙ rw skip, calls)
