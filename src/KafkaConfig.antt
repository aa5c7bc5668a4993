-- ===== src/KafkaConfig.antt =====
-- pkg/kafka/config (types.go, constants.go, defaults.go, validation.go): the Kafka configuration, its
-- defaults and its validation. Durations and `int`s are `ℤ`, a `*uint` is an `Option ℕ`. An error is
-- the text of its message, without the values that it quotes.
pub mod Ranges
mod Tests
use Prim.Native.Char.{Char, code}
use Prim.Native.String.{String, ◌++◌ as join}
use ecommerce_commons.Prelude.{
  ℕ, ◌*◌, Bool, true, false, not, ◌&&◌, ◌||◌, Option, none, some, List, [], ◌∷◌, map, ltb, leb,
  ◌==◌, str_eq, contains, if◌then◌else◌, ℤ, pos, lt_int, eq_int, second, minute, millisecond,
}

pub record ConsumerConfig : Type 0 where
  pub name : String
  pub topic : String
  pub group_id : String
  pub auto_offset_reset : String
  pub enable_dlq : Bool
  pub dlq_topic : String
  pub readiness_timeout_seconds : ℤ
  pub fail_on_topic_error : Bool
  pub max_retries : Option ℕ
  pub initial_backoff : ℤ
  pub max_backoff : ℤ
  pub processing_timeout : ℤ
  pub channel_buffer_size : ℤ
  pub max_poll_records : ℤ

pub record ConsumersConfig : Type 0 where
  pub default_group_id : String
  pub default_auto_offset_reset : String
  pub default_max_retries : Option ℕ
  pub default_initial_backoff : ℤ
  pub default_max_backoff : ℤ
  pub default_processing_timeout : ℤ
  pub default_channel_buffer_size : ℤ
  pub default_max_poll_records : ℤ
  pub consumer_config : List ConsumerConfig

pub record ProducerConfig : Type 0 where
  pub readiness_timeout_seconds : ℤ
  pub fail_on_broker_error : Bool
  pub linger : ℤ
  pub compression : String
  pub delivery_timeout : ℤ
  pub max_buffered_records : ℤ

pub record Config : Type 0 where
  pub brokers : String
  pub consumers_config : ConsumersConfig
  pub producer_config : ProducerConfig

-- `if x == 0 { x = d }`, and the same for a nil pointer and an empty text.
abbrev pub if_zero : ℤ → ℤ → ℤ
if_zero d x = if eq_int x (pos 0) then d else x

abbrev pub if_nil : Option ℕ → Option ℕ → Option ℕ
if_nil d none = d
if_nil d (some n) = some n

abbrev pub if_empty : String → String → String
if_empty d s = if str_eq s "" then d else s

-- `applyConsumerDefaults`
unfoldable pub apply_consumer_defaults : ConsumersConfig → ConsumerConfig → ConsumerConfig
apply_consumer_defaults g c = record c {
  group_id = if_empty g.default_group_id c.group_id;
  auto_offset_reset = if_empty g.default_auto_offset_reset c.auto_offset_reset;
  dlq_topic = if c.enable_dlq && str_eq c.dlq_topic "" then join c.topic ".dlq" else c.dlq_topic;
  readiness_timeout_seconds = if_zero (pos 60) c.readiness_timeout_seconds;
  max_retries = if_nil g.default_max_retries c.max_retries;
  initial_backoff = if_zero g.default_initial_backoff c.initial_backoff;
  max_backoff = if_zero g.default_max_backoff c.max_backoff;
  processing_timeout = if_zero g.default_processing_timeout c.processing_timeout;
  channel_buffer_size = if_zero g.default_channel_buffer_size c.channel_buffer_size;
  max_poll_records = if_zero g.default_max_poll_records c.max_poll_records;
}

-- The part of `ApplyDefaults` for the consumers' own defaults.
unfoldable pub default_global : ConsumersConfig → ConsumersConfig
default_global g = record g {
  default_max_retries = if_nil (some 2) g.default_max_retries;
  default_initial_backoff = if_zero (pos second) g.default_initial_backoff;
  default_max_backoff = if_zero (pos (30 * second)) g.default_max_backoff;
  default_processing_timeout = if_zero (pos (30 * second)) g.default_processing_timeout;
  default_channel_buffer_size = if_zero (pos 100) g.default_channel_buffer_size;
  default_max_poll_records = if_zero (pos 500) g.default_max_poll_records;
}

unfoldable pub default_each : ConsumersConfig → List ConsumerConfig → List ConsumerConfig
default_each g [] = []
default_each g (c ∷ cs) = apply_consumer_defaults g c ∷ default_each g cs

unfoldable pub default_consumers : ConsumersConfig → ConsumersConfig
default_consumers g =
    let g' = default_global g in record g' { consumer_config = default_each g' g.consumer_config }

unfoldable pub default_producer : ProducerConfig → ProducerConfig
default_producer p = record p {
  readiness_timeout_seconds = if_zero (pos 30) p.readiness_timeout_seconds;
  linger = if_zero (pos (5 * millisecond)) p.linger;
  compression = if_empty "none" p.compression;
  delivery_timeout = if_zero (pos (30 * second)) p.delivery_timeout;
  max_buffered_records = if_zero (pos 10000) p.max_buffered_records;
}

-- `ApplyDefaults`
unfoldable pub apply_defaults : Config → Config
apply_defaults c = record c {
  consumers_config = default_consumers c.consumers_config;
  producer_config = default_producer c.producer_config;
}

-- `strings.TrimSpace(s) == ""`: the code points that `unicode.IsSpace` knows, and nothing else.
abbrev pub is_space : Char → Bool
is_space c =
    let n = code c in
    (leb 9 n && leb n 13)
    || n == 32
    || n == 133
    || n == 160
    || n == 5760
    || (leb 8192 n && leb n 8202)
    || n == 8232
    || n == 8233
    || n == 8239
    || n == 8287
    || n == 12288

unfoldable pub blank : String → Bool
blank String.[] = true
blank (String.◌∷◌ c s) = is_space c && blank s

-- A sequence of `if ... { return error }`: the message of the first test that succeeds.
unfoldable pub first_error : List (Bool × String) → Option String
first_error [] = none
first_error ((b, e) ∷ checks) = let rest = first_error checks in if b then some e else rest

-- `x > 0 && (x < lo || x > hi)`
abbrev pub strays : ℤ → ℤ → ℤ → Bool
strays lo hi x = lt_int (pos 0) x && (lt_int x lo || lt_int hi x)

abbrev pub too_many : Option ℕ → Bool
too_many none = false
too_many (some n) = ltb 99 n

-- `validateGlobalConsumerConfig`
unfoldable pub validate_global : ConsumersConfig → Option String
unfolding first_error
validate_global g = first_error (
    (too_many g.default_max_retries, "default max retries must be between")
    ∷ (
      strays (pos (100 * millisecond)) (pos (30 * second)) g.default_initial_backoff,
      "default initial backoff must be between",
    )
    ∷ (
      strays (pos second) (pos (5 * minute)) g.default_max_backoff,
      "default max backoff must be between",
    )
    ∷ (
      lt_int (pos 0) g.default_max_backoff
          && lt_int g.default_max_backoff g.default_initial_backoff,
      "default initial backoff cannot be greater than max backoff",
    )
    ∷ (
      strays (pos second) (pos (10 * minute)) g.default_processing_timeout,
      "default processing timeout must be between",
    )
    ∷ (
      strays (pos 10) (pos 10000) g.default_channel_buffer_size,
      "default channel buffer size must be between",
    )
    ∷ (
      strays (pos 1) (pos 10000) g.default_max_poll_records,
      "default max poll records must be between",
    )
    ∷ [])

-- `validateConsumer`: its tests, in order.
abbrev pub consumer_checks : ConsumerConfig → List (Bool × String)
consumer_checks c =
    (blank c.name, "name cannot be empty")
    ∷ (blank c.topic, "topic cannot be empty")
    ∷ (
      not (contains c.auto_offset_reset ("" ∷ "earliest" ∷ "latest" ∷ [])),
      "auto offset reset must be 'earliest' or 'latest'",
    )
    ∷ (lt_int (pos 600) c.readiness_timeout_seconds, "readiness timeout cannot exceed")
    ∷ (too_many c.max_retries, "max retries must be between")
    ∷ (
      strays (pos (100 * millisecond)) (pos (30 * second)) c.initial_backoff,
      "initial backoff must be between",
    )
    ∷ (strays (pos second) (pos (5 * minute)) c.max_backoff, "max backoff must be between")
    ∷ (
      lt_int (pos 0) c.max_backoff && lt_int c.max_backoff c.initial_backoff,
      "initial backoff cannot be greater than max backoff",
    )
    ∷ (
      strays (pos second) (pos (10 * minute)) c.processing_timeout,
      "processing timeout must be between",
    )
    ∷ (strays (pos 10) (pos 10000) c.channel_buffer_size, "channel buffer size must be between")
    ∷ (strays (pos 1) (pos 10000) c.max_poll_records, "max poll records must be between")
    ∷ (
      c.enable_dlq && not (blank c.dlq_topic) && str_eq c.dlq_topic c.topic,
      "DLQ topic cannot be the same as main topic",
    )
    ∷ []

unfoldable pub validate_consumer : ConsumerConfig → Option String
unfolding first_error
validate_consumer c = first_error (consumer_checks c)

-- The next check is made if the one before it found nothing.
abbrev pub or_next : Option String → Option String → Option String
or_next none next = next
or_next (some e) next = some e

-- `validateIndividualConsumers`
unfoldable pub validate_consumers : List ConsumerConfig → Option String
validate_consumers [] = none
validate_consumers (c ∷ cs) = or_next (validate_consumer c) (validate_consumers cs)

-- `x != 0 && (x < lo || x > hi)`
abbrev pub misses : ℤ → ℤ → ℤ → Bool
misses lo hi x = not (eq_int x (pos 0)) && (lt_int x lo || lt_int hi x)

-- `validateProducerConfig`
unfoldable pub validate_producer : ProducerConfig → Option String
unfolding first_error
validate_producer p = first_error (
    (lt_int (pos 600) p.readiness_timeout_seconds, "producer readiness timeout cannot exceed")
    ∷ (lt_int (pos second) p.linger, "producer linger cannot exceed")
    ∷ (
      not (contains p.compression ("none" ∷ "snappy" ∷ "lz4" ∷ "zstd" ∷ "" ∷ [])),
      "producer compression must be one of",
    )
    ∷ (
      misses (pos second) (pos (5 * minute)) p.delivery_timeout,
      "producer delivery timeout must be between",
    )
    ∷ (
      misses (pos 100) (pos 1000000) p.max_buffered_records,
      "producer max buffered records must be between",
    )
    ∷ [])

-- `Validate`
unfoldable pub validate : Config → Option String
unfolding validate_global validate_consumers validate_producer
validate c = or_next (if blank c.brokers then some "kafka brokers cannot be empty" else none) (
    or_next (validate_global c.consumers_config) (
      or_next (validate_consumers c.consumers_config.consumer_config)
        (validate_producer c.producer_config)))
