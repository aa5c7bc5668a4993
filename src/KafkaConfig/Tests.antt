-- ===== src/KafkaConfig/Tests.antt =====
-- A Kafka configuration with one consumer, loaded.
use ecommerce_commons.Prelude.{true, false, none, some, [], ◌∷◌, ◌≡◌, refl, pos, All}
use ecommerce_commons.Loader.{Source, failure, load, loaded, finish, verdict}
use ecommerce_commons.KafkaConfig.{
  ConsumerConfig, Config, apply_defaults, apply_consumer_defaults, default_global, default_each,
  default_consumers, default_producer, blank, first_error, validate, validate_global,
  validate_consumer, validate_consumers, validate_producer,
}
use ecommerce_commons.KafkaConfig.Ranges.{kafka_config, IsUsable, load-consumers}

abbrev orders : ConsumerConfig
orders = record {
  name = "orders";
  topic = "orders";
  group_id = "";
  auto_offset_reset = "earliest";
  enable_dlq = true;
  dlq_topic = "";
  readiness_timeout_seconds = pos 0;
  fail_on_topic_error = false;
  max_retries = none;
  initial_backoff = pos 0;
  max_backoff = pos 0;
  processing_timeout = pos 0;
  channel_buffer_size = pos 0;
  max_poll_records = pos 0;
}

abbrev config : Config
config = record {
  brokers = "localhost:9092";
  consumers_config = record {
    default_group_id = "shop";
    default_auto_offset_reset = "";
    default_max_retries = none;
    default_initial_backoff = pos 0;
    default_max_backoff = pos 0;
    default_processing_timeout = pos 0;
    default_channel_buffer_size = pos 0;
    default_max_poll_records = pos 0;
    consumer_config = orders ∷ [];
  };
  producer_config = record {
    readiness_timeout_seconds = pos 0;
    fail_on_broker_error = false;
    linger = pos 0;
    compression = "";
    delivery_timeout = pos 0;
    max_buffered_records = pos 0;
  };
}

abbrev no_source : Source Config
no_source = record { exists = λ key. false; unmarshal = λ key. failure "no such key" }

load-config :
    load kafka_config no_source "kafka" (some config) config ≡ loaded (apply_defaults config)
unfolding load finish verdict apply_defaults apply_consumer_defaults default_global default_each
    default_consumers default_producer blank first_error validate validate_global validate_consumer
    validate_consumers validate_producer
load-config = refl

load-consumers_example :
    (blank (apply_defaults config).brokers ≡ false)
    × All IsUsable (apply_defaults config).consumers_config.consumer_config
load-consumers_example = load-consumers no_source "kafka" (some config) config load-config

orders-valid : validate_consumer orders ≡ none
unfolding validate_consumer first_error blank
orders-valid = refl
