-- ===== src/KafkaConfig/Ranges.antt =====
-- What a Kafka configuration that was loaded is.
use ecommerce_commons.Prelude.{
  ℕ, ◌*◌, ◌≤◌, String, Bool, true, false, not, ◌&&◌, ◌≡◌, refl, ◌⊎◌, sym, subst, arith, Option,
  none, some, List, [], ◌∷◌, ℤ, pos, ◌≤ℤ◌, ◌<ℤ◌, All, second, minute, millisecond, str_eq,
  if◌then◌else◌,
}
use ecommerce_commons.Loader.{Configurable, Source, load, loaded, load-IsLoaded}
use ecommerce_commons.KafkaConfig.{
  ConsumerConfig, ConsumersConfig, Config, if_zero, if_nil, apply_consumer_defaults, default_global,
  default_each, default_consumers, apply_defaults, blank, first_error, strays, too_many,
  consumer_checks, validate_consumer, or_next, validate_consumers, validate,
}

-- Negative, or within the bounds.
abbrev pub Bounded : ℤ → ℤ → ℤ → Type 0
Bounded lo hi x = (x <ℤ pos 0) ⊎ ((lo ≤ℤ x) × (x ≤ℤ hi))

-- What a consumer may rely on.
pub record IsUsable (c : ConsumerConfig) : Type 0 where
  pub name : blank c.name ≡ false
  pub topic : blank c.topic ≡ false
  pub retries : (n : ℕ) × (c.max_retries ≡ some n) × (n ≤ 99)
  pub initial : Bounded (pos (100 * millisecond)) (pos (30 * second)) c.initial_backoff
  pub longest : Bounded (pos second) (pos (5 * minute)) c.max_backoff
  pub timeout : Bounded (pos second) (pos (10 * minute)) c.processing_timeout
  pub buffer : Bounded (pos 10) (pos 10000) c.channel_buffer_size
  pub records : Bounded (pos 1) (pos 10000) c.max_poll_records
  pub readiness : c.readiness_timeout_seconds ≤ℤ pos 600
  pub other_topic : (c.enable_dlq && not (blank c.dlq_topic) && str_eq c.dlq_topic c.topic) ≡ false

abbrev AllPass : List (Bool × String) → Type 0
AllPass = All (λ c. c.0 ≡ false)

no_errors : (checks : List (Bool × String)) → first_error checks ≡ none → AllPass checks
unfolding first_error
no_errors [] h = tt
no_errors ((true, e) ∷ checks) h = cc
no_errors ((false, e) ∷ checks) h = (refl, no_errors checks h)

first_error-none : (checks : List (Bool × String)) → AllPass checks → first_error checks ≡ none
unfolding first_error
first_error-none [] h = refl
first_error-none ((true, e) ∷ checks) h = cc (h.0)
first_error-none ((false, e) ∷ checks) h = first_error-none checks h.1

strays-Bounded :
    (lo hi d x : ℤ)
    → pos 0 <ℤ lo
    → (d <ℤ pos 0 ⊎ pos 0 <ℤ d)
    → strays lo hi (if_zero d x) ≡ false
    → Bounded lo hi (if_zero d x)
strays-Bounded lo hi d x p n h = ground arith

retries-bounded :
    (d o : Option ℕ)
    → too_many (if_nil (if_nil (some 2) d) o) ≡ false
    → (n : ℕ) × (if_nil (if_nil (some 2) d) o ≡ some n) × (n ≤ 99)
retries-bounded d (some n) h = (n, refl, ground arith)
retries-bounded (some n) none h = (n, refl, ground arith)
retries-bounded none none h = (2, refl, omega arith)

if_zero-nonzero : (d x : ℤ) → pos 0 <ℤ d → (if_zero d x <ℤ pos 0) ⊎ (pos 0 <ℤ if_zero d x)
if_zero-nonzero d x h = ground arith

consumer-IsUsable :
    (g : ConsumersConfig) (c : ConsumerConfig)
    → validate_consumer (apply_consumer_defaults (default_global g) c) ≡ none
    → IsUsable (apply_consumer_defaults (default_global g) c)
unfolding validate_consumer apply_consumer_defaults default_global
consumer-IsUsable g c h =
    let checks : AllPass (consumer_checks (apply_consumer_defaults (default_global g) c)) =
      no_errors (consumer_checks (apply_consumer_defaults (default_global g) c)) h in
    let ready = checks.1.1.1.0 in
    record {
      name = checks.0;
      topic = checks.1.0;
      retries = retries-bounded g.default_max_retries c.max_retries checks.1.1.1.1.0;
      initial =
          strays-Bounded (pos (100 * millisecond)) (pos (30 * second)) _ c.initial_backoff
            (omega arith) (if_zero-nonzero (pos second) g.default_initial_backoff (omega arith))
            checks.1.1.1.1.1.0;
      longest =
          strays-Bounded (pos second) (pos (5 * minute)) _ c.max_backoff (omega arith)
            (if_zero-nonzero (pos (30 * second)) g.default_max_backoff (omega arith))
            checks.1.1.1.1.1.1.0;
      timeout =
          strays-Bounded (pos second) (pos (10 * minute)) _ c.processing_timeout (omega arith)
            (if_zero-nonzero (pos (30 * second)) g.default_processing_timeout (omega arith))
            checks.1.1.1.1.1.1.1.1.0;
      buffer =
          strays-Bounded (pos 10) (pos 10000) _ c.channel_buffer_size (omega arith)
            (if_zero-nonzero (pos 100) g.default_channel_buffer_size (omega arith))
            checks.1.1.1.1.1.1.1.1.1.0;
      records =
          strays-Bounded (pos 1) (pos 10000) _ c.max_poll_records (omega arith)
            (if_zero-nonzero (pos 500) g.default_max_poll_records (omega arith))
            checks.1.1.1.1.1.1.1.1.1.1.0;
      readiness = ground arith;
      other_topic = checks.1.1.1.1.1.1.1.1.1.1.1.0;
    }

or_next-none : (a b : Option String) → or_next a b ≡ none → (a ≡ none) × (b ≡ none)
or_next-none none b h = (refl, h)
or_next-none (some e) b h = cc

passed : (b : Bool) (e : String) → (if b then some e else none) ≡ none → b ≡ false
passed b e h = ground arith

each-IsUsable :
    (g : ConsumersConfig) (cs : List ConsumerConfig)
    → validate_consumers (default_each (default_global g) cs) ≡ none
    → All IsUsable (default_each (default_global g) cs)
unfolding validate_consumers default_each
each-IsUsable g [] h = tt
each-IsUsable g (c ∷ cs) h =
    let (first, rest) = or_next-none _ _ h in (consumer-IsUsable g c first, each-IsUsable g cs rest)

defaulted_fine :
    (c : Config)
    → validate (apply_defaults c) ≡ none
    → (blank (apply_defaults c).brokers ≡ false)
      × All IsUsable (apply_defaults c).consumers_config.consumer_config
unfolding validate apply_defaults default_consumers
defaulted_fine c h =
    let (brokers, rest) = or_next-none _ _ h in
    let (_, others) = or_next-none _ _ rest in
    let (consumers, _) = or_next-none _ _ others in
    (
      passed _ _ brokers,
      each-IsUsable c.consumers_config c.consumers_config.consumer_config consumers,
    )

-- The configuration as the loader uses it.
abbrev pub kafka_config : Configurable Config
kafka_config = record { apply_defaults = apply_defaults; validate = validate }

-- A Kafka configuration that was loaded names its brokers, and each of its consumers has a name and a
-- topic, a number of retries of at most 99, a dead letter topic other than its topic if that is on,
-- a readiness timeout of at most 600 s, and backoffs, a processing timeout, a buffer size and a
-- poll size that are each within their bounds or negative.
pub load-consumers :
    (source : Source Config) (key : String) (override : Option Config) (empty : Config)
    {cfg : Config}
    → load kafka_config source key override empty ≡ loaded cfg
    → (blank cfg.brokers ≡ false) × All IsUsable cfg.consumers_config.consumer_config
load-consumers source key override empty {cfg = cfg} e =
    let l = load-IsLoaded kafka_config source key override empty e in
    subst (λ c. (blank c.brokers ≡ false) × All IsUsable c.consumers_config.consumer_config)
      (sym l.with_defaults) (defaulted_fine l.raw (rw (← l.with_defaults) l.valid))

negative-strays : (lo hi : ℕ) (x : ℤ) → x <ℤ pos 0 → strays (pos lo) (pos hi) x ≡ false
negative-strays lo hi x n = ground arith

-- A consumer that passes validation passes it with a negative processing timeout, too.
negative_timeout_accepted :
    (c : ConsumerConfig) (x : ℤ)
    → x <ℤ pos 0
    → validate_consumer c ≡ none
    → validate_consumer (record c { processing_timeout = x }) ≡ none
unfolding validate_consumer
negative_timeout_accepted c x n h =
    let checks : AllPass (consumer_checks c) = no_errors (consumer_checks c) h in
    let after_order = checks.1.1.1.1.1.1.1.1 in
    let changed : AllPass (consumer_checks (record c { processing_timeout = x })) = (
      checks.0,
      (
        checks.1.0,
        (
          checks.1.1.0,
          (
            checks.1.1.1.0,
            (
              checks.1.1.1.1.0,
              (
                checks.1.1.1.1.1.0,
                (
                  checks.1.1.1.1.1.1.0,
                  (
                    checks.1.1.1.1.1.1.1.0,
                    (negative-strays second (10 * minute) x n, after_order.1),
                  ),
                ),
              ),
            ),
          ),
        ),
      ),
    ) in
    first_error-none (consumer_checks (record c { processing_timeout = x })) changed
