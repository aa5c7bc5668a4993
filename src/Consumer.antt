-- ===== src/Consumer.antt =====
-- pkg/kafka/consumer: what happens to a Kafka record. The children follow the files: `Router`
-- (router.go, handler.go), `Processor` (processor.go), `Results` (result_handler.go), `Dlq`
-- (dlq_handler.go, tracing.go), `Deserializer` (deserializer.go), `Reader` (reader.go). Here is what they share.
pub mod Router
pub mod Processor
pub mod Results
pub mod Dlq
pub mod Deserializer
pub mod Reader
mod Tests
use ecommerce_commons.Prelude.{ℕ, String, Bool, true, false, Option, none, some, List, ℤ}
use ecommerce_commons.GoError.{GoError, is, as_leaf}

-- `[]byte` and `string` hold the same bytes; conversions between them are left out.
abbrev pub Bytes : Type 0
Bytes = String

-- `kgo.RecordHeader`
pub record RecordHeader : Type 0 where
  pub key : String
  pub value : Bytes

-- The fields of `kgo.Record` that the package uses.
pub record KafkaRecord : Type 0 where
  pub topic : String
  pub partition : ℤ
  pub offset : ℤ
  pub key : Bytes
  pub value : Bytes
  pub headers : List RecordHeader

-- The package's own errors: `ErrSkipMessage`, `ErrPermanent`, and a `panicError`.
pub data Failure : Type 0 where
  skip_message permanent : Failure
  panic_error : (panic stack : String) → Failure

abbrev pub Error : Type 0
Error = GoError Failure

abbrev is_skip_leaf : Failure → Bool
is_skip_leaf skip_message = true
is_skip_leaf _ = false

abbrev is_permanent_leaf : Failure → Bool
is_permanent_leaf permanent = true
is_permanent_leaf _ = false

abbrev stack_leaf : Failure → Option String
stack_leaf (panic_error panic stack) = some stack
stack_leaf _ = none

-- `errors.Is(err, ErrSkipMessage)` and `errors.Is(err, ErrPermanent)`
unfoldable pub is_skip : Error → Bool
unfolding is
is_skip e = is is_skip_leaf e

unfoldable pub is_permanent : Error → Bool
unfolding is
is_permanent e = is is_permanent_leaf e

-- `errors.As(err, &pe)`, with the stack that is found
unfoldable pub panic_stack : Error → Option String
unfolding as_leaf
panic_stack e = as_leaf stack_leaf e
