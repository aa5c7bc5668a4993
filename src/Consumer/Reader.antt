-- ===== src/Consumer/Reader.antt =====
-- pkg/kafka/consumer/reader.go: the loop that polls Kafka and forwards the records. What a poll yields
-- and when the context is done are the environment's choice; the fetch errors are only logged.
pub mod Forwarded
use ecommerce_commons.Prelude.{
  ℕ, suc, Bool, true, false, not, ◌&&◌, List, [], ◌∷◌, ◌++◌, if◌then◌else◌,
}
use ecommerce_commons.Consumer.{KafkaRecord}

-- What is logged of a fetch error, by its cause.
pub data FetchError : Type 0 where
  canceled deadline_exceeded unknown_topic_or_partition other_error : FetchError

pub data Logged : Type 0 where
  throttled_warning plain_error : Logged

unfoldable pub log_errors : List FetchError → List Logged
log_errors [] = []
log_errors (canceled ∷ es) = log_errors es
log_errors (deadline_exceeded ∷ es) = log_errors es
log_errors (unknown_topic_or_partition ∷ es) = throttled_warning ∷ log_errors es
log_errors (other_error ∷ es) = plain_error ∷ log_errors es

-- One turn of the loop: whether the context is done before the poll and after it; the records; and for
-- the n-th of them, whether the context is done when its `select` is decided. A `select` waits until the
-- context is done or the channel has room; if the context is done, `prefers_done n` says that its branch is
-- taken, because the channel has no room or by the choice between two open branches.
pub record Poll : Type 0 where
  pub done_before : Bool
  pub done_after : Bool
  pub errors : List FetchError
  pub records : List KafkaRecord
  pub done : ℕ → Bool
  pub prefers_done : ℕ → Bool

-- The callback of `EachRecord`: the `return` ends the callback for this record, and not the loop.
unfoldable pub each_record : Poll → ℕ → List KafkaRecord → List KafkaRecord
each_record p n [] = []
each_record p n (r ∷ rs) =
    let rest = each_record p (suc n) rs in if p.done n && p.prefers_done n then rest else r ∷ rest

-- `Run`: what is sent into the channel, in order, over these turns.
unfoldable pub run_reader : List Poll → List KafkaRecord
unfolding each_record
run_reader [] = []
run_reader (p ∷ ps) =
    let rest = run_reader ps in
    if p.done_before then [] else if p.done_after then [] else each_record p 0 p.records ++ rest
