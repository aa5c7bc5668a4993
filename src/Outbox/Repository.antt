-- ===== src/Outbox/Repository.antt =====
-- pkg/kafka/outbox/repository.go, model.go and config.go: the outbox collection. MongoDB stands
-- outside: each call is one atomic operation on the list of documents, with the filter, the sort and
-- the update that the source gives it, read as MongoDB documents them. A document that lacks a field
-- has `none` there. Times and durations are milliseconds, as MongoDB keeps them.
pub mod Lease
pub mod Backoff
pub mod Updates
pub mod Sent
pub mod Fetched
pub mod Exclusive
use ecommerce_commons.Prelude.{
  ℕ, suc, ◌+◌, ◌*◌, ◌^◌, min, String, Bool, true, false, ◌&&◌, ◌||◌, Option, none, some, List, [],
  ◌∷◌, ◌++◌, map, ltb, ◌==◌, str_eq, contains, if◌then◌else◌, ℤ, pos, le_int, hour,
}

-- `StatusProcessing`, `StatusSent`
pub data Status : Type 0 where
  processing sent : Status

abbrev pub is_processing : Status → Bool
is_processing processing = true
is_processing sent = false

-- `OutboxEntity`, with the field `confirmations` that only the update writes.
pub record OutboxEntity : Type 0 where
  pub id : String
  pub payload : String
  pub key : String
  pub topic : String
  pub headers : List (String × String)
  pub status : Status
  pub created_at : ℕ
  pub sent_at : Option ℕ
  pub lock_expires_at : Option ℕ
  pub next_attempt_after : Option ℕ
  pub attempts_to_send : ℕ
  pub confirmations : ℕ

abbrev pub Collection : Type 0
Collection = List OutboxEntity

-- `{"$lt": now}`: a field that is missing does not match.
abbrev pub before : Option ℕ → ℕ → Bool
before none now = false
before (some t) now = ltb t now

-- The filter of `FetchAndLock`.
unfoldable pub is_due : ℕ → OutboxEntity → Bool
is_due now d =
    before d.next_attempt_after now && before d.lock_expires_at now && is_processing d.status

-- The sort: by `nextAttemptAfter`, then by `createdAt`; a missing field comes first.
abbrev pub date : Option ℕ → ℕ
date none = 0
date (some t) = suc t

unfoldable pub sorts_before : OutboxEntity → OutboxEntity → Bool
sorts_before d e =
    ltb (date d.next_attempt_after) (date e.next_attempt_after)
    || (date d.next_attempt_after == date e.next_attempt_after && ltb d.created_at e.created_at)

-- The first document in that order, of those that match.
unfoldable pub better : OutboxEntity → Option OutboxEntity → OutboxEntity
better d none = d
better d (some e) = if sorts_before e d then e else d

unfoldable pub select : ℕ → Collection → Option OutboxEntity
select now [] = none
select now (d ∷ ds) =
    let rest = select now ds in if is_due now d then some (better d rest) else rest

-- The update of `FetchAndLock`: a lock of 30 s, and a delay of 30 s doubled for each attempt made
-- before, up to the maximum.
unfoldable pub backoff : ℕ → ℕ → ℕ
backoff max_backoff attempts = min (30000 * 2 ^ attempts) max_backoff

unfoldable pub lock : ℕ → ℕ → OutboxEntity → OutboxEntity
lock max_backoff now d = record d {
  lock_expires_at = some (now + 30000);
  attempts_to_send = d.attempts_to_send + 1;
  next_attempt_after = some (now + backoff max_backoff d.attempts_to_send);
}

-- An update of the document with this `_id`.
unfoldable pub update_one : String → (OutboxEntity → OutboxEntity) → Collection → Collection
update_one id f [] = []
update_one id f (d ∷ ds) = (if str_eq d.id id then f d else d) ∷ update_one id f ds

-- `FetchAndLock`: the document as updated, or `errEntityNotFound`, which is `none`. An error of the
-- database leaves the collection as it is, and is a step of the pipeline.
unfoldable pub fetch_and_lock : ℕ → ℕ → Collection → Option OutboxEntity × Collection
fetch_and_lock max_backoff now c = elim (select now c) [
  | none ↦ (none, c)
  | some d ↦ (some (lock max_backoff now d), update_one d.id (lock max_backoff now) c)
]

unfoldable pub has_id : String → Collection → Bool
has_id id [] = false
has_id id (d ∷ ds) = str_eq d.id id || has_id id ds

-- The document that `Create` inserts.
unfoldable pub new_entity :
    ℕ → String → String → String → String → List (String × String) → OutboxEntity
new_entity now payload id key topic headers = record {
  id = id;
  payload = payload;
  key = key;
  topic = topic;
  headers = headers;
  status = processing;
  created_at = now;
  sent_at = none;
  lock_expires_at = some (now + 10000);
  next_attempt_after = some (now + 10000);
  attempts_to_send = 0;
  confirmations = 0;
}

-- `InsertOne`: `_id` is a unique key, and a second document with it is an error.
unfoldable pub insert_one : OutboxEntity → Collection → Option Collection
insert_one d c = if has_id d.id c then none else some (c ++ d ∷ [])

-- The update of `UpdateAsSentByIDs`
unfoldable pub as_sent : ℕ → OutboxEntity → OutboxEntity
as_sent now d = record d {
  status = sent;
  sent_at = some now;
  lock_expires_at = none;
  next_attempt_after = none;
  confirmations = d.confirmations + 1;
}

-- `UpdateAsSentByIDs`
unfoldable pub update_as_sent : ℕ → List String → Collection → Collection
update_as_sent now ids [] = []
update_as_sent now ids (d ∷ ds) =
    (if contains d.id ids then as_sent now d else d) ∷ update_as_sent now ids ds

-- `Config.ApplyDefaults`, on a duration in nanoseconds: ten hours where none is set.
unfoldable pub apply_defaults : ℤ → ℤ
apply_defaults max_backoff = if le_int max_backoff (pos 0) then pos (10 * hour) else max_backoff
