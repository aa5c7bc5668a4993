-- ===== src/Consumer/Dlq/Headers.antt =====
-- What a reader of the dead letter topic finds in the headers.
use ecommerce_commons.Prelude.{
  String, Option, none, some, List, [], ◌∷◌, ◌++◌, insert, ◌≡◌, ◌∙◌, refl, true, false, lookup,
  IsMap, insert-IsMap, lookup-insert, str_eq, if◌then◌else◌, arith, ap, subst, str_eq→≡,
}
use ecommerce_commons.GoError.{error_text}
use ecommerce_commons.Decimal.{decimal}
use ecommerce_commons.Consumer.{RecordHeader, KafkaRecord, Error}
use ecommerce_commons.Consumer.Processor.{failure_text}
use ecommerce_commons.Consumer.Dlq.{
  Propagator, headers_map_from, headers_map, to_headers, inject_context, dlq_headers, dlq_draft,
  dlq_record,
}

headers_map_from-IsMap :
    (hs : List RecordHeader) (m : List (String × String)) → IsMap m → IsMap (headers_map_from m hs)
unfolding headers_map_from
headers_map_from-IsMap [] m h = h
headers_map_from-IsMap (x ∷ hs) m h = headers_map_from-IsMap hs _ (insert-IsMap x.key x.value m h)

headers_map-IsMap : (hs : List RecordHeader) → IsMap (headers_map hs)
unfolding headers_map
headers_map-IsMap hs = headers_map_from-IsMap hs [] tt

headers_map_from-append :
    (hs gs : List RecordHeader) (m : List (String × String))
    → headers_map_from m (hs ++ gs) ≡ headers_map_from (headers_map_from m hs) gs
unfolding headers_map_from
headers_map_from-append [] gs m = refl
headers_map_from-append (h ∷ hs) gs m = headers_map_from-append hs gs (insert h.key h.value m)

or_else : Option String → Option String → Option String
or_else none o = o
or_else (some v) o = some v

absent_at :
    (j k : String) (m : List (String × String))
    → lookup j m ≡ none
    → str_eq j k ≡ true
    → lookup k m ≡ none
absent_at j k m h e = subst (λ i. lookup i m ≡ none) (str_eq→≡ j k e) h

lookup-headers_map_from :
    (k : String) (m acc : List (String × String))
    → IsMap m
    → lookup k (headers_map_from acc (to_headers m)) ≡ or_else (lookup k m) (lookup k acc)
unfolding headers_map_from to_headers lookup or_else
lookup-headers_map_from k [] acc h = refl
lookup-headers_map_from k ((j, v) ∷ m) acc h = ground (
  arith,
  lookup-headers_map_from k m (insert j v acc) h.1,
  lookup-insert j k v acc,
  absent_at j k m h.0,
)

pub lookup-headers_map-to_headers :
    (k : String) (m : List (String × String))
    → IsMap m
    → lookup k (headers_map (to_headers m)) ≡ lookup k m
unfolding headers_map
lookup-headers_map-to_headers k m h =
    lookup-headers_map_from k m [] h ∙ unfold or_else lookup in ground arith

-- A reader of an injected record finds, under every key that is not the propagator's, what was there.
lookup-inject_context :
    (p : Propagator) (r : KafkaRecord) (k : String)
    → p.is_field k ≡ false
    → lookup k (headers_map (inject_context p r).headers) ≡ lookup k (headers_map r.headers)
unfolding inject_context
lookup-inject_context p r k h =
    let m = headers_map-IsMap r.headers in
    lookup-headers_map-to_headers k _ (p.inject-IsMap _ m) ∙ p.inject_other _ k m h

-- The headers that `SendToDLQ` adds win over those of the same key in the record itself.
lookup-dlq_headers :
    (m : List (String × String)) (r : KafkaRecord) (e : Error) (now : String) (k : String)
    → lookup k (headers_map_from m (dlq_headers r e now)) ≡ (
        if str_eq "dlq.timestamp" k
        then some now
        else if str_eq "dlq.error" k
        then some (error_text failure_text e)
        else if str_eq "dlq.original.offset" k
        then some (decimal r.offset)
        else if str_eq "dlq.original.partition" k
        then some (decimal r.partition)
        else if str_eq "dlq.original.topic" k
        then some r.topic
        else lookup k m)
unfolding headers_map_from dlq_headers
lookup-dlq_headers m r e now k = simp lookup-insert

-- The dead letter record carries the key and the value of the record that failed, and a reader finds
-- in its headers, under each key that is not the propagator's: the failed record's topic, partition
-- and offset, the error's text and the time, also where the record had headers of those keys; and
-- under any other key what the failed record had there.
pub dlq_record_lem :
    (p : Propagator) (topic : String) (r : KafkaRecord) (e : Error) (now : String) (k : String)
    → p.is_field k ≡ false
    → let d = dlq_record p topic r e now in
      (d.topic ≡ topic)
      × (d.key ≡ r.key)
      × (d.value ≡ r.value)
      × (lookup k (headers_map d.headers) ≡ (
          if str_eq "dlq.timestamp" k
          then some now
          else if str_eq "dlq.error" k
          then some (error_text failure_text e)
          else if str_eq "dlq.original.offset" k
          then some (decimal r.offset)
          else if str_eq "dlq.original.partition" k
          then some (decimal r.partition)
          else if str_eq "dlq.original.topic" k
          then some r.topic
          else lookup k (headers_map r.headers)))
unfolding dlq_record
dlq_record_lem p topic r e now k h = (
  unfold inject_context dlq_draft in refl,
  unfold inject_context dlq_draft in refl,
  unfold inject_context dlq_draft in refl,
  lookup-inject_context p (dlq_draft topic r e now) k h
      ∙ unfold headers_map dlq_draft in
        ap (lookup k) (headers_map_from-append r.headers (dlq_headers r e now) [])
        ∙ lookup-dlq_headers (headers_map_from [] r.headers) r e now k,
)
