-- ===== src/ServerConfig.antt =====
-- pkg/http/server/config.go: the HTTP server's configuration, its validation and its defaults.
-- Durations are `ℤ` nanoseconds. An error is the text of its message, without the value it quotes.
pub mod Ranges
mod Tests
use ecommerce_commons.Prelude.{
  ℕ, ◌*◌, ◌+◌, String, Bool, true, false, not, ◌||◌, Option, none, some, ℤ, pos, negsuc, lt_int,
  le_int, eq_int, pos_part, ◌-◌, second, minute, millisecond, if◌then◌else◌, ltb,
}

abbrev pub write_timeout_buffer : ℤ
write_timeout_buffer = pos (5 * second)

abbrev pub max_read_header_timeout : ℤ
max_read_header_timeout = pos minute

abbrev pub max_read_timeout : ℤ
max_read_timeout = pos (5 * minute)

abbrev pub max_idle_timeout : ℤ
max_idle_timeout = pos (10 * minute)

abbrev pub max_request_timeout : ℤ
max_request_timeout = pos (5 * minute)

abbrev pub max_header_bytes_limit : ℤ
max_header_bytes_limit = pos 10485760

abbrev pub max_requests_per_second : ℤ
max_requests_per_second = pos 1000000

abbrev pub max_burst : ℤ
max_burst = pos 100000

abbrev pub max_concurrent_limit : ℤ
max_concurrent_limit = pos 100000

abbrev pub max_bulkhead_timeout : ℤ
max_bulkhead_timeout = pos minute

pub record ConnectionConfig : Type 0 where
  pub read_header_timeout : ℤ
  pub read_timeout : ℤ
  pub write_timeout : ℤ
  pub idle_timeout : ℤ
  pub max_header_bytes : ℤ

pub record TimeoutConfig : Type 0 where
  pub request_timeout : ℤ

pub record RateLimitConfig : Type 0 where
  pub enabled : Bool
  pub requests_per_second : ℤ
  pub burst : ℤ

pub record BulkheadConfig : Type 0 where
  pub enabled : Bool
  pub max_concurrent : ℤ
  pub timeout : ℤ

pub record Config : Type 0 where
  pub port : ℤ
  pub connection : ConnectionConfig
  pub timeout : TimeoutConfig
  pub rate_limit : RateLimitConfig
  pub bulkhead : BulkheadConfig

abbrev negative : ℤ → Bool
negative x = lt_int x (pos 0)

-- `x > y`
abbrev above : ℤ → ℤ → Bool
above x y = lt_int y x

unfoldable pub validate_connection : ConnectionConfig → Option String
validate_connection c =
    if negative c.read_header_timeout
    then some "read-header-timeout cannot be negative"
    else if above c.read_header_timeout max_read_header_timeout
    then some "read-header-timeout cannot exceed"
    else if negative c.read_timeout
    then some "read-timeout cannot be negative"
    else if above c.read_timeout max_read_timeout
    then some "read-timeout cannot exceed"
    else if negative c.idle_timeout
    then some "idle-timeout cannot be negative"
    else if above c.idle_timeout max_idle_timeout
    then some "idle-timeout cannot exceed"
    else if negative c.max_header_bytes
    then some "max-header-bytes cannot be negative"
    else if above c.max_header_bytes max_header_bytes_limit
    then some "max-header-bytes cannot exceed"
    else none

unfoldable pub validate_timeout : TimeoutConfig → Option String
validate_timeout c =
    if negative c.request_timeout
    then some "request-timeout cannot be negative"
    else if above c.request_timeout max_request_timeout
    then some "request-timeout cannot exceed"
    else none

unfoldable pub validate_rate_limit : RateLimitConfig → Option String
validate_rate_limit c =
    if not c.enabled
    then none
    else if negative c.requests_per_second
    then some "requests-per-second cannot be negative"
    else if above c.requests_per_second max_requests_per_second
    then some "requests-per-second cannot exceed"
    else if negative c.burst
    then some "burst cannot be negative"
    else if above c.burst max_burst
    then some "burst cannot exceed"
    else none

unfoldable pub validate_bulkhead : BulkheadConfig → Option String
validate_bulkhead c =
    if not c.enabled
    then none
    else if negative c.max_concurrent
    then some "max-concurrent cannot be negative"
    else if above c.max_concurrent max_concurrent_limit
    then some "max-concurrent cannot exceed"
    else if negative c.timeout
    then some "timeout cannot be negative"
    else if above c.timeout max_bulkhead_timeout
    then some "timeout cannot exceed"
    else none

-- The next check is made if the one before it found nothing.
abbrev pub or_next : Option String → Option String → Option String
or_next none next = next
or_next (some e) next = some e

-- `Validate`
unfoldable pub validate : Config → Option String
validate c =
    if negative c.port || above c.port (pos 65535)
    then some "port must be between 0 and 65535"
    else or_next (validate_connection c.connection) (
        or_next (validate_timeout c.timeout)
          (or_next (validate_rate_limit c.rate_limit) (validate_bulkhead c.bulkhead)))

-- A value that is not positive gives way to the default.
abbrev pub default_if_not_positive : ℤ → ℤ → ℤ
default_if_not_positive d x = if le_int x (pos 0) then d else x

abbrev plus : ℤ → ℕ → ℤ
plus (pos n) k = pos (n + k)
plus (negsuc n) k = if ltb n k then pos (k - n - 1) else negsuc (n - k)

unfoldable pub default_connection : TimeoutConfig → ConnectionConfig → ConnectionConfig
default_connection t c = record {
  read_header_timeout = default_if_not_positive (pos (10 * second)) c.read_header_timeout;
  read_timeout = default_if_not_positive (pos (30 * second)) c.read_timeout;
  write_timeout =
      if lt_int (pos 0) t.request_timeout
      then plus t.request_timeout (pos_part write_timeout_buffer)
      else c.write_timeout;
  idle_timeout = default_if_not_positive (pos (120 * second)) c.idle_timeout;
  max_header_bytes = default_if_not_positive (pos 1048576) c.max_header_bytes;
}

unfoldable pub default_rate_limit : RateLimitConfig → RateLimitConfig
default_rate_limit c = if not c.enabled then c else record c {
  requests_per_second = default_if_not_positive (pos 1000) c.requests_per_second;
  burst = default_if_not_positive (pos 100) c.burst;
}

unfoldable pub default_bulkhead : BulkheadConfig → BulkheadConfig
default_bulkhead c = if not c.enabled then c else record c {
  max_concurrent = default_if_not_positive (pos 500) c.max_concurrent;
  timeout = default_if_not_positive (pos (100 * millisecond)) c.timeout;
}

-- `ApplyDefaults`
unfoldable pub apply_defaults : Config → Config
apply_defaults c = record {
  port = if eq_int c.port (pos 0) then pos 8080 else c.port;
  connection = default_connection c.timeout c.connection;
  timeout = c.timeout;
  rate_limit = default_rate_limit c.rate_limit;
  bulkhead = default_bulkhead c.bulkhead;
}
