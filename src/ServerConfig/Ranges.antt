-- ===== src/ServerConfig/Ranges.antt =====
-- What a configuration that passed is, with the defaults and without.
use ecommerce_commons.Prelude.{
  ◌*◌, ◌+◌, String, false, ◌≡◌, ◌⊎◌, sym, subst, arith, Option, none, ℤ, pos, ◌≤ℤ◌, ◌<ℤ◌, second,
  minute,
}
use ecommerce_commons.Loader.{Configurable, Source, load, loaded, load-IsLoaded, finish}
use ecommerce_commons.ServerConfig.{
  default_if_not_positive, Config, ConnectionConfig, TimeoutConfig, RateLimitConfig, BulkheadConfig,
  validate, validate_connection, validate_timeout, validate_rate_limit, validate_bulkhead,
  apply_defaults, default_connection, default_rate_limit, default_bulkhead, max_read_header_timeout,
  max_read_timeout, max_idle_timeout, max_request_timeout, max_header_bytes_limit,
  max_requests_per_second, max_burst, max_concurrent_limit, max_bulkhead_timeout,
}

abbrev pub Within : ℤ → ℤ → ℤ → Type 0
Within lo hi x = (lo ≤ℤ x) × (x ≤ℤ hi)

-- The server's settings are usable: each is positive and at most its limit, those of a middleware
-- that is switched on included. Where requests have a timeout, a response has up to 5 s more.
pub record IsUsable (c : Config) : Type 0 where
  pub port : Within (pos 1) (pos 65535) c.port
  pub read_header : Within (pos 1) max_read_header_timeout c.connection.read_header_timeout
  pub read : Within (pos 1) max_read_timeout c.connection.read_timeout
  pub idle : Within (pos 1) max_idle_timeout c.connection.idle_timeout
  pub header_bytes : Within (pos 1) max_header_bytes_limit c.connection.max_header_bytes
  pub request : Within (pos 0) max_request_timeout c.timeout.request_timeout
  pub write :
      (c.timeout.request_timeout ≡ pos 0)
      ⊎ ((c.timeout.request_timeout <ℤ c.connection.write_timeout)
          × Within
              (pos (5 * second + 1))
              (pos (5 * minute + 5 * second))
              c.connection.write_timeout)
  pub rate :
      (c.rate_limit.enabled ≡ false)
      ⊎ (Within (pos 1) max_requests_per_second c.rate_limit.requests_per_second
          × Within (pos 1) max_burst c.rate_limit.burst)
  pub bulkhead :
      (c.bulkhead.enabled ≡ false)
      ⊎ (Within (pos 1) max_concurrent_limit c.bulkhead.max_concurrent
          × Within (pos 1) max_bulkhead_timeout c.bulkhead.timeout)

connection-usable :
    (t : TimeoutConfig) (c : ConnectionConfig)
    → validate_connection (default_connection t c) ≡ none
    → let d = default_connection t c in
      Within (pos 1) max_read_header_timeout d.read_header_timeout
      × Within (pos 1) max_read_timeout d.read_timeout
      × Within (pos 1) max_idle_timeout d.idle_timeout
      × Within (pos 1) max_header_bytes_limit d.max_header_bytes
unfolding validate_connection default_connection
connection-usable t c h = ground arith

write-usable :
    (t : TimeoutConfig) (c : ConnectionConfig)
    → Within (pos 0) max_request_timeout t.request_timeout
    → (t.request_timeout ≡ pos 0)
      ⊎ ((t.request_timeout <ℤ (default_connection t c).write_timeout)
          × Within
              (pos (5 * second + 1))
              (pos (5 * minute + 5 * second))
              (default_connection t c).write_timeout)
unfolding default_connection
write-usable t c h = ground arith

rate-usable :
    (c : RateLimitConfig)
    → validate_rate_limit (default_rate_limit c) ≡ none
    → let d = default_rate_limit c in
      (d.enabled ≡ false)
      ⊎ (Within (pos 1) max_requests_per_second d.requests_per_second
          × Within (pos 1) max_burst d.burst)
unfolding validate_rate_limit default_rate_limit
rate-usable c h = ground arith

bulkhead-usable :
    (c : BulkheadConfig)
    → validate_bulkhead (default_bulkhead c) ≡ none
    → let d = default_bulkhead c in
      (d.enabled ≡ false)
      ⊎ (Within (pos 1) max_concurrent_limit d.max_concurrent
          × Within (pos 1) max_bulkhead_timeout d.timeout)
unfolding validate_bulkhead default_bulkhead
bulkhead-usable c h = ground arith

timeout-usable :
    (c : TimeoutConfig)
    → validate_timeout c ≡ none
    → Within (pos 0) max_request_timeout c.request_timeout
unfolding validate_timeout
timeout-usable c h = ground arith

validated :
    (c : Config)
    → validate c ≡ none
    → (Within (pos 0) (pos 65535) c.port)
      × (validate_connection c.connection ≡ none)
      × (validate_timeout c.timeout ≡ none)
      × (validate_rate_limit c.rate_limit ≡ none)
      × (validate_bulkhead c.bulkhead ≡ none)
unfolding validate
validated c h = ground arith

-- The configuration as the loader uses it.
abbrev pub server_config : Configurable Config
server_config = record { apply_defaults = apply_defaults; validate = validate }

defaulted-IsUsable : (c : Config) → validate (apply_defaults c) ≡ none → IsUsable (apply_defaults c)
unfolding apply_defaults
defaulted-IsUsable c h =
    let (port, conn, time, rate, bulk) = validated (apply_defaults c) h in
    let (a, b, i, m) = connection-usable c.timeout c.connection conn in
    record {
      port = ground arith;
      read_header = a;
      read = b;
      idle = i;
      header_bytes = m;
      request = timeout-usable c.timeout time;
      write = write-usable c.timeout c.connection (timeout-usable c.timeout time);
      rate = rate-usable c.rate_limit rate;
      bulkhead = bulkhead-usable c.bulkhead bulk;
    }

-- A server configuration that was loaded is usable: the port, the timeouts of reading and of idle
-- connections and the header's size are positive and within their limits, and so are the settings of the
-- rate limit and of the bulkhead where these are enabled; the request timeout is at most its limit and may
-- be 0; if it is not, the write timeout is longer, from 5 s to 5 s above that limit.
pub load-IsUsable :
    (source : Source Config) (key : String) (override : Option Config) (empty : Config)
    {cfg : Config}
    → load server_config source key override empty ≡ loaded cfg
    → IsUsable cfg
load-IsUsable source key override empty {cfg = cfg} e =
    let l = load-IsLoaded server_config source key override empty e in
    subst IsUsable (sym l.with_defaults) (defaulted-IsUsable l.raw (rw (← l.with_defaults) l.valid))

negative_is_default :
    (x : ℤ) → x <ℤ pos 0 → default_if_not_positive (pos (30 * second)) x ≡ pos (30 * second)
negative_is_default x h = ground arith

-- A negative read timeout is never reported: the configuration is loaded as one with the default.
negative_read_timeout_loads :
    (c : Config) (x : ℤ)
    → x <ℤ pos 0
    → finish server_config (record c { connection = record c.connection { read_timeout = x } })
      ≡ finish server_config
          (record c { connection = record c.connection { read_timeout = pos (30 * second) } })
unfolding finish apply_defaults default_connection
negative_read_timeout_loads c x h = simp (negative_is_default x h)
