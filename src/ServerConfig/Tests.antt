-- ===== src/ServerConfig/Tests.antt =====
-- A server configuration without any setting, loaded.
use ecommerce_commons.Prelude.{◌*◌, true, false, none, ◌≡◌, refl, pos, second}
use ecommerce_commons.Loader.{Source, failure, load, loaded, finish, verdict}
use ecommerce_commons.ServerConfig.{
  Config, validate, validate_connection, validate_timeout, validate_rate_limit, validate_bulkhead,
  apply_defaults, default_connection, default_rate_limit, default_bulkhead,
}
use ecommerce_commons.ServerConfig.Ranges.{server_config, IsUsable, load-IsUsable}

abbrev empty : Config
empty = record {
  port = pos 0;
  connection = record {
    read_header_timeout = pos 0;
    read_timeout = pos 0;
    write_timeout = pos 0;
    idle_timeout = pos 0;
    max_header_bytes = pos 0;
  };
  timeout = record { request_timeout = pos (30 * second) };
  rate_limit = record { enabled = true; requests_per_second = pos 0; burst = pos 0 };
  bulkhead = record { enabled = false; max_concurrent = pos 0; timeout = pos 0 };
}

abbrev no_source : Source Config
no_source = record { exists = λ key. false; unmarshal = λ key. failure "no such key" }

load-empty : load server_config no_source "server" none empty ≡ loaded (apply_defaults empty)
unfolding load finish verdict validate validate_connection validate_timeout validate_rate_limit
    validate_bulkhead apply_defaults default_connection default_rate_limit default_bulkhead
load-empty = refl

load-IsUsable_example : IsUsable (apply_defaults empty)
load-IsUsable_example = load-IsUsable no_source "server" none empty load-empty
