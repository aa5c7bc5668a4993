-- ===== src/Interceptors/Tests.antt =====
-- A run of the interceptors on a concrete request.
use ecommerce_commons.Prelude.{
  ◌&&◌, ℕ, suc, Bool, true, false, pos, second, ◌*◌, lt_int, if◌then◌else◌, ◌≡◌, ◌≢◌,
}
use ecommerce_commons.ServerConfig.{Config}
use ecommerce_commons.Interceptors.{Reply, panic, RequestEnvironment, interceptor_chain}
use ecommerce_commons.Interceptors.Guarded.{reaches, refusal, answered, interceptor_chain_lem}

abbrev guarded : Config
guarded = record {
  port = pos 8080;
  connection = record {
    read_header_timeout = pos 5;
    read_timeout = pos 5;
    write_timeout = pos 5;
    idle_timeout = pos 5;
    max_header_bytes = pos 1024;
  };
  timeout = record { request_timeout = pos (30 * second) };
  rate_limit = record { enabled = false; requests_per_second = pos 100; burst = pos 10 };
  bulkhead = record { enabled = true; max_concurrent = pos 2; timeout = pos second };
}

abbrev punctual : RequestEnvironment
punctual = record { is_valid = true; allowed = false; acquired = true; is_late = false }

-- A handler that counts its calls and panics.
abbrev faulty : ℕ → Reply Bool × ℕ
faulty calls = (panic, suc calls)

interceptor_chain_lem_example :
    ((interceptor_chain guarded punctual faulty (1, 7)).0
      ≡ answered faulty
          (reaches guarded punctual)
          (lt_int (pos 0) (pos (30 * second)) && false)
          (refusal guarded punctual)
          7)
    × ((interceptor_chain guarded punctual faulty (1, 7)).1
        ≡ (if reaches guarded punctual then (1, 8) else (1, 7)))
    × ((interceptor_chain guarded punctual faulty (1, 7)).0 ≢ panic)
interceptor_chain_lem_example = interceptor_chain_lem faulty guarded punctual (1, 7)
