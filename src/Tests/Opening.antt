-- ===== src/Tests/Opening.antt =====
-- The start of the station, its routes and the benchmark at concrete values.
use sui_gas_pool.Prelude.{
  ℕ, ◌+◌, ◌≡◌, refl, true, false, some, none, List, [], ◌∷◌, ◌++◌, ok, err, Error, arith,
}
use sui_gas_pool.Text.{Text, show}
use sui_gas_pool.Storage.Store.{members_until}
use sui_gas_pool.Storage.Double.{double_exact}
use sui_gas_pool.Storage.Redis.Expire.{due}
use sui_gas_pool.Storage.Connect.{GasPoolStorageConfig, Server}
use sui_gas_pool.Storage.Url.{build_redis_url}
use sui_gas_pool.Storage.Url.Meaning.{scheme, authority, build_redis_url_host}
use sui_gas_pool.Signers.{local, test_signer, get_address, new_signer}
use sui_gas_pool.Station.{
  World, GasStationConfig, default_coin_init_config, default_rpc_port, default_metrics_port,
  default_daily_gas_usage_cap, execute,
}
use sui_gas_pool.Station.Startup.{execute_restarts}
use sui_gas_pool.Rpc.{Texts, ExecuteTxRequest}
use sui_gas_pool.Rpc.Routes.{
  Surroundings, get_health, post_execute_tx, post_debug_health_check, serve_all,
  serve_all_unauthorized,
}
use sui_gas_pool.Benchmarks.{
  reserve_and_execute, Round, BenchmarkStatsPerSecond, report, after_rounds, report_exact,
}
use sui_gas_pool.Tests.{formats, two_coins, store, store-Holds, parts, pool, tx, node}

-- cache and pw
abbrev host : Text
host = b'c' ∷ b'a' ∷ b'c' ∷ b'h' ∷ b'e' ∷ []

abbrev pw : Text
pw = b'p' ∷ b'w' ∷ []

build_redis_url_host_example :
    build_redis_url host true (some pw) (some 6380)
    ≡ scheme true ++ authority (some pw) host ++ b':' ∷ show 6380
build_redis_url_host_example = build_redis_url_host host true (some pw) (some 6380) refl refl refl

abbrev redis_config : GasPoolStorageConfig
redis_config = record { redis_url = host; tls_enabled = false; password = none; port = none }

abbrev config : GasStationConfig
config = record {
  signer_config = local 5;
  rpc_host_ip = host;
  rpc_port = default_rpc_port;
  metrics_port = default_metrics_port;
  gas_pool_config = redis_config;
  fullnode_url = host;
  fullnode_basic_auth = none;
  coin_init_config = some default_coin_init_config;
  daily_gas_usage_cap = default_daily_gas_usage_cap;
  advanced_faucet_mode = false;
}

abbrev server : Server
server = record { open_client = λ url. ok tt; check_health = ok tt; to_integer = λ t. none }

abbrev world : World
world = record {
  signers = record {
    send = λ r. err Error.remote;
    to_bytes = λ t. ok [];
    encode = λ b. b;
    from_str = λ t. ok 70;
    address_of_key = λ k. k + 4;
    sign_with_key = λ k t. 70;
  };
  new_client = λ url auth. ok tt;
  server = server;
  initializer = λ target. record {
    owned = λ threshold. ok [];
    split = λ c cs. ok cs;
    target_init_balance = target;
  };
  parts = λ address faucet. parts;
  empty = λ address faucet. tt;
}

made : new_signer world.signers (local 5) ≡ ok (test_signer (record { keypair = 5 }))
unfolding new_signer
made = refl

-- At 60, before the reservation expires.
none_due : due 60 store ≡ []
unfolding members_until
none_due = rw (double_exact 60 (omega arith)) refl

execute_restarts_example :
    execute formats world 5 50 60 node config store
    ≡ (ok (get_address world.signers (test_signer (record { keypair = 5 }))), store)
execute_restarts_example =
    execute_restarts formats world 5 50 60 node config store two_coins
      (test_signer (record { keypair = 5 })) made refl refl refl refl store-Holds none_due

-- Redis is there but not healthy.
abbrev ill : World
ill = record world { server = record server { check_health = err Error.remote } }

abbrev texts : Texts
texts = record {
  to_string = λ e. 1 ∷ [];
  invalid_token = 2 ∷ [];
  invalid_bytes = 3 ∷ [];
  unknown_error = 4 ∷ [];
}

abbrev secret : ℕ
secret = 2

abbrev around : Surroundings
around = record {
  today = 5;
  now = 60;
  tx_of = λ t. ok tx;
  sig_of = λ t. ok 70;
  before = node;
  after = node;
  health_tx = λ refs n. tx;
  debug = λ e. [];
}

abbrev request : ExecuteTxRequest
request = record { reservation_id = 3; tx_bytes = 8 ∷ []; user_sig = 9 ∷ [] }

serve_all_unauthorized_example :
    serve_all parts texts secret []
      ((around, post_execute_tx 1 request)
        ∷ (around, get_health)
        ∷ (around, post_debug_health_check 0)
        ∷ [])
      pool
    ≡ pool
serve_all_unauthorized_example =
    serve_all_unauthorized parts texts secret []
      ((around, post_execute_tx 1 request)
        ∷ (around, get_health)
        ∷ (around, post_debug_health_check 0)
        ∷ [])
      pool ((λ e. cc), ((λ e. cc), ((λ e. cc), tt)))

abbrev rounds : List Round
rounds =
    record { reserved = true; executed = true; latency = 30 }
    ∷ record { reserved = false; executed = false; latency = 5 }
    ∷ record { reserved = true; executed = true; latency = 10 }
    ∷ []

abbrev zeros : BenchmarkStatsPerSecond
zeros = record { num_requests = 0; total_latency = 0; num_errors = 0 }

report_exact_example : report zeros (after_rounds reserve_and_execute rounds zeros) ≡ ok (3, 1, 20)
report_exact_example =
    report_exact reserve_and_execute rounds zeros (omega arith) (omega arith) (omega arith)
