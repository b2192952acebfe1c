-- ===== src/Storage/Connect.antt =====
-- Connecting to the storage: `connect_storage` of src/storage/mod.rs and `RedisStorage::new` of
-- src/storage/redis/mod.rs. Opening a client and the health check are parameters; the result of the
-- AUTH command is only logged.
use sui_gas_pool.Prelude.{ℕ, Bool, Option, Result, Action, lift, ◌>>=◌, pure, unwrap, unwrapped}
use sui_gas_pool.Text.{Text}
use sui_gas_pool.Storage.Store.{Store}
use sui_gas_pool.Storage.Url.{build_redis_url, client_url}
use sui_gas_pool.Storage.Redis.{init_coin_stats_at_startup}

-- `GasPoolStorageConfig::Redis`
pub record GasPoolStorageConfig : Type 0 where
  pub redis_url : Text
  pub tls_enabled : Bool
  pub password : Option Text
  pub port : Option ℕ

pub record Server : Type 0 where
  pub open_client : Text → Result (Unit {0})
  pub check_health : Result (Unit {0})
  pub to_integer : Text → Option ℕ

abbrev pub address_of : GasPoolStorageConfig → Text
address_of c =
    client_url (build_redis_url c.redis_url c.tls_enabled c.password c.port) c.tls_enabled

unfoldable pub connect_storage : Server → GasPoolStorageConfig → Action Store (Unit {0})
connect_storage server config = do
  opened ← lift (unwrap (server.open_client (address_of config)))
  healthy ← lift (unwrap server.check_health)
  stats ← unwrapped (init_coin_stats_at_startup server.to_integer)
  pure tt
