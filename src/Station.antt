-- ===== src/Station.antt =====
-- The start of the station: src/command.rs, with the configuration of src/config.rs and
-- `GasPoolContainer::new` of src/gas_pool/gas_pool_core.rs. The connection to the full node is a
-- parameter, as is what the signer calls.
pub mod Startup
use sui_gas_pool.Prelude.{
  ℕ, ◌++◌, if◌then◌else◌, ◌*◌, ◌/◌, Bool, true, false, Option, none, some, List, [], ◌∷◌, Result,
  ok, err, Error, Action, lift, ◌>>=◌, ◌>>◌, pure, unwrap, ◌≡◌, refl,
}
use sui_gas_pool.Text.{Text}
use sui_gas_pool.Types.{SuiAddress}
use sui_gas_pool.UsageCap.{new}
use sui_gas_pool.Storage.Url.{redis_scheme}
use sui_gas_pool.Storage.Store.{Store}
use sui_gas_pool.Storage.Formats.{Formats}
use sui_gas_pool.Storage.Connect.{GasPoolStorageConfig, Server, connect_storage}
use sui_gas_pool.Initializer.Run
use sui_gas_pool.Initializer.Run.{start}
use sui_gas_pool.Signers.{TxSignerConfig, local, sidecar, Outside, new_signer, get_address}
use sui_gas_pool.GasPool.Core.{Parts, GasPool, mist_per_sui, unlock_round}
use sui_gas_pool.GasPool.Core.Once.{on_redis}
use sui_gas_pool.SuiClient.{FullNode}

abbrev pub default_rpc_port : ℕ
default_rpc_port = 9527

abbrev pub default_metrics_port : ℕ
default_metrics_port = 9184

-- 0.1 SUI
abbrev pub default_init_coin_balance : ℕ
default_init_coin_balance = mist_per_sui / 10

abbrev pub default_coin_pool_refresh_interval_sec : ℕ
default_coin_pool_refresh_interval_sec = 60 * 60 * 24

abbrev pub default_daily_gas_usage_cap : ℕ
default_daily_gas_usage_cap = 1500 * mist_per_sui

pub record CoinInitConfig : Type 0 where
  pub target_init_balance : ℕ
  pub refresh_interval_sec : ℕ

abbrev pub default_coin_init_config : CoinInitConfig
default_coin_init_config = record {
  target_init_balance = default_init_coin_balance;
  refresh_interval_sec = default_coin_pool_refresh_interval_sec;
}

pub record GasStationConfig : Type 0 where
  pub signer_config : TxSignerConfig
  pub rpc_host_ip : Text
  pub rpc_port : ℕ
  pub metrics_port : ℕ
  pub gas_pool_config : GasPoolStorageConfig
  pub fullnode_url : Text
  pub fullnode_basic_auth : Option (Text × Text)
  pub coin_init_config : Option CoinInitConfig
  pub daily_gas_usage_cap : ℕ
  pub advanced_faucet_mode : Bool

-- redis://127.0.0.1
abbrev pub local_redis_url : Text
local_redis_url = redis_scheme ++ b'1' ∷ b'2' ∷ b'7' ∷ b'.' ∷ b'0' ∷ b'.' ∷ b'0' ∷ b'.' ∷ b'1' ∷ []

abbrev pub default_storage_config : GasPoolStorageConfig
default_storage_config = record {
  redis_url = local_redis_url ++ b':' ∷ b'6' ∷ b'3' ∷ b'7' ∷ b'9' ∷ [];
  tls_enabled = false;
  password = none;
  port = none;
}

-- With the key pair that is made up, the address to listen on and the URL of a local full node.
unfoldable pub default_config : ℕ → Text → Text → GasStationConfig
default_config keypair localhost local_fullnode = record {
  signer_config = local keypair;
  rpc_host_ip = localhost;
  rpc_port = default_rpc_port;
  metrics_port = default_metrics_port;
  gas_pool_config = default_storage_config;
  fullnode_url = local_fullnode;
  fullnode_basic_auth = none;
  coin_init_config = some default_coin_init_config;
  daily_gas_usage_cap = default_daily_gas_usage_cap;
  advanced_faucet_mode = false;
}

-- The sample configuration that the tool writes.
unfoldable pub sample_config : Bool → Text → ℕ → Text → Text → GasStationConfig
unfolding default_config
sample_config with_sidecar_signer sidecar_url keypair localhost local_fullnode =
    record (default_config keypair localhost local_fullnode) {
      signer_config = if with_sidecar_signer then sidecar sidecar_url else local keypair;
      gas_pool_config = record default_storage_config { redis_url = local_redis_url };
    }

-- What the start calls outside the station: for the signer, the sidecar and the SDK, and the client
-- of the full node. `initializer` is what a run of the initializer uses, for
-- the target balance of its configuration.
pub record World : Type 1 where
  pub signers : Outside
  pub new_client : Text → Option (Text × Text) → Result (Unit {0})
  pub server : Server
  pub initializer : ℕ → Run.Parts
  pub parts : SuiAddress → Bool → Parts Store
  pub empty : (address : SuiAddress) (faucet : Bool) → (parts address faucet).cache.Content

-- `GasPoolContainer::new` and `GasPool::new`: the cap starts today, and no object is locked.
unfoldable pub new_container :
    {S : Type 0} (parts : Parts S) → parts.cache.Content → ℕ → ℕ → S → GasPool parts
unfolding new
new_container parts empty daily_cap today s = record {
  gas_pool_store = s;
  gas_usage_cap = new daily_cap today;
  object_lock_manager = record { address_owned_cache = empty; locked_owned_objects = [] };
}

module _ (F : Formats) (world : World) where
  open world use {signers, new_client, server, initializer}

  -- The initializer is started if it is configured.
  start_initializer : ℕ → Option CoinInitConfig → Action Store (Unit {0})
  start_initializer now none = pure tt
  start_initializer now (some c) = start F (initializer c.target_init_balance) now

  -- The pool that serves after the start.
  unfoldable pub station :
      (today : ℕ) (config : GasStationConfig) (address : SuiAddress)
      → Store
      → GasPool (on_redis F (world.parts address config.advanced_faucet_mode))
  unfolding new_container
  station today config address s =
      new_container (on_redis F (world.parts address config.advanced_faucet_mode))
        (world.empty address config.advanced_faucet_mode) config.daily_gas_usage_cap today s

  -- The task that `GasPoolContainer::new` spawns: its first round runs at once.
  unfoldable pub first_round :
      ℕ → ℕ → FullNode → GasStationConfig → SuiAddress → Action Store (Unit {0})
  unfolding station
  first_round today now_ms node config address s =
      let (result, p) =
        unlock_round (on_redis F (world.parts address config.advanced_faucet_mode)) node now_ms
          (station today config address s) in
      (result, p.gas_pool_store)

  -- `Command::execute`, up to the server, with the first round of the task that it has spawned: the
  -- address of the sponsor, with the store as the steps leave it. `now` is in seconds.
  unfoldable pub execute : ℕ → ℕ → ℕ → FullNode → GasStationConfig → Action Store SuiAddress
  unfolding start_initializer connect_storage first_round
  execute today now now_ms node config = do
    signer ← lift (new_signer signers config.signer_config)
    connected ← connect_storage server config.gas_pool_config
    client ← lift (unwrap (new_client config.fullnode_url config.fullnode_basic_auth))
    initialized ← start_initializer now config.coin_init_config
    unlocked ← first_round today now_ms node config (get_address signers signer)
    pure (get_address signers signer)
