-- ===== src/Station/Startup.antt =====
-- What a start finds and leaves.
use sui_gas_pool.Prelude.{
  ℕ, ◌≡◌, refl, true, some, none, Option, inl, inr, ok, err, Error, Result-cases, List, [],
}
use sui_gas_pool.Types.{SuiAddress, GasCoin}
use sui_gas_pool.Storage.Store.{Store}
use sui_gas_pool.Storage.Formats.{Formats}
use sui_gas_pool.Storage.Invariant.{Holds}
use sui_gas_pool.Storage.Connect.{address_of, connect_storage}
use sui_gas_pool.Storage.Redis.{is_initialized}
use sui_gas_pool.Storage.Redis.Expire.{due, expire_coins_idle}
use sui_gas_pool.SuiClient.{FullNode}
use sui_gas_pool.GasPool.Core.{unlock_round}
use sui_gas_pool.Storage.Redis.Startup.{init_coin_stats_at_startup_keeps}
use sui_gas_pool.Initializer.Run.{start, unless_initialized}
use sui_gas_pool.Signers.{TxSigner, new_signer, get_address}
use sui_gas_pool.Signers.Signing.{new_signer_panics}
use sui_gas_pool.Station.{
  World, GasStationConfig, CoinInitConfig, execute, start_initializer, first_round, station,
  new_container,
}

module _ (F : Formats) (world : World) where
  open world use {signers, new_client, server}

  connect_storage-keeps :
      (config : GasStationConfig) (s : Store) (coins : List GasCoin)
      → server.open_client (address_of config.gas_pool_config) ≡ ok tt
      → server.check_health ≡ ok tt
      → Holds F s coins
      → connect_storage server config.gas_pool_config s ≡ (ok tt, s)
  unfolding connect_storage
  connect_storage-keeps config s coins opened healthy holds =
      rw opened (
        rw healthy (rw (init_coin_stats_at_startup_keeps F server.to_integer s coins holds).0 refl))

  start_initializer-keeps :
      (now : ℕ) (config : Option CoinInitConfig) (s : Store)
      → s.initialized ≡ true
      → start_initializer F world now config s ≡ (ok tt, s)
  unfolding start_initializer start unless_initialized is_initialized
  start_initializer-keeps now none s h = refl
  start_initializer-keeps now (some c) s h = rw h refl

  first_round-keeps :
      (today now_ms : ℕ) (node : FullNode) (config : GasStationConfig) (address : SuiAddress)
      (s : Store)
      → due now_ms s ≡ []
      → first_round F world today now_ms node config address s ≡ (ok tt, s)
  unfolding first_round station new_container unlock_round
  first_round-keeps today now_ms node config address s idle =
      rw (expire_coins_idle F now_ms s idle) refl

  -- A start on a store that was initialized before, that holds coins and in which no reservation is
  -- due, with the signer, Redis and the full node there, changes nothing of the store, the first
  -- round of the background task included: the coins and the reservations are those that the
  -- station had when it stopped.
  pub execute_restarts :
      (today now now_ms : ℕ) (node : FullNode) (config : GasStationConfig) (s : Store)
      (coins : List GasCoin) (signer : TxSigner)
      → new_signer signers config.signer_config ≡ ok signer
      → server.open_client (address_of config.gas_pool_config) ≡ ok tt
      → server.check_health ≡ ok tt
      → new_client config.fullnode_url config.fullnode_basic_auth ≡ ok tt
      → s.initialized ≡ true
      → Holds F s coins
      → due now_ms s ≡ []
      → execute F world today now now_ms node config s ≡ (ok (get_address signers signer), s)
  unfolding execute
  execute_restarts today now now_ms node config s coins signer signs opened healthy client before
        holds idle =
      rw signs (
        rw (connect_storage-keeps config s coins opened healthy holds) (
          rw client (
            rw (start_initializer-keeps now config.coin_init_config s before) (
              rw (first_round-keeps today now_ms node config (get_address signers signer) s idle)
                refl))))

  -- Where the signer, Redis or its health check fails, the start panics and has not changed the store.
  pub execute_needs :
      (today now now_ms : ℕ) (node : FullNode) (config : GasStationConfig) (s : Store)
      → ¬ (
          ((signer : TxSigner) × (new_signer signers config.signer_config ≡ ok signer))
          × (server.open_client (address_of config.gas_pool_config) ≡ ok tt)
          × (server.check_health ≡ ok tt))
      → execute F world today now now_ms node config s ≡ (err Error.panic, s)
  unfolding execute connect_storage
  execute_needs today now now_ms node config s missing =
      elim (Result-cases (new_signer signers config.signer_config)) [
        | inr (e, absent) ↦
            rw (absent, new_signer_panics signers config.signer_config e absent) refl
        | inl (address, signer) ↦
            elim (Result-cases (server.open_client (address_of config.gas_pool_config))) [
              | inr (e, closed) ↦ rw signer (rw closed refl)
              | inl (u, opened) ↦ elim (Result-cases server.check_health) [
                | inr (e, refused) ↦ rw signer (rw opened (rw refused refl))
                | inl (u, healthy) ↦ absurd (missing ((address, signer), opened, healthy))
              ]
            ]
      ]
