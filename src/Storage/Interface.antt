-- ===== src/Storage/Interface.antt =====
-- The trait `Storage` of src/storage/mod.rs, as the gas pool uses it, and the value that `RedisStorage`
-- gives it. The time at which a call runs is its first argument.
use sui_gas_pool.Prelude.{ℕ, List, Action}
use sui_gas_pool.Types.{ObjectId, GasCoin, ReservationId}
use sui_gas_pool.Storage.Store.{Store}
use sui_gas_pool.Storage.Formats.{Formats}
use sui_gas_pool.Storage.Redis

pub record Storage (S : Type 0) : Type 0 where
  pub reserve_gas_coins : ℕ → ℕ → ℕ → Action S (ReservationId × List GasCoin)
  pub ready_for_execution : ReservationId → Action S (Unit {0})
  pub add_new_coins : List GasCoin → Action S (Unit {0})
  pub expire_coins : ℕ → Action S (List ObjectId)
  pub get_available_coin_count : Action S ℕ

abbrev pub redis : Formats → Storage Store
redis F = record {
  reserve_gas_coins = Redis.reserve_gas_coins F;
  ready_for_execution = Redis.ready_for_execution;
  add_new_coins = Redis.add_new_coins F;
  expire_coins = Redis.expire_coins F;
  get_available_coin_count = Redis.get_available_coin_count;
}
