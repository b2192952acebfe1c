-- ===== src/Storage/Flow/Invariant.antt =====
-- The invariant of the steps.
use sui_gas_pool.Prelude.{◌+◌, ◌≤◌, ◌≡◌, List, map}
use sui_gas_pool.Types.{ObjectId, GasCoin, coin_id}
use sui_gas_pool.Storage.Formats.{Formats}
use sui_gas_pool.Storage.Invariant.{Holds}
use sui_gas_pool.Storage.Reserved.{Reservations, objects}
use sui_gas_pool.Storage.Redis.Expire.{Tracks}
use sui_gas_pool.Storage.Flow.{count, Sys}

-- The store holds coins and keeps reservations; the objects of the coins, of the reservations, those
-- that are out and those that are spent are together the objects that were ever added, each as often,
-- and none was added twice.
pub record IsSound (F : Formats) (s : Sys) : Type 0 where
  pub coins : List GasCoin
  pub reserved : Reservations
  pub holds : Holds F s.store coins
  pub tracks : Tracks F s.store reserved
  pub balanced :
      (a : ObjectId)
      → count a (map coin_id coins) + count a (objects reserved) + count a s.out + count a s.spent
        ≡ count a s.known
  pub single : (a : ObjectId) → count a s.known ≤ 1
