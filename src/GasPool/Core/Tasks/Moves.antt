-- ===== src/GasPool/Core/Tasks/Moves.antt =====
-- The pool on Redis with all its tasks: what may happen next. The code does not compare the payment of
-- a transaction with its reservation, and adds what the node names: the moves are those of clients that
-- pay with coins of their own reservation, and of a node that names coins of the objects that it was
-- asked about, and of a payment for the transaction.
use sui_gas_pool.Prelude.{ℕ, ◌+◌, ◌^◌, ◌<◌, ◌≤◌, ◌≡◌, ◌≢◌, some, List, [], ◌∷◌, ◌++◌, map, ok}
use sui_gas_pool.Types.{ObjectId, GasCoin, coin_id}
use sui_gas_pool.Storage.Store.{Store, incr, lookup}
use sui_gas_pool.Storage.Formats.{Formats}
use sui_gas_pool.Storage.Scripts.Expire.{joined}
use sui_gas_pool.Storage.Redis.{add_new_coins, ready_for_execution, expire_coins}
use sui_gas_pool.Storage.Flow.{count, Sys, HasRoom}
use sui_gas_pool.Locks.Exclusion.{LiveGuards}
use sui_gas_pool.GasPool.Core.{Parts, GasPool, reserve_gas}
use sui_gas_pool.GasPool.Core.Execute.{IsAdmitted}
use sui_gas_pool.GasPool.Core.Once.{on_redis}
use sui_gas_pool.Locks.{payment_ids}
use sui_gas_pool.GasPool.Core.Tasks.Own.{Within}
use sui_gas_pool.GasPool.Core.Tasks.{
  Call, Task, claimed, unlocking, Turn, advance, coins_found, coins_back, asked_about, out_of,
  out_of_all, guards_of, without_all,
}

-- What a task had taken out, has not put back and has no more.
abbrev pub left_by : Task → Task → List ObjectId
left_by t t' = without_all (map coin_id (coins_back t) ++ out_of t') (out_of t)

module _ (F : Formats) (parts : Parts Store) where
  -- `lost` has the objects that were merged into others or that a task did not put back, and `known`
  -- all that were ever added.
  pub record PoolState : Type 0 where
    pub pool : GasPool (on_redis F parts)
    pub tasks : List Task
    pub lost : List ObjectId
    pub known : List ObjectId

  -- The same pool with another store.
  abbrev pub on_store : Store → GasPool (on_redis F parts) → GasPool (on_redis F parts)
  on_store s p = record p { gas_pool_store = s }

  pub data Move (w v : PoolState) : Type 0 where
    -- the initializer adds coins that were never seen
    arrives :
        (coins : List GasCoin)
        → HasRoom w.pool.gas_pool_store coins
        → ((a : ObjectId) → count a (map coin_id coins) + count a w.known ≤ 1)
        → v ≡ record w {
          pool = on_store (add_new_coins F coins w.pool.gas_pool_store).1 w.pool;
          known = map coin_id coins ++ w.known;
        }
        → Move w v
    -- a request reserves gas
    reserves :
        (today now gas_budget duration_ms id : ℕ)
        → 0 < gas_budget
        → gas_budget < 2 ^ 53
        → incr w.pool.gas_pool_store.next_reservation_id ≡ some id
        → v ≡ record w {
          pool = (reserve_gas (on_redis F parts) today now gas_budget duration_ms w.pool).1;
        }
        → Move w v
    -- a request claims its reservation, and pays with coins of it
    claims :
        (call : Call)
        → IsAdmitted (on_redis F parts) call.tx
        → call.objects ≢ []
        → Within (payment_ids call.tx) call.objects
        → lookup call.id w.pool.gas_pool_store.reservations ≡ some (joined F call.objects)
        → v ≡ record w {
          pool = on_store (ready_for_execution call.id w.pool.gas_pool_store).1 w.pool;
          tasks = claimed call ∷ w.tasks;
        }
        → Move w v
    -- the background task finds expired reservations
    expires :
        (now : ℕ) (freed : List ObjectId)
        → (expire_coins F now w.pool.gas_pool_store).0 ≡ ok freed
        → v ≡ record w {
          pool = on_store (expire_coins F now w.pool.gas_pool_store).1 w.pool;
          tasks = unlocking freed ∷ w.tasks;
        }
        → Move w v
    -- a task takes its turn; coins that it finds are of objects that it asks about, and for coins that
    -- it puts back the statistics have room
    advances :
        (env : Turn) (earlier later : List Task) (t : Task)
        → w.tasks ≡ earlier ++ t ∷ later
        → HasRoom w.pool.gas_pool_store (coins_back t)
        → Within (map coin_id (coins_found (on_redis F parts) env t)) (asked_about t)
        → v ≡ record w {
          pool = (advance (on_redis F parts) env t w.pool).1;
          tasks = (advance (on_redis F parts) env t w.pool).0 ∷ earlier ++ later;
          lost = left_by t (advance (on_redis F parts) env t w.pool).0 ++ w.lost;
        }
        → Move w v

  pub data History (w : PoolState) : PoolState → Type 0 where
    here : History w w
    next : {u v : PoolState} → History w u → Move u v → History w v

  -- The life of the coins, as Storage/Flow sees it.
  abbrev pub coins_of : PoolState → Sys
  coins_of w = record {
    store = w.pool.gas_pool_store;
    out = out_of_all w.tasks;
    spent = w.lost;
    known = w.known;
  }

  -- The locks, as Locks/Exclusion sees them.
  abbrev pub locks_of : PoolState → LiveGuards
  locks_of w = record {
    locked = w.pool.object_lock_manager.locked_owned_objects;
    guards = guards_of w.tasks;
  }
