-- ===== src/Tests/Running.antt =====
-- The pool, the HTTP interface and the initializer at concrete values.
use sui_gas_pool.Prelude.{◌≡◌, refl, some, [], ◌∷◌, ◌++◌, ok, err, Error, arith, contains}
use sui_gas_pool.Prelude.Int.{unsigned, wrap_i64, signed, ◌-ℤ◌}
use sui_gas_pool.Sui.{TransactionData}
use sui_gas_pool.Storage.Store.{lookup, erase}
use sui_gas_pool.Storage.Invariant.{Holds}
use sui_gas_pool.Storage.Redis.{ready_for_execution}
use sui_gas_pool.Storage.Scripts.{ready_script}
use sui_gas_pool.GasPool.Validity.{check_transaction_validity, collect_args, uses_gas}
use sui_gas_pool.Locks.{
  try_acquire_locks, get_imm_or_owned_non_gas_objects, keep_owned, lock_objects, any_locked,
  filter_owned_objects, from_cache, set_version, ask, from_answer, version_of, is_address_owned,
  finish_lock, lock_owned, update_cache_post_execution, refresh,
}
use sui_gas_pool.UsageCap.{update_usage}
use sui_gas_pool.SuiClient.{
  latest_coins, get_latest_gas_objects, fetch_chunks, fetch_chunk, whole_answer, chunks_of, zip,
  to_map, put, try_get_sui_coin_balance, gas_value, with_balance, execute_transaction,
  require_effects, multi_get_object_owners, collect_owners, set_owner,
}
use sui_gas_pool.GasPool.Usage.{net_usage, remaining}
use sui_gas_pool.GasPool.Core.{
  get_coins_after_tx, with_locks, drop_guard, after_send, account, send, signatures,
  execute_transaction_impl, execute_transaction', get_total_gas_coin_balance, updated_coins,
  reported,
}
use sui_gas_pool.GasPool.Core.Impl.{locked, execute_transaction_impl-restores}
use sui_gas_pool.GasPool.Core.Execute.{IsAdmitted, execute_transaction'_refuses}
use sui_gas_pool.GasPool.Core.Once.{on_redis, execute_transaction'_once}
use sui_gas_pool.Storage.Scripts.Expire.{joined}
use sui_gas_pool.Storage.Flow.{Reach}
use sui_gas_pool.GasPool.Core.Steps.{seen, execute_transaction'-Reach}
use sui_gas_pool.GasPool.Core.GiveBack.{ran, Fits, execute_transaction'_gives_back}
use sui_gas_pool.Tests.{
  formats, formats-IsFormats, coin_of, two_coins, store, store-Holds, tx, node, parts, pool,
}

execute_transaction_impl-restores_example :
    contains (locked parts (execute_transaction_impl parts node 5 3 tx 70 pool).1) 60
    ≡ contains (locked parts pool) 60
execute_transaction_impl-restores_example =
    execute_transaction_impl-restores parts node 5 3 tx 70 pool 60

admitted : IsAdmitted (on_redis formats parts) tx
unfolding check_transaction_validity collect_args uses_gas
admitted = (refl, refl)

execute_transaction'_once_example :
    let p' = (execute_transaction' (on_redis formats parts) node node 5 3 tx 70 pool).1 in
    execute_transaction' (on_redis formats parts) node node 6 3 tx 71 p'
    ≡ (err Error.reservation_gone, p')
execute_transaction'_once_example =
    execute_transaction'_once formats parts node node node node 5 6 3 tx tx 70 71 pool admitted
      admitted

abbrev stranger : TransactionData
stranger = record tx { gas_owner = 2 }

execute_transaction'_refuses_example :
    (e : Error) × (execute_transaction' parts node node 5 3 stranger 70 pool ≡ (err e, pool))
execute_transaction'_refuses_example =
    execute_transaction'_refuses parts node node 5 3 stranger 70 pool (λ h. omega (arith, h.0))

claims : (ready_for_execution 3 store).0 ≡ ok tt
unfolding ready_for_execution ready_script lookup erase
claims = refl

knows : get_total_gas_coin_balance (on_redis formats parts) node (13 ∷ []) ≡ ok 20
unfolding get_total_gas_coin_balance latest_coins get_latest_gas_objects fetch_chunks fetch_chunk
    whole_answer chunks_of zip to_map put try_get_sui_coin_balance gas_value with_balance
knows = refl

updates :
    updated_coins
      (on_redis formats parts)
      node
      20
      (13 ∷ [])
      (ran formats formats-IsFormats parts node 5 3 tx 70 pool)
    ≡ ok (coin_of 13 18 ∷ [])
unfolding updated_coins get_coins_after_tx net_usage remaining unsigned wrap_i64 signed ◌-ℤ◌
    execute_transaction_impl with_locks drop_guard after_send account send signatures
    execute_transaction require_effects try_acquire_locks get_imm_or_owned_non_gas_objects
    keep_owned lock_objects any_locked filter_owned_objects from_cache set_version ask from_answer
    version_of is_address_owned finish_lock lock_owned multi_get_object_owners collect_owners
    set_owner update_cache_post_execution refresh update_usage
updates = refl

fits : Fits formats formats-IsFormats parts two_coins (coin_of 13 18 ∷ [])
fits = record {
  in_range = ((omega arith, omega arith), tt);
  total_fits = omega arith;
  count_fits = omega arith;
}

execute_transaction'_gives_back_example :
    let r = execute_transaction' (on_redis formats parts) node node 5 3 tx 70 pool in
    (r.0
      ≡ reported (on_redis formats parts) (ran formats formats-IsFormats parts node 5 3 tx 70 pool))
    × Holds formats r.1.gas_pool_store (two_coins ++ coin_of 13 18 ∷ [])
execute_transaction'_gives_back_example =
    execute_transaction'_gives_back formats formats-IsFormats parts node node 5 70 20 0 3 tx pool
      two_coins (coin_of 13 18 ∷ []) admitted claims knows updates refl store-Holds fits

kept : lookup 3 pool.gas_pool_store.reservations ≡ some (joined formats (13 ∷ []))
unfolding lookup
kept = refl

execute_transaction'-Reach_example :
    Reach formats (seen formats formats-IsFormats parts pool [] [] (11 ∷ 12 ∷ 13 ∷ [])) (
      seen formats formats-IsFormats parts
        (execute_transaction' (on_redis formats parts) node node 5 3 tx 70 pool).1
        []
        []
        (11 ∷ 12 ∷ 13 ∷ []))
execute_transaction'-Reach_example =
    execute_transaction'-Reach formats formats-IsFormats parts node node 5 70 20 0 3 tx pool
      two_coins (coin_of 13 18 ∷ []) (13 ∷ []) [] [] [] (11 ∷ 12 ∷ 13 ∷ []) admitted (λ e. cc) kept
      knows updates refl store-Holds fits (λ a. omega arith)
