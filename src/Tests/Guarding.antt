-- ===== src/Tests/Guarding.antt =====
-- The locks, the usage cap and the check of transactions at concrete values.
use sui_gas_pool.Prelude.{
  ◌≡◌, refl, true, false, List, [], ◌∷◌, map, ok, err, Error, arith, if◌then◌else◌,
}
use sui_gas_pool.Prelude.Int.{pos, negsuc, ◌+ℤ◌, leb_ℤ, wrap_i64}
use sui_gas_pool.Sui.{
  address_owner, BalanceChange, gas_coin, transfer_objects, input, TransactionData,
}
use sui_gas_pool.Locks.{
  ObjectLockManager, OwnerQuery, get_imm_or_owned_non_gas_objects, keep_owned, any_locked,
  try_acquire_locks,
}
use sui_gas_pool.Locks.Exclusion.{IsExclusive, locks, drops, run, idle, run-idle-IsExclusive}
use sui_gas_pool.Locks.Acquire.{Outcome, try_acquire_locks-Outcome}
use sui_gas_pool.UsageCap.{new, check_usage}
use sui_gas_pool.UsageCap.Daily.{update_all, net, check_usage-update_all}
use sui_gas_pool.UsageCap.Race
use sui_gas_pool.UsageCap.Race.{run-update_usage, reset_loses_update}
use sui_gas_pool.GasPool.Usage.{same_owner, owner_total}
use sui_gas_pool.Tests.{cache, tx}

run-idle-IsExclusive_example :
    IsExclusive
      (run (locks 1 (5 ∷ 6 ∷ []) ∷ locks 2 (6 ∷ []) ∷ drops 0 ∷ locks 3 (6 ∷ []) ∷ []) idle)
run-idle-IsExclusive_example =
    run-idle-IsExclusive (locks 1 (5 ∷ 6 ∷ []) ∷ locks 2 (6 ∷ []) ∷ drops 0 ∷ locks 3 (6 ∷ []) ∷ [])

-- The node says of every object that the address 1 owns it, at its first version.
abbrev owners : OwnerQuery
owners ids = ok (map (λ i. (i, address_owner 1, 1)) ids)

abbrev free_manager : ObjectLockManager cache
free_manager = record { address_owned_cache = tt; locked_owned_objects = 60 ∷ [] }

abbrev busy_manager : ObjectLockManager cache
busy_manager = record { address_owned_cache = tt; locked_owned_objects = 50 ∷ [] }

try_acquire_locks-Outcome_example :
    Outcome cache 4 tx (60 ∷ []) (try_acquire_locks cache owners 4 tx free_manager)
try_acquire_locks-Outcome_example = try_acquire_locks-Outcome cache owners 4 tx free_manager

inputs : get_imm_or_owned_non_gas_objects tx ≡ ok ((50, 1) ∷ [])
unfolding get_imm_or_owned_non_gas_objects keep_owned
inputs = refl

busy : any_locked (50 ∷ []) (50 ∷ []) ≡ true
unfolding any_locked
busy = refl

check_usage-update_all_example :
    (check_usage 5 (update_all 5 (pos 70 ∷ negsuc 9 ∷ pos 40 ∷ []) (new 100 5))).0 ≡ (
      if leb_ℤ (pos 100) (net (pos 70 ∷ negsuc 9 ∷ pos 40 ∷ []))
      then err Error.daily_cap_exceeded
      else ok tt)
check_usage-update_all_example =
    check_usage-update_all 100 5 (pos 70 ∷ negsuc 9 ∷ pos 40 ∷ []) (omega arith) (omega arith)

abbrev shared : Race.Shared
shared = record { inner = record { cur_daily_usage = pos 0; cur_date = 4 }; stale = λ k. false }

reset_loses_update_example :
    (Race.run 5
      (Race.observes 1
        ∷ Race.observes 2
        ∷ Race.resets 1
        ∷ Race.adds (pos 8)
        ∷ Race.resets 2
        ∷ Race.adds (pos 3)
        ∷ [])
      shared).inner
    ≡ record { cur_daily_usage = wrap_i64 (pos 0 +ℤ pos 3); cur_date = 5 }
reset_loses_update_example =
    reset_loses_update 5 1 2 (pos 8) (pos 3) shared (λ e. omega (arith, e)) (λ e. omega (arith, e))

abbrev greedy : TransactionData
greedy = record tx { commands = transfer_objects (gas_coin ∷ []) (input 0) ∷ [] }

abbrev gain : List BalanceChange
gain = record { owner = address_owner 9; amount = pos 6 } ∷ []

gained : owner_total (address_owner 9) gain ≡ pos 6
unfolding owner_total same_owner ◌+ℤ◌
gained = refl
