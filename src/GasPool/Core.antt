-- ===== src/GasPool/Core.antt =====
-- The state and the methods of `GasPool`. The store, the signer, the full node and the clock are
-- parameters. The node is asked before and after a transaction runs, and answers may differ. A
-- method is one function here, and `Tasks` has other calls between its parts. The metrics and the
-- log are left out.
pub mod Impl
pub mod Execute
pub mod Once
pub mod GiveBack
pub mod Accounts
pub mod Steps
pub mod Unlock
pub mod Tasks
use sui_gas_pool.Prelude.{
  ℕ, ◌+◌, ◌*◌, ◌/◌, ◌%◌, ◌^◌, Bool, true, false, not, if◌then◌else◌, ◌==◌, Option, none, some, List,
  [], ◌∷◌, map, Result, ok, err, Error, is_panic, Action, and_then, sum, is_empty, keep_some,
}
use sui_gas_pool.Prelude.Int.{ℤ}
use sui_gas_pool.Types.{ObjectId, SuiAddress, ObjectRef, GasCoin, ReservationId, total_balance}
use sui_gas_pool.Sui.{TransactionData, Transaction, Effects, Response, Mutated}
use sui_gas_pool.Retry.{Retry, until_ok}
use sui_gas_pool.Storage.Interface.{Storage}
use sui_gas_pool.UsageCap.{GasUsageCap, check_usage, update_usage}
use sui_gas_pool.Locks.{
  Cache, ObjectLocks, ObjectLockManager, payment_ids, try_acquire_locks,
  update_cache_post_execution, remove_locks_from_set,
}
use sui_gas_pool.SuiClient.{FullNode, latest_coins, execute_transaction, multi_get_object_owners}
use sui_gas_pool.GasPool.Validity.{check_transaction_validity}
use sui_gas_pool.GasPool.Usage.{net_usage, remaining}

-- What a pool is made with. `sign` is the signer's answer to each attempt, and `attempts` bounds the
-- attempts at giving coins back.
pub record Parts (S : Type 0) : Type 1 where
  pub storage : Storage S
  pub retry : Retry
  pub cache : Cache
  pub address : SuiAddress
  pub sign : ℕ → TransactionData → Result ℕ
  pub advanced_faucet_mode : Bool
  pub attempts : ℕ

module _ {S : Type 0} (parts : Parts S) where
  open parts use {storage, retry, cache, address, sign, advanced_faucet_mode, attempts}

  pub record GasPool : Type 0 where
    pub gas_pool_store : S
    pub gas_usage_cap : GasUsageCap
    pub object_lock_manager : ObjectLockManager cache

  -- `reserve_gas`, whose first test may reset the day's usage.
  reserve_after :
      Result (Unit {0}) × GasUsageCap
      → ℕ
      → ℕ
      → ℕ
      → Action GasPool (SuiAddress × ReservationId × List ObjectRef)
  reserve_after (err e, cap) now gas_budget duration_ms p =
      (err e, record p { gas_usage_cap = cap })
  reserve_after (ok u, cap) now gas_budget duration_ms p =
      let (result, store) =
        storage.reserve_gas_coins now gas_budget (duration_ms % 2 ^ 64) p.gas_pool_store in
      (
        and_then result (λ r. ok (address, r.0, map (λ (c : GasCoin). c.object_ref) r.1)),
        record p { gas_usage_cap = cap; gas_pool_store = store },
      )

  unfoldable pub reserve_gas :
      ℕ → ℕ → ℕ → ℕ → Action GasPool (SuiAddress × ReservationId × List ObjectRef)
  unfolding reserve_after
  reserve_gas today now gas_budget duration_ms p =
      reserve_after (check_usage today p.gas_usage_cap) now gas_budget duration_ms p

  -- `get_total_gas_coin_balance`: a `sum` of `u64`.
  unfoldable pub get_total_gas_coin_balance : FullNode → List ObjectId → Result ℕ
  get_total_gas_coin_balance node ids =
      and_then (latest_coins retry node ids) (λ cs. ok (total_balance cs % 2 ^ 64))

  unfoldable pub release_gas_coins : List GasCoin → Action GasPool (Unit {0})
  release_gas_coins coins p =
      let (result, store) = until_ok attempts (storage.add_new_coins coins) p.gas_pool_store in
      (result, record p { gas_pool_store = store })

  -- The user's signature, and the sponsor's unless the pool is a faucet.
  unfoldable pub signatures : TransactionData → ℕ → Result (List ℕ)
  signatures tx user_sig =
      if advanced_faucet_mode
      then ok (user_sig ∷ [])
      else and_then (retry.limited 3 (λ n. sign n tx)) (λ s. ok (user_sig ∷ s ∷ []))

  -- Signing and sending: nothing of the pool changes.
  unfoldable pub send : FullNode → TransactionData → ℕ → Result Response
  unfolding signatures
  send node tx user_sig =
      and_then (signatures tx user_sig)
        (λ sigs. execute_transaction retry node (record { tx_data = tx; signatures = sigs }) 3)

  -- What follows a response with effects, whose usage is known: the day's usage, then the cache.
  unfoldable pub account : ℕ → TransactionData → Response → Effects → ℤ → Action GasPool Response
  account today tx response effects usage p =
      let cap = (update_usage today usage p.gas_usage_cap).1 in
      let (updated, manager) =
        update_cache_post_execution cache tx effects.mutated p.object_lock_manager in
      (
        and_then updated (λ u. ok response),
        record p { gas_usage_cap = cap; object_lock_manager = manager },
      )

  unfoldable pub after_send : ℕ → TransactionData → Result Response → Action GasPool Response
  unfolding account
  after_send today tx (err e) p = (err e, p)
  after_send today tx (ok response) p = elim response.effects [
    | none ↦ (err Error.no_effects, p)
    | some effects ↦ elim (net_usage advanced_faucet_mode effects response.balance_changes) [
      | err e ↦ (err e, p)
      | ok usage ↦ account today tx response effects usage p
    ]
  ]

  -- The guard is dropped when the method returns, however it does.
  unfoldable pub drop_guard : ObjectLocks → Result Response × GasPool → Result Response × GasPool
  drop_guard g (result, p) = (
    result,
    record p {
      object_lock_manager = record p.object_lock_manager {
        locked_owned_objects =
            remove_locks_from_set g.locked_objects p.object_lock_manager.locked_owned_objects;
      };
    },
  )

  unfoldable pub with_locks :
      FullNode
      → ℕ
      → TransactionData
      → ℕ
      → Result ObjectLocks × ObjectLockManager cache
      → Action GasPool Response
  unfolding send after_send drop_guard
  with_locks node today tx user_sig (err e, manager) p =
      (err e, record p { object_lock_manager = manager })
  with_locks node today tx user_sig (ok g, manager) p =
      drop_guard g
        (after_send today tx (send node tx user_sig) (record p { object_lock_manager = manager }))

  unfoldable pub execute_transaction_impl :
      FullNode → ℕ → ReservationId → TransactionData → ℕ → Action GasPool Response
  unfolding with_locks
  execute_transaction_impl node today id tx user_sig p =
      with_locks node today tx user_sig
        (try_acquire_locks cache (multi_get_object_owners retry node) id tx p.object_lock_manager) p

  -- The coin that the effects name, with the balance that is left; if the usage is not known, what the
  -- node says of the coins of the payment.
  unfoldable pub get_coins_after_tx :
      FullNode → ℕ → Response → Effects → List ObjectId → Result (List GasCoin)
  get_coins_after_tx after total response effects payment =
      elim (net_usage advanced_faucet_mode effects response.balance_changes) [
        | err e ↦ latest_coins retry after payment
        | ok usage ↦
            ok (record { object_ref = effects.gas_object; balance = remaining total usage } ∷ [])
      ]

  -- The coins that go back after a run. A panic of the run ends the task, before it asks for any.
  unfoldable pub updated_coins :
      FullNode → ℕ → List ObjectId → Result Response → Result (List GasCoin)
  unfolding get_coins_after_tx
  updated_coins after total payment (err e) =
      if is_panic e then err Error.panic else latest_coins retry after payment
  updated_coins after total payment (ok response) = elim response.effects [
    | none ↦ latest_coins retry after payment
    | some effects ↦ get_coins_after_tx after total response effects payment
  ]

  -- A response without effects is a failure.
  pub reported : Result Response → Result Response
  reported (err e) = err e
  reported (ok response) = elim response.effects [
    | none ↦ err Error.no_effects
    | some effects ↦ ok response
  ]

  -- `retry_forever!(…).unwrap()` of the coins that go back.
  pub give_back : Result (List GasCoin) → Result Response → Action GasPool Response
  unfolding reported
  give_back (err e) response p = (err Error.panic, p)
  give_back (ok coins) response p =
      let (released, p') = release_gas_coins coins p in
      (and_then released (λ u. reported response), p')

  -- What follows a successful claim of the reservation.
  run_claimed :
      FullNode
      → FullNode
      → ℕ
      → ReservationId
      → TransactionData
      → ℕ
      → Result ℕ
      → Action GasPool Response
  unfolding execute_transaction_impl updated_coins give_back
  run_claimed before after today id tx user_sig (err e) p = (err Error.panic, p)
  run_claimed before after today id tx user_sig (ok total) p =
      let (response, p') = execute_transaction_impl before today id tx user_sig p in
      give_back (updated_coins after total (payment_ids tx) response) response p'

  after_claim :
      FullNode
      → FullNode
      → ℕ
      → ReservationId
      → TransactionData
      → ℕ
      → Result (Unit {0}) × S
      → Action GasPool Response
  unfolding run_claimed
  after_claim before after today id tx user_sig (err e, store) p =
      (err e, record p { gas_pool_store = store })
  after_claim before after today id tx user_sig (ok u, store) p =
      run_claimed before after today id tx user_sig
        (get_total_gas_coin_balance before (payment_ids tx)) (record p { gas_pool_store = store })

  -- The guards before the claim.
  pub admit : TransactionData → Result (Unit {0})
  admit tx =
      if address == tx.gas_owner
      then check_transaction_validity advanced_faucet_mode tx
      else err Error.sponsor_not_registered

  unfoldable pub execute_transaction' :
      FullNode → FullNode → ℕ → ReservationId → TransactionData → ℕ → Action GasPool Response
  unfolding admit after_claim
  execute_transaction' before after today id tx user_sig p = elim (admit tx) [
    | err e ↦ (err e, p)
    | ok u ↦
        after_claim before after today id tx user_sig
          (storage.ready_for_execution id p.gas_pool_store) p
  ]

  -- One round of the task that puts expired coins back. An error of the store counts as no coins.
  unlock : FullNode → Result (List ObjectId) → Action GasPool (Unit {0})
  unfolding release_gas_coins
  unlock node (err e) p = (ok tt, p)
  unlock node (ok unlocked) p =
      if is_empty unlocked then (ok tt, p) else elim (latest_coins retry node unlocked) [
        | err e ↦ (err Error.panic, p)
        | ok coins ↦ release_gas_coins coins p
      ]

  unfoldable pub unlock_round : FullNode → ℕ → Action GasPool (Unit {0})
  unfolding unlock
  unlock_round node now p =
      let (expired, store) = storage.expire_coins now p.gas_pool_store in
      unlock node expired (record p { gas_pool_store = store })

  unfoldable pub query_pool_available_coin_count : Action GasPool ℕ
  query_pool_available_coin_count p =
      let (count, store) = storage.get_available_coin_count p.gas_pool_store in
      (elim count [ ok n ↦ ok n | err e ↦ err Error.panic ], record p { gas_pool_store = store })

abbrev pub mist_per_sui : ℕ
mist_per_sui = 1_000_000_000

module _ {S : Type 0} (parts : Parts S) where
  open parts use {sign}

  -- `health_tx` is the empty transaction that is paid with the given coins.
  unfoldable pub debug_check_health :
      (List ObjectRef → ℕ → TransactionData) → ℕ → ℕ → Action (GasPool parts) (Unit {0})
  debug_check_health health_tx today now p =
      let (reserved, p') = reserve_gas parts today now (mist_per_sui / 10) 3000 p in
      (
        and_then reserved (λ r. and_then (sign 0 (health_tx r.2 (mist_per_sui / 10))) (λ s. ok tt)),
        p',
      )
