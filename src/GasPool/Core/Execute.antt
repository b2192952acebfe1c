-- ===== src/GasPool/Core/Execute.antt =====
-- `execute_transaction`: what it refuses, and what the run of a transaction leaves alone.
use sui_gas_pool.Prelude.{
  ℕ, ◌≡◌, refl, ◌==◌, Bool-cases, Result, ok, err, Error, arith, Option-cases, Result-cases, inl,
  inr, ◌⊎◌,
}
use sui_gas_pool.Types.{ReservationId}
use sui_gas_pool.Sui.{TransactionData, Response}
use sui_gas_pool.Locks.{ObjectLocks, ObjectLockManager, try_acquire_locks}
use sui_gas_pool.SuiClient.{FullNode, multi_get_object_owners}
use sui_gas_pool.GasPool.Usage.{net_usage}
use sui_gas_pool.GasPool.Validity.{check_transaction_validity}
use sui_gas_pool.GasPool.Validity.Meaning.{IsAllowed, check_transaction_validity_iff}
use sui_gas_pool.GasPool.Core.{
  Parts, GasPool, account, after_send, drop_guard, send, with_locks, execute_transaction_impl,
  admit, execute_transaction',
}

module _ {S : Type 0} (parts : Parts S) where
  open parts use {address, advanced_faucet_mode, cache, retry}

  -- The sponsor pays for the transaction, and it passes the check.
  abbrev pub IsAdmitted : TransactionData → Type 0
  IsAdmitted tx =
      (address ≡ tx.gas_owner) × (check_transaction_validity advanced_faucet_mode tx ≡ ok tt)

  pub admit-IsAdmitted : (tx : TransactionData) → IsAdmitted tx → admit parts tx ≡ ok tt
  unfolding admit
  admit-IsAdmitted tx (same, valid) = ground (arith, same, valid)

  admit-cases : (tx : TransactionData) → IsAdmitted tx ⊎ ((e : Error) × (admit parts tx ≡ err e))
  unfolding admit
  admit-cases tx = elim (Bool-cases (address == tx.gas_owner)) [
    | inr other ↦ inr (Error.sponsor_not_registered, rw other)
    | inl same ↦ elim (Result-cases (check_transaction_validity advanced_faucet_mode tx)) [
      | inl (u, valid) ↦ inl (ground arith, valid)
      | inr (e, invalid) ↦ inr (e, rw (same, invalid))
    ]
  ]

  -- A transaction that another address pays for, or that is not allowed in the mode of the pool, is
  -- refused with an error, and nothing of the pool changes.
  pub execute_transaction'_refuses :
      (before after : FullNode) (today : ℕ) (id : ReservationId) (tx : TransactionData)
      (user_sig : ℕ) (p : GasPool parts)
      → ¬ ((address ≡ tx.gas_owner) × IsAllowed advanced_faucet_mode tx)
      → (e : Error) × (execute_transaction' parts before after today id tx user_sig p ≡ (err e, p))
  unfolding execute_transaction'
  execute_transaction'_refuses before after today id tx user_sig p bad = elim (admit-cases tx) [
    | inl (same, valid) ↦
        absurd (bad (same, (check_transaction_validity_iff advanced_faucet_mode tx).0 valid))
    | inr (e, refused) ↦ (e, rw (refused, execute_transaction'))
  ]

  pub after_send-store :
      (today : ℕ) (tx : TransactionData) (response : Result Response) (p : GasPool parts)
      → (after_send parts today tx response p).1.gas_pool_store ≡ p.gas_pool_store
  unfolding after_send account
  after_send-store today tx (err e) p = refl
  after_send-store today tx (ok response) p = elim (Option-cases response.effects) [
    | inl missing ↦ rw (missing, after_send) refl
    | inr (effects, e) ↦
        elim (Result-cases (net_usage advanced_faucet_mode effects response.balance_changes)) [
          | inl (usage, u) ↦ rw (e, after_send, u) refl
          | inr (failure, u) ↦ rw (e, after_send, u) refl
        ]
  ]

  with_locks-store :
      (node : FullNode) (today user_sig : ℕ) (tx : TransactionData)
      (r : Result ObjectLocks × ObjectLockManager cache) (p : GasPool parts)
      → (with_locks parts node today tx user_sig r p).1.gas_pool_store ≡ p.gas_pool_store
  unfolding with_locks drop_guard
  with_locks-store node today user_sig tx (err e, m) p = refl
  with_locks-store node today user_sig tx (ok g, m) p =
      after_send-store today tx (send parts node tx user_sig) (record p { object_lock_manager = m })

  -- The store is not touched while the transaction runs.
  pub impl-store :
      (node : FullNode) (today : ℕ) (id : ReservationId) (tx : TransactionData) (user_sig : ℕ)
      (p : GasPool parts)
      → (execute_transaction_impl parts node today id tx user_sig p).1.gas_pool_store
        ≡ p.gas_pool_store
  unfolding execute_transaction_impl
  impl-store node today id tx user_sig p =
      with_locks-store node today user_sig tx
        (try_acquire_locks cache (multi_get_object_owners retry node) id tx p.object_lock_manager) p
