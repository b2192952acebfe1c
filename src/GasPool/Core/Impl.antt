-- ===== src/GasPool/Core/Impl.antt =====
-- What `execute_transaction_impl` leaves of the locks.
use sui_gas_pool.Prelude.{
  ℕ, ◌≡◌, refl, ap, ◌∙◌, ◌++◌, List, Result, ok, err, contains, arith, Option-cases, Result-cases,
  inl, inr,
}
use sui_gas_pool.Types.{ObjectId, ReservationId}
use sui_gas_pool.Sui.{TransactionData, Response, Mutated}
use sui_gas_pool.Locks.{
  ObjectLocks, ObjectLockManager, try_acquire_locks, update_cache_post_execution,
  get_imm_or_owned_non_gas_objects, remove_locks_from_set,
}
use sui_gas_pool.Locks.Acquire.{Outcome, try_acquire_locks-Outcome}
use sui_gas_pool.Locks.Exclusion.{
  contains-append, contains-remove_locks_from_set, any_locked-contains,
}
use sui_gas_pool.SuiClient.{FullNode, multi_get_object_owners}
use sui_gas_pool.GasPool.Usage.{net_usage}
use sui_gas_pool.GasPool.Core.{
  Parts, GasPool, account, after_send, drop_guard, send, with_locks, execute_transaction_impl,
}

module _ {S : Type 0} (parts : Parts S) where
  open parts use {cache, retry, advanced_faucet_mode}

  -- The objects that are locked.
  abbrev pub locked : GasPool parts → List ObjectId
  locked p = p.object_lock_manager.locked_owned_objects

  update_cache-locks :
      (tx : TransactionData) (mutated : List Mutated) (m : ObjectLockManager cache)
      → (update_cache_post_execution cache tx mutated m).1.locked_owned_objects
        ≡ m.locked_owned_objects
  unfolding update_cache_post_execution
  update_cache-locks tx mutated m = elim (Result-cases (get_imm_or_owned_non_gas_objects tx)) [
    | inl (objects, e) ↦ rw (e, update_cache_post_execution) refl
    | inr (failure, e) ↦ rw (e, update_cache_post_execution) refl
  ]

  pub after_send-locks :
      (today : ℕ) (tx : TransactionData) (response : Result Response) (p : GasPool parts)
      → locked (after_send parts today tx response p).1 ≡ locked p
  unfolding after_send account
  after_send-locks today tx (err e) p = refl
  after_send-locks today tx (ok response) p = elim (Option-cases response.effects) [
    | inl missing ↦ rw (missing, after_send) refl
    | inr (effects, e) ↦
        elim (Result-cases (net_usage advanced_faucet_mode effects response.balance_changes)) [
          | inl (usage, u) ↦
              rw (e, after_send, u) (update_cache-locks tx effects.mutated p.object_lock_manager)
          | inr (failure, u) ↦ rw (e, after_send, u) refl
        ]
  ]

  with_locks-restores :
      (node : FullNode) (today user_sig : ℕ) (id : ReservationId) (tx : TransactionData)
      (before : List ObjectId) (r : Result ObjectLocks × ObjectLockManager cache)
      (p : GasPool parts) (o : ObjectId)
      → Outcome cache id tx before r
      → contains (locked (with_locks parts node today tx user_sig r p).1) o ≡ contains before o
  unfolding with_locks drop_guard
  with_locks-restores node today user_sig id tx before (err e, m) p o h = ap (λ l. contains l o) h
  with_locks-restores node today user_sig id tx before (ok g, m) p o (i, l, free, g') =
      ap (λ l. contains (remove_locks_from_set g.locked_objects l) o)
        (after_send-locks today tx (send parts node tx user_sig)
            (record p { object_lock_manager = m })
          ∙ l)
      ∙ ground (
        arith,
        contains-remove_locks_from_set g.locked_objects (g.locked_objects ++ before) o,
        contains-append g.locked_objects before o,
        any_locked-contains g.locked_objects before o free,
      )

  -- However `execute_transaction_impl` returns, exactly the objects that were locked before are locked
  -- after it.
  pub execute_transaction_impl-restores :
      (node : FullNode) (today : ℕ) (id : ReservationId) (tx : TransactionData) (user_sig : ℕ)
      (p : GasPool parts) (o : ObjectId)
      → contains (locked (execute_transaction_impl parts node today id tx user_sig p).1) o
        ≡ contains (locked p) o
  unfolding execute_transaction_impl
  execute_transaction_impl-restores node today id tx user_sig p o =
      with_locks-restores node today user_sig id tx (locked p)
        (try_acquire_locks cache (multi_get_object_owners retry node) id tx p.object_lock_manager) p
        o
        (try_acquire_locks-Outcome cache (multi_get_object_owners retry node) id tx
          p.object_lock_manager)
