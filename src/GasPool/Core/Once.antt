-- ===== src/GasPool/Core/Once.antt =====
-- A reservation pays for one transaction at most.
use sui_gas_pool.Prelude.{
  ℕ, ◌≡◌, refl, ap, ◌∙◌, sym, subst, none, List, Result, ok, err, Error, Option-cases, inl, inr,
  resume, pure, map,
}
use sui_gas_pool.Types.{ReservationId, GasCoin}
use sui_gas_pool.Sui.{TransactionData, Response}
use sui_gas_pool.Retry.{until_ok_keeps}
use sui_gas_pool.Storage.Store.{Store, lookup}
use sui_gas_pool.Text.{Text}
use sui_gas_pool.Prelude.Int.{ℤ}
use sui_gas_pool.Storage.Formats.{Formats, coin_text}
use sui_gas_pool.Storage.Scripts.{ready_script, add_script}
use sui_gas_pool.Storage.Scripts.Expire.{lookup-erase_self}
use sui_gas_pool.Storage.Redis.{add_new_coins, ready_for_execution}
use sui_gas_pool.Storage.Interface.{redis}
use sui_gas_pool.SuiClient.{FullNode}
use sui_gas_pool.GasPool.Core.{
  Parts, GasPool, give_back, run_claimed, after_claim, release_gas_coins, execute_transaction',
}
use sui_gas_pool.GasPool.Core.Execute.{IsAdmitted, admit-IsAdmitted, impl-store}
use sui_gas_pool.Storage.Scripts.AddNew.{add_script-reservations}

-- The pool on Redis.
abbrev pub on_redis : Formats → Parts Store → Parts Store
on_redis F parts = record parts { storage = redis F }

-- The reservation is not, or no longer, in the store.
abbrev Gone : ReservationId → Store → Type 0
Gone id s = lookup id s.reservations ≡ none

ready-Gone : (id : ReservationId) (s : Store) → Gone id (ready_for_execution id s).1
unfolding ready_for_execution ready_script
ready-Gone id s = elim (Option-cases (lookup id s.reservations)) [
  | inl gone ↦ rw (gone, ready_script) gone
  | inr (ids, there) ↦ rw (there, ready_script) (lookup-erase_self id s.reservations)
]

ready_for_execution_claimed :
    (id : ReservationId) (s : Store)
    → Gone id s
    → ready_for_execution id s ≡ (err Error.reservation_gone, s)
unfolding ready_for_execution ready_script
ready_for_execution_claimed id s gone = rw (gone, ready_script) refl

add_new_coins-Gone :
    (F : Formats) (id : ReservationId) (coins : List GasCoin) (s : Store)
    → Gone id s
    → Gone id (add_new_coins F coins s).1
unfolding add_new_coins
add_new_coins-Gone F id coins s gone =
    elim (Option-cases (F.from_json (F.to_json (map (coin_text F) coins)))) [
      | inl bad ↦ rw bad gone
      | inr (texts, e) ↦ rw e (kept texts (add_script texts s) (add_script-reservations texts s))
    ]
  where
    kept :
        (texts : List Text) (r : Result (ℤ × ℤ) × Store)
        → r.1.reservations ≡ s.reservations
        → Gone id (resume {S = Store} {B = Unit {0}} (λ stats. pure tt) r).1
    kept texts (ok stats, s') same = ap (lookup id) same ∙ gone
    kept texts (err e, s') same = ap (lookup id) same ∙ gone

module _ (F : Formats) (parts : Parts Store) where
  open parts use {attempts}

  abbrev IsGone : ReservationId → GasPool (on_redis F parts) → Type 0
  IsGone id p = Gone id p.gas_pool_store

  give_back-Gone :
      (id : ReservationId) (coins : Result (List GasCoin)) (response : Result Response)
      (p : GasPool (on_redis F parts))
      → IsGone id p
      → IsGone id (give_back (on_redis F parts) coins response p).1
  unfolding give_back release_gas_coins
  give_back-Gone id (err e) response p gone = gone
  give_back-Gone id (ok coins) response p gone =
      until_ok_keeps (Gone id) attempts (add_new_coins F coins)
        (λ s h. add_new_coins-Gone F id coins s h) p.gas_pool_store gone

  run_claimed-Gone :
      (before after : FullNode) (today : ℕ) (id : ReservationId) (tx : TransactionData)
      (user_sig : ℕ) (total : Result ℕ) (p : GasPool (on_redis F parts))
      → IsGone id p
      → IsGone id (run_claimed (on_redis F parts) before after today id tx user_sig total p).1
  unfolding run_claimed
  run_claimed-Gone before after today id tx user_sig (err e) p gone = gone
  run_claimed-Gone before after today id tx user_sig (ok total) p gone =
      give_back-Gone id _ _ _
        (subst (Gone id) (sym (impl-store (on_redis F parts) before today id tx user_sig p)) gone)

  after_claim-Gone :
      (before after : FullNode) (today : ℕ) (id : ReservationId) (tx : TransactionData)
      (user_sig : ℕ) (r : Result (Unit {0}) × Store) (p : GasPool (on_redis F parts))
      → Gone id r.1
      → IsGone id (after_claim (on_redis F parts) before after today id tx user_sig r p).1
  unfolding after_claim
  after_claim-Gone before after today id tx user_sig (err e, s) p gone = gone
  after_claim-Gone before after today id tx user_sig (ok u, s) p gone =
      run_claimed-Gone before after today id tx user_sig _ _ gone

  execute_transaction'-Gone :
      (before after : FullNode) (today : ℕ) (id : ReservationId) (tx : TransactionData)
      (user_sig : ℕ) (p : GasPool (on_redis F parts))
      → IsAdmitted (on_redis F parts) tx
      → IsGone id (execute_transaction' (on_redis F parts) before after today id tx user_sig p).1
  unfolding execute_transaction'
  execute_transaction'-Gone before after today id tx user_sig p fine =
      rw (admit-IsAdmitted (on_redis F parts) tx fine, execute_transaction')
        (after_claim-Gone before after today id tx user_sig _ p (ready-Gone id p.gas_pool_store))

  -- On Redis, once a transaction that is admitted has been executed with a reservation, however that
  -- went, the execution of any admitted transaction with the same reservation fails and changes
  -- nothing of the pool.
  pub execute_transaction'_once :
      (before after before' after' : FullNode) (today today' : ℕ) (id : ReservationId)
      (tx tx' : TransactionData) (user_sig user_sig' : ℕ) (p : GasPool (on_redis F parts))
      → IsAdmitted (on_redis F parts) tx
      → IsAdmitted (on_redis F parts) tx'
      → let p' = (execute_transaction' (on_redis F parts) before after today id tx user_sig p).1 in
        execute_transaction' (on_redis F parts) before' after' today' id tx' user_sig' p'
        ≡ (err Error.reservation_gone, p')
  unfolding execute_transaction' after_claim
  execute_transaction'_once before after before' after' today today' id tx tx' user_sig user_sig' p
        fine fine' =
      rw (
        admit-IsAdmitted (on_redis F parts) tx' fine',
        execute_transaction',
        ready_for_execution_claimed id
            (execute_transaction' (on_redis F parts) before after today id tx user_sig
              p).1.gas_pool_store
            (execute_transaction'-Gone before after today id tx user_sig p fine),
      )
