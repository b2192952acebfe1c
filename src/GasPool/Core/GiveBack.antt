-- ===== src/GasPool/Core/GiveBack.antt =====
-- The coins of a reservation after the transaction: they go back to the store.
use sui_gas_pool.Prelude.{
  ℕ, suc, ◌+◌, ◌^◌, ◌<◌, ◌≡◌, ap, ◌∙◌, sym, subst, ◌++◌, List, Result, ok, All, length, and_then,
  Option-cases, inl, inr, refl,
}
use sui_gas_pool.Types.{ReservationId, GasCoin, IsCoin, total_balance}
use sui_gas_pool.Sui.{TransactionData, Response}
use sui_gas_pool.Retry.{until_ok, until_ok_first}
use sui_gas_pool.Locks.{payment_ids}
use sui_gas_pool.Storage.Store.{Store, lookup}
use sui_gas_pool.Storage.Formats.{Formats, IsFormats}
use sui_gas_pool.Storage.Invariant.{Holds}
use sui_gas_pool.Storage.Redis.{add_new_coins, ready_for_execution}
use sui_gas_pool.Storage.Redis.AddNew.{add_new_coins_appends}
use sui_gas_pool.Storage.Scripts.{ready_script}
use sui_gas_pool.Storage.Scripts.AddNew.{grown}
use sui_gas_pool.SuiClient.{FullNode}
use sui_gas_pool.GasPool.Core.{
  Parts, GasPool, execute_transaction_impl, get_total_gas_coin_balance, updated_coins, reported,
  give_back, run_claimed, after_claim, release_gas_coins, execute_transaction',
}
use sui_gas_pool.GasPool.Core.Execute.{IsAdmitted, admit-IsAdmitted, impl-store}
use sui_gas_pool.GasPool.Core.Once.{on_redis}

module _ (F : Formats) (laws : IsFormats F) (parts : Parts Store) where
  open parts use {attempts, retry}

  -- There is room for the coins beside those that the store holds.
  pub record Fits (coins more : List GasCoin) : Type 0 where
    pub in_range : All IsCoin more
    pub total_fits : total_balance coins + total_balance more < 2 ^ 53
    pub count_fits : length coins + length more < 2 ^ 53

  pub released :
      (n : ℕ) (p : GasPool (on_redis F parts)) (coins more : List GasCoin)
      → attempts ≡ suc n
      → Holds F p.gas_pool_store coins
      → Fits coins more
      → release_gas_coins (on_redis F parts) more p
        ≡ (ok tt, record p { gas_pool_store = grown F p.gas_pool_store coins more })
  unfolding release_gas_coins
  released n p coins more enough holds fits =
      ap (λ r. (r.0, record p { gas_pool_store = r.1 }))
        (ap (λ k. until_ok k (add_new_coins F more) p.gas_pool_store) enough
          ∙ until_ok_first n (add_new_coins F more) p.gas_pool_store
              (grown F p.gas_pool_store coins more) tt
              (add_new_coins_appends F laws p.gas_pool_store coins more holds fits.in_range
                fits.total_fits fits.count_fits).0)

  pub released-Holds :
      (n : ℕ) (p : GasPool (on_redis F parts)) (coins more : List GasCoin)
      → attempts ≡ suc n
      → Holds F p.gas_pool_store coins
      → Fits coins more
      → Holds F (release_gas_coins (on_redis F parts) more p).1.gas_pool_store (coins ++ more)
  released-Holds n p coins more enough holds fits =
      subst (λ r. Holds F r.1.gas_pool_store (coins ++ more))
        (sym (released n p coins more enough holds fits))
        (add_new_coins_appends F laws p.gas_pool_store coins more holds fits.in_range
          fits.total_fits fits.count_fits).1

  -- The run of a transaction after its reservation has been claimed.
  abbrev pub ran :
      FullNode
      → ℕ
      → ReservationId
      → TransactionData
      → ℕ
      → GasPool (on_redis F parts)
      → Result Response
  ran node today id tx user_sig p =
      (execute_transaction_impl (on_redis F parts) node today id tx user_sig
        (record p { gas_pool_store = (ready_for_execution id p.gas_pool_store).1 })).0

  pub claimed-Holds :
      (id : ReservationId) (s : Store) (coins : List GasCoin)
      → Holds F s coins
      → Holds F (ready_for_execution id s).1 coins
  unfolding ready_for_execution ready_script
  claimed-Holds id s coins holds = elim (Option-cases (lookup id s.reservations)) [
    | inl gone ↦ rw (gone, ready_script) holds
    | inr (ids, there) ↦
        rw (there, ready_script)
          (record {
            texts = holds.texts;
            stat_total = holds.stat_total;
            stat_count = holds.stat_count;
            total_exact = holds.total_exact;
            count_exact = holds.count_exact;
            in_range = holds.in_range;
          })
  ]

  -- The answer, and the coins that the store holds.
  abbrev Ends :
      Result Response → List GasCoin → Result Response × GasPool (on_redis F parts) → Type 0
  Ends response coins r =
      (r.0 ≡ reported (on_redis F parts) response) × Holds F r.1.gas_pool_store coins

  give_back-Ends :
      (n : ℕ) (response : Result Response) (p : GasPool (on_redis F parts))
      (coins more : List GasCoin)
      → attempts ≡ suc n
      → Holds F p.gas_pool_store coins
      → Fits coins more
      → Ends response (coins ++ more) (give_back (on_redis F parts) (ok more) response p)
  unfolding give_back
  give_back-Ends n response p coins more enough holds fits = (
    ap (λ r. and_then r.0 (λ u. reported (on_redis F parts) response))
        (released n p coins more enough holds fits),
    released-Holds n p coins more enough holds fits,
  )

  -- The state in which the claim leaves the pool, and that in which the run does.
  abbrev pub after_claiming :
      ReservationId → GasPool (on_redis F parts) → GasPool (on_redis F parts)
  after_claiming id p = record p { gas_pool_store = (ready_for_execution id p.gas_pool_store).1 }

  abbrev pub after_running :
      FullNode
      → ℕ
      → ReservationId
      → TransactionData
      → ℕ
      → GasPool (on_redis F parts)
      → GasPool (on_redis F parts)
  after_running node today id tx user_sig p =
      (execute_transaction_impl (on_redis F parts) node today id tx user_sig
        (after_claiming id p)).1

  -- An execution that gets to its end: the claim, the run and the giving back.
  pub execute_transaction'_path :
      (before after : FullNode) (today user_sig total : ℕ) (id : ReservationId)
      (tx : TransactionData) (p : GasPool (on_redis F parts)) (more : List GasCoin)
      → IsAdmitted (on_redis F parts) tx
      → (ready_for_execution id p.gas_pool_store).0 ≡ ok tt
      → get_total_gas_coin_balance (on_redis F parts) before (payment_ids tx) ≡ ok total
      → updated_coins
          (on_redis F parts)
          after
          total
          (payment_ids tx)
          (ran before today id tx user_sig p)
        ≡ ok more
      → execute_transaction' (on_redis F parts) before after today id tx user_sig p
        ≡ give_back
            (on_redis F parts)
            (ok more)
            (ran before today id tx user_sig p)
            (after_running before today id tx user_sig p)
  unfolding execute_transaction' after_claim run_claimed
  execute_transaction'_path before after today user_sig total id tx p more fine claims knows
        updates =
      rw (admit-IsAdmitted (on_redis F parts) tx fine, execute_transaction') refl
      ∙ ap
          (λ c.
            after_claim (on_redis F parts) before after today id tx user_sig
              (c, (after_claiming id p).gas_pool_store) p)
          claims
      ∙ ap
          (λ t.
            run_claimed (on_redis F parts) before after today id tx user_sig t
              (after_claiming id p))
          knows
      ∙ ap
          (λ m.
            give_back (on_redis F parts) m (ran before today id tx user_sig p)
              (after_running before today id tx user_sig p))
          updates

  -- On Redis with a store that holds coins and at least one attempt, if an admitted transaction claims
  -- its reservation, the balance of its payment is known, and the coins after the run are known and
  -- fit, then whatever the run came to, the store in the end holds those coins behind the ones that it
  -- held, and the answer is that of the run.
  pub execute_transaction'_gives_back :
      (before after : FullNode) (today user_sig total n : ℕ) (id : ReservationId)
      (tx : TransactionData) (p : GasPool (on_redis F parts)) (coins more : List GasCoin)
      → IsAdmitted (on_redis F parts) tx
      → (ready_for_execution id p.gas_pool_store).0 ≡ ok tt
      → get_total_gas_coin_balance (on_redis F parts) before (payment_ids tx) ≡ ok total
      → updated_coins
          (on_redis F parts)
          after
          total
          (payment_ids tx)
          (ran before today id tx user_sig p)
        ≡ ok more
      → attempts ≡ suc n
      → Holds F p.gas_pool_store coins
      → Fits coins more
      → let r = execute_transaction' (on_redis F parts) before after today id tx user_sig p in
        (r.0 ≡ reported (on_redis F parts) (ran before today id tx user_sig p))
        × Holds F r.1.gas_pool_store (coins ++ more)
  execute_transaction'_gives_back before after today user_sig total n id tx p coins more fine claims
        knows updates enough holds fits =
      subst (Ends (ran before today id tx user_sig p) (coins ++ more))
        (sym (
          execute_transaction'_path before after today user_sig total id tx p more fine claims knows
            updates))
        (give_back-Ends n (ran before today id tx user_sig p)
          (after_running before today id tx user_sig p) coins more enough
          (subst (λ s. Holds F s coins)
            (sym (impl-store (on_redis F parts) before today id tx user_sig (after_claiming id p)))
            (claimed-Holds id p.gas_pool_store coins holds))
          fits)
