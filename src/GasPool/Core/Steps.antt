-- ===== src/GasPool/Core/Steps.antt =====
-- The methods of the pool as steps of the life of the coins: what the pool does to the store is what
-- the specification in Storage/Flow allows.
use sui_gas_pool.Prelude.{
  ℕ, suc, ◌+◌, ◌%◌, ◌^◌, ◌<◌, ◌≡◌, ◌≢◌, refl, ap, ◌∙◌, sym, subst, some, List, ◌∷◌, ◌++◌, map,
  Result, ok, [], Result-cases, inl, inr, length,
}
use sui_gas_pool.Types.{ObjectId, ReservationId, GasCoin, coin_id, total_balance}
use sui_gas_pool.Sui.{TransactionData, Response}
use sui_gas_pool.Text.{Text}
use sui_gas_pool.UsageCap.{check_usage}
use sui_gas_pool.Locks.{payment_ids}
use sui_gas_pool.Storage.Store.{Store, incr, lookup}
use sui_gas_pool.Storage.Formats.{Formats, IsFormats}
use sui_gas_pool.Storage.Invariant.{Holds}
use sui_gas_pool.Storage.Scripts.{ready_script}
use sui_gas_pool.Storage.Scripts.Expire.{joined}
use sui_gas_pool.Storage.Redis.{add_new_coins, ready_for_execution, expire_coins}
use sui_gas_pool.Storage.Redis.AddNew.{add_new_coins_appends}
use sui_gas_pool.Storage.Flow.{
  count, Sys, HasRoom, reserves, claims, expires, returns, Reach, here, next,
}
use sui_gas_pool.SuiClient.{FullNode, latest_coins}
use sui_gas_pool.GasPool.Core.{
  Parts, GasPool, reserve_gas, reserve_after, get_total_gas_coin_balance, updated_coins, give_back,
  release_gas_coins, execute_transaction', unlock, unlock_round,
}
use sui_gas_pool.GasPool.Core.Execute.{IsAdmitted, impl-store}
use sui_gas_pool.GasPool.Core.Once.{on_redis}
use sui_gas_pool.GasPool.Core.GiveBack.{
  Fits, released, claimed-Holds, ran, after_claiming, after_running, execute_transaction'_path,
}

ready_for_execution-ok :
    (id : ReservationId) (s : Store) (text : Text)
    → lookup id s.reservations ≡ some text
    → (ready_for_execution id s).0 ≡ ok tt
unfolding ready_for_execution ready_script
ready_for_execution-ok id s text there = rw (there, ready_script) refl

module _ (F : Formats) (laws : IsFormats F) (parts : Parts Store) where
  open parts use {attempts, retry}

  -- Coins that fit have room.
  Fits-HasRoom :
      (s : Store) (coins more : List GasCoin)
      → Holds F s coins
      → Fits F laws parts coins more
      → HasRoom s more
  Fits-HasRoom s coins more holds fits = record {
    total = total_balance coins;
    number = length coins;
    stat_total = holds.stat_total;
    stat_count = holds.stat_count;
    in_range = fits.in_range;
    total_fits = fits.total_fits;
    count_fits = fits.count_fits;
  }

  pub given_back-store :
      (response : Result Response) (more : List GasCoin) (p : GasPool (on_redis F parts))
      → (give_back (on_redis F parts) (ok more) response p).1.gas_pool_store
        ≡ (release_gas_coins (on_redis F parts) more p).1.gas_pool_store
  unfolding give_back
  given_back-store response more p = refl

  -- The store after coins have been put back.
  pub released-store :
      (n : ℕ) (p : GasPool (on_redis F parts)) (coins more : List GasCoin)
      → attempts ≡ suc n
      → Holds F p.gas_pool_store coins
      → Fits F laws parts coins more
      → (release_gas_coins (on_redis F parts) more p).1.gas_pool_store
        ≡ (add_new_coins F more p.gas_pool_store).1
  released-store n p coins more enough holds fits =
      ap (λ r. r.1.gas_pool_store) (released F laws parts n p coins more enough holds fits)
      ∙ sym (
          ap (λ r. r.1)
            (add_new_coins_appends F laws p.gas_pool_store coins more holds fits.in_range
              fits.total_fits fits.count_fits).0)

  -- The pool's store among the objects that are out of it.
  abbrev pub seen : GasPool (on_redis F parts) → List ObjectId → List ObjectId → List ObjectId → Sys
  seen p out spent known = record {
    store = p.gas_pool_store;
    out = out;
    spent = spent;
    known = known;
  }

  -- A request for gas, whether the cap and the store grant it or not, is one step of the specification
  -- or none.
  pub reserve_gas-Reach :
      (today now gas_budget duration_ms id : ℕ) (p : GasPool (on_redis F parts))
      (out spent known : List ObjectId)
      → 0 < gas_budget
      → gas_budget < 2 ^ 53
      → incr p.gas_pool_store.next_reservation_id ≡ some id
      → Reach F (seen p out spent known) (
          seen
            (reserve_gas (on_redis F parts) today now gas_budget duration_ms p).1
            out
            spent
            known)
  unfolding reserve_gas reserve_after
  reserve_gas-Reach today now gas_budget duration_ms id p out spent known positive small next_id =
      elim (Result-cases (check_usage today p.gas_usage_cap).0) [
        | inl (u, admitted) ↦ rw admitted (
            next here
              (reserves now gas_budget (duration_ms % 2 ^ 64) id positive small next_id refl))
        | inr (e, refused) ↦ rw refused here
      ]

  -- On Redis with at least one attempt and a store that holds coins, an admitted transaction whose
  -- reservation is kept and has objects, whose payment is known, and whose coins after the run are
  -- known, fit and are of objects that are out, does to the store what the specification of the
  -- coins' life allows: the objects of its reservation come out, those of the coins after the run
  -- go back, and what is left of the objects is still out.
  pub execute_transaction'-Reach :
      (before after : FullNode) (today user_sig total n : ℕ) (id : ReservationId)
      (tx : TransactionData) (p : GasPool (on_redis F parts)) (coins more : List GasCoin)
      (v out left spent known : List ObjectId)
      → IsAdmitted (on_redis F parts) tx
      → v ≢ []
      → lookup id p.gas_pool_store.reservations ≡ some (joined F v)
      → get_total_gas_coin_balance (on_redis F parts) before (payment_ids tx) ≡ ok total
      → updated_coins
          (on_redis F parts)
          after
          total
          (payment_ids tx)
          (ran F laws parts before today id tx user_sig p)
        ≡ ok more
      → attempts ≡ suc n
      → Holds F p.gas_pool_store coins
      → Fits F laws parts coins more
      → ((a : ObjectId) → count a (v ++ out) ≡ count a (map coin_id more) + count a left)
      → Reach F (seen p out spent known) (
          seen
            (execute_transaction' (on_redis F parts) before after today id tx user_sig p).1
            left
            spent
            known)
  execute_transaction'-Reach before after today user_sig total n id tx p coins more v out left spent
        known fine some_v there knows updates enough holds fits back =
      next (next here (claims id v some_v there refl)) (
        returns more left
          (Fits-HasRoom (after_claiming F laws parts id p).gas_pool_store coins more
            (claimed-Holds F laws parts id p.gas_pool_store coins holds) fits)
          back (ap (λ t. record { store = t; out = left; spent = spent; known = known }) path))
    where
      claimed : (ready_for_execution id p.gas_pool_store).0 ≡ ok tt
      claimed = ready_for_execution-ok id p.gas_pool_store (joined F v) there

      q' : GasPool (on_redis F parts)
      q' = after_running F laws parts before today id tx user_sig p

      ran_store : q'.gas_pool_store ≡ (ready_for_execution id p.gas_pool_store).1
      ran_store =
          impl-store (on_redis F parts) before today id tx user_sig
            (after_claiming F laws parts id p)

      path :
          (execute_transaction'
            (on_redis F parts)
            before
            after
            today
            id
            tx
            user_sig
            p).1.gas_pool_store
          ≡ (add_new_coins F more (ready_for_execution id p.gas_pool_store).1).1
      path =
          ap (λ r. r.1.gas_pool_store)
            (execute_transaction'_path F laws parts before after today user_sig total id tx p more
              fine claimed knows updates)
          ∙ given_back-store (ran F laws parts before today id tx user_sig p) more q'
          ∙ released-store n q' coins more enough
              (subst (λ t. Holds F t coins) (sym ran_store)
                (claimed-Holds F laws parts id p.gas_pool_store coins holds))
              fits
          ∙ ap (λ t. (add_new_coins F more t).1) ran_store

  -- On Redis with at least one attempt, a round of the task that finds expired objects does what
  -- the specification of the coins' life allows, if the store holds coins after the expiry and the
  -- node knows coins of objects that are out, and they fit: the objects of the expired reservations
  -- come out, those of the coins that the node knows go back.
  pub unlock_round-Reach :
      (node : FullNode) (now n : ℕ) (id : ObjectId) (ids : List ObjectId)
      (p : GasPool (on_redis F parts)) (coins more : List GasCoin)
      (out left spent known : List ObjectId)
      → (expire_coins F now p.gas_pool_store).0 ≡ ok (id ∷ ids)
      → latest_coins retry node (id ∷ ids) ≡ ok more
      → attempts ≡ suc n
      → Holds F (expire_coins F now p.gas_pool_store).1 coins
      → Fits F laws parts coins more
      → ((a : ObjectId) → count a (id ∷ ids ++ out) ≡ count a (map coin_id more) + count a left)
      → Reach F
          (seen p out spent known)
          (seen (unlock_round (on_redis F parts) node now p).1 left spent known)
  unfolding unlock_round unlock
  unlock_round-Reach node now n id ids p coins more out left spent known freed knows enough holds
        fits back =
      next (next here (expires now (id ∷ ids) freed refl)) (
        returns more left
          (Fits-HasRoom (expire_coins F now p.gas_pool_store).1 coins more holds fits) back
          (ap (λ t. record { store = t; out = left; spent = spent; known = known })
            (rw (freed, unlock, knows)
              (released-store n
                (record p { gas_pool_store = (expire_coins F now p.gas_pool_store).1 }) coins more
                enough holds fits))))
