-- ===== src/GasPool/Core/Unlock.antt =====
-- The task that frees expired coins: what it finds goes back to the store.
use sui_gas_pool.Prelude.{ℕ, suc, ◌≡◌, ap, sym, subst, ◌++◌, List, ok, ◌∷◌, refl}
use sui_gas_pool.Types.{ObjectId, GasCoin}
use sui_gas_pool.Storage.Store.{Store}
use sui_gas_pool.Storage.Formats.{Formats, IsFormats}
use sui_gas_pool.Storage.Invariant.{Holds}
use sui_gas_pool.Storage.Redis.{expire_coins}
use sui_gas_pool.SuiClient.{FullNode, latest_coins}
use sui_gas_pool.GasPool.Core.{Parts, GasPool, release_gas_coins, unlock, unlock_round}
use sui_gas_pool.GasPool.Core.Once.{on_redis}
use sui_gas_pool.GasPool.Core.GiveBack.{Fits, released, released-Holds}

module _ (F : Formats) (laws : IsFormats F) (parts : Parts Store) where
  open parts use {attempts, retry}

  -- On Redis with at least one attempt, if a round of the task finds expired objects on a store that
  -- holds coins after the expiry, and the node knows the latest coins of those objects and they fit, the
  -- round succeeds and the store holds them behind those that it held.
  pub unlock_round_gives_back :
      (node : FullNode) (now n : ℕ) (id : ObjectId) (ids : List ObjectId)
      (p : GasPool (on_redis F parts)) (coins more : List GasCoin)
      → (expire_coins F now p.gas_pool_store).0 ≡ ok (id ∷ ids)
      → latest_coins retry node (id ∷ ids) ≡ ok more
      → attempts ≡ suc n
      → Holds F (expire_coins F now p.gas_pool_store).1 coins
      → Fits F laws parts coins more
      → let r = unlock_round (on_redis F parts) node now p in
        (r.0 ≡ ok tt) × Holds F r.1.gas_pool_store (coins ++ more)
  unfolding unlock_round unlock
  unlock_round_gives_back node now n id ids p coins more expires knows enough holds fits =
      subst (λ r. (r.0 ≡ ok tt) × Holds F r.1.gas_pool_store (coins ++ more)) (sym path)
        (
          ap (λ r. r.0) (released F laws parts n q coins more enough holds fits),
          released-Holds F laws parts n q coins more enough holds fits,
        )
    where
      q : GasPool (on_redis F parts)
      q = record p { gas_pool_store = (expire_coins F now p.gas_pool_store).1 }

      path :
          unlock_round (on_redis F parts) node now p ≡ release_gas_coins (on_redis F parts) more q
      path = rw (expires, unlock, knows) refl
