-- ===== src/GasPool/Core/Accounts.antt =====
-- The coin that goes back to the pool after a transaction.
use sui_gas_pool.Prelude.{ℕ, ◌^◌, ◌<◌, ◌≡◌, refl, false, some, List, [], ◌∷◌, ok}
use sui_gas_pool.Prelude.Int.{ℤ, pos, pos_part, ◌-ℤ◌, ◌≤ℤ◌}
use sui_gas_pool.Types.{ObjectId}
use sui_gas_pool.Sui.{Effects, Response}
use sui_gas_pool.SuiClient.{FullNode}
use sui_gas_pool.GasPool.Usage.{net_usage, remaining}
use sui_gas_pool.GasPool.Usage.Balance.{remaining_exact}
use sui_gas_pool.GasPool.Core.{Parts, updated_coins, get_coins_after_tx}

module _ {S : Type 0} (parts : Parts S) where
  open parts use {advanced_faucet_mode}

  -- Outside the faucet mode, after a response with effects whose net gas usage, which a rebate
  -- makes negative, is at most the balance of the payment, where this balance and what the usage
  -- leaves of it are below 2^63: one coin goes back, the gas object of the effects with the balance
  -- less the usage.
  pub updated_coins-balance :
      (after : FullNode) (total : ℕ) (usage : ℤ) (payment : List ObjectId) (response : Response)
      (effects : Effects)
      → advanced_faucet_mode ≡ false
      → response.effects ≡ some effects
      → effects.net_gas_usage ≡ usage
      → usage ≤ℤ pos total
      → total < 2 ^ 63
      → pos_part (pos total -ℤ usage) < 2 ^ 63
      → (balance : ℕ) × (pos balance ≡ pos total -ℤ usage)
        × (updated_coins parts after total payment (ok response)
            ≡ ok (record { object_ref = effects.gas_object; balance = balance } ∷ []))
  unfolding updated_coins get_coins_after_tx net_usage
  updated_coins-balance after total usage payment response effects normal e used h small fits = (
    remaining total usage,
    remaining_exact total usage small h fits,
    rw (e, updated_coins, get_coins_after_tx, normal, net_usage, used) refl,
  )
