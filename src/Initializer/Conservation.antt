-- ===== src/Initializer/Conservation.antt =====
-- What splitting does to the balance.
use native.Mathlib.Omega.{div_any}
use sui_gas_pool.Prelude.{
  ℕ, suc, ◌+◌, ◌-◌, ◌*◌, ◌/◌, ◌%◌, ◌^◌, ◌<◌, ◌≤◌, ◌≡◌, ap, ◌∙◌, leb, Bool-cases, inl, inr, List, [],
  ◌∷◌, map, length, arith,
}
use sui_gas_pool.Prelude.Int.{pos, ◌-ℤ◌, signed, unsigned, wrap_i64}
use sui_gas_pool.Types.{ObjectRef, GasCoin, total_balance}
use sui_gas_pool.Sui.{Effects}
use sui_gas_pool.Storage.Invariant.{total_balance-append}
use sui_gas_pool.GasPool.Usage.{remaining}
use sui_gas_pool.GasPool.Usage.Balance.{remaining_less}
use sui_gas_pool.Initializer.{
  CoinSplitEnv, share, enqueue_task, extend, extend_all, split_coins_of, after_split,
  new_coin_balance, remaining_coin_balance,
}

-- What has been returned and what waits to be split.
abbrev pub total_of : List GasCoin × List GasCoin → ℕ
total_of r = total_balance r.0 + total_balance r.1

module _ (env : CoinSplitEnv) where
  extend-total :
      (coin : GasCoin) (r : List GasCoin × List GasCoin)
      → total_of (extend env coin r) ≡ total_of r + coin.balance
  unfolding extend enqueue_task
  extend-total coin (result, queue) =
      elim (Bool-cases (leb coin.balance (share env * 2 % 2 ^ 64))) [
        | inl small ↦
            rw small (
              omega
                (arith, total_balance-append result (coin ∷ []), total_balance-append result []))
        | inr large ↦
            rw large (
              omega (arith, total_balance-append queue (coin ∷ []), total_balance-append result []))
      ]

  -- Putting coins in the queue or in the result loses none of their balance.
  pub extend_all-total :
      (coins : List GasCoin) (r : List GasCoin × List GasCoin)
      → total_of (extend_all env coins r) ≡ total_of r + total_balance coins
  unfolding extend_all
  extend_all-total [] r = omega arith
  extend_all-total (c ∷ coins) r =
      omega (arith, extend_all-total coins (extend env c r), extend-total c r)

  created-total :
      (refs : List ObjectRef) (each : ℕ)
      → total_balance (map (λ (r : ObjectRef). record { object_ref = r; balance = each }) refs)
        ≡ each * length refs
  created-total [] each = omega arith
  created-total (r ∷ refs) each = omega (arith, created-total refs each)

  -- The created coins take no more than what the budget leaves.
  pub created-le :
      (balance budget k : ℕ)
      → balance < 2 ^ 63
      → budget ≤ balance
      → new_coin_balance env balance budget (suc k) * k + budget ≤ balance
  unfolding new_coin_balance
  created-le balance budget k small h = omega (arith, div_any d (suc k), whole, step)
    where
      d : ℕ
      d = (balance + 2 ^ 64 - budget) % 2 ^ 64

      whole : d + budget ≡ balance
      whole = omega arith

      step : suc k * (d / suc k) ≡ d / suc k * k + d / suc k
      step = grind arith

  -- The balance that is computed for the coin itself.
  pub rest_exact :
      (balance each k : ℕ) (effects : Effects) (used : ℕ)
      → balance < 2 ^ 63
      → effects.net_gas_usage ≡ pos used
      → each * k + used ≤ balance
      → remaining_coin_balance env balance each (suc k) effects + each * k + used ≡ balance
  unfolding remaining_coin_balance remaining
  rest_exact balance each k effects used small e h =
      ap (λ u. unsigned (wrap_i64 (signed r -ℤ u)) + each * k + used) e
      ∙ ap (λ n. remaining n (pos used) + each * k + used) r_exact
      ∙ omega (arith, remaining_less (balance - each * k) used (omega arith) (omega arith))
    where
      r : ℕ
      r = (balance + 2 ^ 64 - each * (suc k - 1) % 2 ^ 64) % 2 ^ 64

      others : each * (suc k - 1) ≡ each * k
      others = ap (◌*◌ each) (omega arith)

      r_exact : r ≡ balance - each * k
      r_exact = omega (arith, others)

  -- A split of a coin below 2^63 loses exactly the gas that it used: if the transaction used some gas or
  -- none within its budget, which the coin covers, and created one coin less than asked for, then the coins that are returned and those that
  -- wait to be split are worth as much as those that waited before and the coin, less the gas.
  pub after_split-total :
      (coin : GasCoin) (budget used : ℕ) (effects : Effects) (queue : List GasCoin)
      → coin.balance < 2 ^ 63
      → budget ≤ coin.balance
      → effects.net_gas_usage ≡ pos used
      → used ≤ budget
      → total_of (after_split env coin (suc (length effects.created)) budget effects queue) + used
        ≡ total_balance queue + coin.balance
  unfolding after_split split_coins_of
  after_split-total coin budget used effects queue small covered e kept = omega (
    arith,
    extend_all-total (split_coins_of env coin (suc k) budget effects) ([], queue),
    total_balance-append created (rest ∷ []),
    created-total effects.created each,
    rest_exact coin.balance each k effects used small e
        (omega (arith, created-le coin.balance budget k small covered)),
  )
    where
      k : ℕ
      k = length effects.created

      each : ℕ
      each = new_coin_balance env coin.balance budget (suc k)

      created : List GasCoin
      created = map (λ (r : ObjectRef). record { object_ref = r; balance = each }) effects.created

      rest : GasCoin
      rest = record {
        object_ref = effects.gas_object;
        balance = remaining_coin_balance env coin.balance each (suc k) effects;
      }
