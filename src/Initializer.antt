-- ===== src/Initializer.antt =====
-- The splitting of new coins: src/gas_pool_initializer.rs. Words of 64 bits wrap around. The full node,
-- the signer and the builder of transactions are parameters.
pub mod Conservation
pub mod Run
pub mod Honest
pub mod Pieces
pub mod Queue
use sui_gas_pool.Prelude.{
  ℕ, zero, suc, ◌+◌, ◌-◌, ◌*◌, ◌/◌, ◌%◌, ◌^◌, ◌==◌, leb, Bool, true, false, if◌then◌else◌, Option,
  none, some, List, [], ◌∷◌, ◌++◌, map, Result, ok, err, Error, Action, and_then, is_empty, take,
  drop, length, keep_some,
}
use sui_gas_pool.Prelude.Int.{◌-ℤ◌, signed, unsigned, wrap_i64}
use sui_gas_pool.Types.{ObjectRef, GasCoin, total_balance}
use sui_gas_pool.Sui.{TransactionData, Effects, Response}
use sui_gas_pool.Retry.{Retry}
use sui_gas_pool.SuiClient.{FullNode, execute_transaction, latest_coins}

-- The parts that splitting uses. `split_tx` is the call of `pay::split_n` on the gas coin, from the
-- coin, the number of coins, the budget and the gas price. `nodes` is the node at each turn of the loop.
pub record CoinSplitEnv : Type 1 where
  pub target_init_coin_balance : ℕ
  pub gas_cost_per_object : ℕ
  pub rgp : ℕ
  pub sign : ℕ → TransactionData → Result ℕ
  pub retry : Retry
  pub nodes : ℕ → FullNode
  pub split_tx : ObjectRef → ℕ → ℕ → ℕ → TransactionData

abbrev pub max_split : ℕ
max_split = 2000

unfoldable pub min : ℕ → ℕ → ℕ
min a b = if leb a b then a else b

module _ (env : CoinSplitEnv) where
  open env use {target_init_coin_balance, gas_cost_per_object, rgp, sign, retry, nodes, split_tx}

  -- `self.gas_cost_per_object + self.target_init_coin_balance`
  abbrev pub share : ℕ
  share = (gas_cost_per_object + target_init_coin_balance) % 2 ^ 64

  -- `enqueue_task`: a large coin waits in the queue to be split, a small one is returned.
  unfoldable pub enqueue_task : GasCoin → List GasCoin → Option GasCoin × List GasCoin
  enqueue_task coin queue =
      if leb coin.balance (share * 2 % 2 ^ 64)
      then (some coin, queue)
      else (none, queue ++ coin ∷ [])

  -- `result.extend(self.enqueue_task(…))`
  unfoldable pub extend : GasCoin → List GasCoin × List GasCoin → List GasCoin × List GasCoin
  unfolding enqueue_task
  extend coin (result, queue) =
      let (kept, queue') = enqueue_task coin queue in (result ++ keep_some (kept ∷ []), queue')

  unfoldable pub extend_all :
      List GasCoin → List GasCoin × List GasCoin → List GasCoin × List GasCoin
  unfolding extend
  extend_all [] r = r
  extend_all (coin ∷ coins) r = extend_all coins (extend coin r)

  -- The division panics if the share is zero.
  unfoldable pub split_count : GasCoin → Result ℕ
  unfolding min
  split_count coin =
      if share == 0 then err Error.panic else ok (min max_split (coin.balance / share))

  -- `self.gas_cost_per_object * split_count`
  abbrev pub budget_for : ℕ → ℕ
  budget_for count = gas_cost_per_object * count % 2 ^ 64

  unfoldable pub new_coin_balance : ℕ → ℕ → ℕ → ℕ
  new_coin_balance balance budget count = (balance + 2 ^ 64 - budget) % 2 ^ 64 / count

  unfoldable pub remaining_coin_balance : ℕ → ℕ → ℕ → Effects → ℕ
  remaining_coin_balance balance each count effects = unsigned (
      wrap_i64 (
        signed ((balance + 2 ^ 64 - each * (count - 1) % 2 ^ 64) % 2 ^ 64)
        -ℤ effects.net_gas_usage))

  -- The coins that a split leaves: those that it created, and the rest of the coin.
  unfoldable pub split_coins_of : GasCoin → ℕ → ℕ → Effects → List GasCoin
  unfolding new_coin_balance remaining_coin_balance
  split_coins_of coin count budget effects =
      let each = new_coin_balance coin.balance budget count in
      map (λ (r : ObjectRef). record { object_ref = r; balance = each }) effects.created
      ++ record {
        object_ref = effects.gas_object;
        balance = remaining_coin_balance coin.balance each count effects;
      }
        ∷ []

  -- What follows the loop of `split_one_gas_coin`, in the order of the calls of `enqueue_task`.
  unfoldable pub after_split :
      GasCoin → ℕ → ℕ → Effects → List GasCoin → List GasCoin × List GasCoin
  unfolding extend_all split_coins_of
  after_split coin count budget effects queue =
      extend_all (split_coins_of coin count budget effects) ([], queue)

  -- The coin at its latest version.
  first_coin : Result (List GasCoin) → Result GasCoin
  first_coin (err e) = err Error.panic
  first_coin (ok []) = err Error.panic
  first_coin (ok (c ∷ cs)) = ok c

  latest : ℕ → GasCoin → Result GasCoin
  unfolding first_coin
  latest turn coin = first_coin (latest_coins retry (nodes turn) (coin.object_ref.id ∷ []))

  -- Signing and sending the transaction that splits the coin.
  unfoldable pub send_split : ℕ → GasCoin → ℕ → ℕ → Result Response
  send_split turn coin count budget =
      let tx = split_tx coin.object_ref count budget rgp in
      and_then (retry.forever (λ n. sign n tx)) (λ s.
        execute_transaction retry (nodes turn) (record { tx_data = tx; signatures = s ∷ [] }) 10)

  -- A response whose transaction failed panics; one without effects is not returned by the client.
  unfoldable pub accept : GasCoin → Response → Result (GasCoin × Effects)
  accept coin response = elim response.effects [
    | none ↦ err Error.remote
    | some effects ↦ if effects.is_success then ok (coin, effects) else err Error.panic
  ]

  -- The loop, on fuel: until a transaction is executed, each time with the latest coin.
  unfoldable pub split_loop : ℕ → GasCoin → ℕ → ℕ → Result (GasCoin × Effects)
  unfolding latest send_split accept
  split_loop zero coin count budget = err Error.remote
  split_loop (suc fuel) coin count budget = elim (send_split fuel coin count budget) [
    | ok response ↦ accept coin response
    | err e ↦ and_then (latest fuel coin) (λ c. split_loop fuel c count budget)
  ]

  unfoldable pub split_one_gas_coin :
      ℕ → GasCoin → List GasCoin → Result (List GasCoin × List GasCoin)
  unfolding split_loop
  split_one_gas_coin fuel coin queue = and_then (split_count coin) (λ count.
      and_then (split_loop fuel coin count (budget_for count))
        (λ r. ok (after_split r.0 count (budget_for count) r.1 queue)))

  -- The loop over the queue, on fuel: each task runs when its turn comes.
  unfoldable pub run_tasks : ℕ → List GasCoin × List GasCoin → Result (List GasCoin)
  run_tasks fuel (result, []) = ok result
  run_tasks zero (result, coin ∷ queue) = err Error.remote
  run_tasks (suc fuel) (result, coin ∷ queue) =
      and_then (split_one_gas_coin fuel coin queue) (λ r. run_tasks fuel (result ++ r.0, r.1))

  unfoldable pub split_gas_coins : ℕ → List GasCoin → Result (List GasCoin)
  unfolding run_tasks
  split_gas_coins fuel coins = run_tasks fuel (extend_all coins ([], []))
