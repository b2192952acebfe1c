-- ===== src/Initializer/Honest.antt =====
-- A full node that executes the transactions that split coins, and the loop of `split_one_gas_coin`
-- with it.
use sui_gas_pool.Prelude.{ℕ, suc, ◌≤◌, ◌≡◌, refl, true, some, List, [], ◌∷◌, ok, length}
use sui_gas_pool.Prelude.Int.{pos}
use sui_gas_pool.Types.{ObjectRef, GasCoin}
use sui_gas_pool.Sui.{TransactionData, Effects, Response}
use sui_gas_pool.Retry.{IsRetry}
use sui_gas_pool.SuiClient.{execute_transaction, require_effects}
use sui_gas_pool.Initializer.{
  CoinSplitEnv, send_split, accept, split_loop, split_count, budget_for, split_one_gas_coin,
  after_split,
}

-- What the execution of a split into so many coins does: it creates one coin less, since the coin
-- itself stays, and the gas that it uses is within the budget.
pub record Executed (count budget : ℕ) (effects : Effects) : Type 0 where
  pub used : ℕ
  pub created_count : suc (length effects.created) ≡ count
  pub succeeds : effects.is_success ≡ true
  pub usage : effects.net_gas_usage ≡ pos used
  pub within : used ≤ budget

-- The signer signs, and the node answers the first attempt at a split with its effects.
pub record IsHonest (env : CoinSplitEnv) : Type 0 where
  pub signs : (tx : TransactionData) → (s : ℕ) × (env.sign 0 tx ≡ ok s)
  pub executes :
      (turn : ℕ) (r : ObjectRef) (count budget s : ℕ)
      → 1 ≤ count
      → (response : Response) × (effects : Effects) × ((env.nodes turn).execute_block 0
            (record { tx_data = env.split_tx r count budget env.rgp; signatures = s ∷ [] })
          ≡ ok response)
        × (response.effects ≡ some effects)
        × Executed count budget effects

module _ (env : CoinSplitEnv) (retries : IsRetry env.retry) (honest : IsHonest env) where
  send_split-ok :
      (turn : ℕ) (coin : GasCoin) (count budget : ℕ)
      → 1 ≤ count
      → (response : Response) × (effects : Effects) × (send_split env turn coin count budget
          ≡ ok response)
        × (response.effects ≡ some effects)
        × Executed count budget effects
  unfolding send_split execute_transaction require_effects
  send_split-ok turn coin count budget h =
      let tx = env.split_tx coin.object_ref count budget env.rgp in
      let (s, signed) = honest.signs tx in
      let (response, effects, sent, there, executed) =
        honest.executes turn coin.object_ref count budget s h in
      let first = retries.forever_first (λ n. env.sign n tx) s signed in
      let second =
        retries.limited_first 10
          (λ n. (env.nodes turn).execute_block n (record { tx_data = tx; signatures = s ∷ [] }))
          response sent in
      (response, effects, rw first (rw second (rw there refl)), there, executed)

  -- One turn of the loop is enough.
  split_loop-ok :
      (fuel : ℕ) (coin : GasCoin) (count budget : ℕ)
      → 1 ≤ count
      → (effects : Effects) × (split_loop env (suc fuel) coin count budget ≡ ok (coin, effects))
        × Executed count budget effects
  unfolding split_loop accept
  split_loop-ok fuel coin count budget h =
      let (response, effects, sent, there, executed) = send_split-ok fuel coin count budget h in
      (effects, rw (sent, split_loop) (rw (there, accept) (rw executed.succeeds refl)), executed)

  -- So a coin is split as soon as the number of coins is known.
  pub split_one-ok :
      (fuel : ℕ) (coin : GasCoin) (queue : List GasCoin) (count : ℕ)
      → split_count env coin ≡ ok count
      → 1 ≤ count
      → (effects : Effects) × (split_one_gas_coin env (suc fuel) coin queue
          ≡ ok (after_split env coin count (budget_for env count) effects queue))
        × Executed count (budget_for env count) effects
  unfolding split_one_gas_coin
  split_one-ok fuel coin queue count counted h =
      let (effects, ran, executed) = split_loop-ok fuel coin count (budget_for env count) h in
      (effects, rw (counted, ran) refl, executed)
