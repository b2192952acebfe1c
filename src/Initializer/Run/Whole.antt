-- ===== src/Initializer/Run/Whole.antt =====
-- A run of the initializer with the client of the full node and the splitting of coins put together, as
-- `run_once` calls them.
use sui_gas_pool.Prelude.{
  ℕ, ◌≡◌, ◌<◌, ◌≤◌, ◌^◌, ap, ◌∙◌, true, Option, none, some, List, [], ◌∷◌, Result, ok, err, Error,
  All, and_then, arith,
}
use sui_gas_pool.Types.{ObjectId, GasCoin, total_balance}
use sui_gas_pool.Retry.{IsRetry}
use sui_gas_pool.Storage.Store.{Store}
use sui_gas_pool.Storage.Formats.{Formats, IsFormats}
use sui_gas_pool.Storage.Invariant.{Holds}
use sui_gas_pool.Storage.Redis.{acquire_init_lock}
use sui_gas_pool.SuiClient.{
  Page, above, get_all_owned_sui_coins_above_balance_threshold, calibrate_gas_cost_per_object,
}
use sui_gas_pool.SuiClient.Paging.{Serves, get_all_owned-Serves}
use sui_gas_pool.Initializer.{CoinSplitEnv, split_gas_coins}
use sui_gas_pool.Initializer.Honest.{IsHonest}
use sui_gas_pool.Initializer.Pieces.{FitsWords, AtLeast}
use sui_gas_pool.Initializer.Queue.{IsSmall, split_gas_coins_ends}
use sui_gas_pool.Initializer.Run.{
  RunMode, Parts, max_init_duration_sec, balance_threshold, run_once,
}
use sui_gas_pool.Initializer.Run.Steps.{IsNew, Stored, among, run_once-Stored}

-- What the node answers: the pages of the sponsor's coins, and the trial run with the first coin.
pub record Chain : Type 0 where
  pub get_coins : Option ℕ → Page
  pub inspect : GasCoin → ℕ → Result ℕ

-- The environment in which an object costs so much.
abbrev pub priced : CoinSplitEnv → ℕ → CoinSplitEnv
priced env cost = record env { gas_cost_per_object = cost }

pages_or_stuck : Option (List GasCoin) → Result (List GasCoin)
pages_or_stuck none = err Error.remote
pages_or_stuck (some coins) = ok coins

-- `pages` and `fuel` bound the two loops.
unfoldable pub chain_parts : Chain → CoinSplitEnv → ℕ → ℕ → Parts
unfolding pages_or_stuck
chain_parts chain env pages fuel = record {
  owned = λ threshold.
      pages_or_stuck
        (get_all_owned_sui_coins_above_balance_threshold chain.get_coins pages threshold);
  split = λ c coins.
      and_then (calibrate_gas_cost_per_object env.retry (chain.inspect c))
        (λ cost. split_gas_coins (priced env cost) fuel coins);
  target_init_balance = env.target_init_coin_balance;
}

module _ (F : Formats) (laws : IsFormats F) (chain : Chain) (env : CoinSplitEnv) where
  -- A run that gets the lock, with a node that serves the sponsor's coins on its pages, tells the cost of
  -- an object and executes the splits, and with sizes that fit their words, ends: it stores coins that
  -- are worth at most twice the share each, and in all no more than the coins that were found, behind
  -- those that the store held, and releases the lock, provided that whatever the splitting returns is
  -- new to the store and fits.
  pub run_once_splits :
      (now : ℕ) (mode : RunMode) (s : Store) (coins owned found : List GasCoin) (c : GasCoin)
      (known out spent : List ObjectId) (pages n fuel cost : ℕ)
      → (acquire_init_lock now max_init_duration_sec s).0 ≡ ok true
      → Serves chain.get_coins n none owned
      → n ≤ pages
      → above (balance_threshold mode env.target_init_coin_balance) owned ≡ c ∷ found
      → calibrate_gas_cost_per_object env.retry (chain.inspect c) ≡ ok cost
      → FitsWords (priced env cost)
      → IsRetry env.retry
      → IsHonest (priced env cost)
      → total_balance (c ∷ found) < 2 ^ 63
      → total_balance (c ∷ found) < fuel
      → Holds F s coins
      → ((more : List GasCoin)
          → split_gas_coins (priced env cost) fuel (c ∷ found) ≡ ok more
          → IsNew coins more known)
      → let parts = chain_parts chain env pages fuel in
        (more : List GasCoin) × Stored F laws parts out spent
          (among F laws parts out spent s known)
          (run_once F parts now mode s)
          coins
          more
          known
        × All (IsSmall (priced env cost) 0) more
        × (total_balance more ≤ total_balance (c ∷ found))
  unfolding chain_parts pages_or_stuck
  run_once_splits now mode s coins owned found c known out spent pages n fuel cost got serves enough
        large priced_at words retries honest fits fuelled holds new =
      let (more, ends, small, less) =
        split_gas_coins_ends (priced env cost) words retries honest 0 fuel (c ∷ found) (omega arith)
          (any_AtLeast (c ∷ found)) fits fuelled in
      (
        more,
        run_once-Stored F laws (chain_parts chain env pages fuel) out spent now mode s coins more
            found c known got
            (ap pages_or_stuck (
              get_all_owned-Serves chain.get_coins pages n
                (balance_threshold mode env.target_init_coin_balance) owned serves enough
              ∙ ap some large))
            (rw priced_at ends) holds (new more ends),
        small,
        less,
      )
    where
      any_AtLeast : (cs : List GasCoin) → AtLeast 0 cs
      any_AtLeast [] = tt
      any_AtLeast (x ∷ cs) = (omega arith, any_AtLeast cs)
