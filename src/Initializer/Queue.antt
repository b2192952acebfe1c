-- ===== src/Initializer/Queue.antt =====
-- Splitting every large coin ends: the loop of `split_gas_coins` over its queue of tasks.
use sui_gas_pool.Prelude.{
  ℕ, zero, suc, ◌+◌, ◌-◌, ◌*◌, ◌%◌, ◌^◌, ◌≤◌, ◌<◌, ◌≡◌, refl, subst, leb, Bool-cases, true, false,
  inl, inr, List, [], ◌∷◌, ◌++◌, length, ok, All, All-append, arith,
}
use sui_gas_pool.Types.{GasCoin, total_balance}
use sui_gas_pool.Sui.{Effects}
use sui_gas_pool.Retry.{IsRetry}
use sui_gas_pool.Storage.Invariant.{total_balance-append}
use sui_gas_pool.Initializer.{
  CoinSplitEnv, share, enqueue_task, extend, extend_all, split_coins_of, after_split, budget_for,
  run_tasks, split_gas_coins,
}
use sui_gas_pool.Initializer.Conservation.{total_of, extend_all-total, after_split-total}
use sui_gas_pool.Initializer.Honest.{Executed, IsHonest, split_one-ok}
use sui_gas_pool.Initializer.Pieces.{
  FitsWords, weight, weight-append, weight-length, weight-le, AtLeast, AtLeast-of_le, share_exact,
  pieces, split_count-ok, budget_covered, two_pieces, split_coins_of-AtLeast,
}

-- A coin that need not be split, and one that waits.
abbrev pub IsSmall : CoinSplitEnv → ℕ → GasCoin → Type 0
IsSmall env least c =
    (least ≤ c.balance) × (c.balance ≤ (env.gas_cost_per_object + env.target_init_coin_balance) * 2)

abbrev IsLarge : CoinSplitEnv → GasCoin → Type 0
IsLarge env c = (env.gas_cost_per_object + env.target_init_coin_balance) * 2 < c.balance

record IsSorted (env : CoinSplitEnv) (least : ℕ) (r : List GasCoin × List GasCoin) : Type 0 where
  done : All (IsSmall env least) r.0
  waiting : All (IsLarge env) r.1

module _ (env : CoinSplitEnv) (words : FitsWords env) where
  limit_exact :
      share env * 2 % 2 ^ 64 ≡ (env.gas_cost_per_object + env.target_init_coin_balance) * 2
  limit_exact = omega (arith, words.room)

  -- Where a coin goes.
  extend-IsSorted :
      (least : ℕ) (coin : GasCoin) (r : List GasCoin × List GasCoin)
      → least ≤ coin.balance
      → IsSorted env least r
      → IsSorted env least (extend env coin r)
        × (weight (extend env coin r).1 ≤ weight r.1 + (coin.balance - 1))
  unfolding extend enqueue_task
  extend-IsSorted least coin (result, queue) h sorted =
      elim (Bool-cases (leb coin.balance (share env * 2 % 2 ^ 64))) [
        | inl small ↦ rw small (
          record {
            done =
                All-append (IsSmall env least) result (coin ∷ []) sorted.done
                  ((h, omega (arith, limit_exact, le_of small)), tt);
            waiting = sorted.waiting;
          },
          omega arith,
        )
        | inr large ↦ rw large (
          record {
            done = All-append (IsSmall env least) result [] sorted.done tt;
            waiting =
                All-append (IsLarge env) queue (coin ∷ []) sorted.waiting
                  (omega (arith, limit_exact, lt_of large), tt);
          },
          omega (arith, weight-append queue (coin ∷ [])),
        )
      ]
    where
      le_of :
          leb coin.balance (share env * 2 % 2 ^ 64) ≡ true → coin.balance ≤ share env * 2 % 2 ^ 64
      le_of h = ground arith

      lt_of :
          leb coin.balance (share env * 2 % 2 ^ 64) ≡ false → share env * 2 % 2 ^ 64 < coin.balance
      lt_of h = ground arith

  extend_all-IsSorted :
      (least : ℕ) (coins : List GasCoin) (r : List GasCoin × List GasCoin)
      → AtLeast least coins
      → IsSorted env least r
      → IsSorted env least (extend_all env coins r)
        × (weight (extend_all env coins r).1 ≤ weight r.1 + weight coins)
  unfolding extend_all
  extend_all-IsSorted least [] r h sorted = (sorted, omega arith)
  extend_all-IsSorted least (c ∷ coins) r h sorted =
      let (one, lighter) = extend-IsSorted least c r h.0 sorted in
      let (all, lighter') = extend_all-IsSorted least coins (extend env c r) h.1 one in
      (all, omega (arith, lighter, lighter'))

  -- What one split leaves of the work.
  after_split-IsSorted :
      (least : ℕ) (coin : GasCoin) (effects : Effects) (queue : List GasCoin)
      → least ≤ env.target_init_coin_balance
      → coin.balance < 2 ^ 63
      → IsLarge env coin
      → All (IsLarge env) queue
      → Executed (pieces env words coin) (budget_for env (pieces env words coin)) effects
      → let r =
          after_split env coin
            (pieces env words coin)
            (budget_for env (pieces env words coin))
            effects
            queue in
        IsSorted env least r
        × (total_of r ≤ total_balance queue + coin.balance)
        × (suc (weight r.1) ≤ weight queue + (coin.balance - 1))
  unfolding after_split
  after_split-IsSorted least coin effects queue le small large waiting done = (
    sorted.0,
    omega (arith, balance),
    omega (
      arith,
      sorted.1,
      parts.1,
      large,
      balance,
      extend_all-total env split ([], queue),
      weight-length split
          (AtLeast-of_le 1 env.target_init_coin_balance split words.positive parts.0),
    ),
  )
    where
      n : ℕ
      n = pieces env words coin

      split : List GasCoin
      split = split_coins_of env coin n (budget_for env n) effects

      large' : share env * 2 < coin.balance
      large' = omega (arith, large, share_exact env words)

      parts : AtLeast env.target_init_coin_balance split × (2 ≤ length split)
      parts = split_coins_of-AtLeast env words coin effects small large' done

      sorted :
          IsSorted env least (extend_all env split ([], queue))
          × (weight (extend_all env split ([], queue)).1 ≤ weight queue + weight split)
      sorted =
          extend_all-IsSorted least split ([], queue)
            (AtLeast-of_le least env.target_init_coin_balance split le parts.0)
            (record { done = tt; waiting = waiting })

      balance :
          total_of (extend_all env split ([], queue)) + done.used
          ≡ total_balance queue + coin.balance
      balance =
          subst
            (λ m.
              total_of (after_split env coin m (budget_for env n) effects queue) + done.used
              ≡ total_balance queue + coin.balance)
            done.created_count
            (after_split-total env coin (budget_for env n) done.used effects queue small
              (budget_covered env words coin small) done.usage done.within)

  module _ (retries : IsRetry env.retry) (honest : IsHonest env) where
    -- The loop over the tasks, from any state of the work.
    run_tasks-ok :
        (least fuel : ℕ) (r : List GasCoin × List GasCoin)
        → least ≤ env.target_init_coin_balance
        → IsSorted env least r
        → total_of r < 2 ^ 63
        → weight r.1 < fuel
        → (out : List GasCoin) × (run_tasks env fuel r ≡ ok out)
          × All (IsSmall env least) out
          × (total_balance out ≤ total_of r)
    unfolding run_tasks
    run_tasks-ok least zero r le sorted fits enough = absurd (omega (arith, enough))
    run_tasks-ok least (suc fuel) (result, []) le sorted fits enough =
        (result, refl, sorted.done, omega arith)
    run_tasks-ok least (suc zero) (result, coin ∷ queue) le sorted fits enough =
        absurd (omega (arith, enough, sorted.waiting.0))
    run_tasks-ok least (suc (suc fuel)) (result, coin ∷ queue) le sorted fits enough =
        let two =
          two_pieces env words coin (omega (arith, sorted.waiting.0, share_exact env words)) in
        let (effects, ran, done) =
          split_one-ok env retries honest fuel coin queue (pieces env words coin)
            (split_count-ok env words coin) (omega (arith, two)) in
        let (sorted', lighter_total, lighter) =
          after_split-IsSorted least coin effects queue le (omega (arith, fits)) sorted.waiting.0
            sorted.waiting.1 done in
        let r' =
          after_split env coin (pieces env words coin) (budget_for env (pieces env words coin))
            effects queue in
        let (out, e, small, total) =
          run_tasks-ok least (suc fuel) (result ++ r'.0, r'.1) le
            (record {
              done = All-append (IsSmall env least) result r'.0 sorted.done sorted'.done;
              waiting = sorted'.waiting;
            })
            (omega (arith, lighter_total, fits, total_balance-append result r'.0))
            (omega (arith, lighter, enough)) in
        (
          out,
          rw ran e,
          small,
          omega (arith, total, lighter_total, total_balance-append result r'.0),
        )

    -- If the signer signs and the node executes the splits within their budgets, the sizes fit
    -- their words, the target is not zero and the coins are worth less than 2^63 in all, then the
    -- loop ends, within one turn more than the coins are worth, and returns coins that are worth no
    -- more than twice the share each and in all no more than the coins that were given; none is
    -- worth less than a bound that the given coins and the target obey.
    pub split_gas_coins_ends :
        (least fuel : ℕ) (coins : List GasCoin)
        → least ≤ env.target_init_coin_balance
        → AtLeast least coins
        → total_balance coins < 2 ^ 63
        → total_balance coins < fuel
        → (out : List GasCoin) × (split_gas_coins env fuel coins ≡ ok out)
          × All (IsSmall env least) out
          × (total_balance out ≤ total_balance coins)
    unfolding split_gas_coins
    split_gas_coins_ends least fuel coins le big fits enough =
        let (sorted, light) =
          extend_all-IsSorted least coins ([], []) big (record { done = tt; waiting = tt }) in
        let total = extend_all-total env coins ([], []) in
        let (out, e, small, kept) =
          run_tasks-ok least fuel (extend_all env coins ([], [])) le sorted
            (omega (arith, total, fits)) (omega (arith, light, weight-le coins, enough)) in
        (out, e, small, omega (arith, kept, total))
