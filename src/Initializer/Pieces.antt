-- ===== src/Initializer/Pieces.antt =====
-- The pieces of a large coin: how many there are, what each is worth, and what they weigh.
use native.Mathlib.Nat.{le-div_iff_mul-le, mul-le-mul_left}
use native.Mathlib.Omega.{div_any}
use sui_gas_pool.Prelude.{
  ℕ, suc, ◌+◌, ◌-◌, ◌*◌, ◌/◌, ◌%◌, ◌^◌, ◌≤◌, ◌<◌, ◌≡◌, ap, sym, subst, List, [], ◌∷◌, ◌++◌, map,
  length, length-append, length-map, ok, All, All-append, sum, arith,
}
use sui_gas_pool.Prelude.Int.{pos}
use sui_gas_pool.Types.{ObjectRef, GasCoin, total_balance}
use sui_gas_pool.Sui.{Effects}
use sui_gas_pool.Initializer.{
  CoinSplitEnv, share, split_count, budget_for, new_coin_balance, remaining_coin_balance,
  split_coins_of, max_split, min,
}
use sui_gas_pool.Initializer.Conservation.{rest_exact}
use sui_gas_pool.Initializer.Honest.{Executed}

-- The sizes that are configured leave room for the products of the words, and none is zero.
pub record FitsWords (env : CoinSplitEnv) : Type 0 where
  pub room : (env.gas_cost_per_object + env.target_init_coin_balance) * 2 < 2 ^ 64
  pub positive : 1 ≤ env.target_init_coin_balance

-- The number of splits that a coin can need at most.
abbrev pub weight : List GasCoin → ℕ
weight cs = sum (map (λ c. c.balance - 1) cs)

-- Every coin is worth at least so much.
abbrev pub AtLeast : ℕ → List GasCoin → Type 0
AtLeast least cs = All (λ (c : GasCoin). least ≤ c.balance) cs

pub weight-append : (xs ys : List GasCoin) → weight (xs ++ ys) ≡ weight xs + weight ys
weight-append [] ys = omega arith
weight-append (x ∷ xs) ys = omega (arith, weight-append xs ys)

pub weight-le : (cs : List GasCoin) → weight cs ≤ total_balance cs
weight-le [] = omega arith
weight-le (c ∷ cs) = omega (arith, weight-le cs)

-- Coins that are worth something weigh one less than they are worth.
pub weight-length : (cs : List GasCoin) → AtLeast 1 cs → weight cs + length cs ≡ total_balance cs
weight-length [] h = omega arith
weight-length (c ∷ cs) h = omega (arith, weight-length cs h.1, h.0)

pub AtLeast-of_le : (a b : ℕ) (cs : List GasCoin) → a ≤ b → AtLeast b cs → AtLeast a cs
AtLeast-of_le a b [] le h = tt
AtLeast-of_le a b (c ∷ cs) le h = (omega (arith, le, h.0), AtLeast-of_le a b cs le h.1)

AtLeast-pieces :
    (least each : ℕ) (refs : List ObjectRef)
    → least ≤ each
    → AtLeast least (map (λ (r : ObjectRef). record { object_ref = r; balance = each }) refs)
AtLeast-pieces least each [] h = tt
AtLeast-pieces least each (r ∷ refs) h = (h, AtLeast-pieces least each refs h)

min_le : (a b : ℕ) → min a b ≤ b
unfolding min
min_le a b = ground arith

each_taken :
    (env : CoinSplitEnv) (balance budget k : ℕ)
    → balance < 2 ^ 63
    → budget ≤ balance
    → let each = new_coin_balance env balance budget (suc k) in each * k + each + budget ≤ balance
unfolding new_coin_balance
each_taken env balance budget k small covered = omega (arith, whole, step)
  where
    d : ℕ
    d = (balance + 2 ^ 64 - budget) % 2 ^ 64

    whole : suc k * (d / suc k) ≤ d
    whole = omega (arith, div_any d (suc k))

    step : suc k * (d / suc k) ≡ d / suc k * k + d / suc k
    step = grind arith

module _ (env : CoinSplitEnv) (words : FitsWords env) where
  abbrev g : ℕ
  g = env.gas_cost_per_object

  abbrev t : ℕ
  t = env.target_init_coin_balance

  pub share_exact : share env ≡ g + t
  share_exact = omega (arith, words.room)

  -- The number of pieces of a large coin.
  abbrev pub pieces : GasCoin → ℕ
  pieces coin = min max_split (coin.balance / share env)

  pub split_count-ok : (coin : GasCoin) → split_count env coin ≡ ok (pieces coin)
  unfolding split_count
  split_count-ok coin = ground (arith, share_exact, words.positive)

  pub two_pieces : (coin : GasCoin) → share env * 2 < coin.balance → 2 ≤ pieces coin
  unfolding min
  two_pieces coin large = ground (
    arith,
    (le-div_iff_mul-le {k = share env} {x = 2} {y = coin.balance}
          (omega (arith, share_exact, words.positive))).1
        (omega (arith, large)),
  )

  pieces_covered : (coin : GasCoin) → (g + t) * pieces coin ≤ coin.balance
  pieces_covered coin = omega (
    arith,
    ap (λ s. s * pieces coin) share_exact,
    mul-le-mul_left (share env) (min_le max_split (coin.balance / share env)),
    div_any coin.balance (share env),
  )

  distributed : (n : ℕ) → (g + t) * n ≡ g * n + t * n
  distributed n = grind arith

  -- What the pieces of a large coin cost and hold.
  pub budget_exact :
      (coin : GasCoin) → coin.balance < 2 ^ 63 → budget_for env (pieces coin) ≡ g * pieces coin
  budget_exact coin small = omega (arith, small, pieces_covered coin, distributed (pieces coin))

  pub budget_covered :
      (coin : GasCoin) → coin.balance < 2 ^ 63 → budget_for env (pieces coin) ≤ coin.balance
  budget_covered coin small =
      omega (arith, budget_exact coin small, pieces_covered coin, distributed (pieces coin))

  -- Each piece that is created is worth what was asked for.
  pub each_least :
      (coin : GasCoin)
      → coin.balance < 2 ^ 63
      → share env * 2 < coin.balance
      → t ≤ new_coin_balance env coin.balance (budget_for env (pieces coin)) (pieces coin)
  unfolding new_coin_balance
  each_least coin small large = (le-div_iff_mul-le (omega (arith, two_pieces coin large))).1 (
      omega (arith, small, budget_exact coin small, pieces_covered coin, distributed (pieces coin)))

  -- And so is what is left of the coin.
  pub rest_least :
      (coin : GasCoin) (k used : ℕ) (effects : Effects)
      → coin.balance < 2 ^ 63
      → share env * 2 < coin.balance
      → pieces coin ≡ suc k
      → effects.net_gas_usage ≡ pos used
      → used ≤ budget_for env (suc k)
      → t
        ≤ remaining_coin_balance env coin.balance
            (new_coin_balance env coin.balance (budget_for env (suc k)) (suc k))
            (suc k)
            effects
  rest_least coin k used effects small large n e within = omega (
    arith,
    rest_exact env coin.balance each k effects used small e (omega (arith, taken, within)),
    taken,
    within,
    each_least coin small large,
    ap (λ m. new_coin_balance env coin.balance (budget_for env m) m) n,
  )
    where
      each : ℕ
      each = new_coin_balance env coin.balance (budget_for env (suc k)) (suc k)

      covered : budget_for env (suc k) ≤ coin.balance
      covered = omega (arith, budget_covered coin small, ap (budget_for env) n)

      taken : each * k + each + budget_for env (suc k) ≤ coin.balance
      taken = each_taken env coin.balance (budget_for env (suc k)) k small covered

  -- A large coin is split into at least two, none smaller than what was asked for.
  pub split_coins_of-AtLeast :
      (coin : GasCoin) (effects : Effects)
      → coin.balance < 2 ^ 63
      → share env * 2 < coin.balance
      → Executed (pieces coin) (budget_for env (pieces coin)) effects
      → AtLeast t (split_coins_of env coin (pieces coin) (budget_for env (pieces coin)) effects)
        × (2
            ≤ length (split_coins_of env coin (pieces coin) (budget_for env (pieces coin)) effects))
  unfolding split_coins_of
  split_coins_of-AtLeast coin effects small large done = (
    All-append (λ (c : GasCoin). t ≤ c.balance) _ _
        (AtLeast-pieces t _ effects.created (each_least coin small large)) (kept, tt),
    omega (
      arith,
      two_pieces coin large,
      done.created_count,
      length-append created (rest ∷ []),
      length-map {B = GasCoin} (λ (r : ObjectRef). record { object_ref = r; balance = each })
          effects.created,
    ),
  )
    where
      each : ℕ
      each = new_coin_balance env coin.balance (budget_for env (pieces coin)) (pieces coin)

      created : List GasCoin
      created = map (λ (r : ObjectRef). record { object_ref = r; balance = each }) effects.created

      rest : GasCoin
      rest = record {
        object_ref = effects.gas_object;
        balance = remaining_coin_balance env coin.balance each (pieces coin) effects;
      }

      kept : t ≤ remaining_coin_balance env coin.balance each (pieces coin) effects
      kept =
          subst
            (λ n.
              t
              ≤ remaining_coin_balance env coin.balance
                  (new_coin_balance env coin.balance (budget_for env n) n) n effects)
            done.created_count
            (rest_least coin (length effects.created) done.used effects small large
              (sym done.created_count) done.usage
              (omega (arith, done.within, ap (budget_for env) done.created_count)))
