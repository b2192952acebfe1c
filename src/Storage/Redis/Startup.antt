-- ===== src/Storage/Redis/Startup.antt =====
-- `init_coin_stats_at_startup` of the trait `Storage`, met by `RedisStorage`, and the two counts that
-- are read back.
use sui_gas_pool.Prelude.{
  ℕ, ◌≡◌, Option, none, List, [], ◌∷◌, arith, ok, err, Error, length, Option-cases, inl, inr,
}
use sui_gas_pool.Prelude.Int.{unsigned, unsigned-pos}
use sui_gas_pool.Text.{Text, cut}
use sui_gas_pool.Types.{GasCoin, total_balance}
use sui_gas_pool.Storage.Store.{Store}
use sui_gas_pool.Storage.Formats.{Formats}
use sui_gas_pool.Storage.Invariant.{Holds}
use sui_gas_pool.Storage.Scripts.Init.{init_stats_script}
use sui_gas_pool.Storage.Redis.{
  init_coin_stats_at_startup, get_available_coin_count, get_available_coin_total_balance,
}

-- On a store that holds coins, the start-up call and the two queries return the number of coins and
-- their total balance, and change nothing.
pub init_coin_stats_at_startup_keeps :
    (F : Formats) (to_integer : Text → Option ℕ) (s : Store) (coins : List GasCoin)
    → Holds F s coins
    → (init_coin_stats_at_startup to_integer s ≡ (ok (length coins, total_balance coins), s))
      × (get_available_coin_count s ≡ (ok (length coins), s))
      × (get_available_coin_total_balance s ≡ (ok (total_balance coins), s))
unfolding init_coin_stats_at_startup init_stats_script get_available_coin_count
    get_available_coin_total_balance
init_coin_stats_at_startup_keeps F to_integer s coins holds = (
  ground (arith, unsigned-pos (length coins), unsigned-pos (total_balance coins)),
  ground arith,
  ground arith,
)

-- On a store with neither coins nor statistics, the start-up call sets the statistics to zero: the
-- store then holds the empty list of coins.
pub init_coin_stats_at_startup_fresh :
    (F : Formats) (to_integer : Text → Option ℕ) (s : Store)
    → s.available_gas_coins ≡ []
    → s.available_coin_count ≡ none
    → s.available_coin_total_balance ≡ none
    → ((init_coin_stats_at_startup to_integer s).0 ≡ ok (0, 0))
      × Holds F (init_coin_stats_at_startup to_integer s).1 []
unfolding init_coin_stats_at_startup init_stats_script unsigned
init_coin_stats_at_startup_fresh F to_integer s e c t = (
  ground arith,
  record {
    texts = ground arith;
    stat_total = ground arith;
    stat_count = ground arith;
    total_exact = omega arith;
    count_exact = omega arith;
    in_range = tt;
  },
)

-- Where `math.tointeger` is missing, as in the Lua of Redis, the start-up call fails on every store that
-- has a coin but no total.
pub init_coin_stats_at_startup_fails :
    (to_integer : Text → Option ℕ) (s : Store) (coin : Text) (coins : List Text)
    → ((t : Text) → to_integer t ≡ none)
    → s.available_gas_coins ≡ coin ∷ coins
    → s.available_coin_total_balance ≡ none
    → (init_coin_stats_at_startup to_integer s).0 ≡ err Error.script_failed
unfolding init_coin_stats_at_startup init_stats_script
init_coin_stats_at_startup_fails to_integer s coin coins missing e t =
    elim (Option-cases (cut coin)) [
      | inl bad ↦ ground arith
      | inr ((b, rest), good) ↦ ground (arith, missing b)
    ]
