-- ===== src/Storage/Redis/AddNew.antt =====
-- `add_new_coins` of the trait `Storage`, met by `RedisStorage`.
use mathlib.Core.List.{map-append}
use sui_gas_pool.Prelude.{
  All-append, ◌+◌, ◌^◌, ◌<◌, ◌≡◌, sym, ap, some, List, ◌++◌, map, ok, arith, length, length-append,
  All,
}
use sui_gas_pool.Prelude.Int.{pos}
use sui_gas_pool.Types.{GasCoin, IsCoin, total_balance}
use sui_gas_pool.Storage.Store.{Store}
use sui_gas_pool.Storage.Formats.{Formats, IsFormats, coin_text}
use sui_gas_pool.Storage.Invariant.{Holds, total_balance-append}
use sui_gas_pool.Storage.Scripts.AddNew.{grown, add_script-Holds}
use sui_gas_pool.Storage.Redis.{add_new_coins}

module _ (F : Formats) (laws : IsFormats F) where
  -- On a store that holds `coins`, adding coins whose numbers fit their words succeeds if the total
  -- and the number stay below 2^53: the new coins stand behind the old ones, the statistics are those of the whole
  -- list, and nothing else but the flag `initialized` has changed.
  pub add_new_coins_appends :
      (s : Store) (coins new_coins : List GasCoin)
      → Holds F s coins
      → All IsCoin new_coins
      → total_balance coins + total_balance new_coins < 2 ^ 53
      → length coins + length new_coins < 2 ^ 53
      → (add_new_coins F new_coins s ≡ (ok tt, grown F s coins new_coins))
        × Holds F (grown F s coins new_coins) (coins ++ new_coins)
  unfolding add_new_coins grown
  add_new_coins_appends s coins new_coins holds fit h h' = (
    rw (
      laws.from_json-to_json (map (coin_text F) new_coins),
      add_script-Holds F laws s coins new_coins holds h h',
    ),
    record {
      texts = sym (map-append (coin_text F) coins new_coins);
      stat_total = ap (λ n. some (pos n)) (sym (total_balance-append coins new_coins));
      stat_count = ap (λ n. some (pos n)) (sym (length-append coins new_coins));
      total_exact = omega (arith, total_balance-append coins new_coins);
      count_exact = omega (arith, length-append coins new_coins);
      in_range = All-append IsCoin coins new_coins holds.in_range fit;
    },
  )
