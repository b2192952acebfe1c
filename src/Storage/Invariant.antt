-- ===== src/Storage/Invariant.antt =====
-- The store of a sponsor seen as the list of its available coins.
use mathlib.Core.List.{map-append}
use sui_gas_pool.Prelude.{
  ◌+◌, ◌^◌, ◌<◌, ◌≡◌, ap, ◌∙◌, some, List, ◌++◌, map, length, sum, sum-append, All,
}
use sui_gas_pool.Prelude.Int.{pos}
use sui_gas_pool.Types.{GasCoin, IsCoin, total_balance}
use sui_gas_pool.Storage.Store.{Store}
use sui_gas_pool.Storage.Formats.{Formats, coin_text}

-- The list holds these coins in this order, the statistics are theirs, and the sums are below the
-- bound up to which the numbers of Lua are exact.
pub record Holds (F : Formats) (s : Store) (coins : List GasCoin) : Type 0 where
  pub texts : s.available_gas_coins ≡ map (coin_text F) coins
  pub stat_total : s.available_coin_total_balance ≡ some (pos (total_balance coins))
  pub stat_count : s.available_coin_count ≡ some (pos (length coins))
  pub total_exact : total_balance coins < 2 ^ 53
  pub count_exact : length coins < 2 ^ 53
  pub in_range : All IsCoin coins

-- What the invariant reads of a store.
pub Holds_of_same :
    (F : Formats) (s t : Store) (coins : List GasCoin)
    → t.available_gas_coins ≡ s.available_gas_coins
    → t.available_coin_total_balance ≡ s.available_coin_total_balance
    → t.available_coin_count ≡ s.available_coin_count
    → Holds F s coins
    → Holds F t coins
Holds_of_same F s t coins texts total number h = record {
  texts = texts ∙ h.texts;
  stat_total = total ∙ h.stat_total;
  stat_count = number ∙ h.stat_count;
  total_exact = h.total_exact;
  count_exact = h.count_exact;
  in_range = h.in_range;
}

pub total_balance-append :
    (xs ys : List GasCoin) → total_balance (xs ++ ys) ≡ total_balance xs + total_balance ys
total_balance-append xs ys =
    ap sum (map-append (λ (c : GasCoin). c.balance) xs ys)
    ∙ sum-append (map (λ (c : GasCoin). c.balance) xs) (map (λ (c : GasCoin). c.balance) ys)
