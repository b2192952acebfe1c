-- ===== src/Storage/Scripts/AddNew.antt =====
-- `add_new_coins.lua` on a store that holds coins.
use mathlib.Core.Path.{ap₂}
use sui_gas_pool.Prelude.{
  Option, Option-cases, none, some, inl, inr, refl, ℕ, ◌+◌, ◌^◌, ◌<◌, ◌≡◌, ◌∙◌, true, List, ◌++◌,
  map, ok, arith, ltb, if◌then◌else◌, length, length-map,
}
use sui_gas_pool.Prelude.Int.{pos, ◌+ℤ◌}
use sui_gas_pool.Text.{Text}
use sui_gas_pool.Types.{GasCoin, total_balance}
use sui_gas_pool.Storage.Double.{double_ℤ_exact}
use sui_gas_pool.Storage.Store.{Store}
use sui_gas_pool.Storage.Formats.{Formats, IsFormats, coin_text}
use sui_gas_pool.Storage.Invariant.{Holds}
use sui_gas_pool.Storage.Scripts.{add_script, finish_add, add_stats, push_coins}
use sui_gas_pool.Storage.Scripts.Loop.{push_coins-map}

-- The store with `new_coins` behind `coins`.
unfoldable pub grown : Formats → Store → List GasCoin → List GasCoin → Store
grown F s coins new_coins = record s {
  available_gas_coins = map (coin_text F) coins ++ map (coin_text F) new_coins;
  initialized = if ltb 0 (length new_coins) then true else s.initialized;
  available_coin_total_balance = some (pos (total_balance coins + total_balance new_coins));
  available_coin_count = some (pos (length coins + length new_coins));
}

pos-add : (a b : ℕ) → pos a +ℤ pos b ≡ pos (a + b)
unfolding ◌+ℤ◌
pos-add a b = ground arith

add_stats_lem :
    (s : Store) (total count more more_count : ℕ)
    → s.available_coin_total_balance ≡ some (pos total)
    → s.available_coin_count ≡ some (pos count)
    → total + more < 2 ^ 53
    → count + more_count < 2 ^ 53
    → add_stats more more_count s ≡ (
      ok (pos (total + more), pos (count + more_count)),
      record s {
        available_coin_total_balance = some (pos (total + more));
        available_coin_count = some (pos (count + more_count));
      },
    )
unfolding add_stats
add_stats_lem s total count more more_count e e' h h' = rw (
  add_stats,
  e,
  e',
  pos-add total more,
  pos-add count more_count,
  double_ℤ_exact (total + more) h,
  double_ℤ_exact (count + more_count) h',
)

pub add_script-Holds :
    (F : Formats) (laws : IsFormats F) (s : Store) (coins new_coins : List GasCoin)
    → Holds F s coins
    → total_balance coins + total_balance new_coins < 2 ^ 53
    → length coins + length new_coins < 2 ^ 53
    → add_script (map (coin_text F) new_coins) s ≡ (
      ok (
        pos (total_balance coins + total_balance new_coins),
        pos (length coins + length new_coins),
      ),
      grown F s coins new_coins,
    )
unfolding add_script finish_add grown
add_script-Holds F laws s coins new_coins holds h h' =
    ap₂ (λ n l. finish_add n l s) (length-map (coin_text F) new_coins) pushed
    ∙ add_stats_lem _ (total_balance coins) (length coins) (total_balance new_coins)
        (length new_coins) holds.stat_total holds.stat_count h h'
  where
    no_more : 0 + total_balance new_coins ≡ total_balance new_coins
    no_more = omega arith

    pushed :
        push_coins (map (coin_text F) new_coins) 0 s.available_gas_coins
        ≡ (some (total_balance new_coins), map (coin_text F) coins ++ map (coin_text F) new_coins)
    pushed =
        push_coins-map F laws new_coins 0 s.available_gas_coins (omega (arith, holds.total_exact))
        ∙ λ i. (some (no_more i), holds.texts i ++ map (coin_text F) new_coins)

-- Whatever comes of it, the reservations stay.
add_stats-reservations :
    (total count : ℕ) (s : Store) → (add_stats total count s).1.reservations ≡ s.reservations
unfolding add_stats
add_stats-reservations total count s = elim (Option-cases s.available_coin_total_balance) [
  | inl missing ↦ rw (missing, add_stats) refl
  | inr (t, e) ↦ elim (Option-cases s.available_coin_count) [
    | inl missing ↦ rw (e, add_stats, missing) refl
    | inr (c, e') ↦ rw (e, add_stats, e') refl
  ]
]

finish_add-reservations :
    (count : ℕ) (r : Option ℕ × List Text) (s : Store)
    → (finish_add count r s).1.reservations ≡ s.reservations
unfolding finish_add
finish_add-reservations count (none, available) s = refl
finish_add-reservations count (some total, available) s =
    add_stats-reservations total count (record s {
      available_gas_coins = available;
      initialized = if ltb 0 count then true else s.initialized;
    })

pub add_script-reservations :
    (coins : List Text) (s : Store) → (add_script coins s).1.reservations ≡ s.reservations
unfolding add_script
add_script-reservations coins s =
    finish_add-reservations (length coins) (push_coins coins 0 s.available_gas_coins) s
