-- ===== src/Tests/Starting.antt =====
-- The initializer under its lock, the pages of coins and the coin after a transaction, at concrete
-- values.
use sui_gas_pool.Prelude.{
  ℕ, ◌^◌, ◌<◌, ◌≡◌, refl, ap, true, false, some, none, Option, [], ◌∷◌, ok, arith, inl, inr, ltb,
}
use sui_gas_pool.Prelude.Int.{pos, pos_part, ◌-ℤ◌}
use sui_gas_pool.Storage.Double.{double, double_exact}
use sui_gas_pool.Storage.Scripts.Init.{acquire_lock_script, release_lock_script}
use sui_gas_pool.Storage.Redis.{acquire_init_lock, release_init_lock}
use sui_gas_pool.SuiClient.{Page, above, get_all_owned_sui_coins_above_balance_threshold}
use sui_gas_pool.SuiClient.Paging.{Serves, get_all_owned-Serves}
use sui_gas_pool.Rpc.{Texts, ExecuteTxRequest}
use sui_gas_pool.GasPool.Core.{updated_coins}
use sui_gas_pool.GasPool.Core.Accounts.{updated_coins-balance}
use sui_gas_pool.Initializer.Run
use sui_gas_pool.Initializer.Run.{
  refresh, max_init_duration_sec, run_once, with_lock, split_owned, release, must,
}
use sui_gas_pool.Tests.{formats, coin_of, ref_of, store, effects, response, node, parts}

-- Coins 11 and 12 on two pages.
abbrev pages : Option ℕ → Page
pages none = record { items = coin_of 11 5 ∷ []; has_next_page = true; next_cursor = some 1 }
pages (some n) = record { items = coin_of 12 7 ∷ []; has_next_page = false; next_cursor = none }

two_pages : Serves pages 2 none (coin_of 11 5 ∷ coin_of 12 7 ∷ [])
two_pages = inr (refl, coin_of 12 7 ∷ [], refl, inl (refl, refl))

get_all_owned-Serves_example :
    get_all_owned_sui_coins_above_balance_threshold pages 3 6
    ≡ some (above 6 (coin_of 11 5 ∷ coin_of 12 7 ∷ []))
get_all_owned-Serves_example =
    get_all_owned-Serves pages 3 2 6 (coin_of 11 5 ∷ coin_of 12 7 ∷ []) two_pages (omega arith)

fits : pos_part (pos 20 -ℤ pos 2) < 2 ^ 63
unfolding ◌-ℤ◌
fits = omega arith

updated_coins-balance_example :
    (balance : ℕ) × (pos balance ≡ pos 20 -ℤ pos 2)
    × (updated_coins parts node 20 (13 ∷ []) (ok response)
        ≡ ok (record { object_ref = ref_of 13; balance = balance } ∷ []))
updated_coins-balance_example =
    updated_coins-balance parts node 20 (pos 2) (13 ∷ []) response effects refl refl refl
      (omega arith) (omega arith) fits

abbrev idle_parts : Run.Parts
idle_parts = record { owned = λ threshold. ok []; split = λ c cs. ok cs; target_init_balance = 100 }

acquired :
    acquire_init_lock 10 max_init_duration_sec store
    ≡ (ok true, record store { init_lock = some 43210 })
unfolding acquire_init_lock acquire_lock_script
acquired =
    rw
      (
        double_exact 10 (omega arith),
        double_exact 43200 (omega arith),
        double_exact 43210 (omega arith),
      )
      refl

ran_once : (run_once formats idle_parts 10 refresh store).0 ≡ ok tt
unfolding run_once with_lock split_owned release must release_init_lock release_lock_script
ran_once = ap (λ r. (with_lock formats idle_parts refresh r).0) acquired

not_over : ltb 50 (double 10) ≡ false
not_over = rw (double_exact 10 (omega arith)) refl

abbrev texts : Texts
texts = record {
  to_string = λ e. 1 ∷ [];
  invalid_token = 2 ∷ [];
  invalid_bytes = 3 ∷ [];
  unknown_error = 4 ∷ [];
}

abbrev request : ExecuteTxRequest
request = record { reservation_id = 3; tx_bytes = 8 ∷ []; user_sig = 9 ∷ [] }
