-- ===== src/Tests/Serving.antt =====
-- The task that frees expired coins, the HTTP interface and the initializer at concrete values.
use mathlib.Core.List.{flatten}
use sui_gas_pool.Prelude.{◌+◌, ◌≡◌, ◌∙◌, ap, sym, subst, refl, [], ◌∷◌, ok, arith}
use sui_gas_pool.Prelude.Int.{pos}
use sui_gas_pool.Types.{total_balance}
use sui_gas_pool.Sui.{Effects}
use sui_gas_pool.Storage.Store.{members_until}
use sui_gas_pool.Storage.Double.{double_exact}
use sui_gas_pool.Storage.Reserved.{release, find}
use sui_gas_pool.Storage.Invariant.{Holds}
use sui_gas_pool.Storage.Redis.{expire_coins}
use sui_gas_pool.Storage.Redis.Expire.{due, expire_coins_releases}
use sui_gas_pool.SuiClient.{
  latest_coins, get_latest_gas_objects, fetch_chunks, fetch_chunk, whole_answer, chunks_of, zip,
  to_map, put, try_get_sui_coin_balance, gas_value, with_balance,
}
use sui_gas_pool.GasPool.Core.{unlock_round}
use sui_gas_pool.GasPool.Core.Once.{on_redis}
use sui_gas_pool.Storage.Flow.{Reach}
use sui_gas_pool.GasPool.Core.Steps.{seen, unlock_round-Reach}
use sui_gas_pool.Rpc.{ReserveGasRequest, Texts}
use sui_gas_pool.Rpc.Meaning.{IsValidRequest}
use sui_gas_pool.Initializer.{CoinSplitEnv, after_split}
use sui_gas_pool.Initializer.Conservation.{total_of, after_split-total}
use sui_gas_pool.Tests.{
  formats, formats-IsFormats, coin_of, ref_of, two_coins, one_reservation, store, store-Tracks, tx,
  effects, node, retry, parts, pool,
}

freed : flatten (release (due 100 store) one_reservation).0 ≡ 13 ∷ []
unfolding members_until release find flatten
freed = rw (double_exact 100 (omega arith)) refl

expires : (expire_coins formats 100 store).0 ≡ ok (13 ∷ [])
expires =
    ap (λ r. r.0)
      (expire_coins_releases formats formats-IsFormats 100 store one_reservation store-Tracks).0
    ∙ ap ok freed

expired-Holds : Holds formats (expire_coins formats 100 store).1 two_coins
expired-Holds =
    subst (λ r. Holds formats r.1 two_coins)
      (sym
        (expire_coins_releases formats formats-IsFormats 100 store one_reservation store-Tracks).0)
      (record {
        texts = refl;
        stat_total = refl;
        stat_count = refl;
        total_exact = omega arith;
        count_exact = omega arith;
        in_range = ((omega arith, omega arith), ((omega arith, omega arith), tt));
      })

known : latest_coins retry node (13 ∷ []) ≡ ok (coin_of 13 20 ∷ [])
unfolding latest_coins get_latest_gas_objects fetch_chunks fetch_chunk whole_answer chunks_of zip
    to_map put try_get_sui_coin_balance gas_value with_balance
known = refl

unlock_round-Reach_example :
    Reach formats (seen formats formats-IsFormats parts pool [] [] (11 ∷ 12 ∷ 13 ∷ [])) (
      seen formats formats-IsFormats parts
        (unlock_round (on_redis formats parts) node 100 pool).1
        []
        []
        (11 ∷ 12 ∷ 13 ∷ []))
unlock_round-Reach_example =
    unlock_round-Reach formats formats-IsFormats parts node 100 0 13 [] pool two_coins
      (coin_of 13 20 ∷ []) [] [] [] (11 ∷ 12 ∷ 13 ∷ []) expires known refl expired-Holds
      (record {
        in_range = ((omega arith, omega arith), tt);
        total_fits = omega arith;
        count_fits = omega arith;
      })
      (λ a. omega arith)

abbrev request : ReserveGasRequest
request = record { gas_budget = 6; reserve_duration_secs = 600 }

abbrev texts : Texts
texts = record {
  to_string = λ e. 1 ∷ [];
  invalid_token = 2 ∷ [];
  invalid_bytes = 3 ∷ [];
  unknown_error = 4 ∷ [];
}

request-IsValidRequest : IsValidRequest request
request-IsValidRequest = (omega arith, omega arith, omega arith, omega arith)

abbrev env : CoinSplitEnv
env = record {
  target_init_coin_balance = 90;
  gas_cost_per_object = 10;
  rgp = 1;
  sign = λ n t. ok 77;
  retry = retry;
  nodes = λ n. node;
  split_tx = λ r count budget rgp. tx;
}

abbrev split_effects : Effects
split_effects = record effects { created = ref_of 21 ∷ ref_of 22 ∷ []; net_gas_usage = pos 25 }

after_split-total_example :
    total_of (after_split env (coin_of 20 350) 3 30 split_effects two_coins) + 25
    ≡ total_balance two_coins + 350
after_split-total_example =
    after_split-total env (coin_of 20 350) 30 25 split_effects two_coins (omega arith) (omega arith)
      refl (omega arith)
