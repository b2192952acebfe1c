-- ===== src/Tests/Weaving.antt =====
-- Two requests of one pool, interleaved turn by turn, and one on its own.
use sui_gas_pool.Prelude.{
  ◌+◌, ◌≤◌, ◌≡◌, refl, some, [], ◌∷◌, ◌++◌, List, map, ok, arith, contains, ◌&&◌, false,
}
use sui_gas_pool.Prelude.Int.{unsigned, wrap_i64, signed, ◌-ℤ◌}
use sui_gas_pool.Types.{ObjectId, GasCoin, coin_id}
use sui_gas_pool.Sui.{imm_or_owned_move_object}
use sui_gas_pool.Storage.Store.{Store, lookup, erase}
use sui_gas_pool.Storage.Scripts.{ready_script}
use sui_gas_pool.Storage.Scripts.Expire.{entries}
use sui_gas_pool.Storage.Reserved.{Reservations, find, objects}
use sui_gas_pool.Storage.Invariant.{Holds}
use sui_gas_pool.Storage.Redis.{ready_for_execution}
use sui_gas_pool.Storage.Redis.Expire.{Tracks}
use sui_gas_pool.Storage.Flow.{count, HasRoom}
use sui_gas_pool.GasPool.Validity.{check_transaction_validity, collect_args, uses_gas}
use sui_gas_pool.Locks.{
  ObjectLocks, get_imm_or_owned_non_gas_objects, keep_owned, any_locked, filter_owned_objects,
  from_cache, set_version, ask, from_answer, version_of, is_address_owned, lock_owned,
  update_cache_post_execution, refresh,
}
use sui_gas_pool.UsageCap.{update_usage}
use sui_gas_pool.SuiClient.{
  latest_coins, get_latest_gas_objects, fetch_chunks, fetch_chunk, whole_answer, chunks_of, zip,
  to_map, put, try_get_sui_coin_balance, gas_value, with_balance, execute_transaction,
  require_effects, multi_get_object_owners, collect_owners, set_owner,
}
use sui_gas_pool.GasPool.Usage.{net_usage, remaining}
use sui_gas_pool.GasPool.Core.{
  get_coins_after_tx, drop_guard, after_send, account, send, signatures, get_total_gas_coin_balance,
  updated_coins,
}
use sui_gas_pool.GasPool.Core.Impl.{locked}
use sui_gas_pool.GasPool.Core.Once.{on_redis}
use sui_gas_pool.GasPool.Core.Tasks.{
  Call, Task, claimed, searched, running, Turn, advance, coins_found, coins_back, asked_about,
  out_of_all, IsOver,
}
use sui_gas_pool.GasPool.Core.Tasks.Moves.{
  PoolState, claims, advances, History, here, next, on_store, left_by,
}
use sui_gas_pool.GasPool.Core.Tasks.Own.{Within, IsPutting, advance-IsOver}
use sui_gas_pool.GasPool.Core.Tasks.Sound.{taken}
use sui_gas_pool.GasPool.Core.Tasks.Safe.{IsSafe, History-IsSafe}
use sui_gas_pool.GasPool.Core.Tasks.Apart.{running_apart, over_quiet}
use sui_gas_pool.Tests.{formats, formats-IsFormats, ref_of, two_coins, store, tx, node, parts, pool}

abbrev env : Turn
env = record { before = node; after = node; today = 5 }

abbrev first : Call
first = record { id = 3; tx = tx; user_sig = 70; objects = 13 ∷ [] }

-- A second transaction with a reservation and an input of its own.
abbrev second : Call
second = record {
  id = 4;
  tx = record tx {
    payment = ref_of 14 ∷ [];
    input_objects = ok (imm_or_owned_move_object (ref_of 51) ∷ []);
  };
  user_sig = 71;
  objects = 14 ∷ [];
}

abbrev two_reservations : Reservations
two_reservations = (3, 13 ∷ []) ∷ (4, 14 ∷ []) ∷ []

abbrev both : Store
both = record store {
  expiration_queue = (100, 3) ∷ (100, 4) ∷ [];
  next_reservation_id = some 4;
  reservations = entries formats two_reservations;
}

abbrev StateOf : Type 0
StateOf = PoolState formats parts

abbrev at_rest : StateOf
at_rest = record {
  pool = record {
    gas_pool_store = both;
    gas_usage_cap = pool.gas_usage_cap;
    object_lock_manager = record { address_owned_cache = tt; locked_owned_objects = [] };
  };
  tasks = [];
  lost = [];
  known = 11 ∷ 12 ∷ 13 ∷ 14 ∷ [];
}

at_rest-IsSafe : IsSafe formats formats-IsFormats parts at_rest
unfolding find objects
at_rest-IsSafe = record {
  sound = record {
    coins = two_coins;
    reserved = two_reservations;
    holds = record {
      texts = refl;
      stat_total = refl;
      stat_count = refl;
      total_exact = omega arith;
      count_exact = omega arith;
      in_range = ((omega arith, omega arith), ((omega arith, omega arith), tt));
    };
    tracks = record {
      kept = refl;
      named = ((λ e. cc), ((λ e. cc), tt));
      distinct = (refl, (refl, tt));
      given_out = (omega arith, (omega arith, tt));
    };
    balanced = λ a. ground arith;
    single = λ a. ground arith;
  };
  exclusive = record { agree = λ o. refl; disjoint = tt };
  own = tt;
}

-- What a claim and a turn make of it.
abbrev claiming : Call → StateOf → StateOf
claiming call w = record w {
  pool = on_store formats parts (ready_for_execution call.id w.pool.gas_pool_store).1 w.pool;
  tasks = claimed call ∷ w.tasks;
}

abbrev turn : List Task → List Task → Task → StateOf → StateOf
turn earlier later t w = record w {
  pool = (advance (on_redis formats parts) env t w.pool).1;
  tasks = (advance (on_redis formats parts) env t w.pool).0 ∷ earlier ++ later;
  lost = left_by t (advance (on_redis formats parts) env t w.pool).0 ++ w.lost;
}

abbrev both_claimed : StateOf
both_claimed = claiming second (claiming first at_rest)

abbrev second_found : Task
second_found = searched second 20 (51 ∷ [])

abbrev first_found : Task
first_found = searched first 20 (50 ∷ [])

abbrev both_found : StateOf
both_found =
    turn (second_found ∷ []) [] (claimed first)
      (turn [] (claimed first ∷ []) (claimed second) both_claimed)

abbrev guard : Call → ObjectId → ObjectLocks
guard call o = record { reservation_id = call.id; locked_objects = o ∷ [] }

abbrev both_running : StateOf
both_running =
    turn (running second 20 (guard second 51) ∷ []) [] first_found
      (turn (first_found ∷ []) [] second_found both_found)

no_coins-HasRoom :
    (s : Store)
    → s.available_coin_total_balance ≡ store.available_coin_total_balance
    → s.available_coin_count ≡ store.available_coin_count
    → HasRoom s []
no_coins-HasRoom s same_total same_count = record {
  total = 12;
  number = 2;
  stat_total = same_total;
  stat_count = same_count;
  in_range = tt;
  total_fits = omega arith;
  count_fits = omega arith;
}

claim_both : History formats parts at_rest both_claimed
unfolding lookup ready_for_execution ready_script erase check_transaction_validity collect_args
    uses_gas
claim_both =
    next (next here (claims first (refl, refl) (λ e. cc) (λ a. omega arith) refl refl))
      (claims second (refl, refl) (λ e. cc) (λ a. omega arith) refl refl)

found_both : History formats parts at_rest both_found
unfolding advance coins_found get_total_gas_coin_balance latest_coins get_latest_gas_objects
    fetch_chunks fetch_chunk whole_answer chunks_of zip to_map put try_get_sui_coin_balance
    gas_value with_balance get_imm_or_owned_non_gas_objects keep_owned any_locked
    filter_owned_objects from_cache set_version ask from_answer version_of is_address_owned
    multi_get_object_owners collect_owners set_owner ready_for_execution ready_script erase lookup
found_both =
    next
      (next claim_both (
        advances env [] (claimed first ∷ []) (claimed second) refl (no_coins-HasRoom _ refl refl)
          (λ a. omega arith) refl))
      (advances env (second_found ∷ []) [] (claimed first) refl (no_coins-HasRoom _ refl refl)
        (λ a. omega arith) refl)

run_both : History formats parts at_rest both_running
unfolding advance coins_found get_total_gas_coin_balance latest_coins get_latest_gas_objects
    fetch_chunks fetch_chunk whole_answer chunks_of zip to_map put try_get_sui_coin_balance
    gas_value with_balance get_imm_or_owned_non_gas_objects keep_owned any_locked
    filter_owned_objects from_cache set_version ask from_answer version_of is_address_owned
    multi_get_object_owners collect_owners set_owner lock_owned ready_for_execution ready_script
    erase lookup
run_both =
    next
      (next found_both (
        advances env (first_found ∷ []) [] second_found refl (no_coins-HasRoom _ refl refl)
          (λ a. omega arith) refl))
      (advances env (running second 20 (guard second 51) ∷ []) [] first_found refl
        (no_coins-HasRoom _ refl refl) (λ a. omega arith) refl)

History-IsSafe_example : IsSafe formats formats-IsFormats parts both_running
History-IsSafe_example = History-IsSafe formats formats-IsFormats parts at_rest-IsSafe run_both

two_running :
    both_running.tasks
    ≡ running first 20 (guard first 50) ∷ running second 20 (guard second 51) ∷ []
unfolding advance coins_found get_total_gas_coin_balance latest_coins get_latest_gas_objects
    fetch_chunks fetch_chunk whole_answer chunks_of zip to_map put try_get_sui_coin_balance
    gas_value with_balance get_imm_or_owned_non_gas_objects keep_owned any_locked
    filter_owned_objects from_cache set_version ask from_answer version_of is_address_owned
    multi_get_object_owners collect_owners set_owner lock_owned ready_for_execution ready_script
    erase lookup
two_running = refl

running_apart_example :
    ((contains (50 ∷ []) 50 && contains (51 ∷ []) 50) ≡ false)
    × (count 13 (13 ∷ []) + count 13 (14 ∷ []) + count 13 both_running.lost ≤ 1)
running_apart_example =
    running_apart formats formats-IsFormats parts at_rest-IsSafe run_both [] [] [] first second 20
      20 (guard first 50) (guard second 51) 50 13 two_running

-- The first transaction on its own, from the claim to the answer.
abbrev one_found : StateOf
one_found = turn [] [] (claimed first) (claiming first at_rest)

abbrev one_running : StateOf
one_running = turn [] [] first_found one_found

abbrev first_running : Task
first_running = running first 20 (guard first 50)

abbrev one_ran : StateOf
one_ran = turn [] [] first_running one_running

abbrev first_ran : Task
first_ran = (advance (on_redis formats parts) env first_running one_running.pool).0

abbrev one_known : StateOf
one_known = turn [] [] first_ran one_ran

abbrev first_known : Task
first_known = (advance (on_redis formats parts) env first_ran one_ran.pool).0

abbrev one_done : StateOf
one_done = turn [] [] first_known one_known

find_one : History formats parts at_rest one_running
unfolding advance coins_found get_total_gas_coin_balance latest_coins get_latest_gas_objects
    fetch_chunks fetch_chunk whole_answer chunks_of zip to_map put try_get_sui_coin_balance
    gas_value with_balance get_imm_or_owned_non_gas_objects keep_owned any_locked
    filter_owned_objects from_cache set_version ask from_answer version_of is_address_owned
    multi_get_object_owners collect_owners set_owner lock_owned ready_for_execution ready_script
    erase lookup check_transaction_validity collect_args uses_gas
find_one =
    next
      (next (next here (claims first (refl, refl) (λ e. cc) (λ a. omega arith) refl refl)) (
        advances env [] [] (claimed first) refl (no_coins-HasRoom _ refl refl) (λ a. omega arith)
          refl))
      (advances env [] [] first_found refl (no_coins-HasRoom _ refl refl) (λ a. omega arith) refl)

find_coins : History formats parts at_rest one_known
unfolding advance coins_found get_total_gas_coin_balance latest_coins get_latest_gas_objects
    fetch_chunks fetch_chunk whole_answer chunks_of zip to_map put try_get_sui_coin_balance
    gas_value with_balance get_imm_or_owned_non_gas_objects keep_owned any_locked
    filter_owned_objects from_cache set_version ask from_answer version_of is_address_owned
    multi_get_object_owners collect_owners set_owner lock_owned ready_for_execution ready_script
    erase lookup updated_coins get_coins_after_tx net_usage remaining unsigned wrap_i64 signed ◌-ℤ◌
    drop_guard after_send account send signatures execute_transaction require_effects
    update_cache_post_execution refresh update_usage
find_coins =
    next
      (next find_one (
        advances env [] [] first_running refl (no_coins-HasRoom _ refl refl) (λ a. omega arith)
          refl))
      (advances env [] [] first_ran refl (no_coins-HasRoom _ refl refl) (λ a. omega arith) refl)

first_known-HasRoom : HasRoom one_known.pool.gas_pool_store (coins_back first_known)
unfolding advance coins_found get_total_gas_coin_balance latest_coins get_latest_gas_objects
    fetch_chunks fetch_chunk whole_answer chunks_of zip to_map put try_get_sui_coin_balance
    gas_value with_balance get_imm_or_owned_non_gas_objects keep_owned any_locked
    filter_owned_objects from_cache set_version ask from_answer version_of is_address_owned
    multi_get_object_owners collect_owners set_owner lock_owned ready_for_execution ready_script
    erase lookup updated_coins get_coins_after_tx net_usage remaining unsigned wrap_i64 signed ◌-ℤ◌
    drop_guard after_send account send signatures execute_transaction require_effects
    update_cache_post_execution refresh update_usage
first_known-HasRoom = record {
  total = 12;
  number = 2;
  stat_total = refl;
  stat_count = refl;
  in_range = ((omega arith, omega arith), tt);
  total_fits = omega arith;
  count_fits = omega arith;
}

nothing_found :
    Within
      (map coin_id (coins_found (on_redis formats parts) env first_known))
      (asked_about first_known)
unfolding advance coins_found get_total_gas_coin_balance latest_coins get_latest_gas_objects
    fetch_chunks fetch_chunk whole_answer chunks_of zip to_map put try_get_sui_coin_balance
    gas_value with_balance get_imm_or_owned_non_gas_objects keep_owned any_locked
    filter_owned_objects from_cache set_version ask from_answer version_of is_address_owned
    multi_get_object_owners collect_owners set_owner lock_owned ready_for_execution ready_script
    erase lookup updated_coins get_coins_after_tx net_usage remaining unsigned wrap_i64 signed ◌-ℤ◌
    drop_guard after_send account send signatures execute_transaction require_effects
    update_cache_post_execution refresh update_usage
nothing_found a = omega arith

end_one : History formats parts at_rest one_done
end_one =
    next find_coins (advances env [] [] first_known refl first_known-HasRoom nothing_found refl)

first_known-IsPutting : IsPutting first_known
unfolding advance coins_found get_total_gas_coin_balance latest_coins get_latest_gas_objects
    fetch_chunks fetch_chunk whole_answer chunks_of zip to_map put try_get_sui_coin_balance
    gas_value with_balance get_imm_or_owned_non_gas_objects keep_owned any_locked
    filter_owned_objects from_cache set_version ask from_answer version_of is_address_owned
    multi_get_object_owners collect_owners set_owner lock_owned ready_for_execution ready_script
    erase lookup updated_coins get_coins_after_tx net_usage remaining unsigned wrap_i64 signed ◌-ℤ◌
    drop_guard after_send account send signatures execute_transaction require_effects
    update_cache_post_execution refresh update_usage
first_known-IsPutting = tt

first_known-IsOver : IsOver (advance (on_redis formats parts) env first_known one_known.pool).0
first_known-IsOver =
    advance-IsOver (on_redis formats parts) env first_known one_known.pool first_known-IsPutting (
      taken formats formats-IsFormats parts one_known.pool (out_of_all one_known.tasks)
        one_known.lost one_known.known
        (History-IsSafe formats formats-IsFormats parts at_rest-IsSafe find_coins).sound
        (coins_back first_known) first_known-HasRoom)

over_quiet_example :
    (coins : List GasCoin) × (reserved : Reservations) × Holds formats one_done.pool.gas_pool_store
      coins
    × Tracks formats one_done.pool.gas_pool_store reserved
    × ((o : ObjectId) → contains (locked (on_redis formats parts) one_done.pool) o ≡ false)
    × ((o : ObjectId)
        → count o (map coin_id coins) + count o (objects reserved) + count o one_done.lost
          ≡ count o (11 ∷ 12 ∷ 13 ∷ 14 ∷ []))
over_quiet_example =
    over_quiet formats formats-IsFormats parts at_rest-IsSafe end_one (first_known-IsOver, tt)
