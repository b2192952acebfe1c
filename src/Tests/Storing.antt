-- ===== src/Tests/Storing.antt =====
-- The store at concrete values.
use mathlib.Core.List.{flatten, Perm}
use sui_gas_pool.Prelude.{
  ◌≤◌, ◌<◌, ◌+◌, ◌%◌, ◌^◌, ◌≡◌, refl, true, some, none, List, [], ◌∷◌, ◌++◌, map, ok, err, Error,
  arith, contains,
}
use sui_gas_pool.Types.{ObjectId, coin_id}
use sui_gas_pool.Storage.Double.{double, double_exact}
use sui_gas_pool.Storage.Store.{Store, incr, lookup, erase, members_until}
use sui_gas_pool.Storage.Formats.{coin_text, parse_coin}
use sui_gas_pool.Storage.Formats.RoundTrip.{parse_coin-coin_text}
use sui_gas_pool.Storage.Invariant.{Holds}
use sui_gas_pool.Storage.Reserved.{release, objects, Every, find}
use sui_gas_pool.Storage.Scripts.{ready_script}
use sui_gas_pool.Storage.Scripts.Init.{acquire_lock_script}
use sui_gas_pool.Storage.Scripts.AddNew.{grown}
use sui_gas_pool.Storage.Scripts.Reserve.{booked}
use sui_gas_pool.Storage.Redis.{
  reserve_gas_coins, add_new_coins, expire_coins, ready_for_execution, acquire_init_lock,
}
use sui_gas_pool.Storage.Redis.Reserve.{
  picked, rest, IsReservation, reserve_gas_coins_books, reserve_gas_coins_refuses,
}
use sui_gas_pool.Storage.Redis.AddNew.{add_new_coins_appends}
use sui_gas_pool.Storage.Redis.Expire.{Tracks, due, expired, expire_coins_releases}
use sui_gas_pool.Storage.Flow.{count}
use sui_gas_pool.Storage.Redis.OnTime.{reserve_gas_coins_comes_back}
use sui_gas_pool.Storage.Redis.Count.{held_by}
use sui_gas_pool.Tests.{
  formats, formats-IsFormats, coin_of, two_coins, one_reservation, store, store-Holds, store-Tracks,
}

one_held : held_by (map (λ e. e.1) store.expiration_queue) one_reservation < 2 ^ 53
unfolding held_by find
one_held = omega arith

next_id : incr store.next_reservation_id ≡ some 4
unfolding incr
next_id = refl

reserve_gas_coins_books_example :
    let taken = picked formats formats-IsFormats store two_coins store-Holds 6 in
    let left = rest formats formats-IsFormats store two_coins store-Holds 6 in
    let after = booked formats store ((50 + 10) % 2 ^ 64) 4 taken left in
    (reserve_gas_coins formats 50 6 10 store ≡ (ok (4, taken), after))
    × Holds formats after left
    × IsReservation formats formats-IsFormats store two_coins store-Holds 6 taken left
reserve_gas_coins_books_example =
    reserve_gas_coins_books formats formats-IsFormats store two_coins store-Holds 50 6 10 4
      (omega arith) (omega arith) (omega arith) next_id

reserve_gas_coins_refuses_example :
    reserve_gas_coins formats 50 13 10 store ≡ (err Error.unable_to_reserve, store)
reserve_gas_coins_refuses_example =
    reserve_gas_coins_refuses formats formats-IsFormats store two_coins store-Holds 50 13 10
      (omega arith) (omega arith)

parse_coin-coin_text_example :
    parse_coin formats (coin_text formats (coin_of 11 5)) ≡ ok (coin_of 11 5)
parse_coin-coin_text_example =
    parse_coin-coin_text formats formats-IsFormats (coin_of 11 5) (omega arith, omega arith)

add_new_coins_appends_example :
    (add_new_coins formats (coin_of 13 4 ∷ []) store
      ≡ (ok tt, grown formats store two_coins (coin_of 13 4 ∷ [])))
    × Holds formats
        (grown formats store two_coins (coin_of 13 4 ∷ []))
        (two_coins ++ coin_of 13 4 ∷ [])
add_new_coins_appends_example =
    add_new_coins_appends formats formats-IsFormats store two_coins (coin_of 13 4 ∷ []) store-Holds
      ((omega arith, omega arith), tt) (omega arith) (omega arith)

expire_coins_releases_example :
    let (freed, left) = release (due 100 store) one_reservation in
    (expire_coins formats 100 store
      ≡ (ok (flatten freed), expired formats formats-IsFormats 100 store one_reservation))
    × Tracks formats (expired formats formats-IsFormats 100 store one_reservation) left
    × Perm (flatten freed ++ objects left) (objects one_reservation)
expire_coins_releases_example =
    expire_coins_releases formats formats-IsFormats 100 store one_reservation store-Tracks

-- The double of a hundred.
double_hundred : double 100 ≡ 100
double_hundred = double_exact 100 (omega arith)

all_due : Every (λ j v. contains (due 100 store) j ≡ true) one_reservation
unfolding members_until
all_due = (ground (arith, double_hundred), tt)

reserve_gas_coins_comes_back_example :
    let after = (reserve_gas_coins formats 50 6 10 store).1 in
    (freed : List ObjectId) × ((expire_coins formats 60 after).0 ≡ ok freed)
    × ((a : ObjectId)
        → count a (map coin_id (picked formats formats-IsFormats store two_coins store-Holds 6))
          ≤ count a freed)
reserve_gas_coins_comes_back_example =
    reserve_gas_coins_comes_back formats formats-IsFormats store two_coins store-Holds
      one_reservation 50 6 10 4 60 store-Tracks (omega arith) (omega arith) (omega arith) next_id
      (omega arith)

claim : ready_for_execution 3 store ≡ (ok tt, record store { reservations = [] })
unfolding ready_for_execution ready_script lookup erase
claim = refl

acquired : acquire_init_lock 10 40 store ≡ (ok true, record store { init_lock = some 50 })
unfolding acquire_init_lock acquire_lock_script
acquired =
    rw (double_exact 10 (omega arith), double_exact 40 (omega arith), double_exact 50 (omega arith))
      refl

abbrev fresh : Store
fresh = record store {
  available_gas_coins = [];
  available_coin_total_balance = none;
  available_coin_count = none;
}

abbrev unset : Store
unset = record store { available_coin_total_balance = none }
