-- ===== src/Storage/Redis/OnTime.antt =====
-- A reservation that nobody claims comes back.
use mathlib.Core.List.{flatten}
use sui_gas_pool.Prelude.{
  ℕ, ◌+◌, ◌%◌, ◌^◌, ◌≤◌, ◌<◌, ◌≡◌, ◌≢◌, ap, ◌∙◌, some, none, true, ok, List, [], ◌∷◌, ◌++◌, map,
  take, contains, ◌==◌, Bool-cases, Option-cases, inl, inr, arith,
}
use sui_gas_pool.Types.{ObjectId, ReservationId, GasCoin, coin_id, total_balance}
use sui_gas_pool.Storage.Double.{double}
use sui_gas_pool.Storage.Store.{Store, incr}
use sui_gas_pool.Storage.Formats.{Formats, IsFormats}
use sui_gas_pool.Storage.Invariant.{Holds}
use sui_gas_pool.Storage.Scripts.{max_gas_per_query}
use sui_gas_pool.Storage.Reserved.{Reservations, find, find-remove_other, remove, release}
use sui_gas_pool.Storage.Redis.{expire_coins, reserve_gas_coins}
use sui_gas_pool.Storage.Redis.Reserve.{picked}
use sui_gas_pool.Storage.Redis.Expire.{Tracks, due, expire_coins_releases}
use sui_gas_pool.Storage.Redis.Cycle.{next_id-find, reserve_gas_coins-Tracks}
use sui_gas_pool.Storage.Flow.{count}
use sui_gas_pool.Storage.Flow.Counting.{count-append}

-- What is released has every object of a reservation that is due.
release-due :
    (k : ReservationId) (v : List ObjectId) (a : ObjectId) (ids : List ℕ) (rs : Reservations)
    → find k rs ≡ some v
    → contains ids k ≡ true
    → count a v ≤ count a (flatten (release ids rs).0)
unfolding release flatten
release-due k v a [] rs there due = cc
release-due k v a (j ∷ ids) rs there due = elim (Bool-cases (j == k)) [
  | inl same ↦
      let j_is : j ≡ k = ground arith in
      rw (ap (λ i. find i rs) j_is ∙ there, release)
        (omega (arith, count-append a v (flatten (release ids (remove j rs)).0)))
  | inr other ↦
      let later : contains ids k ≡ true = ground arith in
      let differ : j ≢ k = λ e. ground arith in
      elim (Option-cases (find j rs)) [
        | inl gone ↦ rw (gone, release) (release-due k v a ids rs there later)
        | inr (w, found) ↦
            rw (found, release)
              (omega (
                arith,
                count-append a w (flatten (release ids (remove j rs)).0),
                release-due k v a ids (remove j rs) (find-remove_other j k rs differ ∙ there) later,
              ))
      ]
]

find-snoc :
    (k : ReservationId) (v : List ObjectId) (rs : Reservations)
    → find k rs ≡ none
    → find k (rs ++ (k, v) ∷ []) ≡ some v
unfolding find
find-snoc k v [] new = ground arith
find-snoc k v ((j, w) ∷ rs) new = ground (arith, find-snoc k v rs)

-- On a store that holds coins and keeps reservations and has a next id, a reservation of a positive
-- budget below 2^53 that the first 256 coins cover comes back if it is not claimed: expiring at any
-- time whose double is not below that of its expiration succeeds, and every coin that was reserved
-- is among those that are freed.
pub reserve_gas_coins_comes_back :
    (F : Formats) (laws : IsFormats F) (s : Store) (coins : List GasCoin) (holds : Holds F s coins)
    (rs : Reservations) (now target duration id later : ℕ)
    → Tracks F s rs
    → 0 < target
    → target < 2 ^ 53
    → target ≤ total_balance (take max_gas_per_query coins)
    → incr s.next_reservation_id ≡ some id
    → double ((now + duration) % 2 ^ 64) ≤ double later
    → let after = (reserve_gas_coins F now target duration s).1 in
      (freed : List ObjectId) × ((expire_coins F later after).0 ≡ ok freed)
      × ((a : ObjectId)
          → count a (map coin_id (picked F laws s coins holds target)) ≤ count a freed)
reserve_gas_coins_comes_back F laws s coins holds rs now target duration id later t positive small
      covered next in_time =
    let (tracks, is_due) =
      reserve_gas_coins-Tracks F laws s coins holds rs now target duration id later t positive small
        covered next in_time in
    let after = (reserve_gas_coins F now target duration s).1 in
    let kept = rs ++ (id, map coin_id (picked F laws s coins holds target)) ∷ [] in
    (
      flatten (release (due later after) kept).0,
      ap (λ r. r.0) (expire_coins_releases F laws later after kept tracks).0,
      λ a.
          release-due id (map coin_id (picked F laws s coins holds target)) a (due later after) kept
            (find-snoc id _ rs (next_id-find F s rs id t next)) is_due,
    )
