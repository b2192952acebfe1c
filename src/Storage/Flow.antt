-- ===== src/Storage/Flow.antt =====
-- The life of the coins of a sponsor, as steps of the tasks that share the store: the initializer adds
-- new coins, requests reserve coins and claim reservations, the background task frees the coins of
-- expired reservations, and whoever took coins out puts them back. A script runs at once in Redis, so
-- any interleaving of the tasks is a sequence of these steps. The code does not test that a coin that
-- is put back was taken out, or that a new one is new: these are conditions on the clients, who pay with
-- coins of their own reservations, and on the node.
pub mod Counting
pub mod Invariant
pub mod Adding
pub mod Claiming
pub mod Reserving
pub mod Sound
pub mod Exclusive
use sui_gas_pool.Prelude.{
  ℕ, ◌+◌, ◌^◌, ◌<◌, ◌≤◌, ◌≡◌, ◌≢◌, some, Option, List, [], ◌∷◌, ◌++◌, map, ok, All, length, ◌==◌,
  if◌then◌else◌,
}
use sui_gas_pool.Prelude.Int.{pos}
use sui_gas_pool.Types.{ObjectId, ReservationId, GasCoin, IsCoin, coin_id, total_balance}
use sui_gas_pool.Storage.Store.{Store, incr, lookup}
use sui_gas_pool.Storage.Formats.{Formats}
use sui_gas_pool.Storage.Scripts.Expire.{joined}
use sui_gas_pool.Storage.Redis.{reserve_gas_coins, ready_for_execution, expire_coins, add_new_coins}

-- How often an object stands in a list.
abbrev pub count : ObjectId → List ObjectId → ℕ
count a [] = 0
count a (x ∷ xs) = (if x == a then 1 else 0) + count a xs

-- `out` has the objects that a claim or an expiry has taken out of the store and that nobody has put
-- back yet, `spent` those that a transaction has merged away, and `known` all that were ever added.
pub record Sys : Type 0 where
  pub store : Store
  pub out : List ObjectId
  pub spent : List ObjectId
  pub known : List ObjectId

-- The statistics leave room for these coins.
pub record HasRoom (s : Store) (coins : List GasCoin) : Type 0 where
  pub total : ℕ
  pub number : ℕ
  pub stat_total : s.available_coin_total_balance ≡ some (pos total)
  pub stat_count : s.available_coin_count ≡ some (pos number)
  pub in_range : All IsCoin coins
  pub total_fits : total + total_balance coins < 2 ^ 53
  pub count_fits : number + length coins < 2 ^ 53

module _ (F : Formats) where
  pub data Step (s t : Sys) : Type 0 where
    -- the initializer adds coins; the condition is that they were never seen
    arrives :
        (coins : List GasCoin)
        → HasRoom s.store coins
        → ((a : ObjectId) → count a (map coin_id coins) + count a s.known ≤ 1)
        → t ≡ record s {
          store = (add_new_coins F coins s.store).1;
          known = map coin_id coins ++ s.known;
        }
        → Step s t
    -- a request for a positive budget, whether it succeeds or not
    reserves :
        (now target duration id : ℕ)
        → 0 < target
        → target < 2 ^ 53
        → incr s.store.next_reservation_id ≡ some id
        → t ≡ record s { store = (reserve_gas_coins F now target duration s.store).1 }
        → Step s t
    -- a claim of a reservation of these objects
    claims :
        (id : ReservationId) (v : List ObjectId)
        → v ≢ []
        → lookup id s.store.reservations ≡ some (joined F v)
        → t ≡ record s { store = (ready_for_execution id s.store).1; out = v ++ s.out }
        → Step s t
    -- a round of the background task
    expires :
        (now : ℕ) (freed : List ObjectId)
        → (expire_coins F now s.store).0 ≡ ok freed
        → t ≡ record s { store = (expire_coins F now s.store).1; out = freed ++ s.out }
        → Step s t
    -- coins are put back, at whatever versions and balances; the condition is that they are out
    returns :
        (coins : List GasCoin) (left : List ObjectId)
        → HasRoom s.store coins
        → ((a : ObjectId) → count a s.out ≡ count a (map coin_id coins) + count a left)
        → t ≡ record s { store = (add_new_coins F coins s.store).1; out = left }
        → Step s t
    -- a transaction has merged an object into another
    spends :
        (o : ObjectId) (left : List ObjectId)
        → ((a : ObjectId) → count a s.out ≡ count a (o ∷ []) + count a left)
        → t ≡ record s { out = left; spent = o ∷ s.spent }
        → Step s t
    -- the initializer's lock is taken or released
    locks :
        (lock : Option ℕ) → t ≡ record s { store = record s.store { init_lock = lock } } → Step s t

  pub data Reach (s : Sys) : Sys → Type 0 where
    here : Reach s s
    next : {t u : Sys} → Reach s t → Step t u → Reach s u
