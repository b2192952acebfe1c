-- ===== src/GasPool/Core/Tasks.antt =====
-- The requests and the background task of one pool, side by side: a method gives way to the others where
-- it awaits. A task is where its method waits, with what the method has found so far, and a turn takes
-- it to the next await. The three locks inside the usage cap are told apart in UsageCap/Race.
pub mod Moves
pub mod Own
pub mod Exclusive
pub mod Sound
pub mod Safe
pub mod Apart
use sui_gas_pool.Prelude.{
  ℕ, ◌==◌, if◌then◌else◌, List, [], ◌∷◌, ◌++◌, map, Result, ok, err, Error, is_empty,
}
use sui_gas_pool.Types.{ObjectId, ReservationId, GasCoin}
use sui_gas_pool.Sui.{TransactionData, Response}
use sui_gas_pool.Locks.{
  ObjectLocks, payment_ids, any_locked, lock_owned, filter_owned_objects,
  get_imm_or_owned_non_gas_objects,
}
use sui_gas_pool.SuiClient.{FullNode, latest_coins, multi_get_object_owners}
use sui_gas_pool.GasPool.Core.{
  Parts, GasPool, get_total_gas_coin_balance, send, after_send, drop_guard, updated_coins, reported,
}

-- What `execute_transaction` was called with, and the objects of the reservation that it claimed.
pub record Call : Type 0 where
  pub id : ReservationId
  pub tx : TransactionData
  pub user_sig : ℕ
  pub objects : List ObjectId

pub data Task : Type 0 where
  -- the reservation is claimed
  claimed : Call → Task
  -- the balance of the payment and the owned inputs are found
  searched : Call → ℕ → List ObjectId → Task
  -- the inputs are locked, and the transaction is on its way
  running : Call → ℕ → ObjectLocks → Task
  -- the run is over and the locks are dropped, but the coins are not back
  ran : Call → ℕ → Result Response → Task
  -- the coins that go back are known, and are tried to be put back until the store takes them
  returning : Call → List GasCoin → Result Response → Task
  done : Result Response → Task
  -- the background task after the expiry, and with the coins that it tries to put back
  unlocking : List ObjectId → Task
  freeing : List ObjectId → List GasCoin → Task
  unlocked : Result (Unit {0}) → Task

-- What a turn meets: the full node as it answers before and after a run, and the day.
pub record Turn : Type 0 where
  pub before : FullNode
  pub after : FullNode
  pub today : ℕ

module _ {S : Type 0} (parts : Parts S) where
  open parts use {cache, retry, storage}

  -- The first half of `try_acquire_locks`: the test under the read lock, and the search.
  keep_search :
      Call → ℕ → Result (List ObjectId) × cache.Content → GasPool parts → Task × GasPool parts
  keep_search call total (err e, content) p = (
    ran call total (err e),
    record p {
      object_lock_manager = record p.object_lock_manager { address_owned_cache = content };
    },
  )
  keep_search call total (ok owned, content) p = (
    searched call total owned,
    record p {
      object_lock_manager = record p.object_lock_manager { address_owned_cache = content };
    },
  )

  search_objects : FullNode → Call → ℕ → List (ObjectId × ℕ) → GasPool parts → Task × GasPool parts
  unfolding keep_search
  search_objects node call total objects p =
      if any_locked p.object_lock_manager.locked_owned_objects (map (λ e. e.0) objects)
      then (ran call total (err Error.object_locked), p)
      else keep_search call total
          (filter_owned_objects cache (multi_get_object_owners retry node) objects
            p.object_lock_manager.address_owned_cache)
          p

  search : FullNode → Call → Result ℕ → GasPool parts → Task × GasPool parts
  unfolding search_objects
  search node call (err e) p = (done (err Error.panic), p)
  search node call (ok total) p = elim (get_imm_or_owned_non_gas_objects call.tx) [
    | err e ↦ (ran call total (err e), p)
    | ok objects ↦ search_objects node call total objects p
  ]

  -- The second half, under the write lock.
  keep_locks : Call → ℕ → Result ObjectLocks × List ObjectId → GasPool parts → Task × GasPool parts
  keep_locks call total (err e, locks) p = (
    ran call total (err e),
    record p {
      object_lock_manager = record p.object_lock_manager { locked_owned_objects = locks };
    },
  )
  keep_locks call total (ok g, locks) p = (
    running call total g,
    record p {
      object_lock_manager = record p.object_lock_manager { locked_owned_objects = locks };
    },
  )

  -- What goes back after a run.
  found_coins : Call → Result Response → Result (List GasCoin) → Task
  found_coins call response (ok coins) = returning call coins response
  found_coins call response (err e) = done (err Error.panic)

  found_freed : List ObjectId → Result (List GasCoin) → Task
  found_freed ids (ok coins) = freeing ids coins
  found_freed ids (err e) = unlocked (err Error.panic)

  -- One attempt of `release_gas_coins`, which tries again while the store fails.
  returned : Call → List GasCoin → Result Response → Result (Unit {0}) → Task
  returned call coins response (ok u) = done (reported parts response)
  returned call coins response (err e) = returning call coins response

  freed_by : List ObjectId → List GasCoin → Result (Unit {0}) → Task
  freed_by ids coins (ok u) = unlocked (ok tt)
  freed_by ids coins (err e) = freeing ids coins

  -- A turn of a task.
  unfoldable pub advance : Turn → Task → GasPool parts → Task × GasPool parts
  unfolding search keep_locks found_coins found_freed returned freed_by
  advance env (claimed call) p =
      search env.before call (get_total_gas_coin_balance parts env.before (payment_ids call.tx)) p
  advance env (searched call total owned) p =
      keep_locks call total (lock_owned call.id owned p.object_lock_manager.locked_owned_objects) p
  advance env (running call total g) p =
      let (response, p') =
        drop_guard parts g
          (after_send parts env.today call.tx (send parts env.before call.tx call.user_sig) p) in
      (ran call total response, p')
  advance env (ran call total response) p = (
    found_coins call response (updated_coins parts env.after total (payment_ids call.tx) response),
    p,
  )
  advance env (returning call coins response) p =
      let (result, store) = storage.add_new_coins coins p.gas_pool_store in
      (returned call coins response result, record p { gas_pool_store = store })
  advance env (done reply) p = (done reply, p)
  advance env (unlocking ids) p = (
    if is_empty ids then unlocked (ok tt) else found_freed ids (latest_coins retry env.before ids),
    p,
  )
  advance env (freeing ids coins) p =
      let (result, store) = storage.add_new_coins coins p.gas_pool_store in
      (freed_by ids coins result, record p { gas_pool_store = store })
  advance env (unlocked result) p = (unlocked result, p)

  coins_known : Result (List GasCoin) → List GasCoin
  coins_known (ok coins) = coins
  coins_known (err e) = []

  -- The coins that a turn finds: those that the effects or the node name.
  unfoldable pub coins_found : Turn → Task → List GasCoin
  unfolding coins_known
  coins_found env (ran call total response) =
      coins_known (updated_coins parts env.after total (payment_ids call.tx) response)
  coins_found env (unlocking ids) = coins_known (latest_coins retry env.before ids)
  coins_found env (returning call coins response) = []
  coins_found env (freeing ids coins) = []
  coins_found env (claimed call) = []
  coins_found env (searched call total owned) = []
  coins_found env (running call total g) = []
  coins_found env (done reply) = []
  coins_found env (unlocked result) = []

-- The coins that a turn puts back.
abbrev pub coins_back : Task → List GasCoin
coins_back (returning call coins response) = coins
coins_back (freeing ids coins) = coins
coins_back (ran call total response) = []
coins_back (unlocking ids) = []
coins_back (claimed call) = []
coins_back (searched call total owned) = []
coins_back (running call total g) = []
coins_back (done reply) = []
coins_back (unlocked result) = []

-- The objects that a turn asks the node about, to find coins: those that the transaction pays with.
abbrev pub asked_about : Task → List ObjectId
asked_about (ran call total response) = payment_ids call.tx
asked_about (unlocking ids) = ids
asked_about (returning call coins response) = []
asked_about (freeing ids coins) = []
asked_about (claimed call) = []
asked_about (searched call total owned) = []
asked_about (running call total g) = []
asked_about (done reply) = []
asked_about (unlocked result) = []

-- The method has returned.
abbrev pub IsOver : Task → Type 0
IsOver (done reply) = Unit
IsOver (unlocked result) = Unit
IsOver (claimed call) = ⊥
IsOver (searched call total owned) = ⊥
IsOver (running call total g) = ⊥
IsOver (ran call total response) = ⊥
IsOver (returning call coins response) = ⊥
IsOver (unlocking ids) = ⊥
IsOver (freeing ids coins) = ⊥

-- The objects that a task has taken out of the store and has not put back.
abbrev pub out_of : Task → List ObjectId
out_of (claimed call) = call.objects
out_of (searched call total owned) = call.objects
out_of (running call total g) = call.objects
out_of (ran call total response) = call.objects
out_of (returning call coins response) = call.objects
out_of (done reply) = []
out_of (unlocking ids) = ids
out_of (freeing ids coins) = ids
out_of (unlocked result) = []

abbrev pub out_of_all : List Task → List ObjectId
out_of_all [] = []
out_of_all (t ∷ ts) = out_of t ++ out_of_all ts

-- The guard that a task holds, before those of the others.
abbrev pub with_guard : Task → List ObjectLocks → List ObjectLocks
with_guard (running call total g) gs = g ∷ gs
with_guard (claimed call) gs = gs
with_guard (searched call total owned) gs = gs
with_guard (ran call total response) gs = gs
with_guard (done reply) gs = gs
with_guard (returning call coins response) gs = gs
with_guard (unlocking ids) gs = gs
with_guard (freeing ids coins) gs = gs
with_guard (unlocked result) gs = gs

abbrev pub guards_of : List Task → List ObjectLocks
guards_of [] = []
guards_of (t ∷ ts) = with_guard t (guards_of ts)

-- A list of objects without those of another.
abbrev pub without : ObjectId → List ObjectId → List ObjectId
without a [] = []
without a (x ∷ xs) = if x == a then xs else x ∷ without a xs

abbrev pub without_all : List ObjectId → List ObjectId → List ObjectId
without_all [] xs = xs
without_all (b ∷ bs) xs = without_all bs (without b xs)
