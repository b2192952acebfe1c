-- ===== src/GasPool/Core/Tasks/Own.antt =====
-- Tasks that handle coins of their own objects only.
use sui_gas_pool.Prelude.{
  ℕ, ◌+◌, ◌-◌, ◌≤◌, ◌≡◌, List, [], ◌∷◌, map, Result, ok, err, arith, Bool-cases, Result-cases, inl,
  inr,
}
use sui_gas_pool.Types.{ObjectId, GasCoin, coin_id}
use sui_gas_pool.Sui.{Response}
use sui_gas_pool.Locks.{ObjectLocks, payment_ids, any_locked, get_imm_or_owned_non_gas_objects}
use sui_gas_pool.SuiClient.{FullNode, latest_coins}
use sui_gas_pool.Storage.Flow.{count}
use sui_gas_pool.GasPool.Core.{Parts, GasPool, updated_coins}
use sui_gas_pool.GasPool.Core.Tasks.{
  Call, Task, claimed, searched, running, ran, returning, done, unlocking, freeing, unlocked, Turn,
  keep_search, search_objects, search, keep_locks, found_coins, found_freed, coins_known, advance,
  IsOver, returned, freed_by, coins_found, coins_back, asked_about, out_of, without, without_all,
}

-- The objects of one list stand in another, as often at least.
abbrev pub Within : List ObjectId → List ObjectId → Type 0
Within xs ys = (a : ObjectId) → count a xs ≤ count a ys

-- The client pays with coins of its own reservation, and the coins that go back are of objects that
-- the task has taken out.
abbrev pub HasOwn : Task → Type 0
HasOwn (claimed call) = Within (payment_ids call.tx) call.objects
HasOwn (searched call total owned) = Within (payment_ids call.tx) call.objects
HasOwn (running call total g) = Within (payment_ids call.tx) call.objects
HasOwn (ran call total response) = Within (payment_ids call.tx) call.objects
HasOwn (returning call coins response) = Within (map coin_id coins) call.objects
HasOwn (done reply) = Unit
HasOwn (unlocking ids) = Unit
HasOwn (freeing ids coins) = Within (map coin_id coins) ids
HasOwn (unlocked result) = Unit

abbrev pub IsPutting : Task → Type 0
IsPutting (returning call coins response) = Unit
IsPutting (freeing ids coins) = Unit
IsPutting (claimed call) = ⊥
IsPutting (searched call total owned) = ⊥
IsPutting (running call total g) = ⊥
IsPutting (ran call total response) = ⊥
IsPutting (done reply) = ⊥
IsPutting (unlocking ids) = ⊥
IsPutting (unlocked result) = ⊥

count-without :
    (a b : ObjectId) (xs : List ObjectId) → count a (without b xs) ≡ count a xs - count a (b ∷ [])
count-without a b [] = ground arith
count-without a b (x ∷ xs) = ground (arith, count-without a b xs)

pub count-without_all :
    (a : ObjectId) (bs xs : List ObjectId) → count a (without_all bs xs) ≡ count a xs - count a bs
count-without_all a [] xs = omega arith
count-without_all a (b ∷ bs) xs =
    omega (arith, count-without_all a bs (without b xs), count-without a b xs)

module _ {S : Type 0} (parts : Parts S) where
  open parts use {cache, retry}

  -- A search ends with a task of the same call, or fails and is done.
  Stays : Call → Task → Type 0
  Stays call t = HasOwn t × Within (out_of t) call.objects

  module _ (call : Call) (own : Within (payment_ids call.tx) call.objects) (total : ℕ)
      (p : GasPool parts) where
    keep_search-Stays :
        (r : Result (List ObjectId) × cache.Content)
        → Stays call (keep_search parts call total r p).0
    unfolding keep_search Stays
    keep_search-Stays (err e, content) = (own, λ a. omega arith)
    keep_search-Stays (ok owned, content) = (own, λ a. omega arith)

    search_objects-Stays :
        (node : FullNode) (objects : List (ObjectId × ℕ))
        → Stays call (search_objects parts node call total objects p).0
    unfolding search_objects Stays
    search_objects-Stays node objects =
        elim (Bool-cases
          (any_locked p.object_lock_manager.locked_owned_objects (map (λ e. e.0) objects))) [
            | inl busy ↦ rw busy (own, λ a. omega arith)
            | inr free ↦ rw free (keep_search-Stays _)
          ]

    keep_locks-Stays :
        (r : Result ObjectLocks × List ObjectId) → Stays call (keep_locks parts call total r p).0
    unfolding keep_locks Stays
    keep_locks-Stays (err e, locks) = (own, λ a. omega arith)
    keep_locks-Stays (ok g, locks) = (own, λ a. omega arith)

  search-Stays :
      (node : FullNode) (call : Call) (total : Result ℕ) (p : GasPool parts)
      → Within (payment_ids call.tx) call.objects
      → Stays call (search parts node call total p).0
  unfolding search Stays
  search-Stays node call (err e) p own = (tt, λ a. omega arith)
  search-Stays node call (ok total) p own =
      elim (Result-cases (get_imm_or_owned_non_gas_objects call.tx)) [
        | inl (objects, e) ↦ rw (e, search) (search_objects-Stays call own total p node objects)
        | inr (failure, e) ↦ rw (e, search) (own, λ a. omega arith)
      ]

  found-Stays :
      (call : Call) (response : Result Response) (r : Result (List GasCoin))
      → Within (map coin_id (coins_known parts r)) call.objects
      → Stays call (found_coins parts call response r)
  unfolding found_coins coins_known Stays
  found-Stays call response (ok coins) own = (own, λ a. omega arith)
  found-Stays call response (err e) own = (tt, λ a. omega arith)

  freed-Stays :
      (ids : List ObjectId) (r : Result (List GasCoin))
      → Within (map coin_id (coins_known parts r)) ids
      → HasOwn (found_freed parts ids r) × Within (out_of (found_freed parts ids r)) ids
  unfolding found_freed coins_known
  freed-Stays ids (ok coins) own = (own, λ a. omega arith)
  freed-Stays ids (err e) own = (tt, λ a. omega arith)

  -- A turn keeps this, if it finds coins only of objects that it asked about, and if the store takes
  -- the coins that it puts back; and what it puts back and keeps is no more than it had.
  pub advance-HasOwn :
      (env : Turn) (t : Task) (p : GasPool parts)
      → HasOwn t
      → Within (map coin_id (coins_found parts env t)) (asked_about t)
      → (parts.storage.add_new_coins (coins_back t) p.gas_pool_store).0 ≡ ok tt
      → HasOwn (advance parts env t p).0
        × ((a : ObjectId)
            → count a (map coin_id (coins_back t)) + count a (out_of (advance parts env t p).0)
              ≤ count a (out_of t))
  unfolding advance coins_found Stays returned freed_by
  advance-HasOwn env (claimed call) p own named taken =
      let (mine, few) = search-Stays env.before call _ p own in (mine, λ a. omega (arith, few a))
  advance-HasOwn env (searched call total owned) p own named taken =
      let (mine, few) = keep_locks-Stays call own total p _ in (mine, λ a. omega (arith, few a))
  advance-HasOwn env (running call total g) p own named taken = (own, λ a. omega arith)
  advance-HasOwn env (ran call total response) p own named taken =
      let (mine, few) =
        found-Stays call response
          (updated_coins parts env.after total (payment_ids call.tx) response)
          (λ a. omega (arith, named a, own a)) in
      (mine, λ a. omega (arith, few a))
  advance-HasOwn env (returning call coins response) p own named taken =
      rw taken (tt, λ a. omega (arith, own a))
  advance-HasOwn env (done reply) p own named taken = (tt, λ a. omega arith)
  advance-HasOwn env (unlocking []) p own named taken = (tt, λ a. omega arith)
  advance-HasOwn env (unlocking (id ∷ ids)) p own named taken =
      let (mine, few) = freed-Stays (id ∷ ids) (latest_coins retry env.before (id ∷ ids)) named in
      (mine, λ a. omega (arith, few a))
  advance-HasOwn env (freeing ids coins) p own named taken =
      rw taken (tt, λ a. omega (arith, own a))
  advance-HasOwn env (unlocked result) p own named taken = (tt, λ a. omega arith)

  -- A task that puts coins back is over once the store takes them.
  pub advance-IsOver :
      (env : Turn) (t : Task) (p : GasPool parts)
      → IsPutting t
      → (parts.storage.add_new_coins (coins_back t) p.gas_pool_store).0 ≡ ok tt
      → IsOver (advance parts env t p).0
  unfolding advance returned freed_by
  advance-IsOver env (returning call coins response) p putting taken = rw taken tt
  advance-IsOver env (freeing ids coins) p putting taken = rw taken tt
  advance-IsOver env (claimed call) p putting taken = absurd putting
  advance-IsOver env (searched call total owned) p putting taken = absurd putting
  advance-IsOver env (running call total g) p putting taken = absurd putting
  advance-IsOver env (ran call total response) p putting taken = absurd putting
  advance-IsOver env (done reply) p putting taken = absurd putting
  advance-IsOver env (unlocking ids) p putting taken = absurd putting
  advance-IsOver env (unlocked result) p putting taken = absurd putting
