-- ===== src/GasPool/Core/Tasks/Sound.antt =====
-- The coins of the tasks: a turn of any of them loses no object and makes none up.
use sui_gas_pool.Prelude.{
  ℕ, ◌+◌, ◌≡◌, refl, ap, sym, subst, ◌⊎◌, inl, inr, List, [], ◌++◌, map, Result, ok, err, arith,
  Bool-cases, Result-cases,
}
use sui_gas_pool.Types.{ObjectId, GasCoin, coin_id}
use sui_gas_pool.Locks.{
  ObjectLocks, any_locked, filter_owned_objects, get_imm_or_owned_non_gas_objects,
}
use sui_gas_pool.SuiClient.{FullNode, multi_get_object_owners}
use sui_gas_pool.Storage.Store.{Store}
use sui_gas_pool.Storage.Formats.{Formats, IsFormats}
use sui_gas_pool.Storage.Redis.{add_new_coins}
use sui_gas_pool.Storage.Flow.{count, Sys, HasRoom}
use sui_gas_pool.Storage.Flow.Counting.{count-ids-append}
use sui_gas_pool.Storage.Flow.Invariant.{IsSound}
use sui_gas_pool.Storage.Flow.Adding.{adds, added-Holds, added-Tracks}
use sui_gas_pool.GasPool.Core.{Parts, GasPool, send, drop_guard}
use sui_gas_pool.GasPool.Core.Execute.{after_send-store}
use sui_gas_pool.GasPool.Core.Once.{on_redis}
use sui_gas_pool.GasPool.Core.Tasks.{
  Call, Task, claimed, searched, running, ran, returning, done, unlocking, freeing, unlocked, Turn,
  keep_search, search_objects, search, keep_locks, advance, coins_back,
}

module _ {S : Type 0} (parts : Parts S) where
  open parts use {cache, retry}

  -- The search and the locking leave the store alone.
  search_objects-store :
      (node : FullNode) (call : Call) (total : ℕ) (objects : List (ObjectId × ℕ))
      (p : GasPool parts)
      → (search_objects parts node call total objects p).1.gas_pool_store ≡ p.gas_pool_store
  unfolding search_objects
  search_objects-store node call total objects p =
      elim (Bool-cases
        (any_locked p.object_lock_manager.locked_owned_objects (map (λ e. e.0) objects))) [
          | inl busy ↦ rw busy refl
          | inr free ↦ rw free (
              kept (
                filter_owned_objects cache (multi_get_object_owners retry node) objects
                  p.object_lock_manager.address_owned_cache))
        ]
    where
      kept :
          (r : Result (List ObjectId) × cache.Content)
          → (keep_search parts call total r p).1.gas_pool_store ≡ p.gas_pool_store
      kept (ok owned, content) = unfold keep_search in refl
      kept (err e, content) = unfold keep_search in refl

  search-store :
      (node : FullNode) (call : Call) (total : Result ℕ) (p : GasPool parts)
      → (search parts node call total p).1.gas_pool_store ≡ p.gas_pool_store
  unfolding search
  search-store node call (err e) p = refl
  search-store node call (ok total) p =
      elim (Result-cases (get_imm_or_owned_non_gas_objects call.tx)) [
        | inl (objects, e) ↦ rw (e, search) (search_objects-store node call total objects p)
        | inr (failure, e) ↦ rw (e, search) refl
      ]

  keep_locks-store :
      (call : Call) (total : ℕ) (r : Result ObjectLocks × List ObjectId) (p : GasPool parts)
      → (keep_locks parts call total r p).1.gas_pool_store ≡ p.gas_pool_store
  unfolding keep_locks
  keep_locks-store call total (ok g, l) p = refl
  keep_locks-store call total (err e, l) p = refl

-- The state between the tasks.
abbrev pub state : Store → List ObjectId → List ObjectId → List ObjectId → Sys
state s out spent known = record { store = s; out = out; spent = spent; known = known }

module _ (F : Formats) (laws : IsFormats F) where
  -- Objects that only change hands.
  pub moved-IsSound :
      (s : Store) (out spent out' spent' known : List ObjectId)
      → ((a : ObjectId) → count a out + count a spent ≡ count a out' + count a spent')
      → IsSound F (state s out spent known)
      → IsSound F (state s out' spent' known)
  moved-IsSound s out spent out' spent' known same sound = record {
    coins = sound.coins;
    reserved = sound.reserved;
    holds = sound.holds;
    tracks = sound.tracks;
    balanced = λ a. omega (arith, sound.balanced a, same a);
    single = sound.single;
  }

  -- Objects of which some go back.
  returned-IsSound :
      (s : Store) (out spent out' spent' known : List ObjectId) (more : List GasCoin)
      → HasRoom s more
      → ((a : ObjectId)
          → count a out + count a spent
            ≡ count a (map coin_id more) + count a out' + count a spent')
      → IsSound F (state s out spent known)
      → IsSound F (state (add_new_coins F more s).1 out' spent' known)
  returned-IsSound s out spent out' spent' known more room same sound = record {
    coins = sound.coins ++ more;
    reserved = sound.reserved;
    holds = added-Holds F laws (state s out spent known) sound more room;
    tracks = added-Tracks F laws (state s out spent known) sound more room;
    balanced = λ a. omega (arith, sound.balanced a, same a, count-ids-append a sound.coins more);
    single = sound.single;
  }

  module _ (parts : Parts Store) where
    open parts use {retry}

    -- What coins that are put back do to the store, if there are any.
    abbrev Put : List GasCoin → Store → Store → Type 0
    Put more s s' = ((more ≡ []) × (s' ≡ s)) ⊎ (s' ≡ (add_new_coins F more s).1)

    advance-Put :
        (env : Turn) (t : Task) (p : GasPool (on_redis F parts))
        → Put (coins_back t) p.gas_pool_store (advance (on_redis F parts) env t p).1.gas_pool_store
    unfolding advance drop_guard
    advance-Put env (claimed call) p =
        inl (refl, search-store (on_redis F parts) env.before call _ p)
    advance-Put env (searched call total owned) p =
        inl (refl, keep_locks-store (on_redis F parts) call total _ p)
    advance-Put env (running call total g) p = inl (
      refl,
      after_send-store (on_redis F parts) env.today call.tx
          (send (on_redis F parts) env.before call.tx call.user_sig) p,
    )
    advance-Put env (ran call total response) p = inl (refl, refl)
    advance-Put env (returning call coins response) p = inr refl
    advance-Put env (done reply) p = inl (refl, refl)
    advance-Put env (unlocking ids) p = inl (refl, refl)
    advance-Put env (freeing ids coins) p = inr refl
    advance-Put env (unlocked result) p = inl (refl, refl)

    module _ (p : GasPool (on_redis F parts)) (out spent known : List ObjectId)
        (sound : IsSound F (state p.gas_pool_store out spent known)) where
      -- Where there is room for the coins, the attempt to put them back succeeds.
      pub taken :
          (more : List GasCoin)
          → HasRoom p.gas_pool_store more
          → (add_new_coins F more p.gas_pool_store).0 ≡ ok tt
      taken more room =
          ap (λ r. r.0) (adds F laws (state p.gas_pool_store out spent known) sound more room).0

      -- A turn of a task that puts back coins of objects that it has taken out, or none, keeps the
      -- account of the objects.
      pub advance-IsSound :
          (env : Turn) (t : Task) (out' spent' : List ObjectId)
          → HasRoom p.gas_pool_store (coins_back t)
          → ((a : ObjectId)
              → count a out + count a spent
                ≡ count a (map coin_id (coins_back t)) + count a out' + count a spent')
          → IsSound F
              (state (advance (on_redis F parts) env t p).1.gas_pool_store out' spent' known)
      advance-IsSound env t out' spent' room same = elim (advance-Put env t p) [
        | inl (none_back, kept) ↦
            subst (λ s. IsSound F (state s out' spent' known)) (sym kept)
              (moved-IsSound p.gas_pool_store out spent out' spent' known
                (λ a. omega (arith, same a, ap (λ cs. count a (map coin_id cs)) none_back)) sound)
        | inr put ↦
            subst (λ s. IsSound F (state s out' spent' known)) (sym put)
              (returned-IsSound p.gas_pool_store out spent out' spent' known _ room same sound)
      ]
