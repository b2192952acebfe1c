-- ===== src/Initializer/Run.antt =====
-- One run of the initializer, under the lock that keeps others out: `run_once` and `start`.
pub mod Locked
pub mod Steps
pub mod Again
pub mod Whole
use sui_gas_pool.Prelude.{
  ℕ, zero, suc, ◌*◌, ◌%◌, ◌^◌, Bool, true, false, List, [], ◌∷◌, Result, ok, err, Error, Action,
  take, drop, length,
}
use sui_gas_pool.Types.{GasCoin}
use sui_gas_pool.Storage.Store.{Store}
use sui_gas_pool.Storage.Formats.{Formats}
use sui_gas_pool.Storage.Redis.{acquire_init_lock, release_init_lock, add_new_coins, is_initialized}

pub data RunMode : Type 0 where
  initial refresh : RunMode

abbrev pub new_coin_balance_factor_threshold : ℕ
new_coin_balance_factor_threshold = 200

abbrev pub max_init_duration_sec : ℕ
max_init_duration_sec = 60 * 60 * 12

unfoldable pub balance_threshold : RunMode → ℕ → ℕ
balance_threshold initial target = 0
balance_threshold refresh target = target * new_coin_balance_factor_threshold % 2 ^ 64

-- What a run uses: the coins of the sponsor above a threshold, and `split_gas_coins` with the
-- environment for which the first coin gives the cost of an object.
pub record Parts : Type 0 where
  pub owned : ℕ → Result (List GasCoin)
  pub split : GasCoin → List GasCoin → Result (List GasCoin)
  pub target_init_balance : ℕ

module _ (F : Formats) (parts : Parts) where
  open parts use {owned, split, target_init_balance}

  -- `unwrap`
  unfoldable pub must :
      {A : Type 0} → Result A × Store → Action Store (Unit {0}) → Result (Unit {0}) × Store
  must (ok a, s) next = next s
  must (err e, s) next = (err Error.panic, s)

  -- The coins go to the store 5000 at a time. The fuel is their number.
  unfoldable pub add_chunks : ℕ → List GasCoin → Action Store (Unit {0}) → Action Store (Unit {0})
  unfolding must
  add_chunks zero coins next s = next s
  add_chunks (suc fuel) [] next s = next s
  add_chunks (suc fuel) (c ∷ coins) next s =
      must (add_new_coins F (take 5000 (c ∷ coins)) s)
        (add_chunks fuel (drop 5000 (c ∷ coins)) next)

  -- `release_init_lock().await.unwrap()`
  unfoldable pub release : Action Store (Unit {0})
  unfolding must
  release s = must (release_init_lock s) (λ s'. (ok tt, s'))

  -- The coins that were split are stored, and the lock is released.
  store_split : Result (List GasCoin) → Action Store (Unit {0})
  unfolding add_chunks release
  store_split (err e) s = (err Error.panic, s)
  store_split (ok coins) s = add_chunks (length coins) coins release s

  unfoldable pub split_owned : Result (List GasCoin) → Action Store (Unit {0})
  unfolding store_split release
  split_owned (err e) s = (err Error.panic, s)
  split_owned (ok []) s = release s
  split_owned (ok (c ∷ coins)) s = store_split (split c (c ∷ coins)) s

  unfoldable pub with_lock : RunMode → Result Bool × Store → Result (Unit {0}) × Store
  unfolding split_owned balance_threshold
  with_lock mode (err e, s) = (err Error.panic, s)
  with_lock mode (ok false, s) = (ok tt, s)
  with_lock mode (ok true, s) = split_owned (owned (balance_threshold mode target_init_balance)) s

  unfoldable pub run_once : ℕ → RunMode → Action Store (Unit {0})
  unfolding with_lock
  run_once now mode s = with_lock mode (acquire_init_lock now max_init_duration_sec s)

  unfoldable pub unless_initialized : ℕ → Result Bool × Store → Result (Unit {0}) × Store
  unfolding run_once
  unless_initialized now (err e, s) = (err Error.panic, s)
  unless_initialized now (ok true, s) = (ok tt, s)
  unless_initialized now (ok false, s) = run_once now initial s

  -- `start`, up to the task that runs again and again.
  unfoldable pub start : ℕ → Action Store (Unit {0})
  unfolding unless_initialized
  start now s = unless_initialized now (is_initialized s)
