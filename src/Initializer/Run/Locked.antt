-- ===== src/Initializer/Run/Locked.antt =====
-- The lock over a run of the initializer.
use sui_gas_pool.Prelude.{
  ℕ, zero, suc, ◌≡◌, refl, ap, Bool, true, false, List, [], ◌∷◌, Result, ok, err, Error, Action,
  some, ltb, take, drop, length, arith,
}
use sui_gas_pool.Types.{GasCoin}
use sui_gas_pool.Storage.Double.{double}
use sui_gas_pool.Storage.Store.{Store}
use sui_gas_pool.Storage.Formats.{Formats}
use sui_gas_pool.Storage.Scripts.Init.{acquire_lock_script, release_lock_script}
use sui_gas_pool.Storage.Redis.{acquire_init_lock, release_init_lock, add_new_coins}
use sui_gas_pool.Initializer.Run.{
  RunMode, Parts, max_init_duration_sec, balance_threshold, must, add_chunks, release, store_split,
  split_owned, with_lock, run_once,
}

refused : (e : Error) → ◌≡◌ {A = Result (Unit {0})} (err e) (ok tt) → ⊥
refused e h = cc

module _ (F : Formats) (parts : Parts) where
  open parts use {owned, split, target_init_balance}

  release-lock : (s : Store) → (release F parts s).1.init_lock ≡ some 0
  unfolding release must release_init_lock release_lock_script
  release-lock s = refl

  must-lock :
      {A : Type 0} (r : Result A × Store) (next : Action Store (Unit {0}))
      → ((s : Store) → (next s).0 ≡ ok tt → (next s).1.init_lock ≡ some 0)
      → (must F parts r next).0 ≡ ok tt
      → (must F parts r next).1.init_lock ≡ some 0
  unfolding must
  must-lock (ok a, s) next then e = then s e
  must-lock (err x, s) next then e = absurd (refused _ e)

  add_chunks-lock :
      (fuel : ℕ) (coins : List GasCoin) (next : Action Store (Unit {0}))
      → ((s : Store) → (next s).0 ≡ ok tt → (next s).1.init_lock ≡ some 0)
      → (s : Store) → (add_chunks F parts fuel coins next s).0 ≡ ok tt
      → (add_chunks F parts fuel coins next s).1.init_lock ≡ some 0
  unfolding add_chunks
  add_chunks-lock zero coins next then s e = then s e
  add_chunks-lock (suc fuel) [] next then s e = then s e
  add_chunks-lock (suc fuel) (c ∷ coins) next then s e =
      must-lock (add_new_coins F (take 5000 (c ∷ coins)) s)
        (add_chunks F parts fuel (drop 5000 (c ∷ coins)) next)
        (add_chunks-lock fuel (drop 5000 (c ∷ coins)) next then) e

  store_split-lock :
      (r : Result (List GasCoin)) (s : Store)
      → (store_split F parts r s).0 ≡ ok tt
      → (store_split F parts r s).1.init_lock ≡ some 0
  unfolding store_split
  store_split-lock (err x) s e = absurd (refused _ e)
  store_split-lock (ok coins) s e =
      add_chunks-lock (length coins) coins (release F parts) (λ s' e'. release-lock s') s e

  split_owned-lock :
      (r : Result (List GasCoin)) (s : Store)
      → (split_owned F parts r s).0 ≡ ok tt
      → (split_owned F parts r s).1.init_lock ≡ some 0
  unfolding split_owned
  split_owned-lock (err x) s e = absurd (refused _ e)
  split_owned-lock (ok []) s e = release-lock s
  split_owned-lock (ok (c ∷ coins)) s e = store_split-lock (split c (c ∷ coins)) s e

  with_lock-lock :
      (mode : RunMode) (r : Result Bool × Store)
      → r.0 ≡ ok true
      → (with_lock F parts mode r).0 ≡ ok tt
      → (with_lock F parts mode r).1.init_lock ≡ some 0
  unfolding with_lock
  with_lock-lock mode (err x, s) got e = absurd (refused _ e)
  with_lock-lock mode (ok false, s) got e = cc
  with_lock-lock mode (ok true, s) got e =
      split_owned-lock (owned (balance_threshold mode target_init_balance)) s e

  -- A run that acquires the lock and succeeds, with or without coins to split, has released the lock.
  pub run_once_releases :
      (now : ℕ) (mode : RunMode) (s : Store)
      → (acquire_init_lock now max_init_duration_sec s).0 ≡ ok true
      → (run_once F parts now mode s).0 ≡ ok tt
      → (run_once F parts now mode s).1.init_lock ≡ some 0
  unfolding run_once
  run_once_releases now mode s got e =
      with_lock-lock mode (acquire_init_lock now max_init_duration_sec s) got e

  held :
      (now duration : ℕ) (s : Store) (t : ℕ)
      → s.init_lock ≡ some t
      → ltb t (double now) ≡ false
      → acquire_init_lock now duration s ≡ (ok false, s)
  unfolding acquire_init_lock acquire_lock_script
  held now duration s t e late = ground arith

  -- While the lock is held up to a time that is not over, a run succeeds and changes nothing of the
  -- store.
  pub run_once_skips :
      (now t : ℕ) (mode : RunMode) (s : Store)
      → s.init_lock ≡ some t
      → ltb t (double now) ≡ false
      → run_once F parts now mode s ≡ (ok tt, s)
  unfolding run_once with_lock
  run_once_skips now t mode s e late =
      ap (with_lock F parts mode) (held now max_init_duration_sec s t e late)
