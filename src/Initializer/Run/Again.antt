-- ===== src/Initializer/Run/Again.antt =====
-- The task of the initializer that runs again and again, until it is cancelled: `run`.
use sui_gas_pool.Prelude.{
  ◌≡◌, refl, ap, ◌∙◌, false, some, List, [], ◌∷◌, ◌++◌, ℕ, Result, ok, err, Action, All, ltb,
}
use sui_gas_pool.Storage.Double.{double}
use sui_gas_pool.Storage.Store.{Store}
use sui_gas_pool.Storage.Formats.{Formats}
use sui_gas_pool.Initializer.Run.{Parts, refresh, run_once}
use sui_gas_pool.Initializer.Run.Locked.{run_once_skips}

-- What ends a sleep: the time is over, with what the run then uses, or the task is cancelled.
pub data Wake : Type 0 where
  slept : ℕ → Parts → Wake
  cancelled : Wake

module _ (F : Formats) where
  -- A run that panics ends the task.
  go_on : Action Store (Unit {0}) → Result (Unit {0}) × Store → Result (Unit {0}) × Store
  go_on again (ok u, s) = again s
  go_on again (err e, s) = (err e, s)

  -- The store after these wake-ups.
  unfoldable pub run : List Wake → Action Store (Unit {0})
  unfolding go_on
  run [] s = (ok tt, s)
  run (cancelled ∷ ws) s = (ok tt, s)
  run (slept now parts ∷ ws) s = go_on (run ws) (run_once F parts now refresh s)

  -- What comes after the cancellation does not run.
  pub run-cancelled :
      (before later : List Wake) (s : Store) → run (before ++ cancelled ∷ later) s ≡ run before s
  unfolding run
  run-cancelled [] later s = refl
  run-cancelled (cancelled ∷ before) later s = refl
  run-cancelled (slept now parts ∷ before) later s =
      goes (run_once F parts now refresh s) (λ s'. run-cancelled before later s')
    where
      goes :
          (r : Result (Unit {0}) × Store)
          → ((s' : Store) → run (before ++ cancelled ∷ later) s' ≡ run before s')
          → go_on (run (before ++ cancelled ∷ later)) r ≡ go_on (run before) r
      goes (ok u, s') same = same s'
      goes (err e, s') same = refl

  -- A wake-up at a time at which a lock up to `t` is not over.
  abbrev pub IsBefore : ℕ → Wake → Type 0
  IsBefore t (slept now parts) = ltb t (double now) ≡ false
  IsBefore t cancelled = Unit

  -- While another station holds the lock, the task wakes up again and again and changes nothing.
  pub run_waits :
      (t : ℕ) (ws : List Wake) (s : Store)
      → s.init_lock ≡ some t
      → All (IsBefore t) ws
      → run ws s ≡ (ok tt, s)
  unfolding run go_on
  run_waits t [] s held early = refl
  run_waits t (cancelled ∷ ws) s held early = refl
  run_waits t (slept now parts ∷ ws) s held early =
      ap (go_on (run ws)) (run_once_skips F parts now t refresh s held early.0)
      ∙ run_waits t ws s held early.1
