-- ===== src/Retry.antt =====
-- The two macros of src/errors.rs. `Retry::spawn` belongs to the library tokio_retry: it is a parameter,
-- applied to what the closure returns at each attempt.
use sui_gas_pool.Prelude.{ℕ, zero, suc, Result, ok, err, Error, Action, ◌≡◌, ap}

pub record Retry : Type 1 where
  -- with a strategy that never ends
  pub forever : {A : Type 0} → (ℕ → Result A) → Result A
  -- with so many delays
  pub limited : {A : Type 0} → ℕ → (ℕ → Result A) → Result A

-- What comes back is the result of an attempt, and the first attempt that succeeds ends the loop.
pub record IsRetry (r : Retry) : Type 1 where
  pub forever_attempt :
      {A : Type 0} (f : ℕ → Result A) (a : A) → r.forever f ≡ ok a → (n : ℕ) × (f n ≡ ok a)
  pub forever_first : {A : Type 0} (f : ℕ → Result A) (a : A) → f 0 ≡ ok a → r.forever f ≡ ok a
  pub limited_attempt :
      {A : Type 0} (k : ℕ) (f : ℕ → Result A) (a : A)
      → r.limited k f ≡ ok a
      → (n : ℕ) × (f n ≡ ok a)
  pub limited_first :
      {A : Type 0} (k : ℕ) (f : ℕ → Result A) (a : A) → f 0 ≡ ok a → r.limited k f ≡ ok a

-- The same for a closure that changes a state, with a bound on the attempts.
or_again : {S A : Type 0} → (S → Result A × S) → Result A × S → Result A × S
or_again again (ok a, s) = (ok a, s)
or_again again (err e, s) = again s

unfoldable pub until_ok : {S A : Type 0} → ℕ → Action S A → Action S A
unfolding or_again
until_ok zero m s = (err Error.remote, s)
until_ok (suc attempts) m s = or_again (until_ok attempts m) (m s)

-- One attempt is enough if it succeeds.
pub until_ok_first :
    {S A : Type 0} (attempts : ℕ) (m : Action S A) (s s' : S) (a : A)
    → m s ≡ (ok a, s')
    → until_ok (suc attempts) m s ≡ (ok a, s')
unfolding until_ok
until_ok_first attempts m s s' a e = ap (or_again (until_ok attempts m)) e

or_again_keeps :
    {S A : Type 0} (P : S → Type 0) (again : S → Result A × S)
    → ((s : S) → P s → P (again s).1)
    → (r : Result A × S) → P r.1
    → P (or_again again r).1
unfolding or_again
or_again_keeps P again keeps (ok a, s) h = h
or_again_keeps P again keeps (err e, s) h = keeps s h

-- What every attempt keeps is kept.
pub until_ok_keeps :
    {S A : Type 0} (P : S → Type 0) (attempts : ℕ) (m : Action S A)
    → ((s : S) → P s → P (m s).1)
    → (s : S) → P s
    → P (until_ok attempts m s).1
unfolding until_ok
until_ok_keeps P zero m keeps s h = h
until_ok_keeps P (suc attempts) m keeps s h =
    or_again_keeps P (until_ok attempts m) (until_ok_keeps P attempts m keeps) (m s) (keeps s h)
