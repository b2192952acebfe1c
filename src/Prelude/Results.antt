-- ===== src/Prelude/Results.antt =====
-- What a fallible call returns, and calls that also change a state.
use mathlib.Core.Path.{◌≡◌, refl, ap}
use mathlib.Core.Logic.{◌⊎◌, inl, inr}
use mathlib.Core.Bool.{Bool, true, false}
use mathlib.Core.Option.{Option, none, some}

-- The errors that the code builds with `bail!` and `anyhow!`; `panic` is an `unwrap` that fails and
-- `remote` is any error of a service that the code calls.
pub data Error : Type 0 where
  daily_cap_exceeded unable_to_reserve reservation_gone script_failed : Error
  object_locked object_out_of_date : Error
  sponsor_not_registered signer_not_sender gas_coin_used : Error
  no_balance_changes usage_overflow no_effects : Error
  budget_zero budget_too_large duration_zero duration_too_long : Error
  group_empty group_duplicate : Error
  remote panic : Error

abbrev pub is_panic : Error → Bool
is_panic Error.panic = true
is_panic e = false

pub data Result {ℓ} (A : Type ℓ) : Type ℓ where
  ok : A → Result A
  err : Error → Result A

pub Result-cases {ℓ} :
    {A : Type ℓ} (r : Result A) → ((a : A) × (r ≡ ok a)) ⊎ ((e : Error) × (r ≡ err e))
Result-cases (ok a) = inl (a, refl)
Result-cases (err e) = inr (e, refl)

-- A call on a state: what it wrote stays written when it fails.
abbrev pub Action {ℓ κ} : Type ℓ → Type κ → Type (ℓ ⊔ κ)
Action S A = S → Result A × S

module _ {ℓ κ} {S : Type ℓ} {A : Type κ} where
  abbrev pub pure : A → Action S A
  pure a s = (ok a, s)

  abbrev pub raise : Error → Action S A
  raise e s = (err e, s)

  abbrev pub lift : Result A → Action S A
  lift r s = (r, s)

  abbrev pub or_raise : Option A → Error → Action S A
  or_raise none e s = (err e, s)
  or_raise (some a) e s = (ok a, s)

-- `unwrap` and `expect`: any error is a panic.
abbrev pub unwrap {ℓ} : {A : Type ℓ} → Result A → Result A
unwrap (ok a) = ok a
unwrap (err e) = err Error.panic

-- The same after a call that changes a state.
abbrev pub unwrapped {ℓ κ} : {S : Type ℓ} {A : Type κ} → Action S A → Action S A
unwrapped m s = let (r, s') = m s in (unwrap r, s')

-- What follows a call.
abbrev pub resume {ℓ κ μ} :
    {S : Type ℓ} {A : Type κ} {B : Type μ} → (A → Action S B) → Result A × S → Result B × S
resume f (ok a, s) = f a s
resume f (err e, s) = (err e, s)

infixl 5 ◌>>=◌ ◌>>◌
abbrev pub ◌>>=◌ {ℓ κ μ} :
    {S : Type ℓ} {A : Type κ} {B : Type μ} → Action S A → (A → Action S B) → Action S B
◌>>=◌ m f s = resume f (m s)

abbrev pub ◌>>◌ {ℓ κ μ} :
    {S : Type ℓ} {A : Type κ} {B : Type μ} → Action S A → Action S B → Action S B
m >> k = m >>= λ _. k

-- A chain goes on from a call that succeeds, and ends with one that fails.
module _ {ℓ κ μ} {S : Type ℓ} {A : Type κ} {B : Type μ} where
  pub >>=-ok :
      (m : Action S A) (f : A → Action S B) (s : S) {a : A} {s' : S}
      → m s ≡ (ok a, s')
      → (m >>= f) s ≡ f a s'
  >>=-ok m f s e = ap (resume f) e

  pub >>=-err :
      (m : Action S A) (f : A → Action S B) (s : S) {e : Error} {s' : S}
      → m s ≡ (err e, s')
      → (m >>= f) s ≡ (err e, s')
  >>=-err m f s e = ap (resume f) e

-- The same for calls that change no state.
abbrev pub and_then {ℓ κ} : {A : Type ℓ} {B : Type κ} → Result A → (A → Result B) → Result B
and_then (ok a) f = f a
and_then (err e) f = err e

abbrev pub bail_if : Bool → Error → Result (Unit {0}) → Result (Unit {0})
bail_if true e rest = err e
bail_if false e rest = rest
