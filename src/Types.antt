-- ===== src/Types.antt =====
-- The shared types of the gas station: src/types.rs. Identifiers, addresses and digests come from
-- the Sui types and are only compared here, so they are numbers.
use sui_gas_pool.Prelude.{
  ℕ, ◌+◌, ◌^◌, ◌<◌, List, [], ◌∷◌, ◌++◌, map, Result, ok, err, Error, length, ltb, ◌==◌,
  if◌then◌else◌, sum,
}

abbrev pub ObjectId : Type 0
ObjectId = ℕ

abbrev pub SuiAddress : Type 0
SuiAddress = ℕ

pub record ObjectRef : Type 0 where
  pub id : ObjectId
  pub version : ℕ
  pub digest : ℕ

pub record GasCoin : Type 0 where
  pub object_ref : ObjectRef
  pub balance : ℕ

abbrev pub ReservationId : Type 0
ReservationId = ℕ

-- The ranges of the machine words in a coin.
abbrev pub IsCoin : GasCoin → Type 0
IsCoin c = (c.balance < 2 ^ 64) × (c.object_ref.version < 2 ^ 64)

abbrev pub coin_id : GasCoin → ObjectId
coin_id c = c.object_ref.id

abbrev pub total_balance : List GasCoin → ℕ
total_balance cs = sum (map (λ c. c.balance) cs)

pub record UpdatedGasGroup : Type 0 where
  pub updated_gas_coins : List GasCoin
  pub deleted_gas_coins : List ObjectId

-- Insertion into a `BTreeSet`, as a sorted list without repetition.
unfoldable pub set_insert : ObjectId → List ObjectId → List ObjectId
set_insert a [] = a ∷ []
set_insert a (b ∷ bs) =
    let later = set_insert a bs in
    if ltb a b then a ∷ b ∷ bs else if a == b then b ∷ bs else b ∷ later

unfoldable pub to_set : List ObjectId → List ObjectId
unfolding set_insert
to_set [] = []
to_set (a ∷ ids) = set_insert a (to_set ids)

abbrev pub group_ids : UpdatedGasGroup → List ObjectId
group_ids g = map coin_id g.updated_gas_coins ++ g.deleted_gas_coins

first_key : ℕ → List ObjectId → Result ObjectId
first_key expected [] = err Error.group_empty
first_key expected (a ∷ ids) =
    if length (a ∷ ids) == expected then ok a else err Error.group_duplicate

unfoldable pub get_group_key : UpdatedGasGroup → Result ObjectId
unfolding first_key to_set
get_group_key g =
    first_key (length g.updated_gas_coins + length g.deleted_gas_coins) (to_set (group_ids g))

-- `objects` is a `BTreeSet`: a sorted list.
pub record ReservedGasGroup : Type 0 where
  pub objects : List ObjectId
  pub expiration_time : ℕ

first_or_panic : List ObjectId → Result ObjectId
first_or_panic [] = err Error.panic
first_or_panic (a ∷ ids) = ok a

unfoldable pub get_key : ReservedGasGroup → Result ObjectId
unfolding first_or_panic
get_key g = first_or_panic g.objects
