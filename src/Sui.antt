-- ===== src/Sui.antt =====
-- What the station reads of a transaction and of its effects. The types belong to the Sui SDK: these
-- have the parts that the code looks at, under the names of the SDK.
use sui_gas_pool.Prelude.{ℕ, Bool, List, Option, Result}
use sui_gas_pool.Prelude.Int.{ℤ}
use sui_gas_pool.Types.{ObjectId, SuiAddress, ObjectRef}

-- Every owner but an address is `other`.
pub data Owner : Type 0 where
  address_owner : SuiAddress → Owner
  other : ℕ → Owner

pub data InputObjectKind : Type 0 where
  move_package : ObjectId → InputObjectKind
  imm_or_owned_move_object : ObjectRef → InputObjectKind
  shared_move_object : ObjectId → InputObjectKind

pub data Argument : Type 0 where
  gas_coin : Argument
  input result : ℕ → Argument
  nested_result : ℕ → ℕ → Argument

-- The arguments of each command; a type or a package is left out.
pub data Command : Type 0 where
  move_call : List Argument → Command
  transfer_objects : List Argument → Argument → Command
  split_coins : Argument → List Argument → Command
  merge_coins : Argument → List Argument → Command
  publish : Command
  make_move_vec : List Argument → Command
  upgrade : Argument → Command

-- `gas_owner` and `payment` are the fields of `gas_data()`, `first_signer` is `signers().first()` and
-- `input_objects` is the call of that name, which may fail.
pub record TransactionData : Type 0 where
  pub sender : SuiAddress
  pub gas_owner : SuiAddress
  pub payment : List ObjectRef
  pub commands : List Command
  pub first_signer : SuiAddress
  pub input_objects : Result (List InputObjectKind)

pub record Mutated : Type 0 where
  pub object_id : ObjectId
  pub owner : Owner
  pub version : ℕ

pub record BalanceChange : Type 0 where
  pub owner : Owner
  pub amount : ℤ

-- `gas_object` is the reference of the gas coin, `gas_owner` its owner, `net_gas_usage` the call on the
-- cost summary, and `is_success` the call `status().is_ok()`.
pub record Effects : Type 0 where
  pub gas_object : ObjectRef
  pub gas_owner : Owner
  pub net_gas_usage : ℤ
  pub mutated : List Mutated
  pub created : List ObjectRef
  pub is_success : Bool

pub record Response : Type 0 where
  pub effects : Option Effects
  pub balance_changes : Option (List BalanceChange)
  pub events : Option ℕ

-- Signatures are only passed on.
pub record Transaction : Type 0 where
  pub tx_data : TransactionData
  pub signatures : List ℕ
