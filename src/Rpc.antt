-- ===== src/Rpc.antt =====
-- The HTTP interface: src/rpc/rpc_types.rs, server.rs and client.rs. A handler returns the status and
-- the body; HTTP and JSON carry the bodies as they are. Texts of errors, and the two decoders of the
-- transaction and the signature, are parameters. A spawned task is awaited and does not fail.
pub mod Meaning
pub mod Execution
pub mod Health
pub mod Routes
pub mod Calls
use sui_gas_pool.Prelude.{
  ℕ, ◌*◌, ◌==◌, ltb, if◌then◌else◌, Bool, true, false, not, Option, none, some, List, [], ◌∷◌,
  Result, ok, err, Error, Action, and_then, bail_if,
}
use sui_gas_pool.Text.{Text}
use sui_gas_pool.Types.{SuiAddress, ObjectRef, ReservationId}
use sui_gas_pool.Sui.{TransactionData, Effects, Response}
use sui_gas_pool.SuiClient.{FullNode}
use sui_gas_pool.GasPool.Core.{
  Parts, GasPool, reserve_gas, execute_transaction', debug_check_health, mist_per_sui,
}

abbrev pub max_budget : ℕ
max_budget = 2_000_000_000

abbrev pub max_duration_s : ℕ
max_duration_s = 10 * 60

pub record ReserveGasRequest : Type 0 where
  pub gas_budget : ℕ
  pub reserve_duration_secs : ℕ

unfoldable pub check_validity : ReserveGasRequest → Result (Unit {0})
check_validity r = bail_if (r.gas_budget == 0) Error.budget_zero (
    bail_if (ltb max_budget r.gas_budget) Error.budget_too_large (
      bail_if (r.reserve_duration_secs == 0) Error.duration_zero
        (bail_if (ltb max_duration_s r.reserve_duration_secs) Error.duration_too_long (ok tt))))

pub record ReserveGasResult : Type 0 where
  pub sponsor_address : SuiAddress
  pub reservation_id : ReservationId
  pub gas_coins : List ObjectRef

pub record ReserveGasResponse : Type 0 where
  pub result : Option ReserveGasResult
  pub error : Option Text

pub record ExecuteTxRequest : Type 0 where
  pub reservation_id : ReservationId
  pub tx_bytes : Text
  pub user_sig : Text

pub record ExecuteTxResponse : Type 0 where
  pub effects : Option Effects
  pub events : Option ℕ
  pub error : Option Text

pub data StatusCode : Type 0 where
  ok_200 unauthorized_401 bad_request_400 internal_server_error_500 : StatusCode

-- `new_ok` and `new_err` of the two responses.
unfoldable pub reserve_new_ok : SuiAddress → ReservationId → List ObjectRef → ReserveGasResponse
reserve_new_ok sponsor id coins = record {
  result = some (record { sponsor_address = sponsor; reservation_id = id; gas_coins = coins });
  error = none;
}

unfoldable pub reserve_new_err : Text → ReserveGasResponse
reserve_new_err e = record { result = none; error = some e }

unfoldable pub execute_new_ok : Effects → Option ℕ → ExecuteTxResponse
execute_new_ok effects events = record { effects = some effects; events = events; error = none }

unfoldable pub execute_new_err : Text → ExecuteTxResponse
execute_new_err e = record { effects = none; events = none; error = some e }

-- The texts that the handlers and the client write.
pub record Texts : Type 0 where
  pub to_string : Error → Text
  pub invalid_token : Text
  pub invalid_bytes : Text
  pub unknown_error : Text

-- What a client's call returns: a value, or the text of an error.
pub data Answer (A : Type 0) : Type 0 where
  value : A → Answer A
  failure : Text → Answer A

abbrev pub ReserveReply : Type 0
ReserveReply = StatusCode × ReserveGasResponse

abbrev pub ExecuteReply : Type 0
ExecuteReply = StatusCode × ExecuteTxResponse

module _ {S : Type 0} (parts : Parts S) (texts : Texts) (secret : ℕ) where
  open texts use {to_string, invalid_token, invalid_bytes}

  -- `reserve_gas_impl`
  unfoldable pub reserve_reply :
      Result (SuiAddress × ReservationId × List ObjectRef) × GasPool parts
      → ReserveReply × GasPool parts
  unfolding reserve_new_ok reserve_new_err
  reserve_reply (ok (sponsor, id, coins), p) = ((ok_200, reserve_new_ok sponsor id coins), p)
  reserve_reply (err e, p) = ((internal_server_error_500, reserve_new_err (to_string e)), p)

  -- `Duration::from_secs`, in milliseconds.
  unfoldable pub reserve_checked :
      ℕ → ℕ → ReserveGasRequest → Result (Unit {0}) → GasPool parts → ReserveReply × GasPool parts
  unfolding reserve_reply
  reserve_checked today now r (err e) p = ((bad_request_400, reserve_new_err (to_string e)), p)
  reserve_checked today now r (ok u) p =
      reserve_reply (reserve_gas parts today now r.gas_budget (r.reserve_duration_secs * 1000) p)

  unfoldable pub handle_reserve_gas :
      ℕ → ℕ → ℕ → ReserveGasRequest → GasPool parts → ReserveReply × GasPool parts
  unfolding reserve_checked
  handle_reserve_gas today now token r p =
      if token == secret
      then reserve_checked today now r (check_validity r) p
      else ((unauthorized_401, reserve_new_err invalid_token), p)

  -- `execute_tx_impl`: a response without effects panics, and the failed task is a 500.
  unfoldable pub execute_reply : Result Response × GasPool parts → ExecuteReply × GasPool parts
  unfolding execute_new_ok execute_new_err
  execute_reply (err e, p) = ((internal_server_error_500, execute_new_err (to_string e)), p)
  execute_reply (ok response, p) = elim response.effects [
    | none ↦ ((internal_server_error_500, execute_new_err (to_string Error.panic)), p)
    | some effects ↦ ((ok_200, execute_new_ok effects response.events), p)
  ]

  -- `convert_tx_and_sig`, with the decoders of the two texts.
  unfoldable pub convert_tx_and_sig :
      (Text → Result TransactionData)
      → (Text → Result ℕ)
      → ExecuteTxRequest
      → Result (TransactionData × ℕ)
  convert_tx_and_sig tx_of sig_of r =
      and_then (tx_of r.tx_bytes) (λ tx. and_then (sig_of r.user_sig) (λ s. ok (tx, s)))

  unfoldable pub execute_converted :
      FullNode
      → FullNode
      → ℕ
      → ReservationId
      → Result (TransactionData × ℕ)
      → GasPool parts
      → ExecuteReply × GasPool parts
  unfolding execute_reply
  execute_converted before after today id (err e) p =
      ((bad_request_400, execute_new_err invalid_bytes), p)
  execute_converted before after today id (ok (tx, s)) p =
      execute_reply (execute_transaction' parts before after today id tx s p)

  unfoldable pub handle_execute_tx :
      (Text → Result TransactionData)
      → (Text → Result ℕ)
      → FullNode
      → FullNode
      → ℕ
      → ℕ
      → ExecuteTxRequest
      → GasPool parts
      → ExecuteReply × GasPool parts
  unfolding execute_converted
  handle_execute_tx tx_of sig_of before after today token r p =
      if token == secret
      then execute_converted before after today r.reservation_id (convert_tx_and_sig tx_of sig_of r)
          p
      else ((unauthorized_401, execute_new_err invalid_token), p)

-- The client's reading of a body, whatever the status.
module _ (texts : Texts) where
  open texts use {unknown_error}

  or_unknown : Option Text → Text
  or_unknown none = unknown_error
  or_unknown (some e) = e

  unfoldable pub read_reserve_gas :
      ReserveGasResponse → Answer (SuiAddress × ReservationId × List ObjectRef)
  unfolding or_unknown
  read_reserve_gas r = elim r.result [
    | none ↦ failure (or_unknown r.error)
    | some result ↦ value (result.sponsor_address, result.reservation_id, result.gas_coins)
  ]

  unfoldable pub read_execute_tx : ExecuteTxResponse → Answer Effects
  unfolding or_unknown
  read_execute_tx r = elim r.effects [
    | none ↦ failure (or_unknown r.error)
    | some effects ↦ value effects
  ]
