-- ===== src/Rpc/Calls.antt =====
-- The client of src/rpc/client.rs: the requests that its methods send, and what they read of the
-- answers. Sending is a parameter, as is the text of an error of reqwest.
pub mod EndToEnd
use sui_gas_pool.Prelude.{
  ℕ, Bool, true, false, ◌&&◌, Option, none, some, List, [], ◌∷◌, ◌++◌, Result, ok, err, Error,
  Action, if◌then◌else◌,
}
use sui_gas_pool.Text.{Text}
use sui_gas_pool.Types.{SuiAddress, ObjectRef, ReservationId}
use sui_gas_pool.Sui.{TransactionData, Effects}
use sui_gas_pool.GasPool.Core.{Parts, GasPool}
use sui_gas_pool.Rpc.{
  StatusCode, Texts, ReserveGasRequest, ExecuteTxRequest, Answer, value, failure, read_reserve_gas,
  read_execute_tx,
}
use sui_gas_pool.Rpc.Health.{same_text, read_health}
use sui_gas_pool.Rpc.Routes.{
  Request, get_health, get_version, post_debug_health_check, post_reserve_gas, post_execute_tx,
  Reply, text_body, reserve_body, execute_body, Surroundings, serve,
}

pub data Method : Type 0 where
  get post : Method

pub data Body : Type 0 where
  no_body : Body
  reserve_json : ReserveGasRequest → Body
  execute_json : ExecuteTxRequest → Body

-- What reqwest sends: `token` is behind `Bearer` in the header of the authorization.
pub record HttpRequest : Type 0 where
  pub method : Method
  pub url : Text
  pub token : Option ℕ
  pub body : Body

-- The paths: /, /version, /debug_health_check, /v1/reserve_gas and /v1/execute_tx.
abbrev pub health_path : Text
health_path = b'/' ∷ []

abbrev pub version_path : Text
version_path = b'/' ∷ b'v' ∷ b'e' ∷ b'r' ∷ b's' ∷ b'i' ∷ b'o' ∷ b'n' ∷ []

abbrev pub debug_health_check_path : Text
debug_health_check_path =
    b'/' ∷ b'd' ∷ b'e' ∷ b'b' ∷ b'u' ∷ b'g' ∷ b'_' ∷ b'h' ∷ b'e' ∷ b'a' ∷ b'l' ∷ b't' ∷ b'h' ∷ b'_'
    ∷ b'c' ∷ b'h' ∷ b'e' ∷ b'c' ∷ b'k' ∷ []

abbrev pub reserve_gas_path : Text
reserve_gas_path =
    b'/' ∷ b'v' ∷ b'1' ∷ b'/' ∷ b'r' ∷ b'e' ∷ b's' ∷ b'e' ∷ b'r' ∷ b'v' ∷ b'e' ∷ b'_' ∷ b'g' ∷ b'a'
    ∷ b's' ∷ []

abbrev pub execute_tx_path : Text
execute_tx_path =
    b'/' ∷ b'v' ∷ b'1' ∷ b'/' ∷ b'e' ∷ b'x' ∷ b'e' ∷ b'c' ∷ b'u' ∷ b't' ∷ b'e' ∷ b'_' ∷ b't' ∷ b'x'
    ∷ []

module _ {S : Type 0} (send : HttpRequest → Action S Reply) (server_address : Text) (auth : ℕ)
    (texts : Texts) (shown : StatusCode → Text → Text) (bad_json : Text) where
  open texts use {to_string}

  -- `.text()` of an answer with another body is its JSON, which is no text that a check waits for.
  read_check : Result Reply × S → Answer (Unit {0}) × S
  read_check (err e, s) = (failure (to_string e), s)
  read_check (ok (text_body reply), s) = (read_health shown reply, s)
  read_check (ok (reserve_body reply), s) = (failure bad_json, s)
  read_check (ok (execute_body reply), s) = (failure bad_json, s)

  unfoldable pub call_health : S → Answer (Unit {0}) × S
  unfolding read_check
  call_health s = read_check (
      send
        (record { method = get; url = server_address ++ health_path; token = none; body = no_body })
        s)

  read_version : Result Reply × S → Answer Text × S
  read_version (err e, s) = (failure (to_string e), s)
  read_version (ok (text_body (status, text)), s) = (value text, s)
  read_version (ok (reserve_body reply), s) = (failure bad_json, s)
  read_version (ok (execute_body reply), s) = (failure bad_json, s)

  -- Whatever the status.
  unfoldable pub call_version : S → Answer Text × S
  unfolding read_version
  call_version s = read_version (
      send
        (record {
          method = get;
          url = server_address ++ version_path;
          token = none;
          body = no_body;
        })
        s)

  unfoldable pub call_debug_health_check : S → Answer (Unit {0}) × S
  unfolding read_check
  call_debug_health_check s = read_check (
      send
        (record {
          method = post;
          url = server_address ++ debug_health_check_path;
          token = some auth;
          body = no_body;
        })
        s)

  read_reserved : Result Reply × S → Answer (SuiAddress × ReservationId × List ObjectRef) × S
  read_reserved (err e, s) = (failure (to_string e), s)
  read_reserved (ok (reserve_body (status, response)), s) = (read_reserve_gas texts response, s)
  read_reserved (ok (text_body reply), s) = (failure bad_json, s)
  read_reserved (ok (execute_body reply), s) = (failure bad_json, s)

  unfoldable pub call_reserve_gas :
      ℕ → ℕ → S → Answer (SuiAddress × ReservationId × List ObjectRef) × S
  unfolding read_reserved
  call_reserve_gas gas_budget reserve_duration_secs s = read_reserved (
      send
        (record {
          method = post;
          url = server_address ++ reserve_gas_path;
          token = some auth;
          body =
              reserve_json
                (record { gas_budget = gas_budget; reserve_duration_secs = reserve_duration_secs });
        })
        s)

  read_executed : Result Reply × S → Answer Effects × S
  read_executed (err e, s) = (failure (to_string e), s)
  read_executed (ok (execute_body (status, response)), s) = (read_execute_tx texts response, s)
  read_executed (ok (text_body reply), s) = (failure bad_json, s)
  read_executed (ok (reserve_body reply), s) = (failure bad_json, s)

  -- The Base64 texts of a transaction and of a signature are parameters.
  unfoldable pub call_execute_tx :
      (TransactionData → Text)
      → (ℕ → Text)
      → ReservationId
      → TransactionData
      → ℕ
      → S
      → Answer Effects × S
  unfolding read_executed
  call_execute_tx tx_text sig_text reservation_id tx_data user_sig s = read_executed (
      send
        (record {
          method = post;
          url = server_address ++ execute_tx_path;
          token = some auth;
          body = execute_json (record {
            reservation_id = reservation_id;
            tx_bytes = tx_text tx_data;
            user_sig = sig_text user_sig;
          });
        })
        s)

-- The address of a server in front of a path.
unfoldable pub path_behind : Text → Text → Option Text
unfolding same_text
path_behind [] url = some url
path_behind (a ∷ address) [] = none
path_behind (a ∷ address) (c ∷ url) =
    let rest = path_behind address url in if same_text (a ∷ []) (c ∷ []) then rest else none

-- The router: `GasPoolServer::new`, with what the handlers extract from a request.
routed : Method → Option ℕ → Body → Text → Option Request
routed get token body path =
    if same_text path health_path
    then some get_health
    else if same_text path version_path
    then some get_version
    else none
routed post (some token) no_body path =
    if same_text path debug_health_check_path then some (post_debug_health_check token) else none
routed post (some token) (reserve_json r) path =
    if same_text path reserve_gas_path
    then some (post_reserve_gas token r)
    else if same_text path debug_health_check_path
    then some (post_debug_health_check token)
    else none
routed post (some token) (execute_json r) path =
    if same_text path execute_tx_path
    then some (post_execute_tx token r)
    else if same_text path debug_health_check_path
    then some (post_debug_health_check token)
    else none
routed post none body path = none

unfoldable pub route : Text → HttpRequest → Option Request
unfolding routed path_behind
route address r = elim (path_behind address r.url) [
  | none ↦ none
  | some path ↦ routed r.method r.token r.body path
]

-- A server that listens at an address. What axum answers to a request that fits no route is a
-- parameter.
module _ {S : Type 0} (parts : Parts S) (texts : Texts) (secret : ℕ) (version : Text)
    (turned_away : HttpRequest → Result Reply) where
  unfoldable pub listen : Surroundings → Text → HttpRequest → Action (GasPool parts) Reply
  listen w address r p = elim (route address r) [
    | none ↦ (turned_away r, p)
    | some request ↦
        let (reply, p') = serve parts texts secret version w request p in (ok reply, p')
  ]
