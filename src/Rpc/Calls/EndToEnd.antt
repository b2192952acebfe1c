-- ===== src/Rpc/Calls/EndToEnd.antt =====
-- The client's calls against the server that listens at its address.
use sui_gas_pool.Prelude.{
  ℕ, ◌*◌, ◌==◌, ◌≡◌, ◌↔◌, refl, ap, Option, some, none, [], ◌∷◌, ◌++◌, Result, ok, Action, and_then,
  if◌then◌else◌, arith,
}
use sui_gas_pool.Text.{Text}
use sui_gas_pool.Types.{ReservationId}
use sui_gas_pool.Sui.{TransactionData}
use sui_gas_pool.GasPool.Core.{
  Parts, GasPool, reserve_gas, execute_transaction', debug_check_health,
}
use sui_gas_pool.Rpc.{StatusCode, Texts, value, ReserveGasRequest, ExecuteTxRequest}
use sui_gas_pool.Rpc.Meaning.{IsValidRequest, answer_of, handle_reserve_gas-read}
use sui_gas_pool.Rpc.Execution.{effects_or_panic, handle_execute_tx-read}
use sui_gas_pool.Rpc.Health.{
  same_text, is_success, read_health, health, handle_debug_health_check-read,
}
use sui_gas_pool.Rpc.Routes.{
  Surroundings, Request, get_health, get_version, post_debug_health_check, post_reserve_gas,
  post_execute_tx, Reply, serve,
}
use sui_gas_pool.Rpc.Calls.{
  HttpRequest, Method, get, post, Body, no_body, reserve_json, execute_json, health_path,
  version_path, debug_health_check_path, reserve_gas_path, execute_tx_path, path_behind, route,
  routed, listen, call_health, call_version, call_debug_health_check, call_reserve_gas,
  call_execute_tx, read_check, read_version, read_reserved, read_executed,
}

pub path_behind-append : (address path : Text) → path_behind address (address ++ path) ≡ some path
unfolding path_behind
path_behind-append [] path = refl
path_behind-append (c ∷ address) path = ground (arith, path_behind-append address path)

module _ {S : Type 0} (parts : Parts S) (texts : Texts) (secret : ℕ) (version : Text)
    (turned_away : HttpRequest → Result Reply) (shown : StatusCode → Text → Text) (bad_json : Text)
    (w : Surroundings) (address : Text) where
  -- What the client's requests reach.
  abbrev pub server : HttpRequest → Action (GasPool parts) Reply
  server = listen parts texts secret version turned_away w address

  routed_to :
      (m : Method) (token : Option ℕ) (body : Body) (path : Text) (request : Request)
      → routed m token body path ≡ some request
      → route address (record { method = m; url = address ++ path; token = token; body = body })
        ≡ some request
  unfolding route
  routed_to m token body path request e = rw (path_behind-append address path, route) e

  reaches :
      (r : HttpRequest) (request : Request) (p : GasPool parts)
      → route address r ≡ some request
      → server r p ≡ (
        ok (serve parts texts secret version w request p).0,
        (serve parts texts secret version w request p).1,
      )
  unfolding listen
  reaches r request p e = rw (e, listen) refl

  -- The plain health check succeeds, the client reads the version, and the pool is not changed.
  pub call_health_serves :
      (auth : ℕ) (p : GasPool parts)
      → (call_health server address auth texts shown bad_json p ≡ (value tt, p))
        × (call_version server address auth texts shown bad_json p ≡ (value version, p))
  unfolding call_health call_version routed same_text serve health read_health is_success
  call_health_serves auth p = (
    ap (read_check server address auth texts shown bad_json)
        (reaches _ get_health p (routed_to get none no_body health_path get_health refl)),
    ap (read_version server address auth texts shown bad_json)
        (reaches _ get_version p (routed_to get none no_body version_path get_version refl)),
  )

  -- The client's check of the whole station succeeds exactly when its token is the secret and the pool
  -- could reserve a coin and sign with it, and the pool is changed as by that check, or not at all
  -- without the secret.
  pub call_debug_health_check_serves :
      (auth : ℕ) (p : GasPool parts)
      → let (answer, p') = call_debug_health_check server address auth texts shown bad_json p in
        let called = debug_check_health parts w.health_tx w.today w.now p in
        ((answer ≡ value tt) ↔ ((auth ≡ secret) × (called.0 ≡ ok tt)))
        × (p' ≡ (if auth == secret then called.1 else p))
  unfolding call_debug_health_check routed same_text serve read_check
  call_debug_health_check_serves auth p =
      rw
        (reaches _ (post_debug_health_check auth) p (
          routed_to post (some auth) no_body debug_health_check_path (post_debug_health_check auth)
            refl))
        (handle_debug_health_check-read parts w.debug secret shown w.health_tx w.today w.now auth p)

  -- A client with the secret that asks for gas within the bounds reads the pool's own result, or the
  -- text of its error, and the pool is changed as by `reserve_gas` with the duration in milliseconds.
  pub call_reserve_gas_serves :
      (gas_budget reserve_duration_secs : ℕ) (p : GasPool parts)
      → IsValidRequest
          (record { gas_budget = gas_budget; reserve_duration_secs = reserve_duration_secs })
      → let (answer, p') =
          call_reserve_gas server address secret texts shown bad_json gas_budget
            reserve_duration_secs p in
        let called = reserve_gas parts w.today w.now gas_budget (reserve_duration_secs * 1000) p in
        (answer ≡ answer_of texts called.0) × (p' ≡ called.1)
  unfolding call_reserve_gas routed same_text serve read_reserved
  call_reserve_gas_serves gas_budget reserve_duration_secs p valid =
      rw
        (reaches _ (post_reserve_gas secret asked) p (
          routed_to post (some secret) (reserve_json asked) reserve_gas_path
            (post_reserve_gas secret asked) refl))
        (handle_reserve_gas-read parts texts secret w.today w.now asked p valid)
    where
      asked : ReserveGasRequest
      asked = record { gas_budget = gas_budget; reserve_duration_secs = reserve_duration_secs }

  -- A client with the secret whose encodings the server's decoders undo reads the effects of the
  -- pool's response to its transaction, or the text of the error, and the pool is changed as by
  -- `execute_transaction`.
  pub call_execute_tx_serves :
      (tx_text : TransactionData → Text) (sig_text : ℕ → Text) (id : ReservationId)
      (tx : TransactionData) (sig : ℕ) (p : GasPool parts)
      → w.tx_of (tx_text tx) ≡ ok tx
      → w.sig_of (sig_text sig) ≡ ok sig
      → let (answer, p') =
          call_execute_tx server address secret texts shown bad_json tx_text sig_text id tx sig p in
        let called = execute_transaction' parts w.before w.after w.today id tx sig p in
        (answer
          ≡ answer_of texts (and_then called.0 (λ response. effects_or_panic response.effects)))
        × (p' ≡ called.1)
  unfolding call_execute_tx routed same_text serve read_executed
  call_execute_tx_serves tx_text sig_text id tx sig p decodes decodes' =
      rw
        (reaches _ (post_execute_tx secret asked) p (
          routed_to post (some secret) (execute_json asked) execute_tx_path
            (post_execute_tx secret asked) refl))
        (handle_execute_tx-read parts texts secret w.tx_of w.sig_of w.before w.after w.today asked
          tx sig p decodes decodes')
    where
      asked : ExecuteTxRequest
      asked = record { reservation_id = id; tx_bytes = tx_text tx; user_sig = sig_text sig }
