-- ===== src/Metrics/Requests.antt =====
-- What the handlers of src/rpc/server.rs count. Each handler is that of `Rpc`, with the increments of
-- its counters where the code has them; a counter is a word of 64 bits. A spawned task that panics ends
-- without an increment.
pub mod Tally
pub mod Exact
pub mod Same
use sui_gas_pool.Prelude.{
  ℕ, ◌+◌, ◌*◌, ◌%◌, ◌^◌, ◌==◌, if◌then◌else◌, Bool, true, false, Option, none, some, List, [], ◌∷◌,
  ◌++◌, Result, ok, err, Error, is_panic,
}
use sui_gas_pool.Text.{Text}
use sui_gas_pool.Types.{SuiAddress, ObjectRef, ReservationId}
use sui_gas_pool.Sui.{TransactionData, Response}
use sui_gas_pool.SuiClient.{FullNode}
use sui_gas_pool.GasPool.Core.{Parts, GasPool, reserve_gas, execute_transaction'}
use sui_gas_pool.Rpc.{
  ok_200, unauthorized_401, bad_request_400, internal_server_error_500, Texts, ReserveGasRequest,
  ExecuteTxRequest, ReserveReply, ExecuteReply, check_validity, convert_tx_and_sig, reserve_new_ok,
  reserve_new_err, execute_new_ok, execute_new_err,
}
use sui_gas_pool.Rpc.Routes.{
  Request, get_health, get_version, post_debug_health_check, post_reserve_gas, post_execute_tx,
  Reply, reserve_body, execute_body, Surroundings, serve,
}
use sui_gas_pool.Metrics.{GasPoolRpcMetrics}

module _ {S : Type 0} (parts : Parts S) (texts : Texts) (secret : ℕ) where
  open texts use {to_string, invalid_token, invalid_bytes}

  -- The pool and the counters.
  abbrev pub Metered : Type 0
  Metered = GasPool parts × GasPoolRpcMetrics

  -- `reserve_gas_impl`
  metered_reserve_reply :
      Result (SuiAddress × ReservationId × List ObjectRef) × GasPool parts
      → GasPoolRpcMetrics
      → ReserveReply × Metered
  metered_reserve_reply (ok (sponsor, id, coins), p) m = (
    (ok_200, reserve_new_ok sponsor id coins),
    (
      p,
      record m {
        num_successful_reserve_gas_requests = (m.num_successful_reserve_gas_requests + 1) % 2 ^ 64;
      },
    ),
  )
  metered_reserve_reply (err e, p) m = (
    (internal_server_error_500, reserve_new_err (to_string e)),
    (
      p,
      if is_panic e then m else record m {
        num_failed_reserve_gas_requests = (m.num_failed_reserve_gas_requests + 1) % 2 ^ 64;
      },
    ),
  )

  -- What follows the counting of an authorized request.
  metered_reserve_checked :
      ℕ → ℕ → ReserveGasRequest → Result (Unit {0}) → Metered → ReserveReply × Metered
  unfolding metered_reserve_reply
  metered_reserve_checked today now r (err e) s =
      ((bad_request_400, reserve_new_err (to_string e)), s)
  metered_reserve_checked today now r (ok u) (p, m) =
      metered_reserve_reply
        (reserve_gas parts today now r.gas_budget (r.reserve_duration_secs * 1000) p)
        (record m {
          target_gas_budget_per_request = m.target_gas_budget_per_request ++ r.gas_budget ∷ [];
          reserve_duration_per_request =
              m.reserve_duration_per_request ++ r.reserve_duration_secs ∷ [];
        })

  unfoldable pub metered_reserve_gas :
      ℕ → ℕ → ℕ → ReserveGasRequest → Metered → ReserveReply × Metered
  unfolding metered_reserve_checked
  metered_reserve_gas today now token r (p, m) =
      let counted : GasPoolRpcMetrics = record m {
        num_reserve_gas_requests = (m.num_reserve_gas_requests + 1) % 2 ^ 64;
      } in
      if token == secret
      then metered_reserve_checked today now r (check_validity r) (
        p,
        record counted {
          num_authorized_reserve_gas_requests =
              (m.num_authorized_reserve_gas_requests + 1) % 2 ^ 64;
        },
      )
      else ((unauthorized_401, reserve_new_err invalid_token), (p, counted))

  -- `execute_tx_impl`
  metered_execute_reply :
      Result Response × GasPool parts → GasPoolRpcMetrics → ExecuteReply × Metered
  metered_execute_reply (err e, p) m = (
    (internal_server_error_500, execute_new_err (to_string e)),
    (
      p,
      if is_panic e then m else record m {
        num_failed_execute_tx_requests = (m.num_failed_execute_tx_requests + 1) % 2 ^ 64;
      },
    ),
  )
  metered_execute_reply (ok response, p) m = elim response.effects [
    | none ↦ ((internal_server_error_500, execute_new_err (to_string Error.panic)), (p, m))
    | some effects ↦ (
      (ok_200, execute_new_ok effects response.events),
      (
        p,
        record m {
          num_successful_execute_tx_requests = (m.num_successful_execute_tx_requests + 1) % 2 ^ 64;
        },
      ),
    )
  ]

  metered_execute_converted :
      FullNode
      → FullNode
      → ℕ
      → ReservationId
      → Result (TransactionData × ℕ)
      → Metered
      → ExecuteReply × Metered
  unfolding metered_execute_reply
  metered_execute_converted before after today id (err e) s =
      ((bad_request_400, execute_new_err invalid_bytes), s)
  metered_execute_converted before after today id (ok (tx, sig)) (p, m) =
      metered_execute_reply (execute_transaction' parts before after today id tx sig p) m

  unfoldable pub metered_execute_tx :
      (Text → Result TransactionData)
      → (Text → Result ℕ)
      → FullNode
      → FullNode
      → ℕ
      → ℕ
      → ExecuteTxRequest
      → Metered
      → ExecuteReply × Metered
  unfolding metered_execute_converted
  metered_execute_tx tx_of sig_of before after today token r (p, m) =
      let counted : GasPoolRpcMetrics = record m {
        num_execute_tx_requests = (m.num_execute_tx_requests + 1) % 2 ^ 64;
      } in
      if token == secret
      then metered_execute_converted before after today r.reservation_id
          (convert_tx_and_sig parts texts secret tx_of sig_of r)
          (
            p,
            record counted {
              num_authorized_execute_tx_requests =
                  (m.num_authorized_execute_tx_requests + 1) % 2 ^ 64;
            },
          )
      else ((unauthorized_401, execute_new_err invalid_token), (p, counted))

  module _ (version : Text) where
    -- The two health checks and the version count nothing.
    unfoldable pub metered_serve : Surroundings → Request → Metered → Reply × Metered
    metered_serve w (post_reserve_gas token r) s =
        let (reply, s') = metered_reserve_gas w.today w.now token r s in (reserve_body reply, s')
    metered_serve w (post_execute_tx token r) s =
        let (reply, s') = metered_execute_tx w.tx_of w.sig_of w.before w.after w.today token r s in
        (execute_body reply, s')
    metered_serve w get_health (p, m) =
        let (reply, p') = serve parts texts secret version w get_health p in (reply, (p', m))
    metered_serve w get_version (p, m) =
        let (reply, p') = serve parts texts secret version w get_version p in (reply, (p', m))
    metered_serve w (post_debug_health_check token) (p, m) =
        let (reply, p') = serve parts texts secret version w (post_debug_health_check token) p in
        (reply, (p', m))

    -- A session, with the answers in their order.
    unfoldable pub metered_all :
        List (Surroundings × Request) → Metered → List (Request × Reply) × Metered
    unfolding metered_serve
    metered_all [] s = ([], s)
    metered_all ((w, r) ∷ rs) s =
        let (reply, s') = metered_serve w r s in
        let (rest, s'') = metered_all rs s' in ((r, reply) ∷ rest, s'')
