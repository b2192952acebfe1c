-- ===== src/Metrics/Requests/Exact.antt =====
-- What the counters come to, against the answers of a session.
use sui_gas_pool.Prelude.{
  ℕ, ◌+◌, ◌*◌, ◌%◌, ◌^◌, Error, is_panic, ◌==◌, ◌≡◌, true, List, [], ◌∷◌, Result, ok, err, ◌∙◌,
  Bool-cases, Option-cases, Result-cases, inl, inr, arith,
}
use sui_gas_pool.Text.{Text}
use sui_gas_pool.Types.{SuiAddress, ObjectRef, ReservationId}
use sui_gas_pool.Sui.{TransactionData, Response}
use sui_gas_pool.SuiClient.{FullNode}
use sui_gas_pool.GasPool.Core.{Parts, GasPool, reserve_gas, execute_transaction'}
use sui_gas_pool.Rpc.{
  Texts, ReserveGasRequest, ExecuteTxRequest, check_validity, convert_tx_and_sig, reserve_new_ok,
  reserve_new_err, execute_new_ok, execute_new_err,
}
use sui_gas_pool.Rpc.Health.{is_success, health, same_text}
use sui_gas_pool.Rpc.Routes.{
  Request, get_health, get_version, post_debug_health_check, post_reserve_gas, post_execute_tx,
  Reply, reserve_body, execute_body, Surroundings, serve,
}
use sui_gas_pool.Metrics.{GasPoolRpcMetrics}
use sui_gas_pool.Metrics.Requests.Tally.{InRange, IsExact}
use sui_gas_pool.Metrics.Requests.{
  metered_reserve_reply, metered_reserve_checked, metered_reserve_gas, metered_execute_reply,
  metered_execute_converted, metered_execute_tx, metered_serve, metered_all,
}

module _ {S : Type 0} (parts : Parts S) (texts : Texts) (secret : ℕ)
    (distinct : (e : Error)
      → same_text (texts.to_string e) (texts.to_string Error.panic) ≡ is_panic e) where
  abbrev One : Request → Reply → GasPoolRpcMetrics → GasPoolRpcMetrics → Type 0
  One r reply m m' = IsExact secret (texts.to_string Error.panic) ((r, reply) ∷ []) m m'

  -- The end of a handler, once its request has been counted.
  reserve_reply-IsExact :
      (token : ℕ) (r : ReserveGasRequest)
      (x : Result (SuiAddress × ReservationId × List ObjectRef) × GasPool parts)
      (m : GasPoolRpcMetrics) (budgets durations : List ℕ)
      → InRange m
      → (token == secret) ≡ true
      → let (reply, s) = metered_reserve_reply parts texts secret x (record m {
        num_reserve_gas_requests = (m.num_reserve_gas_requests + 1) % 2 ^ 64;
        num_authorized_reserve_gas_requests = (m.num_authorized_reserve_gas_requests + 1) % 2 ^ 64;
        target_gas_budget_per_request = budgets;
        reserve_duration_per_request = durations;
      }) in
        One (post_reserve_gas token r) (reserve_body reply) m s.1
  unfolding metered_reserve_reply is_success reserve_new_ok reserve_new_err
  reserve_reply-IsExact token r (ok (sponsor, id, coins), p) m budgets durations range same =
      ground (arith, range)
  reserve_reply-IsExact token r (err e, p) m budgets durations range same =
      elim (Bool-cases (is_panic e)) [
        | inl panics ↦ rw panics (ground (arith, range, distinct e ∙ panics))
        | inr fails ↦ rw fails (ground (arith, range, distinct e ∙ fails))
      ]

  reserve_gas-IsExact :
      (today now token : ℕ) (r : ReserveGasRequest) (p : GasPool parts) (m : GasPoolRpcMetrics)
      → InRange m
      → let (reply, s) = metered_reserve_gas parts texts secret today now token r (p, m) in
        One (post_reserve_gas token r) (reserve_body reply) m s.1
  unfolding metered_reserve_gas metered_reserve_checked is_success
  reserve_gas-IsExact today now token r p m range = elim (Bool-cases (token == secret)) [
    | inr other ↦ rw other (ground (arith, range, other))
    | inl same ↦ elim (Result-cases (check_validity r)) [
      | inl (u, valid) ↦
          rw (same, valid, metered_reserve_checked)
            (reserve_reply-IsExact token r
              (reserve_gas parts today now r.gas_budget (r.reserve_duration_secs * 1000) p) m _ _
              range same)
      | inr (e, invalid) ↦ rw (same, invalid, metered_reserve_checked) (ground (arith, range, same))
    ]
  ]

  execute_reply-IsExact :
      (token : ℕ) (r : ExecuteTxRequest) (x : Result Response × GasPool parts)
      (m : GasPoolRpcMetrics)
      → InRange m
      → (token == secret) ≡ true
      → let (reply, s) = metered_execute_reply parts texts secret x (record m {
        num_execute_tx_requests = (m.num_execute_tx_requests + 1) % 2 ^ 64;
        num_authorized_execute_tx_requests = (m.num_authorized_execute_tx_requests + 1) % 2 ^ 64;
      }) in
        One (post_execute_tx token r) (execute_body reply) m s.1
  unfolding metered_execute_reply is_success execute_new_ok execute_new_err
  execute_reply-IsExact token r (ok response, p) m range same =
      elim (Option-cases response.effects) [
        | inl missing ↦
            rw (missing, metered_execute_reply) (ground (arith, range, distinct Error.panic))
        | inr (effects, e) ↦ rw (e, metered_execute_reply) (ground (arith, range))
      ]
  execute_reply-IsExact token r (err e, p) m range same = elim (Bool-cases (is_panic e)) [
    | inl panics ↦ rw panics (ground (arith, range, distinct e ∙ panics))
    | inr fails ↦ rw fails (ground (arith, range, distinct e ∙ fails))
  ]

  execute_tx-IsExact :
      (tx_of : Text → Result TransactionData) (sig_of : Text → Result ℕ) (before after : FullNode)
      (today token : ℕ) (r : ExecuteTxRequest) (p : GasPool parts) (m : GasPoolRpcMetrics)
      → InRange m
      → let (reply, s) =
          metered_execute_tx parts texts secret tx_of sig_of before after today token r (p, m) in
        One (post_execute_tx token r) (execute_body reply) m s.1
  unfolding metered_execute_tx metered_execute_converted is_success
  execute_tx-IsExact tx_of sig_of before after today token r p m range =
      elim (Bool-cases (token == secret)) [
        | inr other ↦ rw other (ground (arith, range, other))
        | inl same ↦ elim (Result-cases (convert_tx_and_sig parts texts secret tx_of sig_of r)) [
          | inl ((tx, sig), e) ↦
              rw (same, e, metered_execute_converted)
                (execute_reply-IsExact token r
                  (execute_transaction' parts before after today r.reservation_id tx sig p) m range
                  same)
          | inr (x, e) ↦ rw (same, e, metered_execute_converted) (ground (arith, range, same))
        ]
      ]

  module _ (version : Text) where
    serve-IsExact :
        (w : Surroundings) (r : Request) (p : GasPool parts) (m : GasPoolRpcMetrics)
        → InRange m
        → let (reply, s) = metered_serve parts texts secret version w r (p, m) in One r reply m s.1
    unfolding metered_serve serve health
    serve-IsExact w (post_reserve_gas token r) p m range =
        reserve_gas-IsExact w.today w.now token r p m range
    serve-IsExact w (post_execute_tx token r) p m range =
        execute_tx-IsExact w.tx_of w.sig_of w.before w.after w.today token r p m range
    serve-IsExact w get_health p m range = ground (arith, range)
    serve-IsExact w get_version p m range = ground (arith, range)
    serve-IsExact w (post_debug_health_check token) p m range = ground (arith, range)

    ranged :
        (es : List (Request × Reply)) (m m' : GasPoolRpcMetrics)
        → IsExact secret (texts.to_string Error.panic) es m m'
        → InRange m'
    ranged es m m' a = record {
      reserve_asked_fits = omega (arith, a.reserve_asked);
      reserve_authorized_fits = omega (arith, a.reserve_authorized);
      reserve_successful_fits = omega (arith, a.reserve_successful);
      reserve_failed_fits = omega (arith, a.reserve_failed);
      execute_asked_fits = omega (arith, a.execute_asked);
      execute_authorized_fits = omega (arith, a.execute_authorized);
      execute_successful_fits = omega (arith, a.execute_successful);
      execute_failed_fits = omega (arith, a.execute_failed);
    }

    IsExact-cons :
        (r : Request) (reply : Reply) (es : List (Request × Reply)) (m m' m'' : GasPoolRpcMetrics)
        → One r reply m m'
        → IsExact secret (texts.to_string Error.panic) es m' m''
        → IsExact secret (texts.to_string Error.panic) ((r, reply) ∷ es) m m''
    IsExact-cons r reply es m m' m'' a b = record {
      reserve_asked = omega (arith, a.reserve_asked, b.reserve_asked);
      reserve_authorized = omega (arith, a.reserve_authorized, b.reserve_authorized);
      reserve_successful = omega (arith, a.reserve_successful, b.reserve_successful);
      reserve_failed = omega (arith, a.reserve_failed, b.reserve_failed);
      execute_asked = omega (arith, a.execute_asked, b.execute_asked);
      execute_authorized = omega (arith, a.execute_authorized, b.execute_authorized);
      execute_successful = omega (arith, a.execute_successful, b.execute_successful);
      execute_failed = omega (arith, a.execute_failed, b.execute_failed);
    }

    -- Over any session, from any state of the counters, which are words of 64 bits and wrap around,
    -- the requests for gas and for an execution are counted exactly, so are those of them that have
    -- the secret, the answers with a success, and the answers with the status 500 whose error is no
    -- panic, if the text of a panic is that of no other error.
    pub metered_all-IsExact :
        (rs : List (Surroundings × Request)) (p : GasPool parts) (m : GasPoolRpcMetrics)
        → InRange m
        → let (es, s) = metered_all parts texts secret version rs (p, m) in
          IsExact secret (texts.to_string Error.panic) es m s.1
    unfolding metered_all
    metered_all-IsExact [] p m range = ground (arith, range)
    metered_all-IsExact ((w, r) ∷ rs) p m range =
        let one = serve-IsExact w r p m range in
        IsExact-cons r _ _ m _ _ one (
          metered_all-IsExact rs (metered_serve parts texts secret version w r (p, m)).1.0
            (metered_serve parts texts secret version w r (p, m)).1.1 (ranged _ m _ one))
