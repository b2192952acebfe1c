-- ===== src/Metrics/Requests/Same.antt =====
-- Counting changes no answer and nothing of the pool.
use sui_gas_pool.Prelude.{
  ℕ, ◌==◌, ◌≡◌, refl, ap, List, Result, ok, err, Bool-cases, Option-cases, Result-cases, inl, inr,
}
use sui_gas_pool.Text.{Text}
use sui_gas_pool.Types.{SuiAddress, ObjectRef, ReservationId}
use sui_gas_pool.Sui.{TransactionData, Response}
use sui_gas_pool.SuiClient.{FullNode}
use sui_gas_pool.GasPool.Core.{Parts, GasPool}
use sui_gas_pool.Rpc.{
  Texts, ReserveGasRequest, ExecuteTxRequest, check_validity, convert_tx_and_sig,
  handle_reserve_gas, handle_execute_tx, reserve_reply, reserve_checked, execute_reply,
  execute_converted,
}
use sui_gas_pool.Rpc.Routes.{
  Request, get_health, get_version, post_debug_health_check, post_reserve_gas, post_execute_tx,
  reserve_body, execute_body, Surroundings, serve,
}
use sui_gas_pool.Metrics.{GasPoolRpcMetrics}
use sui_gas_pool.Metrics.Requests.{
  Metered, metered_reserve_reply, metered_reserve_checked, metered_reserve_gas,
  metered_execute_reply, metered_execute_converted, metered_execute_tx, metered_serve,
}

module _ {S : Type 0} (parts : Parts S) (texts : Texts) (secret : ℕ) where
  -- An answer and a pool, without the counters.
  abbrev plain : {A : Type 0} → A × Metered parts texts secret → A × GasPool parts
  plain (reply, s) = (reply, s.0)

  reserve_reply-plain :
      (x : Result (SuiAddress × ReservationId × List ObjectRef) × GasPool parts)
      (m : GasPoolRpcMetrics)
      → plain (metered_reserve_reply parts texts secret x m) ≡ reserve_reply parts texts secret x
  unfolding metered_reserve_reply reserve_reply
  reserve_reply-plain (ok (sponsor, id, coins), p) m = refl
  reserve_reply-plain (err e, p) m = refl

  execute_reply-plain :
      (x : Result Response × GasPool parts) (m : GasPoolRpcMetrics)
      → plain (metered_execute_reply parts texts secret x m) ≡ execute_reply parts texts secret x
  unfolding metered_execute_reply execute_reply
  execute_reply-plain (err e, p) m = refl
  execute_reply-plain (ok response, p) m = elim (Option-cases response.effects) [
    | inl missing ↦ rw (missing, metered_execute_reply, execute_reply) refl
    | inr (effects, e) ↦ rw (e, metered_execute_reply, execute_reply) refl
  ]

  reserve_gas-plain :
      (today now token : ℕ) (r : ReserveGasRequest) (p : GasPool parts) (m : GasPoolRpcMetrics)
      → plain (metered_reserve_gas parts texts secret today now token r (p, m))
        ≡ handle_reserve_gas parts texts secret today now token r p
  unfolding metered_reserve_gas metered_reserve_checked handle_reserve_gas reserve_checked
  reserve_gas-plain today now token r p m = elim (Bool-cases (token == secret)) [
    | inr other ↦ rw other refl
    | inl same ↦ elim (Result-cases (check_validity r)) [
      | inl (u, valid) ↦
          rw (same, valid, metered_reserve_checked, reserve_checked) (reserve_reply-plain _ _)
      | inr (e, invalid) ↦ rw (same, invalid, metered_reserve_checked, reserve_checked) refl
    ]
  ]

  execute_tx-plain :
      (tx_of : Text → Result TransactionData) (sig_of : Text → Result ℕ) (before after : FullNode)
      (today token : ℕ) (r : ExecuteTxRequest) (p : GasPool parts) (m : GasPoolRpcMetrics)
      → plain (metered_execute_tx parts texts secret tx_of sig_of before after today token r (p, m))
        ≡ handle_execute_tx parts texts secret tx_of sig_of before after today token r p
  unfolding metered_execute_tx metered_execute_converted handle_execute_tx execute_converted
  execute_tx-plain tx_of sig_of before after today token r p m =
      elim (Bool-cases (token == secret)) [
        | inr other ↦ rw other refl
        | inl same ↦ elim (Result-cases (convert_tx_and_sig parts texts secret tx_of sig_of r)) [
          | inl ((tx, sig), e) ↦
              rw (same, e, metered_execute_converted, execute_converted) (execute_reply-plain _ _)
          | inr (x, e) ↦ rw (same, e, metered_execute_converted, execute_converted) refl
        ]
      ]

  module _ (version : Text) where
    -- A handler with its counters gives the answer of the one without, and leaves the same pool.
    pub metered_serve-serve :
        (w : Surroundings) (r : Request) (p : GasPool parts) (m : GasPoolRpcMetrics)
        → plain (metered_serve parts texts secret version w r (p, m))
          ≡ serve parts texts secret version w r p
    unfolding metered_serve serve
    metered_serve-serve w (post_reserve_gas token r) p m =
        ap (λ x. (reserve_body x.0, x.1)) (reserve_gas-plain w.today w.now token r p m)
    metered_serve-serve w (post_execute_tx token r) p m =
        ap (λ x. (execute_body x.0, x.1))
          (execute_tx-plain w.tx_of w.sig_of w.before w.after w.today token r p m)
    metered_serve-serve w get_health p m = refl
    metered_serve-serve w get_version p m = refl
    metered_serve-serve w (post_debug_health_check token) p m = refl
