-- ===== src/Rpc/Execution.antt =====
-- What the client reads of the execution of a transaction.
use sui_gas_pool.Prelude.{
  ℕ, ◌≡◌, refl, ◌==◌, Option, none, some, Option-cases, Bool-cases, Result-cases, inl, inr, Result,
  ok, err, Error, and_then, arith, true,
}
use sui_gas_pool.Text.{Text}
use sui_gas_pool.Sui.{TransactionData, Effects, Response}
use sui_gas_pool.SuiClient.{FullNode}
use sui_gas_pool.GasPool.Core.{Parts, GasPool, execute_transaction'}
use sui_gas_pool.Rpc.{
  ExecuteTxRequest, Texts, failure, convert_tx_and_sig, handle_execute_tx, execute_converted,
  execute_reply, execute_new_ok, execute_new_err, read_execute_tx,
}
use sui_gas_pool.Rpc.Meaning.{answer_of}

-- The effects of a response; the handler panics if there are none.
abbrev pub effects_or_panic : Option Effects → Result Effects
effects_or_panic none = err Error.panic
effects_or_panic (some e) = ok e

module _ {S : Type 0} (parts : Parts S) (texts : Texts) (secret : ℕ) where
  execute_reply-read :
      (r : Result Response × GasPool parts)
      → let (reply, p) = execute_reply parts texts secret r in
        (read_execute_tx texts reply.1
          ≡ answer_of texts (and_then r.0 (λ response. effects_or_panic response.effects)))
        × (p ≡ r.1)
  unfolding execute_reply read_execute_tx execute_new_ok execute_new_err
  execute_reply-read (err e, p) = (refl, refl)
  execute_reply-read (ok response, p) = elim (Option-cases response.effects) [
    | inl missing ↦ rw (missing, execute_reply) (refl, refl)
    | inr (effects, e) ↦ rw (e, execute_reply) (refl, refl)
  ]

  module _ (tx_of : Text → Result TransactionData) (sig_of : Text → Result ℕ) where
    -- With the right token and texts that are decoded, the client reads the effects of the pool's
    -- response, or the text of its error, and the pool is changed as by the call of
    -- `execute_transaction`.
    pub handle_execute_tx-read :
        (before after : FullNode) (today : ℕ) (r : ExecuteTxRequest) (tx : TransactionData)
        (sig : ℕ) (p : GasPool parts)
        → tx_of r.tx_bytes ≡ ok tx
        → sig_of r.user_sig ≡ ok sig
        → let (reply, p') =
            handle_execute_tx parts texts secret tx_of sig_of before after today secret r p in
          let called = execute_transaction' parts before after today r.reservation_id tx sig p in
          (read_execute_tx texts reply.1
            ≡ answer_of texts (and_then called.0 (λ response. effects_or_panic response.effects)))
          × (p' ≡ called.1)
    unfolding handle_execute_tx execute_converted convert_tx_and_sig
    handle_execute_tx-read before after today r tx sig p e e' =
        rw (same, e, and_then, e', execute_converted)
          (execute_reply-read
            (execute_transaction' parts before after today r.reservation_id tx sig p))
      where
        same : (secret == secret) ≡ true
        same = ground arith

    -- With another token, or with a text that is not decoded, the client reads a failure and the pool
    -- is not changed.
    pub handle_execute_tx-rejects :
        (before after : FullNode) (today token : ℕ) (r : ExecuteTxRequest) (p : GasPool parts)
        → ¬ (
            (token ≡ secret)
            × (tx : TransactionData) × (sig : ℕ) × (convert_tx_and_sig parts texts secret tx_of
                  sig_of r
                ≡ ok (tx, sig)))
        → let (reply, p') =
            handle_execute_tx parts texts secret tx_of sig_of before after today token r p in
          (p' ≡ p) × (e : Text) × (read_execute_tx texts reply.1 ≡ failure e)
    unfolding handle_execute_tx execute_converted read_execute_tx execute_new_err
    handle_execute_tx-rejects before after today token r p bad =
        elim (Bool-cases (token == secret)) [
          | inr other ↦ rw other (refl, texts.invalid_token, refl)
          | inl same ↦ elim (Result-cases (convert_tx_and_sig parts texts secret tx_of sig_of r)) [
            | inl ((tx, sig), e) ↦ absurd (bad (equal same, tx, sig, e))
            | inr (x, e) ↦ rw (same, e, execute_converted) (refl, texts.invalid_bytes, refl)
          ]
        ]
      where
        equal : (token == secret) ≡ true → token ≡ secret
        equal same = ground arith
