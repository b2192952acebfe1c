-- ===== src/Rpc/Meaning.antt =====
-- Which requests are let through, and what the client reads of an answer.
use sui_gas_pool.Prelude.{
  ℕ, ◌*◌, ◌<◌, ◌≤◌, ◌≡◌, ◌↔◌, refl, ◌==◌, Bool-cases, Result-cases, inl, inr, Result, ok, err,
  arith, List, true,
}
use sui_gas_pool.Text.{Text}
use sui_gas_pool.Types.{SuiAddress, ObjectRef, ReservationId}
use sui_gas_pool.GasPool.Core.{Parts, GasPool, reserve_gas}
use sui_gas_pool.Rpc.{
  ReserveGasRequest, check_validity, Texts, Answer, value, failure, handle_reserve_gas,
  read_reserve_gas, reserve_reply, reserve_checked, reserve_new_err, reserve_new_ok,
}

-- A budget of at most two SUI, for at most ten minutes, and neither is zero.
abbrev pub IsValidRequest : ReserveGasRequest → Type 0
IsValidRequest r =
    (0 < r.gas_budget)
    × (r.gas_budget ≤ 2_000_000_000)
    × (0 < r.reserve_duration_secs)
    × (r.reserve_duration_secs ≤ 600)

-- A request passes the check exactly when its budget is positive and at most 2000000000 and its
-- duration is positive and at most 600 seconds.
pub check_validity_iff : (r : ReserveGasRequest) → (check_validity r ≡ ok tt) ↔ IsValidRequest r
unfolding check_validity
check_validity_iff r = ((λ h. ground arith), (λ h. ground arith))

-- The answer that a client should read of the pool's result.
abbrev pub answer_of : {A : Type 0} → Texts → Result A → Answer A
answer_of texts (ok a) = value a
answer_of texts (err e) = failure (texts.to_string e)

module _ {S : Type 0} (parts : Parts S) (texts : Texts) (secret : ℕ) where
  reserve_reply-read :
      (r : Result (SuiAddress × ReservationId × List ObjectRef) × GasPool parts)
      → let (reply, p) = reserve_reply parts texts secret r in
        (read_reserve_gas texts reply.1 ≡ answer_of texts r.0) × (p ≡ r.1)
  unfolding reserve_reply read_reserve_gas reserve_new_ok reserve_new_err
  reserve_reply-read (ok (sponsor, id, coins), p) = (refl, refl)
  reserve_reply-read (err e, p) = (refl, refl)

  -- With the right token and a valid request, the client reads the pool's own result, or the text of
  -- its error, and the pool is changed as by the call of `reserve_gas` with the duration in milliseconds.
  pub handle_reserve_gas-read :
      (today now : ℕ) (r : ReserveGasRequest) (p : GasPool parts)
      → IsValidRequest r
      → let (reply, p') = handle_reserve_gas parts texts secret today now secret r p in
        let called = reserve_gas parts today now r.gas_budget (r.reserve_duration_secs * 1000) p in
        (read_reserve_gas texts reply.1 ≡ answer_of texts called.0) × (p' ≡ called.1)
  unfolding handle_reserve_gas reserve_checked
  handle_reserve_gas-read today now r p valid =
      rw (same, (check_validity_iff r).1 valid, reserve_checked)
        (reserve_reply-read
          (reserve_gas parts today now r.gas_budget (r.reserve_duration_secs * 1000) p))
    where
      same : (secret == secret) ≡ true
      same = ground arith

  -- With another token, or with a request that is not valid, the client reads a failure and the pool
  -- is not changed.
  pub handle_reserve_gas-rejects :
      (today now token : ℕ) (r : ReserveGasRequest) (p : GasPool parts)
      → ¬ ((token ≡ secret) × IsValidRequest r)
      → let (reply, p') = handle_reserve_gas parts texts secret today now token r p in
        (p' ≡ p) × (e : Text) × (read_reserve_gas texts reply.1 ≡ failure e)
  unfolding handle_reserve_gas reserve_checked read_reserve_gas reserve_new_err
  handle_reserve_gas-rejects today now token r p bad = elim (Bool-cases (token == secret)) [
    | inr other ↦ rw other (refl, texts.invalid_token, refl)
    | inl same ↦ elim (Result-cases (check_validity r)) [
      | inl (u, valid) ↦ absurd (bad (equal same, (check_validity_iff r).0 valid))
      | inr (e, invalid) ↦ rw (same, invalid, reserve_checked) (refl, texts.to_string e, refl)
    ]
  ]
    where
      equal : (token == secret) ≡ true → token ≡ secret
      equal same = ground arith
