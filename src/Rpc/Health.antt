-- ===== src/Rpc/Health.antt =====
-- The health checks: `health` and `debug_health_check` of src/rpc/server.rs, and the calls of the same
-- names in src/rpc/client.rs.
use sui_gas_pool.Prelude.{
  ℕ, ◌≡◌, ◌↔◌, refl, Bool, true, false, ◌&&◌, ◌==◌, Bool-cases, inl, inr, List, [], ◌∷◌, ◌++◌,
  Result, ok, err, Error, if◌then◌else◌, arith,
}
use sui_gas_pool.Text.{Text}
use sui_gas_pool.Types.{ObjectRef}
use sui_gas_pool.Sui.{TransactionData}
use sui_gas_pool.GasPool.Core.{Parts, GasPool, debug_check_health}
use sui_gas_pool.Rpc.{
  StatusCode, ok_200, unauthorized_401, bad_request_400, internal_server_error_500, Answer, value,
  failure,
}

-- OK
abbrev pub ok_text : Text
ok_text = b'O' ∷ b'K' ∷ []

-- Unauthorized
abbrev pub unauthorized_text : Text
unauthorized_text =
    b'U' ∷ b'n' ∷ b'a' ∷ b'u' ∷ b't' ∷ b'h' ∷ b'o' ∷ b'r' ∷ b'i' ∷ b'z' ∷ b'e' ∷ b'd' ∷ []

-- Failed to check health:
abbrev pub failed_prefix : Text
failed_prefix =
    b'F' ∷ b'a' ∷ b'i' ∷ b'l' ∷ b'e' ∷ b'd' ∷ b' ' ∷ b't' ∷ b'o' ∷ b' ' ∷ b'c' ∷ b'h' ∷ b'e' ∷ b'c'
    ∷ b'k' ∷ b' ' ∷ b'h' ∷ b'e' ∷ b'a' ∷ b'l' ∷ b't' ∷ b'h' ∷ b':' ∷ b' ' ∷ []

unfoldable pub same_text : Text → Text → Bool
same_text [] [] = true
same_text [] (d ∷ t) = false
same_text (c ∷ s) [] = false
same_text (c ∷ s) (d ∷ t) = (c == d) && same_text s t

unfoldable pub is_success : StatusCode → Bool
is_success ok_200 = true
is_success unauthorized_401 = false
is_success bad_request_400 = false
is_success internal_server_error_500 = false

-- The client's `health` and `debug_health_check` read the answer in the same way. `shown` is the text
-- of an answer whose status is no success.
unfoldable pub read_health : (StatusCode → Text → Text) → StatusCode × Text → Answer (Unit {0})
unfolding same_text is_success
read_health shown (status, text) =
    if is_success status
    then (if same_text text ok_text then value tt else failure text)
    else failure (shown status text)

unfoldable pub health : StatusCode × Text
health = (ok_200, ok_text)

module _ {S : Type 0} (parts : Parts S) (debug : Error → Text) (secret : ℕ) where
  health_reply : Result (Unit {0}) × GasPool parts → (StatusCode × Text) × GasPool parts
  health_reply (ok u, p) = ((ok_200, ok_text), p)
  health_reply (err e, p) = ((ok_200, failed_prefix ++ debug e), p)

  -- Every answer has the status 200.
  unfoldable pub handle_debug_health_check :
      (List ObjectRef → ℕ → TransactionData)
      → ℕ
      → ℕ
      → ℕ
      → GasPool parts
      → (StatusCode × Text) × GasPool parts
  unfolding health_reply
  handle_debug_health_check health_tx today now token p =
      if token == secret
      then health_reply (debug_check_health parts health_tx today now p)
      else ((ok_200, unauthorized_text), p)

  health_reply-read :
      (shown : StatusCode → Text → Text) (r : Result (Unit {0}) × GasPool parts)
      → ((read_health shown (health_reply r).0 ≡ value tt) ↔ (r.0 ≡ ok tt))
        × ((health_reply r).1 ≡ r.1)
  unfolding health_reply read_health
  health_reply-read shown (ok u, p) = (((λ h. refl), (λ h. refl)), refl)
  health_reply-read shown (err e, p) = (((λ h. cc), (λ h. cc)), refl)

  -- The client's check succeeds exactly when its token is the secret and the pool could reserve a
  -- coin and sign with it; with the secret the pool is changed as by that check, without it it is
  -- not changed.
  pub handle_debug_health_check-read :
      (shown : StatusCode → Text → Text) (health_tx : List ObjectRef → ℕ → TransactionData)
      (today now token : ℕ) (p : GasPool parts)
      → let (reply, p') = handle_debug_health_check health_tx today now token p in
        let called = debug_check_health parts health_tx today now p in
        ((read_health shown reply ≡ value tt) ↔ ((token ≡ secret) × (called.0 ≡ ok tt)))
        × (p' ≡ (if token == secret then called.1 else p))
  unfolding handle_debug_health_check read_health
  handle_debug_health_check-read shown health_tx today now token p =
      elim (Bool-cases (token == secret)) [
        | inl same ↦
            let reads = health_reply-read shown (debug_check_health parts health_tx today now p) in
            rw same (((λ h. (equal same, reads.0.0 h)), (λ h. reads.0.1 h.1)), reads.1)
        | inr other ↦ rw other (((λ h. cc), (λ h. absurd (different other h.0))), refl)
      ]
    where
      equal : (token == secret) ≡ true → token ≡ secret
      equal same = ground arith

      different : (token == secret) ≡ false → ¬ (token ≡ secret)
      different other e = ground arith
