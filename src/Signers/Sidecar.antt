-- ===== src/Signers/Sidecar.antt =====
-- The sidecar that signs with a key in AWS KMS: the routes of aws_kms_sidecar/index.ts that the signer
-- calls, and `signAndVerify` of aws_kms_sidecar/awsUtils.ts.
use sui_gas_pool.Prelude.{
  ℕ, ◌++◌, List, [], ◌∷◌, Bool, true, false, leb, length, if◌then◌else◌, Option, none, some, Result,
  ok, err, Error, and_then,
}
use sui_gas_pool.Text.{Text}
use sui_gas_pool.Types.{SuiAddress}
use sui_gas_pool.Rpc.Health.{same_text}
use sui_gas_pool.Rpc.Calls.{path_behind}
use sui_gas_pool.Signers.{
  SidecarRequest, get_url, post_tx_bytes, SidecarReply, address_json, signature_json, other_body,
  address_path, sign_path,
}

-- What the sidecar calls of KMS and of the TypeScript SDK. `public_key` is `getPublicKey`, with none for
-- a key of another kind; `digest` is the hash of the intent message, `concatenated` the reading of a
-- DER signature, and `serialized` the serialized signature with the key.
pub record Kms : Type 0 where
  pub public_key : Result (Option ℕ)
  pub to_sui_address : ℕ → SuiAddress
  pub from_base64 : Text → Result (List ℕ)
  pub digest : List ℕ → List ℕ
  pub sign : List ℕ → Result (List ℕ)
  pub concatenated : List ℕ → Result (List ℕ)
  pub serialized : List ℕ → Option ℕ → Result Text
  pub verify_transaction : ℕ → List ℕ → Text → Result Bool
  pub verify : List ℕ → List ℕ → Result Bool

-- /aws-kms
abbrev pub aws_kms_path : Text
aws_kms_path = b'/' ∷ b'a' ∷ b'w' ∷ b's' ∷ b'-' ∷ b'k' ∷ b'm' ∷ b's' ∷ []

-- An error is thrown where the check has failed.
require : Result Bool → Result (Unit {0})
require (ok true) = ok tt
require (ok false) = err Error.remote
require (err e) = err e

unfoldable pub url_of : SidecarRequest → Text
url_of (get_url url) = url
url_of (post_tx_bytes url tx_bytes) = url

module _ (kms : Kms) where
  open kms use {
    public_key, to_sui_address, from_base64, digest, sign, concatenated, serialized,
    verify_transaction, verify,
  }

  -- The handler of get-pubkey-address: without a key of the right kind it throws, and answers 500.
  unfoldable pub address_reply : Result (Option ℕ) → SidecarReply
  address_reply (ok (some key)) = address_json (to_sui_address key)
  address_reply (ok none) = other_body
  address_reply (err e) = other_body

  -- The check with the key, if there is one.
  verify_with : Option ℕ → List ℕ → Text → Result (Unit {0})
  unfolding require
  verify_with none tx_bytes signature = ok tt
  verify_with (some key) tx_bytes signature = require (verify_transaction key tx_bytes signature)

  -- The body of the `try` in `signAndVerify`.
  unfoldable pub kms_signature : List ℕ → Result Text
  unfolding verify_with
  kms_signature tx_bytes = and_then (sign (digest tx_bytes)) (λ signature.
      and_then public_key (λ key.
        and_then (and_then (concatenated signature) (λ c. serialized c key)) (λ text.
          and_then (verify_with key tx_bytes text)
            (λ u. and_then (require (verify (digest tx_bytes) signature)) (λ u. ok text)))))

  -- The `catch` returns nothing.
  unfoldable pub caught : Result Text → Option Text
  caught (ok text) = some text
  caught (err e) = none

  unfoldable pub sign_and_verify : List ℕ → Option Text
  unfolding caught
  sign_and_verify tx_bytes = caught (kms_signature tx_bytes)

  -- What does not decode is answered with 400.
  unfoldable pub decoded_reply : Result (List ℕ) → SidecarReply
  decoded_reply (ok tx_bytes) = signature_json (sign_and_verify tx_bytes)
  decoded_reply (err e) = other_body

  -- The handler of sign-transaction, whose schema has at most 10000 characters.
  unfoldable pub sign_reply : Text → SidecarReply
  unfolding decoded_reply
  sign_reply tx_bytes =
      if leb (length tx_bytes) 10000 then decoded_reply (from_base64 tx_bytes) else other_body

  -- A path that is no route answers 404; the other routes read no transaction and have no address.
  unfoldable pub kms_answer : SidecarRequest → Text → SidecarReply
  unfolding address_reply sign_reply same_text
  kms_answer (get_url url) path =
      if same_text path (aws_kms_path ++ address_path) then address_reply public_key else other_body
  kms_answer (post_tx_bytes url tx_bytes) path =
      if same_text path (aws_kms_path ++ sign_path) then sign_reply tx_bytes else other_body

  -- The sidecar at an address, where `elsewhere` answers for other addresses.
  unfoldable pub sidecar_at :
      Text → (SidecarRequest → Result SidecarReply) → SidecarRequest → Result SidecarReply
  unfolding kms_answer url_of path_behind
  sidecar_at address elsewhere r = elim (path_behind address (url_of r)) [
    | none ↦ elsewhere r
    | some path ↦ ok (kms_answer r path)
  ]
