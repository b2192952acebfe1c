-- ===== src/Signers/Signing.antt =====
-- What a signer with the sidecar signs.
use sui_gas_pool.Prelude.{
  ℕ, ◌+◌, ◌*◌, ◌/◌, ◌≤◌, ◌<◌, ◌≡◌, ◌≢◌, ◌↔◌, refl, List, ◌++◌, true, false, leb, ltb, ltb→lt,
  not_ltb→le, Bool-cases, length, Option, none, some, Result, ok, err, Error, and_then, arith, inl,
  inr, Result-cases,
}
use mathlib.Core.List.{append_assoc}
use sui_gas_pool.Text.{Text}
use sui_gas_pool.Types.{SuiAddress}
use sui_gas_pool.Sui.{TransactionData}
use sui_gas_pool.Rpc.Calls.EndToEnd.{path_behind-append}
use sui_gas_pool.Rpc.Health.{same_text}
use sui_gas_pool.Signers.{
  TxSignerConfig, local, test_signer, address_json, SidecarRequest, get_url, post_tx_bytes,
  SidecarReply, signature_json, other_body, Outside, address_path, sign_path, sidecar,
  sidecar_signer, new_signer, new_sidecar, sign_transaction, read_address, read_signature,
}
use sui_gas_pool.Signers.Sidecar.{
  Kms, aws_kms_path, kms_signature, caught, sign_and_verify, sign_reply, decoded_reply,
  address_reply, kms_answer, url_of, sidecar_at,
}

-- Whatever fails while a signer is made is a panic.
pub new_signer_panics :
    (outside : Outside) (config : TxSignerConfig) (e : Error)
    → new_signer outside config ≡ err e
    → e ≡ Error.panic
unfolding new_signer new_sidecar read_address
new_signer_panics outside (local keypair) e h = absurd (no_error h)
  where
    no_error : ok (test_signer (record { keypair = keypair })) ≢ err e
    no_error h = cc
new_signer_panics outside (sidecar url) e h =
    address_panics (outside.send (get_url (url ++ address_path))) h
  where
    address_panics :
        (r : Result SidecarReply)
        → and_then
            (and_then (read_address r) (λ a. ok (record { sidecar_url = url; sui_address = a })))
            (λ s. ok (sidecar_signer s))
          ≡ err e
        → e ≡ Error.panic
    address_panics (ok (address_json a)) h = cc
    address_panics (ok (signature_json s)) h = cc
    address_panics (ok other_body) h = cc
    address_panics (err e') h = cc

-- Base64 with padding: 4 characters for every 3 bytes, and what is encoded is decoded.
pub record IsBase64 (encode : List ℕ → Text) (decode : Text → Result (List ℕ)) : Type 0 where
  pub decode-encode : (bytes : List ℕ) → decode (encode bytes) ≡ ok bytes
  pub length-encode : (bytes : List ℕ) → length (encode bytes) ≡ 4 * ((length bytes + 2) / 3)

module _ (outside : Outside) (kms : Kms) (address : Text)
    (elsewhere : SidecarRequest → Result SidecarReply) where
  -- The signer's HTTP client reaches the sidecar.
  abbrev pub joined : Outside
  joined = record outside { send = sidecar_at kms address elsewhere }

  abbrev pub url : Text
  url = address ++ aws_kms_path

  at_path :
      (r : SidecarRequest) (path : Text)
      → url_of r ≡ url ++ path
      → sidecar_at kms address elsewhere r ≡ ok (kms_answer kms r (aws_kms_path ++ path))
  unfolding sidecar_at
  at_path r path e =
      rw
        (
          e,
          append_assoc address aws_kms_path path,
          path_behind-append address (aws_kms_path ++ path),
          sidecar_at,
        )
        refl

  post_reaches :
      (text : Text)
      → sidecar_at kms address elsewhere (post_tx_bytes (url ++ sign_path) text)
        ≡ ok (sign_reply kms text)
  unfolding kms_answer same_text url_of
  post_reaches text = at_path (post_tx_bytes (url ++ sign_path) text) sign_path refl

  -- A signer with the sidecar starts exactly when the sidecar gets a key of the right kind, and then
  -- has the address of this key; otherwise the start panics.
  pub new_signer_asks :
      ((key : ℕ)
        → kms.public_key ≡ ok (some key)
        → new_signer joined (sidecar url)
          ≡ ok
              (sidecar_signer (record { sidecar_url = url; sui_address = kms.to_sui_address key })))
      × (((key : ℕ) → kms.public_key ≢ ok (some key))
          → new_signer joined (sidecar url) ≡ err Error.panic)
  unfolding new_signer new_sidecar read_address kms_answer address_reply same_text url_of
  new_signer_asks =
      (λ key e. rw (reached, e) refl, λ h. rw (reached, without kms.public_key h) refl)
    where
      reached :
          sidecar_at kms address elsewhere (get_url (url ++ address_path))
          ≡ ok (address_reply kms kms.public_key)
      reached = at_path (get_url (url ++ address_path)) address_path refl

      without :
          (k : Result (Option ℕ))
          → ((key : ℕ) → k ≢ ok (some key))
          → read_address (ok (address_reply kms k)) ≡ err Error.panic
      without (ok (some key)) h = absurd (h key refl)
      without (ok none) h = refl
      without (err e) h = refl

  module _ (laws : IsBase64 outside.encode kms.from_base64) where
    leb_small :
        (bytes : List ℕ) → length bytes ≤ 7500 → leb (length (outside.encode bytes)) 10000 ≡ true
    leb_small bytes h = ground (arith, laws.length-encode bytes)

    leb_large :
        (bytes : List ℕ) → 7500 < length bytes → leb (length (outside.encode bytes)) 10000 ≡ false
    leb_large bytes h = ground (arith, laws.length-encode bytes)

    replied :
        (bytes : List ℕ)
        → length bytes ≤ 7500
        → sign_reply kms (outside.encode bytes) ≡ signature_json (sign_and_verify kms bytes)
    unfolding sign_reply decoded_reply
    replied bytes h = rw (leb_small bytes h, laws.decode-encode bytes) refl

    refused :
        (bytes : List ℕ) → 7500 < length bytes → sign_reply kms (outside.encode bytes) ≡ other_body
    unfolding sign_reply
    refused bytes h = rw (leb_large bytes h) refl

    -- What the signer reads of the answer.
    read_back : List ℕ → Result ℕ
    read_back bytes = read_signature outside.from_str (sign_reply kms (outside.encode bytes))

    read_back_iff :
        (bytes : List ℕ) (sig : ℕ)
        → (read_back bytes ≡ ok sig) ↔ (
            (length bytes ≤ 7500)
            × ((text : Text) × (kms_signature kms bytes ≡ ok text)
                × (outside.from_str text ≡ ok sig)))
    unfolding read_back read_signature sign_and_verify caught
    read_back_iff bytes sig = (
      λ h. elim (Bool-cases (ltb 7500 (length bytes))) [
        | inl long ↦ absurd (no_error (rw (refused bytes (ltb→lt 7500 (length bytes) long)) at h))
        | inr short ↦
            let small = not_ltb→le 7500 (length bytes) short in
            (small, parsed (rw (replied bytes small) at h))
      ],
      λ (small, (text, done, reads)). rw (replied bytes small, done) reads,
    )
      where
        no_error : Result.err Error.remote ≢ ok sig
        no_error e = cc

        parsed :
            read_signature outside.from_str (signature_json (sign_and_verify kms bytes)) ≡ ok sig
            → (text : Text) × (kms_signature kms bytes ≡ ok text) × (outside.from_str text ≡ ok sig)
        parsed h = elim (Result-cases (kms_signature kms bytes)) [
          | inl (text, done) ↦ (text, done, rw done at h)
          | inr (e, failed) ↦ absurd (no_error (rw failed at h))
        ]

    -- A signer with the sidecar signs a transaction exactly when its bytes are at most 7500, KMS signs
    -- and verifies, and the signature of the sidecar can be read; it returns the signature that was read.
    pub sign_transaction_iff :
        (tx_data : TransactionData) (bytes : List ℕ) (a : SuiAddress) (sig : ℕ)
        → outside.to_bytes tx_data ≡ ok bytes
        → (sign_transaction joined
              (sidecar_signer (record { sidecar_url = url; sui_address = a }))
              tx_data
            ≡ ok sig)
          ↔ ((length bytes ≤ 7500)
              × ((text : Text) × (kms_signature kms bytes ≡ ok text)
                  × (outside.from_str text ≡ ok sig)))
    unfolding sign_transaction read_back
    sign_transaction_iff tx_data bytes a sig e =
        rw (e, post_reaches (outside.encode bytes)) (read_back_iff bytes sig)
