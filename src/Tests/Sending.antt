-- ===== src/Tests/Sending.antt =====
-- The signer with the sidecar at concrete values.
use sui_gas_pool.Prelude.{
  ℕ, ◌+◌, ◌*◌, ◌/◌, ◌≡◌, ◌≤◌, ◌↔◌, refl, List, [], ◌∷◌, Result, ok, err, Error, some, true, length,
  and_then, arith, ◌==◌, if◌then◌else◌,
}
use sui_gas_pool.Text.{Text}
use sui_gas_pool.Signers.{Outside, sidecar_signer, sign_transaction}
use sui_gas_pool.Signers.Sidecar.{Kms, kms_signature}
use sui_gas_pool.Signers.Signing.{joined, url, sign_transaction_iff}
use sui_gas_pool.Tests.{tx}

-- Three bytes and their number for every three.
encode : List ℕ → Text
encode [] = []
encode (a ∷ []) = a ∷ 0 ∷ 0 ∷ 1 ∷ []
encode (a ∷ b ∷ []) = a ∷ b ∷ 0 ∷ 2 ∷ []
encode (a ∷ b ∷ c ∷ bytes) = a ∷ b ∷ c ∷ 3 ∷ encode bytes

decode : Text → Result (List ℕ)
decode [] = ok []
decode (a ∷ []) = err Error.remote
decode (a ∷ b ∷ []) = err Error.remote
decode (a ∷ b ∷ c ∷ []) = err Error.remote
decode (a ∷ b ∷ c ∷ d ∷ text) =
    let rest = decode text in
    if d == 1
    then ok (a ∷ [])
    else if d == 2
    then ok (a ∷ b ∷ [])
    else and_then rest (λ bytes. ok (a ∷ b ∷ c ∷ bytes))

decode_encode : (bytes : List ℕ) → decode (encode bytes) ≡ ok bytes
unfolding encode decode
decode_encode [] = refl
decode_encode (a ∷ []) = refl
decode_encode (a ∷ b ∷ []) = refl
decode_encode (a ∷ b ∷ c ∷ bytes) = rw (decode_encode bytes) refl

length_encode : (bytes : List ℕ) → length (encode bytes) ≡ 4 * ((length bytes + 2) / 3)
unfolding encode
length_encode [] = refl
length_encode (a ∷ []) = refl
length_encode (a ∷ b ∷ []) = refl
length_encode (a ∷ b ∷ c ∷ bytes) = omega (arith, length_encode bytes)

-- Every transaction has the same four bytes, and the signature that is read is the length of its text.
abbrev outside : Outside
outside = record {
  send = λ r. err Error.remote;
  to_bytes = λ t. ok (1 ∷ 2 ∷ 3 ∷ 4 ∷ []);
  encode = encode;
  from_str = λ t. ok (length t);
  address_of_key = λ k. k;
  sign_with_key = λ k t. k;
}

abbrev kms : Kms
kms = record {
  public_key = ok (some 7);
  to_sui_address = λ k. k + 2;
  from_base64 = decode;
  digest = λ b. length b ∷ [];
  sign = λ d. ok d;
  concatenated = λ s. ok s;
  serialized = λ s k. ok (5 ∷ s);
  verify_transaction = λ k b t. ok true;
  verify = λ d s. ok true;
}

sign_transaction_iff_example :
    (sign_transaction
        (joined outside kms [] (λ r. err Error.remote))
        (sidecar_signer
          (record { sidecar_url = url outside kms [] (λ r. err Error.remote); sui_address = 9 }))
        tx
      ≡ ok 2)
    ↔ ((4 ≤ 7500)
        × ((text : Text) × (kms_signature kms (1 ∷ 2 ∷ 3 ∷ 4 ∷ []) ≡ ok text)
            × (outside.from_str text ≡ ok 2)))
sign_transaction_iff_example =
    sign_transaction_iff outside kms [] (λ r. err Error.remote)
      (record { decode-encode = decode_encode; length-encode = length_encode }) tx
      (1 ∷ 2 ∷ 3 ∷ 4 ∷ []) 9 2 refl
