-- ===== src/Signers.antt =====
-- The signers of src/tx_signer.rs, which src/config.rs chooses from. The HTTP client, BCS, Base64 and
-- the signatures of the SDK are parameters. A key pair, its key and a signature are numbers.
pub mod Sidecar
pub mod Signing
use sui_gas_pool.Prelude.{
  ℕ, List, [], ◌∷◌, ◌++◌, Option, none, some, Result, ok, err, Error, and_then,
}
use sui_gas_pool.Text.{Text}
use sui_gas_pool.Types.{SuiAddress}
use sui_gas_pool.Sui.{TransactionData}

pub data TxSignerConfig : Type 0 where
  local : ℕ → TxSignerConfig
  sidecar : Text → TxSignerConfig

-- What reqwest sends to the sidecar: a GET of a URL, or a POST of {"txBytes": ...} to it.
pub data SidecarRequest : Type 0 where
  get_url : Text → SidecarRequest
  post_tx_bytes : Text → Text → SidecarRequest

-- The body of an answer, whose status is not read: {"suiPubkeyAddress": ...}; {"signature": ...},
-- where an undefined field is left out; or one that has neither field.
pub data SidecarReply : Type 0 where
  address_json : SuiAddress → SidecarReply
  signature_json : Option Text → SidecarReply
  other_body : SidecarReply

pub record SidecarTxSigner : Type 0 where
  pub sidecar_url : Text
  pub sui_address : SuiAddress

pub record TestTxSigner : Type 0 where
  pub keypair : ℕ

-- What is behind `Arc<dyn TxSigner>`.
pub data TxSigner : Type 0 where
  test_signer : TestTxSigner → TxSigner
  sidecar_signer : SidecarTxSigner → TxSigner

-- `send` is the HTTP client, `from_str` reads a signature, and `address_of_key` and `sign_with_key` are
-- the public key's address and `Signature::new_secure` of a key pair.
pub record Outside : Type 0 where
  pub send : SidecarRequest → Result SidecarReply
  pub to_bytes : TransactionData → Result (List ℕ)
  pub encode : List ℕ → Text
  pub from_str : Text → Result ℕ
  pub address_of_key : ℕ → SuiAddress
  pub sign_with_key : ℕ → TransactionData → ℕ

-- /get-pubkey-address
abbrev pub address_path : Text
address_path =
    b'/' ∷ b'g' ∷ b'e' ∷ b't' ∷ b'-' ∷ b'p' ∷ b'u' ∷ b'b' ∷ b'k' ∷ b'e' ∷ b'y' ∷ b'-' ∷ b'a' ∷ b'd'
    ∷ b'd' ∷ b'r' ∷ b'e' ∷ b's' ∷ b's' ∷ []

-- /sign-transaction
abbrev pub sign_path : Text
sign_path =
    b'/' ∷ b's' ∷ b'i' ∷ b'g' ∷ b'n' ∷ b'-' ∷ b't' ∷ b'r' ∷ b'a' ∷ b'n' ∷ b's' ∷ b'a' ∷ b'c' ∷ b't'
    ∷ b'i' ∷ b'o' ∷ b'n' ∷ []

-- `resp.json::<SuiAddressResponse>()`; a failure to send or to read panics.
unfoldable pub read_address : Result SidecarReply → Result SuiAddress
read_address (ok (address_json a)) = ok a
read_address (ok (signature_json s)) = err Error.panic
read_address (ok other_body) = err Error.panic
read_address (err e) = err Error.panic

-- `resp.json::<SignatureResponse>()`, with `GenericSignature::from_str`.
unfoldable pub read_signature : (Text → Result ℕ) → SidecarReply → Result ℕ
read_signature from_str (signature_json (some text)) = from_str text
read_signature from_str (signature_json none) = err Error.remote
read_signature from_str (address_json a) = err Error.remote
read_signature from_str other_body = err Error.remote

module _ (outside : Outside) where
  open outside use {send, to_bytes, encode, from_str, address_of_key, sign_with_key}

  -- `SidecarTxSigner::new`
  unfoldable pub new_sidecar : Text → Result SidecarTxSigner
  unfolding read_address
  new_sidecar url =
      and_then (read_address (send (get_url (url ++ address_path))))
        (λ a. ok (record { sidecar_url = url; sui_address = a }))

  unfoldable pub new_signer : TxSignerConfig → Result TxSigner
  unfolding new_sidecar
  new_signer (local keypair) = ok (test_signer (record { keypair = keypair }))
  new_signer (sidecar url) = and_then (new_sidecar url) (λ s. ok (sidecar_signer s))

  unfoldable pub get_address : TxSigner → SuiAddress
  get_address (test_signer s) = address_of_key s.keypair
  get_address (sidecar_signer s) = s.sui_address

  unfoldable pub sign_transaction : TxSigner → TransactionData → Result ℕ
  unfolding read_signature
  sign_transaction (test_signer s) tx_data = ok (sign_with_key s.keypair tx_data)
  sign_transaction (sidecar_signer s) tx_data = and_then (to_bytes tx_data) (λ bytes.
      and_then (send (post_tx_bytes (s.sidecar_url ++ sign_path) (encode bytes)))
        (read_signature from_str))
