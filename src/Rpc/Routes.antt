-- ===== src/Rpc/Routes.antt =====
-- The routes of the server: `GasPoolServer::new` of src/rpc/server.rs. A request without the header or
-- with a body of another form is turned away by axum before a handler runs; it is no request here.
use sui_gas_pool.Prelude.{
  ℕ, ◌≡◌, ◌≢◌, refl, ap, ◌∙◌, true, false, ◌==◌, Bool-cases, inl, inr, Option, none, some, List, [],
  ◌∷◌, Result, Error, All, arith,
}
use sui_gas_pool.Text.{Text}
use sui_gas_pool.Types.{ObjectRef}
use sui_gas_pool.Sui.{TransactionData}
use sui_gas_pool.SuiClient.{FullNode}
use sui_gas_pool.GasPool.Core.{Parts, GasPool}
use sui_gas_pool.Rpc.{
  StatusCode, ok_200, Texts, ReserveGasRequest, ReserveGasResponse, ExecuteTxRequest,
  ExecuteTxResponse, handle_reserve_gas, handle_execute_tx,
}
use sui_gas_pool.Rpc.Health.{health, handle_debug_health_check}

pub data Request : Type 0 where
  get_health get_version : Request
  post_debug_health_check : ℕ → Request
  post_reserve_gas : ℕ → ReserveGasRequest → Request
  post_execute_tx : ℕ → ExecuteTxRequest → Request

pub data Reply : Type 0 where
  text_body : StatusCode × Text → Reply
  reserve_body : StatusCode × ReserveGasResponse → Reply
  execute_body : StatusCode × ExecuteTxResponse → Reply

-- The bearer token of a request.
abbrev pub bearer : Request → Option ℕ
bearer get_health = none
bearer get_version = none
bearer (post_debug_health_check token) = some token
bearer (post_reserve_gas token r) = some token
bearer (post_execute_tx token r) = some token

-- What the handlers read while they run: the clock, the decoders, the node before and after a
-- transaction, and the texts.
pub record Surroundings : Type 0 where
  pub today : ℕ
  pub now : ℕ
  pub tx_of : Text → Result TransactionData
  pub sig_of : Text → Result ℕ
  pub before : FullNode
  pub after : FullNode
  pub health_tx : List ObjectRef → ℕ → TransactionData
  pub debug : Error → Text

module _ {S : Type 0} (parts : Parts S) (texts : Texts) (secret : ℕ) (version : Text) where
  unfoldable pub serve : Surroundings → Request → GasPool parts → Reply × GasPool parts
  unfolding health
  serve w get_health p = (text_body health, p)
  serve w get_version p = (text_body (ok_200, version), p)
  serve w (post_debug_health_check token) p =
      let (reply, p') =
        handle_debug_health_check parts w.debug secret w.health_tx w.today w.now token p in
      (text_body reply, p')
  serve w (post_reserve_gas token r) p =
      let (reply, p') = handle_reserve_gas parts texts secret w.today w.now token r p in
      (reserve_body reply, p')
  serve w (post_execute_tx token r) p =
      let (reply, p') =
        handle_execute_tx parts texts secret w.tx_of w.sig_of w.before w.after w.today token r p in
      (execute_body reply, p')

  -- The pool after a session: one request after another.
  unfoldable pub serve_all : List (Surroundings × Request) → GasPool parts → GasPool parts
  unfolding serve
  serve_all [] p = p
  serve_all ((w, r) ∷ rs) p = serve_all rs (serve w r p).1

  wrong_token :
      (token : ℕ) → ◌≢◌ {A = Option ℕ} (some token) (some secret) → (token == secret) ≡ false
  wrong_token token bad = elim (Bool-cases (token == secret)) [
    | inl same ↦ absurd (bad (ap some (equal same)))
    | inr other ↦ other
  ]
    where
      equal : (token == secret) ≡ true → token ≡ secret
      equal same = ground arith

  serve_unauthorized :
      (w : Surroundings) (r : Request) (p : GasPool parts)
      → bearer r ≢ some secret
      → (serve w r p).1 ≡ p
  unfolding serve handle_debug_health_check handle_reserve_gas handle_execute_tx
  serve_unauthorized w get_health p bad = refl
  serve_unauthorized w get_version p bad = refl
  serve_unauthorized w (post_debug_health_check token) p bad = rw (wrong_token token bad) refl
  serve_unauthorized w (post_reserve_gas token r) p bad = rw (wrong_token token bad) refl
  serve_unauthorized w (post_execute_tx token r) p bad = rw (wrong_token token bad) refl

  -- Requests without the secret, to whatever routes, in whatever number and order, change nothing of
  -- the pool.
  pub serve_all_unauthorized :
      (rs : List (Surroundings × Request)) (p : GasPool parts)
      → All (λ (r : Surroundings × Request). bearer r.1 ≢ some secret) rs
      → serve_all rs p ≡ p
  unfolding serve_all
  serve_all_unauthorized [] p bad = refl
  serve_all_unauthorized ((w, r) ∷ rs) p bad =
      ap (serve_all rs) (serve_unauthorized w r p bad.0) ∙ serve_all_unauthorized rs p bad.1
