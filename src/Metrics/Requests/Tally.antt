-- ===== src/Metrics/Requests/Tally.antt =====
-- What a session says of its requests and answers, and what the counters should come to.
use sui_gas_pool.Prelude.{
  ℕ, ◌+◌, ◌%◌, ◌^◌, ◌<◌, not, Option, none, some, ◌==◌, ◌≡◌, if◌then◌else◌, Bool, true, false, ◌&&◌,
  List, [], ◌∷◌,
}
use sui_gas_pool.Text.{Text}
use sui_gas_pool.Rpc.{
  StatusCode, ok_200, unauthorized_401, bad_request_400, internal_server_error_500,
}
use sui_gas_pool.Rpc.Health.{is_success, same_text}
use sui_gas_pool.Rpc.Routes.{
  Request, get_health, get_version, post_debug_health_check, post_reserve_gas, post_execute_tx,
  Reply, text_body, reserve_body, execute_body,
}
use sui_gas_pool.Metrics.{GasPoolRpcMetrics}

-- One if a test holds.
abbrev pub one_if : Bool → ℕ
one_if b = if b then 1 else 0

abbrev pub is_error : StatusCode → Bool
is_error internal_server_error_500 = true
is_error ok_200 = false
is_error unauthorized_401 = false
is_error bad_request_400 = false

abbrev pub reserved_ok : Reply → Bool
reserved_ok (reserve_body r) = is_success r.0
reserved_ok (execute_body r) = false
reserved_ok (text_body r) = false

-- The error that is shown is the given one.
abbrev pub shows : Option Text → Text → Bool
shows none t = false
shows (some e) t = same_text e t

-- A failure that is no panic.
abbrev pub reserve_fails : Text → Reply → Bool
reserve_fails panic_text (reserve_body r) = is_error r.0 && not (shows r.1.error panic_text)
reserve_fails panic_text (execute_body r) = false
reserve_fails panic_text (text_body r) = false

abbrev pub executed_ok : Reply → Bool
executed_ok (execute_body r) = is_success r.0
executed_ok (reserve_body r) = false
executed_ok (text_body r) = false

abbrev pub execute_fails : Text → Reply → Bool
execute_fails panic_text (execute_body r) = is_error r.0 && not (shows r.1.error panic_text)
execute_fails panic_text (reserve_body r) = false
execute_fails panic_text (text_body r) = false

abbrev pub asks_reserve : Request → Bool
asks_reserve (post_reserve_gas token r) = true
asks_reserve (post_execute_tx token r) = false
asks_reserve (post_debug_health_check token) = false
asks_reserve get_health = false
asks_reserve get_version = false

abbrev pub asks_execute : Request → Bool
asks_execute (post_execute_tx token r) = true
asks_execute (post_reserve_gas token r) = false
asks_execute (post_debug_health_check token) = false
asks_execute get_health = false
asks_execute get_version = false

abbrev pub with_secret : ℕ → Request → Bool
with_secret secret (post_reserve_gas token r) = token == secret
with_secret secret (post_execute_tx token r) = token == secret
with_secret secret (post_debug_health_check token) = token == secret
with_secret secret get_health = false
with_secret secret get_version = false

-- How many of the exchanges of a session pass a test.
abbrev pub tally : (Request → Reply → Bool) → List (Request × Reply) → ℕ
tally test [] = 0
tally test ((r, reply) ∷ rest) = one_if (test r reply) + tally test rest

-- The counters are words of 64 bits.
pub record InRange (m : GasPoolRpcMetrics) : Type 0 where
  pub reserve_asked_fits : m.num_reserve_gas_requests < 2 ^ 64
  pub reserve_authorized_fits : m.num_authorized_reserve_gas_requests < 2 ^ 64
  pub reserve_successful_fits : m.num_successful_reserve_gas_requests < 2 ^ 64
  pub reserve_failed_fits : m.num_failed_reserve_gas_requests < 2 ^ 64
  pub execute_asked_fits : m.num_execute_tx_requests < 2 ^ 64
  pub execute_authorized_fits : m.num_authorized_execute_tx_requests < 2 ^ 64
  pub execute_successful_fits : m.num_successful_execute_tx_requests < 2 ^ 64
  pub execute_failed_fits : m.num_failed_execute_tx_requests < 2 ^ 64

-- From one state of the counters to another, over some exchanges.
pub record IsExact (secret : ℕ) (panic_text : Text) (es : List (Request × Reply))
    (m m' : GasPoolRpcMetrics) : Type 0 where
  pub reserve_asked :
      m'.num_reserve_gas_requests
      ≡ (m.num_reserve_gas_requests + tally (λ r y. asks_reserve r) es) % 2 ^ 64
  pub reserve_authorized :
      m'.num_authorized_reserve_gas_requests
      ≡ (m.num_authorized_reserve_gas_requests
          + tally (λ r y. asks_reserve r && with_secret secret r) es)
        % 2 ^ 64
  pub reserve_successful :
      m'.num_successful_reserve_gas_requests
      ≡ (m.num_successful_reserve_gas_requests + tally (λ r y. reserved_ok y) es) % 2 ^ 64
  pub reserve_failed :
      m'.num_failed_reserve_gas_requests
      ≡ (m.num_failed_reserve_gas_requests + tally (λ r y. reserve_fails panic_text y) es) % 2 ^ 64
  pub execute_asked :
      m'.num_execute_tx_requests
      ≡ (m.num_execute_tx_requests + tally (λ r y. asks_execute r) es) % 2 ^ 64
  pub execute_authorized :
      m'.num_authorized_execute_tx_requests
      ≡ (m.num_authorized_execute_tx_requests
          + tally (λ r y. asks_execute r && with_secret secret r) es)
        % 2 ^ 64
  pub execute_successful :
      m'.num_successful_execute_tx_requests
      ≡ (m.num_successful_execute_tx_requests + tally (λ r y. executed_ok y) es) % 2 ^ 64
  pub execute_failed :
      m'.num_failed_execute_tx_requests
      ≡ (m.num_failed_execute_tx_requests + tally (λ r y. execute_fails panic_text y) es) % 2 ^ 64
