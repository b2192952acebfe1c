-- ===== src/Tests/Calling.antt =====
-- The client's calls against the server, at concrete values.
use sui_gas_pool.Prelude.{
  ℕ, ◌*◌, ◌≡◌, ◌↔◌, refl, false, [], ◌∷◌, ok, err, Error, arith, ◌==◌, if◌then◌else◌, and_then,
}
use sui_gas_pool.Text.{Text}
use sui_gas_pool.GasPool.Core.{GasPool, debug_check_health, reserve_gas, execute_transaction'}
use sui_gas_pool.Rpc.{Texts}
use sui_gas_pool.Rpc.Meaning.{answer_of}
use sui_gas_pool.Rpc.Execution.{effects_or_panic}
use sui_gas_pool.Rpc.Routes.{Surroundings}
use sui_gas_pool.Rpc.Calls.{listen, call_reserve_gas, call_execute_tx}
use sui_gas_pool.Rpc.Calls.EndToEnd.{call_reserve_gas_serves, call_execute_tx_serves}
use sui_gas_pool.Tool
use sui_gas_pool.Tool.{
  Shell, ToolCommand, cli, check_station_health, check_station_end_to_end_health,
  get_station_version, Ending, healthy, server_version, execute,
}
use sui_gas_pool.Tool.Reports.{execute_reports}
use sui_gas_pool.Tests.{parts, pool, tx, node}

abbrev words : Texts
words = record {
  to_string = λ e. 1 ∷ [];
  invalid_token = 2 ∷ [];
  invalid_bytes = 3 ∷ [];
  unknown_error = 4 ∷ [];
}

abbrev meeting : Surroundings
meeting = record {
  today = 5;
  now = 60;
  tx_of = λ t. ok tx;
  sig_of = λ t. ok 70;
  before = node;
  after = node;
  health_tx = λ refs n. tx;
  debug = λ e. [];
}

-- http://a
abbrev local_address : Text
local_address = b'h' ∷ b't' ∷ b't' ∷ b'p' ∷ b':' ∷ b'/' ∷ b'/' ∷ b'a' ∷ []

abbrev shell : Shell
shell = record {
  debug_build = false;
  save = λ path c. ok tt;
  run_benchmark = λ m url d n. Tool.finished;
  run_kms_stress_test = λ url n. Tool.finished;
  keypair = 5;
  localhost = [];
  local_fullnode = [];
}

-- The tool with the token 2 at the local address.
abbrev tool : ToolCommand → GasPool parts → Ending × GasPool parts
tool =
    execute (listen parts words 2 [] (λ r. err Error.remote) meeting local_address) 2 words
      (λ s t. t) [] shell

execute_reports_example :
    let called = debug_check_health parts (λ refs n. tx) 5 60 pool in
    let (outcome, p') = tool (cli (check_station_end_to_end_health local_address)) pool in
    (tool (cli (check_station_health local_address)) pool ≡ (healthy, pool))
    × (tool (cli (get_station_version local_address)) pool ≡ (server_version [], pool))
    × ((outcome ≡ healthy) ↔ ((◌≡◌ {A = ℕ} 2 2) × (called.0 ≡ ok tt)))
    × (p' ≡ (if 2 == 2 then called.1 else pool))
execute_reports_example =
    execute_reports parts words 2 [] (λ r. err Error.remote) (λ s t. t) [] meeting local_address
      shell 2 pool

call_reserve_gas_serves_example :
    let (answer, p') =
      call_reserve_gas
        (listen parts words 2 [] (λ r. err Error.remote) meeting local_address)
        local_address
        2
        words
        (λ s t. t)
        []
        6
        600
        pool in
    let called = reserve_gas parts 5 60 6 (600 * 1000) pool in
    (answer ≡ answer_of words called.0) × (p' ≡ called.1)
call_reserve_gas_serves_example =
    call_reserve_gas_serves parts words 2 [] (λ r. err Error.remote) (λ s t. t) [] meeting
      local_address 6 600 pool (omega arith, omega arith, omega arith, omega arith)

call_execute_tx_serves_example :
    let (answer, p') =
      call_execute_tx
        (listen parts words 2 [] (λ r. err Error.remote) meeting local_address)
        local_address
        2
        words
        (λ s t. t)
        []
        (λ t. [])
        (λ s. [])
        3
        tx
        70
        pool in
    let called = execute_transaction' parts node node 5 3 tx 70 pool in
    (answer ≡ answer_of words (and_then called.0 (λ response. effects_or_panic response.effects)))
    × (p' ≡ called.1)
call_execute_tx_serves_example =
    call_execute_tx_serves parts words 2 [] (λ r. err Error.remote) (λ s t. t) [] meeting
      local_address (λ t. []) (λ s. []) 3 tx 70 pool refl refl
