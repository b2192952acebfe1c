-- ===== src/Tool.antt =====
-- The command line tool of src/bin/tool.rs. The file that a configuration is saved to, the benchmark
-- and the load on the signer are outside, and what the tool prints is a value.
pub mod Reports
use sui_gas_pool.Prelude.{ℕ, Bool, if◌then◌else◌, List, [], ◌∷◌, Result, ok, err, Error, Action}
use sui_gas_pool.Text.{Text}
use sui_gas_pool.Rpc.{StatusCode, Texts, Answer, value, failure}
use sui_gas_pool.Rpc.Routes.{Reply}
use sui_gas_pool.Rpc.Calls.{HttpRequest, call_health, call_version, call_debug_health_check}
use sui_gas_pool.Benchmarks.{BenchmarkMode}
use sui_gas_pool.Station.{GasStationConfig, sample_config}

pub data CliCommand : Type 0 where
  check_station_health : Text → CliCommand
  check_station_end_to_end_health : Text → CliCommand
  get_station_version : Text → CliCommand

pub data ToolCommand : Type 0 where
  benchmark : Text → ℕ → ℕ → BenchmarkMode → ToolCommand
  stress_kms : Text → ℕ → ToolCommand
  generate_sample_config : Text → Bool → ToolCommand
  cli : CliCommand → ToolCommand

-- How the tool ends: with "Station server is healthy", with the version, with exit code 1 and the text
-- of an error, with the file written, when a load that it started ends, or with a panic.
pub data Ending : Type 0 where
  healthy : Ending
  server_version : Text → Ending
  exit_1 : Text → Ending
  finished : Ending
  panicked : Ending

-- A key pair is made for the sample, and `localhost` and `local_fullnode` are in its defaults.
pub record Shell : Type 0 where
  pub debug_build : Bool
  pub save : Text → GasStationConfig → Result (Unit {0})
  pub run_benchmark : BenchmarkMode → Text → ℕ → ℕ → Ending
  pub run_kms_stress_test : Text → ℕ → Ending
  pub keypair : ℕ
  pub localhost : Text
  pub local_fullnode : Text

-- http://localhost:3000
abbrev pub sample_sidecar_url : Text
sample_sidecar_url =
    b'h' ∷ b't' ∷ b't' ∷ b'p' ∷ b':' ∷ b'/' ∷ b'/' ∷ b'l' ∷ b'o' ∷ b'c' ∷ b'a' ∷ b'l' ∷ b'h' ∷ b'o'
    ∷ b's' ∷ b't' ∷ b':' ∷ b'3' ∷ b'0' ∷ b'0' ∷ b'0' ∷ []

-- `health().await.unwrap()`
health_outcome : Answer (Unit {0}) → Ending
health_outcome (value u) = healthy
health_outcome (failure e) = panicked

end_to_end_outcome : Answer (Unit {0}) → Ending
end_to_end_outcome (value u) = healthy
end_to_end_outcome (failure e) = exit_1 e

-- `version().await.unwrap()`
version_outcome : Answer Text → Ending
version_outcome (value v) = server_version v
version_outcome (failure e) = panicked

saved_outcome : Result (Unit {0}) → Ending
saved_outcome (ok u) = finished
saved_outcome (err e) = panicked

-- `send` is the client's HTTP, and `auth` the token in the environment.
module _ {S : Type 0} (send : HttpRequest → Action S Reply) (auth : ℕ) (texts : Texts)
    (shown : StatusCode → Text → Text) (bad_json : Text) where
  unfoldable pub execute_cli : CliCommand → S → Ending × S
  unfolding health_outcome end_to_end_outcome version_outcome
  execute_cli (check_station_health url) s =
      let (answer, s') = call_health send url auth texts shown bad_json s in
      (health_outcome answer, s')
  execute_cli (check_station_end_to_end_health url) s =
      let (answer, s') = call_debug_health_check send url auth texts shown bad_json s in
      (end_to_end_outcome answer, s')
  execute_cli (get_station_version url) s =
      let (answer, s') = call_version send url auth texts shown bad_json s in
      (version_outcome answer, s')

  module _ (w : Shell) where
    open w use {
      debug_build, save, run_benchmark, run_kms_stress_test, keypair, localhost, local_fullnode,
    }

    -- `ToolCommand::execute`
    unfoldable pub execute : ToolCommand → S → Ending × S
    unfolding execute_cli saved_outcome
    execute (benchmark url duration clients mode) s =
        (if debug_build then panicked else run_benchmark mode url duration clients, s)
    execute (stress_kms url tasks) s = (run_kms_stress_test url tasks, s)
    execute (generate_sample_config path with_sidecar_signer) s = (
      saved_outcome (
          save path (
            sample_config with_sidecar_signer sample_sidecar_url keypair localhost local_fullnode)),
      s,
    )
    execute (cli command) s = execute_cli command s
