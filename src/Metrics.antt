-- ===== src/Metrics.antt =====
-- The metrics of src/metrics.rs and their registration. Prometheus and the histograms belong to other
-- crates: a registry is a parameter, which knows what is registered under a name. A counter is the
-- number that it has come to.
pub mod Fresh
pub mod Requests
use Prim.Native.Char.{code}
use Prim.Native.String.{String}
use sui_gas_pool.Prelude.{
  ℕ, ◌≡◌, Bool, true, false, ◌&&◌, ◌||◌, not, List, [], ◌∷◌, ◌++◌, ok, Action, pure, unwrapped,
  ◌>>◌,
}
use sui_gas_pool.Text.{Text}

-- The code points of a name.
abbrev pub codes : String → Text
codes String.[] = []
codes (String.◌∷◌ c s) = code c ∷ codes s

-- `register` is what the four `register_…_with_registry!` do with a name: whichever kind of counter or
-- gauge it is, and whatever its help and its labels. `new_in_registry` is that of a histogram, which
-- registers series of its own.
pub record Prometheus : Type 1 where
  pub Registry : Type 0
  pub has : Text → Registry → Bool
  pub register : Text → Action Registry (Unit {0})
  pub new_in_registry : Text → Action Registry (Unit {0})

pub data Metric : Type 0 where
  counter gauge : String → Metric
  histogram : String → Metric

pub record GasPoolRpcMetrics : Type 0 where
  pub num_reserve_gas_requests : ℕ
  pub num_authorized_reserve_gas_requests : ℕ
  pub num_successful_reserve_gas_requests : ℕ
  pub num_failed_reserve_gas_requests : ℕ
  pub target_gas_budget_per_request : List ℕ
  pub reserve_duration_per_request : List ℕ
  pub num_execute_tx_requests : ℕ
  pub num_authorized_execute_tx_requests : ℕ
  pub num_successful_execute_tx_requests : ℕ
  pub num_failed_execute_tx_requests : ℕ

-- The fields of the three records, in the order in which they are initialized.
abbrev pub rpc_metrics : List Metric
rpc_metrics =
    counter "num_reserve_gas_requests"
    ∷ counter "num_authorized_reserve_gas_requests"
    ∷ counter "num_successful_reserve_gas_requests"
    ∷ counter "num_failed_reserve_gas_requests"
    ∷ histogram "target_gas_budget_per_request"
    ∷ histogram "reserve_duration_per_request"
    ∷ counter "num_execute_tx_requests"
    ∷ counter "num_authorized_execute_tx_requests"
    ∷ counter "num_successful_execute_tx_requests"
    ∷ counter "num_failed_execute_tx_requests"
    ∷ []

abbrev pub core_metrics : List Metric
core_metrics =
    histogram "reserved_gas_coin_count_per_request"
    ∷ counter "num_expired_gas_coins"
    ∷ counter "num_smashed_gas_coins"
    ∷ histogram "reserve_gas_latency"
    ∷ histogram "transaction_signing_latency"
    ∷ histogram "transaction_execution_latency"
    ∷ counter "num_gas_pool_invariant_violations"
    ∷ gauge "daily_gas_usage"
    ∷ counter "num_equivocation_detected"
    ∷ []

abbrev pub storage_metrics : List Metric
storage_metrics =
    gauge "gas_pool_available_gas_coin_count"
    ∷ gauge "gas_pool_available_gas_total_balance"
    ∷ counter "num_reserve_gas_coins_requests"
    ∷ counter "num_successful_reserve_gas_coins_requests"
    ∷ counter "num_ready_for_execution_requests"
    ∷ counter "num_successful_ready_for_execution_requests"
    ∷ counter "num_add_new_coins_requests"
    ∷ counter "num_successful_add_new_coins_requests"
    ∷ counter "num_expire_coins_requests"
    ∷ counter "num_successful_expire_coins_requests"
    ∷ []

abbrev pub no_requests : GasPoolRpcMetrics
no_requests = record {
  num_reserve_gas_requests = 0;
  num_authorized_reserve_gas_requests = 0;
  num_successful_reserve_gas_requests = 0;
  num_failed_reserve_gas_requests = 0;
  target_gas_budget_per_request = [];
  reserve_duration_per_request = [];
  num_execute_tx_requests = 0;
  num_authorized_execute_tx_requests = 0;
  num_successful_execute_tx_requests = 0;
  num_failed_execute_tx_requests = 0;
}

module _ (prometheus : Prometheus) where
  open prometheus use {Registry, register, new_in_registry}

  register_one : Metric → Action Registry (Unit {0})
  register_one (counter name) = register (codes name)
  register_one (gauge name) = register (codes name)
  register_one (histogram name) = new_in_registry (codes name)

  -- `.unwrap()` of each.
  unfoldable pub register_all : List Metric → Action Registry (Unit {0})
  unfolding register_one
  register_all [] = pure tt
  register_all (m ∷ ms) = unwrapped (register_one m) >> register_all ms

  -- The registrations of a start, in the order of `Command::execute`: the storage, the pool and the
  -- HTTP interface, each by its `new`.
  unfoldable pub start_metrics : Action Registry (Unit {0})
  start_metrics =
      register_all storage_metrics >> (register_all core_metrics >> register_all rpc_metrics)
