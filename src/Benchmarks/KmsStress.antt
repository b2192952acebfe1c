-- ===== src/Benchmarks/KmsStress.antt =====
-- The load on the signer: `run_kms_stress_test` of src/benchmarks/kms_stress.rs. The counters are words
-- of 64 bits. The throughput, a division of floating point numbers, is left out.
pub mod Ends
pub mod Exact
use sui_gas_pool.Prelude.{
  ℕ, suc, zero, ◌+◌, ◌%◌, ◌^◌, Bool, true, false, if◌then◌else◌, List, [], ◌∷◌, Result, ok, err,
}

-- Where a worker is: before the test of the flag, waiting for the signer, or at the end.
pub data Worker : Type 0 where
  at_test calling ended : Worker

pub record Stress : Type 0 where
  pub workers : List Worker
  pub success_counter : ℕ
  pub failure_counter : ℕ
  pub stop_flag : Bool

-- A turn of a worker, with the answer of the signer for one that waits; or the stop after 30 seconds.
pub data StressEvent : Type 0 where
  turn : ℕ → Result ℕ → StressEvent
  stop : StressEvent

unfoldable pub worker_turn : Bool → Worker → Worker
worker_turn stopped at_test = if stopped then ended else calling
worker_turn stopped calling = at_test
worker_turn stopped ended = ended

unfoldable pub turn_at : ℕ → Bool → List Worker → List Worker
unfolding worker_turn
turn_at i stopped [] = []
turn_at zero stopped (w ∷ ws) = worker_turn stopped w ∷ ws
turn_at (suc i) stopped (w ∷ ws) = w ∷ turn_at i stopped ws

-- There is nothing to do for a worker that was not spawned.
unfoldable pub worker_at : ℕ → List Worker → Worker
worker_at i [] = ended
worker_at zero (w ∷ ws) = w
worker_at (suc i) (w ∷ ws) = worker_at i ws

unfoldable pub successes : Worker → Result ℕ → ℕ
successes calling (ok sig) = 1
successes calling (err e) = 0
successes at_test r = 0
successes ended r = 0

unfoldable pub failures : Worker → Result ℕ → ℕ
failures calling (ok sig) = 0
failures calling (err e) = 1
failures at_test r = 0
failures ended r = 0

unfoldable pub step_event : StressEvent → Stress → Stress
unfolding turn_at worker_at successes failures
step_event stop s = record s { stop_flag = true }
step_event (turn i r) s =
    let w = worker_at i s.workers in
    record s {
      workers = turn_at i s.stop_flag s.workers;
      success_counter = (s.success_counter + successes w r) % 2 ^ 64;
      failure_counter = (s.failure_counter + failures w r) % 2 ^ 64;
    }

unfoldable pub run_events : List StressEvent → Stress → Stress
unfolding step_event
run_events [] s = s
run_events (e ∷ es) s = run_events es (step_event e s)

unfoldable pub spawned : ℕ → List Worker
spawned zero = []
spawned (suc n) = at_test ∷ spawned n

unfoldable pub start_workers : ℕ → Stress
unfolding spawned
start_workers num_tasks = record {
  workers = spawned num_tasks;
  success_counter = 0;
  failure_counter = 0;
  stop_flag = false;
}

-- What is printed of the calls.
abbrev pub total_calls : Stress → ℕ
total_calls s = (s.success_counter + s.failure_counter) % 2 ^ 64
