-- ===== src/Tests/Stressing.antt =====
-- The load on the signer at concrete values.
use sui_gas_pool.Prelude.{ℕ, suc, zero, ◌≤◌, ◌<◌, ◌≡◌, ◌++◌, List, [], ◌∷◌, ok, err, Error, arith}
use sui_gas_pool.Benchmarks.KmsStress.{
  StressEvent, turn, stop, run_events, start_workers, ended, worker_at, total_calls,
}
use sui_gas_pool.Benchmarks.KmsStress.Ends.{turns_of}
use sui_gas_pool.Benchmarks.KmsStress.Exact.{requests, total_calls_exact}

-- Two workers: one call succeeds and the other is answered after the stop.
abbrev before_stop : List StressEvent
before_stop = turn 0 (ok 1) ∷ turn 1 (ok 1) ∷ turn 0 (ok 1) ∷ []

abbrev after_stop : List StressEvent
after_stop = turn 1 (err Error.remote) ∷ turn 0 (ok 1) ∷ turn 1 (ok 1) ∷ turn 0 (ok 1) ∷ []

two_turns : (i : ℕ) → i < 2 → 2 ≤ turns_of i after_stop
unfolding turns_of
two_turns zero h = omega arith
two_turns (suc zero) h = omega arith
two_turns (suc (suc i)) h = absurd (omega (arith, h))

total_calls_exact_example :
    let s = run_events (before_stop ++ stop ∷ after_stop) (start_workers 2) in
    ((i : ℕ) → worker_at i s.workers ≡ ended)
    × (total_calls s ≡ requests before_stop (start_workers 2))
total_calls_exact_example = total_calls_exact 2 before_stop after_stop (omega arith) two_turns
