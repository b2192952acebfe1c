-- ===== src/Benchmarks/KmsStress/Exact.antt =====
-- The calls that are counted are the calls that were made.
use sui_gas_pool.Prelude.{
  ℕ, suc, zero, ◌+◌, ◌^◌, ◌<◌, ◌≤◌, ◌≡◌, refl, ap, ◌∙◌, Bool, true, false, if◌then◌else◌, List, [],
  ◌∷◌, ◌++◌, Result, ok, err, length, arith,
}
use sui_gas_pool.Benchmarks.KmsStress.Ends.{turns_of, all_end, length-spawned, length-run}
use sui_gas_pool.Benchmarks.KmsStress.{
  Worker, at_test, calling, ended, Stress, StressEvent, turn, stop, worker_turn, turn_at, worker_at,
  successes, failures, step_event, run_events, spawned, start_workers, total_calls,
}

-- A worker calls the signer when it has its turn at the test and the flag is not set.
unfoldable calls_of : Bool → Worker → ℕ
calls_of stopped at_test = if stopped then 0 else 1
calls_of stopped calling = 0
calls_of stopped ended = 0

unfoldable sent : StressEvent → Stress → ℕ
unfolding calls_of
sent stop s = 0
sent (turn i r) s = calls_of s.stop_flag (worker_at i s.workers)

-- How many calls the signer gets.
unfoldable pub requests : List StressEvent → Stress → ℕ
unfolding sent
requests [] s = 0
requests (e ∷ es) s = sent e s + requests es (step_event e s)

waiting : Worker → ℕ
waiting calling = 1
waiting at_test = 0
waiting ended = 0

-- The calls that wait for their answer.
unfoldable in_flight : List Worker → ℕ
unfolding waiting
in_flight [] = 0
in_flight (w ∷ ws) = waiting w + in_flight ws

one_turn :
    (stopped : Bool) (w : Worker) (r : Result ℕ)
    → waiting (worker_turn stopped w) + (successes w r + failures w r)
      ≡ waiting w + calls_of stopped w
unfolding waiting worker_turn successes failures calls_of
one_turn true at_test r = refl
one_turn false at_test r = refl
one_turn stopped calling (ok sig) = refl
one_turn stopped calling (err e) = refl
one_turn stopped ended r = refl

turn_balance :
    (i : ℕ) (stopped : Bool) (ws : List Worker) (r : Result ℕ)
    → in_flight (turn_at i stopped ws)
        + (successes (worker_at i ws) r + failures (worker_at i ws) r)
      ≡ in_flight ws + calls_of stopped (worker_at i ws)
unfolding in_flight turn_at worker_at successes failures calls_of
turn_balance i stopped [] r = refl
turn_balance zero stopped (w ∷ ws) r = omega (arith, one_turn stopped w r)
turn_balance (suc i) stopped (w ∷ ws) r = omega (arith, turn_balance i stopped ws r)

at_most_one : (w : Worker) (r : Result ℕ) (stopped : Bool) → calls_of stopped w ≤ 1
unfolding calls_of
at_most_one at_test r true = omega arith
at_most_one at_test r false = omega arith
at_most_one calling r stopped = omega arith
at_most_one ended r stopped = omega arith

abbrev counted : Stress → ℕ
counted s = s.success_counter + s.failure_counter + in_flight s.workers

step_balance :
    (e : StressEvent) (s : Stress)
    → counted s + 1 < 2 ^ 64
    → (counted (step_event e s) ≡ counted s + sent e s) × (sent e s ≤ 1)
unfolding step_event sent
step_balance stop s small = (omega arith, omega arith)
step_balance (turn i r) s small =
    let balance = turn_balance i s.stop_flag s.workers r in
    let one = at_most_one (worker_at i s.workers) r s.stop_flag in
    (omega (arith, balance, one, small), one)

run_balance :
    (es : List StressEvent) (s : Stress)
    → counted s + length es < 2 ^ 64
    → counted (run_events es s) ≡ counted s + requests es s
unfolding run_events requests
run_balance [] s small = omega arith
run_balance (e ∷ es) s small =
    let (now, one) = step_balance e s (omega (arith, small)) in
    omega (arith, now, run_balance es (step_event e s) (omega (arith, small, now, one)))

requests_few : (es : List StressEvent) (s : Stress) → requests es s ≤ length es
unfolding requests sent
requests_few [] s = omega arith
requests_few (stop ∷ es) s = omega (arith, requests_few es (step_event stop s))
requests_few (turn i r ∷ es) s = omega (
  arith,
  at_most_one (worker_at i s.workers) r s.stop_flag,
  requests_few es (step_event (turn i r) s),
)

requests_append :
    (es fs : List StressEvent) (s : Stress)
    → requests (es ++ fs) s ≡ requests es s + requests fs (run_events es s)
unfolding requests run_events
requests_append [] fs s = omega arith
requests_append (e ∷ es) fs s = omega (arith, requests_append es fs (step_event e s))

run_append :
    (es fs : List StressEvent) (s : Stress)
    → run_events (es ++ fs) s ≡ run_events fs (run_events es s)
unfolding run_events
run_append [] fs s = refl
run_append (e ∷ es) fs s = run_append es fs (step_event e s)

-- After the stop no worker calls the signer.
stopped_silent : (es : List StressEvent) (s : Stress) → s.stop_flag ≡ true → requests es s ≡ 0
unfolding requests sent step_event calls_of
stopped_silent [] s h = refl
stopped_silent (stop ∷ es) s h = omega (arith, stopped_silent es (step_event stop s) refl)
stopped_silent (turn i r ∷ es) s h = omega (
  arith,
  none_sent s.stop_flag h (worker_at i s.workers),
  stopped_silent es (step_event (turn i r) s) h,
)
  where
    none_sent : (stopped : Bool) → stopped ≡ true → (w : Worker) → calls_of stopped w ≡ 0
    none_sent stopped h at_test = rw h refl
    none_sent stopped h calling = refl
    none_sent stopped h ended = refl

none_in_flight : (ws : List Worker) → ((i : ℕ) → worker_at i ws ≡ ended) → in_flight ws ≡ 0
unfolding in_flight worker_at
none_in_flight [] h = refl
none_in_flight (w ∷ ws) h = rw (h 0) (omega (arith, none_in_flight ws (λ i. h (suc i))))

in_flight-spawned : (n : ℕ) → in_flight (spawned n) ≡ 0
unfolding in_flight spawned
in_flight-spawned zero = refl
in_flight-spawned (suc n) = omega (arith, in_flight-spawned n)

-- Where every worker that was spawned has at least two turns after the stop, and there are fewer than
-- 2^64 events, all workers are at their end, and the total that is printed is the number of calls that
-- the signer got before the stop.
pub total_calls_exact :
    (num_tasks : ℕ) (es fs : List StressEvent)
    → length (es ++ stop ∷ fs) < 2 ^ 64
    → ((i : ℕ) → i < num_tasks → 2 ≤ turns_of i fs)
    → let s = run_events (es ++ stop ∷ fs) (start_workers num_tasks) in
      ((i : ℕ) → worker_at i s.workers ≡ ended)
      × (total_calls s ≡ requests es (start_workers num_tasks))
unfolding start_workers run_events requests sent
total_calls_exact num_tasks es fs small turns = (over, exact)
  where
    before : Stress
    before = run_events es (start_workers num_tasks)

    over :
        (i : ℕ)
        → worker_at i (run_events (es ++ stop ∷ fs) (start_workers num_tasks)).workers ≡ ended
    over i =
        ap (λ s. worker_at i s.workers) (run_append es (stop ∷ fs) (start_workers num_tasks))
        ∙ all_end (step_event stop before) fs refl
            (λ i h.
              turns i (
                omega
                  (arith, h, length-run es (start_workers num_tasks), length-spawned num_tasks)))
            i

    exact :
        total_calls (run_events (es ++ stop ∷ fs) (start_workers num_tasks))
        ≡ requests es (start_workers num_tasks)
    exact =
        let balance =
          run_balance (es ++ stop ∷ fs) (start_workers num_tasks)
            (omega (arith, small, in_flight-spawned num_tasks)) in
        omega (
          arith,
          balance,
          small,
          in_flight-spawned num_tasks,
          none_in_flight (run_events (es ++ stop ∷ fs) (start_workers num_tasks)).workers over,
          requests_append es (stop ∷ fs) (start_workers num_tasks),
          stopped_silent fs (step_event stop before) refl,
          requests_few (es ++ stop ∷ fs) (start_workers num_tasks),
        )
