-- ===== src/Benchmarks/KmsStress/Ends.antt =====
-- Every worker ends after the stop.
use sui_gas_pool.Prelude.{
  ℕ, suc, zero, ◌+◌, ◌<◌, ◌≤◌, ◌≡◌, refl, ◌∙◌, Bool, true, false, if◌then◌else◌, List, [], ◌∷◌,
  length, arith, ◌==◌, inl, inr, ◌⊎◌, Bool-cases, ltb, ltb→lt, not_ltb→le,
}
use sui_gas_pool.Benchmarks.KmsStress.{
  Worker, at_test, calling, ended, Stress, StressEvent, turn, stop, worker_turn, turn_at, worker_at,
  step_event, run_events, spawned,
}

-- How many turns a worker has.
unfoldable pub turns_of : ℕ → List StressEvent → ℕ
turns_of i [] = 0
turns_of i (stop ∷ es) = turns_of i es
turns_of i (turn j r ∷ es) = (if i == j then 1 else 0) + turns_of i es

-- How many turns a worker needs to end, once the flag is set.
rank : Worker → ℕ
rank calling = 2
rank at_test = 1
rank ended = 0

rank_turn : (w : Worker) → rank (worker_turn true w) + 1 ≤ rank w ⊎ (rank (worker_turn true w) ≡ 0)
unfolding rank worker_turn
rank_turn calling = inl (omega arith)
rank_turn at_test = inl (omega arith)
rank_turn ended = inr refl

worker_at-turn_at :
    (i j : ℕ) (stopped : Bool) (ws : List Worker)
    → worker_at i (turn_at j stopped ws)
      ≡ (if i == j then worker_turn stopped (worker_at i ws) else worker_at i ws)
unfolding worker_at turn_at worker_turn
worker_at-turn_at i j stopped [] = ground arith
worker_at-turn_at zero zero stopped (w ∷ ws) = refl
worker_at-turn_at zero (suc j) stopped (w ∷ ws) = ground arith
worker_at-turn_at (suc i) zero stopped (w ∷ ws) = ground arith
worker_at-turn_at (suc i) (suc j) stopped (w ∷ ws) =
    ground (arith, worker_at-turn_at i j stopped ws)

-- With the flag set, a worker that has as many turns as it needs is at its end.
rank_falls :
    (i : ℕ) (es : List StressEvent) (s : Stress)
    → s.stop_flag ≡ true
    → rank (worker_at i s.workers) ≤ turns_of i es
    → rank (worker_at i (run_events es s).workers) ≡ 0
unfolding run_events step_event turns_of
rank_falls i [] s h enough = omega (arith, enough)
rank_falls i (stop ∷ es) s h enough = rank_falls i es (step_event stop s) refl enough
rank_falls i (turn j r ∷ es) s h enough =
    rank_falls i es (step_event (turn j r) s) h (fewer s.stop_flag h)
  where
    own :
        (mine : Bool)
        → rank (worker_at i s.workers) ≤ (if mine then 1 else 0) + turns_of i es
        → rank (if mine then worker_turn true (worker_at i s.workers) else worker_at i s.workers)
          ≤ turns_of i es
    own false h = omega (arith, h)
    own true h = elim (rank_turn (worker_at i s.workers)) [
      | inl less ↦ omega (arith, less, h)
      | inr none ↦ omega (arith, none)
    ]

    fewer :
        (stopped : Bool)
        → stopped ≡ true
        → rank (worker_at i (turn_at j stopped s.workers)) ≤ turns_of i es
    fewer stopped h = rw (h, worker_at-turn_at i j true s.workers) (own (i == j) enough)

rank_small : (w : Worker) → rank w ≤ 2
unfolding rank
rank_small calling = omega arith
rank_small at_test = omega arith
rank_small ended = omega arith

rank-ended : (w : Worker) → rank w ≡ 0 → w ≡ ended
unfolding rank
rank-ended calling h = absurd (omega (arith, h))
rank-ended at_test h = absurd (omega (arith, h))
rank-ended ended h = refl

length-turn_at :
    (i : ℕ) (stopped : Bool) (ws : List Worker) → length (turn_at i stopped ws) ≡ length ws
unfolding turn_at
length-turn_at i stopped [] = refl
length-turn_at zero stopped (w ∷ ws) = refl
length-turn_at (suc i) stopped (w ∷ ws) = omega (arith, length-turn_at i stopped ws)

pub length-run :
    (es : List StressEvent) (s : Stress) → length (run_events es s).workers ≡ length s.workers
unfolding run_events step_event
length-run [] s = refl
length-run (stop ∷ es) s = length-run es (step_event stop s)
length-run (turn i r ∷ es) s =
    length-run es (step_event (turn i r) s) ∙ length-turn_at i s.stop_flag s.workers

pub length-spawned : (n : ℕ) → length (spawned n) ≡ n
unfolding spawned
length-spawned zero = refl
length-spawned (suc n) = omega (arith, length-spawned n)

past_end : (i : ℕ) (ws : List Worker) → length ws ≤ i → worker_at i ws ≡ ended
unfolding worker_at
past_end i [] h = refl
past_end zero (w ∷ ws) h = absurd (omega (arith, h))
past_end (suc i) (w ∷ ws) h = past_end i ws (omega (arith, h))

pub all_end :
    (s : Stress) (fs : List StressEvent)
    → s.stop_flag ≡ true
    → ((i : ℕ) → i < length s.workers → 2 ≤ turns_of i fs)
    → (i : ℕ) → worker_at i (run_events fs s).workers ≡ ended
all_end s fs h turns i = elim (Bool-cases (ltb i (length s.workers))) [
  | inl inside ↦ rank-ended _ (
      rank_falls i fs s h (
        omega (
          arith,
          rank_small (worker_at i s.workers),
          turns i (ltb→lt i (length s.workers) inside),
        )))
  | inr outside ↦
      past_end i (run_events fs s).workers
        (omega (arith, length-run fs s, not_ltb→le i (length s.workers) outside))
]
