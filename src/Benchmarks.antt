-- ===== src/Benchmarks.antt =====
-- The statistics of a benchmark: src/benchmarks/mod.rs. The counters are words of 64 and 128 bits.
pub mod KmsStress
use sui_gas_pool.Prelude.{
  ℕ, ◌+◌, ◌-◌, ◌/◌, ◌%◌, ◌^◌, ◌<◌, ◌≤◌, ◌≡◌, refl, ap, ◌==◌, if◌then◌else◌, Bool, false, List, [],
  ◌∷◌, Result, ok, err, Error, length, arith, Bool-cases, inl, inr,
}

pub data BenchmarkMode : Type 0 where
  reserve_only reserve_and_execute : BenchmarkMode

pub record BenchmarkStatsPerSecond : Type 0 where
  pub num_requests : ℕ
  pub total_latency : ℕ
  pub num_errors : ℕ

unfoldable pub update_success : ℕ → BenchmarkStatsPerSecond → BenchmarkStatsPerSecond
update_success latency s = record s {
  num_requests = (s.num_requests + 1) % 2 ^ 64;
  total_latency = (s.total_latency + latency) % 2 ^ 128;
}

unfoldable pub update_error : BenchmarkStatsPerSecond → BenchmarkStatsPerSecond
update_error s = record s {
  num_requests = (s.num_requests + 1) % 2 ^ 64;
  num_errors = (s.num_errors + 1) % 2 ^ 64;
}

-- What a client's round comes to: whether coins were reserved, whether the transaction was executed,
-- and how long the round took.
pub record Round : Type 0 where
  pub reserved : Bool
  pub executed : Bool
  pub latency : ℕ

unfoldable pub after_round :
    BenchmarkMode → Round → BenchmarkStatsPerSecond → BenchmarkStatsPerSecond
unfolding update_success update_error
after_round reserve_only r s = if r.reserved then update_success r.latency s else update_error s
after_round reserve_and_execute r s =
    if r.reserved
    then (if r.executed then update_success r.latency s else update_error s)
    else update_error s

unfoldable pub after_rounds :
    BenchmarkMode → List Round → BenchmarkStatsPerSecond → BenchmarkStatsPerSecond
unfolding after_round
after_rounds mode [] s = s
after_rounds mode (r ∷ rs) s = after_rounds mode rs (after_round mode r s)

-- What is printed of the requests, the errors and the latency of a second: the average is over the
-- requests that were no errors. A division by zero panics.
unfoldable pub printed : ℕ → ℕ → ℕ → Result (ℕ × ℕ × ℕ)
printed requests errors latency =
    let served = (requests + 2 ^ 64 - errors) % 2 ^ 64 in
    if requests == 0
    then ok (requests, errors, 0)
    else if served == 0
    then err Error.panic
    else ok (requests, errors, latency / served)

-- The line that is printed every second, for what has come since the last one.
unfoldable pub report : BenchmarkStatsPerSecond → BenchmarkStatsPerSecond → Result (ℕ × ℕ × ℕ)
unfolding printed
report prev cur =
    printed ((cur.num_requests + 2 ^ 64 - prev.num_requests) % 2 ^ 64)
      ((cur.num_errors + 2 ^ 64 - prev.num_errors) % 2 ^ 64)
      ((cur.total_latency + 2 ^ 128 - prev.total_latency) % 2 ^ 128)

-- A round that was served: with a reservation, and in the second mode with an execution.
abbrev pub is_served : BenchmarkMode → Round → Bool
is_served reserve_only r = r.reserved
is_served reserve_and_execute r = if r.reserved then r.executed else false

abbrev pub served_count : BenchmarkMode → List Round → ℕ
served_count mode [] = 0
served_count mode (r ∷ rs) = (if is_served mode r then 1 else 0) + served_count mode rs

abbrev pub served_latency : BenchmarkMode → List Round → ℕ
served_latency mode [] = 0
served_latency mode (r ∷ rs) = (if is_served mode r then r.latency else 0) + served_latency mode rs

-- The average that a reader of the line expects.
abbrev pub expected : ℕ → ℕ → ℕ → Result (ℕ × ℕ × ℕ)
expected requests served latency =
    if requests == 0
    then ok (requests, requests - served, 0)
    else if served == 0
    then err Error.panic
    else ok (requests, requests - served, latency / served)

after_round-counts :
    (mode : BenchmarkMode) (r : Round) (s : BenchmarkStatsPerSecond)
    → s.num_requests + 1 < 2 ^ 64
    → s.num_errors ≤ s.num_requests
    → s.total_latency + (if is_served mode r then r.latency else 0) < 2 ^ 128
    → let t = after_round mode r s in
      (t.num_requests ≡ s.num_requests + 1)
      × (t.num_errors + (if is_served mode r then 1 else 0) ≡ s.num_errors + 1)
      × (t.total_latency ≡ s.total_latency + (if is_served mode r then r.latency else 0))
unfolding after_round update_success update_error
after_round-counts reserve_only r s h e l = elim (Bool-cases r.reserved) [
  | inl done ↦
      rw done
        (omega (arith, h), omega arith, omega (arith, l, ap (λ b. if b then r.latency else 0) done))
  | inr refused ↦ rw refused (omega (arith, h), omega (arith, h, e), omega (arith, l))
]
after_round-counts reserve_and_execute r s h e l = elim (Bool-cases r.reserved) [
  | inl there ↦ elim (Bool-cases r.executed) [
    | inl done ↦ rw there (
        rw done (
          omega (arith, h),
          omega arith,
          omega (
            arith,
            l,
            ap (λ b. if (if b then r.executed else false) then r.latency else 0) there,
            ap (λ b. if b then r.latency else 0) done,
          ),
        ))
    | inr refused ↦ rw there (rw refused (omega (arith, h), omega (arith, h, e), omega (arith, l)))
  ]
  | inr refused ↦ rw refused (omega (arith, h), omega (arith, h, e), omega (arith, l))
]

after_rounds-counts :
    (mode : BenchmarkMode) (rs : List Round) (s : BenchmarkStatsPerSecond)
    → s.num_requests + length rs < 2 ^ 64
    → s.num_errors ≤ s.num_requests
    → s.total_latency + served_latency mode rs < 2 ^ 128
    → let t = after_rounds mode rs s in
      (t.num_requests ≡ s.num_requests + length rs)
      × (t.num_errors + served_count mode rs ≡ s.num_errors + length rs)
      × (t.total_latency ≡ s.total_latency + served_latency mode rs)
unfolding after_rounds after_round update_success update_error
after_rounds-counts mode [] s h e l = (omega arith, omega arith, omega arith)
after_rounds-counts mode (r ∷ rs) s h e l =
    let one = after_round-counts mode r s (omega (arith, h)) e (omega (arith, l)) in
    let more =
      after_rounds-counts mode rs (after_round mode r s) (omega (arith, h, one.0))
        (omega (arith, e, one.0, one.1)) (omega (arith, l, one.2)) in
    (omega (arith, more.0, one.0), omega (arith, more.1, one.1), omega (arith, more.2, one.2))

served_count_le : (mode : BenchmarkMode) (rs : List Round) → served_count mode rs ≤ length rs
served_count_le mode [] = omega arith
served_count_le mode (r ∷ rs) = ground (arith, served_count_le mode rs)

printed_exact :
    (requests served latency : ℕ)
    → served ≤ requests
    → requests < 2 ^ 64
    → printed requests (requests - served) latency ≡ expected requests served latency
unfolding printed
printed_exact requests served latency few small = rw (back requests served few small) refl
  where
    back : (n k : ℕ) → k ≤ n → n < 2 ^ 64 → (n + 2 ^ 64 - (n - k)) % 2 ^ 64 ≡ k
    back n k h small = omega arith

-- While no counter overflows and no more errors than requests were counted before, the line printed
-- after some rounds has their number, the number of those that were not served, and the average
-- latency of those that were; where there were rounds and none was served, the task that prints the
-- line panics.
pub report_exact :
    (mode : BenchmarkMode) (rs : List Round) (s : BenchmarkStatsPerSecond)
    → s.num_requests + length rs < 2 ^ 64
    → s.num_errors ≤ s.num_requests
    → s.total_latency + served_latency mode rs < 2 ^ 128
    → report s (after_rounds mode rs s)
      ≡ expected (length rs) (served_count mode rs) (served_latency mode rs)
unfolding report
report_exact mode rs s h e l =
    let (requests, errors, latency) = after_rounds-counts mode rs s h e l in
    let few = served_count_le mode rs in
    let requests' : ((after_rounds mode rs s).num_requests + 2 ^ 64 - s.num_requests) % 2 ^ 64
        ≡ length rs =
      omega (arith, requests, h) in
    let errors' : ((after_rounds mode rs s).num_errors + 2 ^ 64 - s.num_errors) % 2 ^ 64
        ≡ length rs - served_count mode rs =
      omega (arith, errors, few, h, e) in
    let latency' : ((after_rounds mode rs s).total_latency + 2 ^ 128 - s.total_latency) % 2 ^ 128
        ≡ served_latency mode rs =
      omega (arith, latency, l) in
    rw (requests', errors', latency')
      (printed_exact (length rs) (served_count mode rs) (served_latency mode rs) few
        (omega (arith, h)))
