-- ===== src/Tests/Metering.antt =====
-- The metrics at concrete values: a registry that is a list of names.
use sui_gas_pool.Prelude.{
  ◌≡◌, refl, Bool, true, false, ◌||◌, List, [], ◌∷◌, ◌++◌, ok, err, Error, is_panic, Action,
  if◌then◌else◌, arith, Bool-cases, inl, inr, All,
}
use sui_gas_pool.Text.{Text}
use sui_gas_pool.Rpc.{Texts, ReserveGasRequest}
use sui_gas_pool.Rpc.Health.{same_text}
use sui_gas_pool.Rpc.Routes.{Surroundings, Request, get_health, post_reserve_gas}
use sui_gas_pool.Metrics.{Prometheus, Metric, no_requests, codes}
use sui_gas_pool.Metrics.Fresh.{begins, name_of, IsFree, IsPrometheus}
use sui_gas_pool.Metrics.Requests.{metered_all}
use sui_gas_pool.Metrics.Requests.Exact.{metered_all-IsExact}
use sui_gas_pool.Metrics.Requests.Tally.{InRange, IsExact}
use sui_gas_pool.Tests.{parts, pool, tx, node}

member : Text → List Text → Bool
member k [] = false
member k (t ∷ ts) = same_text t k || member k ts

add : Text → Action (List Text) (Unit {0})
add n r = if member n r then (err Error.remote, r) else (ok tt, n ∷ r)

abbrev sum_of : Text → Text
sum_of n = n ++ codes "_sum"

add_sum : Text → Action (List Text) (Unit {0})
unfolding add
add_sum n r = add (sum_of n) r

abbrev names : Prometheus
names = record { Registry = List Text; has = member; register = add; new_in_registry = add_sum }

begins-append : (n t : Text) → begins n (n ++ t) ≡ true
unfolding begins
begins-append [] t = refl
begins-append (c ∷ n) t = ground (arith, begins-append n t)

not_same : (n t k : Text) → begins n k ≡ false → same_text (n ++ t) k ≡ false
unfolding begins same_text
not_same [] t k h = cc
not_same (c ∷ n) t [] h = refl
not_same (c ∷ n) t (d ∷ k) h = ground (arith, not_same n t k)

not_same_nil : (n k : Text) → begins n k ≡ false → same_text n k ≡ false
unfolding begins same_text
not_same_nil [] k h = cc
not_same_nil (c ∷ n) [] h = refl
not_same_nil (c ∷ n) (d ∷ k) h = ground (arith, not_same_nil n k)

member-add :
    (n k : Text) (r : List Text) → same_text n k ≡ false → member k (add n r).1 ≡ member k r
unfolding add member
member-add n k r other = elim (Bool-cases (member n r)) [
  | inl old ↦ rw old refl
  | inr new ↦ rw (new, other) refl
]

names-IsPrometheus : IsPrometheus names
unfolding add_sum add
names-IsPrometheus = record {
  register_ok = λ n r h. rw h refl;
  register_has = λ n k r h. member-add n k r (not_same_nil n k h);
  histogram_ok = λ n r free. rw (free (sum_of n) (begins-append n (codes "_sum"))) refl;
  histogram_has = λ n k r h. member-add (sum_of n) k r (not_same n (codes "_sum") k h);
}

nothing_yet : (ms : List Metric) → All (λ m. IsFree names [] (name_of m)) ms
unfolding member
nothing_yet [] = tt
nothing_yet (m ∷ ms) = ((λ k h. refl), nothing_yet ms)

abbrev phrases : Texts
phrases = record {
  to_string = λ e. if is_panic e then 1 ∷ [] else 5 ∷ [];
  invalid_token = 2 ∷ [];
  invalid_bytes = 3 ∷ [];
  unknown_error = 4 ∷ [];
}

distinct :
    (e : Error) → same_text (phrases.to_string e) (phrases.to_string Error.panic) ≡ is_panic e
unfolding same_text
distinct e = elim (Bool-cases (is_panic e)) [
  | inl panics ↦ rw panics refl
  | inr fails ↦ rw fails refl
]

no_requests-InRange : InRange no_requests
no_requests-InRange = record {
  reserve_asked_fits = omega arith;
  reserve_authorized_fits = omega arith;
  reserve_successful_fits = omega arith;
  reserve_failed_fits = omega arith;
  execute_asked_fits = omega arith;
  execute_authorized_fits = omega arith;
  execute_successful_fits = omega arith;
  execute_failed_fits = omega arith;
}

abbrev around_here : Surroundings
around_here = record {
  today = 5;
  now = 60;
  tx_of = λ t. ok tx;
  sig_of = λ t. ok 70;
  before = node;
  after = node;
  health_tx = λ refs n. tx;
  debug = λ e. [];
}

abbrev asked : ReserveGasRequest
asked = record { gas_budget = 6; reserve_duration_secs = 600 }

-- A request with the secret, one for more than there is, one without the secret, and a health check.
abbrev session : List (Surroundings × Request)
session =
    (around_here, post_reserve_gas 2 asked)
    ∷ (around_here, post_reserve_gas 2 (record asked { gas_budget = 60 }))
    ∷ (around_here, post_reserve_gas 1 asked)
    ∷ (around_here, get_health)
    ∷ []

metered_all-IsExact_example :
    let (es, s) = metered_all parts phrases 2 [] session (pool, no_requests) in
    IsExact 2 (1 ∷ []) es no_requests s.1
metered_all-IsExact_example =
    metered_all-IsExact parts phrases 2 distinct [] session pool no_requests no_requests-InRange
