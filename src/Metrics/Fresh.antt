-- ===== src/Metrics/Fresh.antt =====
-- The start registers its metrics without a panic.
use mathlib.Core.Path.{fun_ext}
use sui_gas_pool.Prelude.{
  ◌≡◌, refl, ap, ◌∙◌, sym, Bool, true, false, ◌&&◌, ◌||◌, not, List, [], ◌∷◌, ◌++◌, Result, ok, err,
  Action, unwrap, unwrapped, resume, ◌>>◌, ◌==◌, All, arith, Bool-cases, inl, inr,
}
use sui_gas_pool.Text.{Text}
use sui_gas_pool.Metrics.{
  codes, Prometheus, Metric, counter, gauge, histogram, register_one, register_all, start_metrics,
  rpc_metrics, core_metrics, storage_metrics,
}

-- A text begins with another.
unfoldable pub begins : Text → Text → Bool
begins [] t = true
begins (c ∷ s) [] = false
begins (c ∷ s) (d ∷ t) = (c == d) && begins s t

begins_self : (t : Text) → begins t t ≡ true
unfolding begins
begins_self [] = refl
begins_self (c ∷ t) = ground (arith, begins_self t)

-- Two beginnings of one text are beginnings of each other.
begins_both :
    (s t k : Text) → begins s k ≡ true → begins t k ≡ true → (begins s t || begins t s) ≡ true
unfolding begins
begins_both [] t k h h' = refl
begins_both (c ∷ s) [] k h h' = refl
begins_both (c ∷ s) (d ∷ t) [] h h' = cc
begins_both (c ∷ s) (d ∷ t) (e ∷ k) h h' = ground (arith, begins_both s t k)

abbrev pub name_of : Metric → Text
name_of (counter name) = codes name
name_of (gauge name) = codes name
name_of (histogram name) = codes name

apart_from : Text → List Metric → Bool
apart_from n [] = true
apart_from n (m ∷ ms) = not (begins n (name_of m) || begins (name_of m) n) && apart_from n ms

-- No name is the beginning of another.
all_apart : List Metric → Bool
all_apart [] = true
all_apart (m ∷ ms) = apart_from (name_of m) ms && all_apart ms

module _ (prometheus : Prometheus) where
  open prometheus use {Registry, has, register, new_in_registry}

  -- Nothing is registered under a name that begins with this one.
  abbrev pub IsFree : Registry → Text → Type 0
  IsFree r n = (k : Text) → begins n k ≡ true → has k r ≡ false

  -- A name that is free can be registered, and nothing else is registered with it; what a histogram
  -- registers begins with its name, and it can be made if nothing is registered under such a name.
  pub record IsPrometheus : Type 0 where
    pub register_ok : (n : Text) (r : Registry) → has n r ≡ false → (register n r).0 ≡ ok tt
    pub register_has :
        (n k : Text) (r : Registry) → begins n k ≡ false → has k (register n r).1 ≡ has k r
    pub histogram_ok : (n : Text) (r : Registry) → IsFree r n → (new_in_registry n r).0 ≡ ok tt
    pub histogram_has :
        (n k : Text) (r : Registry) → begins n k ≡ false → has k (new_in_registry n r).1 ≡ has k r

  module _ (laws : IsPrometheus) where
    one_ok :
        (m : Metric) (r : Registry) → IsFree r (name_of m) → (register_one prometheus m r).0 ≡ ok tt
    unfolding register_one
    one_ok (counter name) r free = laws.register_ok _ r (free _ (begins_self _))
    one_ok (gauge name) r free = laws.register_ok _ r (free _ (begins_self _))
    one_ok (histogram name) r free = laws.histogram_ok _ r free

    one_has :
        (m : Metric) (k : Text) (r : Registry)
        → begins (name_of m) k ≡ false
        → has k (register_one prometheus m r).1 ≡ has k r
    unfolding register_one
    one_has (counter name) k r h = laws.register_has _ k r h
    one_has (gauge name) k r h = laws.register_has _ k r h
    one_has (histogram name) k r h = laws.histogram_has _ k r h

    one_IsFree :
        (m : Metric) (n : Text) (r : Registry)
        → (begins (name_of m) n || begins n (name_of m)) ≡ false
        → IsFree r n
        → IsFree (register_one prometheus m r).1 n
    one_IsFree m n r apart free k h = elim (Bool-cases (begins (name_of m) k)) [
      | inl both ↦ cc (begins_both (name_of m) n k both h)
      | inr other ↦ one_has m k r other ∙ free k h
    ]

    abbrev AllFree : Registry → List Metric → Type 0
    AllFree r ms = All (λ m. IsFree r (name_of m)) ms

    one_AllFree :
        (m : Metric) (ms : List Metric) (r : Registry)
        → apart_from (name_of m) ms ≡ true
        → AllFree r ms
        → AllFree (register_one prometheus m r).1 ms
    unfolding apart_from
    one_AllFree m [] r apart free = tt
    one_AllFree m (n ∷ ms) r apart free = (
      one_IsFree m (name_of n) r (ground (arith, apart)) free.0,
      one_AllFree m ms r (ground (arith, apart)) free.1,
    )

    register_all-ok :
        (ms : List Metric) (r : Registry)
        → all_apart ms ≡ true
        → AllFree r ms
        → (register_all prometheus ms r).0 ≡ ok tt
    unfolding register_all all_apart
    register_all-ok [] r apart free = refl
    register_all-ok (m ∷ ms) r apart free =
        ap
          (λ x.
            (resume (λ u. register_all prometheus ms)
              (unwrap x, (register_one prometheus m r).1)).0)
          (one_ok m r free.0)
        ∙ register_all-ok ms (register_one prometheus m r).1 (ground (arith, apart))
            (one_AllFree m ms r (ground (arith, apart)) free.1)

    follow :
        (f g h : Action Registry (Unit {0}))
        → ((s : Registry) → f s ≡ (g >> h) s)
        → (x : Result (Unit {0}) × Registry)
        → resume (λ u. f) x ≡ resume (λ v. h) (resume (λ u. g) x)
    follow f g h same (ok u, s) = same s
    follow f g h same (err e, s) = refl

    register_all-append :
        (ms ns : List Metric) (r : Registry)
        → register_all prometheus (ms ++ ns) r
          ≡ (register_all prometheus ms >> register_all prometheus ns) r
    unfolding register_all
    register_all-append [] ns r = refl
    register_all-append (m ∷ ms) ns r =
        follow (register_all prometheus (ms ++ ns)) (register_all prometheus ms)
          (register_all prometheus ns) (register_all-append ms ns)
          (unwrapped (register_one prometheus m) r)

    -- The metrics of the storage, of the pool and of the HTTP interface, in the order of the start.
    abbrev pub station_metrics : List Metric
    station_metrics = storage_metrics ++ (core_metrics ++ rpc_metrics)

    station_metrics-apart : all_apart station_metrics ≡ true
    unfolding all_apart apart_from begins
    station_metrics-apart = refl

    start_metrics-register_all :
        (r : Registry) → start_metrics prometheus r ≡ register_all prometheus station_metrics r
    unfolding start_metrics
    start_metrics-register_all r =
        ap (λ (f : Action Registry (Unit {0})). (register_all prometheus storage_metrics >> f) r)
          (fun_ext (λ s. sym (register_all-append core_metrics rpc_metrics s)))
        ∙ sym (register_all-append storage_metrics (core_metrics ++ rpc_metrics) r)

    -- On a registry in which nothing is registered under a name that begins with one of the station's,
    -- the start registers all metrics of the storage, the pool and the HTTP interface without a panic.
    pub start_metrics_ok :
        (r : Registry)
        → All (λ m. IsFree r (name_of m)) station_metrics
        → (start_metrics prometheus r).0 ≡ ok tt
    start_metrics_ok r free =
        ap (λ x. x.0) (start_metrics-register_all r)
        ∙ register_all-ok station_metrics r station_metrics-apart free
