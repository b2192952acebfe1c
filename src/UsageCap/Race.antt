-- ===== src/UsageCap/Race.antt =====
-- The same calls under interleaving: `reset_date_maybe` reads the date under one lock and resets it
-- under another, and the usage is added under a third.
use sui_gas_pool.Prelude.{
  ℕ, ◌==◌, if◌then◌else◌, Bool, not, List, [], ◌∷◌, ◌≡◌, ◌≢◌, arith, ==_self, ==_ne,
}
use sui_gas_pool.Prelude.Int.{ℤ, pos, ◌+ℤ◌, wrap_i64}
use sui_gas_pool.UsageCap.{
  GasUsageCap, GasUsageCapInner, reset_date, reset_date_maybe, add_usage, update_usage,
}

-- What a task does at once. Tasks are numbered.
pub data Event : Type 0 where
  observes : ℕ → Event
  resets : ℕ → Event
  adds : ℤ → Event

-- The shared state, and which tasks saw another date than today's.
pub record Shared : Type 0 where
  pub inner : GasUsageCapInner
  pub stale : ℕ → Bool

unfoldable pub step : ℕ → Event → Shared → Shared
step today (observes k) s = record s {
  stale = λ j. if j == k then not (s.inner.cur_date == today) else s.stale j;
}
step today (resets k) s = if s.stale k then record s { inner = reset_date today s.inner } else s
step today (adds u) s = record s { inner = add_usage u s.inner }

unfoldable pub run : ℕ → List Event → Shared → Shared
unfolding step
run today [] s = s
run today (e ∷ es) s = run today es (step today e s)

-- The three events of a task, run alone, leave the usage and the date as the call `update_usage` does.
pub run-update_usage :
    (today k : ℕ) (u : ℤ) (c : GasUsageCap) (stale : ℕ → Bool)
    → (run today
        (observes k ∷ resets k ∷ adds u ∷ [])
        (record { inner = c.inner; stale = stale })).inner
      ≡ (update_usage today u c).1.inner
unfolding run update_usage reset_date_maybe
run-update_usage today k u c stale = ground (arith, ==_self k)

-- If two tasks read a date that is not today's before either resets it, the reset of the second erases what the first
-- has added: after both calls only the usage of the second is counted.
pub reset_loses_update :
    (today a b : ℕ) (u v : ℤ) (s : Shared)
    → a ≢ b
    → s.inner.cur_date ≢ today
    → (run today (observes a ∷ observes b ∷ resets a ∷ adds u ∷ resets b ∷ adds v ∷ []) s).inner
      ≡ record { cur_daily_usage = wrap_i64 (pos 0 +ℤ v); cur_date = today }
unfolding run reset_date add_usage
reset_loses_update today a b u v s ne old = ground (arith, ==_self a, ==_self b, ==_ne a b)
