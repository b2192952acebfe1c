-- ===== src/UsageCap.antt =====
-- The daily cap on gas usage: src/gas_pool/gas_usage_cap.rs. A date is a number, and the day on which a
-- call runs is an argument of it.
pub mod Daily
pub mod Race
use sui_gas_pool.Prelude.{
  ℕ, ◌==◌, if◌then◌else◌, Bool, true, false, not, Result, ok, err, Error, Action, List, [], ◌∷◌,
}
use sui_gas_pool.Prelude.Int.{ℤ, pos, ◌+ℤ◌, leb_ℤ, signed, wrap_i64}

pub record GasUsageCapInner : Type 0 where
  pub cur_daily_usage : ℤ
  pub cur_date : ℕ

pub record GasUsageCap : Type 0 where
  pub daily_cap : ℕ
  pub inner : GasUsageCapInner

-- `GasUsageCap::new`
unfoldable pub new : ℕ → ℕ → GasUsageCap
new daily_cap today = record {
  daily_cap = daily_cap;
  inner = record { cur_daily_usage = pos 0; cur_date = today };
}

unfoldable pub reset_date : ℕ → GasUsageCapInner → GasUsageCapInner
reset_date new_date inner = record inner { cur_date = new_date; cur_daily_usage = pos 0 }

unfoldable pub reset_date_maybe : ℕ → GasUsageCap → GasUsageCap
unfolding reset_date
reset_date_maybe today c =
    if c.inner.cur_date == today then c else record c { inner = reset_date today c.inner }

-- `daily_cap as i64`
unfoldable pub exceeds : GasUsageCap → Bool
exceeds c = leb_ℤ (signed c.daily_cap) c.inner.cur_daily_usage

unfoldable pub check_usage : ℕ → Action GasUsageCap (Unit {0})
unfolding reset_date_maybe exceeds
check_usage today c =
    let c' = reset_date_maybe today c in
    (if exceeds c' then err Error.daily_cap_exceeded else ok tt, c')

-- `inner.cur_daily_usage += usage`
unfoldable pub add_usage : ℤ → GasUsageCapInner → GasUsageCapInner
add_usage usage inner = record inner { cur_daily_usage = wrap_i64 (inner.cur_daily_usage +ℤ usage) }

unfoldable pub update_usage : ℕ → ℤ → GasUsageCap → ℤ × GasUsageCap
unfolding reset_date_maybe add_usage
update_usage today usage c =
    let c' = reset_date_maybe today c in
    let inner = add_usage usage c'.inner in (inner.cur_daily_usage, record c' { inner = inner })
