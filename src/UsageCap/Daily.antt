-- ===== src/UsageCap/Daily.antt =====
-- The usage of a day, one call after the other.
use sui_gas_pool.Prelude.{
  ℕ, ◌+◌, ◌^◌, ◌≤◌, ◌<◌, ◌≡◌, ◌≢◌, refl, ap, ◌∙◌, List, [], ◌∷◌, ok, err, Error, arith,
  if◌then◌else◌,
}
use sui_gas_pool.Prelude.Int.{
  ℤ, pos, pos_part, neg_part, magnitude, ◌+ℤ◌, int_laws, leb_ℤ, ◌≤ℤ◌, signed, wrap_i64,
  wrap_i64_exact,
}
use sui_gas_pool.UsageCap.{
  GasUsageCap, new, reset_date, reset_date_maybe, check_usage, update_usage, add_usage,
}

-- Transactions that report their usage one after the other on one day.
unfoldable pub update_all : ℕ → List ℤ → GasUsageCap → GasUsageCap
update_all today [] c = c
update_all today (u ∷ us) c = update_all today us (update_usage today u c).1

abbrev pub net : List ℤ → ℤ
net [] = pos 0
net (u ∷ us) = u +ℤ net us

abbrev pub turnover : List ℤ → ℕ
turnover [] = 0
turnover (u ∷ us) = magnitude u + turnover us

abbrev with_usage : GasUsageCap → ℤ → GasUsageCap
with_usage c v = record c { inner = record c.inner { cur_daily_usage = v } }

add_exact : (a b : ℤ) → magnitude a + magnitude b < 2 ^ 63 → wrap_i64 (a +ℤ b) ≡ a +ℤ b
add_exact a b h = wrap_i64_exact (a +ℤ b) (omega (arith, fits_pos), omega (arith, fits_neg))
  where
    fits_pos : pos_part (a +ℤ b) < 2 ^ 63
    fits_pos = unfold ◌+ℤ◌ in ground arith

    fits_neg : neg_part (a +ℤ b) < 2 ^ 63
    fits_neg = unfold ◌+ℤ◌ in ground arith

magnitude-+ℤ-le : (a b : ℤ) → magnitude (a +ℤ b) ≤ magnitude a + magnitude b
unfolding ◌+ℤ◌
magnitude-+ℤ-le a b = ground arith

pub update_usage_same_day :
    (today : ℕ) (u : ℤ) (c : GasUsageCap)
    → c.inner.cur_date ≡ today
    → magnitude c.inner.cur_daily_usage + magnitude u < 2 ^ 63
    → (update_usage today u c).1
      ≡ record c { inner = record c.inner { cur_daily_usage = c.inner.cur_daily_usage +ℤ u } }
unfolding update_usage reset_date_maybe add_usage
update_usage_same_day today u c e h = ground (arith, add_exact c.inner.cur_daily_usage u h)

update_all_same_day :
    (today : ℕ) (us : List ℤ) (c : GasUsageCap)
    → c.inner.cur_date ≡ today
    → magnitude c.inner.cur_daily_usage + turnover us < 2 ^ 63
    → update_all today us c
      ≡ record c { inner = record c.inner { cur_daily_usage = c.inner.cur_daily_usage +ℤ net us } }
unfolding update_all
update_all_same_day today [] c e h = ap (with_usage c) same
  where
    same : c.inner.cur_daily_usage ≡ c.inner.cur_daily_usage +ℤ pos 0
    same = omega int_laws
update_all_same_day today (u ∷ us) c e h = rw (update_usage_same_day today u c e (omega arith)) (
    update_all_same_day today us (with_usage c (c.inner.cur_daily_usage +ℤ u)) e
      (omega (arith, magnitude-+ℤ-le c.inner.cur_daily_usage u))
    ∙ ap (with_usage c) regroup)
  where
    regroup : c.inner.cur_daily_usage +ℤ u +ℤ net us ≡ c.inner.cur_daily_usage +ℤ (u +ℤ net us)
    regroup = omega int_laws

-- On the day on which it was made, a cap below 2^63 refuses a request exactly when the net usage that
-- was reported is at least the cap, if the amounts reported add up to less than 2^63.
pub check_usage-update_all :
    (cap today : ℕ) (us : List ℤ)
    → cap < 2 ^ 63
    → turnover us < 2 ^ 63
    → (check_usage today (update_all today us (new cap today))).0
      ≡ (if leb_ℤ (pos cap) (net us) then err Error.daily_cap_exceeded else ok tt)
unfolding check_usage new
check_usage-update_all cap today us small few =
    rw (update_all_same_day today us (new cap today) refl (omega arith))
      (ground (arith, counted, in_i64))
  where
    counted : pos 0 +ℤ net us ≡ net us
    counted = omega int_laws

    in_i64 : signed cap ≡ pos cap
    in_i64 = unfold signed in ground arith

-- A call on another day than the one on record starts the count again from zero, so that a cap between
-- 1 and 2^63 - 1 admits the request.
pub check_usage_new_day :
    (today : ℕ) (c : GasUsageCap)
    → c.inner.cur_date ≢ today
    → 0 < c.daily_cap
    → c.daily_cap < 2 ^ 63
    → check_usage today c
      ≡ (ok tt, record c { inner = record { cur_daily_usage = pos 0; cur_date = today } })
unfolding check_usage reset_date signed
check_usage_new_day today c other positive small = ground arith

-- A cap of 2^63 or more is cast to a negative number: it refuses every request of a day whose usage is
-- not negative, the first request of a day included.
pub check_usage_large_cap :
    (today : ℕ) (c : GasUsageCap)
    → 2 ^ 63 ≤ c.daily_cap
    → c.daily_cap < 2 ^ 64
    → pos 0 ≤ℤ c.inner.cur_daily_usage
    → (check_usage today c).0 ≡ err Error.daily_cap_exceeded
unfolding check_usage reset_date signed
check_usage_large_cap today c large word nonneg = ground arith
