-- ===== src/Storage/Double.antt =====
-- The numbers of Lua scripts: a double holds every integer below 2^53, and rounds larger ones to
-- the nearest multiple of a power of two, to the even one of two that are equally near.
use sui_gas_pool.Prelude.{
  ℕ, zero, suc, ◌+◌, ◌*◌, ◌/◌, ◌%◌, ◌^◌, ◌<◌, ◌≡◌, ltb, if◌then◌else◌, arith,
}
use sui_gas_pool.Prelude.Int.{ℤ, pos, negsuc}

-- The distance of two neighbouring doubles at `n`: halve until 53 bits are left.
spacing_from : ℕ → ℕ → ℕ → ℕ
spacing_from zero n unit = unit
spacing_from (suc fuel) n unit =
    let wider = spacing_from fuel (n / 2) (unit * 2) in if ltb n (2 ^ 53) then unit else wider

spacing : ℕ → ℕ
unfolding spacing_from
spacing n = spacing_from (suc n) n 1

-- `n` to a multiple of `unit`.
round_to : ℕ → ℕ → ℕ
round_to unit n =
    let q = n / unit in
    let twice = n % unit * 2 in
    if ltb twice unit
    then q * unit
    else if ltb unit twice
    then (q + 1) * unit
    else (q + q % 2) * unit

unfoldable pub double : ℕ → ℕ
unfolding spacing round_to
double n = round_to (spacing n) n

unfoldable pub negate : ℕ → ℤ
negate zero = pos 0
negate (suc n) = negsuc n

unfoldable pub double_ℤ : ℤ → ℤ
unfolding double negate
double_ℤ (pos n) = pos (double n)
double_ℤ (negsuc n) = negate (double (suc n))

pub double_exact : (n : ℕ) → n < 2 ^ 53 → double n ≡ n
unfolding double
double_exact n h = ground arith

pub double_ℤ_exact : (n : ℕ) → n < 2 ^ 53 → double_ℤ (pos n) ≡ pos n
unfolding double_ℤ
double_ℤ_exact n h = ground (arith, double_exact n h)
