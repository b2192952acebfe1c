-- ===== src/GasPool/Usage/Balance.antt =====
-- The balance that the pool computes for its coin after a transaction.
use sui_gas_pool.Prelude.{
  ℕ, ◌+◌, ◌-◌, ◌^◌, ◌<◌, ◌≤◌, ◌≡◌, ap, ◌∙◌, sym, true, some, List, ok, arith,
}
use sui_gas_pool.Prelude.Int.{
  ℤ, pos, pos_part, magnitude, ◌-ℤ◌, ◌≤ℤ◌, signed, unsigned, wrap_i64, wrap_i64_exact, unsigned-pos,
}
use sui_gas_pool.Sui.{BalanceChange, Effects}
use sui_gas_pool.GasPool.Usage.{owner_total, net_usage, to_i64, remaining}

difference :
    (total : ℕ) (usage : ℤ)
    → usage ≤ℤ pos total
    → pos (pos_part (pos total -ℤ usage)) ≡ pos total -ℤ usage
unfolding ◌-ℤ◌
difference total usage h = ground arith

-- If the balance is below 2^63, the usage is not more than it and the difference is below 2^63, the
-- balance that is left is the difference: also when the usage is negative, a rebate.
pub remaining_exact :
    (total : ℕ) (usage : ℤ)
    → total < 2 ^ 63
    → usage ≤ℤ pos total
    → pos_part (pos total -ℤ usage) < 2 ^ 63
    → pos (remaining total usage) ≡ pos total -ℤ usage
unfolding remaining
remaining_exact total usage small h fits =
    ap (λ t. pos (unsigned (wrap_i64 (t -ℤ usage)))) signed_total
    ∙ ap (λ t. pos (unsigned (wrap_i64 t))) (sym d)
    ∙ ap (λ t. pos (unsigned t)) (wrap_i64_exact (pos n) (fits, omega arith))
    ∙ ap pos (unsigned-pos n (omega arith))
    ∙ d
  where
    n : ℕ
    n = pos_part (pos total -ℤ usage)

    d : pos n ≡ pos total -ℤ usage
    d = difference total usage h

    signed_total : signed total ≡ pos total
    signed_total = unfold signed in ground arith

-- The same for a usage that is paid.
pub remaining_less :
    (total used : ℕ) → total < 2 ^ 63 → used ≤ total → remaining total (pos used) + used ≡ total
remaining_less total used small h = omega (arith, difference_left)
  where
    left : pos_part (pos total -ℤ pos used) ≡ total - used
    left = unfold ◌-ℤ◌ in ground arith

    difference_left : pos_part (pos (remaining total (pos used))) ≡ total - used
    difference_left =
        ap pos_part (remaining_exact total (pos used) small (omega arith) (omega (arith, left)))
        ∙ left

-- In the faucet mode, a transaction that adds to the coins of the sponsor, by no more than a balance
-- below 2^63, counts as one that takes as much: the balance that the pool computes is smaller by the gain, not larger.
pub net_usage_gain :
    (effects : Effects) (changes : List BalanceChange) (total gain : ℕ)
    → total < 2 ^ 63
    → gain ≤ total
    → owner_total effects.gas_owner changes ≡ pos gain
    → (net_usage true effects (some changes) ≡ ok (pos gain))
      × (remaining total (pos gain) + gain ≡ total)
unfolding net_usage to_i64
net_usage_gain effects changes total gain small h gained =
    (ground (arith, ap magnitude gained), remaining_less total gain small h)
