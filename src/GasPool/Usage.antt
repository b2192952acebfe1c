-- ===== src/GasPool/Usage.antt =====
-- The net gas usage of a transaction, and the coin that it leaves.
pub mod Balance
use sui_gas_pool.Prelude.{
  ℕ, ◌+◌, ◌^◌, ◌<◌, Bool, true, false, ◌==◌, ltb, if◌then◌else◌, Option, none, some, List, [], ◌∷◌,
  Result, ok, err, Error,
}
use sui_gas_pool.Prelude.Int.{ℤ, pos, magnitude, ◌+ℤ◌, ◌-ℤ◌, signed, unsigned, wrap_i64}
use sui_gas_pool.Types.{GasCoin}
use sui_gas_pool.Sui.{Owner, address_owner, other, BalanceChange, Effects}

unfoldable pub same_owner : Owner → Owner → Bool
same_owner (address_owner a) (address_owner b) = a == b
same_owner (other a) (other b) = a == b
same_owner (address_owner a) (other b) = false
same_owner (other a) (address_owner b) = false

-- The sum of the amounts of one owner, as an `i128`, which no sum of balances leaves.
unfoldable pub owner_total : Owner → List BalanceChange → ℤ
unfolding same_owner
owner_total o [] = pos 0
owner_total o (c ∷ cs) =
    let rest = owner_total o cs in if same_owner c.owner o then c.amount +ℤ rest else rest

-- `try_into` an `i64`, of an absolute value.
unfoldable pub to_i64 : ℕ → Result ℤ
to_i64 n = if ltb n (2 ^ 63) then ok (pos n) else err Error.usage_overflow

unfoldable pub net_usage : Bool → Effects → Option (List BalanceChange) → Result ℤ
unfolding owner_total to_i64
net_usage false effects changes = ok effects.net_gas_usage
net_usage true effects none = err Error.no_balance_changes
net_usage true effects (some changes) = to_i64 (magnitude (owner_total effects.gas_owner changes))

-- `total_gas_coin_balance as i64 - new_balance`, cast back.
unfoldable pub remaining : ℕ → ℤ → ℕ
remaining total usage = unsigned (wrap_i64 (signed total -ℤ usage))
