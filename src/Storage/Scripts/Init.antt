-- ===== src/Storage/Scripts/Init.antt =====
-- The scripts of the start: the initializer's lock and the statistics.
use sui_gas_pool.Prelude.{
  ℕ, ◌+◌, List, [], ◌∷◌, Option, none, some, Bool, true, false, ltb, if◌then◌else◌, Error, ok, err,
  length,
}
use sui_gas_pool.Prelude.Int.{ℤ, pos}
use sui_gas_pool.Text.{Text, cut}
use sui_gas_pool.Storage.Double.{double}
use sui_gas_pool.Storage.Store.{Store}
use sui_gas_pool.Storage.Scripts.{Script}

-- `acquire_init_lock.lua`
unfoldable pub acquire_lock_script : ℕ → ℕ → Script Bool
acquire_lock_script now duration s =
    let taken = record s { init_lock = some (double (double now + double duration)) } in
    elim s.init_lock [
      | none ↦ (ok true, taken)
      | some t ↦ if ltb t (double now) then (ok true, taken) else (ok false, s)
    ]

-- `release_init_lock.lua`
unfoldable pub release_lock_script : Script (Unit {0})
release_lock_script s = (ok tt, record s { init_lock = some 0 })

-- The start-up scan of the balances. `to_integer` is `math.tointeger`, which belongs to Lua's
-- library from version 5.3 on; `none` is a call that fails.
pub scan_balances : (Text → Option ℕ) → List Text → ℕ → Option ℕ
scan_balances to_integer [] total = some total
scan_balances to_integer (t ∷ ts) total = elim (cut t) [
  | none ↦ none
  | some (b, rest) ↦ elim (to_integer b) [
    | none ↦ none
    | some n ↦ scan_balances to_integer ts (double (total + n))
  ]
]

pub init_count : Store → Store × ℤ
init_count s = elim s.available_coin_count [
  | some n ↦ (s, n)
  | none ↦
      let n = pos (length s.available_gas_coins) in (record s { available_coin_count = some n }, n)
]

-- `init_coin_stats_at_startup.lua`
unfoldable pub init_stats_script : (Text → Option ℕ) → Script (ℤ × ℤ)
unfolding scan_balances init_count
init_stats_script to_integer s =
    let (s₁, count) = init_count s in
    elim s₁.available_coin_total_balance [
      | some total ↦ (ok (count, total), s₁)
      | none ↦ elim (scan_balances to_integer s₁.available_gas_coins 0) [
        | none ↦ (err Error.script_failed, s₁)
        | some n ↦ (ok (count, pos n), record s₁ { available_coin_total_balance = some (pos n) })
      ]
    ]
