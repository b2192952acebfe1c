-- ===== src/Storage/Scripts.antt =====
-- The Lua scripts of src/storage/redis/lua_scripts, on the keys of one sponsor. Redis runs a script
-- alone and keeps what it wrote before an error.
pub mod Loop
pub mod Reserve
pub mod AddNew
pub mod Expire
pub mod Init
use sui_gas_pool.Prelude.{
  ℕ, zero, suc, ◌+◌, List, [], ◌∷◌, ◌++◌, Option, none, some, Bool, true, false, ltb, if◌then◌else◌,
  Error, ok, err, Action, ◌>>=◌, length, reverse,
}
use sui_gas_pool.Prelude.Int.{ℤ, pos, ◌+ℤ◌, ◌-ℤ◌}
use sui_gas_pool.Text.{Text, read_nat, cut, join}
use sui_gas_pool.Storage.Double.{double, double_ℤ}
use sui_gas_pool.Storage.Store.{
  Store, lookup, insert, erase, zadd, members_until, remove_until, incr,
}

abbrev pub Script : Type 0 → Type 0
Script A = Action Store A

-- `tonumber` of a field of digits; other texts are an error in the arithmetic that follows.
abbrev to_number : Text → Option ℕ
to_number t = elim (read_nat t) [ none ↦ none | some n ↦ some (double n) ]

-- The balance of a coin, before its first comma, and the object id, before its second.
pub read_balance : Text → Option ℕ
read_balance t = elim (cut t) [ none ↦ none | some (b, rest) ↦ to_number b ]

pub read_id : Text → Option Text
read_id t = elim (cut t) [
  | none ↦ none
  | some (b, rest) ↦ elim (cut rest) [ none ↦ none | some (i, more) ↦ some i ]
]

pub record Picked : Type 0 where
  pub total : ℕ
  pub coins : List Text
  pub object_ids : List Text

-- One round of the loop: the coin is popped before its fields are read.
pub add_coin : Text → Picked → Option Picked
unfolding read_balance read_id
add_coin t p = elim (read_balance t) [
  | none ↦ none
  | some b ↦ elim (read_id t) [
    | none ↦ none
    | some i ↦ some (record {
      total = double (p.total + b);
      coins = p.coins ++ t ∷ [];
      object_ids = p.object_ids ++ i ∷ [];
    })
  ]
]

-- `while total_balance < target_budget and #coins < MAX_GAS_PER_QUERY`: `room` is what is left of
-- the second bound, so the loop needs no other fuel.
pub take_coins : ℕ → ℕ → Picked → List Text → Option Picked × List Text
unfolding add_coin
take_coins zero target p available = (some p, available)
take_coins (suc room) target p [] = (some p, [])
take_coins (suc room) target p (t ∷ available) = elim (ltb p.total target) [
  | false ↦ (some p, t ∷ available)
  | true ↦ elim (add_coin t p) [
    | none ↦ (none, available)
    | some q ↦ take_coins room target q available
  ]
]

abbrev pub max_gas_per_query : ℕ
max_gas_per_query = 256

-- `LPUSH` of each, in the order of the list.
pub push_front_all : List Text → List Text → List Text
push_front_all [] available = available
push_front_all (t ∷ ts) available = push_front_all ts (t ∷ available)

pub record ReserveReply : Type 0 where
  pub reservation_id : ℕ
  pub coins : List Text
  pub new_total_balance : ℤ
  pub new_coin_count : ℤ

abbrev no_coins : ReserveReply
no_coins = record {
  reservation_id = 0;
  coins = [];
  new_total_balance = pos 0;
  new_coin_count = pos 0;
}

-- The statistics after the coins have been taken out.
pub take_stats : ℕ → ℕ → Script (ℤ × ℤ)
take_stats total count s = elim s.available_coin_total_balance [
  | none ↦ (err Error.script_failed, s)
  | some cur_total ↦
      let new_total = double_ℤ (cur_total -ℤ pos total) in
      let s₁ = record s { available_coin_total_balance = some new_total } in
      elim s.available_coin_count [
        | none ↦ (err Error.script_failed, s₁)
        | some cur_count ↦
            let new_count = double_ℤ (cur_count -ℤ pos count) in
            (ok (new_total, new_count), record s₁ { available_coin_count = some new_count })
      ]
]

-- A new reservation under the next id.
pub book : ℕ → Picked → ℤ × ℤ → Script ReserveReply
book expiration p (new_total, new_count) s = elim (incr s.next_reservation_id) [
  | none ↦ (err Error.script_failed, s)
  | some id ↦ (
    ok (record {
      reservation_id = id;
      coins = p.coins;
      new_total_balance = new_total;
      new_coin_count = new_count;
    }),
    record s {
      next_reservation_id = some id;
      reservations = insert id (join p.object_ids) s.reservations;
      expiration_queue = zadd (double expiration) id s.expiration_queue;
    },
  )
]

-- What follows the loop of `reserve_gas_coins.lua`.
pub settle : ℕ → ℕ → Picked → Script ReserveReply
unfolding push_front_all take_stats book
settle target expiration p s =
    if ltb p.total target
    then (
      ok no_coins,
      record s { available_gas_coins = push_front_all (reverse p.coins) s.available_gas_coins },
    )
    else (take_stats p.total (length p.coins) >>= book expiration p) s

abbrev nothing_picked : Picked
nothing_picked = record { total = 0; coins = []; object_ids = [] }

-- What the loop came to, over the list that it left.
pub finish_loop : ℕ → ℕ → Option Picked × List Text → Script ReserveReply
unfolding settle
finish_loop target expiration (none, rest) s =
    (err Error.script_failed, record s { available_gas_coins = rest })
finish_loop target expiration (some p, rest) s =
    settle target expiration p (record s { available_gas_coins = rest })

-- `reserve_gas_coins.lua`
unfoldable pub reserve_script : ℕ → ℕ → Script ReserveReply
unfolding take_coins finish_loop
reserve_script target expiration s =
    finish_loop (double target) expiration
      (take_coins max_gas_per_query (double target) nothing_picked s.available_gas_coins) s

-- The loop of `add_new_coins.lua`: the sum of the balances, and the list with the coins at its end.
pub push_coins : List Text → ℕ → List Text → Option ℕ × List Text
unfolding read_balance
push_coins [] total available = (some total, available)
push_coins (t ∷ ts) total available = elim (read_balance t) [
  | none ↦ (none, available)
  | some b ↦ push_coins ts (double (total + b)) (available ++ t ∷ [])
]

-- The statistics after the coins have been put in.
pub add_stats : ℕ → ℕ → Script (ℤ × ℤ)
add_stats total count s = elim s.available_coin_total_balance [
  | none ↦ (err Error.script_failed, s)
  | some cur_total ↦
      let new_total = double_ℤ (cur_total +ℤ pos total) in
      let s₁ = record s { available_coin_total_balance = some new_total } in
      elim s.available_coin_count [
        | none ↦ (err Error.script_failed, s₁)
        | some cur_count ↦
            let new_count = double_ℤ (cur_count +ℤ pos count) in
            (ok (new_total, new_count), record s₁ { available_coin_count = some new_count })
      ]
]

-- What follows the loop of `add_new_coins.lua`: the flag is set if a coin was added.
pub finish_add : ℕ → Option ℕ × List Text → Script (ℤ × ℤ)
unfolding add_stats
finish_add count (none, available) s =
    (err Error.script_failed, record s { available_gas_coins = available })
finish_add count (some total, available) s = add_stats total count (record s {
  available_gas_coins = available;
  initialized = if ltb 0 count then true else s.initialized;
})

-- `add_new_coins.lua`, from the decoded list of coins on.
unfoldable pub add_script : List Text → Script (ℤ × ℤ)
unfolding push_coins finish_add
add_script new_coins s =
    finish_add (length new_coins) (push_coins new_coins 0 s.available_gas_coins) s

-- `ready_for_execution.lua`
unfoldable pub ready_script : ℕ → Script (Unit {0})
ready_script id s = elim (lookup id s.reservations) [
  | none ↦ (err Error.reservation_gone, s)
  | some ids ↦ (ok tt, record s { reservations = erase id s.reservations })
]

-- The loop of `expire_coins.lua` over the ids whose time has passed.
pub collect : List ℕ → List (ℕ × Text) → List Text × List (ℕ × Text)
collect [] m = ([], m)
collect (id ∷ ids) m = elim (lookup id m) [
  | none ↦ collect ids m
  | some t ↦ let (ts, m') = collect ids (erase id m) in (t ∷ ts, m')
]

-- `expire_coins.lua`
unfoldable pub expire_script : ℕ → Script (List Text)
unfolding collect
expire_script now s =
    let until = double now in
    let (texts, left) = collect (members_until until s.expiration_queue) s.reservations in
    (
      ok texts,
      record s { reservations = left; expiration_queue = remove_until until s.expiration_queue },
    )
