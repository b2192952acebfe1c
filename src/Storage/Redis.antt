-- ===== src/Storage/Redis.antt =====
-- The methods of `RedisStorage`: src/storage/redis/mod.rs. The clock is an argument of each call that
-- reads it. The metrics and the log are left out, and the connection is up.
pub mod Reserve
pub mod AddNew
pub mod Expire
pub mod Cycle
pub mod OnTime
pub mod Lock
pub mod Startup
pub mod Count
use sui_gas_pool.Prelude.{
  ℕ, ◌+◌, ◌%◌, ◌^◌, List, [], ◌∷◌, ◌++◌, map, Option, none, some, Bool, ltb, if◌then◌else◌, Result,
  Error, ok, err, Action, pure, lift, or_raise, ◌>>=◌, and_then, is_empty,
}
use sui_gas_pool.Prelude.Int.{ℤ, pos, negsuc, unsigned}
use sui_gas_pool.Text.{Text, split}
use sui_gas_pool.Types.{ObjectId, GasCoin, ReservationId}
use sui_gas_pool.Storage.Store.{Store}
use sui_gas_pool.Storage.Formats.{Formats, coin_text, parse_coin}
use sui_gas_pool.Storage.Scripts.{
  ReserveReply, reserve_script, add_script, ready_script, expire_script,
}
use sui_gas_pool.Storage.Scripts.Init.{acquire_lock_script, release_lock_script, init_stats_script}

module _ {A B : Type 0} where
  -- `iter().map(f).collect()` where `f` may panic.
  unfoldable pub collect_all : (A → Result B) → List A → Result (List B)
  collect_all f [] = ok []
  collect_all f (a ∷ xs) = and_then (f a) (λ b. and_then (collect_all f xs) (λ bs. ok (b ∷ bs)))

module _ (F : Formats) where
  finish_reserve : ReserveReply → Result (ReservationId × List GasCoin)
  unfolding collect_all
  finish_reserve reply =
      if is_empty reply.coins
      then err Error.unable_to_reserve
      else and_then (collect_all (parse_coin F) reply.coins) (λ cs. ok (reply.reservation_id, cs))

  -- The time of the expiry is a word of 64 bits. For a duration beyond its range, which no request of
  -- the API has, chrono panics before.
  unfoldable pub reserve_gas_coins : ℕ → ℕ → ℕ → Action Store (ReservationId × List GasCoin)
  unfolding finish_reserve
  reserve_gas_coins now target_budget reserved_duration_ms = do
    reply ← reserve_script target_budget ((now + reserved_duration_ms) % 2 ^ 64)
    lift (finish_reserve reply)

  -- The script fails on a text that is no JSON.
  unfoldable pub add_new_coins : List GasCoin → Action Store (Unit {0})
  add_new_coins new_coins = do
    texts ← or_raise (F.from_json (F.to_json (map (coin_text F) new_coins))) Error.script_failed
    stats ← add_script texts
    pure tt

  pub parse_id : Text → Result ObjectId
  parse_id t = elim (F.id_parse t) [ none ↦ err Error.panic | some i ↦ ok i ]

  parts : List Text → List Text
  parts [] = []
  parts (t ∷ ts) = split t ++ parts ts

  unfoldable pub expire_coins : ℕ → Action Store (List ObjectId)
  unfolding collect_all parse_id parts
  expire_coins now = do texts ← expire_script now; lift (collect_all parse_id (parts texts))

unfoldable pub ready_for_execution : ReservationId → Action Store (Unit {0})
ready_for_execution = ready_script

-- The two counts are returned as `i64` and cast.
unfoldable pub init_coin_stats_at_startup : (Text → Option ℕ) → Action Store (ℕ × ℕ)
init_coin_stats_at_startup to_integer = do
  (count, total) ← init_stats_script to_integer
  pure (unsigned count, unsigned total)

unfoldable pub is_initialized : Action Store Bool
is_initialized s = (ok s.initialized, s)

unfoldable pub acquire_init_lock : ℕ → ℕ → Action Store Bool
acquire_init_lock = acquire_lock_script

unfoldable pub release_init_lock : Action Store (Unit {0})
release_init_lock = release_lock_script

abbrev read_unsigned : Option ℤ → Error → Result ℕ
read_unsigned none e = err e
read_unsigned (some (negsuc n)) e = err e
read_unsigned (some (pos n)) e = if ltb n (2 ^ 64) then ok n else err e

-- The reply is read as a `usize`.
unfoldable pub get_available_coin_count : Action Store ℕ
get_available_coin_count s = (read_unsigned s.available_coin_count Error.remote, s)

unfoldable pub get_available_coin_total_balance : Action Store ℕ
get_available_coin_total_balance s = (read_unsigned s.available_coin_total_balance Error.panic, s)
