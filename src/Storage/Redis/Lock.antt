-- ===== src/Storage/Redis/Lock.antt =====
-- The initialization lock of the trait `Storage`, met by `RedisStorage`.
use sui_gas_pool.Prelude.{ℕ, ◌+◌, ◌^◌, ◌<◌, ◌≡◌, true, arith, ltb, ok}
use sui_gas_pool.Storage.Double.{double_exact}
use sui_gas_pool.Storage.Store.{Store}
use sui_gas_pool.Storage.Scripts.Init.{acquire_lock_script, release_lock_script}
use sui_gas_pool.Storage.Redis.{acquire_init_lock, release_init_lock}

-- After the lock has been acquired for a duration, a call acquires it exactly when the time is past the
-- end of that duration. Times are below 2^53.
pub acquire_init_lock_exclusive :
    (s after : Store) (now duration later other : ℕ)
    → now + duration < 2 ^ 53
    → later < 2 ^ 53
    → acquire_init_lock now duration s ≡ (ok true, after)
    → (acquire_init_lock later other after).0 ≡ ok (ltb (now + duration) later)
unfolding acquire_init_lock acquire_lock_script
acquire_init_lock_exclusive s after now duration later other h h' e = ground (
  arith,
  double_exact now (omega arith),
  double_exact duration (omega arith),
  double_exact (now + duration) h,
  double_exact later h',
)

-- After a release the lock can be acquired at every time below 2^53 but 0.
pub acquire_init_lock-release_init_lock :
    (s : Store) (later duration : ℕ)
    → later < 2 ^ 53
    → (acquire_init_lock later duration (release_init_lock s).1).0 ≡ ok (ltb 0 later)
unfolding acquire_init_lock acquire_lock_script release_init_lock release_lock_script
acquire_init_lock-release_init_lock s later duration h = ground (arith, double_exact later h)
