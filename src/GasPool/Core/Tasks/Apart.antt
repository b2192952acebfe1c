-- ===== src/GasPool/Core/Tasks/Apart.antt =====
-- Two transactions that run at once, and the pool when nothing runs.
use mathlib.Core.List.{append_assoc}
use sui_gas_pool.Prelude.{
  ℕ, ◌+◌, ◌≤◌, ◌≡◌, ap, ◌∙◌, sym, subst, ◌&&◌, ◌||◌, false, List, ◌∷◌, ◌++◌, map, arith, All,
  contains,
}
use sui_gas_pool.Types.{ObjectId, GasCoin, coin_id}
use sui_gas_pool.Locks.{ObjectLocks}
use sui_gas_pool.Locks.Exclusion.{held}
use sui_gas_pool.Storage.Store.{Store}
use sui_gas_pool.Storage.Formats.{Formats, IsFormats}
use sui_gas_pool.Storage.Invariant.{Holds}
use sui_gas_pool.Storage.Reserved.{Reservations, objects}
use sui_gas_pool.Storage.Redis.Expire.{Tracks}
use sui_gas_pool.Storage.Flow.{count}
use sui_gas_pool.Storage.Flow.Counting.{count-append}
use sui_gas_pool.GasPool.Core.{Parts}
use sui_gas_pool.GasPool.Core.Impl.{locked}
use sui_gas_pool.GasPool.Core.Once.{on_redis}
use sui_gas_pool.GasPool.Core.Tasks.{Call, Task, running, guards_of, out_of_all, IsOver}
use sui_gas_pool.GasPool.Core.Tasks.Exclusive.{Exclusive, guards-append, guards-front, held-middle}
use sui_gas_pool.GasPool.Core.Tasks.Moves.{PoolState, History}
use sui_gas_pool.GasPool.Core.Tasks.Safe.{
  IsSafe, History-IsSafe, count-out-append, over_out, over_guards,
}

held-running :
    (ts us : List Task) (call : Call) (total : ℕ) (g : ObjectLocks) (o : ObjectId)
    → held (guards_of (ts ++ running call total g ∷ us)) o
      ≡ (contains g.locked_objects o || held (guards_of (ts ++ us)) o)
held-running ts us call total g o =
    ap (λ gs. held gs o) (guards-append ts (running call total g ∷ us))
    ∙ held-middle (guards_of ts) (guards_of us) g o
    ∙ ap (λ gs. contains g.locked_objects o || held gs o) (sym (guards-append ts us))

module _ (F : Formats) (laws : IsFormats F) (parts : Parts Store) where
  -- In every state that the tasks reach from a safe one, if clients pay with coins of their own
  -- reservations, the coins that the node and the effects name after a run or an expiry are of
  -- objects that the transaction paid with or that expired, the coins that the initializer adds
  -- were never seen, the statistics have room for what is added, budgets are positive and below
  -- 2^53, and the numbers of reservations do not run out, two transactions that are running hold
  -- locks on different objects, and no gas coin stands in the reservations of both, twice in one of
  -- them, or in one of them while it is lost.
  pub running_apart :
      {w v : PoolState F parts}
      → IsSafe F laws parts w
      → History F parts w v
      → (ts us vs : List Task) (c d : Call) (i j : ℕ) (g h : ObjectLocks) (o a : ObjectId)
      → v.tasks ≡ ts ++ running c i g ∷ (us ++ running d j h ∷ vs)
      → ((contains g.locked_objects o && contains h.locked_objects o) ≡ false)
        × (count a c.objects + count a d.objects + count a v.lost ≤ 1)
  running_apart {w} {v} safe path ts us vs c d i j g h o a at = (
    ground (arith, apart, beside),
    omega (
      arith,
      now.sound.balanced a,
      now.sound.single a,
      ap (λ rs. count a (out_of_all rs)) at,
      count-out-append a ts (running c i g ∷ (us ++ running d j h ∷ vs)),
      count-append a c.objects (out_of_all (us ++ running d j h ∷ vs)),
      count-out-append a us (running d j h ∷ vs),
      count-append a d.objects (out_of_all vs),
    ),
  )
    where
      now : IsSafe F laws parts v
      now = History-IsSafe F laws parts safe path

      apart :
          (contains g.locked_objects o && held (guards_of (ts ++ (us ++ running d j h ∷ vs))) o)
          ≡ false
      apart =
          (guards-front (locked (on_redis F parts) v.pool) ts (us ++ running d j h ∷ vs)
              (running c i g)
              (subst (λ rs. Exclusive (locked (on_redis F parts) v.pool) (guards_of rs)) at
                now.exclusive)).disjoint.0
            o

      beside :
          held (guards_of (ts ++ (us ++ running d j h ∷ vs))) o
          ≡ (contains h.locked_objects o || held (guards_of ((ts ++ us) ++ vs)) o)
      beside =
          ap (λ rs. held (guards_of rs) o) (sym (append_assoc ts us (running d j h ∷ vs)))
          ∙ held-running (ts ++ us) vs d j h o

  -- In every state that the tasks reach from a safe one and in which all of them are over, if
  -- clients pay with coins of their own reservations, the coins that the node and the effects name
  -- after a run or an expiry are of objects that the transaction paid with or that expired, the
  -- coins that the initializer adds were never seen, the statistics have room for what is added,
  -- budgets are positive and below 2^53, and the numbers of reservations do not run out, nothing is
  -- locked, and every object that was ever added is a coin that the store holds, stands in a
  -- reservation that it keeps, or is lost, each as often as it was added.
  pub over_quiet :
      {w v : PoolState F parts}
      → IsSafe F laws parts w
      → History F parts w v
      → All IsOver v.tasks
      → (coins : List GasCoin) × (reserved : Reservations) × Holds F v.pool.gas_pool_store coins
        × Tracks F v.pool.gas_pool_store reserved
        × ((o : ObjectId) → contains (locked (on_redis F parts) v.pool) o ≡ false)
        × ((o : ObjectId)
            → count o (map coin_id coins) + count o (objects reserved) + count o v.lost
              ≡ count o v.known)
  over_quiet {w} {v} safe path over = (
    now.sound.coins,
    now.sound.reserved,
    now.sound.holds,
    now.sound.tracks,
    λ o. now.exclusive.agree o ∙ ap (λ gs. held gs o) (over_guards v.tasks over),
    λ o. omega (arith, now.sound.balanced o, over_out v.tasks o over),
  )
    where
      now : IsSafe F laws parts v
      now = History-IsSafe F laws parts safe path
