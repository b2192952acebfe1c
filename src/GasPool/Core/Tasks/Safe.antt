-- ===== src/GasPool/Core/Tasks/Safe.antt =====
-- What holds of the pool however its tasks are interleaved.
use sui_gas_pool.Prelude.{
  ℕ, ◌+◌, ◌-◌, map, ◌≡◌, refl, ap, sym, subst, List, [], ◌∷◌, ◌++◌, arith, All, Result-cases, inl,
  inr,
}
use sui_gas_pool.Types.{ObjectId, coin_id}
use sui_gas_pool.UsageCap.{check_usage}
use sui_gas_pool.Locks.Exclusion.{IsExclusive}
use sui_gas_pool.Storage.Store.{Store}
use sui_gas_pool.Storage.Formats.{Formats, IsFormats}
use sui_gas_pool.Storage.Flow.{count}
use sui_gas_pool.Storage.Flow as Flow
use sui_gas_pool.Storage.Flow.Counting.{count-append}
use sui_gas_pool.Storage.Flow.Invariant.{IsSound}
use sui_gas_pool.Storage.Flow.Sound.{Step-IsSound, Reach-IsSound}
use sui_gas_pool.GasPool.Core.{Parts, GasPool, reserve_gas, reserve_after}
use sui_gas_pool.GasPool.Core.Impl.{locked}
use sui_gas_pool.GasPool.Core.Once.{on_redis}
use sui_gas_pool.GasPool.Core.Steps.{reserve_gas-Reach}
use sui_gas_pool.GasPool.Core.Tasks.{
  Task, claimed, searched, running, ran, returning, done, unlocking, freeing, unlocked, advance,
  out_of, out_of_all, guards_of, IsOver, coins_back,
}
use sui_gas_pool.GasPool.Core.Tasks.Own.{HasOwn, count-without_all, advance-HasOwn}
use sui_gas_pool.GasPool.Core.Tasks.Exclusive.{guards-front, advance-Kept}
use sui_gas_pool.GasPool.Core.Tasks.Sound.{taken, advance-IsSound}
use sui_gas_pool.GasPool.Core.Tasks.Moves.{
  PoolState, Move, arrives, reserves, claims, expires, advances, History, here, next, coins_of,
  left_by, locks_of,
}

pub count-out-append :
    (a : ObjectId) (ts us : List Task)
    → count a (out_of_all (ts ++ us)) ≡ count a (out_of_all ts) + count a (out_of_all us)
count-out-append a [] us = omega arith
count-out-append a (t ∷ ts) us = omega (
  arith,
  count-append a (out_of t) (out_of_all (ts ++ us)),
  count-append a (out_of t) (out_of_all ts),
  count-out-append a ts us,
)

reserve_gas-locks :
    {S : Type 0} (parts : Parts S) (today now gas_budget duration_ms : ℕ) (p : GasPool parts)
    → locked parts (reserve_gas parts today now gas_budget duration_ms p).1 ≡ locked parts p
unfolding reserve_gas reserve_after
reserve_gas-locks parts today now gas_budget duration_ms p =
    elim (Result-cases (check_usage today p.gas_usage_cap).0) [
      | inl (u, e) ↦ rw e refl
      | inr (failure, e) ↦ rw e refl
    ]

pub over_out : (ts : List Task) (a : ObjectId) → All IsOver ts → count a (out_of_all ts) ≡ 0
over_out [] a h = refl
over_out (done reply ∷ ts) a h = over_out ts a h.1
over_out (unlocked result ∷ ts) a h = over_out ts a h.1
over_out (claimed call ∷ ts) a h = absurd h.0
over_out (searched call total owned ∷ ts) a h = absurd h.0
over_out (running call total g ∷ ts) a h = absurd h.0
over_out (ran call total response ∷ ts) a h = absurd h.0
over_out (returning call coins response ∷ ts) a h = absurd h.0
over_out (unlocking ids ∷ ts) a h = absurd h.0
over_out (freeing ids coins ∷ ts) a h = absurd h.0

pub over_guards : (ts : List Task) → All IsOver ts → guards_of ts ≡ []
over_guards [] h = refl
over_guards (done reply ∷ ts) h = over_guards ts h.1
over_guards (unlocked result ∷ ts) h = over_guards ts h.1
over_guards (claimed call ∷ ts) h = absurd h.0
over_guards (searched call total owned ∷ ts) h = absurd h.0
over_guards (running call total g ∷ ts) h = absurd h.0
over_guards (ran call total response ∷ ts) h = absurd h.0
over_guards (returning call coins response ∷ ts) h = absurd h.0
over_guards (unlocking ids ∷ ts) h = absurd h.0
over_guards (freeing ids coins ∷ ts) h = absurd h.0

own-front :
    (earlier later : List Task) (t : Task)
    → All HasOwn (earlier ++ t ∷ later)
    → HasOwn t × All HasOwn (earlier ++ later)
own-front [] later t h = h
own-front (u ∷ earlier) later t (mine, rest) =
    let (front, others) = own-front earlier later t rest in (front, (mine, others))

left_over :
    (t t' : Task) (a : ObjectId)
    → count a (left_by t t')
      ≡ count a (out_of t) - (count a (map coin_id (coins_back t)) + count a (out_of t'))
left_over t t' a = omega (
  arith,
  count-without_all a (map coin_id (coins_back t) ++ out_of t') (out_of t),
  count-append a (map coin_id (coins_back t)) (out_of t'),
)

module _ (F : Formats) (laws : IsFormats F) (parts : Parts Store) where
  -- The objects are accounted for, the locks are those of the running tasks, apart from each other, and
  -- every task handles coins of its own objects.
  pub record IsSafe (w : PoolState F parts) : Type 0 where
    pub sound : IsSound F (coins_of F parts w)
    pub exclusive : IsExclusive (locks_of F parts w)
    pub own : All HasOwn w.tasks

  Move-IsSafe : {w v : PoolState F parts} → Move F parts w v → IsSafe w → IsSafe v
  Move-IsSafe {w} (arrives coins room fresh e) safe = subst IsSafe (sym e) (record {
    sound = Step-IsSound F laws (Flow.arrives coins room fresh refl) safe.sound;
    exclusive = safe.exclusive;
    own = safe.own;
  })
  Move-IsSafe {w} (reserves today now gas_budget duration_ms id positive small next_id e) safe =
      subst IsSafe (sym e) (record {
        sound = Reach-IsSound F laws safe.sound (
            reserve_gas-Reach F laws parts today now gas_budget duration_ms id w.pool
              (out_of_all w.tasks) w.lost w.known positive small next_id);
        exclusive =
            subst (λ l. IsExclusive (record { locked = l; guards = guards_of w.tasks }))
              (sym (reserve_gas-locks (on_redis F parts) today now gas_budget duration_ms w.pool))
              safe.exclusive;
        own = safe.own;
      })
  Move-IsSafe {w} (claims call fine some_objects within there e) safe =
      subst IsSafe (sym e) (record {
        sound =
            Step-IsSound F laws (Flow.claims call.id call.objects some_objects there refl)
              safe.sound;
        exclusive = safe.exclusive;
        own = (within, safe.own);
      })
  Move-IsSafe {w} (expires now freed found e) safe = subst IsSafe (sym e) (record {
    sound = Step-IsSound F laws (Flow.expires now freed found refl) safe.sound;
    exclusive = safe.exclusive;
    own = (tt, safe.own);
  })
  Move-IsSafe {w} (advances env earlier later t at room named e) safe =
      let (mine, others) = own-front earlier later t (subst (All HasOwn) at safe.own) in
      let (kept, few) = advance-HasOwn (on_redis F parts) env t w.pool mine named (
        taken F laws parts w.pool (out_of_all w.tasks) w.lost w.known safe.sound (coins_back t)
          room) in
      subst IsSafe (sym e) (record {
        sound =
            advance-IsSound F laws parts w.pool (out_of_all w.tasks) w.lost w.known safe.sound env t
              _ _ room
              (λ a. omega (
                arith,
                few a,
                left_over t (advance (on_redis F parts) env t w.pool).0 a,
                ap (λ ts. count a (out_of_all ts)) at,
                count-out-append a earlier (t ∷ later),
                count-out-append a earlier later,
                count-append a (out_of t) (out_of_all later),
                count-append a (out_of (advance (on_redis F parts) env t w.pool).0)
                    (out_of_all (earlier ++ later)),
                count-append a (left_by t (advance (on_redis F parts) env t w.pool).0) w.lost,
              ));
        exclusive = advance-Kept (on_redis F parts) (guards_of (earlier ++ later)) env t w.pool (
            guards-front (locked (on_redis F parts) w.pool) earlier later t (
              subst
                (λ ts.
                  IsExclusive
                    (record { locked = locked (on_redis F parts) w.pool; guards = guards_of ts }))
                at safe.exclusive));
        own = (kept, others);
      })

  -- From a safe state, every state that the tasks can reach, in whatever order they take their
  -- turns, is safe, if clients pay with coins of their own reservations, the coins that the node
  -- and the effects name after a run or an expiry are of objects that the transaction paid with or
  -- that expired, the coins that the initializer adds were never seen, the statistics have room for
  -- what is added, budgets are positive and below 2^53, and the numbers of reservations do not run
  -- out: every object that was ever added is in one place, an available coin, a reservation, a task
  -- or the lost objects, what is locked is what the running tasks hold, each object by one of them,
  -- and a task puts back coins of objects that it has taken out only.
  pub History-IsSafe : {w v : PoolState F parts} → IsSafe w → History F parts w v → IsSafe v
  History-IsSafe safe here = safe
  History-IsSafe safe (next path m) = Move-IsSafe m (History-IsSafe safe path)
