-- ===== src/GasPool/Core/Tasks/Exclusive.antt =====
-- The locks of the tasks: a turn of any of them keeps what is locked apart.
use sui_gas_pool.Prelude.{
  ℕ, ◌≡◌, refl, ap, ◌∙◌, sym, subst, ◌||◌, List, [], ◌∷◌, ◌++◌, map, Result, ok, err, arith,
  Bool-cases, Result-cases, inl, inr, contains,
}
use sui_gas_pool.Types.{ObjectId, GasCoin}
use sui_gas_pool.Sui.{Response}
use sui_gas_pool.Locks.{
  ObjectLocks, payment_ids, any_locked, lock_owned, get_imm_or_owned_non_gas_objects,
  remove_locks_from_set,
}
use sui_gas_pool.Locks.Exclusion.{
  locks, drops, step, keep_guard, step-IsExclusive, held, IsDisjoint, IsExclusive,
}
use sui_gas_pool.SuiClient.{FullNode, latest_coins}
use sui_gas_pool.GasPool.Core.{Parts, GasPool, send, drop_guard, updated_coins}
use sui_gas_pool.GasPool.Core.Impl.{locked, after_send-locks}
use sui_gas_pool.GasPool.Core.Tasks.{
  Call, Task, claimed, searched, running, ran, returning, done, unlocking, freeing, unlocked,
  found_coins, found_freed, returned, freed_by, Turn, keep_search, search_objects, search,
  keep_locks, advance, with_guard, guards_of,
}

-- A guard between others may stand first.
pub held-middle :
    (xs ys : List ObjectLocks) (g : ObjectLocks) (o : ObjectId)
    → held (xs ++ g ∷ ys) o ≡ (contains g.locked_objects o || held (xs ++ ys) o)
held-middle [] ys g o = refl
held-middle (x ∷ xs) ys g o = ground (arith, held-middle xs ys g o)

IsDisjoint-middle :
    (xs ys : List ObjectLocks) (g : ObjectLocks)
    → IsDisjoint (xs ++ g ∷ ys)
    → IsDisjoint (g ∷ xs ++ ys)
IsDisjoint-middle [] ys g d = d
IsDisjoint-middle (x ∷ xs) ys g d =
    let (apart, inner) = IsDisjoint-middle xs ys g d.1 in
    (
      λ o. ground (arith, apart o, d.0 o, held-middle xs ys g o),
      (λ o. ground (arith, d.0 o, held-middle xs ys g o), inner),
    )

IsExclusive-middle :
    (l : List ObjectId) (xs ys : List ObjectLocks) (g : ObjectLocks)
    → IsExclusive (record { locked = l; guards = xs ++ g ∷ ys })
    → IsExclusive (record { locked = l; guards = g ∷ xs ++ ys })
IsExclusive-middle l xs ys g v = record {
  agree = λ o. v.agree o ∙ held-middle xs ys g o;
  disjoint = IsDisjoint-middle xs ys g v.disjoint;
}

pub guards-append : (ts us : List Task) → guards_of (ts ++ us) ≡ guards_of ts ++ guards_of us
guards-append [] us = refl
guards-append (claimed call ∷ ts) us = guards-append ts us
guards-append (searched call total owned ∷ ts) us = guards-append ts us
guards-append (running call total g ∷ ts) us = ap (◌∷◌ g) (guards-append ts us)
guards-append (ran call total response ∷ ts) us = guards-append ts us
guards-append (done reply ∷ ts) us = guards-append ts us
guards-append (returning call coins response ∷ ts) us = guards-append ts us
guards-append (unlocking ids ∷ ts) us = guards-append ts us
guards-append (freeing ids coins ∷ ts) us = guards-append ts us
guards-append (unlocked result ∷ ts) us = guards-append ts us

abbrev pub Exclusive : List ObjectId → List ObjectLocks → Type 0
Exclusive l gs = IsExclusive (record { locked = l; guards = gs })

-- A task between others may stand first.
front :
    (l : List ObjectId) (t : Task) (xs ys : List ObjectLocks)
    → Exclusive l (xs ++ with_guard t ys)
    → Exclusive l (with_guard t (xs ++ ys))
front l (claimed call) xs ys v = v
front l (searched call total owned) xs ys v = v
front l (running call total g) xs ys v = IsExclusive-middle l xs ys g v
front l (ran call total response) xs ys v = v
front l (done reply) xs ys v = v
front l (returning call coins response) xs ys v = v
front l (unlocking ids) xs ys v = v
front l (freeing ids coins) xs ys v = v
front l (unlocked result) xs ys v = v

pub guards-front :
    (l : List ObjectId) (earlier later : List Task) (t : Task)
    → Exclusive l (guards_of (earlier ++ t ∷ later))
    → Exclusive l (with_guard t (guards_of (earlier ++ later)))
guards-front l earlier later t v =
    subst (λ gs. Exclusive l (with_guard t gs)) (sym (guards-append earlier later))
      (front l t (guards_of earlier) (guards_of later)
        (subst (Exclusive l) (guards-append earlier (t ∷ later)) v))

module _ {S : Type 0} (parts : Parts S) where
  open parts use {cache, retry, storage}

  -- The locks and the guards after a turn, beside the guards of the others.
  abbrev Kept : List ObjectLocks → Task × GasPool parts → Type 0
  Kept gs r = Exclusive (locked parts r.1) (with_guard r.0 gs)

  module _ (gs : List ObjectLocks) where
    keep_search-Kept :
        (call : Call) (total : ℕ) (r : Result (List ObjectId) × cache.Content) (p : GasPool parts)
        → Exclusive (locked parts p) gs
        → Kept gs (keep_search parts call total r p)
    unfolding keep_search
    keep_search-Kept call total (err e, content) p v = v
    keep_search-Kept call total (ok owned, content) p v = v

    search_objects-Kept :
        (node : FullNode) (call : Call) (total : ℕ) (objects : List (ObjectId × ℕ))
        (p : GasPool parts)
        → Exclusive (locked parts p) gs
        → Kept gs (search_objects parts node call total objects p)
    unfolding search_objects
    search_objects-Kept node call total objects p v =
        elim (Bool-cases (any_locked (locked parts p) (map (λ e. e.0) objects))) [
          | inl busy ↦ rw busy v
          | inr free ↦ rw free (keep_search-Kept call total _ p v)
        ]

    search-Kept :
        (node : FullNode) (call : Call) (total : Result ℕ) (p : GasPool parts)
        → Exclusive (locked parts p) gs
        → Kept gs (search parts node call total p)
    unfolding search
    search-Kept node call (err e) p v = v
    search-Kept node call (ok total) p v =
        elim (Result-cases (get_imm_or_owned_non_gas_objects call.tx)) [
          | inl (objects, e) ↦ rw (e, search) (search_objects-Kept node call total objects p v)
          | inr (failure, e) ↦ rw (e, search) v
        ]

    keep_locks-Kept :
        (call : Call) (total : ℕ) (r : Result ObjectLocks × List ObjectId) (p : GasPool parts)
        → IsExclusive (keep_guard r gs)
        → Kept gs (keep_locks parts call total r p)
    unfolding keep_locks keep_guard
    keep_locks-Kept call total (err e, l) p v = v
    keep_locks-Kept call total (ok g, l) p v = v

    locking-Kept :
        (call : Call) (total : ℕ) (owned : List ObjectId) (p : GasPool parts)
        → Exclusive (locked parts p) gs
        → Kept gs (keep_locks parts call total (lock_owned call.id owned (locked parts p)) p)
    unfolding step
    locking-Kept call total owned p v =
        keep_locks-Kept call total (lock_owned call.id owned (locked parts p)) p (
          step-IsExclusive (locks call.id owned) (record { locked = locked parts p; guards = gs })
            v)

    drop_guard-IsExclusive :
        (g : ObjectLocks) (response : Result Response) (l : List ObjectId) (p : GasPool parts)
        → locked parts p ≡ l
        → Exclusive l (g ∷ gs)
        → Exclusive (locked parts (drop_guard parts g (response, p)).1) gs
    unfolding drop_guard step
    drop_guard-IsExclusive g response l p same v =
        subst (λ k. Exclusive (remove_locks_from_set g.locked_objects k) gs) (sym same)
          (step-IsExclusive (drops 0) (record { locked = l; guards = g ∷ gs }) v)

  module _ (gs : List ObjectLocks) where
    found-Kept :
        (call : Call) (response : Result Response) (r : Result (List GasCoin)) (p : GasPool parts)
        → Exclusive (locked parts p) gs
        → Kept gs (found_coins parts call response r, p)
    unfolding found_coins
    found-Kept call response (ok coins) p v = v
    found-Kept call response (err e) p v = v

    found_freed-Kept :
        (ids : List ObjectId) (r : Result (List GasCoin)) (p : GasPool parts)
        → Exclusive (locked parts p) gs
        → Kept gs (found_freed parts ids r, p)
    unfolding found_freed
    found_freed-Kept ids (ok coins) p v = v
    found_freed-Kept ids (err e) p v = v

    returned-Kept :
        (call : Call) (coins : List GasCoin) (response : Result Response)
        (r : Result (Unit {0}) × S) (p : GasPool parts)
        → Exclusive (locked parts p) gs
        → Kept gs (returned parts call coins response r.0, record p { gas_pool_store = r.1 })
    unfolding returned
    returned-Kept call coins response (ok u, store) p v = v
    returned-Kept call coins response (err e, store) p v = v

    freed-Kept :
        (ids : List ObjectId) (coins : List GasCoin) (r : Result (Unit {0}) × S) (p : GasPool parts)
        → Exclusive (locked parts p) gs
        → Kept gs (freed_by parts ids coins r.0, record p { gas_pool_store = r.1 })
    unfolding freed_by
    freed-Kept ids coins (ok u, store) p v = v
    freed-Kept ids coins (err e, store) p v = v

  -- A turn of a task keeps the locks of all tasks apart.
  pub advance-Kept :
      (gs : List ObjectLocks) (env : Turn) (t : Task) (p : GasPool parts)
      → Exclusive (locked parts p) (with_guard t gs)
      → Kept gs (advance parts env t p)
  unfolding advance
  advance-Kept gs env (claimed call) p v = search-Kept gs env.before call _ p v
  advance-Kept gs env (searched call total owned) p v = locking-Kept gs call total owned p v
  advance-Kept gs env (running call total g) p v =
      drop_guard-IsExclusive gs g _ (locked parts p) _
        (after_send-locks parts env.today call.tx (send parts env.before call.tx call.user_sig) p) v
  advance-Kept gs env (ran call total response) p v =
      found-Kept gs call response
        (updated_coins parts env.after total (payment_ids call.tx) response) p v
  advance-Kept gs env (returning call coins response) p v =
      returned-Kept gs call coins response (storage.add_new_coins coins p.gas_pool_store) p v
  advance-Kept gs env (done reply) p v = v
  advance-Kept gs env (unlocking []) p v = v
  advance-Kept gs env (unlocking (id ∷ ids)) p v =
      found_freed-Kept gs (id ∷ ids) (latest_coins retry env.before (id ∷ ids)) p v
  advance-Kept gs env (freeing ids coins) p v =
      freed-Kept gs ids coins (storage.add_new_coins coins p.gas_pool_store) p v
  advance-Kept gs env (unlocked result) p v = v
