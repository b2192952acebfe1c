-- ===== src/Locks/Acquire.antt =====
-- `try_acquire_locks`, on every branch.
use sui_gas_pool.Prelude.{
  ℕ, ◌≡◌, refl, sym, subst, ◌==◌, if◌then◌else◌, Bool, true, false, List, [], ◌∷◌, ◌++◌, map,
  Result, ok, err, Error, contains, arith, some, Bool-cases, Option-cases, Result-cases, inl, inr,
  All, is_empty, ltb, and_then,
}
use sui_gas_pool.Types.{ObjectId, ReservationId}
use sui_gas_pool.Sui.{
  Owner, InputObjectKind, move_package, imm_or_owned_move_object, shared_move_object,
  TransactionData,
}
use sui_gas_pool.Locks.{
  Cache, OwnerQuery, ObjectLocks, ObjectLockManager, payment_ids, keep_owned,
  get_imm_or_owned_non_gas_objects, any_locked, version_of, set_version, is_address_owned,
  from_cache, from_answer, ask, filter_owned_objects, lock_owned, finish_lock, lock_objects,
  try_acquire_locks,
}

-- The object does not pay for the gas.
abbrev pub NotGas : TransactionData → ObjectId → Type 0
NotGas tx o = contains (payment_ids tx) o ≡ false

keep_owned-All :
    (gas : List ObjectId) (inputs : List InputObjectKind)
    → All (λ e. contains gas e.0 ≡ false) (keep_owned gas inputs)
unfolding keep_owned
keep_owned-All gas [] = tt
keep_owned-All gas (move_package p ∷ inputs) = keep_owned-All gas inputs
keep_owned-All gas (imm_or_owned_move_object r ∷ inputs) = elim (Bool-cases (contains gas r.id)) [
  | inl paid ↦ rw paid (keep_owned-All gas inputs)
  | inr free ↦ rw free (free, keep_owned-All gas inputs)
]
keep_owned-All gas (shared_move_object o ∷ inputs) = keep_owned-All gas inputs

abbrev AllKeys : (ObjectId → Type 0) → List (ObjectId × ℕ) → Type 0
AllKeys P m = All (λ e. P e.0) m

All-snoc :
    (P : ObjectId → Type 0) (xs : List ObjectId) (o : ObjectId)
    → All P xs
    → P o
    → All P (xs ++ o ∷ [])
All-snoc P [] o h p = (p, tt)
All-snoc P (x ∷ xs) o h p = (h.0, All-snoc P xs o h.1 p)

add_if-All :
    (P : ObjectId → Type 0) (b : Bool) (xs : List ObjectId) (o : ObjectId)
    → All P xs
    → P o
    → All P (if b then xs ++ o ∷ [] else xs)
add_if-All P true xs o h p = All-snoc P xs o h p
add_if-All P false xs o h p = h

set_version-AllKeys :
    (P : ObjectId → Type 0) (o : ObjectId) (v : ℕ) (m : List (ObjectId × ℕ))
    → AllKeys P m
    → P o
    → AllKeys P (set_version o v m)
unfolding set_version
set_version-AllKeys P o v [] h p = (p, tt)
set_version-AllKeys P o v ((k, w) ∷ m) h p = elim (Bool-cases (o == k)) [
  | inl same ↦ rw same (p, h.1)
  | inr other ↦ rw other (h.0, set_version-AllKeys P o v m h.1 p)
]

version_of-AllKeys :
    (P : ObjectId → Type 0) (o : ObjectId) (m : List (ObjectId × ℕ)) (v : ℕ)
    → AllKeys P m
    → version_of o m ≡ some v
    → P o
unfolding version_of
version_of-AllKeys P o [] v h e = cc
version_of-AllKeys P o ((k, w) ∷ m) v h e = elim (Bool-cases (o == k)) [
  | inl same ↦ subst P (sym (equal same)) h.0
  | inr other ↦ version_of-AllKeys P o m v h.1 (rw other at e)
]
  where
    equal : (o == k) ≡ true → o ≡ k
    equal same = ground arith

-- A result, if there is one, has a property.
abbrev OnOk {ℓ} : {A : Type ℓ} → (A → Type 0) → Result A → Type 0
OnOk P (ok a) = P a
OnOk P (err e) = Unit

module _ (cache : Cache) (P : ObjectId → Type 0) where
  from_cache-All :
      (c : cache.Content) (objects : List (ObjectId × ℕ)) (owned : List ObjectId)
      (query : List (ObjectId × ℕ))
      → AllKeys P objects
      → All P owned
      → AllKeys P query
      → OnOk (λ r. All P r.0 × AllKeys P r.1) (from_cache cache c objects owned query)
  unfolding from_cache
  from_cache-All c [] owned query h a q = (a, q)
  from_cache-All c ((o, v) ∷ rest) owned query h a q =
      let asked : OnOk (λ r. All P r.0 × AllKeys P r.1)
          (from_cache cache c rest owned (set_version o v query)) =
        from_cache-All c rest owned (set_version o v query) h.1 a
          (set_version-AllKeys P o v query q h.0) in
      elim (Option-cases (cache.get o c)) [
        | inl unknown ↦ rw (unknown, from_cache) asked
        | inr ((cached, is_owned), known) ↦ elim (Bool-cases (ltb v cached)) [
          | inl late ↦ rw (known, from_cache, late) tt
          | inr fine ↦ elim (Bool-cases (v == cached)) [
            | inl same ↦
                rw (known, from_cache, fine, same)
                  (from_cache-All c rest _ query h.1 (add_if-All P is_owned owned o a h.0) q)
            | inr newer ↦ rw (known, from_cache, fine, newer) asked
          ]
        ]
      ]

  from_answer-All :
      (query : List (ObjectId × ℕ)) (answer : List (ObjectId × Owner × ℕ)) (owned : List ObjectId)
      (c : cache.Content)
      → AllKeys P query
      → All P owned
      → OnOk (All P) (from_answer cache query answer owned c).0
  unfolding from_answer
  from_answer-All query [] owned c q a = a
  from_answer-All query ((o, owner, fetched) ∷ rest) owned c q a =
      elim (Option-cases (version_of o query)) [
        | inl missing ↦ rw (missing, from_answer) tt
        | inr (v, found) ↦ elim (Bool-cases (ltb v fetched)) [
          | inl late ↦ rw (found, from_answer, late) tt
          | inr fine ↦
              rw (found, from_answer, fine)
                (from_answer-All query rest _ _ q (
                  add_if-All P (is_address_owned owner) owned o a
                    (version_of-AllKeys P o query v q found)))
        ]
      ]

  ask-All :
      (client : OwnerQuery) (found : List ObjectId × List (ObjectId × ℕ)) (c : cache.Content)
      → All P found.0 × AllKeys P found.1
      → OnOk (All P) (ask cache client found c).0
  unfolding ask
  ask-All client (owned, query) c h = elim (Bool-cases (is_empty query)) [
    | inl nothing ↦ rw nothing h.0
    | inr some_query ↦ elim (Result-cases (client (map (λ e. e.0) query))) [
      | inl (answer, e) ↦ rw (some_query, e, ask) (from_answer-All query answer owned c h.1 h.0)
      | inr (failure, e) ↦ rw (some_query, e, ask) tt
    ]
  ]

  filter_owned_objects-All :
      (client : OwnerQuery) (objects : List (ObjectId × ℕ)) (c : cache.Content)
      → AllKeys P objects
      → OnOk (All P) (filter_owned_objects cache client objects c).0
  unfolding filter_owned_objects
  filter_owned_objects-All client objects c h =
      elim (Result-cases (from_cache cache c objects [] [])) [
        | inl (found, e) ↦
            rw (e, filter_owned_objects)
              (ask-All client found c (rw e at (from_cache-All c objects [] [] h tt tt)))
        | inr (failure, e) ↦ rw (e, filter_owned_objects) tt
      ]

-- The objects to lock are those that the transaction does not pay with.
inputs-NotGas :
    (tx : TransactionData) → OnOk (AllKeys (NotGas tx)) (get_imm_or_owned_non_gas_objects tx)
unfolding get_imm_or_owned_non_gas_objects
inputs-NotGas tx = elim (Result-cases tx.input_objects) [
  | inl (inputs, e) ↦ rw (e, and_then) (keep_owned-All (payment_ids tx) inputs)
  | inr (failure, e) ↦ rw (e, and_then) tt
]

module _ (cache : Cache) where
  -- How an attempt to lock may end, from the locks before it.
  abbrev pub Outcome :
      ReservationId
      → TransactionData
      → List ObjectId
      → Result ObjectLocks × ObjectLockManager cache
      → Type 0
  Outcome id tx before (ok g, m) =
      (g.reservation_id ≡ id)
      × (m.locked_owned_objects ≡ g.locked_objects ++ before)
      × (any_locked before g.locked_objects ≡ false)
      × All (NotGas tx) g.locked_objects
  Outcome id tx before (err e, m) = m.locked_owned_objects ≡ before

  finish_lock-Outcome :
      (id : ReservationId) (tx : TransactionData) (m : ObjectLockManager cache)
      (found : Result (List ObjectId)) (content : cache.Content)
      → OnOk (All (NotGas tx)) found
      → Outcome id tx m.locked_owned_objects (finish_lock cache id (found, content) m)
  unfolding finish_lock lock_owned
  finish_lock-Outcome id tx m (err e) content h = refl
  finish_lock-Outcome id tx m (ok owned) content h =
      elim (Bool-cases (any_locked m.locked_owned_objects owned)) [
        | inl busy ↦ rw (busy, finish_lock) refl
        | inr free ↦ rw (free, finish_lock) (refl, refl, free, h)
      ]

  lock_objects-Outcome :
      (client : OwnerQuery) (id : ReservationId) (tx : TransactionData)
      (objects : List (ObjectId × ℕ)) (m : ObjectLockManager cache)
      → AllKeys (NotGas tx) objects
      → Outcome id tx m.locked_owned_objects (lock_objects cache client id objects m)
  unfolding lock_objects
  lock_objects-Outcome client id tx objects m h =
      elim (Bool-cases (any_locked m.locked_owned_objects (map (λ e. e.0) objects))) [
        | inl busy ↦ rw (busy, lock_objects) refl
        | inr free ↦
            rw (free, lock_objects)
              (finish_lock-Outcome id tx m _ _
                (filter_owned_objects-All cache (NotGas tx) client objects m.address_owned_cache h))
      ]

  -- An attempt to lock fails and leaves the set of locks as it was, or returns a guard of the given
  -- reservation whose objects were not locked before, do not pay for the gas, and are now locked beside
  -- those that were.
  pub try_acquire_locks-Outcome :
      (client : OwnerQuery) (id : ReservationId) (tx : TransactionData)
      (m : ObjectLockManager cache)
      → Outcome id tx m.locked_owned_objects (try_acquire_locks cache client id tx m)
  unfolding try_acquire_locks
  try_acquire_locks-Outcome client id tx m =
      elim (Result-cases (get_imm_or_owned_non_gas_objects tx)) [
        | inl (objects, e) ↦
            rw (e, try_acquire_locks)
              (lock_objects-Outcome client id tx objects m (rw e at (inputs-NotGas tx)))
        | inr (failure, e) ↦ rw (e, try_acquire_locks) refl
      ]

  -- If one of the owned inputs that do not pay for the gas is locked, the attempt fails and changes
  -- nothing: neither the cache nor the full node is asked.
  pub try_acquire_locks_conflict :
      (client : OwnerQuery) (id : ReservationId) (tx : TransactionData)
      (m : ObjectLockManager cache) (objects : List (ObjectId × ℕ))
      → get_imm_or_owned_non_gas_objects tx ≡ ok objects
      → any_locked m.locked_owned_objects (map (λ e. e.0) objects) ≡ true
      → try_acquire_locks cache client id tx m ≡ (err Error.object_locked, m)
  unfolding try_acquire_locks lock_objects
  try_acquire_locks_conflict client id tx m objects e busy = rw (e, try_acquire_locks, busy)
