-- ===== src/Locks.antt =====
-- The locks on the objects of running transactions: src/object_locks.rs. A set is a list that is only
-- asked for membership. The cache belongs to the library moka, and the owners to the full node.
pub mod Acquire
pub mod Exclusion
use sui_gas_pool.Prelude.{
  ℕ, ◌==◌, ltb, if◌then◌else◌, Bool, true, false, not, ◌&&◌, ◌||◌, Option, none, some, List, [],
  ◌∷◌, ◌++◌, map, Result, ok, err, Error, Action, pure, raise, lift, ◌>>=◌, ◌>>◌, and_then,
  contains, is_empty, ◌⊎◌, ◌≡◌,
}
use sui_gas_pool.Types.{ObjectId, ObjectRef, ReservationId}
use sui_gas_pool.Sui.{
  Owner, address_owner, other, InputObjectKind, move_package, imm_or_owned_move_object,
  shared_move_object, TransactionData, Mutated,
}

-- A cache of the last version of an object and whether an address owns it. It may drop an entry at any
-- time, so nothing else is known of what it returns.
pub record Cache : Type 1 where
  pub Content : Type 0
  pub get : ObjectId → Content → Option (ℕ × Bool)
  pub insert : ObjectId → ℕ × Bool → Content → Content

-- `multi_get_object_owners`: the order of the answer is that of a hash map.
abbrev pub OwnerQuery : Type 0
OwnerQuery = List ObjectId → Result (List (ObjectId × Owner × ℕ))

pub record ObjectLocks : Type 0 where
  pub reservation_id : ReservationId
  pub locked_objects : List ObjectId

abbrev pub payment_ids : TransactionData → List ObjectId
payment_ids tx = map (λ r. r.id) tx.payment

-- The closure of `filter_map`, on the rest of the inputs.
unfoldable pub keep_owned : List ObjectId → List InputObjectKind → List (ObjectId × ℕ)
keep_owned gas [] = []
keep_owned gas (imm_or_owned_move_object r ∷ inputs) =
    let rest = keep_owned gas inputs in if contains gas r.id then rest else (r.id, r.version) ∷ rest
keep_owned gas (move_package p ∷ inputs) = keep_owned gas inputs
keep_owned gas (shared_move_object o ∷ inputs) = keep_owned gas inputs

unfoldable pub get_imm_or_owned_non_gas_objects : TransactionData → Result (List (ObjectId × ℕ))
unfolding keep_owned
get_imm_or_owned_non_gas_objects tx =
    and_then tx.input_objects (λ inputs. ok (keep_owned (payment_ids tx) inputs))

-- `for obj in … { if locks.contains(obj) { bail!(…) } }`
unfoldable pub any_locked : List ObjectId → List ObjectId → Bool
any_locked locks [] = false
any_locked locks (o ∷ os) = contains locks o || any_locked locks os

-- The part of `try_acquire_locks` under the write lock.
unfoldable pub lock_owned : ReservationId → List ObjectId → Action (List ObjectId) ObjectLocks
unfolding any_locked
lock_owned id owned locks =
    if any_locked locks owned
    then (err Error.object_locked, locks)
    else (ok (record { reservation_id = id; locked_objects = owned }), owned ++ locks)

-- The objects to ask the full node for, a map from their ids to the versions of the inputs.
unfoldable pub version_of : ObjectId → List (ObjectId × ℕ) → Option ℕ
version_of o [] = none
version_of o ((k, v) ∷ m) = if o == k then some v else version_of o m

unfoldable pub set_version : ObjectId → ℕ → List (ObjectId × ℕ) → List (ObjectId × ℕ)
set_version o v [] = (o, v) ∷ []
set_version o v ((k, w) ∷ m) = if o == k then (o, v) ∷ m else (k, w) ∷ set_version o v m

unfoldable pub is_address_owned : Owner → Bool
is_address_owned (address_owner a) = true
is_address_owned (other n) = false

module _ (cache : Cache) where
  open cache use {Content, get, insert}

  pub record ObjectLockManager : Type 0 where
    pub address_owned_cache : Content
    pub locked_owned_objects : List ObjectId

  -- The first loop of `filter_owned_objects`: the owned objects that the cache knows, and those to query.
  unfoldable pub from_cache :
      Content
      → List (ObjectId × ℕ)
      → List ObjectId
      → List (ObjectId × ℕ)
      → Result (List ObjectId × List (ObjectId × ℕ))
  unfolding set_version
  from_cache c [] owned query = ok (owned, query)
  from_cache c ((o, v) ∷ rest) owned query =
      let asked = from_cache c rest owned (set_version o v query) in
      elim (get o c) [
        | none ↦ asked
        -- `version.cmp(&cached_version)`
        | some (cached, is_owned) ↦ elim (ltb v cached) [
          | true ↦ err Error.object_out_of_date
          | false ↦ elim (v == cached) [
            | true ↦ from_cache c rest (if is_owned then owned ++ o ∷ [] else owned) query
            | false ↦ asked
          ]
        ]
      ]

  -- The second loop, over the answer of the full node. What was put into the cache stays there when a
  -- later object is out of date; an answer that was not asked for panics.
  unfoldable pub from_answer :
      List (ObjectId × ℕ)
      → List (ObjectId × Owner × ℕ)
      → List ObjectId
      → Action Content (List ObjectId)
  unfolding version_of is_address_owned
  from_answer query [] owned c = (ok owned, c)
  from_answer query ((o, owner, fetched) ∷ rest) owned c = elim (version_of o query) [
    | none ↦ (err Error.panic, c)
    | some version ↦ elim (ltb version fetched) [
      | true ↦ (err Error.object_out_of_date, c)
      | false ↦
          from_answer query rest (if is_address_owned owner then owned ++ o ∷ [] else owned)
            (insert o (fetched, is_address_owned owner) c)
    ]
  ]

  -- What follows the first loop.
  unfoldable pub ask :
      OwnerQuery → List ObjectId × List (ObjectId × ℕ) → Action Content (List ObjectId)
  unfolding from_answer
  ask client (owned, query) c =
      if is_empty query then (ok owned, c) else elim (client (map (λ e. e.0) query)) [
        | err e ↦ (err e, c)
        | ok answer ↦ from_answer query answer owned c
      ]

  unfoldable pub filter_owned_objects :
      OwnerQuery → List (ObjectId × ℕ) → Action Content (List ObjectId)
  unfolding from_cache ask
  filter_owned_objects client objects c = elim (from_cache c objects [] []) [
    | err e ↦ (err e, c)
    | ok found ↦ ask client found c
  ]

  -- What follows the search for the owned objects.
  unfoldable pub finish_lock :
      ReservationId → Result (List ObjectId) × Content → Action ObjectLockManager ObjectLocks
  unfolding lock_owned
  finish_lock id (err e, content) m = (err e, record m { address_owned_cache = content })
  finish_lock id (ok owned, content) m =
      let (result, locks) = lock_owned id owned m.locked_owned_objects in
      (result, record { address_owned_cache = content; locked_owned_objects = locks })

  -- The first test, under the read lock, and what follows it.
  unfoldable pub lock_objects :
      OwnerQuery → ReservationId → List (ObjectId × ℕ) → Action ObjectLockManager ObjectLocks
  unfolding any_locked finish_lock filter_owned_objects
  lock_objects client id objects m =
      if any_locked m.locked_owned_objects (map (λ e. e.0) objects)
      then (err Error.object_locked, m)
      else finish_lock id (filter_owned_objects client objects m.address_owned_cache) m

  -- With no other call in between; `Exclusion` has the calls interleaved.
  unfoldable pub try_acquire_locks :
      OwnerQuery → ReservationId → TransactionData → Action ObjectLockManager ObjectLocks
  unfolding lock_objects
  try_acquire_locks client id tx m = elim (get_imm_or_owned_non_gas_objects tx) [
    | err e ↦ (err e, m)
    | ok objects ↦ lock_objects client id objects m
  ]

  -- Of the objects that the transaction mutated, those among its owned inputs.
  unfoldable pub refresh : List ObjectId → List Mutated → Content → Content
  unfolding is_address_owned
  refresh inputs [] c = c
  refresh inputs (o ∷ os) c = refresh inputs os (
      if contains inputs o.object_id
      then insert o.object_id (o.version, is_address_owned o.owner) c
      else c)

  -- The inputs of an executed transaction are valid, or the `unwrap` panics.
  unfoldable pub update_cache_post_execution :
      TransactionData → List Mutated → Action ObjectLockManager (Unit {0})
  unfolding refresh
  update_cache_post_execution tx mutated m = elim (get_imm_or_owned_non_gas_objects tx) [
    | err e ↦ (err Error.panic, m)
    | ok objects ↦ (
      ok tt,
      record m {
        address_owned_cache = refresh (map (λ e. e.0) objects) mutated m.address_owned_cache;
      },
    )
  ]

-- `remove` of a set.
unfoldable pub remove : ObjectId → List ObjectId → List ObjectId
remove o [] = []
remove o (k ∷ ks) = let rest = remove o ks in if k == o then rest else k ∷ rest

-- `remove_locks_from_set`, which `Drop` runs.
unfoldable pub remove_locks_from_set : List ObjectId → List ObjectId → List ObjectId
unfolding remove
remove_locks_from_set [] locks = locks
remove_locks_from_set (o ∷ os) locks = remove_locks_from_set os (remove o locks)
