-- ===== src/Storage/Redis/Cycle.antt =====
-- From a reservation to its expiry: what `reserve_gas_coins` books, `expire_coins` finds.
use mathlib.Core.List.{append-nil, flatten, Perm}
use sui_gas_pool.Prelude.{
  ℕ, ◌+◌, ◌%◌, ◌^◌, take, ◌≤◌, ◌<◌, ◌≡◌, ◌≢◌, refl, sym, ap, subst, ok, ◌∙◌, none, some, true, List,
  [], ◌∷◌, ◌++◌, map, arith, contains,
}
use sui_gas_pool.Text.{Text, join}
use sui_gas_pool.Types.{ObjectId, ReservationId, GasCoin, coin_id, total_balance}
use sui_gas_pool.Storage.Double.{double}
use sui_gas_pool.Storage.Store.{Store, insert, incr, from_zero}
use sui_gas_pool.Storage.Store.Queue.{members_until-zadd, insert_new, incr-next}
use sui_gas_pool.Storage.Formats.{Formats, IsFormats}
use sui_gas_pool.Storage.Reserved.{
  Reservations, find, Every, Every-snoc, Every-map, find_above, IsDistinct-snoc, release,
  release_all, objects,
}
use sui_gas_pool.Storage.Scripts.Reserve.{booked}
use sui_gas_pool.Storage.Scripts.Expire.{joined, entries, lookup-entries-none}
use sui_gas_pool.Storage.Redis.Expire.{Tracks, due, expire_coins_releases}
use sui_gas_pool.Storage.Invariant.{Holds}
use sui_gas_pool.Storage.Scripts.{max_gas_per_query}
use sui_gas_pool.Storage.Redis.Reserve.{picked, rest, reserve_gas_coins_books}
use sui_gas_pool.Storage.Redis.{expire_coins, reserve_gas_coins}

entries-snoc :
    (F : Formats) (rs : Reservations) (k : ReservationId) (v : List ObjectId)
    → entries F (rs ++ (k, v) ∷ []) ≡ entries F rs ++ (k, joined F v) ∷ []
entries-snoc F [] k v = refl
entries-snoc F ((j, w) ∷ m) k v = ap (◌∷◌ (j, joined F w)) (entries-snoc F m k v)

ids-joined :
    (F : Formats) (cs : List GasCoin)
    → map (λ c. F.id_text c.object_ref.id) cs ≡ map F.id_text (map coin_id cs)
ids-joined F [] = refl
ids-joined F (c ∷ cs) = ap (◌∷◌ (F.id_text c.object_ref.id)) (ids-joined F cs)

coin_ids-ne-nil : (cs : List GasCoin) → cs ≢ [] → map coin_id cs ≢ []
coin_ids-ne-nil [] h = absurd (h refl)
coin_ids-ne-nil (c ∷ cs) h = λ e. cc

-- The next id is that of no reservation that is kept.
pub next_id-find :
    (F : Formats) (s : Store) (rs : Reservations) (id : ℕ)
    → Tracks F s rs
    → incr s.next_reservation_id ≡ some id
    → find id rs ≡ none
next_id-find F s rs id t next =
    find_above id (from_zero s.next_reservation_id) rs
      (omega (arith, incr-next s.next_reservation_id id next)) t.given_out

-- The same, said of the state in which a reservation leaves the store.
pub booked-Tracks :
    (F : Formats) (s : Store) (rs : Reservations) (expiration id now : ℕ)
    (picked rest : List GasCoin)
    → Tracks F s rs
    → incr s.next_reservation_id ≡ some id
    → picked ≢ []
    → double expiration ≤ double now
    → let after = booked F s expiration id picked rest in
      Tracks F after (rs ++ (id, map coin_id picked) ∷ []) × (contains (due now after) id ≡ true)
unfolding booked
booked-Tracks F s rs expiration id now picked rest t next some_coin later = (
  record {
    kept = keys;
    named = Every-snoc _ rs id _ t.named (coin_ids-ne-nil picked some_coin);
    distinct = IsDistinct-snoc rs id _ t.distinct unseen;
    given_out =
        Every-snoc _ rs id _
          (Every-map _ (λ j v. j ≤ id) rs (λ j v h. omega (arith, above_all)) t.given_out)
          (omega arith);
  },
  members_until-zadd (double now) (double expiration) id s.expiration_queue later,
)
  where
    ids : Text
    ids = join (map (λ c. F.id_text c.object_ref.id) picked)

    above_all : from_zero s.next_reservation_id < id
    above_all = omega (arith, incr-next s.next_reservation_id id next)

    unseen : find id rs ≡ none
    unseen = next_id-find F s rs id t next

    keys : insert id ids s.reservations ≡ entries F (rs ++ (id, map coin_id picked) ∷ [])
    keys =
        ap (insert id ids) t.kept
        ∙ insert_new id ids (entries F rs) (lookup-entries-none F id rs unseen)
        ∙ ap (λ text. entries F rs ++ (id, join text) ∷ []) (ids-joined F picked)
        ∙ sym (entries-snoc F rs id (map coin_id picked))

-- On a store that keeps reservations of which every one is due, expiring returns all objects that were reserved, in some order, and
-- the store keeps no reservation.
pub expire_coins_all :
    (F : Formats) (laws : IsFormats F) (now : ℕ) (s : Store) (rs : Reservations)
    → Tracks F s rs
    → Every (λ j v. contains (due now s) j ≡ true) rs
    → (freed : List ObjectId) × ((expire_coins F now s).0 ≡ ok freed)
      × ((expire_coins F now s).1.reservations ≡ [])
      × Perm freed (objects rs)
unfolding objects
expire_coins_all F laws now s rs t all =
    let (ran, kept, perm) = expire_coins_releases F laws now s rs t in
    let none_left = release_all (due now s) rs all in
    (
      flatten (release (due now s) rs).0,
      ap (λ r. r.0) ran,
      ap (λ r. r.1.reservations) ran ∙ ap (entries F) none_left,
      subst (λ l. Perm l (objects rs)) (append-nil _)
          (subst (λ l. Perm (flatten (release (due now s) rs).0 ++ objects l) (objects rs))
            none_left perm),
    )

-- On a store that holds coins and keeps reservations, a reservation that succeeds as in
-- `reserve_gas_coins_books` is kept behind the others with the ids of its coins, and is due at every
-- time whose double is not below that of its expiration.
pub reserve_gas_coins-Tracks :
    (F : Formats) (laws : IsFormats F) (s : Store) (coins : List GasCoin) (holds : Holds F s coins)
    (rs : Reservations) (now target duration id later : ℕ)
    → Tracks F s rs
    → 0 < target
    → target < 2 ^ 53
    → target ≤ total_balance (take max_gas_per_query coins)
    → incr s.next_reservation_id ≡ some id
    → double ((now + duration) % 2 ^ 64) ≤ double later
    → let after = (reserve_gas_coins F now target duration s).1 in
      Tracks F after (rs ++ (id, map coin_id (picked F laws s coins holds target)) ∷ [])
      × (contains (due later after) id ≡ true)
reserve_gas_coins-Tracks F laws s coins holds rs now target duration id later t positive small h
      next in_time =
    let books =
      reserve_gas_coins_books F laws s coins holds now target duration id positive small h next in
    let taken = picked F laws s coins holds target in
    subst
      (λ after.
        Tracks F after (rs ++ (id, map coin_id taken) ∷ [])
        × (contains (due later after) id ≡ true))
      (sym (ap (λ r. r.1) books.0))
      (booked-Tracks F s rs ((now + duration) % 2 ^ 64) id later taken
        (rest F laws s coins holds target) t next some_coin in_time)
  where
    some_coin : picked F laws s coins holds target ≢ []
    some_coin e = omega (
      arith,
      (reserve_gas_coins_books F laws s coins holds now target duration id positive small h
          next).2.covers,
      ap total_balance e,
    )
