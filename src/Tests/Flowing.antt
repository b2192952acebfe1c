-- ===== src/Tests/Flowing.antt =====
-- The life of the coins at concrete values.
use sui_gas_pool.Prelude.{◌+◌, ◌≤◌, ◌≡◌, refl, some, [], ◌∷◌, arith}
use sui_gas_pool.Types.{ObjectId}
use sui_gas_pool.Storage.Store.{lookup, erase}
use sui_gas_pool.Storage.Scripts.{ready_script}
use sui_gas_pool.Storage.Scripts.Expire.{joined, entries}
use sui_gas_pool.Storage.Reserved.{Reservations, find, objects}
use sui_gas_pool.Storage.Invariant.{Holds}
use sui_gas_pool.Storage.Redis.{ready_for_execution}
use sui_gas_pool.Storage.Redis.Expire.{Tracks}
use sui_gas_pool.Storage.Flow.{count, Sys, claims, spends, Reach, here, next}
use sui_gas_pool.Storage.Flow.Invariant.{IsSound}
use sui_gas_pool.Storage.Flow.Sound.{Reach-IsSound}
use sui_gas_pool.Storage.Flow.Exclusive.{Reach-exclusive}
use sui_gas_pool.Tests.{formats, formats-IsFormats, store, two_coins}

abbrev three : Reservations
three = (0, 13 ∷ []) ∷ (1, 14 ∷ []) ∷ (2, 15 ∷ []) ∷ []

abbrev begun : Sys
begun = record {
  store = record store { reservations = entries formats three };
  out = [];
  spent = [];
  known = 11 ∷ 12 ∷ 13 ∷ 14 ∷ 15 ∷ [];
}

begun-Holds : Holds formats begun.store two_coins
begun-Holds = record {
  texts = refl;
  stat_total = refl;
  stat_count = refl;
  total_exact = omega arith;
  count_exact = omega arith;
  in_range = ((omega arith, omega arith), ((omega arith, omega arith), tt));
}

begun-Tracks : Tracks formats begun.store three
unfolding find
begun-Tracks = record {
  kept = refl;
  named = ((λ e. cc), ((λ e. cc), ((λ e. cc), tt)));
  distinct = (refl, (refl, (refl, tt)));
  given_out = (omega arith, (omega arith, (omega arith, tt)));
}

single : (a : ObjectId) → count a begun.known ≤ 1
single a = ground arith

begun-IsSound : IsSound formats begun
unfolding objects
begun-IsSound = record {
  coins = two_coins;
  reserved = three;
  holds = begun-Holds;
  tracks = begun-Tracks;
  balanced = λ a. omega arith;
  single = single;
}

-- The reservation 2 is claimed, and its coin is merged away.
abbrev claimed : Sys
claimed = record begun { store = (ready_for_execution 2 begun.store).1; out = 15 ∷ [] }

abbrev merged : Sys
merged = record claimed { out = []; spent = 15 ∷ [] }

there : lookup 2 begun.store.reservations ≡ some (joined formats (15 ∷ []))
unfolding lookup
there = refl

path : Reach formats begun merged
path =
    next (next here (claims 2 (15 ∷ []) (λ e. cc) there refl))
      (spends 15 [] (λ a. omega arith) refl)

Reach-IsSound_example : IsSound formats merged
Reach-IsSound_example = Reach-IsSound formats formats-IsFormats begun-IsSound path

first_kept : lookup 0 merged.store.reservations ≡ some (joined formats (13 ∷ []))
unfolding ready_for_execution ready_script lookup erase
first_kept = refl

second_kept : lookup 1 merged.store.reservations ≡ some (joined formats (14 ∷ []))
unfolding ready_for_execution ready_script lookup erase
second_kept = refl

Reach-exclusive_example :
    count 14 (13 ∷ []) + count 14 (14 ∷ []) + count 14 merged.out + count 14 merged.spent ≤ 1
Reach-exclusive_example =
    Reach-exclusive formats formats-IsFormats begun-IsSound path 0 1 (13 ∷ []) (14 ∷ []) 14
      (λ e. omega (arith, e)) (λ e. cc) (λ e. cc) first_kept second_kept
