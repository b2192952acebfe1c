-- ===== src/Storage/Flow/Exclusive.antt =====
-- What a reservation promises to its client.
use sui_gas_pool.Prelude.{◌+◌, ◌≤◌, ◌≡◌, ◌≢◌, ◌∙◌, some, List, [], arith}
use sui_gas_pool.Types.{ObjectId, ReservationId}
use sui_gas_pool.Storage.Store.{lookup}
use sui_gas_pool.Storage.Formats.{Formats, IsFormats}
use sui_gas_pool.Storage.Reserved.{find, find-remove_other, remove, remove-IsDistinct}
use sui_gas_pool.Storage.Scripts.Expire.{joined}
use sui_gas_pool.Storage.Flow.{count, Sys, Reach}
use sui_gas_pool.Storage.Flow.Counting.{count-remove}
use sui_gas_pool.Storage.Flow.Invariant.{IsSound}
use sui_gas_pool.Storage.Flow.Claiming.{kept_objects}
use sui_gas_pool.Storage.Flow.Sound.{Reach-IsSound}

module _ (F : Formats) (laws : IsFormats F) where
  -- In every state that is reached from a sound one, if the coins that are put back are of objects
  -- that are out, the coins that the initializer adds were never seen, the statistics have room for
  -- what is added, budgets are positive and below 2^53, and the numbers of reservations do not run
  -- out, no object stands in two reservations that have objects, or twice in one, and no object of
  -- a reservation is at the same time out or spent.
  pub Reach-exclusive :
      {s t : Sys} (sound : IsSound F s) (path : Reach F s t) (i j : ReservationId)
      (v w : List ObjectId) (a : ObjectId)
      → i ≢ j
      → v ≢ []
      → w ≢ []
      → lookup i t.store.reservations ≡ some (joined F v)
      → lookup j t.store.reservations ≡ some (joined F w)
      → count a v + count a w + count a t.out + count a t.spent ≤ 1
  Reach-exclusive {t = t} sound path i j v w a other some_v some_w at_i at_j = omega (
    arith,
    now.balanced a,
    now.single a,
    count-remove a i now.reserved v now.tracks.distinct found_i,
    count-remove a j (remove i now.reserved) w
        (remove-IsDistinct i now.reserved now.tracks.distinct)
        (find-remove_other i j now.reserved other ∙ found_j),
  )
    where
      now : IsSound F t
      now = Reach-IsSound F laws sound path

      found_i : find i now.reserved ≡ some v
      found_i = kept_objects F laws i v t.store now.reserved now.tracks some_v at_i

      found_j : find j now.reserved ≡ some w
      found_j = kept_objects F laws j w t.store now.reserved now.tracks some_w at_j
