-- ===== src/Storage/Flow/Reserving.antt =====
-- Reserving coins, on both branches.
use sui_gas_pool.Prelude.{
  ℕ, ◌+◌, ◌%◌, ◌^◌, ◌<◌, ◌≤◌, ◌≡◌, ap, sym, subst, some, List, [], ◌∷◌, ◌++◌, map, arith, take, inl,
  inr, ok, leb, Bool-cases,
}
use sui_gas_pool.Types.{GasCoin, coin_id, total_balance}
use sui_gas_pool.Storage.Store.{incr}
use sui_gas_pool.Storage.Formats.{Formats, IsFormats}
use sui_gas_pool.Storage.Invariant.{Holds}
use sui_gas_pool.Storage.Scripts.{max_gas_per_query}
use sui_gas_pool.Storage.Scripts.Reserve.{booked}
use sui_gas_pool.Storage.Redis.{reserve_gas_coins}
use sui_gas_pool.Storage.Redis.Reserve.{
  picked, rest, IsReservation, reserve_gas_coins_books, reserve_gas_coins_refuses,
}
use sui_gas_pool.Storage.Redis.Cycle.{reserve_gas_coins-Tracks}
use sui_gas_pool.Storage.Flow.{count, Sys}
use sui_gas_pool.Storage.Flow.Counting.{count-ids-append, count-objects-snoc}
use sui_gas_pool.Storage.Flow.Invariant.{IsSound}

module _ (F : Formats) (laws : IsFormats F) where
  -- A reservation moves the picked coins, or nothing.
  module _ (s : Sys) (sound : IsSound F s) (now target duration id : ℕ) (positive : 0 < target)
      (small : target < 2 ^ 53) (next_id : incr s.store.next_reservation_id ≡ some id) where
    unfoldable pub reserved_state : Sys
    reserved_state = record s { store = (reserve_gas_coins F now target duration s.store).1 }

    refused-IsSound :
        total_balance (take max_gas_per_query sound.coins) < target → IsSound F reserved_state
    unfolding reserved_state
    refused-IsSound poor =
        subst (λ r. IsSound F (record s { store = r.1 }))
          (sym (
            reserve_gas_coins_refuses F laws s.store sound.coins sound.holds now target duration
              small poor))
          sound

    booked-IsSound :
        target ≤ total_balance (take max_gas_per_query sound.coins) → IsSound F reserved_state
    unfolding reserved_state
    booked-IsSound rich = record {
      coins = left;
      reserved = sound.reserved ++ (id, map coin_id taken) ∷ [];
      holds = subst (λ r. Holds F r.1 left) (sym books.0) books.1;
      tracks =
          (reserve_gas_coins-Tracks F laws s.store sound.coins sound.holds sound.reserved now target
            duration id ((now + duration) % 2 ^ 64) sound.tracks positive small rich next_id
            (omega arith)).0;
      balanced = λ a. omega (
        arith,
        sound.balanced a,
        count-objects-snoc a sound.reserved id (map coin_id taken),
        count-ids-append a taken left,
        ap (λ cs. count a (map coin_id cs)) books.2.from_front,
      );
      single = sound.single;
    }
      where
        taken : List GasCoin
        taken = picked F laws s.store sound.coins sound.holds target

        left : List GasCoin
        left = rest F laws s.store sound.coins sound.holds target

        books :
            (reserve_gas_coins F now target duration s.store
              ≡ (ok (id, taken), booked F s.store ((now + duration) % 2 ^ 64) id taken left))
            × Holds F (booked F s.store ((now + duration) % 2 ^ 64) id taken left) left
            × IsReservation F laws s.store sound.coins sound.holds target taken left
        books =
            reserve_gas_coins_books F laws s.store sound.coins sound.holds now target duration id
              positive small rich next_id

    pub reserved-IsSound : IsSound F reserved_state
    reserved-IsSound =
        elim (Bool-cases (leb target (total_balance (take max_gas_per_query sound.coins)))) [
          | inl rich ↦ booked-IsSound (ground arith)
          | inr poor ↦ refused-IsSound (ground arith)
        ]
