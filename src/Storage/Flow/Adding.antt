-- ===== src/Storage/Flow/Adding.antt =====
-- Adding coins to the store, from the initializer or from a transaction.
use sui_gas_pool.Prelude.{ℕ, ◌≡◌, ◌∙◌, sym, subst, some, List, ◌++◌, arith, length, ok}
use sui_gas_pool.Prelude.Int.{pos}
use sui_gas_pool.Types.{GasCoin, total_balance}
use sui_gas_pool.Storage.Formats.{Formats, IsFormats}
use sui_gas_pool.Storage.Invariant.{Holds}
use sui_gas_pool.Storage.Scripts.AddNew.{grown}
use sui_gas_pool.Storage.Redis.{add_new_coins}
use sui_gas_pool.Storage.Redis.AddNew.{add_new_coins_appends}
use sui_gas_pool.Storage.Redis.Expire.{Tracks}
use sui_gas_pool.Storage.Flow.{Sys, HasRoom}
use sui_gas_pool.Storage.Flow.Invariant.{IsSound}

some_pos : (a b : ℕ) → ◌≡◌ {A = _} (some (pos a)) (some (pos b)) → a ≡ b
some_pos a b e = cc

module _ (F : Formats) (laws : IsFormats F) where
  -- Adding coins for which there is room.
  module _ (s : Sys) (sound : IsSound F s) (more : List GasCoin) (room : HasRoom s.store more) where
    pub same_total : total_balance sound.coins ≡ room.total
    same_total = some_pos _ _ (sym sound.holds.stat_total ∙ room.stat_total)

    pub same_number : length sound.coins ≡ room.number
    same_number = some_pos _ _ (sym sound.holds.stat_count ∙ room.stat_count)

    pub adds :
        (add_new_coins F more s.store ≡ (ok tt, grown F s.store sound.coins more))
        × Holds F (grown F s.store sound.coins more) (sound.coins ++ more)
    adds =
        add_new_coins_appends F laws s.store sound.coins more sound.holds room.in_range
          (omega (arith, same_total, room.total_fits)) (omega (arith, same_number, room.count_fits))

    pub added-Holds : Holds F (add_new_coins F more s.store).1 (sound.coins ++ more)
    added-Holds = subst (λ r. Holds F r.1 (sound.coins ++ more)) (sym adds.0) adds.1

    pub added-Tracks : Tracks F (add_new_coins F more s.store).1 sound.reserved
    unfolding grown
    added-Tracks =
        subst (λ r. Tracks F r.1 sound.reserved) (sym adds.0)
          (record {
            kept = sound.tracks.kept;
            named = sound.tracks.named;
            distinct = sound.tracks.distinct;
            given_out = sound.tracks.given_out;
          })
