-- ===== src/Storage/Flow/Sound.antt =====
-- No object is ever in two places: through every interleaving of the steps.
use sui_gas_pool.Prelude.{◌≡◌, refl, ap, ◌∙◌, sym, subst, List, ◌++◌, map, arith, ok, Result}
use sui_gas_pool.Types.{ObjectId, coin_id}
use sui_gas_pool.Storage.Formats.{Formats, IsFormats}
use sui_gas_pool.Storage.Invariant.{Holds, Holds_of_same}
use sui_gas_pool.Storage.Reserved.{remove, release}
use sui_gas_pool.Storage.Redis.Expire.{Tracks, due, expired, expire_coins_releases}
use sui_gas_pool.Storage.Flow.{
  count, Sys, Step, arrives, reserves, claims, expires, returns, spends, locks, Reach, here, next,
}
use sui_gas_pool.Storage.Flow.Counting.{count-append, count-ids-append, count-remove, count-release}
use sui_gas_pool.Storage.Flow.Invariant.{IsSound}
use sui_gas_pool.Storage.Flow.Adding.{added-Holds, added-Tracks}
use sui_gas_pool.Storage.Flow.Claiming.{claimed-Holds, claimed-Tracks, kept_objects}
use sui_gas_pool.Storage.Flow.Reserving.{reserved_state, reserved-IsSound}

module _ (F : Formats) (laws : IsFormats F) where
  -- No step breaks it.
  pub Step-IsSound : {s t : Sys} → Step F s t → IsSound F s → IsSound F t
  unfolding reserved_state
  Step-IsSound {s} (arrives more room fresh e) sound = subst (IsSound F) (sym e) (record {
    coins = sound.coins ++ more;
    reserved = sound.reserved;
    holds = added-Holds F laws s sound more room;
    tracks = added-Tracks F laws s sound more room;
    balanced = λ a. omega (
      arith,
      sound.balanced a,
      count-ids-append a sound.coins more,
      count-append a (map coin_id more) s.known,
    );
    single = λ a. omega (arith, fresh a, count-append a (map coin_id more) s.known);
  })
  Step-IsSound {s} (reserves now target duration id positive small next_id e) sound =
      subst (IsSound F) (sym e)
        (reserved-IsSound F laws s sound now target duration id positive small next_id)
  Step-IsSound {s} (claims id v some_v there e) sound = subst (IsSound F) (sym e) (record {
    coins = sound.coins;
    reserved = remove id sound.reserved;
    holds = claimed-Holds F laws s.store sound.coins sound.reserved id v there sound.holds;
    tracks = claimed-Tracks F laws s.store sound.coins sound.reserved id v there sound.tracks;
    balanced = λ a. omega (
      arith,
      sound.balanced a,
      count-append a v s.out,
      count-remove a id sound.reserved v sound.tracks.distinct
          (kept_objects F laws id v s.store sound.reserved sound.tracks some_v there),
    );
    single = sound.single;
  })
  Step-IsSound {s} (expires now freed ran e) sound =
      let released = expire_coins_releases F laws now s.store sound.reserved sound.tracks in
      subst (IsSound F) (sym e) (record {
        coins = sound.coins;
        reserved = (release (due now s.store) sound.reserved).1;
        holds =
            subst (λ r. Holds F r.1 sound.coins) (sym released.0)
              (Holds_of_same F s.store (expired F laws now s.store sound.reserved) sound.coins refl
                refl refl sound.holds);
        tracks =
            subst (λ r. Tracks F r.1 (release (due now s.store) sound.reserved).1) (sym released.0)
              released.1;
        balanced = λ a. omega (
          arith,
          sound.balanced a,
          count-append a freed s.out,
          count-release a (due now s.store) sound.reserved sound.tracks.distinct,
          ap (count a) (same_freed (sym ran ∙ ap (λ r. r.0) released.0)),
        );
        single = sound.single;
      })
    where
      same_freed : {x y : List ObjectId} → ◌≡◌ {A = Result (List ObjectId)} (ok x) (ok y) → x ≡ y
      same_freed h = cc
  Step-IsSound {s} (returns more left room back e) sound = subst (IsSound F) (sym e) (record {
    coins = sound.coins ++ more;
    reserved = sound.reserved;
    holds = added-Holds F laws s sound more room;
    tracks = added-Tracks F laws s sound more room;
    balanced = λ a. omega (arith, sound.balanced a, count-ids-append a sound.coins more, back a);
    single = sound.single;
  })
  Step-IsSound {s} (spends o left gone e) sound = subst (IsSound F) (sym e) (record {
    coins = sound.coins;
    reserved = sound.reserved;
    holds = sound.holds;
    tracks = sound.tracks;
    balanced = λ a. omega (arith, sound.balanced a, gone a);
    single = sound.single;
  })
  Step-IsSound {s} (locks lock e) sound = subst (IsSound F) (sym e) (record {
    coins = sound.coins;
    reserved = sound.reserved;
    holds =
        Holds_of_same F s.store (record s.store { init_lock = lock }) sound.coins refl refl refl
          sound.holds;
    tracks = record {
      kept = sound.tracks.kept;
      named = sound.tracks.named;
      distinct = sound.tracks.distinct;
      given_out = sound.tracks.given_out;
    };
    balanced = sound.balanced;
    single = sound.single;
  })

  -- From a sound state, every state that the tasks can reach, in whatever order their steps are
  -- made, is sound, if the coins that are put back are of objects that are out, the coins that the
  -- initializer adds were never seen, the statistics have room for what is added, budgets are
  -- positive and below 2^53, and the numbers of reservations do not run out: an object is in at
  -- most one of the available coins, the reservations, the objects that are out and those that are
  -- spent, and no object is lost or made up.
  pub Reach-IsSound : {s t : Sys} → IsSound F s → Reach F s t → IsSound F t
  Reach-IsSound sound here = sound
  Reach-IsSound sound (next r st) = Step-IsSound st (Reach-IsSound sound r)
