-- ===== src/Storage/Redis/Reserve.antt =====
-- `reserve_gas_coins` of the trait `Storage`, met by `RedisStorage`.
use sui_gas_pool.Prelude.{
  All-split, ℕ, ◌+◌, ◌%◌, ◌^◌, ◌≤◌, ◌<◌, ◌≡◌, refl, ap, ◌∙◌, some, List, [], ◌∷◌, ◌++◌, map, ok,
  err, Error, arith, >>=-ok, length, length-append, take, All, subst, sym, and_then,
}
use sui_gas_pool.Types.{GasCoin, IsCoin, total_balance}
use sui_gas_pool.Storage.Store.{Store, incr}
use sui_gas_pool.Storage.Formats.{Formats, IsFormats, coin_text, parse_coin}
use sui_gas_pool.Storage.Formats.RoundTrip.{parse_coin-coin_text}
use sui_gas_pool.Storage.Pick.{
  pick, append-pick, length-pick-le, pick-enough, pick-le-take, all_but_last, pick-all_but_last,
  pick-nonempty,
}
use sui_gas_pool.Storage.Invariant.{Holds, total_balance-append}
use sui_gas_pool.Storage.Scripts.{reserve_script, max_gas_per_query}
use sui_gas_pool.Storage.Scripts.Reserve.{
  booked, reply_of, reserve_script_refuses, reserve_script_books,
}
use sui_gas_pool.Storage.Redis.{collect_all, finish_reserve, reserve_gas_coins}

module _ (F : Formats) (laws : IsFormats F) where
  collect_all-parse_coin :
      (cs : List GasCoin)
      → All IsCoin cs
      → collect_all (parse_coin F) (map (coin_text F) cs) ≡ ok cs
  unfolding collect_all
  collect_all-parse_coin [] h = refl
  collect_all-parse_coin (c ∷ cs) h =
      rw (parse_coin-coin_text F laws c h.0, and_then, collect_all-parse_coin cs h.1)

  finish_reserve-reply :
      (id : ℕ) (picked rest : List GasCoin) (c : GasCoin) (cs : List GasCoin)
      → picked ≡ c ∷ cs
      → All IsCoin picked
      → finish_reserve F (reply_of F id picked rest) ≡ ok (id, picked)
  unfolding finish_reserve reply_of
  finish_reserve-reply id [] rest c cs e h = cc
  finish_reserve-reply id (p ∷ ps) rest c cs e h = rw (collect_all-parse_coin (p ∷ ps) h)

  module _ (s : Store) (coins : List GasCoin) (holds : Holds F s coins) where
    -- The coins that are taken, and those that stay.
    abbrev pub picked : ℕ → List GasCoin
    picked target = (pick max_gas_per_query target 0 coins).0

    abbrev pub rest : ℕ → List GasCoin
    rest target = (pick max_gas_per_query target 0 coins).1

    in_order : (target : ℕ) → picked target ++ rest target ≡ coins
    in_order target = append-pick max_gas_per_query target 0 coins

    fits : (target : ℕ) → All IsCoin (picked target) × All IsCoin (rest target)
    fits target =
        All-split IsCoin (picked target) (rest target)
          (subst (All IsCoin) (sym (in_order target)) holds.in_range)

    booked-Holds :
        (target expiration id : ℕ)
        → Holds F (booked F s expiration id (picked target) (rest target)) (rest target)
    unfolding booked
    booked-Holds target expiration id = record {
      texts = refl;
      stat_total = refl;
      stat_count = refl;
      total_exact = omega (
        arith,
        ap total_balance (in_order target),
        total_balance-append (picked target) (rest target),
        holds.total_exact,
      );
      count_exact = omega (
        arith,
        ap length (in_order target),
        length-append (picked target) (rest target),
        holds.count_exact,
      );
      in_range = (fits target).1;
    }

    enough :
        (target : ℕ)
        → target ≤ total_balance (take max_gas_per_query coins)
        → target ≤ total_balance (picked target)
    enough target h = omega (arith, pick-enough max_gas_per_query target 0 coins (omega arith))

    -- What the trait promises of a reservation: the coins are the first of the list and are gone from
    -- it, they are worth the budget and at most 256, and without the last one they are not worth it.
    pub record IsReservation (target : ℕ) (taken left : List GasCoin) : Type 0 where
      pub from_front : taken ++ left ≡ coins
      pub covers : target ≤ total_balance taken
      pub bounded : length taken ≤ max_gas_per_query
      pub minimal : total_balance (all_but_last taken) < target

    picked-IsReservation :
        (target : ℕ)
        → 0 < target
        → target ≤ total_balance (take max_gas_per_query coins)
        → IsReservation target (picked target) (rest target)
    picked-IsReservation target positive h = record {
      from_front = in_order target;
      covers = enough target h;
      bounded = length-pick-le max_gas_per_query target 0 coins;
      minimal = pick-all_but_last target coins positive (enough target h);
    }

    -- On a store that holds coins, if the first 256 are worth a positive budget below 2^53 and the
    -- counter of reservations has a next value, a reservation succeeds under that value with the coins that the trait
    -- promises; the store then holds the other coins, in their order, and the reservation is booked
    -- with its expiration time.
    pub reserve_gas_coins_books :
        (now target duration id : ℕ)
        → 0 < target
        → target < 2 ^ 53
        → target ≤ total_balance (take max_gas_per_query coins)
        → incr s.next_reservation_id ≡ some id
        → let after = booked F s ((now + duration) % 2 ^ 64) id (picked target) (rest target) in
          (reserve_gas_coins F now target duration s ≡ (ok (id, picked target), after))
          × Holds F after (rest target)
          × IsReservation target (picked target) (rest target)
    unfolding reserve_gas_coins
    reserve_gas_coins_books now target duration id positive small h next = (
      >>=-ok (reserve_script target ((now + duration) % 2 ^ 64)) _ s
            (reserve_script_books F laws s coins target _ small holds id (enough target h) next)
          ∙ ap (λ r. (r, after)) finished,
      booked-Holds target ((now + duration) % 2 ^ 64) id,
      picked-IsReservation target positive h,
    )
      where
        after : Store
        after = booked F s ((now + duration) % 2 ^ 64) id (picked target) (rest target)

        finished :
            finish_reserve F (reply_of F id (picked target) (rest target)) ≡ ok (id, picked target)
        finished =
            let (c, cs, e) = pick-nonempty target coins positive (enough target h) in
            finish_reserve-reply id (picked target) (rest target) c cs e (fits target).0

    -- On a store that holds coins, if the first 256 are worth less than a budget below 2^53, the
    -- reservation fails and leaves the store as it was.
    pub reserve_gas_coins_refuses :
        (now target duration : ℕ)
        → target < 2 ^ 53
        → total_balance (take max_gas_per_query coins) < target
        → reserve_gas_coins F now target duration s ≡ (err Error.unable_to_reserve, s)
    unfolding reserve_gas_coins finish_reserve
    reserve_gas_coins_refuses now target duration small h =
        >>=-ok (reserve_script target ((now + duration) % 2 ^ 64)) _ s (
          reserve_script_refuses F laws s coins target _ small holds
            (omega (arith, pick-le-take max_gas_per_query target 0 coins)))
