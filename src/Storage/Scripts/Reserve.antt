-- ===== src/Storage/Scripts/Reserve.antt =====
-- `reserve_gas_coins.lua` on a store that holds coins.
use mathlib.Core.List.{map-append}
use sui_gas_pool.Prelude.{
  ℕ, ◌+◌, ◌^◌, ◌≤◌, ◌<◌, ◌≡◌, sym, ap, length-map, ◌∙◌, Option, some, List, map, ok, arith, ◌>>=◌,
  >>=-ok, length, length-append, lt→ltb, le→not_ltb,
}
use sui_gas_pool.Prelude.Int.{pos, ◌-ℤ◌}
use sui_gas_pool.Text.{Text, join}
use sui_gas_pool.Types.{GasCoin, total_balance}
use sui_gas_pool.Storage.Double.{double, double_exact, double_ℤ_exact}
use sui_gas_pool.Storage.Store.{Store, insert, zadd, incr}
use sui_gas_pool.Storage.Formats.{Formats, IsFormats, coin_text}
use sui_gas_pool.Storage.Pick.{pick, append-pick}
use sui_gas_pool.Storage.Invariant.{Holds, total_balance-append}
use sui_gas_pool.Storage.Scripts.{
  take_coins, finish_loop, Picked, ReserveReply, no_coins, reserve_script, settle, take_stats, book,
  max_gas_per_query, nothing_picked,
}
use sui_gas_pool.Storage.Scripts.Loop.{take_coins-pick, push_front_all-reverse, gather}

-- The store after a reservation of `picked` under `id`, with `rest` left.
unfoldable pub booked : Formats → Store → ℕ → ℕ → List GasCoin → List GasCoin → Store
booked F s expiration id picked rest = record s {
  available_gas_coins = map (coin_text F) rest;
  available_coin_total_balance = some (pos (total_balance rest));
  available_coin_count = some (pos (length rest));
  next_reservation_id = some id;
  reservations = insert id (join (map (λ c. F.id_text c.object_ref.id) picked)) s.reservations;
  expiration_queue = zadd (double expiration) id s.expiration_queue;
}

unfoldable pub reply_of : Formats → ℕ → List GasCoin → List GasCoin → ReserveReply
reply_of F id picked rest = record {
  reservation_id = id;
  coins = map (coin_text F) picked;
  new_total_balance = pos (total_balance rest);
  new_coin_count = pos (length rest);
}

abbrev taken : Formats → List GasCoin → Picked
taken F cs = record {
  total = total_balance cs;
  coins = map (coin_text F) cs;
  object_ids = map (λ c. F.id_text c.object_ref.id) cs;
}

gather-taken :
    (F : Formats) (laws : IsFormats F) (cs : List GasCoin)
    → gather F laws nothing_picked cs ≡ taken F cs
gather-taken F laws cs = λ i. record {
  total = no_more i;
  coins = map (coin_text F) cs;
  object_ids = map (λ c. F.id_text c.object_ref.id) cs;
}
  where
    no_more : 0 + total_balance cs ≡ total_balance cs
    no_more = omega arith

pos-sub : (a b c : ℕ) → a ≡ b + c → pos a -ℤ pos b ≡ pos c
unfolding ◌-ℤ◌
pos-sub a b c h = ground arith

take_stats_lem :
    (s : Store) (total count left kept taken_total taken_count : ℕ)
    → s.available_coin_total_balance ≡ some (pos total)
    → s.available_coin_count ≡ some (pos count)
    → total ≡ taken_total + left
    → count ≡ taken_count + kept
    → total < 2 ^ 53
    → count < 2 ^ 53
    → take_stats taken_total taken_count s ≡ (
      ok (pos left, pos kept),
      record s {
        available_coin_total_balance = some (pos left);
        available_coin_count = some (pos kept);
      },
    )
unfolding take_stats
take_stats_lem s total count left kept taken_total taken_count e e' t c h h' = rw (
  take_stats,
  e,
  e',
  pos-sub total taken_total left t,
  pos-sub count taken_count kept c,
  double_ℤ_exact left (omega arith),
  double_ℤ_exact kept (omega arith),
)

module _ (F : Formats) (laws : IsFormats F) (s : Store) (coins : List GasCoin) where
  abbrev text : GasCoin → List ℕ
  text = coin_text F

  module _ (target expiration : ℕ) (small : target < 2 ^ 53) (holds : Holds F s coins) where
    abbrev picked : List GasCoin
    picked = (pick max_gas_per_query target 0 coins).0

    abbrev rest : List GasCoin
    rest = (pick max_gas_per_query target 0 coins).1

    reserve-settle :
        reserve_script target expiration s
        ≡ settle target expiration
            (taken F picked)
            (record s { available_gas_coins = map text rest })
    unfolding reserve_script finish_loop
    reserve-settle =
        ap (λ goal. finish_loop goal expiration (loop goal) s) (double_exact target small)
        ∙ ap (λ l. finish_loop target expiration l s) looped
      where
        loop : ℕ → Option Picked × List Text
        loop goal = take_coins max_gas_per_query goal nothing_picked s.available_gas_coins

        looped : loop target ≡ (some (taken F picked), map text rest)
        looped = rw (
          holds.texts,
          take_coins-pick F laws max_gas_per_query target nothing_picked coins
              (omega (arith, holds.total_exact)),
          gather-taken F laws picked,
        )

    -- Too small a balance changes nothing: what was popped is pushed back in its order.
    pub reserve_script_refuses :
        total_balance picked < target → reserve_script target expiration s ≡ (ok no_coins, s)
    unfolding settle
    reserve_script_refuses h = rw (
      reserve-settle,
      settle,
      lt→ltb (total_balance picked) target h,
      push_front_all-reverse (map text picked) (map text rest),
      ← map-append text picked rest,
      append-pick max_gas_per_query target 0 coins,
      ← holds.texts,
    )

    total-rest : total_balance coins ≡ total_balance picked + total_balance rest
    total-rest =
        ap total_balance (sym (append-pick max_gas_per_query target 0 coins))
        ∙ total_balance-append picked rest

    length-rest : length coins ≡ length picked + length rest
    length-rest =
        ap length (sym (append-pick max_gas_per_query target 0 coins)) ∙ length-append picked rest

    pub reserve_script_books :
        (id : ℕ)
        → target ≤ total_balance picked
        → incr s.next_reservation_id ≡ some id
        → reserve_script target expiration s
          ≡ (ok (reply_of F id picked rest), booked F s expiration id picked rest)
    reserve_script_books id enough next =
        reserve-settle
        ∙ settle_enough
        ∙ >>=-ok (take_stats (total_balance picked) (length (map text picked)))
            (book expiration (taken F picked)) popped stats
        ∙ booking
      where
        popped : Store
        popped = record s { available_gas_coins = map text rest }

        settle_enough :
            settle target expiration (taken F picked) popped
            ≡ (take_stats (total_balance picked) (length (map text picked))
                  >>= book expiration (taken F picked))
                popped
        settle_enough = unfold settle in rw (le→not_ltb (total_balance picked) target enough)

        counted : Store
        counted = record popped {
          available_coin_total_balance = some (pos (total_balance rest));
          available_coin_count = some (pos (length rest));
        }

        stats :
            take_stats (total_balance picked) (length (map text picked)) popped
            ≡ (ok (pos (total_balance rest), pos (length rest)), counted)
        stats =
            take_stats_lem popped (total_balance coins) (length coins) (total_balance rest)
              (length rest) (total_balance picked) (length (map text picked)) holds.stat_total
              holds.stat_count total-rest (omega (arith, length-rest, length-map text picked))
              holds.total_exact holds.count_exact

        booking :
            book expiration (taken F picked) (pos (total_balance rest), pos (length rest)) counted
            ≡ (ok (reply_of F id picked rest), booked F s expiration id picked rest)
        booking = unfold book reply_of booked in rw (next, book)
