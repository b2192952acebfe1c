-- ===== src/Storage/Flow/Claiming.antt =====
-- Claiming a reservation.
use sui_gas_pool.Prelude.{
  ◌≡◌, ◌≢◌, refl, ap, ◌∙◌, sym, subst, some, none, List, [], map, Option-cases, inl, inr, ok,
  Result, Option,
}
use sui_gas_pool.Text.{Text, split}
use sui_gas_pool.Types.{ObjectId, ReservationId, GasCoin}
use sui_gas_pool.Storage.Store.{Store, lookup, erase}
use sui_gas_pool.Storage.Formats.{Formats, IsFormats}
use sui_gas_pool.Storage.Invariant.{Holds, Holds_of_same}
use sui_gas_pool.Storage.Reserved.{
  Reservations, find, remove, find-Every, remove-Every, remove-IsDistinct,
}
use sui_gas_pool.Storage.Scripts.{ready_script}
use sui_gas_pool.Storage.Scripts.Expire.{
  joined, lookup-entries-none, lookup-entries-some, erase-entries,
}
use sui_gas_pool.Storage.Redis.{collect_all, parse_id, ready_for_execution}
use sui_gas_pool.Storage.Redis.Expire.{Tracks, split-joined, parse_ids}

module _ (F : Formats) (laws : IsFormats F) where
  -- The objects of a reservation can be read off its text.
  joined-injective : (v w : List ObjectId) → v ≢ [] → w ≢ [] → joined F v ≡ joined F w → v ≡ w
  joined-injective v w some_v some_w e =
      same_ok v w
        (sym (parse_ids F laws v) ∙ ap (collect_all (parse_id F)) texts ∙ parse_ids F laws w)
    where
      texts : map F.id_text v ≡ map F.id_text w
      texts = sym (split-joined F laws v some_v) ∙ ap split e ∙ split-joined F laws w some_w

      same_ok : (x y : List ObjectId) → ◌≡◌ {A = Result (List ObjectId)} (ok x) (ok y) → x ≡ y
      same_ok x y h = cc

  pub kept_objects :
      (id : ReservationId) (v : List ObjectId) (m : Store) (rs : Reservations)
      → Tracks F m rs
      → v ≢ []
      → lookup id m.reservations ≡ some (joined F v)
      → find id rs ≡ some v
  kept_objects id v m rs t some_v e = elim (Option-cases (find id rs)) [
    | inl absent ↦
        absurd (
          none-ne-some (sym (lookup-entries-none F id rs absent) ∙ ap (lookup id) (sym t.kept) ∙ e))
    | inr (w, found) ↦
        found
        ∙ ap some (
            joined-injective w v (find-Every (λ j u. u ≢ []) id w rs t.named found).1 some_v (
              same_joined (joined F w) (joined F v)
                (sym (lookup-entries-some F id rs w found) ∙ ap (lookup id) (sym t.kept) ∙ e)))
  ]
    where
      none-ne-some : {t : Text} → ◌≡◌ {A = Option Text} none (some t) → ⊥
      none-ne-some h = cc

      same_joined : (x y : Text) → ◌≡◌ {A = Option Text} (some x) (some y) → x ≡ y
      same_joined x y h = cc

  -- A claim takes the reservation away.
  module _ (s : Store) (coins : List GasCoin) (rs : Reservations) (id : ReservationId)
      (v : List ObjectId) (there : lookup id s.reservations ≡ some (joined F v)) where
    claimed : (ready_for_execution id s).1 ≡ record s { reservations = erase id s.reservations }
    unfolding ready_for_execution ready_script
    claimed = rw (there, ready_script) refl

    pub claimed-Holds : Holds F s coins → Holds F (ready_for_execution id s).1 coins
    claimed-Holds h =
        Holds_of_same F s (ready_for_execution id s).1 coins
          (ap (λ t. t.available_gas_coins) claimed)
          (ap (λ t. t.available_coin_total_balance) claimed)
          (ap (λ t. t.available_coin_count) claimed) h

    pub claimed-Tracks : Tracks F s rs → Tracks F (ready_for_execution id s).1 (remove id rs)
    claimed-Tracks t =
        subst (λ s'. Tracks F s' (remove id rs)) (sym claimed)
          (record {
            kept = ap (erase id) t.kept ∙ erase-entries F id rs;
            named = remove-Every _ id rs t.named;
            distinct = remove-IsDistinct id rs t.distinct;
            given_out = remove-Every _ id rs t.given_out;
          })
