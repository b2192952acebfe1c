-- ===== src/Storage/Redis/Expire.antt =====
-- `expire_coins` and `ready_for_execution` of the trait `Storage`, met by `RedisStorage`.
use mathlib.Core.List.{flatten, Perm, map-append}
use sui_gas_pool.Prelude.{
  ℕ, ◌≤◌, ◌≡◌, ◌≢◌, refl, sym, ap, ◌∙◌, true, List, [], ◌∷◌, ◌++◌, map, Error, ok, err, >>=-ok,
  and_then, contains, All, Option-cases, Bool-cases, leb, inl, inr,
}
use sui_gas_pool.Text.{split, split-join, Plain}
use sui_gas_pool.Types.{ObjectId, ReservationId}
use sui_gas_pool.Storage.Double.{double}
use sui_gas_pool.Storage.Store.{Store, members_until, remove_until, from_zero}
use sui_gas_pool.Storage.Formats.{Formats, IsFormats}
use sui_gas_pool.Storage.Reserved.{
  Reservations, find, remove, release, objects, IsDistinct, Every, find-Every, remove-Every,
  release-perm, release-IsDistinct,
}
use sui_gas_pool.Storage.Scripts.{expire_script}
use sui_gas_pool.Storage.Scripts.Expire.{
  joined, entries, collect-entries, ready_script_twice, ready_script-expire_script,
}
use sui_gas_pool.Storage.Redis.{collect_all, parse_id, parts, expire_coins, ready_for_execution}

-- The store keeps these reservations: each holds an object, no id stands twice and none is above the
-- last id that was given out.
pub record Tracks (F : Formats) (s : Store) (rs : Reservations) : Type 0 where
  pub kept : s.reservations ≡ entries F rs
  pub named : Every (λ j v. v ≢ []) rs
  pub distinct : IsDistinct rs
  pub given_out : Every (λ j v. j ≤ from_zero s.next_reservation_id) rs

pub release-Every {ℓ} :
    (P : ReservationId → List ObjectId → Type ℓ) (ids : List ℕ) (rs : Reservations)
    → Every P rs
    → Every P (release ids rs).1
unfolding release
release-Every P [] rs h = h
release-Every P (id ∷ ids) rs h = elim (Option-cases (find id rs)) [
  | inl e ↦ rw (e, release) (release-Every P ids rs h)
  | inr (v, e) ↦ rw (e, release) (release-Every P ids (remove id rs) (remove-Every P id rs h))
]

release-named :
    (ids : List ℕ) (rs : Reservations)
    → Every (λ j v. v ≢ []) rs
    → All (λ v. v ≢ []) (release ids rs).0
unfolding release
release-named [] rs h = tt
release-named (id ∷ ids) rs h = elim (Option-cases (find id rs)) [
  | inl e ↦ rw (e, release) (release-named ids rs h)
  | inr (v, e) ↦
      rw (e, release)
        (
          (find-Every (λ j v. v ≢ []) id v rs h e).1,
          release-named ids (remove id rs) (remove-Every (λ j v. v ≢ []) id rs h),
        )
]

-- The reservations whose time has come, as they stand in the queue.
abbrev pub due : ℕ → Store → List ℕ
due now s = members_until (double now) s.expiration_queue

module _ (F : Formats) (laws : IsFormats F) where
  texts-Plain : (v : List ObjectId) → All Plain (map F.id_text v)
  texts-Plain [] = tt
  texts-Plain (i ∷ v) = (laws.id_text-Plain i, texts-Plain v)

  pub split-joined : (v : List ObjectId) → v ≢ [] → split (joined F v) ≡ map F.id_text v
  split-joined [] h = absurd (h refl)
  split-joined (i ∷ v) h = split-join (F.id_text i) (map F.id_text v) (texts-Plain (i ∷ v))

  parts-joined :
      (vs : List (List ObjectId))
      → All (λ v. v ≢ []) vs
      → parts F (map (joined F) vs) ≡ map F.id_text (flatten vs)
  unfolding parts flatten
  parts-joined [] h = refl
  parts-joined (v ∷ vs) h =
      rw (split-joined v h.0, parts-joined vs h.1) (sym (map-append F.id_text v (flatten vs)))

  pub parse_ids : (v : List ObjectId) → collect_all (parse_id F) (map F.id_text v) ≡ ok v
  unfolding collect_all parse_id
  parse_ids [] = refl
  parse_ids (i ∷ v) = rw (laws.id_parse-id_text i, and_then, parse_ids v)

  abbrev pub expired : ℕ → Store → Reservations → Store
  expired now s rs = record s {
    reservations = entries F (release (due now s) rs).1;
    expiration_queue = remove_until (double now) s.expiration_queue;
  }

  -- On a store that keeps reservations, expiring returns the objects of the reservations that are due,
  -- and the store keeps the others. What is returned and what is still reserved are together the
  -- objects that were reserved before.
  pub expire_coins_releases :
      (now : ℕ) (s : Store) (rs : Reservations)
      → Tracks F s rs
      → let (freed, left) = release (due now s) rs in
        (expire_coins F now s ≡ (ok (flatten freed), expired now s rs))
        × Tracks F (expired now s rs) left
        × Perm (flatten freed ++ objects left) (objects rs)
  unfolding expire_coins
  expire_coins_releases now s rs t = (
    >>=-ok (expire_script now) _ s ran ∙ ap (λ r. (r, expired now s rs)) parsed,
    record {
      kept = refl;
      named = release-Every _ (due now s) rs t.named;
      distinct = release-IsDistinct (due now s) rs t.distinct;
      given_out = release-Every _ (due now s) rs t.given_out;
    },
    release-perm (due now s) rs t.distinct,
  )
    where
      ran : expire_script now s ≡ (ok (map (joined F) (release (due now s) rs).0), expired now s rs)
      ran = unfold expire_script in rw (t.kept, collect-entries F (due now s) rs)

      parsed :
          collect_all (parse_id F) (parts F (map (joined F) (release (due now s) rs).0))
          ≡ ok (flatten (release (due now s) rs).0)
      parsed =
          rw (parts-joined (release (due now s) rs).0 (release-named (due now s) rs t.named))
            (parse_ids (flatten (release (due now s) rs).0))

nothing_removed : (now : ℕ) (q : List (ℕ × ℕ)) → members_until now q ≡ [] → remove_until now q ≡ q
unfolding members_until remove_until
nothing_removed now [] h = refl
nothing_removed now ((score, a) ∷ q) h = elim (Bool-cases (leb score now)) [
  | inl old ↦ absurd (not_empty (rw old at h))
  | inr later ↦ rw later (ap (◌∷◌ (score, a)) (nothing_removed now q (rw later at h)))
]
  where
    not_empty : a ∷ members_until now q ≢ []
    not_empty e = cc

-- Where nothing is due, the expiry returns nothing and changes nothing.
pub expire_coins_idle :
    (F : Formats) (now : ℕ) (s : Store) → due now s ≡ [] → expire_coins F now s ≡ (ok [], s)
unfolding expire_coins expire_script
expire_coins_idle F now s h =
    rw (h, nothing_removed (double now) s.expiration_queue h, expire_coins, expire_script) refl

-- Once a reservation has been claimed, a second claim of it fails and changes nothing.
pub ready_for_execution_twice :
    (id : ReservationId) (s after : Store)
    → ready_for_execution id s ≡ (ok tt, after)
    → ready_for_execution id after ≡ (err Error.reservation_gone, after)
unfolding ready_for_execution
ready_for_execution_twice id s after h = ready_script_twice id s after h

-- A reservation that was due when the coins were expired cannot be claimed afterwards: the claim fails
-- and changes nothing.
pub ready_for_execution-expire_coins :
    (F : Formats) (id : ReservationId) (now : ℕ) (s : Store)
    → contains (due now s) id ≡ true
    → let after = (expire_coins F now s).1 in
      ready_for_execution id after ≡ (err Error.reservation_gone, after)
unfolding ready_for_execution expire_coins expire_script
ready_for_execution-expire_coins F id now s h = ready_script-expire_script id now s h
