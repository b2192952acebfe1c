-- ===== src/Storage/Redis/Count.antt =====
-- The query that counts the reserved coins: get_reserved_coin_count.lua, with the method of
-- `RedisStorage` that calls it, for debugging.
use sui_gas_pool.Prelude.{
  ℕ, ◌+◌, ◌^◌, ◌<◌, ◌≡◌, ◌≢◌, refl, ap, ◌∙◌, sym, ◌==◌, if◌then◌else◌, Option, none, some, List, [],
  ◌∷◌, map, ok, Action, length, arith, Option-cases, Bool-cases, inl, inr,
}
use sui_gas_pool.Text.{Text, split, cons_head}
use sui_gas_pool.Types.{ObjectId, ReservationId}
use sui_gas_pool.Storage.Double.{double, double_exact}
use sui_gas_pool.Storage.Store.{Store, lookup}
use sui_gas_pool.Storage.Formats.{Formats, IsFormats}
use sui_gas_pool.Storage.Reserved.{Reservations, find, find-Every}
use sui_gas_pool.Storage.Scripts.Expire.{joined, entries, lookup-entries-none, lookup-entries-some}
use sui_gas_pool.Storage.Redis.Expire.{Tracks, split-joined}

-- `string.gsub(object_ids, ',', '')`: how often it replaced.
count_commas : Text → ℕ
count_commas [] = 0
count_commas (c ∷ t) = (if c == b',' then 1 else 0) + count_commas t

-- One round: the value of the key, if it is there.
next_total : ℕ → Option Text → ℕ
unfolding count_commas
next_total total none = total
next_total total (some object_ids) = double (double (total + count_commas object_ids) + 1)

-- The loop over the queue.
count_reserved : List (ReservationId × Text) → List ReservationId → ℕ → ℕ
unfolding next_total
count_reserved m [] total = total
count_reserved m (id ∷ ids) total = count_reserved m ids (next_total total (lookup id m))

-- `ZRANGE`, of all members.
unfoldable pub get_reserved_coin_count : Action Store ℕ
unfolding count_reserved
get_reserved_coin_count s =
    (ok (count_reserved s.reservations (map (λ e. e.1) s.expiration_queue) 0), s)

length-split : (t : Text) → length (split t) ≡ count_commas t + 1
unfolding split count_commas
length-split [] = refl
length-split (c ∷ t) = elim (Bool-cases (c == b',')) [
  | inl comma ↦ rw comma (omega (arith, length-split t))
  | inr other ↦ rw other (omega (arith, same (split t) (length-split t)))
]
  where
    same :
        (parts : List Text)
        → length parts ≡ count_commas t + 1
        → length (cons_head c parts) ≡ count_commas t + 1
    same [] h = absurd (omega (arith, h))
    same (p ∷ ps) h = h

abbrev pub size_of : Option (List ObjectId) → ℕ
size_of none = 0
size_of (some v) = length v

-- How many objects the reservations of these ids hold.
unfoldable pub held_by : List ReservationId → Reservations → ℕ
held_by [] rs = 0
held_by (id ∷ ids) rs = size_of (find id rs) + held_by ids rs

module _ (F : Formats) (laws : IsFormats F) where
  length-ids : (v : List ObjectId) → length (map F.id_text v) ≡ length v
  length-ids [] = refl
  length-ids (i ∷ v) = omega (arith, length-ids v)

  commas-joined : (v : List ObjectId) → v ≢ [] → count_commas (joined F v) + 1 ≡ length v
  commas-joined v h =
      sym (length-split (joined F v)) ∙ ap length (split-joined F laws v h) ∙ length-ids v

  module _ (s : Store) (rs : Reservations) (tracks : Tracks F s rs) where
    next_total-size_of :
        (id : ReservationId) (total : ℕ)
        → total + size_of (find id rs) < 2 ^ 53
        → next_total total (lookup id (entries F rs)) ≡ total + size_of (find id rs)
    unfolding next_total
    next_total-size_of id total small = elim (Option-cases (find id rs)) [
      | inl e ↦ rw (lookup-entries-none F id rs e, e) (omega arith)
      | inr (v, e) ↦
          let commas = commas-joined v (find-Every (λ j v. v ≢ []) id v rs tracks.named e).1 in
          rw (lookup-entries-some F id rs v e, e)
            (exact (count_commas (joined F v)) (length v) commas (rw e at small))
    ]
      where
        exact :
            (commas size : ℕ)
            → commas + 1 ≡ size
            → total + size < 2 ^ 53
            → double (double (total + commas) + 1) ≡ total + size
        exact commas size e fits =
            ap (λ n. double (n + 1)) (double_exact (total + commas) (omega (arith, e, fits)))
            ∙ double_exact (total + commas + 1) (omega (arith, e, fits))
            ∙ omega (arith, e)

    count_reserved-held_by :
        (ids : List ReservationId) (total : ℕ)
        → total + held_by ids rs < 2 ^ 53
        → count_reserved (entries F rs) ids total ≡ total + held_by ids rs
    unfolding count_reserved held_by
    count_reserved-held_by [] total small = omega arith
    count_reserved-held_by (id ∷ ids) total small =
        ap (count_reserved (entries F rs) ids) (next_total-size_of id total (omega (arith, small)))
        ∙ count_reserved-held_by ids (total + size_of (find id rs)) (omega (arith, small))
        ∙ omega arith

  -- On a store that keeps reservations, the query answers with the number of objects that the
  -- reservations in the queue of expirations hold, if that is below 2^53, and changes nothing.
  pub get_reserved_coin_count_exact :
      (s : Store) (rs : Reservations)
      → Tracks F s rs
      → held_by (map (λ e. e.1) s.expiration_queue) rs < 2 ^ 53
      → get_reserved_coin_count s ≡ (ok (held_by (map (λ e. e.1) s.expiration_queue) rs), s)
  unfolding get_reserved_coin_count
  get_reserved_coin_count_exact s rs tracks small =
      ap (λ n. (ok n, s))
        (ap (λ m. count_reserved m (map (λ e. e.1) s.expiration_queue) 0) tracks.kept
          ∙ count_reserved-held_by s rs tracks (map (λ e. e.1) s.expiration_queue) 0
              (omega (arith, small))
          ∙ omega arith)
