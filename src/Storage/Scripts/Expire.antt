-- ===== src/Storage/Scripts/Expire.antt =====
-- `expire_coins.lua` and `ready_for_execution.lua` on the map of reservations.
use sui_gas_pool.Prelude.{
  ℕ, ◌≡◌, refl, subst, none, some, true, List, [], ◌∷◌, map, arith, ◌==◌, Error, ok, err, contains,
  Option-cases, Bool-cases, inl, inr,
}
use sui_gas_pool.Text.{Text, join}
use sui_gas_pool.Types.{ObjectId}
use sui_gas_pool.Storage.Store.{Store, lookup, erase, members_until}
use sui_gas_pool.Storage.Double.{double}
use sui_gas_pool.Storage.Formats.{Formats}
use sui_gas_pool.Storage.Reserved.{Reservations, find, remove, release}
use sui_gas_pool.Storage.Scripts.{collect, expire_script, ready_script}

module _ (F : Formats) where
  abbrev pub joined : List ObjectId → Text
  joined v = join (map F.id_text v)

  -- The keys and values of reservations.
  abbrev pub entries : Reservations → List (ℕ × Text)
  entries [] = []
  entries ((j, v) ∷ m) = (j, joined v) ∷ entries m

  pub lookup-entries-none :
      (k : ℕ) (rs : Reservations) → find k rs ≡ none → lookup k (entries rs) ≡ none
  unfolding lookup find
  lookup-entries-none k [] h = refl
  lookup-entries-none k ((j, v) ∷ m) h = ground (arith, lookup-entries-none k m)

  pub lookup-entries-some :
      (k : ℕ) (rs : Reservations) (v : List ObjectId)
      → find k rs ≡ some v
      → lookup k (entries rs) ≡ some (joined v)
  unfolding lookup find
  lookup-entries-some k [] v h = cc
  lookup-entries-some k ((j, w) ∷ m) v h = ground (arith, lookup-entries-some k m v)

  pub erase-entries : (k : ℕ) (rs : Reservations) → erase k (entries rs) ≡ entries (remove k rs)
  unfolding erase remove
  erase-entries k [] = refl
  erase-entries k ((j, v) ∷ m) = ground (arith, erase-entries k m)

  pub collect-entries :
      (ids : List ℕ) (rs : Reservations)
      → let (vs, left) = release ids rs in collect ids (entries rs) ≡ (map joined vs, entries left)
  unfolding collect release
  collect-entries [] rs = refl
  collect-entries (id ∷ ids) rs = elim (Option-cases (find id rs)) [
    | inl e ↦ rw (e, release, lookup-entries-none id rs e, collect) (collect-entries ids rs)
    | inr (v, e) ↦ rw (
      e,
      release,
      lookup-entries-some id rs v e,
      collect,
      erase-entries id rs,
      collect-entries ids (remove id rs),
    )
  ]

pub lookup-erase_self : (k : ℕ) (m : List (ℕ × Text)) → lookup k (erase k m) ≡ none
unfolding lookup erase
lookup-erase_self k [] = refl
lookup-erase_self k ((j, v) ∷ m) = ground (arith, lookup-erase_self k m)

lookup-erase-none :
    (j k : ℕ) (m : List (ℕ × Text)) → lookup j m ≡ none → lookup j (erase k m) ≡ none
unfolding lookup erase
lookup-erase-none j k [] h = refl
lookup-erase-none j k ((i, v) ∷ m) h = ground (arith, lookup-erase-none j k m)

lookup-collect-none :
    (k : ℕ) (ids : List ℕ) (m : List (ℕ × Text))
    → lookup k m ≡ none
    → lookup k (collect ids m).1 ≡ none
unfolding collect
lookup-collect-none k [] m h = h
lookup-collect-none k (id ∷ ids) m h = elim (Option-cases (lookup id m)) [
  | inl e ↦ rw (e, collect) (lookup-collect-none k ids m h)
  | inr (t, e) ↦
      rw (e, collect) (lookup-collect-none k ids (erase id m) (lookup-erase-none k id m h))
]

-- What has been collected is gone.
lookup-collect :
    (k : ℕ) (ids : List ℕ) (m : List (ℕ × Text))
    → contains ids k ≡ true
    → lookup k (collect ids m).1 ≡ none
unfolding collect
lookup-collect k [] m h = cc
lookup-collect k (id ∷ ids) m h = elim (Bool-cases (id == k)) [
  | inl hit ↦ elim (Option-cases (lookup id m)) [
    | inl e ↦
        rw (e, collect) (lookup-collect-none k ids m (subst (λ i. lookup i m ≡ none) (same hit) e))
    | inr (t, e) ↦
        rw (e, collect)
          (lookup-collect-none k ids (erase id m)
            (subst (λ i. lookup i (erase id m) ≡ none) (same hit) (lookup-erase_self id m)))
  ]
  | inr miss ↦ elim (Option-cases (lookup id m)) [
    | inl e ↦ rw (e, collect) (lookup-collect k ids m (rw miss at h))
    | inr (t, e) ↦ rw (e, collect) (lookup-collect k ids (erase id m) (rw miss at h))
  ]
]
  where
    same : (id == k) ≡ true → id ≡ k
    same hit = ground arith

-- What has been claimed or expired cannot be claimed.
pub ready_script_twice :
    (id : ℕ) (s after : Store)
    → ready_script id s ≡ (ok tt, after)
    → ready_script id after ≡ (err Error.reservation_gone, after)
unfolding ready_script
ready_script_twice id s after h = ground (arith, lookup-erase_self id s.reservations)

ready_script_gone :
    (id : ℕ) (s : Store)
    → lookup id s.reservations ≡ none
    → ready_script id s ≡ (err Error.reservation_gone, s)
unfolding ready_script
ready_script_gone id s e = rw (e, ready_script)

pub ready_script-expire_script :
    (id now : ℕ) (s : Store)
    → contains (members_until (double now) s.expiration_queue) id ≡ true
    → let after = (expire_script now s).1 in
      ready_script id after ≡ (err Error.reservation_gone, after)
unfolding expire_script
ready_script-expire_script id now s h =
    ready_script_gone id _
      (lookup-collect id (members_until (double now) s.expiration_queue) s.reservations h)
