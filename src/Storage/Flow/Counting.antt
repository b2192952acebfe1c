-- ===== src/Storage/Flow/Counting.antt =====
-- Reserving and releasing, counted object by object.
use mathlib.Core.List.{flatten, map-append}
use sui_gas_pool.Prelude.{
  ◌+◌, ◌≡◌, ap, ◌∙◌, sym, subst, some, none, List, [], ◌∷◌, ◌++◌, map, arith, ◌==◌, Option-cases,
  Bool-cases, inl, inr, true,
}
use sui_gas_pool.Types.{ObjectId, ReservationId, GasCoin, coin_id}
use sui_gas_pool.Storage.Reserved.{
  Reservations, find, remove, objects, release, IsDistinct, remove-IsDistinct, remove_absent,
}
use sui_gas_pool.Storage.Flow.{count}

pub count-append :
    (a : ObjectId) (xs ys : List ObjectId) → count a (xs ++ ys) ≡ count a xs + count a ys
count-append a [] ys = omega arith
count-append a (x ∷ xs) ys = omega (arith, count-append a xs ys)

pub count-ids-append :
    (a : ObjectId) (xs ys : List GasCoin)
    → count a (map coin_id (xs ++ ys)) ≡ count a (map coin_id xs) + count a (map coin_id ys)
count-ids-append a xs ys =
    ap (count a) (map-append coin_id xs ys) ∙ count-append a (map coin_id xs) (map coin_id ys)

pub count-objects-snoc :
    (a : ObjectId) (rs : Reservations) (k : ReservationId) (v : List ObjectId)
    → count a (objects (rs ++ (k, v) ∷ [])) ≡ count a (objects rs) + count a v
unfolding objects
count-objects-snoc a [] k v = omega (arith, count-append a v [])
count-objects-snoc a ((j, w) ∷ m) k v = omega (
  arith,
  count-append a w (objects (m ++ (k, v) ∷ [])),
  count-append a w (objects m),
  count-objects-snoc a m k v,
)

pub count-remove :
    (a : ObjectId) (k : ReservationId) (rs : Reservations) (v : List ObjectId)
    → IsDistinct rs
    → find k rs ≡ some v
    → count a v + count a (objects (remove k rs)) ≡ count a (objects rs)
unfolding find remove objects
count-remove a k [] v d e = cc
count-remove a k ((j, w) ∷ m) v d e = elim (Bool-cases (k == j)) [
  | inl hit ↦
      rw (hit, remove_absent k m (subst (λ i. find i m ≡ none) (sym (same hit)) d.0))
        (omega (arith, ap (count a) (found hit), count-append a w (objects m)))
  | inr miss ↦ rw miss (
      omega (
        arith,
        count-append a w (objects (remove k m)),
        count-append a w (objects m),
        count-remove a k m v d.1 (rw miss at e),
      ))
]
  where
    same : (k == j) ≡ true → k ≡ j
    same h = ground arith

    found : (k == j) ≡ true → w ≡ v
    found h = ground arith

pub count-release :
    (a : ObjectId) (ids : List ReservationId) (rs : Reservations)
    → IsDistinct rs
    → count a (flatten (release ids rs).0) + count a (objects (release ids rs).1)
      ≡ count a (objects rs)
unfolding release flatten
count-release a [] rs d = omega arith
count-release a (id ∷ ids) rs d = elim (Option-cases (find id rs)) [
  | inl e ↦ rw (e, release) (count-release a ids rs d)
  | inr (v, e) ↦
      rw (e, release)
        (omega (
          arith,
          count-append a v (flatten (release ids (remove id rs)).0),
          count-release a ids (remove id rs) (remove-IsDistinct id rs d),
          count-remove a id rs v d e,
        ))
]
