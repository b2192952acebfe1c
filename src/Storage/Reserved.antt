-- ===== src/Storage/Reserved.antt =====
-- The reservations of a store seen as ids with the objects that they hold, and what expiring and
-- claiming mean on that view. See `expire_coins.lua` and `ready_for_execution.lua`.
use mathlib.Core.List.{append_assoc, append-nil, perm_middle, flatten}
use mathlib.Core.List.Perm
use sui_gas_pool.Prelude.{
  ℕ, ◌≤◌, ◌<◌, ◌≡◌, ◌≢◌, refl, sym, subst, Option, none, some, List, [], ◌∷◌, ◌++◌, arith, ◌==◌,
  if◌then◌else◌, true, contains, Option-cases, Bool-cases, inl, inr,
}
use mathlib.Core.List.{Perm}
use sui_gas_pool.Types.{ObjectId, ReservationId}

abbrev pub Reservations : Type 0
Reservations = List (ReservationId × List ObjectId)

unfoldable pub find : ReservationId → Reservations → Option (List ObjectId)
find k [] = none
find k ((j, v) ∷ m) = if k == j then some v else find k m

unfoldable pub remove : ReservationId → Reservations → Reservations
remove k [] = []
remove k ((j, v) ∷ m) = let rest = remove k m in if k == j then rest else (j, v) ∷ rest

-- All objects that are reserved.
unfoldable pub objects : Reservations → List ObjectId
objects [] = []
objects ((j, v) ∷ m) = v ++ objects m

-- The objects of the listed reservations, in that order, and the reservations that are left.
unfoldable pub release : List ReservationId → Reservations → List (List ObjectId) × Reservations
release [] rs = ([], rs)
release (id ∷ ids) rs = elim (find id rs) [
  | none ↦ release ids rs
  | some v ↦ let (vs, left) = release ids (remove id rs) in (v ∷ vs, left)
]

-- No id stands twice.
abbrev pub IsDistinct : Reservations → Type 0
IsDistinct [] = Unit
IsDistinct ((j, v) ∷ m) = (find j m ≡ none) × IsDistinct m

pub find-remove_self : (k : ℕ) (rs : Reservations) → find k (remove k rs) ≡ none
unfolding find remove
find-remove_self k [] = refl
find-remove_self k ((j, v) ∷ m) = ground (arith, find-remove_self k m)

pub find-remove_other :
    (i j : ReservationId) (rs : Reservations) → i ≢ j → find j (remove i rs) ≡ find j rs
unfolding find remove
find-remove_other i j [] h = refl
find-remove_other i j ((k, v) ∷ m) h = ground (arith, find-remove_other i j m h)

pub find-remove-none :
    (j k : ℕ) (rs : Reservations) → find j rs ≡ none → find j (remove k rs) ≡ none
unfolding find remove
find-remove-none j k [] h = refl
find-remove-none j k ((i, v) ∷ m) h = ground (arith, find-remove-none j k m)

pub remove-IsDistinct : (k : ℕ) (rs : Reservations) → IsDistinct rs → IsDistinct (remove k rs)
unfolding remove
remove-IsDistinct k [] h = tt
remove-IsDistinct k ((j, v) ∷ m) h =
    ground (arith, remove-IsDistinct k m h.1, find-remove-none j k m h.0)

pub remove_absent : (k : ℕ) (rs : Reservations) → find k rs ≡ none → remove k rs ≡ rs
unfolding find remove
remove_absent k [] h = refl
remove_absent k ((j, v) ∷ m) h = ground (arith, remove_absent k m)

append_comm : (v w : List ObjectId) → Perm (v ++ w) (w ++ v)
append_comm [] w = subst (Perm w) (sym (append-nil w)) (Perm.refl w)
append_comm (x ∷ v) w = Perm.trans (Perm.cons x (append_comm v w)) (Perm.symm (perm_middle w v))

exchange : (v w r : List ObjectId) → Perm (v ++ (w ++ r)) (w ++ (v ++ r))
exchange v w r =
    subst (λ l. Perm l (w ++ (v ++ r))) (append_assoc v w r)
      (subst (Perm ((v ++ w) ++ r)) (append_assoc w v r) (Perm.append_right r (append_comm v w)))

remove-perm :
    (k : ℕ) (rs : Reservations) (v : List ObjectId)
    → IsDistinct rs
    → find k rs ≡ some v
    → Perm (v ++ objects (remove k rs)) (objects rs)
unfolding find remove objects
remove-perm k [] v d e = cc
remove-perm k ((j, w) ∷ m) v d e = elim (Bool-cases (k == j)) [
  | inl hit ↦
      rw (hit, remove_absent k m (subst (λ i. find i m ≡ none) (sym (same hit)) d.0))
        (subst (λ u. Perm (u ++ objects m) (w ++ objects m)) (found hit) (Perm.refl _))
  | inr miss ↦ rw miss (
      Perm.trans (exchange v w (objects (remove k m)))
        (Perm.append_left w (remove-perm k m v d.1 (rw miss at e))))
]
  where
    same : (k == j) ≡ true → k ≡ j
    same h = ground arith

    found : (k == j) ≡ true → w ≡ v
    found h = ground arith

-- Releasing neither loses nor makes up an object.
pub release-perm :
    (ids : List ReservationId) (rs : Reservations)
    → IsDistinct rs
    → let (vs, left) = release ids rs in Perm (flatten vs ++ objects left) (objects rs)
unfolding release objects flatten
release-perm [] rs d = Perm.refl _
release-perm (id ∷ ids) rs d = elim (Option-cases (find id rs)) [
  | inl e ↦ rw (e, release) (release-perm ids rs d)
  | inr (v, e) ↦
      rw (e, release)
        (subst (λ l. Perm l (objects rs)) (sym (append_assoc v _ _))
          (Perm.trans
            (Perm.append_left v (release-perm ids (remove id rs) (remove-IsDistinct id rs d)))
            (remove-perm id rs v d e)))
]

pub release-IsDistinct :
    (ids : List ReservationId) (rs : Reservations) → IsDistinct rs → IsDistinct (release ids rs).1
unfolding release
release-IsDistinct [] rs d = d
release-IsDistinct (id ∷ ids) rs d = elim (Option-cases (find id rs)) [
  | inl e ↦ rw (e, release) (release-IsDistinct ids rs d)
  | inr (v, e) ↦ rw (e, release) (release-IsDistinct ids (remove id rs) (remove-IsDistinct id rs d))
]

-- A property of every reservation.
abbrev pub Every {ℓ} : (ReservationId → List ObjectId → Type ℓ) → Reservations → Type ℓ
Every P [] = Unit
Every P ((j, v) ∷ m) = P j v × Every P m

pub find-Every {ℓ} :
    (P : ReservationId → List ObjectId → Type ℓ) (k : ReservationId) (v : List ObjectId)
    (rs : Reservations)
    → Every P rs
    → find k rs ≡ some v
    → (j : ReservationId) × P j v
unfolding find
find-Every P k v [] h e = cc
find-Every P k v ((j, w) ∷ m) h e = elim (Bool-cases (k == j)) [
  | inl hit ↦ (j, subst (P j) (found hit) h.0)
  | inr miss ↦ find-Every P k v m h.1 (rw miss at e)
]
  where
    found : (k == j) ≡ true → w ≡ v
    found hit = ground arith

pub remove-Every {ℓ} :
    (P : ReservationId → List ObjectId → Type ℓ) (k : ReservationId) (rs : Reservations)
    → Every P rs
    → Every P (remove k rs)
unfolding remove
remove-Every P k [] h = h
remove-Every P k ((j, v) ∷ m) h = elim (Bool-cases (k == j)) [
  | inl hit ↦ rw hit (remove-Every P k m h.1)
  | inr miss ↦ rw miss (h.0, remove-Every P k m h.1)
]

-- If every reservation is listed, none is left.
listed_tail :
    (id : ReservationId) (ids : List ReservationId) (rs : Reservations)
    → find id rs ≡ none
    → Every (λ j v. contains (id ∷ ids) j ≡ true) rs
    → Every (λ j v. contains ids j ≡ true) rs
unfolding find
listed_tail id ids [] e h = tt
listed_tail id ids ((j, v) ∷ m) e h = (ground arith, listed_tail id ids m (ground arith) h.1)

pub release_all :
    (ids : List ReservationId) (rs : Reservations)
    → Every (λ j v. contains ids j ≡ true) rs
    → (release ids rs).1 ≡ []
unfolding release
release_all [] [] h = refl
release_all [] ((j, v) ∷ m) h = cc
release_all (id ∷ ids) rs h = elim (Option-cases (find id rs)) [
  | inl e ↦ rw (e, release) (release_all ids rs (listed_tail id ids rs e h))
  | inr (v, e) ↦
      rw (e, release)
        (release_all ids (remove id rs) (
          listed_tail id ids (remove id rs) (find-remove_self id rs)
            (remove-Every (λ j v. contains (id ∷ ids) j ≡ true) id rs h)))
]

-- A new reservation stands behind the others.
pub Every-snoc {ℓ} :
    (P : ReservationId → List ObjectId → Type ℓ) (rs : Reservations) (k : ReservationId)
    (v : List ObjectId)
    → Every P rs
    → P k v
    → Every P (rs ++ (k, v) ∷ [])
Every-snoc P [] k v h p = (p, tt)
Every-snoc P ((j, w) ∷ m) k v h p = (h.0, Every-snoc P m k v h.1 p)

pub Every-map {ℓ κ} :
    (P : ReservationId → List ObjectId → Type ℓ) (Q : ReservationId → List ObjectId → Type κ)
    (rs : Reservations)
    → ((j : ReservationId) (v : List ObjectId) → P j v → Q j v)
    → Every P rs
    → Every Q rs
Every-map P Q [] f h = tt
Every-map P Q ((j, v) ∷ m) f h = (f j v h.0, Every-map P Q m f h.1)

pub find_above :
    (k n : ReservationId) (rs : Reservations) → n < k → Every (λ j v. j ≤ n) rs → find k rs ≡ none
unfolding find
find_above k n [] h b = refl
find_above k n ((j, v) ∷ m) h b = ground (arith, find_above k n m h b.1)

pub IsDistinct-snoc :
    (rs : Reservations) (k : ReservationId) (v : List ObjectId)
    → IsDistinct rs
    → find k rs ≡ none
    → IsDistinct (rs ++ (k, v) ∷ [])
unfolding find
IsDistinct-snoc [] k v d e = (refl, tt)
IsDistinct-snoc ((j, w) ∷ m) k v d e = (find-snoc m d.0, IsDistinct-snoc m k v d.1 (ground arith))
  where
    find-snoc : (rs : Reservations) → find j rs ≡ none → find j (rs ++ (k, v) ∷ []) ≡ none
    find-snoc [] h = ground arith
    find-snoc ((i, u) ∷ rs) h = ground (arith, find-snoc rs)
