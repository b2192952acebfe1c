-- ===== src/Locks/Exclusion.antt =====
-- Any number of transactions, interleaved at the points where a lock is released: each takes its locks
-- under the write lock, with whatever owned objects it has found before, and drops them later.
use sui_gas_pool.Prelude.{
  ℕ, zero, suc, ◌≡◌, refl, ap, ◌∙◌, sym, subst, ◌==◌, Bool, true, false, not, ◌&&◌, ◌||◌, List, [],
  ◌∷◌, ◌++◌, Result, ok, err, contains, arith, Option, none, some, Option-cases, Bool-cases, inl,
  inr,
}
use sui_gas_pool.Types.{ObjectId, ReservationId}
use sui_gas_pool.Locks.{ObjectLocks, any_locked, lock_owned, remove, remove_locks_from_set}

-- The guards that are alive, the newest first.
pub record LiveGuards : Type 0 where
  pub locked : List ObjectId
  pub guards : List ObjectLocks

pub data Event : Type 0 where
  locks : ReservationId → List ObjectId → Event
  drops : ℕ → Event

-- The guard at a position, and the others.
unfoldable pub extract : ℕ → List ObjectLocks → Option (ObjectLocks × List ObjectLocks)
extract k [] = none
extract zero (g ∷ gs) = some (g, gs)
extract (suc k) (g ∷ gs) = elim (extract k gs) [ none ↦ none | some (h, hs) ↦ some (h, g ∷ hs) ]

unfoldable pub keep_guard : Result ObjectLocks × List ObjectId → List ObjectLocks → LiveGuards
keep_guard (ok g, locked) gs = record { locked = locked; guards = g ∷ gs }
keep_guard (err e, locked) gs = record { locked = locked; guards = gs }

unfoldable pub step : Event → LiveGuards → LiveGuards
unfolding keep_guard extract
step (locks id owned) s = keep_guard (lock_owned id owned s.locked) s.guards
step (drops k) s = elim (extract k s.guards) [
  | none ↦ s
  | some (g, gs) ↦ record { locked = remove_locks_from_set g.locked_objects s.locked; guards = gs }
]

unfoldable pub run : List Event → LiveGuards → LiveGuards
unfolding step
run [] s = s
run (e ∷ es) s = run es (step e s)

abbrev pub idle : LiveGuards
idle = record { locked = []; guards = [] }

-- A guard that is alive holds the object.
abbrev pub held : List ObjectLocks → ObjectId → Bool
held [] o = false
held (g ∷ gs) o = contains g.locked_objects o || held gs o

-- No object is held by two guards.
abbrev pub IsDisjoint : List ObjectLocks → Type 0
IsDisjoint [] = Unit
IsDisjoint (g ∷ gs) =
    ((o : ObjectId) → (contains g.locked_objects o && held gs o) ≡ false) × IsDisjoint gs

-- What is locked is what the guards hold, each object by one guard.
pub record IsExclusive (s : LiveGuards) : Type 0 where
  pub agree : (o : ObjectId) → contains s.locked o ≡ held s.guards o
  pub disjoint : IsDisjoint s.guards

pub contains-append :
    (xs ys : List ObjectId) (o : ObjectId)
    → contains (xs ++ ys) o ≡ (contains xs o || contains ys o)
contains-append [] ys o = refl
contains-append (x ∷ xs) ys o = ground (arith, contains-append xs ys o)

contains-remove :
    (k o : ObjectId) (xs : List ObjectId)
    → contains (remove k xs) o ≡ (not (k == o) && contains xs o)
unfolding remove
contains-remove k o [] = ground arith
contains-remove k o (x ∷ xs) = ground (arith, contains-remove k o xs)

pub contains-remove_locks_from_set :
    (ks xs : List ObjectId) (o : ObjectId)
    → contains (remove_locks_from_set ks xs) o ≡ (not (contains ks o) && contains xs o)
unfolding remove_locks_from_set
contains-remove_locks_from_set [] xs o = refl
contains-remove_locks_from_set (k ∷ ks) xs o =
    ground (arith, contains-remove_locks_from_set ks (remove k xs) o, contains-remove k o xs)

-- The test before locking finds every object that is held.
pub any_locked-contains :
    (owned locked : List ObjectId) (o : ObjectId)
    → any_locked locked owned ≡ false
    → (contains owned o && contains locked o) ≡ false
unfolding any_locked
any_locked-contains [] locked o h = refl
any_locked-contains (x ∷ xs) locked o h = elim (Bool-cases (x == o)) [
  | inl same ↦ ground arith
  | inr other ↦ ground (arith, any_locked-contains xs locked o)
]

extract-held :
    (k : ℕ) (gs : List ObjectLocks) (g : ObjectLocks) (rest : List ObjectLocks) (o : ObjectId)
    → extract k gs ≡ some (g, rest)
    → held gs o ≡ (contains g.locked_objects o || held rest o)
unfolding extract
extract-held k [] g rest o e = cc
extract-held zero (h ∷ gs) g rest o e = ground arith
extract-held (suc k) (h ∷ gs) g rest o e = elim (Option-cases (extract k gs)) [
  | inl stop ↦ ground arith
  | inr ((g', hs), found) ↦ ground (arith, extract-held k gs g' hs o found)
]

some-eq : (p q : ObjectLocks × List ObjectLocks) → some p ≡ some q → p ≡ q
some-eq p q e = cc

extract-IsDisjoint :
    (k : ℕ) (gs : List ObjectLocks) (g : ObjectLocks) (rest : List ObjectLocks)
    → extract k gs ≡ some (g, rest)
    → IsDisjoint gs
    → IsDisjoint (g ∷ rest)
unfolding extract
extract-IsDisjoint k [] g rest e d = cc
extract-IsDisjoint zero (h ∷ gs) g rest e d = subst (λ p. IsDisjoint (p.0 ∷ p.1)) (some-eq _ _ e) d
extract-IsDisjoint (suc k) (h ∷ gs) g rest e d = elim (Option-cases (extract k gs)) [
  | inl stop ↦ absurd (never stop)
  | inr ((g', hs), found) ↦
      let (apart, inner) = extract-IsDisjoint k gs g' hs found d.1 in
      subst (λ p. IsDisjoint (p.0 ∷ p.1)) (some-eq _ _ (same g' hs found))
        (
          λ o. ground (arith, apart o, d.0 o, extract-held k gs g' hs o found),
          (λ o. ground (arith, apart o, d.0 o, extract-held k gs g' hs o found), inner),
        )
]
  where
    never : extract k gs ≡ none → ⊥
    never stop = ground arith

    same :
        (g' : ObjectLocks) (hs : List ObjectLocks)
        → extract k gs ≡ some (g', hs)
        → ◌≡◌ {A = Option (ObjectLocks × List ObjectLocks)} (some (g', h ∷ hs)) (some (g, rest))
    same g' hs found = ground arith

init-IsExclusive : IsExclusive idle
init-IsExclusive = record { agree = λ o. refl; disjoint = tt }

-- What a step comes to, on each branch.
step_refused :
    (id : ReservationId) (owned : List ObjectId) (s : LiveGuards)
    → any_locked s.locked owned ≡ true
    → step (locks id owned) s ≡ s
unfolding step lock_owned
step_refused id owned s busy = ground arith

step_locks :
    (id : ReservationId) (owned : List ObjectId) (s : LiveGuards)
    → any_locked s.locked owned ≡ false
    → step (locks id owned) s ≡ record {
      locked = owned ++ s.locked;
      guards = record { reservation_id = id; locked_objects = owned } ∷ s.guards;
    }
unfolding step lock_owned
step_locks id owned s free = ground arith

step_no_guard : (k : ℕ) (s : LiveGuards) → extract k s.guards ≡ none → step (drops k) s ≡ s
unfolding step
step_no_guard k s stop = ground arith

pub step_drops :
    (k : ℕ) (s : LiveGuards) (g : ObjectLocks) (rest : List ObjectLocks)
    → extract k s.guards ≡ some (g, rest)
    → step (drops k) s
      ≡ record { locked = remove_locks_from_set g.locked_objects s.locked; guards = rest }
unfolding step
step_drops k s g rest found = ground arith

pub step-IsExclusive : (e : Event) (s : LiveGuards) → IsExclusive s → IsExclusive (step e s)
step-IsExclusive (locks id owned) s v = elim (Bool-cases (any_locked s.locked owned)) [
  | inl busy ↦ subst IsExclusive (sym (step_refused id owned s busy)) v
  | inr free ↦ subst IsExclusive (sym (step_locks id owned s free)) (record {
    agree = λ o. contains-append owned s.locked o ∙ ap (◌||◌ (contains owned o)) (v.agree o);
    disjoint =
        (λ o. ground (arith, any_locked-contains owned s.locked o free, v.agree o), v.disjoint);
  })
]
step-IsExclusive (drops k) s v = elim (Option-cases (extract k s.guards)) [
  | inl stop ↦ subst IsExclusive (sym (step_no_guard k s stop)) v
  | inr ((g, rest), found) ↦
      let (apart, inner) = extract-IsDisjoint k s.guards g rest found v.disjoint in
      subst IsExclusive (sym (step_drops k s g rest found)) (record {
        agree = λ o. ground (
          arith,
          contains-remove_locks_from_set g.locked_objects s.locked o,
          v.agree o,
          extract-held k s.guards g rest o found,
          apart o,
        );
        disjoint = inner;
      })
]

run-IsExclusive : (es : List Event) (s : LiveGuards) → IsExclusive s → IsExclusive (run es s)
unfolding run
run-IsExclusive [] s v = v
run-IsExclusive (e ∷ es) s v = run-IsExclusive es (step e s) (step-IsExclusive e s v)

-- After any sequence of lockings and drops, by any transactions, no object is held by two guards that
-- are alive, and the set of locked objects has exactly those that a guard holds.
pub run-idle-IsExclusive : (es : List Event) → IsExclusive (run es idle)
run-idle-IsExclusive es = run-IsExclusive es idle init-IsExclusive
