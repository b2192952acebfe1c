-- ===== src/Storage/Pick.antt =====
-- The specification of the reservation loop, on coins: take from the front until the budget is
-- reached or there is no more room. See src/storage/mod.rs, `Storage::reserve_gas_coins`.
use sui_gas_pool.Prelude.{
  ℕ, zero, suc, ◌+◌, ◌≤◌, ◌<◌, ◌≡◌, refl, ◌∙◌, ap, List, [], ◌∷◌, ◌++◌, arith, ltb, length,
  if◌then◌else◌, take,
}
use sui_gas_pool.Types.{GasCoin, total_balance}

unfoldable pub pick : ℕ → ℕ → ℕ → List GasCoin → List GasCoin × List GasCoin
pick zero target total cs = ([], cs)
pick (suc room) target total [] = ([], [])
pick (suc room) target total (c ∷ cs) =
    let (picked, rest) = pick room target (total + c.balance) cs in
    if ltb total target then (c ∷ picked, rest) else ([], c ∷ cs)

pub append-pick :
    (room target total : ℕ) (cs : List GasCoin)
    → let (picked, rest) = pick room target total cs in picked ++ rest ≡ cs
unfolding pick
append-pick zero target total cs = refl
append-pick (suc room) target total [] = refl
append-pick (suc room) target total (c ∷ cs) =
    ground (arith, append-pick room target (total + c.balance) cs)

pub length-pick-le :
    (room target total : ℕ) (cs : List GasCoin) → length (pick room target total cs).0 ≤ room
unfolding pick
length-pick-le zero target total cs = omega arith
length-pick-le (suc room) target total [] = omega arith
length-pick-le (suc room) target total (c ∷ cs) =
    ground (arith, length-pick-le room target (total + c.balance) cs)

-- The loop ends short of the target only if the first `room` coins are short of it.
pub pick-enough :
    (room target total : ℕ) (cs : List GasCoin)
    → target ≤ total + total_balance (take room cs)
    → target ≤ total + total_balance (pick room target total cs).0
unfolding pick
pick-enough zero target total cs h = h
pick-enough (suc room) target total [] h = h
pick-enough (suc room) target total (c ∷ cs) h =
    ground (arith, pick-enough room target (total + c.balance) cs)

pub pick-le-take :
    (room target total : ℕ) (cs : List GasCoin)
    → total_balance (pick room target total cs).0 ≤ total_balance (take room cs)
unfolding pick
pick-le-take zero target total cs = omega arith
pick-le-take (suc room) target total [] = omega arith
pick-le-take (suc room) target total (c ∷ cs) =
    ground (arith, pick-le-take room target (total + c.balance) cs)

-- No coin is taken once the target is reached: without its last coin the pick is short of it.
pub pick-minimal :
    (room target total : ℕ) (cs front : List GasCoin) (last : GasCoin)
    → (pick room target total cs).0 ≡ front ++ last ∷ []
    → total + total_balance front < target
unfolding pick
pick-minimal zero target total cs [] last e = cc
pick-minimal zero target total cs (x ∷ front) last e = cc
pick-minimal (suc room) target total [] [] last e = cc
pick-minimal (suc room) target total [] (x ∷ front) last e = cc
pick-minimal (suc room) target total (c ∷ cs) [] last e = ground arith
pick-minimal (suc room) target total (c ∷ cs) (x ∷ front) last e =
    ground (arith, pick-minimal room target (total + c.balance) cs front last)

pub pick-nonempty :
    (target : ℕ) (cs : List GasCoin)
    → 0 < target
    → target ≤ total_balance (pick 256 target 0 cs).0
    → (c : GasCoin) × (picked : List GasCoin) × ((pick 256 target 0 cs).0 ≡ c ∷ picked)
pick-nonempty target cs h e = nonempty (pick 256 target 0 cs).0 e
  where
    nonempty :
        (xs : List GasCoin)
        → target ≤ total_balance xs
        → (c : GasCoin) × (picked : List GasCoin) × (xs ≡ c ∷ picked)
    nonempty [] k = absurd (omega arith)
    nonempty (c ∷ picked) k = (c, picked, refl)

unfoldable pub all_but_last : List GasCoin → List GasCoin
all_but_last [] = []
all_but_last (c ∷ []) = []
all_but_last (c ∷ d ∷ cs) = c ∷ all_but_last (d ∷ cs)

-- A list that is not empty is its front and its last coin.
last_coin :
    (c : GasCoin) (cs : List GasCoin)
    → (last : GasCoin) × (c ∷ cs ≡ all_but_last (c ∷ cs) ++ last ∷ [])
unfolding all_but_last
last_coin c [] = (c, refl)
last_coin c (d ∷ cs) = let (last, e) = last_coin d cs in (last, ap (◌∷◌ c) e)

pub pick-all_but_last :
    (target : ℕ) (cs : List GasCoin)
    → 0 < target
    → target ≤ total_balance (pick 256 target 0 cs).0
    → total_balance (all_but_last (pick 256 target 0 cs).0) < target
pick-all_but_last target cs h enough =
    let (c, picked, e) = pick-nonempty target cs h enough in
    let (last, e') = last_coin c picked in
    rw e (omega (arith, pick-minimal 256 target 0 cs (all_but_last (c ∷ picked)) last (e ∙ e')))
