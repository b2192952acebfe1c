-- ===== src/Storage/Store/Queue.antt =====
-- The sorted set: a member that was added is found from its score on.
use sui_gas_pool.Prelude.{
  ℕ, ◌+◌, ◌≤◌, ◌≡◌, refl, Option, none, some, true, List, [], ◌∷◌, ◌++◌, arith, contains,
  Bool-cases, inl, inr,
}
use sui_gas_pool.Text.{Text}
use sui_gas_pool.Storage.Store.{
  lookup, insert, incr, from_zero, zadd, place, comes_before, members_until,
}

members_until-place :
    (now score id : ℕ) (q : List (ℕ × ℕ))
    → score ≤ now
    → contains (members_until now (place (score, id) q)) id ≡ true
unfolding members_until place
members_until-place now score id [] h = ground arith
members_until-place now score id ((t, b) ∷ q) h =
    elim (Bool-cases (comes_before (score, id) (t, b))) [
      | inl first ↦ rw first (ground arith)
      | inr later ↦ rw later (ground (arith, members_until-place now score id q h))
    ]

pub members_until-zadd :
    (now score id : ℕ) (q : List (ℕ × ℕ))
    → score ≤ now
    → contains (members_until now (zadd score id q)) id ≡ true
unfolding zadd
members_until-zadd now score id q h = members_until-place now score id _ h

-- A new key stands behind the others.
pub insert_new :
    (k : ℕ) (v : Text) (m : List (ℕ × Text)) → lookup k m ≡ none → insert k v m ≡ m ++ (k, v) ∷ []
unfolding lookup insert
insert_new k v [] h = refl
insert_new k v ((j, w) ∷ m) h = ground (arith, insert_new k v m)

-- The next value of a counter is its last one plus one.
pub incr-next : (c : Option ℕ) (n : ℕ) → incr c ≡ some n → n ≡ from_zero c + 1
unfolding incr
incr-next c n h = ground arith
