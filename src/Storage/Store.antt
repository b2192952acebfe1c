-- ===== src/Storage/Store.antt =====
-- The keys that one sponsor has in Redis, and the commands that the scripts call on them. A key that
-- is not there is `none`, or absent from its list.
pub mod Queue
use sui_gas_pool.Prelude.{
  ℕ, ◌+◌, ◌-◌, ◌^◌, List, [], ◌∷◌, Option, none, some, Bool, true, false, ◌&&◌, ◌||◌, ltb, leb,
  ◌==◌, if◌then◌else◌,
}
use sui_gas_pool.Prelude.Int.{ℤ}
use sui_gas_pool.Text.{Text, show}

pub record Store : Type 0 where
  pub available_gas_coins : List Text
  -- members of the sorted set with their scores, in the order of the set
  pub expiration_queue : List (ℕ × ℕ)
  pub next_reservation_id : Option ℕ
  pub available_coin_total_balance : Option ℤ
  pub available_coin_count : Option ℤ
  pub reservations : List (ℕ × Text)
  pub initialized : Bool
  pub init_lock : Option ℕ

unfoldable pub lookup : ℕ → List (ℕ × Text) → Option Text
lookup k [] = none
lookup k ((j, v) ∷ m) = if k == j then some v else lookup k m

-- `SET key value`
unfoldable pub insert : ℕ → Text → List (ℕ × Text) → List (ℕ × Text)
insert k v [] = (k, v) ∷ []
insert k v ((j, w) ∷ m) = if k == j then (k, v) ∷ m else (j, w) ∷ insert k v m

-- `DEL key`
unfoldable pub erase : ℕ → List (ℕ × Text) → List (ℕ × Text)
erase k [] = []
erase k ((j, w) ∷ m) = let rest = erase k m in if k == j then rest else (j, w) ∷ rest

-- Members of one score stand in the order of their bytes.
text_lt : Text → Text → Bool
text_lt s [] = false
text_lt [] (d ∷ t) = true
text_lt (c ∷ s) (d ∷ t) = ltb c d || ((c == d) && text_lt s t)

comes_before : ℕ × ℕ → ℕ × ℕ → Bool
unfolding text_lt
comes_before (s, a) (t, b) = ltb s t || ((s == t) && text_lt (show a) (show b))

place : ℕ × ℕ → List (ℕ × ℕ) → List (ℕ × ℕ)
unfolding comes_before
place e [] = e ∷ []
place e (f ∷ q) = if comes_before e f then e ∷ f ∷ q else f ∷ place e q

unlist : ℕ → List (ℕ × ℕ) → List (ℕ × ℕ)
unlist a [] = []
unlist a ((t, b) ∷ q) = let rest = unlist a q in if a == b then rest else (t, b) ∷ rest

-- `ZADD queue score member`
unfoldable pub zadd : ℕ → ℕ → List (ℕ × ℕ) → List (ℕ × ℕ)
unfolding place unlist
zadd score member q = place (score, member) (unlist member q)

-- `ZRANGEBYSCORE queue 0 now`
unfoldable pub members_until : ℕ → List (ℕ × ℕ) → List ℕ
members_until now [] = []
members_until now ((s, a) ∷ q) =
    let rest = members_until now q in if leb s now then a ∷ rest else rest

-- `ZREMRANGEBYSCORE queue 0 now`
unfoldable pub remove_until : ℕ → List (ℕ × ℕ) → List (ℕ × ℕ)
remove_until now [] = []
remove_until now ((s, a) ∷ q) =
    let rest = remove_until now q in if leb s now then rest else (s, a) ∷ rest

abbrev pub from_zero : Option ℕ → ℕ
from_zero none = 0
from_zero (some n) = n

-- The value after `INCR key`; the command fails at the end of the signed 64 bit range.
unfoldable pub incr : Option ℕ → Option ℕ
incr k = let n = from_zero k in if ltb n (2 ^ 63 - 1) then some (n + 1) else none
