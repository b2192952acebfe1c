-- ===== src/SuiClient/Chunks.antt =====
-- The latest gas objects, asked for in chunks.
use mathlib.Core.List.{flatten, map-append}
use sui_gas_pool.Prelude.{
  ℕ, zero, suc, ◌≤◌, ◌≡◌, refl, ap, ◌∙◌, sym, subst, Bool-cases, inl, inr, false, Option, none,
  some, List, [], ◌∷◌, ◌++◌, map, ok, All, length, length-map, take, drop, take-append-drop,
  length-take_le, length-drop_le, ◌==◌, ==_self, if◌then◌else◌, contains, arith, and_then,
}
use sui_gas_pool.Types.{ObjectId, GasCoin}
use sui_gas_pool.Retry.{Retry, IsRetry}
use sui_gas_pool.SuiClient.{
  FullNode, ObjectResponse, try_get_sui_coin_balance, zip, chunks_of, put, to_map, whole_answer,
  fetch_chunk, fetch_chunks, get_latest_gas_objects,
}

-- `get` of the map that is returned.
unfoldable pub find_coin : ObjectId → List (ObjectId × Option GasCoin) → Option (Option GasCoin)
find_coin i [] = none
find_coin i ((j, c) ∷ m) = if i == j then some c else find_coin i m

-- The chunks are the list, cut into pieces of at most fifty.
chunks_of-flatten :
    (fuel : ℕ) (is : List ObjectId)
    → length is ≤ fuel
    → (flatten (chunks_of fuel 50 is) ≡ is)
      × All (λ (c : List ObjectId). length c ≤ 50) (chunks_of fuel 50 is)
unfolding chunks_of flatten
chunks_of-flatten zero [] h = (refl, tt)
chunks_of-flatten zero (i ∷ is) h = absurd (omega (arith, h))
chunks_of-flatten (suc fuel) [] h = (refl, tt)
chunks_of-flatten (suc fuel) (i ∷ is) h =
    let (whole, short) =
      chunks_of-flatten fuel (drop 50 (i ∷ is)) (omega (arith, h, length-drop_le 49 is)) in
    (
      ap (λ more. take 50 (i ∷ is) ++ more) whole ∙ take-append-drop 50 (i ∷ is),
      (length-take_le 50 (i ∷ is), short),
    )

find_coin-put_self :
    (i : ObjectId) (c : Option GasCoin) (m : List (ObjectId × Option GasCoin))
    → find_coin i (put i c m) ≡ some c
unfolding find_coin put
find_coin-put_self i c [] = ground (arith, ==_self i)
find_coin-put_self i c ((j, d) ∷ m) = ground (arith, ==_self i, find_coin-put_self i c m)

find_coin-put_other :
    (i k : ObjectId) (c : Option GasCoin) (m : List (ObjectId × Option GasCoin))
    → (k == i) ≡ false
    → find_coin i (put k c m) ≡ find_coin i m
unfolding find_coin put
find_coin-put_other i k c [] h = ground arith
find_coin-put_other i k c ((j, d) ∷ m) h = ground (arith, find_coin-put_other i k c m h)

-- The pairs that an honest node's answers make.
abbrev pairs : (ObjectId → ObjectResponse) → List ObjectId → List (ObjectId × ObjectResponse)
pairs f is = map (λ (i : ObjectId). (i, f i)) is

find_coin-to_map :
    (f : ObjectId → ObjectResponse) (i : ObjectId) (is : List ObjectId)
    (m : List (ObjectId × Option GasCoin))
    → find_coin i (to_map (pairs f is) m)
      ≡ (if contains is i then some (try_get_sui_coin_balance (f i)) else find_coin i m)
unfolding to_map
find_coin-to_map f i [] m = refl
find_coin-to_map f i (k ∷ is) m = elim (Bool-cases (k == i)) [
  | inl same ↦
      let k_is : k ≡ i = ground arith in
      find_coin-to_map f i is (put k (try_get_sui_coin_balance (f k)) m)
      ∙ subst
          (λ j.
            (if contains is i
              then some (try_get_sui_coin_balance (f i))
              else find_coin i (put j (try_get_sui_coin_balance (f j)) m))
            ≡ some (try_get_sui_coin_balance (f i)))
          (sym k_is)
          (elim (Bool-cases (contains is i)) [
            | inl there ↦ rw there refl
            | inr gone ↦ rw gone (find_coin-put_self i (try_get_sui_coin_balance (f i)) m)
          ])
      ∙ rw same refl
  | inr other ↦
      find_coin-to_map f i is (put k (try_get_sui_coin_balance (f k)) m)
      ∙ ap (λ c. if contains is i then some (try_get_sui_coin_balance (f i)) else c)
          (find_coin-put_other i k (try_get_sui_coin_balance (f k)) m other)
      ∙ rw other refl
]

zip-map : (f : ObjectId → ObjectResponse) (is : List ObjectId) → zip is (map f is) ≡ pairs f is
unfolding zip
zip-map f [] = refl
zip-map f (i ∷ is) = ap (◌∷◌ (i, f i)) (zip-map f is)

module _ (retry : Retry) (retries : IsRetry retry) (node : FullNode) (f : ObjectId → ObjectResponse)
    (answers : (chunk : List ObjectId)
      → length chunk ≤ 50
      → node.multi_get 0 chunk ≡ ok (map f chunk)) where
  whole_answer-ok :
      (chunk : List ObjectId) → whole_answer retry node chunk (map f chunk) ≡ ok (pairs f chunk)
  unfolding whole_answer
  whole_answer-ok chunk =
      rw (ap (λ n. n == length chunk) (length-map f chunk) ∙ ==_self (length chunk))
        (ap ok (zip-map f chunk))

  fetch_chunk-ok :
      (chunk : List ObjectId)
      → length chunk ≤ 50
      → fetch_chunk retry node chunk ≡ ok (pairs f chunk)
  unfolding fetch_chunk whole_answer
  fetch_chunk-ok chunk h =
      retries.forever_first (λ n. and_then (node.multi_get n chunk) (whole_answer retry node chunk))
        (pairs f chunk) (rw (answers chunk h) (whole_answer-ok chunk))

  fetch_chunks-ok :
      (chunks : List (List ObjectId))
      → All (λ (c : List ObjectId). length c ≤ 50) chunks
      → fetch_chunks retry node chunks ≡ ok (pairs f (flatten chunks))
  unfolding fetch_chunks flatten
  fetch_chunks-ok [] short = refl
  fetch_chunks-ok (c ∷ cs) short =
      rw (fetch_chunk-ok c short.0, fetch_chunks-ok cs short.1)
        (ap ok (sym (map-append (λ (i : ObjectId). (i, f i)) c (flatten cs))))

  -- If the node answers the first attempt at every request for at most fifty objects, in their
  -- order, then the map that is returned has exactly the ids that were asked for, however many,
  -- each with the coin that is read from the answer about it.
  pub get_latest_gas_objects_finds :
      (ids : List ObjectId)
      → (m : List (ObjectId × Option GasCoin)) × (get_latest_gas_objects retry node ids ≡ ok m)
        × ((i : ObjectId)
            → find_coin i m
              ≡ (if contains ids i then some (try_get_sui_coin_balance (f i)) else none))
  unfolding get_latest_gas_objects find_coin
  get_latest_gas_objects_finds ids =
      let (whole, short) = chunks_of-flatten (length ids) ids (omega arith) in
      let asked = fetch_chunks-ok (chunks_of (length ids) 50 ids) short in
      (
        to_map (pairs f ids) [],
        rw asked (ap (λ is. ok (to_map (pairs f is) [])) whole),
        λ i. find_coin-to_map f i ids [],
      )
