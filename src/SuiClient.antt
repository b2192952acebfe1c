-- ===== src/SuiClient.antt =====
-- The client of the full node: src/sui_client.rs. The node is a parameter: `FullNode` has what it
-- answers to each attempt. A hash map is a list of pairs in the order of insertion.
pub mod Paging
pub mod Chunks
use sui_gas_pool.Prelude.{
  ℕ, zero, suc, ◌*◌, ◌/◌, ◌%◌, ◌^◌, ◌==◌, leb, if◌then◌else◌, Bool, Option, none, some, List, [],
  ◌∷◌, ◌++◌, map, Result, ok, err, Error, and_then, unwrap, length, take, drop, keep_some, is_empty,
}
use sui_gas_pool.Types.{ObjectId, ObjectRef, GasCoin}
use sui_gas_pool.Sui.{Owner, Response, Transaction}
use sui_gas_pool.Retry.{Retry}

-- What an answer has of an object: `None` where the request did not ask for it.
pub data RawData : Type 0 where
  -- whether the type is that of a gas coin, and its value if the bytes can be read as one
  move_object : Bool → Option ℕ → RawData
  move_package : RawData

pub record ObjectData : Type 0 where
  pub object_ref : ObjectRef
  pub owner : Option Owner
  pub bcs : Option RawData

abbrev pub ObjectResponse : Type 0
ObjectResponse = Option ObjectData

pub record Page : Type 0 where
  pub items : List GasCoin
  pub has_next_page : Bool
  pub next_cursor : Option ℕ

pub record FullNode : Type 0 where
  pub multi_get : ℕ → List ObjectId → Result (List ObjectResponse)
  pub execute_block : ℕ → Transaction → Result Response

-- `?` on each optional part.
unfoldable pub gas_value : Option RawData → Option ℕ
gas_value none = none
gas_value (some move_package) = none
gas_value (some (move_object is_gas_coin value)) = if is_gas_coin then value else none

unfoldable pub with_balance : ObjectRef → Option ℕ → Option GasCoin
with_balance r none = none
with_balance r (some n) = some (record { object_ref = r; balance = n })

unfoldable pub try_get_sui_coin_balance : ObjectResponse → Option GasCoin
unfolding gas_value with_balance
try_get_sui_coin_balance none = none
try_get_sui_coin_balance (some d) = with_balance d.object_ref (gas_value d.bcs)

unfoldable pub zip : List ObjectId → List ObjectResponse → List (ObjectId × ObjectResponse)
zip [] rs = []
zip (i ∷ is) [] = []
zip (i ∷ is) (r ∷ rs) = (i, r) ∷ zip is rs

-- `chunks(50)`: the fuel is the length of the list, and every chunk takes at least one item.
unfoldable pub chunks_of : ℕ → ℕ → List ObjectId → List (List ObjectId)
chunks_of zero size is = []
chunks_of (suc fuel) size is =
    let rest = chunks_of fuel size (drop size is) in if is_empty is then [] else take size is ∷ rest

-- `collect` into a hash map: the value of a key that comes again is replaced.
unfoldable pub put :
    ObjectId → Option GasCoin → List (ObjectId × Option GasCoin) → List (ObjectId × Option GasCoin)
put k v [] = (k, v) ∷ []
put k v ((j, w) ∷ m) = if k == j then (k, v) ∷ m else (j, w) ∷ put k v m

unfoldable pub to_map :
    List (ObjectId × ObjectResponse)
    → List (ObjectId × Option GasCoin)
    → List (ObjectId × Option GasCoin)
unfolding put
to_map [] m = m
to_map ((i, r) ∷ rest) m = to_map rest (put i (try_get_sui_coin_balance r) m)

-- The coins of a page that are large enough.
unfoldable pub above : ℕ → List GasCoin → List GasCoin
above threshold [] = []
above threshold (c ∷ cs) =
    let rest = above threshold cs in if leb threshold c.balance then c ∷ rest else rest

-- `get_coins` is the page of coins at a cursor, as it finally comes; the fuel bounds the pages.
collect_pages : (Option ℕ → Page) → ℕ → ℕ → Option ℕ → List GasCoin → Option (List GasCoin)
unfolding above
collect_pages get_coins zero threshold cursor coins = none
collect_pages get_coins (suc fuel) threshold cursor coins =
    let page = get_coins cursor in
    let coins' = coins ++ above threshold page.items in
    let more = collect_pages get_coins fuel threshold page.next_cursor coins' in
    if page.has_next_page then more else some coins'

unfoldable pub get_all_owned_sui_coins_above_balance_threshold :
    (Option ℕ → Page) → ℕ → ℕ → Option (List GasCoin)
unfolding collect_pages
get_all_owned_sui_coins_above_balance_threshold get_coins fuel threshold =
    collect_pages get_coins fuel threshold none []

abbrev pub split_count : ℕ
split_count = 500

-- `inspect` is the gas that each attempt at the trial run of a split into 500 coins used.
unfoldable pub calibrate_gas_cost_per_object : Retry → (ℕ → Result ℕ) → Result ℕ
calibrate_gas_cost_per_object retry inspect =
    and_then (unwrap (retry.forever inspect)) (λ gas_used. ok (gas_used / split_count * 2 % 2 ^ 64))

module _ (retry : Retry) (node : FullNode) where
  -- One attempt for a chunk.
  unfoldable pub whole_answer :
      List ObjectId → List ObjectResponse → Result (List (ObjectId × ObjectResponse))
  unfolding zip
  whole_answer chunk answer =
      if length answer == length chunk then ok (zip chunk answer) else err Error.remote

  unfoldable pub fetch_chunk : List ObjectId → Result (List (ObjectId × ObjectResponse))
  unfolding whole_answer
  fetch_chunk chunk = retry.forever λ n. and_then (node.multi_get n chunk) (whole_answer chunk)

  unfoldable pub fetch_chunks : List (List ObjectId) → Result (List (ObjectId × ObjectResponse))
  unfolding fetch_chunk
  fetch_chunks [] = ok []
  fetch_chunks (c ∷ cs) =
      and_then (fetch_chunk c) (λ a. and_then (fetch_chunks cs) (λ more. ok (a ++ more)))

  unfoldable pub get_latest_gas_objects : List ObjectId → Result (List (ObjectId × Option GasCoin))
  unfolding chunks_of fetch_chunks to_map
  get_latest_gas_objects ids =
      and_then (fetch_chunks (chunks_of (length ids) 50 ids)) (λ answers. ok (to_map answers []))

  -- `into_values().flatten().collect()`
  unfoldable pub latest_coins : List ObjectId → Result (List GasCoin)
  latest_coins ids = and_then (get_latest_gas_objects ids) (λ m. ok (keep_some (map (λ e. e.1) m)))

  unfoldable pub require_effects : Response → Result Response
  require_effects r = elim r.effects [ none ↦ err Error.no_effects | some e ↦ ok r ]

  unfoldable pub execute_transaction : Transaction → ℕ → Result Response
  unfolding require_effects
  execute_transaction tx max_attempts =
      and_then (retry.limited max_attempts (λ n. node.execute_block n tx)) require_effects

unfoldable pub set_owner :
    ObjectId → Owner → ℕ → List (ObjectId × Owner × ℕ) → List (ObjectId × Owner × ℕ)
set_owner k o v [] = (k, o, v) ∷ []
set_owner k o v ((j, p, w) ∷ m) = if k == j then (k, o, v) ∷ m else (j, p, w) ∷ set_owner k o v m

-- The map of `multi_get_object_owners`: an answer without data or without owner is an error.
unfoldable pub collect_owners :
    List ObjectResponse → List (ObjectId × Owner × ℕ) → Result (List (ObjectId × Owner × ℕ))
unfolding set_owner
collect_owners [] m = ok m
collect_owners (none ∷ rs) m = err Error.remote
collect_owners (some d ∷ rs) m = elim d.owner [
  | none ↦ err Error.remote
  | some o ↦ collect_owners rs (set_owner d.object_ref.id o d.object_ref.version m)
]

unfoldable pub multi_get_object_owners :
    Retry → FullNode → List ObjectId → Result (List (ObjectId × Owner × ℕ))
unfolding collect_owners
multi_get_object_owners retry node ids =
    retry.limited 3 λ n. and_then (node.multi_get n ids) (λ rs. collect_owners rs [])
