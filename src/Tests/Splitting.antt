-- ===== src/Tests/Splitting.antt =====
-- The full node at concrete values: a node that executes every split, and one that answers about
-- many objects.
use sui_gas_pool.Prelude.{
  Result, sym, subst, ◌∙◌, inl, false, Option, contains, if◌then◌else◌, ℕ, zero, suc, ◌-◌, ◌≤◌, ◌≡◌,
  refl, ap, true, some, none, List, [], ◌∷◌, ok, All, length, arith,
}
use sui_gas_pool.Prelude.Int.{pos}
use sui_gas_pool.Types.{ObjectRef, GasCoin, total_balance}
use sui_gas_pool.Sui.{address_owner, TransactionData, Effects, Response, Transaction}
use sui_gas_pool.Retry.{IsRetry}
use sui_gas_pool.Initializer.{
  CoinSplitEnv, split_gas_coins, run_tasks, split_one_gas_coin, split_loop, send_split, accept,
  after_split, split_coins_of, new_coin_balance, remaining_coin_balance, extend_all, extend,
  enqueue_task, split_count, min,
}
use sui_gas_pool.Initializer.Honest.{Executed, IsHonest}
use sui_gas_pool.Initializer.Pieces.{FitsWords}
use sui_gas_pool.Initializer.Queue.{IsSmall, split_gas_coins_ends}
use sui_gas_pool.Prelude.Int.{unsigned, wrap_i64, signed, ◌-ℤ◌}
use sui_gas_pool.Storage.Scripts.Init.{acquire_lock_script}
use sui_gas_pool.Storage.Redis.{acquire_init_lock}
use sui_gas_pool.Initializer.Run.{initial, balance_threshold, max_init_duration_sec, run_once}
use sui_gas_pool.Initializer.Run.Steps.{IsNew, Stored, among}
use sui_gas_pool.Initializer.Run.Whole.{Chain, priced, chain_parts, run_once_splits}
use sui_gas_pool.SuiClient.{
  above, calibrate_gas_cost_per_object, execute_transaction, require_effects,
  get_latest_gas_objects, try_get_sui_coin_balance,
}
use sui_gas_pool.SuiClient.Chunks.{find_coin, get_latest_gas_objects_finds}
use sui_gas_pool.Tests.{
  formats, formats-IsFormats, store, store-Holds, two_coins, coin_of, ref_of, retry, node,
  node_data,
}

refs : ℕ → List ObjectRef
refs zero = []
refs (suc n) = ref_of n ∷ refs n

length-refs : (n : ℕ) → length (refs n) ≡ n
unfolding refs
length-refs zero = refl
length-refs (suc n) = ap suc (length-refs n)

-- The transaction carries the number of coins as its sender and the budget as its first signer.
abbrev split_of : ObjectRef → ℕ → ℕ → ℕ → TransactionData
split_of r count budget price = record {
  sender = count;
  gas_owner = 9;
  payment = r ∷ [];
  commands = [];
  first_signer = budget;
  input_objects = ok [];
}

abbrev split_effects : Transaction → Effects
split_effects tx = record {
  gas_object = ref_of 100;
  gas_owner = address_owner 9;
  net_gas_usage = pos tx.tx_data.first_signer;
  mutated = [];
  created = refs (tx.tx_data.sender - 1);
  is_success = true;
}

abbrev split_response : Transaction → Response
split_response tx = record {
  effects = some (split_effects tx);
  balance_changes = none;
  events = none;
}

abbrev env : CoinSplitEnv
env = record {
  target_init_coin_balance = 2;
  gas_cost_per_object = 1;
  rgp = 1;
  sign = λ n tx. ok 77;
  retry = retry;
  nodes =
      λ turn. record { multi_get = λ n ids. ok []; execute_block = λ n tx. ok (split_response tx) };
  split_tx = split_of;
}

env-FitsWords : FitsWords env
env-FitsWords = record { room = omega arith; positive = omega arith }

retry-IsRetry : IsRetry retry
retry-IsRetry = record {
  forever_attempt = λ f a e. (0, e);
  forever_first = λ f a e. e;
  limited_attempt = λ k f a e. (0, e);
  limited_first = λ k f a e. e;
}

executed :
    (r : ObjectRef) (count budget s : ℕ)
    → 1 ≤ count
    → Executed count budget
        (split_effects (record { tx_data = split_of r count budget 1; signatures = s ∷ [] }))
executed r count budget s h = record {
  used = budget;
  created_count = omega (arith, length-refs (count - 1));
  succeeds = refl;
  usage = refl;
  within = omega arith;
}

env-IsHonest : IsHonest env
env-IsHonest = record {
  signs = λ tx. (77, refl);
  executes = λ turn r count budget s h.
      let tx : Transaction = record { tx_data = split_of r count budget 1; signatures = s ∷ [] } in
      (split_response tx, split_effects tx, refl, refl, executed r count budget s h);
}

-- A coin of 20 and one of 5, with a share of 3.
split_gas_coins_ends_example :
    (out : List GasCoin) × (split_gas_coins env 26 (coin_of 11 20 ∷ coin_of 12 5 ∷ []) ≡ ok out)
    × All (IsSmall env 2) out
    × (total_balance out ≤ 25)
split_gas_coins_ends_example =
    split_gas_coins_ends env env-FitsWords retry-IsRetry env-IsHonest 2 26
      (coin_of 11 20 ∷ coin_of 12 5 ∷ []) (omega arith) (omega arith, (omega arith, tt))
      (omega arith) (omega arith)

-- More ids than fit a chunk.
some_ids : ℕ → List ℕ
some_ids zero = []
some_ids (suc n) = n ∷ some_ids n

get_latest_gas_objects_finds_example :
    (m : List (ℕ × Option GasCoin)) × (get_latest_gas_objects retry node (some_ids 120) ≡ ok m)
    × ((i : ℕ)
        → find_coin i m ≡ (
            if contains (some_ids 120) i
            then some (try_get_sui_coin_balance (node_data i))
            else none))
get_latest_gas_objects_finds_example =
    get_latest_gas_objects_finds retry retry-IsRetry node node_data (λ chunk h. refl) (some_ids 120)

-- A sponsor with one coin, and a trial run that makes an object cost 2.
abbrev chain : Chain
chain = record {
  get_coins =
      λ cursor. record { items = coin_of 14 20 ∷ []; has_next_page = false; next_cursor = none };
  inspect = λ c n. ok 500;
}

abbrev dear : CoinSplitEnv
dear = priced env 2

dear-IsHonest : IsHonest dear
dear-IsHonest = record { signs = env-IsHonest.signs; executes = env-IsHonest.executes }

calibrated : calibrate_gas_cost_per_object retry (chain.inspect (coin_of 14 20)) ≡ ok 2
unfolding calibrate_gas_cost_per_object
calibrated = refl

found : above (balance_threshold initial 2) (coin_of 14 20 ∷ []) ≡ coin_of 14 20 ∷ []
unfolding above balance_threshold
found = refl

abbrev five : List GasCoin
five = coin_of 3 2 ∷ coin_of 2 2 ∷ coin_of 1 2 ∷ coin_of 0 2 ∷ coin_of 100 2 ∷ []

splits : split_gas_coins dear 21 (coin_of 14 20 ∷ []) ≡ ok five
unfolding split_gas_coins run_tasks split_one_gas_coin split_loop send_split accept
    execute_transaction require_effects after_split split_coins_of new_coin_balance
    remaining_coin_balance extend_all extend enqueue_task split_count min refs unsigned wrap_i64
    signed ◌-ℤ◌
splits = refl

five-IsNew : IsNew two_coins five (11 ∷ 12 ∷ 13 ∷ [])
five-IsNew = record {
  in_range = (
    (omega arith, omega arith),
    (
      (omega arith, omega arith),
      ((omega arith, omega arith), ((omega arith, omega arith), ((omega arith, omega arith), tt))),
    ),
  );
  total_fits = omega arith;
  count_fits = omega arith;
  unseen = λ a. ground arith;
}

same_coins :
    {more : List GasCoin} → ◌≡◌ {A = Result (List GasCoin)} (ok five) (ok more) → five ≡ more
same_coins e = cc

acquired : (acquire_init_lock 10 max_init_duration_sec store).0 ≡ ok true
unfolding acquire_init_lock acquire_lock_script
acquired = refl

run_once_splits_example :
    let parts = chain_parts chain env 1 21 in
    (more : List GasCoin) × Stored formats formats-IsFormats parts [] []
      (among formats formats-IsFormats parts [] [] store (11 ∷ 12 ∷ 13 ∷ []))
      (run_once formats parts 10 initial store)
      two_coins
      more
      (11 ∷ 12 ∷ 13 ∷ [])
    × All (IsSmall dear 0) more
    × (total_balance more ≤ 20)
run_once_splits_example =
    run_once_splits formats formats-IsFormats chain env 10 initial store two_coins
      (coin_of 14 20 ∷ []) [] (coin_of 14 20) (11 ∷ 12 ∷ 13 ∷ []) [] [] 1 1 21 2 acquired
      (inl (refl, refl)) (omega arith) found calibrated
      (record { room = omega arith; positive = omega arith }) retry-IsRetry dear-IsHonest
      (omega arith) (omega arith) store-Holds
      (λ more e.
        subst (λ m. IsNew two_coins m (11 ∷ 12 ∷ 13 ∷ [])) (same_coins (sym splits ∙ e)) five-IsNew)
