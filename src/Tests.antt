-- ===== src/Tests.antt =====
-- Concrete data for the examples: formats, a store with two coins and a reservation, a full node, a
-- cache and a pool.
pub mod Storing
pub mod Sending
pub mod Stressing
pub mod Guarding
pub mod Running
pub mod Serving
pub mod Starting
pub mod Flowing
pub mod Splitting
pub mod Opening
pub mod Weaving
pub mod Calling
pub mod Metering
use sui_gas_pool.Prelude.{
  ℕ, zero, suc, ◌+◌, ◌^◌, ◌<◌, ◌≡◌, refl, ap, ◌∙◌, ◌==◌, if◌then◌else◌, Bool, true, false, Option,
  none, some, List, [], ◌∷◌, ◌++◌, map, Result, ok, err, Error, arith, length,
}
use sui_gas_pool.Prelude.Int.{ℤ, pos}
use sui_gas_pool.Text.{Text, show, read_nat, read_nat-show}
use sui_gas_pool.Types.{ObjectId, ObjectRef, GasCoin, total_balance}
use sui_gas_pool.Sui.{
  Owner, address_owner, InputObjectKind, imm_or_owned_move_object, TransactionData, Effects,
  Response,
}
use sui_gas_pool.Storage.Store.{Store}
use sui_gas_pool.Storage.Formats.{Formats, IsFormats, coin_text}
use sui_gas_pool.Storage.Formats.RoundTrip.{show-Plain}
use sui_gas_pool.Storage.Invariant.{Holds}
use sui_gas_pool.Storage.Scripts.Expire.{entries}
use sui_gas_pool.Storage.Reserved.{Reservations, find}
use sui_gas_pool.Storage.Redis.Expire.{Tracks}
use sui_gas_pool.Storage.Interface.{redis}
use sui_gas_pool.Retry.{Retry}
use sui_gas_pool.Locks.{Cache, ObjectLockManager}
use sui_gas_pool.UsageCap.{GasUsageCap, new}
use sui_gas_pool.SuiClient.{FullNode, ObjectData, RawData, move_object}
use sui_gas_pool.GasPool.Core.{Parts, GasPool}

-- A list of texts as one text: every code point is moved up by one, and zero ends a text.
mark : Text → Text → Text
mark [] rest = 0 ∷ rest
mark (c ∷ t) rest = suc c ∷ mark t rest

pub write_list : List Text → Text
unfolding mark
write_list [] = []
write_list (t ∷ ts) = mark t (write_list ts)

push : ℕ → List Text → List Text
push c [] = (c ∷ []) ∷ []
push c (t ∷ ts) = (c ∷ t) ∷ ts

pub read_list : Text → List Text
unfolding push
read_list [] = []
read_list (zero ∷ t) = [] ∷ read_list t
read_list (suc c ∷ t) = push c (read_list t)

read_list-mark : (t rest : Text) → read_list (mark t rest) ≡ t ∷ read_list rest
unfolding mark read_list push
read_list-mark [] rest = refl
read_list-mark (c ∷ t) rest = ap (push c) (read_list-mark t rest)

read_list-write_list : (ts : List Text) → read_list (write_list ts) ≡ ts
unfolding write_list read_list
read_list-write_list [] = refl
read_list-write_list (t ∷ ts) =
    read_list-mark t (write_list ts) ∙ ap (◌∷◌ t) (read_list-write_list ts)

abbrev pub formats : Formats
formats = record {
  id_text = show;
  id_parse = read_nat;
  digest_text = show;
  digest_parse = read_nat;
  to_json = write_list;
  from_json = λ t. some (read_list t);
}

pub formats-IsFormats : IsFormats formats
unfolding read_nat
formats-IsFormats = record {
  id_parse-id_text = read_nat-show;
  id_text-Plain = show-Plain;
  id_parse-nil = refl;
  digest_parse-digest_text = read_nat-show;
  digest_text-Plain = show-Plain;
  from_json-to_json = λ ts. ap some (read_list-write_list ts);
}

abbrev pub ref_of : ObjectId → ObjectRef
ref_of i = record { id = i; version = 1; digest = 8 }

abbrev pub coin_of : ObjectId → ℕ → GasCoin
coin_of i n = record { object_ref = ref_of i; balance = n }

abbrev pub two_coins : List GasCoin
two_coins = coin_of 11 5 ∷ coin_of 12 7 ∷ []

abbrev pub one_reservation : Reservations
one_reservation = (3, 13 ∷ []) ∷ []

abbrev pub store : Store
store = record {
  available_gas_coins = map (coin_text formats) two_coins;
  expiration_queue = (100, 3) ∷ [];
  next_reservation_id = some 3;
  available_coin_total_balance = some (pos 12);
  available_coin_count = some (pos 2);
  reservations = entries formats one_reservation;
  initialized = true;
  init_lock = none;
}

pub store-Holds : Holds formats store two_coins
store-Holds = record {
  texts = refl;
  stat_total = refl;
  stat_count = refl;
  total_exact = omega arith;
  count_exact = omega arith;
  in_range = ((omega arith, omega arith), ((omega arith, omega arith), tt));
}

pub store-Tracks : Tracks formats store one_reservation
unfolding find
store-Tracks = record {
  kept = refl;
  named = ((λ e. cc), tt);
  distinct = (refl, tt);
  given_out = (omega arith, tt);
}

-- A cache that forgets at once.
abbrev pub cache : Cache
cache = record { Content = Unit {0}; get = λ o c. none; insert = λ o v c. c }

-- The first attempt is the only one.
abbrev pub retry : Retry
retry = record { forever = λ f. f 0; limited = λ k f. f 0 }

abbrev pub node_data : ObjectId → Option ObjectData
node_data i = some (record {
  object_ref = ref_of i;
  owner = some (address_owner 9);
  bcs = some (move_object true (some 20));
})

abbrev pub effects : Effects
effects = record {
  gas_object = ref_of 13;
  gas_owner = address_owner 9;
  net_gas_usage = pos 2;
  mutated = [];
  created = [];
  is_success = true;
}

abbrev pub response : Response
response = record { effects = some effects; balance_changes = none; events = none }

abbrev pub node : FullNode
node = record { multi_get = λ n ids. ok (map node_data ids); execute_block = λ n tx. ok response }

-- Paid with the object of the reservation, by the sponsor 9, with an owned input.
abbrev pub tx : TransactionData
tx = record {
  sender = 1;
  gas_owner = 9;
  payment = ref_of 13 ∷ [];
  commands = [];
  first_signer = 1;
  input_objects = ok (imm_or_owned_move_object (ref_of 50) ∷ []);
}

abbrev pub parts : Parts Store
parts = record {
  storage = redis formats;
  retry = retry;
  cache = cache;
  address = 9;
  sign = λ n t. ok 77;
  advanced_faucet_mode = false;
  attempts = 1;
}

abbrev pub pool : GasPool parts
pool = record {
  gas_pool_store = store;
  gas_usage_cap = new 1000 5;
  object_lock_manager = record { address_owned_cache = tt; locked_owned_objects = 60 ∷ [] };
}
