-- ===== src/GasPool/Validity.antt =====
-- `check_transaction_validity`: which transactions the pool pays for.
pub mod Meaning
use sui_gas_pool.Prelude.{
  Bool, true, false, not, ◌&&◌, ◌||◌, ◌==◌, if◌then◌else◌, List, [], ◌∷◌, ◌++◌, Result, ok, err,
  Error,
}
use sui_gas_pool.Sui.{
  Argument, gas_coin, input, result, nested_result, Command, move_call, transfer_objects,
  split_coins, merge_coins, publish, make_move_vec, upgrade, TransactionData,
}

-- The arguments that the loop collects: not the recipient of a transfer, nor the amounts of a split.
unfoldable pub command_args : Command → List Argument
command_args (move_call args) = args
command_args (transfer_objects args recipient) = args
command_args (split_coins arg amounts) = arg ∷ []
command_args (merge_coins arg args) = arg ∷ args
command_args publish = []
command_args (make_move_vec args) = args
command_args (upgrade ticket) = []

unfoldable pub collect_args : List Command → List Argument
unfolding command_args
collect_args [] = []
collect_args (c ∷ cs) = command_args c ++ collect_args cs

unfoldable pub is_gas_coin : Argument → Bool
is_gas_coin gas_coin = true
is_gas_coin (input i) = false
is_gas_coin (result i) = false
is_gas_coin (nested_result i j) = false

-- `all_args.into_iter().any(…)`
unfoldable pub uses_gas : List Argument → Bool
unfolding is_gas_coin
uses_gas [] = false
uses_gas (a ∷ rest) = is_gas_coin a || uses_gas rest

unfoldable pub check_transaction_validity : Bool → TransactionData → Result (Unit {0})
unfolding collect_args uses_gas
check_transaction_validity advanced_faucet_mode tx =
    if advanced_faucet_mode
      && (not (tx.gas_owner == tx.sender) || not (tx.first_signer == tx.sender))
    then err Error.signer_not_sender
    else if not advanced_faucet_mode && uses_gas (collect_args tx.commands)
    then err Error.gas_coin_used
    else ok tt
