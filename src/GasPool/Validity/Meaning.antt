-- ===== src/GasPool/Validity/Meaning.antt =====
-- Which transactions pass, said of the transaction and not of the loop.
use sui_gas_pool.Prelude.{
  ◌≡◌, ◌≢◌, refl, sym, ◌∙◌, Bool, true, false, ◌||◌, ◌↔◌, List, [], ◌∷◌, ◌++◌, ok, All, arith, ◌⊎◌,
  inl, inr,
}
use sui_gas_pool.Sui.{
  Argument, gas_coin, input, result, nested_result, Command, move_call, transfer_objects,
  split_coins, merge_coins, publish, make_move_vec, upgrade, TransactionData,
}
use sui_gas_pool.GasPool.Validity.{
  command_args, collect_args, is_gas_coin, uses_gas, check_transaction_validity,
}

-- No argument of the command is the gas coin: it is neither called with, transferred, split, merged,
-- put into a vector, nor the ticket of an upgrade.
abbrev pub LeavesGas : Command → Type 0
LeavesGas (move_call args) = All (λ a. a ≢ gas_coin) args
LeavesGas (transfer_objects args recipient) = All (λ a. a ≢ gas_coin) args
LeavesGas (split_coins arg amounts) = arg ≢ gas_coin
LeavesGas (merge_coins arg args) = (arg ≢ gas_coin) × All (λ a. a ≢ gas_coin) args
LeavesGas publish = Unit
LeavesGas (make_move_vec args) = All (λ a. a ≢ gas_coin) args
LeavesGas (upgrade ticket) = ticket ≢ gas_coin

abbrev pub IsUpgrade : Command → Type 0
IsUpgrade (upgrade ticket) = Unit
IsUpgrade (move_call args) = ⊥
IsUpgrade (transfer_objects args recipient) = ⊥
IsUpgrade (split_coins arg amounts) = ⊥
IsUpgrade (merge_coins arg args) = ⊥
IsUpgrade publish = ⊥
IsUpgrade (make_move_vec args) = ⊥

-- What is tested of a command: the arguments of an upgrade are not looked at.
abbrev pub IsPassed : Command → Type 0
IsPassed c = IsUpgrade c ⊎ LeavesGas c

-- In the faucet mode the sponsor sends and signs; otherwise all commands but upgrades leave the gas
-- coin alone.
abbrev pub IsAllowed : Bool → TransactionData → Type 0
IsAllowed true tx = (tx.gas_owner ≡ tx.sender) × (tx.first_signer ≡ tx.sender)
IsAllowed false tx = All IsPassed tx.commands

gas_free : (a : Argument) → (is_gas_coin a ≡ false) ↔ (a ≢ gas_coin)
unfolding is_gas_coin
gas_free gas_coin = ((λ h. cc), (λ h. absurd (h refl)))
gas_free (input i) = ((λ h e. cc), (λ h. refl))
gas_free (result i) = ((λ h e. cc), (λ h. refl))
gas_free (nested_result i j) = ((λ h e. cc), (λ h. refl))

or_false : (a b : Bool) → (a || b) ≡ false → (a ≡ false) × (b ≡ false)
or_false a b h = ground arith

uses_gas_iff : (args : List Argument) → (uses_gas args ≡ false) ↔ All (λ a. a ≢ gas_coin) args
unfolding uses_gas
uses_gas_iff [] = ((λ h. tt), (λ h. refl))
uses_gas_iff (a ∷ args) = (
  (λ h.
      let (x, y) = or_false (is_gas_coin a) (uses_gas args) h in
      ((gas_free a).0 x, (uses_gas_iff args).0 y)),
  (λ h. rw ((gas_free a).1 h.0, (uses_gas_iff args).1 h.1)),
)

uses_gas-append : (xs ys : List Argument) → uses_gas (xs ++ ys) ≡ (uses_gas xs || uses_gas ys)
unfolding uses_gas
uses_gas-append [] ys = refl
uses_gas-append (x ∷ xs) ys = ground (arith, uses_gas-append xs ys)

-- What holds of a command that is no upgrade.
plain : (c : Command) {P : Type 0} → ¬ IsUpgrade c → P ↔ LeavesGas c → P ↔ IsPassed c
plain c other (to, from) =
    ((λ h. inr (to h)), (λ h. elim h [ inl up ↦ absurd (other up) | inr leaves ↦ from leaves ]))

command_iff : (c : Command) → (uses_gas (command_args c) ≡ false) ↔ IsPassed c
unfolding command_args uses_gas
command_iff (move_call args) = plain (move_call args) (λ h. h) (uses_gas_iff args)
command_iff (transfer_objects args recipient) =
    plain (transfer_objects args recipient) (λ h. h) (uses_gas_iff args)
command_iff (split_coins arg amounts) =
    let e = uses_gas_iff (arg ∷ []) in
    plain (split_coins arg amounts) (λ h. h) ((λ h. (e.0 h).0), (λ h. e.1 (h, tt)))
command_iff (merge_coins arg args) =
    plain (merge_coins arg args) (λ h. h) (uses_gas_iff (arg ∷ args))
command_iff publish = plain publish (λ h. h) ((λ h. tt), (λ h. refl))
command_iff (make_move_vec args) = plain (make_move_vec args) (λ h. h) (uses_gas_iff args)
command_iff (upgrade ticket) = ((λ h. inl tt), (λ h. refl))

commands_iff : (cs : List Command) → (uses_gas (collect_args cs) ≡ false) ↔ All IsPassed cs
unfolding collect_args uses_gas
commands_iff [] = ((λ h. tt), (λ h. refl))
commands_iff (c ∷ cs) = (
  (λ h.
      let (x, y) =
        or_false (uses_gas (command_args c)) (uses_gas (collect_args cs))
          (sym (uses_gas-append (command_args c) (collect_args cs)) ∙ h) in
      ((command_iff c).0 x, (commands_iff cs).0 y)),
  (λ h.
      uses_gas-append (command_args c) (collect_args cs)
      ∙ rw ((command_iff c).1 h.0, (commands_iff cs).1 h.1)),
)

pub check_transaction_validity_iff :
    (faucet : Bool) (tx : TransactionData)
    → (check_transaction_validity faucet tx ≡ ok tt) ↔ IsAllowed faucet tx
unfolding check_transaction_validity
check_transaction_validity_iff true tx = ((λ h. ground arith), (λ h. ground arith))
check_transaction_validity_iff false tx =
    ((λ h. (commands_iff tx.commands).0 (ground arith)), (λ h. rw ((commands_iff tx.commands).1 h)))
