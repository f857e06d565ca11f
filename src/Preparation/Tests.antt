-- ===== src/Preparation/Tests.antt =====
-- A payment is added to an empty block.
use bazo_miner.Prelude.{◌+◌, ◌<◌, ◌≡◌, ◌⊎◌, refl, true, false, none, [], ◌==◌}
use bazo_miner.Prelude.Assoc.{lookup, insert, adjust}
use bazo_miner.Prelude.Words.{add64}
use bazo_miner.Ledger.Types.{new_block, min_staking_minimum}
use bazo_miner.Ledger.Accounts.{is_root_key}
use bazo_miner.Ledger.Funds.{funds_error}
use bazo_miner.Samples.{two_accounts, plain_account, forty, empty_storage}
use bazo_miner.Preparation.State.{Building, Outside, copy_account}
use bazo_miner.Preparation.Funds.{add_funds_tx, pay}
use bazo_miner.Preparation.Payments.{Effect}
use bazo_miner.Preparation.Effects.{add_funds_tx-Effect}
use bazo_miner.Preparation.Agreement.{add_funds_tx-funds_error}

abbrev outside : Outside
outside = record {
  checker = record {
    ecdsa_verify = λ x y hash r s. s == y + 8;
    hash = λ t. 110;
    address_hash = λ a. a;
    multisig = 77;
    root_address = λ h. h;
  };
  key_hash = λ a. a;
  sha3 = λ bs. bs;
  check_sig = λ a b c. true;
}

abbrev fresh_block : Building
fresh_block = record {
  block = new_block 8 300;
  state_copy = [];
  world = two_accounts;
  storage = empty_storage;
}

add_funds_tx-Effect_example :
    Effect outside 100 forty fresh_block
      (add_funds_tx outside 100 forty fresh_block).0
      (add_funds_tx outside 100 forty fresh_block).1
add_funds_tx-Effect_example = add_funds_tx-Effect outside 100 forty fresh_block

add_funds_tx-funds_error_example :
    (funds_error false forty (plain_account 1 1000) (plain_account 2 50) ≡ none)
    ⊎ ((false ≡ true) × (1000 < add64 (add64 2 min_staking_minimum) 40))
unfolding add_funds_tx copy_account lookup insert adjust is_root_key pay add64
add_funds_tx-funds_error_example =
    add_funds_tx-funds_error outside 100 forty fresh_block (plain_account 1 1000)
      (plain_account 2 50) refl refl refl refl refl
