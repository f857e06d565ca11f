-- ===== src/Preparation.antt =====
-- addTx (miner/block.go) with addAccTx, addConfigTx and addStakeTx (miner/block_accounttx.go,
-- block_configtx.go, block_staketx.go): a transaction is checked and added to a new block.
pub mod State
pub mod Funds
pub mod Payments
pub mod Copies
pub mod Effects
pub mod Agreement
mod Tests
use bazo_miner.Prelude.{
  ℕ, ◌+◌, ◌/◌, ◌%◌, Bool, true, false, not, ◌&&◌, Option, none, some, List, [], ◌∷◌, ◌++◌, ltb, leb,
  ◌==◌, if◌then◌else◌,
}
use bazo_miner.Prelude.Assoc.{lookup, adjust}
use bazo_miner.Prelude.Words.{add64}
use bazo_miner.Ledger.Types.{Account, Block, AccTx, ConfigTx, StakeTx}
use bazo_miner.Ledger.Accounts.{is_root_key}
use bazo_miner.Ledger.Stake.{same}
use bazo_miner.Storage.{Transaction, funds, acc, update, config, stake, agg}
use bazo_miner.Verification.{verify}
use bazo_miner.Updates.{add_update_tx}
use State.{
  Building, Adding, Outside, done, failed, panicked, sender_missing, not_enough_funds,
  account_exists, already_set, fee_too_low, not_verified, copy_account,
}
use Funds.{add_funds_tx}

module _ (outside : Outside) where
  open outside use {checker, key_hash}
  open checker use {hash}

  -- The removal bit of the header allows an account that exists.
  unfoldable pub add_acc_tx : AccTx → Building → Building × Adding
  add_acc_tx tx b =
      let add = record b {
        block = record b.block { acc_tx_data = b.block.acc_tx_data ++ hash (acc tx) ∷ [] };
      } in
      if tx.header / 2 % 2 == 1
      then (add, done)
      else elim (lookup (key_hash tx.pub_key) b.world.state) [
        | some a ↦ (b, failed account_exists)
        | none ↦ (add, done)
      ]

  unfoldable pub add_config_tx : ConfigTx → Building → Building × Adding
  add_config_tx tx b = (
    record b {
      block = record b.block { config_tx_data = b.block.config_tx_data ++ hash (config tx) ∷ [] };
    },
    done,
  )

  abbrev pub set_staking : StakeTx → Account → Account
  set_staking tx a = record a { is_staking = tx.is_staking; commitment_key = tx.commitment_key }

  abbrev pub check_staker : StakeTx → Option Account → Building → Building × Adding
  check_staker tx none b = (b, panicked)
  check_staker tx (some a) b =
      if not (is_root_key tx.account b.world)
        && leb a.balance (add64 tx.fee b.world.active_parameters.staking_minimum)
      then (b, failed not_enough_funds)
      else if same a.is_staking tx.is_staking
      then (b, failed already_set)
      else (
        record b {
          state_copy = adjust tx.account (set_staking tx) b.state_copy;
          block = record b.block { stake_tx_data = b.block.stake_tx_data ++ hash (stake tx) ∷ [] };
        },
        done,
      )

  unfoldable pub add_stake_tx : StakeTx → Building → Building × Adding
  unfolding copy_account
  add_stake_tx tx b = elim (copy_account outside tx.account b) [
    | none ↦ (b, failed sender_missing)
    | some b' ↦ check_staker tx (lookup tx.account b'.state_copy) b'
  ]

  -- `TxFee()`
  abbrev pub tx_fee : Transaction → ℕ
  tx_fee (funds x) = x.fee
  tx_fee (acc x) = x.fee
  tx_fee (update x) = x.fee
  tx_fee (config x) = x.fee
  tx_fee (stake x) = x.fee
  tx_fee (agg x) = x.fee

  -- The `switch` on a transaction that was verified.
  unfoldable pub add_verified : (fuel : ℕ) → Transaction → Building → Building × Adding
  unfolding add_funds_tx add_acc_tx add_config_tx add_stake_tx
  add_verified fuel (acc x) b = add_acc_tx x b
  add_verified fuel (funds x) b = add_funds_tx outside fuel x b
  add_verified fuel (config x) b = add_config_tx x b
  add_verified fuel (stake x) b = add_stake_tx x b
  add_verified fuel (update x) b =
      let (block, storage) = add_update_tx hash b.block x b.storage in
      (record b { block = block; storage = storage }, done)
  add_verified fuel (agg x) b = (b, done)

  abbrev pub check_and_add : (fuel : ℕ) → Transaction → Building → Building × Adding
  check_and_add fuel t b =
      if ltb (tx_fee t) b.world.active_parameters.fee_minimum
      then (b, failed fee_too_low)
      else let (t', valid) = verify checker b.world b.storage t in
        if valid then add_verified fuel t' b else (b, failed not_verified)

  unfoldable pub add_tx : (fuel : ℕ) → Transaction → Building → Building × Adding
  unfolding add_verified
  add_tx fuel (agg x) b = (b, done)
  add_tx fuel t b = check_and_add fuel t b
