-- ===== src/Ledger/Stake.antt =====
-- `stakeStateChange`, `updateStakingHeight` (miner/state.go) and `stakeStateChangeRollback`
-- (miner/staterollback.go).
pub mod Rollback
use bazo_miner.Prelude.{
  ℕ, Bool, true, false, not, ◌&&◌, ◌||◌, Option, none, some, List, reverse, ltb, if◌then◌else◌,
}
use bazo_miner.Prelude.Words.{add64}
use bazo_miner.Ledger.Types.{World, Account, StakeTx, Block}
use bazo_miner.Ledger.Monad.{
  Action, Outcome, ok, err, panic, Done, Error, account_missing, already_set, insufficient_funds,
  staking_minimum_violated, for_each,
}
use bazo_miner.Ledger.Accounts.{get_account, write}

-- `a == b` on Booleans.
abbrev pub same : Bool → Bool → Bool
same true b = b
same false b = not b

-- The three checks write one variable `err`: the last failure is reported.
unfoldable pub stake_error : Bool → (staking_minimum : ℕ) → StakeTx → Account → Option Error
stake_error initial staking_minimum tx sender =
    let set = if same tx.is_staking sender.is_staking then some already_set else none in
    let minimum =
      if not initial && tx.is_staking && ltb sender.balance (add64 tx.fee staking_minimum)
      then some staking_minimum_violated
      else set in
    if not initial && ltb sender.balance tx.fee then some insufficient_funds else minimum

abbrev pub set_stake : StakeTx → ℕ → Account → Account
set_stake tx height a = record a {
  is_staking = tx.is_staking;
  commitment_key = tx.commitment_key;
  staking_block_height = height;
}

-- The body of the loop; a sender that is not in the state is a nil pointer.
unfoldable pub stake_step : ℕ → Bool → StakeTx → Action Done
stake_step height initial tx w = elim (get_account tx.account w) [
  | none ↦ (panic, w)
  | some sender ↦ elim (stake_error initial w.active_parameters.staking_minimum tx sender) [
    | some e ↦ (err e, w)
    | none ↦ (ok tt, write tx.account (set_stake tx height) w)
  ]
]

unfoldable pub stake_state_change : List StakeTx → ℕ → Bool → Action Done
stake_state_change txs height initial = for_each (stake_step height initial) txs

abbrev pub flip_stake : Account → Account
flip_stake a = record a { is_staking = not a.is_staking }

unfoldable pub stake_rollback_step : StakeTx → Action Done
stake_rollback_step tx w = elim (get_account tx.account w) [
  | none ↦ (panic, w)
  | some sender ↦ (ok tt, write tx.account flip_stake w)
]

unfoldable pub stake_state_change_rollback : List StakeTx → Action Done
stake_state_change_rollback txs = for_each stake_rollback_step (reverse txs)

unfoldable pub update_staking_height : Block → Action Done
update_staking_height block w = elim (get_account block.beneficiary w) [
  | none ↦ (err account_missing, w)
  | some acc ↦
      (ok tt, write block.beneficiary (λ a. record a { staking_block_height = block.height }) w)
]
