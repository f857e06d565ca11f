-- ===== src/Ledger/Rewards.antt =====
-- `collectBlockReward`, `collectSlashReward` (miner/state.go) and their rollbacks
-- (miner/staterollback.go).
pub mod Rollback
pub mod Slash
use bazo_miner.Prelude.{
  ℕ, Bool, true, false, not, ◌&&◌, ◌||◌, Option, none, some, ltb, ◌==◌, if◌then◌else◌,
}
use bazo_miner.Prelude.Words.{add64, sub64}
use bazo_miner.Ledger.Types.{World, Account, Block, Hash, max_money}
use bazo_miner.Ledger.Monad.{Action, Outcome, ok, err, panic, Done, account_missing, miner_overflow}
use bazo_miner.Ledger.Accounts.{get_account, credit, debit, write}

-- Without a miner account the balance check panics; the initial setup skips it and reports the
-- lookup's error.
unfoldable pub collect_block_reward : ℕ → Hash → Bool → Action Done
collect_block_reward reward miner initial w = elim (get_account miner w) [
  | none ↦ (if initial then err account_missing else panic, w)
  | some acc ↦
      if not initial && ltb max_money (add64 acc.balance reward)
      then (err miner_overflow, w)
      else (ok tt, write miner (credit reward) w)
]

unfoldable pub collect_block_reward_rollback : ℕ → Hash → Action Done
collect_block_reward_rollback reward miner w = elim (get_account miner w) [
  | none ↦ (panic, w)
  | some acc ↦ (ok tt, write miner (debit reward) w)
]

-- "Check if proof is provided": one of the five hashes is not zero.
abbrev pub has_slashing_proof : Block → Bool
has_slashing_proof b =
    not (b.slashed_address == 0)
    || not (b.conflicting_block_hash1 == 0)
    || not (b.conflicting_block_hash2 == 0)
    || not (b.conflicting_block_hash_without_tx1 == 0)
    || not (b.conflicting_block_hash_without_tx2 == 0)

abbrev pub stop_staking : Account → Account
stop_staking a = record a { is_staking = false }

abbrev pub start_staking : Account → Account
start_staking a = record a { is_staking = true }

-- The miner is looked up first, and the error of that lookup is overwritten by the second one's; an
-- overflow replaces that.
unfoldable pub collect_slash_reward : ℕ → Block → Action Done
collect_slash_reward reward block w =
    if has_slashing_proof block
    then elim (get_account block.beneficiary w) [
      | none ↦ (panic, w)
      | some miner ↦
          if ltb max_money (add64 miner.balance reward)
          then (err miner_overflow, w)
          else elim (get_account block.slashed_address w) [
            | none ↦ (err account_missing, w)
            | some slashed ↦ (
              ok tt,
              write block.slashed_address stop_staking (
                  write block.slashed_address (debit w.active_parameters.staking_minimum)
                    (write block.beneficiary (credit reward) w)),
            )
          ]
    ]
    else (ok tt, w)

unfoldable pub collect_slash_reward_rollback : ℕ → Block → Action Done
collect_slash_reward_rollback reward block w =
    if has_slashing_proof block
    then elim (get_account block.beneficiary w) [
      | none ↦ (panic, w)
      | some miner ↦
          let w₁ = write block.beneficiary (debit reward) w in
          elim (get_account block.slashed_address w₁) [
            | none ↦ (panic, w₁)
            | some slashed ↦ (
              ok tt,
              write block.slashed_address start_staking
                  (write block.slashed_address (credit w.active_parameters.staking_minimum) w₁),
            )
          ]
    ]
    else (ok tt, w)
