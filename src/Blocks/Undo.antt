-- ===== src/Blocks/Undo.antt =====
-- rollback and preValidateRollback (miner/blockrollback.go): the transactions of a validated block are
-- read from the closed storage, and parameters, ledger, storage and statistics go back by them. The
-- loop over the blocks to roll back is in validate (miner/block_validation.go).
pub mod Read
pub mod Closed
mod Tests
use bazo_miner.Prelude.{
  ℕ, zero, suc, ◌≡◌, refl, sym, ap, ◌∙◌, Bool, true, false, Option, none, some, List, [], ◌∷◌,
}
use bazo_miner.Ledger.Types.{World, Hash, Block, AccTx, FundsTx, ConfigTx, StakeTx, AggTx, UpdateTx}
use bazo_miner.Ledger.Monad.{Outcome, ok, err, panic, Done}
use bazo_miner.Ledger.Params.{config_state_change_rollback}
use bazo_miner.Storage.{
  Storage, Transaction, acc, funds, config, stake, agg, update, read_closed_tx, read_closed_block,
}
use bazo_miner.Fetch.Kinds.{cast_acc, cast_funds, cast_config, cast_stake}
use bazo_miner.Statistics.{Statistics, Floats, collect_statistics_rollback}
use bazo_miner.Blocks.{BlockData, ChainState, Result, put_world, next_step, validate_state_rollback}
use bazo_miner.Blocks.Closing.{reopen_txs, post_validate_rollback}

-- What is read from the closed storage, the error of a missing transaction, or a failed type
-- assertion.
pub data Reading (A : Type 0) : Type 0 where
  found : A → Reading A
  not_closed : Reading A
  wrong_type : Reading A

abbrev pub and_read : {A B : Type 0} → Reading A → (A → Reading B) → Reading B
and_read (found a) next = next a
and_read not_closed next = not_closed
and_read wrong_type next = wrong_type

abbrev pub cast_agg : Transaction → Option AggTx
cast_agg (agg x) = some x
cast_agg _ = none

module _ {T : Type 0} where
  abbrev pub cons_read : T → Reading (List T) → Reading (List T)
  cons_read x (found xs) = found (x ∷ xs)
  cons_read x not_closed = not_closed
  cons_read x wrong_type = wrong_type

  abbrev pub read_cast : Option T → Reading (List T) → Reading (List T)
  read_cast none rest = wrong_type
  read_cast (some x) rest = cons_read x rest

  module _ (cast : Transaction → Option T) where
    abbrev pub read_one : Option Transaction → Reading (List T) → Reading (List T)
    read_one none rest = not_closed
    read_one (some t) rest = read_cast (cast t) rest

    abbrev pub read_each : List Hash → Storage → Reading (List T)
    read_each [] s = found []
    read_each (h ∷ hs) s = read_one (read_closed_tx h s) (read_each hs s)

-- The update transactions are not read.
unfoldable pub pre_validate_rollback : Block → Storage → Reading BlockData
pre_validate_rollback b s = and_read (read_each cast_acc b.acc_tx_data s) (λ accs.
    and_read (read_each cast_funds b.funds_tx_data s) (λ payments.
      and_read (read_each cast_config b.config_tx_data s) (λ configs.
        and_read (read_each cast_stake b.stake_tx_data s) (λ stakes.
          and_read (read_each cast_agg b.agg_tx_data s) (λ aggs. found (record {
            acc_tx_slice = accs;
            funds_tx_slice = payments;
            config_tx_slice = configs;
            stake_tx_slice = stakes;
            agg_tx_slice = aggs;
            aggregated_funds_tx_slice = [];
            update_tx_slice = [];
            block = b;
          }))))))

-- The miner's state as far as a rollback changes it.
pub record Miner : Type 0 where
  pub chain : ChainState
  pub statistics : Statistics

pub data RolledBack : Type 0 where
  returned : RolledBack
  failed : RolledBack
  panicked : RolledBack

module _ {F : Type 0} (fl : Floats F) (hash : Transaction → Hash) (hash_address : ℕ → Hash)
    (sort : List FundsTx → List FundsTx) (sort_hashes : List Hash → List Hash)
    (sort_blocks : List Block → List Block) where
  -- The storage, with the statistics between the transactions and the blocks.
  abbrev pub after_statistics :
      BlockData → ChainState → Miner → Option Statistics → RolledBack × Miner
  after_statistics d c n none = (
    panicked,
    record n { chain = record c { storage = reopen_txs hash sort_blocks d c.storage } },
  )
  after_statistics d c n (some st) = (
    returned,
    record {
      chain = record c { storage = post_validate_rollback hash sort_blocks d c.storage };
      statistics = st;
    },
  )

  -- No rollback of the state returns an error.
  abbrev pub after_state : BlockData → Miner → Result → RolledBack × Miner
  after_state d n (ok x, c) =
      let active = c.world.active_parameters in
      let reopened = reopen_txs hash sort_blocks d c.storage in
      after_statistics d c n (
        collect_statistics_rollback fl active.diff_interval active.block_interval
          (read_closed_block d.block.prev_hash reopened) n.statistics)
  after_state d n (err e, c) = (failed, record n { chain = c })
  after_state d n (panic, c) = (panicked, record n { chain = c })

  -- "Going back to pre-block system parameters before the state is rolled back."
  abbrev pub take_back : BlockData → Miner → RolledBack × Miner
  take_back d n = after_state d n (
      next_step
        (put_world n.chain
          (config_state_change_rollback d.config_tx_slice d.block.hash n.chain.world))
        (validate_state_rollback hash hash_address sort sort_hashes d))

  abbrev pub after_reading : Reading BlockData → Miner → RolledBack × Miner
  after_reading (found d) n = take_back d n
  after_reading not_closed n = (failed, n)
  after_reading wrong_type n = (panicked, n)

  unfoldable pub rollback : Block → Miner → RolledBack × Miner
  rollback b n = after_reading (pre_validate_rollback b n.chain.storage) n

  abbrev pub and_next : RolledBack × Miner → (Miner → RolledBack × Miner) → RolledBack × Miner
  and_next (returned, n) next = next n
  and_next (failed, n) next = (failed, n)
  and_next (panicked, n) next = (panicked, n)

  -- "First perform rollback (if necessary)": an error ends the loop.
  unfoldable pub rollback_all : List Block → Miner → RolledBack × Miner
  rollback_all [] n = (returned, n)
  rollback_all (b ∷ bs) n = and_next (rollback b n) (rollback_all bs)
