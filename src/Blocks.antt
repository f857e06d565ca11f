-- ===== src/Blocks.antt =====
-- The state change of a whole block and its rollback: validateState (miner/block_validation.go),
-- validateStateRollback (miner/blockrollback.go), aggregatedStateRollback and
-- reactivateHistoricBlockDueToRollback (miner/staterollback.go).
pub mod Steps
pub mod Payments
pub mod Closing
pub mod Undo
mod Tests
use bazo_miner.Prelude.{
  ℕ, Bool, true, false, Option, none, some, List, [], ◌∷◌, ◌++◌, map, reverse, ◌==◌, if◌then◌else◌,
}
use bazo_miner.Ledger.Types.{World, Hash, Block, AccTx, FundsTx, ConfigTx, StakeTx, AggTx, UpdateTx}
use bazo_miner.Ledger.Monad.{Action, Outcome, ok, err, panic, Done, Error}
use bazo_miner.Ledger.Accs.{acc_state_change, acc_state_change_rollback}
use bazo_miner.Ledger.Funds.{funds_state_change, funds_state_change_rollback, agg_tx_state_change}
use bazo_miner.Ledger.Stake.{stake_state_change, stake_state_change_rollback, update_staking_height}
use bazo_miner.Ledger.Fees.{OpenTx, collect_tx_fees, collect_tx_fees_rollback}
use bazo_miner.Ledger.Rewards.{
  collect_block_reward, collect_block_reward_rollback, collect_slash_reward,
  collect_slash_reward_rollback,
}
use bazo_miner.Storage.{
  Storage, Transaction, funds, agg, acc, update, config, stake, read_closed_tx, read_open_tx,
  read_closed_block_without_tx, write_closed_tx, write_closed_block, delete_closed_block_without_tx,
}

pub record BlockData : Type 0 where
  pub acc_tx_slice : List AccTx
  pub funds_tx_slice : List FundsTx
  pub config_tx_slice : List ConfigTx
  pub stake_tx_slice : List StakeTx
  pub agg_tx_slice : List AggTx
  pub aggregated_funds_tx_slice : List FundsTx
  pub update_tx_slice : List UpdateTx
  pub block : Block

-- The ledger and the storage.
pub record ChainState : Type 0 where
  pub world : World
  pub storage : Storage

abbrev pub Result : Type 0
Result = Outcome Done × ChainState

abbrev pub Step : Type 0
Step = ChainState → Result

abbrev pub put_world : ChainState → Outcome Done × World → Result
put_world s (o, w) = (o, record s { world = w })

-- A call on the ledger that reads the storage.
abbrev pub lift : (Storage → Action Done) → Step
lift a s = put_world s (a s.storage s.world)

abbrev pub next_step : Result → Step → Result
next_step (ok x, s) k = k s
next_step (err e, s) k = (err e, s)
next_step (panic, s) k = (panic, s)

abbrev pub then_step : Step → Step → Step
then_step m k s = next_step (m s) k

-- The error of a call is returned after its rollbacks.
abbrev pub failing : Error → Result → Result
failing e (ok x, s) = (err e, s)
failing e (err _, s) = (err e, s)
failing e (panic, s) = (panic, s)

abbrev pub undo_error : Result → Step → Result
undo_error (ok x, s) u = (ok x, s)
undo_error (err e, s) u = failing e (u s)
undo_error (panic, s) u = (panic, s)

abbrev pub or_undo : Step → Step → Step
or_undo m u s = undo_error (m s) u

abbrev pub run_all : List Step → Step
run_all [] s = (ok tt, s)
run_all (m ∷ ms) s = next_step (m s) (run_all ms)

-- The type switch of getFundsTxFromAggTx.
abbrev pub open_kind : Transaction → OpenTx
open_kind (funds x) = OpenTx.funds x
open_kind _ = OpenTx.other

abbrev pub open_in : Storage → Hash → Option OpenTx
open_in s h = elim (read_open_tx h s) [ none ↦ none | some t ↦ some (open_kind t) ]

abbrev pub reopened : Transaction → Transaction
reopened (funds x) = funds (record x { aggregated = false })
reopened (agg x) = agg (record x { aggregated = false })
reopened t = t

abbrev pub block_of : Transaction → Hash
block_of (funds x) = x.block
block_of (agg x) = x.block
block_of _ = 0

abbrev pub funds_among : Hash → List (ℕ × FundsTx) → List FundsTx
funds_among h [] = []
funds_among h ((_, x) ∷ xs) = let rest = funds_among h xs in if x.block == h then x ∷ rest else rest

abbrev pub aggs_among : Hash → List (ℕ × AggTx) → List AggTx
aggs_among h [] = []
aggs_among h ((_, x) ∷ xs) = let rest = aggs_among h xs in if x.block == h then x ∷ rest else rest

-- `hash` is `Transaction.Hash()`, `hash_address` the hash of an account's address; `sort` orders by
-- the counter, `sort_hashes` by the bytes.
module _ (hash : Transaction → Hash) (hash_address : ℕ → Hash) (sort : List FundsTx → List FundsTx)
    (sort_hashes : List Hash → List Hash) where
  abbrev pub closed_in : Storage → FundsTx → Bool
  closed_in s tx = elim (read_closed_tx (hash (funds tx)) s) [ none ↦ false | some _ ↦ true ]

  -- The transactions of the emptied block are listed in it again, and written back as they are.
  abbrev pub reactivate_block : Hash → Option Block → Storage → Storage
  reactivate_block h none s = s
  reactivate_block h (some b) s = delete_closed_block_without_tx h (
      write_closed_block
        (record b {
          funds_tx_data =
              b.funds_tx_data ++ map (λ x. hash (funds x)) (funds_among h s.closed_funds);
          agg_tx_data =
              sort_hashes
                (b.agg_tx_data ++ map (λ x. hash (agg x)) (aggs_among h s.closed_aggregations));
          aggregated = false;
        })
        s)

  abbrev pub reactivate_historic_block_due_to_rollback : Transaction → Storage → Storage
  reactivate_historic_block_due_to_rollback t s =
      let s₁ = write_closed_tx hash (reopened t) s in
      reactivate_block (block_of t) (read_closed_block_without_tx (block_of t) s₁) s₁

  -- One hash of an aggregation: the transaction is rolled back, or its block is reactivated.
  abbrev pub gather_one :
      Hash → Option Transaction → List FundsTx × Storage → List FundsTx × Storage
  gather_one h (some (funds x)) (fs, s) =
      if x.block == h
      then (x ∷ fs, s)
      else (fs, reactivate_historic_block_due_to_rollback (funds x) s)
  gather_one h (some (agg x)) (fs, s) = (fs, reactivate_historic_block_due_to_rollback (agg x) s)
  gather_one h _ (fs, s) = (fs, s)

  abbrev pub gather : Hash → List Hash → List FundsTx × Storage → List FundsTx × Storage
  gather h [] (fs, s) = (fs, s)
  gather h (k ∷ ks) (fs, s) = gather h ks (gather_one h (read_closed_tx k s) (fs, s))

  abbrev pub roll_back_gathered : Hash → List FundsTx × Storage → Step
  roll_back_gathered miner (fs, st) s =
      then_step (lift (λ _. funds_state_change_rollback (sort fs)))
        (lift (λ _. collect_tx_fees_rollback miner [] (sort fs) [] [])) (record s { storage = st })

  abbrev pub roll_back_agg : (block_hash miner : Hash) → AggTx → Step
  roll_back_agg block_hash miner tx s =
      roll_back_gathered miner (gather block_hash tx.aggregated_tx_slice ([], s.storage)) s

  abbrev pub aggregated_state_rollback : List AggTx → (block_hash miner : Hash) → Step
  aggregated_state_rollback txs block_hash miner =
      run_all (map (roll_back_agg block_hash miner) (reverse txs))

  -- The calls of validateState and validateStateRollback on a block's data.
  module _ (d : BlockData) where
    abbrev pub accs_back : Step
    accs_back = lift (λ _. acc_state_change_rollback hash_address d.acc_tx_slice)

    abbrev pub funds_back : Step
    funds_back = lift (λ _. funds_state_change_rollback d.funds_tx_slice)

    abbrev pub aggs_back : Step
    aggs_back = aggregated_state_rollback d.agg_tx_slice d.block.hash_without_tx d.block.beneficiary

    abbrev pub stakes_back : Step
    stakes_back = lift (λ _. stake_state_change_rollback d.stake_tx_slice)

    abbrev pub fees_back : Step
    fees_back = lift (λ _.
        collect_tx_fees_rollback d.block.beneficiary d.acc_tx_slice d.funds_tx_slice
          d.config_tx_slice d.stake_tx_slice)

    abbrev pub reward_back : Step
    reward_back = lift (λ _ w.
        collect_block_reward_rollback w.active_parameters.block_reward d.block.beneficiary w)

    abbrev pub slash_back : Step
    slash_back =
        lift (λ _ w. collect_slash_reward_rollback w.active_parameters.slash_reward d.block w)

    abbrev pub pay_fees : Bool → Step
    pay_fees initial = lift (λ s.
        collect_tx_fees d.block.beneficiary (open_in s) d.acc_tx_slice d.funds_tx_slice
          d.config_tx_slice d.stake_tx_slice (map (λ t. t.aggregated_tx_slice) d.agg_tx_slice))

    abbrev pub pay_reward : Bool → Step
    pay_reward initial =
        lift (λ _ w.
          collect_block_reward w.active_parameters.block_reward d.block.beneficiary initial w)

    abbrev pub pay_slash : Step
    pay_slash = lift (λ _ w. collect_slash_reward w.active_parameters.slash_reward d.block w)

    abbrev pub validate_state : (initial : Bool) → Step
    validate_state initial = run_all (
        lift (λ _. acc_state_change hash_address d.acc_tx_slice)
        ∷ or_undo (lift (λ s. funds_state_change (closed_in s) initial d.funds_tx_slice)) accs_back
        ∷ or_undo
            (lift (λ s. agg_tx_state_change sort (closed_in s) initial d.aggregated_funds_tx_slice))
            (run_all (funds_back ∷ accs_back ∷ []))
        ∷ or_undo (lift (λ _. stake_state_change d.stake_tx_slice d.block.height initial))
            (run_all (funds_back ∷ accs_back ∷ aggs_back ∷ []))
        ∷ or_undo (pay_fees initial)
            (run_all (stakes_back ∷ funds_back ∷ aggs_back ∷ accs_back ∷ []))
        ∷ or_undo (pay_reward initial)
            (run_all (fees_back ∷ stakes_back ∷ funds_back ∷ aggs_back ∷ accs_back ∷ []))
        ∷ or_undo pay_slash (
            run_all
              (reward_back ∷ fees_back ∷ stakes_back ∷ funds_back ∷ aggs_back ∷ accs_back ∷ []))
        ∷ or_undo (lift (λ _. update_staking_height d.block)) (
            run_all (
              slash_back ∷ reward_back ∷ fees_back ∷ stakes_back ∷ funds_back ∷ aggs_back
              ∷ accs_back ∷ []))
        ∷ [])

    abbrev pub validate_state_rollback : Step
    validate_state_rollback = run_all (
        slash_back ∷ reward_back ∷ fees_back ∷ stakes_back ∷ funds_back ∷ aggs_back ∷ accs_back
        ∷ [])
