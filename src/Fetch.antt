-- ===== src/Fetch.antt =====
-- The transactions of a block: fetchTransactions (miner/fetch_transactions.go) with fetchAccTxData,
-- fetchFundsTxData, fetchConfigTxData, fetchStakeTxData and fetchUpdateTxData (miner/block_*tx.go).
-- They are goroutines on one channel of errors; here they run one after another, and an error of any
-- of them is the result, as it is of fetchTransactions.
pub mod Kinds
pub mod Aggregated
pub mod Found
pub mod Lawful
pub mod Filled
mod Tests
use bazo_miner.Prelude.{
  ℕ, Bool, true, false, ◌||◌, Option, none, some, List, [], ◌∷◌, if◌then◌else◌,
}
use bazo_miner.Storage.{Transaction}
use bazo_miner.Ledger.Types.{Hash, Block, FundsTx, AccTx, ConfigTx, StakeTx, AggTx, UpdateTx}
use bazo_miner.Chain.{Net}
use Kinds.{
  Network, Loop, finished, stopped, crashed, fetch_acc_tx_data, fetch_funds_tx_data,
  fetch_config_tx_data, fetch_stake_tx_data, fetch_update_tx_data,
}
use Aggregated.{AggLoop, agg_finished, agg_stopped, agg_crashed, agg_hung, fetch_agg_tx_data}

-- What fetchTransactions fills in.
pub record Payload : Type 0 where
  pub acc_tx_slice : List (Option AccTx)
  pub funds_tx_slice : List (Option FundsTx)
  pub config_tx_slice : List (Option ConfigTx)
  pub stake_tx_slice : List (Option StakeTx)
  pub update_tx_slice : List (Option UpdateTx)
  pub agg_tx_slice : List (Option AggTx)
  pub aggregated_funds_tx_slice : List FundsTx

pub data Fetching : Type 0 where
  filled : Payload → Net → Fetching
  error : Net → Fetching
  panic : Fetching
  hang : Fetching

abbrev pub with_loop :
    {T : Type 0} → Loop T → (List (Option T) → (noted : Bool) → Net → Fetching) → Fetching
with_loop (finished xs noted net) next = next xs noted net
with_loop (stopped net) next = error net
with_loop crashed next = panic

abbrev pub with_aggs :
    AggLoop → (List (Option AggTx) → List FundsTx → (noted : Bool) → Net → Fetching) → Fetching
with_aggs (agg_finished os xs noted net) next = next os xs noted net
with_aggs (agg_stopped net) next = error net
with_aggs agg_crashed next = panic
with_aggs agg_hung next = hang

abbrev pub not_empty : List (Option AggTx) → Bool
not_empty [] = false
not_empty (o ∷ os) = true

module _ (hash : Transaction → Hash) (network : Network) (verified : Transaction → Bool) where
  -- An error that one of the loops sent on its way is an error too. The fund transactions behind the
  -- aggregations are only received when there are aggregations.
  unfoldable pub fetch_transactions : (fuel : ℕ) (initial : Bool) → Block → Net → Fetching
  fetch_transactions fuel initial b net₀ =
      with_loop (fetch_acc_tx_data hash network initial b.nr_acc_tx b.acc_tx_data net₀)
        (λ accs e₁ net₁.
          with_loop
            (fetch_funds_tx_data hash network verified initial b.nr_funds_tx b.funds_tx_data net₁)
            (λ payments e₂ net₂.
              with_loop
                (fetch_config_tx_data hash network initial b.nr_config_tx b.config_tx_data net₂)
                (λ configs e₃ net₃.
                  with_loop
                    (fetch_stake_tx_data hash network initial b.nr_stake_tx b.stake_tx_data net₃)
                    (λ stakes e₄ net₄.
                      with_loop
                        (fetch_update_tx_data hash network initial b.nr_update_tx b.update_tx_data
                          net₄)
                        (λ updates e₅ net₅.
                          with_aggs
                            (fetch_agg_tx_data hash network fuel initial b.nr_agg_tx b.agg_tx_data
                              [] net₅)
                            (λ aggs aggregated e₆ net₆.
                              if e₁ || e₂ || e₃ || e₄ || e₅ || e₆
                              then error net₆
                              else filled
                                  (record {
                                    acc_tx_slice = accs;
                                    funds_tx_slice = payments;
                                    config_tx_slice = configs;
                                    stake_tx_slice = stakes;
                                    update_tx_slice = updates;
                                    agg_tx_slice = aggs;
                                    aggregated_funds_tx_slice =
                                        if not_empty aggs then aggregated else [];
                                  })
                                  net₆))))))
