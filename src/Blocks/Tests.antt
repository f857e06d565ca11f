-- ===== src/Blocks/Tests.antt =====
-- The atomic state change at a block of one payment.
use bazo_miner.Prelude.{ℕ, ◌+◌, refl, false, [], ◌∷◌, arith}
use bazo_miner.Prelude.Assoc.{lookup, adjust}
use bazo_miner.Prelude.Words.{add64}
use bazo_miner.Ledger.Types.{World, Account, Hash, Block, FundsTx, new_block}
use bazo_miner.Ledger.Accounts.{get_root_account, is_root_key}
use bazo_miner.Ledger.Params.{new_default_parameters}
use bazo_miner.Ledger.Funds.{funds_state_change, funds_step, issue, settle, move, funds_error}
use bazo_miner.Storage.{Transaction, funds, acc, update, config, stake, agg, read_closed_tx}
use bazo_miner.Blocks.{ChainState, validate_state}
use bazo_miner.Blocks.Steps.{IsAtomic}
use bazo_miner.Blocks.Payments.{payments, validate_state-IsAtomic}

abbrev account : ℕ → ℕ → Account
account address balance = record {
  address = address;
  issuer = 0;
  balance = balance;
  tx_cnt = 0;
  is_staking = false;
  commitment_key = 0;
  staking_block_height = 0;
  contract = [];
  contract_variables = [];
  parameters = 0;
}

abbrev start : ChainState
start = record {
  world = record {
    state = (1, account 1 1000) ∷ (2, account 2 50) ∷ [];
    root_keys = [];
    chameleon_parameters = [];
    parameter_slice = new_default_parameters ∷ [];
    active_parameters = new_default_parameters;
  };
  storage = record {
    open_blocks = [];
    closed_blocks = [];
    closed_blocks_without_tx = [];
    last_closed_block = [];
    received_block_stash = [];
    tx_mem_pool = [];
    tx_invalid_mem_pool = [];
    txcnt_to_tx_map = [];
    closed_funds = [];
    closed_accs = [];
    closed_deletes = [];
    closed_configs = [];
    closed_stakes = [];
    closed_aggregations = [];
    blocks_by_tx_hash = [];
    funds_tx_before_aggregation = [];
    bootstrap_received = [];
  };
}

abbrev payment : FundsTx
payment = record {
  amount = 40;
  fee = 2;
  tx_cnt = 0;
  from = 1;
  to = 2;
  aggregated = false;
  block = 0;
  sig1 = 0;
  sig2 = 0;
  check_string = record { r = []; s = [] };
  payload = [];
}

abbrev kind_hash : Transaction → Hash
kind_hash (funds x) = 70 + x.amount
kind_hash (acc x) = 50
kind_hash (update x) = 51
kind_hash (config x) = 52
kind_hash (stake x) = 53
kind_hash (agg x) = 54

abbrev paid_block : Block
paid_block = record (new_block 8 300) { hash = 9; beneficiary = 2 }

abbrev paid : World
paid = (funds_state_change (λ tx. false) false (payment ∷ []) start.world).1

validate_state-IsAtomic_example :
    IsAtomic
      (validate_state kind_hash
        (λ n. n)
        (λ txs. txs)
        (λ hs. hs)
        (payments (payment ∷ []) [] [] paid_block)
        false
        start)
      start
unfolding lookup read_closed_tx funds_state_change funds_step get_root_account is_root_key issue
    settle funds_error move adjust add64
validate_state-IsAtomic_example =
    validate_state-IsAtomic kind_hash (λ n. n) (λ txs. txs) (λ hs. hs) (payment ∷ []) [] []
      paid_block start paid refl refl
      (
        record { balance_fits = omega arith; tx_cnt_fits = omega arith },
        (record { balance_fits = omega arith; tx_cnt_fits = omega arith }, tt),
      )
      (((account 1 1000, refl), (account 2 50, refl)), tt) (account 2 50, refl) (refl, tt) refl
