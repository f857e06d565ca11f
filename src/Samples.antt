-- ===== src/Samples.antt =====
-- Accounts, a payment and a storage on which the tests run.
use bazo_miner.Prelude.{ℕ, false, [], ◌∷◌}
use bazo_miner.Ledger.Types.{World, Account, FundsTx, UpdateTx}
use bazo_miner.Ledger.Params.{new_default_parameters}
use bazo_miner.Storage.{Storage}

abbrev pub plain_account : (address balance : ℕ) → Account
plain_account address balance = record {
  address = address;
  issuer = 0;
  balance = balance;
  tx_cnt = 0;
  is_staking = false;
  commitment_key = 0;
  staking_block_height = 0;
  contract = [];
  contract_variables = [];
  parameters = 0;
}

abbrev pub two_accounts : World
two_accounts = record {
  state = (1, plain_account 1 1000) ∷ (2, plain_account 2 50) ∷ [];
  root_keys = [];
  chameleon_parameters = [];
  parameter_slice = new_default_parameters ∷ [];
  active_parameters = new_default_parameters;
}

abbrev pub forty : FundsTx
forty = record {
  amount = 40;
  fee = 2;
  tx_cnt = 0;
  from = 1;
  to = 2;
  aggregated = false;
  block = 0;
  sig1 = 9;
  sig2 = 0;
  check_string = record { r = []; s = [] };
  payload = [];
}

-- The first account corrects the data of a transaction with the hash 110.
abbrev pub correction : UpdateTx
correction = record {
  fee = 1;
  tx_to_update_hash = 110;
  tx_to_update_check_string = record { r = []; s = [] };
  tx_to_update_data = 5 ∷ [];
  issuer = 1;
  sig = 9;
  check_string = record { r = []; s = [] };
  payload = [];
}

abbrev pub empty_storage : Storage
empty_storage = record {
  open_blocks = [];
  closed_blocks = [];
  closed_blocks_without_tx = [];
  last_closed_block = [];
  received_block_stash = [];
  tx_mem_pool = [];
  tx_invalid_mem_pool = [];
  txcnt_to_tx_map = [];
  closed_funds = [];
  closed_accs = [];
  closed_deletes = [];
  closed_configs = [];
  closed_stakes = [];
  closed_aggregations = [];
  blocks_by_tx_hash = [];
  funds_tx_before_aggregation = [];
  bootstrap_received = [];
}
