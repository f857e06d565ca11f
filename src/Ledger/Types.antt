-- ===== src/Ledger/Types.antt =====
-- The data of protocol/account.go, the transactions of protocol/*tx.go as far as the state reads
-- them, the parameters of miner/blockchainparam.go, and the miner's global variables in one record.
-- A fixed byte array ([32]byte, [64]byte) is the number that it spells, so the zero array is 0.
-- A pointer to chameleon hash parameters is only stored and copied: it is a number. The field Data
-- of a transaction is payload; nil is the empty byte string.
use bazo_miner.Prelude.{ℕ, Bool, false, List, []}
use bazo_miner.Prelude.Int.{ℤ, pos}
use bazo_miner.Prelude.Assoc.{Assoc}

abbrev pub Bytes : Type 0
Bytes = List ℕ

abbrev pub Hash : Type 0
Hash = ℕ

-- MAX_MONEY, (2^63)-1
abbrev pub max_money : ℕ
max_money = 9223372036854775807

-- protocol.MIN_STAKING_MINIMUM
abbrev pub min_staking_minimum : ℕ
min_staking_minimum = 5

pub record Account : Type 0 where
  pub address : ℕ
  pub issuer : Hash
  pub balance : ℕ
  pub tx_cnt : ℕ
  pub is_staking : Bool
  pub commitment_key : ℕ
  pub staking_block_height : ℕ
  pub contract : Bytes
  pub contract_variables : List Bytes
  pub parameters : ℕ

-- `NewAccount`: the counter and the staking height start at 0.
unfoldable pub new_account :
    (address issuer balance : ℕ) (is_staking : Bool) (commitment_key : ℕ) (contract : Bytes)
    → List Bytes
    → ℕ
    → Account
new_account address issuer balance is_staking commitment_key contract contract_variables
      parameters =
    record {
      address = address;
      issuer = issuer;
      balance = balance;
      tx_cnt = 0;
      is_staking = is_staking;
      commitment_key = commitment_key;
      staking_block_height = 0;
      contract = contract;
      contract_variables = contract_variables;
      parameters = parameters;
    }

-- `crypto.ChameleonHashCheckString`
pub record CheckString : Type 0 where
  pub r : Bytes
  pub s : Bytes

pub record AccTx : Type 0 where
  pub header : ℕ
  pub fee : ℕ
  pub issuer : Hash
  pub pub_key : ℕ
  pub contract : Bytes
  pub contract_variables : List Bytes
  pub parameters : ℕ
  pub sig : ℕ
  pub check_string : CheckString
  pub payload : Bytes

pub record FundsTx : Type 0 where
  pub amount : ℕ
  pub fee : ℕ
  pub tx_cnt : ℕ
  pub from : Hash
  pub to : Hash
  pub aggregated : Bool
  pub block : Hash
  pub sig1 : ℕ
  pub sig2 : ℕ
  pub check_string : CheckString
  pub payload : Bytes

pub record ConfigTx : Type 0 where
  pub id : ℕ
  pub payload : ℕ
  pub fee : ℕ
  pub sig : ℕ

pub record StakeTx : Type 0 where
  pub fee : ℕ
  pub is_staking : Bool
  pub account : Hash
  pub commitment_key : ℕ
  pub sig : ℕ

-- The fields that the storage and the validation of blocks read.
pub record AggTx : Type 0 where
  pub amount : ℕ
  pub fee : ℕ
  pub from : List Hash
  pub to : List Hash
  pub aggregated_tx_slice : List Hash
  pub aggregated : Bool
  pub block : Hash
  pub merkle_root : Hash

pub record UpdateTx : Type 0 where
  pub fee : ℕ
  pub tx_to_update_hash : Hash
  pub tx_to_update_check_string : CheckString
  pub tx_to_update_data : Bytes
  pub issuer : Hash
  pub sig : ℕ
  pub check_string : CheckString
  pub payload : Bytes

-- The Bloom filter, the nonce, the header byte and the local copy of the state are left out. The
-- counts of transactions are fields of their own, beside the lists of hashes.
pub record Block : Type 0 where
  pub hash : Hash
  pub prev_hash : Hash
  pub hash_without_tx : Hash
  pub prev_hash_without_tx : Hash
  pub height : ℕ
  pub beneficiary : Hash
  pub aggregated : Bool
  pub timestamp : ℤ
  pub merkle_root : Hash
  pub nr_acc_tx : ℕ
  pub nr_config_tx : ℕ
  pub nr_funds_tx : ℕ
  pub nr_stake_tx : ℕ
  pub nr_agg_tx : ℕ
  pub nr_update_tx : ℕ
  pub nr_updates : ℕ
  pub slashed_address : Hash
  pub commitment_proof : ℕ
  pub conflicting_block_hash1 : Hash
  pub conflicting_block_hash2 : Hash
  pub conflicting_block_hash_without_tx1 : Hash
  pub conflicting_block_hash_without_tx2 : Hash
  pub acc_tx_data : List Hash
  pub funds_tx_data : List Hash
  pub config_tx_data : List Hash
  pub stake_tx_data : List Hash
  pub agg_tx_data : List Hash
  pub update_tx_data : List Hash

-- `NewBlock`: all other fields have their zero values.
abbrev pub new_block : Hash → ℕ → Block
new_block prev_hash height = record {
  hash = 0;
  prev_hash = prev_hash;
  hash_without_tx = 0;
  prev_hash_without_tx = 0;
  height = height;
  beneficiary = 0;
  aggregated = false;
  timestamp = pos 0;
  merkle_root = 0;
  nr_acc_tx = 0;
  nr_config_tx = 0;
  nr_funds_tx = 0;
  nr_stake_tx = 0;
  nr_agg_tx = 0;
  nr_update_tx = 0;
  nr_updates = 0;
  slashed_address = 0;
  commitment_proof = 0;
  conflicting_block_hash1 = 0;
  conflicting_block_hash2 = 0;
  conflicting_block_hash_without_tx1 = 0;
  conflicting_block_hash_without_tx2 = 0;
  acc_tx_data = [];
  funds_tx_data = [];
  config_tx_data = [];
  stake_tx_data = [];
  agg_tx_data = [];
  update_tx_data = [];
}

pub record Parameters : Type 0 where
  pub block_hash : Hash
  pub fee_minimum : ℕ
  pub block_size : ℕ
  pub diff_interval : ℕ
  pub block_interval : ℕ
  pub block_reward : ℕ
  pub staking_minimum : ℕ
  pub waiting_minimum : ℕ
  pub accepted_time_diff : ℕ
  pub slashing_window_size : ℕ
  pub slash_reward : ℕ
  pub num_included_prev_proofs : ℕ
  pub fixed_space : ℕ
  pub bloom_filter_size : ℕ

-- `storage.State`, the keys of `storage.RootKeys`, `crypto.ChameleonHashParametersMap`,
-- `parameterSlice` (the newest entry first) and what `activeParameters` points to.
pub record World : Type 0 where
  pub state : Assoc Account
  pub root_keys : Assoc Hash
  pub chameleon_parameters : Assoc ℕ
  pub parameter_slice : List Parameters
  pub active_parameters : Parameters
