-- ===== src/Updates/Hashes.antt =====
-- Hash, ChameleonHash and SHA3 of the transactions (protocol/fundstx.go, acctx.go, updatetx.go). The
-- SHA3 hash of a transaction's content is a parameter of the fields that it covers. A configuration,
-- stake or aggregation transaction has a plain hash, which is a parameter too. The header bytes of
-- fund transactions, which nothing reads, are left out.
use bazo_miner.Prelude.{ℕ, Option, none, some, List}
use bazo_miner.Ledger.Types.{
  Hash, Bytes, CheckString, FundsTx, AccTx, UpdateTx, ConfigTx, StakeTx, AggTx,
}
use bazo_miner.Vm.Encoding.{set_bytes}
use bazo_miner.Storage.{Transaction, funds, acc, update, config, stake, agg}
use bazo_miner.Chameleon.{ChameleonHashParameters, chameleon_hash}

-- The content hashes; `parameters_of` is ChameleonHashParametersMap, and `pointed_at` follows the pointer in
-- an account transaction.
pub record Contents : Type 0 where
  pub sha256 : Bytes → Bytes
  pub funds_content : (amount fee tx_cnt from to : ℕ) → Bytes → Bytes
  pub acc_content :
      (header issuer fee pub_key : ℕ) → Bytes → (contract_variables : List Bytes) → Bytes → Bytes
  pub update_content :
      (fee tx_to_update_hash : ℕ) → CheckString → Bytes → (issuer : ℕ) → CheckString → Bytes → Bytes
  pub config_hash : ConfigTx → Hash
  pub stake_hash : StakeTx → Hash
  pub agg_hash : AggTx → Hash
  pub parameters_of : Hash → Option ChameleonHashParameters
  pub pointed_at : ℕ → Option ChameleonHashParameters

module _ (contents : Contents) where
  open contents use {
    sha256, funds_content, acc_content, update_content, config_hash, stake_hash, agg_hash,
    parameters_of, pointed_at,
  }

  abbrev pub sha3_funds : FundsTx → Bytes
  sha3_funds x = funds_content x.amount x.fee x.tx_cnt x.from x.to x.payload

  abbrev pub sha3_acc : AccTx → Bytes
  sha3_acc x =
      acc_content x.header x.issuer x.fee x.pub_key x.contract x.contract_variables x.payload

  -- The content covers the transaction's own check string.
  abbrev pub sha3_update : UpdateTx → Bytes
  sha3_update x =
      update_content x.fee x.tx_to_update_hash x.tx_to_update_check_string x.tx_to_update_data
        x.issuer x.check_string x.payload

  -- 32 bytes as the number that they spell. Without parameters the pointer is nil, and a call that
  -- panics or reads no number has no hash: 0 stands for that.
  abbrev pub number_of : Option Bytes → Hash
  number_of none = 0
  number_of (some bytes) = set_bytes bytes

  abbrev pub hash_with : Option ChameleonHashParameters → CheckString → Bytes → Hash
  hash_with none c content = 0
  hash_with (some parameters) c content = number_of (chameleon_hash sha256 parameters c content)

  abbrev pub tx_hash : Transaction → Hash
  tx_hash (funds x) = hash_with (parameters_of x.from) x.check_string (sha3_funds x)
  tx_hash (acc x) = hash_with (pointed_at x.parameters) x.check_string (sha3_acc x)
  tx_hash (update x) = hash_with (parameters_of x.issuer) x.check_string (sha3_update x)
  tx_hash (config x) = config_hash x
  tx_hash (stake x) = stake_hash x
  tx_hash (agg x) = agg_hash x
