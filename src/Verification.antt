-- ===== src/Verification.antt =====
-- miner/tx_verification.go without the parameters' bounds (Ledger/Params): a transaction is checked
-- against the accounts and, for updates, the storage. `ecdsa_verify x y hash r s` is ecdsa.Verify on
-- the curve P-256; an address and a signature are two halves of 32 bytes each.
pub mod Laws
mod Tests
use bazo_miner.Prelude.{
  ℕ, ◌/◌, ◌%◌, ◌^◌, Bool, true, false, not, ◌&&◌, ◌||◌, Option, none, some, List, [], ◌∷◌, ltb,
  ◌==◌, if◌then◌else◌,
}
use bazo_miner.Prelude.Assoc.{Assoc, lookup}
use bazo_miner.Ledger.Types.{
  Hash, World, Account, FundsTx, AccTx, ConfigTx, StakeTx, AggTx, UpdateTx, max_money,
}
use bazo_miner.Storage.{
  Storage, Transaction, funds, acc, update, config, stake, agg, read_open_tx, read_closed_tx,
  first_found,
}

-- What the checks call elsewhere: `hash` is Transaction.Hash, `address_hash` is SerializeHashContent
-- of an address, `multisig` the address of multisigPubKey, and `root_address` the address in the account
-- that a root key points to: no account changes its address, and the pointer outlives the state's.
pub record Checker : Type 0 where
  pub ecdsa_verify : (x y hash r s : ℕ) → Bool
  pub hash : Transaction → Hash
  pub address_hash : ℕ → Hash
  pub multisig : ℕ
  pub root_address : Hash → ℕ

module _ (checker : Checker) where
  open checker use {ecdsa_verify, hash, address_hash, multisig, root_address}

  unfoldable pub is_signed : (tx_hash signature address : ℕ) → Bool
  is_signed tx_hash signature address =
      ecdsa_verify (address / 2 ^ 256) (address % 2 ^ 256) tx_hash (signature / 2 ^ 256)
        (signature % 2 ^ 256)

  -- The comparison of the two accounts is only logged.
  abbrev pub verify_parties : FundsTx → (from to : Option Account) → Bool
  verify_parties tx none to = false
  verify_parties tx (some a) none = false
  verify_parties tx (some a) (some b) =
      is_signed (hash (funds tx)) tx.sig1 a.address
      && (tx.sig2 == 0 || is_signed (hash (funds tx)) tx.sig2 multisig)

  unfoldable pub verify_funds_tx : World → FundsTx → Bool
  verify_funds_tx w tx =
      if tx.amount == 0 || ltb max_money tx.amount
      then false
      else verify_parties tx (lookup tx.from w.state) (lookup tx.to w.state)

  -- The loop over the root accounts.
  unfoldable pub any_root : (tx_hash signature : ℕ) → Assoc Hash → Bool
  any_root tx_hash signature [] = false
  any_root tx_hash signature ((_, h) ∷ rs) =
      is_signed tx_hash signature (root_address h) || any_root tx_hash signature rs

  abbrev pub verify_acc_tx : World → AccTx → Bool
  verify_acc_tx w tx = any_root (hash (acc tx)) tx.sig w.root_keys

  abbrev pub verify_config_tx : World → ConfigTx → Bool
  verify_config_tx w tx = any_root (hash (config tx)) tx.sig w.root_keys

  -- `tx.Account` is written, so the transaction comes back.
  unfoldable pub verify_stake_tx : World → StakeTx → StakeTx × Bool
  verify_stake_tx w tx = elim (lookup tx.account w.state) [
    | none ↦ (tx, false)
    | some a ↦
        let tx' = record tx { account = address_hash a.address } in
        (tx', is_signed (hash (stake tx')) tx'.sig a.address)
  ]

  abbrev pub verify_agg_tx : AggTx → Bool
  verify_agg_tx tx = true

  -- The signature of a transaction that may be updated.
  abbrev pub updatable_sig : Transaction → Option ℕ
  updatable_sig (funds x) = some x.sig1
  updatable_sig (acc x) = some x.sig
  updatable_sig (update x) = some x.sig
  updatable_sig _ = none

  abbrev pub signed_by : Account → Hash → Option ℕ → Bool
  signed_by issuer h none = false
  signed_by issuer h (some sig) = is_signed h sig issuer.address

  abbrev pub verify_update : UpdateTx → (issuer : Option Account) → Option Transaction → Bool
  verify_update tx none target = false
  verify_update tx (some a) none = false
  verify_update tx (some a) (some t) =
      if is_signed (hash (update tx)) tx.sig a.address
      then signed_by a (hash t) (updatable_sig t)
      else false

  unfoldable pub verify_update_tx : World → Storage → UpdateTx → Bool
  verify_update_tx w s tx =
      verify_update tx (lookup tx.issuer w.state)
        (first_found (read_open_tx tx.tx_to_update_hash s) (read_closed_tx tx.tx_to_update_hash s))

  unfoldable pub verify : World → Storage → Transaction → Transaction × Bool
  unfolding verify_funds_tx verify_stake_tx verify_update_tx
  verify w s (funds x) = (funds x, verify_funds_tx w x)
  verify w s (acc x) = (acc x, verify_acc_tx w x)
  verify w s (config x) = (config x, verify_config_tx w x)
  verify w s (stake x) = let (x', valid) = verify_stake_tx w x in (stake x', valid)
  verify w s (agg x) = (agg x, verify_agg_tx x)
  verify w s (update x) = (update x, verify_update_tx w s x)
