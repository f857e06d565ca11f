-- ===== src/Ledger/Accs.antt =====
-- `accStateChange` (miner/state.go) and `accStateChangeRollback` (miner/staterollback.go).
-- `hash` is `protocol.SerializeHashContent` on an account's address: a SHA3 hash of a printed text.
pub mod Rollback
use bazo_miner.Prelude.{ℕ, Bool, true, false, Option, none, some, List, leb, ◌==◌, if◌then◌else◌}
use bazo_miner.Prelude.Assoc.{insert, erase}
use bazo_miner.Ledger.Types.{World, Account, AccTx, Hash, new_account}
use bazo_miner.Ledger.Monad.{
  Action, Outcome, ok, err, panic, Done, account_missing, address_exists, for_each,
}
use bazo_miner.Ledger.Accounts.{get_account}

abbrev pub account_of : AccTx → Account
account_of tx =
    new_account tx.pub_key tx.issuer 0 false 0 tx.contract tx.contract_variables tx.parameters

-- The state with a new account under its hash, and the account's chameleon hash parameters.
abbrev pub add_account : Hash → AccTx → World → World
add_account h tx w = record w {
  state = insert h (account_of tx) w.state;
  chameleon_parameters = insert h tx.parameters w.chameleon_parameters;
}

module _ (hash : ℕ → Hash) where
  -- Header 2 takes a root key away; any other header adds the account, header 1 as a root account.
  unfoldable pub acc_step : AccTx → Action Done
  acc_step tx w =
      let h = hash tx.pub_key in
      if tx.header == 2
      then elim (get_account h w) [
        | none ↦ (err account_missing, w)
        | some _ ↦ (ok tt, record w { root_keys = erase h w.root_keys })
      ]
      else elim (get_account h w) [
        | some _ ↦ (err address_exists, w)
        | none ↦
            let w₁ = add_account h tx w in
            (
              ok tt,
              (if tx.header == 1 then record w₁ { root_keys = insert h h w₁.root_keys } else w₁),
            )
      ]

  unfoldable pub acc_state_change : List AccTx → Action Done
  acc_state_change txs = for_each acc_step txs

  -- `logger.Fatal` ends the process. Other headers than 0, 1 and 2 are passed over.
  unfoldable pub acc_rollback_step : AccTx → Action Done
  acc_rollback_step tx w =
      let h = hash tx.pub_key in
      if leb tx.header 2
      then elim (get_account h w) [
        | none ↦ (panic, w)
        | some acc ↦
            let w₁ = record w { state = erase h w.state } in
            (
              ok tt,
              (if tx.header == 1
                  then record w₁ { root_keys = erase h w₁.root_keys }
                  else (if tx.header == 2
                      then record w₁ { root_keys = insert h h w₁.root_keys }
                      else w₁)),
            )
      ]
      else (ok tt, w)

  unfoldable pub acc_state_change_rollback : List AccTx → Action Done
  acc_state_change_rollback txs = for_each acc_rollback_step txs
