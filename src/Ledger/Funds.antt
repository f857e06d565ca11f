-- ===== src/Ledger/Funds.antt =====
-- `fundsStateChange` (miner/state.go) and `fundsStateChangeRollback` (miner/staterollback.go).
-- `closed tx` says whether the database of closed transactions has an entry under the hash of `tx`
-- (`storage.ReadClosedTx(tx.Hash()) != nil`): the database and the hash are no code of this model.
pub mod Bounds
pub mod Batch
pub mod Progress
pub mod Rollback
pub mod Counter
use bazo_miner.Prelude.{
  ℕ, ◌+◌, Bool, true, false, not, ◌&&◌, Option, none, some, List, [], ◌∷◌, reverse, ltb, ◌==◌,
  if◌then◌else◌,
}
use bazo_miner.Prelude.Words.{add64}
use bazo_miner.Ledger.Types.{World, Account, FundsTx, max_money, min_staking_minimum}
use bazo_miner.Ledger.Monad.{
  Action, Outcome, ok, err, panic, Done, pure, raise, modify, deref, gets, ◌>>=◌, ◌>>◌, Error,
  account_missing, root_overflow, tx_cnt_mismatch, insufficient_funds, staking_minimum_violated,
  receiver_overflow, for_each,
}
use bazo_miner.Ledger.Accounts.{
  get_account, get_root_account, credit, debit, count_up, count_down, write,
}

-- New coins: a root account is credited with what its transaction is about to spend.
unfoldable pub issue : Option Account → FundsTx → Action Done
issue none tx w = (ok tt, w)
issue (some root) tx w =
    if ltb max_money (add64 (add64 root.balance tx.amount) tx.fee)
    then (err root_overflow, w)
    else (ok tt, write tx.from (credit tx.fee) (write tx.from (credit tx.amount) w))

-- "Rollback root's credits if error occurs".
unfoldable pub revoke : Option Account → FundsTx → World → World
revoke none tx w = w
revoke (some root) tx w = write tx.from (debit tx.fee) (write tx.from (debit tx.amount) w)

abbrev pub counter_differs : Bool → FundsTx → Account → Bool
counter_differs initial tx sender =
    not initial && not tx.aggregated && not (tx.tx_cnt == sender.tx_cnt)

abbrev pub lacks_funds : FundsTx → Account → Bool
lacks_funds tx sender = ltb sender.balance (add64 tx.amount tx.fee)

abbrev pub breaks_stake : FundsTx → Account → Bool
breaks_stake tx sender =
    sender.is_staking && ltb sender.balance (add64 (add64 tx.fee min_staking_minimum) tx.amount)

-- The four checks in order. Each writes the one variable `err`, so the last failure is reported.
-- A counter below the account's is only logged.
unfoldable pub funds_error : Bool → FundsTx → Account → Account → Option Error
funds_error initial tx sender receiver =
    let counter =
      if counter_differs initial tx sender
      then (if ltb tx.tx_cnt sender.tx_cnt then none else some tx_cnt_mismatch)
      else none in
    let funds = if not initial && lacks_funds tx sender then some insufficient_funds else counter in
    let staking = if breaks_stake tx sender then some staking_minimum_violated else funds in
    if not initial && ltb max_money (add64 tx.amount receiver.balance)
    then some receiver_overflow
    else staking

-- The writes of a transaction that passed.
unfoldable pub move : FundsTx → World → World
move tx w =
    write tx.to (credit tx.amount) (write tx.from (debit tx.amount) (write tx.from count_up w))

-- Without an account at `tx.To`, `accReceiver.Balance` panics; on the initial setup that read is
-- skipped, and the lookup's error stands unless the staking check replaces it.
unfoldable pub settle : Bool → Option Account → FundsTx → Action Done
settle initial root tx w = elim (get_account tx.from w) [
  | none ↦ (panic, w)
  | some sender ↦ elim (get_account tx.to w) [
    | none ↦
        if initial
        then (
          err (if breaks_stake tx sender then staking_minimum_violated else account_missing),
          revoke root tx w,
        )
        else (panic, w)
    | some receiver ↦ elim (funds_error initial tx sender receiver) [
      | some e ↦ (err e, revoke root tx w)
      | none ↦ (ok tt, move tx w)
    ]
  ]
]

-- "If new coins were issued, revert": the end of the loop's body in `fundsStateChangeRollback`. The
-- lookup's error is dropped, and with it the pointer is nil.
unfoldable pub revert_issue : FundsTx → Action Done
revert_issue tx w = elim (get_root_account tx.from w).0 [
  | ok root ↦ (ok tt, revoke root tx w)
  | err e ↦ (ok tt, w)
  | panic ↦ (panic, w)
]

-- The body of the loop of `fundsStateChangeRollback`. Writes through a nil pointer panic.
unfoldable pub funds_rollback_step : FundsTx → Action Done
funds_rollback_step tx w = elim (get_account tx.from w) [
  | none ↦ (panic, w)
  | some sender ↦
      let paid = write tx.from (credit tx.amount) (write tx.from count_down w) in
      elim (get_account tx.to w) [
        | none ↦ (panic, paid)
        | some receiver ↦ revert_issue tx (write tx.to (debit tx.amount) paid)
      ]
]

-- The loop of the rollback runs from the last transaction to the first.
unfoldable pub funds_state_change_rollback : List FundsTx → Action Done
funds_state_change_rollback txs = for_each funds_rollback_step (reverse txs)

module _ (closed : FundsTx → Bool) where
  -- The body of the loop of `fundsStateChange`; its early `return err` ends the loop.
  unfoldable pub funds_step : Bool → FundsTx → Action Done
  funds_step initial tx =
      if closed tx && not initial
      then pure tt
      else (get_root_account tx.from >>= λ root. issue root tx >> settle initial root tx)

  unfoldable pub funds_state_change : Bool → List FundsTx → Action Done
  funds_state_change initial txs = for_each (funds_step initial) txs

-- `aggTxStateChange`: `sort.Sort(ByTxCount(txSlice))` is a function of the library, `sort` here.
unfoldable pub agg_tx_state_change :
    (List FundsTx → List FundsTx) → (FundsTx → Bool) → Bool → List FundsTx → Action Done
agg_tx_state_change sort closed initial txs = funds_state_change closed initial (sort txs)
