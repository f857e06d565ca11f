-- ===== src/Ledger/Funds/Counter.antt =====
-- Which fund transactions `fundsStateChange` lets through, and two kinds that it lets through too
-- easily.
use bazo_miner.Prelude.{◌+◌, ◌≤◌, ◌<◌, ◌≡◌, ◌↔◌, true, false, none, arith, ◌⊎◌, inl, inr}
use bazo_miner.Prelude.Words.{add64, sub64, u64_mod}
use bazo_miner.Ledger.Types.{Account, FundsTx, max_money, min_staking_minimum}
use bazo_miner.Ledger.Accounts.{debit}
use bazo_miner.Ledger.Funds.{funds_error}

-- What the checks mean to ask, on the words as Go adds them.
pub record IsAcceptable (tx : FundsTx) (sender receiver : Account) : Type 0 where
  pub counter : (tx.aggregated ≡ true) ⊎ (tx.tx_cnt ≤ sender.tx_cnt)
  pub covered : add64 tx.amount tx.fee ≤ sender.balance
  pub staked :
      (sender.is_staking ≡ false)
      ⊎ (add64 (add64 tx.fee min_staking_minimum) tx.amount ≤ sender.balance)
  pub fits : add64 tx.amount receiver.balance ≤ max_money

-- After the initial setup a transaction passes the checks exactly when it is aggregated or its
-- counter is at most the sender's, the sender covers amount and fee, a staking sender keeps the
-- minimum, and the receiver's balance stays within MAX_MONEY.
pub funds_error-none_iff :
    (tx : FundsTx) (sender receiver : Account)
    → (funds_error false tx sender receiver ≡ none) ↔ IsAcceptable tx sender receiver
unfolding funds_error
funds_error-none_iff tx sender receiver = (
  λ h. record {
    counter = ground arith;
    covered = ground arith;
    staked = ground arith;
    fits = ground arith;
  },
  λ h. ground arith,
)

-- `Amount + Fee` and the root check are sums of words. A fee that is the two's complement of the
-- amount makes the cost 0: any sender that does not stake passes the checks, however poor.
pub wrapping_fee_accepted :
    (tx : FundsTx) (sender receiver : Account)
    → 0 < tx.amount
    → tx.amount + tx.fee ≡ u64_mod
    → tx.tx_cnt ≡ sender.tx_cnt
    → sender.is_staking ≡ false
    → tx.amount + receiver.balance ≤ max_money
    → sender.balance < tx.amount
    → (funds_error false tx sender receiver ≡ none)
      × (sender.balance < (debit tx.amount sender).balance)
unfolding add64 sub64
wrapping_fee_accepted tx sender receiver pos cost cnt idle fits poor = (
  (funds_error-none_iff tx sender receiver).1 (record {
    counter = inr (omega arith);
    covered = omega arith;
    staked = inl idle;
    fits = omega arith;
  }),
  omega arith,
)
