-- ===== src/Ledger/Fees/Rounds.antt =====
-- One round of each loop of `collectTxFees` and of its rollback, as transfers.
use bazo_miner.Prelude.{ℕ, ◌≡◌, refl, map, ap, sym, inl, inr, Option-cases, Bool-cases, ltb}
use bazo_miner.Prelude.Words.{add64}
use bazo_miner.Prelude.Assoc.{lookup, lookup-adjust-some}
use bazo_miner.Ledger.Types.{World, FundsTx, StakeTx, Hash, max_money}
use bazo_miner.Ledger.Monad.{ok, account_missing, miner_overflow}
use bazo_miner.Ledger.Accounts.{debit}
use bazo_miner.Ledger.Accounts.Laws.{debit-credit_comm}
use bazo_miner.Ledger.Fees.{mint_fee, funds_fee, stake_fee, unmint_fee, refund}
use bazo_miner.Ledger.Fees.Transfers.{opposite, Present, AllPresent}
use bazo_miner.Ledger.Fees.Loops.{Round, transferred, mint_transfers, fee_transfers}

module _ (miner : Hash) where
  pub mint_fee-Round :
      {A : Type 0} (fee : A → ℕ) (x : A) (w : World)
      → Present miner w.state
      → Round miner (λ y. mint_transfers miner (fee y)) (mint_fee miner (fee x) w) x w
  unfolding mint_fee
  mint_fee-Round fee x w (a, e) = elim (Bool-cases (ltb max_money (add64 a.balance (fee x)))) [
    | inl q ↦ inl (miner_overflow, rw (e, q, mint_fee) refl)
    | inr q ↦ inr (rw (e, q, mint_fee) refl, ((a, e), tt))
  ]

  pub funds_fee-Round :
      (tx : FundsTx) (w : World)
      → Present miner w.state
      → Round miner (λ y. fee_transfers miner y.from y.fee) (funds_fee miner tx w) tx w
  unfolding funds_fee
  funds_fee-Round tx w (a, e) = elim (Option-cases (lookup tx.from w.state)) [
    | inl q ↦ inl (account_missing, rw (e, q, funds_fee) refl)
    | inr (b, q) ↦ inr (rw (e, q, funds_fee) refl, ((a, e), ((b, q), tt)))
  ]

  pub stake_fee-Round :
      (tx : StakeTx) (w : World)
      → Present miner w.state
      → Round miner (λ y. fee_transfers miner y.account y.fee) (stake_fee miner tx w) tx w
  unfolding stake_fee
  stake_fee-Round tx w (a, e) = elim (Option-cases (lookup tx.account w.state)) [
    | inl q ↦ inl (account_missing, rw (e, q, stake_fee) refl)
    | inr (b, q) ↦ inr (
      rw (e, q, stake_fee)
          (ap (λ s. (ok tt, record w { state = s }))
            (sym (debit-credit_comm tx.account miner tx.fee tx.fee w.state))),
      ((a, e), ((b, q), tt)),
    )
  ]

  pub unmint_fee-opposite :
      {A : Type 0} (fee : A → ℕ) (x : A) (w : World)
      → AllPresent (mint_transfers miner (fee x)) w.state
      → unmint_fee miner (fee x) w
        ≡ (ok tt, transferred (map opposite (mint_transfers miner (fee x))) w)
  unfolding unmint_fee
  unmint_fee-opposite fee x w ((a, e), _) = rw (e, unmint_fee) refl

  pub refund-opposite :
      (sender : Hash) (fee : ℕ) (w : World)
      → AllPresent (fee_transfers miner sender fee) w.state
      → refund miner sender fee w
        ≡ (ok tt, transferred (map opposite (fee_transfers miner sender fee)) w)
  unfolding refund
  refund-opposite sender fee w ((a, e), ((b, q), _)) =
      let (c, r, _) = lookup-adjust-some miner sender (debit fee) w.state q in
      rw (e, r, refund) refl
