-- ===== src/Ledger/Fees/Atomic.antt =====
-- `collectTxFees` collects all fees or none, and `collectTxFeesRollback` gives them back.
use bazo_miner.Prelude.{◌≡◌, refl, Option, List, [], ◌++◌, ap, ◌∙◌, sym, subst, ◌⊎◌, inl, inr}
use mathlib.Core.List.{append-nil}
use bazo_miner.Ledger.Types.{World, AccTx, FundsTx, ConfigTx, StakeTx, Hash}
use bazo_miner.Ledger.Monad.{Outcome, ok, err, Done, Action, Error}
use bazo_miner.Ledger.Accounts.Laws.{Words}
use bazo_miner.Ledger.Fees.{
  OpenTx, aggregated_funds, mint_fee, funds_fee, stake_fee, fee_loop, collect_tx_fees_rollback,
  give_back, collect_loops, collect_tx_fees, after_loop,
}
use bazo_miner.Ledger.Fees.Transfers.{
  Transfer, make_all, Present, AllPresent, make_all-Present, AllPresent-append,
  make_all-AllPresent-back,
}
use bazo_miner.Ledger.Fees.Loops.{
  Collected, transferred, mint_transfers, fee_transfers, all_transfers, transferred-transferred,
  fee_loop-Collected,
}
use bazo_miner.Ledger.Fees.Rounds.{mint_fee-Round, funds_fee-Round, stake_fee-Round}
use bazo_miner.Ledger.Fees.Undo.{
  acc_fees, funds_fees, config_fees, stake_fees, block_fees, taken_back, give_back_lem,
}

module _ (miner : Hash) where
  -- What the collection of fees comes to: nothing is written, or all the fees are collected, and the
  -- rollback with the same transactions restores the state.
  abbrev pub AllOrNone :
      Outcome Done × World
      → List AccTx
      → List FundsTx
      → List ConfigTx
      → List StakeTx
      → World
      → Type 0
  AllOrNone r a f c s w =
      ((e : Error) × (r ≡ (err e, w)))
      ⊎ ((r ≡ (ok tt, transferred (block_fees miner a f c s) w))
          × AllPresent (block_fees miner a f c s) w.state
          × (collect_tx_fees_rollback miner a f c s (transferred (block_fees miner a f c s) w)
              ≡ (ok tt, w)))

  -- One loop, after transfers that the loops before it made.
  stage :
      {A : Type 0} (transfers : A → List Transfer) (f : A → Action Done) (xs : List A)
      (before : List Transfer) (w : World) (next : List A → Action Done)
      (failed : Error → List A → Action Done) (P : Outcome Done × World → Type 0)
      → AllPresent before w.state
      → Collected miner transfers
          (fee_loop miner f xs (transferred before w))
          xs
          (transferred before w)
      → ((e : Error) (part : List A)
          → AllPresent (before ++ all_transfers transfers part) w.state
          → P (failed e part (transferred (before ++ all_transfers transfers part) w)))
      → (AllPresent (before ++ all_transfers transfers xs) w.state
          → P (next xs (transferred (before ++ all_transfers transfers xs) w)))
      → P (after_loop miner (fee_loop miner f xs (transferred before w)) next failed)
  stage transfers f xs before w next failed P p (inl (e, part, q, ps)) bad good =
      let us = all_transfers transfers part in
      rw (q, transferred-transferred before us w)
        (bad e part
          (AllPresent-append before us w.state p (make_all-AllPresent-back us before w.state ps)))
  stage transfers f xs before w next failed P p (inr (q, ps)) bad good =
      let us = all_transfers transfers xs in
      rw (q, transferred-transferred before us w)
        (good
          (AllPresent-append before us w.state p (make_all-AllPresent-back us before w.state ps)))

  gives_back :
      (e : Error) (a : List AccTx) (f : List FundsTx) (c : List ConfigTx) (s : List StakeTx)
      (ts : List Transfer) (w : World) (all_f : List FundsTx) (all_a : List AccTx)
      (all_c : List ConfigTx) (all_s : List StakeTx)
      → Words w.state
      → AllPresent ts w.state
      → block_fees miner a f c s ≡ ts
      → AllOrNone (give_back miner e a f c s (transferred ts w)) all_a all_f all_c all_s w
  gives_back e a f c s ts w all_f all_a all_c all_s h p q = inl (
    e,
    give_back_lem miner e a f c s w (transferred ts w) h
        (subst (λ l. AllPresent l w.state) (sym q) p) (ap (λ l. transferred l w) (sym q)),
  )

  pub collect_loops-AllOrNone :
      (accs : List AccTx) (fundss : List FundsTx) (configs : List ConfigTx) (stakes : List StakeTx)
      (w : World)
      → Words w.state
      → Present miner w.state
      → AllOrNone (collect_loops miner accs fundss configs stakes w) accs fundss configs stakes w
  unfolding collect_loops
  collect_loops-AllOrNone accs fundss configs stakes w h m =
      let fees_1 = acc_fees miner accs in
      let fees_2 = fees_1 ++ funds_fees miner fundss in
      let fees_3 = fees_2 ++ config_fees miner configs in
      let still : (ts : List Transfer) → Present miner (make_all ts w.state) =
        λ ts. make_all-Present ts miner w.state m in
      let P : Outcome Done × World → Type 0 = λ r. AllOrNone r accs fundss configs stakes w in
      stage (λ tx. mint_transfers miner tx.fee) (λ tx. mint_fee miner tx.fee) accs [] w _ _ P tt
        (fee_loop-Collected miner (λ tx. mint_transfers miner tx.fee) (λ tx. mint_fee miner tx.fee)
          (mint_fee-Round miner (λ tx. tx.fee)) accs w m)
        (λ e a p.
          gives_back e a [] [] [] (acc_fees miner a) w fundss accs configs stakes h p
            (append-nil _ ∙ append-nil _ ∙ append-nil _))
        (λ p₁.
          stage (λ tx. fee_transfers miner tx.from tx.fee) (funds_fee miner) fundss fees_1 w _ _ P
            p₁
            (fee_loop-Collected miner (λ tx. fee_transfers miner tx.from tx.fee) (funds_fee miner)
              (funds_fee-Round miner) fundss (transferred fees_1 w) (still fees_1))
            (λ e f p.
              gives_back e accs f [] [] (fees_1 ++ funds_fees miner f) w fundss accs configs stakes
                h p (append-nil _ ∙ append-nil _))
            (λ p₂.
              stage (λ tx. mint_transfers miner tx.fee) (λ tx. mint_fee miner tx.fee) configs fees_2
                w _ _ P p₂
                (fee_loop-Collected miner (λ tx. mint_transfers miner tx.fee)
                  (λ tx. mint_fee miner tx.fee) (mint_fee-Round miner (λ tx. tx.fee)) configs
                  (transferred fees_2 w) (still fees_2))
                (λ e c p.
                  gives_back e accs fundss c [] (fees_2 ++ config_fees miner c) w fundss accs
                    configs stakes h p (append-nil _))
                (λ p₃.
                  stage (λ tx. fee_transfers miner tx.account tx.fee) (stake_fee miner) stakes
                    fees_3 w _ _ P p₃
                    (fee_loop-Collected miner (λ tx. fee_transfers miner tx.account tx.fee)
                      (stake_fee miner) (stake_fee-Round miner) stakes (transferred fees_3 w)
                      (still fees_3))
                    (λ e s p.
                      gives_back e accs fundss configs s (fees_3 ++ stake_fees miner s) w fundss
                        accs configs stakes h p refl)
                    (λ p₄. inr (refl, p₄, taken_back miner accs fundss configs stakes w h p₄)))))

  -- For a miner in the state, and balances and counters that are words, the collection of a block's fees either returns an error and writes
  -- nothing, or pays every fee of every transaction, those of the aggregated ones included; then the
  -- rollback over the same transactions restores the state.
  pub collect_tx_fees-AllOrNone :
      (open_tx : Hash → Option OpenTx) (accs : List AccTx) (fundss : List FundsTx)
      (configs : List ConfigTx) (stakes : List StakeTx) (aggs : List (List Hash)) (w : World)
      → Words w.state
      → Present miner w.state
      → AllOrNone
          (collect_tx_fees miner open_tx accs fundss configs stakes aggs w)
          accs
          (fundss ++ aggregated_funds open_tx aggs)
          configs
          stakes
          w
  unfolding collect_tx_fees
  collect_tx_fees-AllOrNone open_tx accs fundss configs stakes aggs w h (a, e) =
      rw (e, collect_tx_fees)
        (collect_loops-AllOrNone accs (fundss ++ aggregated_funds open_tx aggs) configs stakes w h
          (a, e))
