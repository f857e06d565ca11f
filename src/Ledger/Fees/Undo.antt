-- ===== src/Ledger/Fees/Undo.antt =====
-- `collectTxFeesRollback` as transfers: it gives back the fees that were collected.
use bazo_miner.Prelude.{ℕ, ◌≡◌, List, ◌++◌, map, ap, ◌∙◌, sym}
use bazo_miner.Ledger.Types.{World, AccTx, FundsTx, ConfigTx, StakeTx, Hash}
use bazo_miner.Ledger.Monad.{ok, err, Done, Action, Error, raise, ◌>>◌, >>=-ok, for_each}
use bazo_miner.Ledger.Accounts.Laws.{Words}
use bazo_miner.Ledger.Fees.{unmint_fee, refund, collect_tx_fees_rollback, give_back}
use bazo_miner.Ledger.Fees.Transfers.{
  Transfer, opposite, AllPresent, make_all-opposite, make_all-AllPresent, AllPresent-left,
  AllPresent-right,
}
use bazo_miner.Ledger.Fees.Loops.{
  transferred, mint_transfers, fee_transfers, all_transfers, transferred-transferred,
  for_each-opposite, map-opposite_append,
}
use bazo_miner.Ledger.Fees.Rounds.{unmint_fee-opposite, refund-opposite}

module _ (miner : Hash) where
  abbrev pub acc_fees : List AccTx → List Transfer
  acc_fees = all_transfers (λ tx. mint_transfers miner tx.fee)

  abbrev pub funds_fees : List FundsTx → List Transfer
  funds_fees = all_transfers (λ tx. fee_transfers miner tx.from tx.fee)

  abbrev pub config_fees : List ConfigTx → List Transfer
  config_fees = all_transfers (λ tx. mint_transfers miner tx.fee)

  abbrev pub stake_fees : List StakeTx → List Transfer
  stake_fees = all_transfers (λ tx. fee_transfers miner tx.account tx.fee)

  -- All the fees of a block.
  abbrev pub block_fees : List AccTx → List FundsTx → List ConfigTx → List StakeTx → List Transfer
  block_fees a f c s = ((acc_fees a ++ funds_fees f) ++ config_fees c) ++ stake_fees s

  -- A loop of the rollback, then the rest of it.
  then_transferred :
      (ts us : List Transfer) (m k : Action Done) (w : World)
      → AllPresent (ts ++ us) w.state
      → (AllPresent ts w.state → m w ≡ (ok tt, transferred (map opposite ts) w))
      → ((v : World) → AllPresent us v.state → k v ≡ (ok tt, transferred (map opposite us) v))
      → (m >> k) w ≡ (ok tt, transferred (map opposite (ts ++ us)) w)
  then_transferred ts us m k w p f g =
      >>=-ok m (λ _. k) w (f (AllPresent-left ts us w.state p))
      ∙ g (transferred (map opposite ts) w)
          (make_all-AllPresent us (map opposite ts) w.state (AllPresent-right ts us w.state p))
      ∙ ap (λ v. (ok tt, v))
          (transferred-transferred (map opposite ts) (map opposite us) w
            ∙ ap (λ l. transferred l w) (sym (map-opposite_append ts us)))

  unmint_all :
      {A : Type 0} (fee : A → ℕ) (xs : List A) (w : World)
      → AllPresent (all_transfers (λ x. mint_transfers miner (fee x)) xs) w.state
      → for_each (λ x. unmint_fee miner (fee x)) xs w ≡ (
        ok tt,
        transferred (map opposite (all_transfers (λ x. mint_transfers miner (fee x)) xs)) w,
      )
  unmint_all fee =
      for_each-opposite (λ x. mint_transfers miner (fee x)) (λ x. unmint_fee miner (fee x))
        (unmint_fee-opposite miner fee)

  refund_all :
      {A : Type 0} (sender : A → Hash) (fee : A → ℕ) (xs : List A) (w : World)
      → AllPresent (all_transfers (λ x. fee_transfers miner (sender x) (fee x)) xs) w.state
      → for_each (λ x. refund miner (sender x) (fee x)) xs w ≡ (
        ok tt,
        transferred
            (map opposite (all_transfers (λ x. fee_transfers miner (sender x) (fee x)) xs))
            w,
      )
  refund_all sender fee =
      for_each-opposite (λ x. fee_transfers miner (sender x) (fee x))
        (λ x. refund miner (sender x) (fee x)) (λ x. refund-opposite miner (sender x) (fee x))

  rollback_lem :
      (a : List AccTx) (f : List FundsTx) (c : List ConfigTx) (s : List StakeTx) (w : World)
      → AllPresent (block_fees a f c s) w.state
      → collect_tx_fees_rollback miner a f c s w
        ≡ (ok tt, transferred (map opposite (block_fees a f c s)) w)
  unfolding collect_tx_fees_rollback
  rollback_lem a f c s w p =
      let af = acc_fees a ++ funds_fees f in
      let m₁ = for_each (λ tx. unmint_fee miner tx.fee) a in
      let m₂ = for_each (λ tx. refund miner tx.from tx.fee) f in
      let m₃ = for_each (λ tx. unmint_fee miner tx.fee) c in
      then_transferred (af ++ config_fees c) (stake_fees s) (m₁ >> m₂ >> m₃)
        (for_each (λ tx. refund miner tx.account tx.fee) s) w p
        (λ p₃.
          then_transferred af (config_fees c) (m₁ >> m₂) m₃ w p₃
            (λ p₂.
              then_transferred (acc_fees a) (funds_fees f) m₁ m₂ w p₂
                (unmint_all (λ tx. tx.fee) a w) (refund_all (λ tx. tx.from) (λ tx. tx.fee) f))
            (unmint_all (λ tx. tx.fee) c))
        (refund_all (λ tx. tx.account) (λ tx. tx.fee) s)

  -- The rollback of fees that were collected.
  pub taken_back :
      (a : List AccTx) (f : List FundsTx) (c : List ConfigTx) (s : List StakeTx) (w : World)
      → Words w.state
      → AllPresent (block_fees a f c s) w.state
      → collect_tx_fees_rollback miner a f c s (transferred (block_fees a f c s) w) ≡ (ok tt, w)
  taken_back a f c s w h p =
      let ts = block_fees a f c s in
      rollback_lem a f c s (transferred ts w) (make_all-AllPresent ts ts w.state p)
      ∙ ap (λ q. (ok tt, record w { state = q })) (make_all-opposite ts w.state h)

  pub give_back_lem :
      (e : Error) (a : List AccTx) (f : List FundsTx) (c : List ConfigTx) (s : List StakeTx)
      (w v : World)
      → Words w.state
      → AllPresent (block_fees a f c s) w.state
      → v ≡ transferred (block_fees a f c s) w
      → give_back miner e a f c s v ≡ (err e, w)
  unfolding give_back
  give_back_lem e a f c s w v h p q =
      >>=-ok (collect_tx_fees_rollback miner a f c s) (λ _. raise e) v
        (rw q (taken_back a f c s w h p))
