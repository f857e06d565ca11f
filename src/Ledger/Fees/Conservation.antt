-- ===== src/Ledger/Fees/Conservation.antt =====
-- What the fees of a block do to the money in the state.
use bazo_miner.Prelude.{ℕ, ◌+◌, ◌%◌, ◌≡◌, refl, Option, List, [], ◌∷◌, ◌++◌, ◌⊎◌, inl, inr, arith}
use bazo_miner.Prelude.Words.{u64_mod}
use bazo_miner.Ledger.Types.{World, AccTx, FundsTx, ConfigTx, StakeTx, Hash}
use bazo_miner.Ledger.Monad.{ok, err, Error}
use bazo_miner.Ledger.Accounts.Laws.{Words}
use bazo_miner.Ledger.Accounts.Total.{total}
use bazo_miner.Ledger.Fees.{OpenTx, aggregated_funds, collect_tx_fees}
use bazo_miner.Ledger.Fees.Transfers.{
  Transfer, pay_in, pay_out, Present, paid_in, paid_out, make_all-total,
}
use bazo_miner.Ledger.Fees.Loops.{transferred, mint_transfers, fee_transfers, all_transfers}
use bazo_miner.Ledger.Fees.Undo.{acc_fees, funds_fees, config_fees, stake_fees, block_fees}
use bazo_miner.Ledger.Fees.Atomic.{collect_tx_fees-AllOrNone}

module _ (miner : Hash) where
  -- The money that comes from nowhere: the fees of account and configuration transactions.
  abbrev pub minted_fees : List AccTx → List ConfigTx → ℕ
  minted_fees accs configs = paid_in (acc_fees miner accs) + paid_in (config_fees miner configs)

  paid_in-append : (ts us : List Transfer) → paid_in (ts ++ us) ≡ paid_in ts + paid_in us
  paid_in-append [] us = omega arith
  paid_in-append (pay_in k x ∷ ts) us = omega (arith, paid_in-append ts us)
  paid_in-append (pay_out k x ∷ ts) us = paid_in-append ts us

  paid_out-append : (ts us : List Transfer) → paid_out (ts ++ us) ≡ paid_out ts + paid_out us
  paid_out-append [] us = omega arith
  paid_out-append (pay_in k x ∷ ts) us = paid_out-append ts us
  paid_out-append (pay_out k x ∷ ts) us = omega (arith, paid_out-append ts us)

  mint_none_out :
      {A : Type 0} (fee : A → ℕ) (xs : List A)
      → paid_out (all_transfers (λ x. mint_transfers miner (fee x)) xs) ≡ 0
  mint_none_out fee [] = refl
  mint_none_out fee (x ∷ xs) = mint_none_out fee xs

  fees_even :
      {A : Type 0} (sender : A → Hash) (fee : A → ℕ) (xs : List A)
      → paid_out (all_transfers (λ x. fee_transfers miner (sender x) (fee x)) xs)
        ≡ paid_in (all_transfers (λ x. fee_transfers miner (sender x) (fee x)) xs)
  fees_even sender fee [] = refl
  fees_even sender fee (x ∷ xs) = omega (arith, fees_even sender fee xs)

  block_fees-balance :
      (a : List AccTx) (f : List FundsTx) (c : List ConfigTx) (s : List StakeTx)
      → paid_in (block_fees miner a f c s) ≡ paid_out (block_fees miner a f c s) + minted_fees a c
  block_fees-balance a f c s =
      rw
        (
          paid_in-append ((acc_fees miner a ++ funds_fees miner f) ++ config_fees miner c)
              (stake_fees miner s),
          paid_in-append (acc_fees miner a ++ funds_fees miner f) (config_fees miner c),
          paid_in-append (acc_fees miner a) (funds_fees miner f),
          paid_out-append ((acc_fees miner a ++ funds_fees miner f) ++ config_fees miner c)
              (stake_fees miner s),
          paid_out-append (acc_fees miner a ++ funds_fees miner f) (config_fees miner c),
          paid_out-append (acc_fees miner a) (funds_fees miner f),
        )
        (omega (
          arith,
          mint_none_out (λ x. x.fee) a,
          mint_none_out (λ x. x.fee) c,
          fees_even (λ x. x.from) (λ x. x.fee) f,
          fees_even (λ x. x.account) (λ x. x.fee) s,
        ))

  -- For a miner in the state, and balances and counters that are words: up to the carries of a
  -- uint64, collecting the fees of a block raises the money in the state by
  -- the fees of its account and configuration transactions, or leaves it when an error is returned.
  pub collect_tx_fees-total :
      (open_tx : Hash → Option OpenTx) (accs : List AccTx) (fundss : List FundsTx)
      (configs : List ConfigTx) (stakes : List StakeTx) (aggs : List (List Hash)) (w : World)
      → Words w.state
      → Present miner w.state
      → ((e : Error) × (collect_tx_fees miner open_tx accs fundss configs stakes aggs w
            ≡ (err e, w)))
        ⊎ ((v : World) × (collect_tx_fees miner open_tx accs fundss configs stakes aggs w
              ≡ (ok tt, v))
            × (total v.state % u64_mod ≡ (total w.state + minted_fees accs configs) % u64_mod))
  collect_tx_fees-total open_tx accs fundss configs stakes aggs w h m =
      let f = fundss ++ aggregated_funds open_tx aggs in
      let ts = block_fees miner accs f configs stakes in
      elim (collect_tx_fees-AllOrNone miner open_tx accs fundss configs stakes aggs w h m) [
        | inl x ↦ inl x
        | inr (q, p, _) ↦ inr (
          transferred ts w,
          q,
          omega (arith, make_all-total ts w.state p, block_fees-balance accs f configs stakes),
        )
      ]
