-- ===== src/Ledger/Fees.antt =====
-- `collectTxFees`, `getFundsTxFromAggTx` (miner/state.go) and `collectTxFeesRollback`
-- (miner/staterollback.go). `open_tx` is the database of open transactions.
pub mod Transfers
pub mod Loops
pub mod Rounds
pub mod Undo
pub mod Atomic
pub mod Conservation
use bazo_miner.Prelude.{ℕ, Option, none, some, List, [], ◌∷◌, ◌++◌, map, ltb, if◌then◌else◌}
use bazo_miner.Prelude.Words.{add64}
use bazo_miner.Ledger.Types.{World, Account, AccTx, FundsTx, ConfigTx, StakeTx, Hash, max_money}
use bazo_miner.Ledger.Monad.{
  Action, Outcome, ok, err, panic, Done, raise, ◌>>=◌, ◌>>◌, Error, account_missing, miner_overflow,
  for_each,
}
use bazo_miner.Ledger.Accounts.{get_account, credit, debit, write}

-- An open transaction, as far as the type switch tells them apart.
pub data OpenTx : Type 0 where
  funds : FundsTx → OpenTx
  other : OpenTx

-- The fund transactions among the open ones of an aggregation.
unfoldable pub get_funds_tx_from_agg_tx : (Hash → Option OpenTx) → List Hash → List FundsTx
get_funds_tx_from_agg_tx open_tx [] = []
get_funds_tx_from_agg_tx open_tx (h ∷ hs) =
    let rest = get_funds_tx_from_agg_tx open_tx hs in
    elim (open_tx h) [ none ↦ rest | some t ↦ elim t [ funds tx ↦ tx ∷ rest | other ↦ rest ] ]

unfoldable pub aggregated_funds : (Hash → Option OpenTx) → List (List Hash) → List FundsTx
aggregated_funds open_tx [] = []
aggregated_funds open_tx (hs ∷ aggs) =
    get_funds_tx_from_agg_tx open_tx hs ++ aggregated_funds open_tx aggs

module _ (miner : Hash) where
  -- The loops over account and configuration transactions: "money gets created from thin air".
  unfoldable pub mint_fee : ℕ → Action Done
  mint_fee fee w = elim (get_account miner w) [
    | none ↦ (panic, w)
    | some acc ↦
        if ltb max_money (add64 acc.balance fee)
        then (err miner_overflow, w)
        else (ok tt, write miner (credit fee) w)
  ]

  -- The loop over fund transactions. The overflow error is written to `err`, and the lookup of the
  -- sender in the next statement overwrites it.
  unfoldable pub funds_fee : FundsTx → Action Done
  funds_fee tx w = elim (get_account miner w) [
    | none ↦ (panic, w)
    | some acc ↦ elim (get_account tx.from w) [
      | none ↦ (err account_missing, w)
      | some sender ↦ (ok tt, write tx.from (debit tx.fee) (write miner (credit tx.fee) w))
    ]
  ]

  -- The loop over stake transactions, which loses the overflow error in the same way.
  unfoldable pub stake_fee : StakeTx → Action Done
  stake_fee tx w = elim (get_account miner w) [
    | none ↦ (panic, w)
    | some acc ↦ elim (get_account tx.account w) [
      | none ↦ (err account_missing, w)
      | some sender ↦ (ok tt, write miner (credit tx.fee) (write tx.account (debit tx.fee) w))
    ]
  ]

  -- A loop that collects what it went through (`tmpAccTx` and the like) and stops at an error.
  pub fee_loop : {A : Type 0} → (A → Action Done) → List A → World → Outcome Done × List A × World
  fee_loop f [] w = (ok tt, [], w)
  fee_loop f (x ∷ xs) w =
      let (r, w₁) = f x w in
      let (r₂, tmp, w₂) = fee_loop f xs w₁ in
      elim r [ ok _ ↦ (r₂, x ∷ tmp, w₂) | err e ↦ (err e, [], w₁) | panic ↦ (panic, [], w₁) ]

  -- The bodies of the loops of `collectTxFeesRollback`.
  unfoldable pub unmint_fee : ℕ → Action Done
  unmint_fee fee w = elim (get_account miner w) [
    | none ↦ (panic, w)
    | some acc ↦ (ok tt, write miner (debit fee) w)
  ]

  unfoldable pub refund : Hash → ℕ → Action Done
  refund sender fee w = elim (get_account miner w) [
    | none ↦ (panic, w)
    | some acc ↦
        let w₁ = write miner (debit fee) w in
        elim (get_account sender w₁) [
          | none ↦ (panic, w₁)
          | some _ ↦ (ok tt, write sender (credit fee) w₁)
        ]
  ]

  unfoldable pub collect_tx_fees_rollback :
      List AccTx → List FundsTx → List ConfigTx → List StakeTx → Action Done
  collect_tx_fees_rollback accs fundss configs stakes =
      for_each (λ tx. unmint_fee tx.fee) accs
      >> for_each (λ tx. refund tx.from tx.fee) fundss
      >> for_each (λ tx. unmint_fee tx.fee) configs
      >> for_each (λ tx. refund tx.account tx.fee) stakes

  -- The error exits: what was collected so far is given back.
  unfoldable pub give_back :
      Error → List AccTx → List FundsTx → List ConfigTx → List StakeTx → Action Done
  give_back e accs fundss configs stakes =
      collect_tx_fees_rollback accs fundss configs stakes >> raise e

  -- What follows a loop: the next one, or the error exit.
  abbrev pub after_loop :
      {A : Type 0}
      → Outcome Done × List A × World
      → (List A → Action Done)
      → (Error → List A → Action Done)
      → Outcome Done × World
  after_loop (ok _, xs, w) next failed = next xs w
  after_loop (err e, xs, w) next failed = failed e xs w
  after_loop (panic, xs, w) next failed = (panic, w)

  -- The four loops, each entered when the one before it went through.
  unfoldable pub collect_loops :
      List AccTx → List FundsTx → List ConfigTx → List StakeTx → Action Done
  collect_loops accs fundss configs stakes w =
      after_loop (fee_loop (λ tx. mint_fee tx.fee) accs w)
        (λ a w₁.
          after_loop (fee_loop funds_fee fundss w₁)
            (λ f w₂.
              after_loop (fee_loop (λ tx. mint_fee tx.fee) configs w₂)
                (λ c w₃.
                  after_loop (fee_loop stake_fee stakes w₃) (λ s w₄. (ok tt, w₄))
                    (λ e s. give_back e a f c s))
                (λ e c. give_back e a f c []))
            (λ e f. give_back e a f [] []))
        (λ e a. give_back e a [] [] [])

  unfoldable pub collect_tx_fees :
      (Hash → Option OpenTx)
      → List AccTx
      → List FundsTx
      → List ConfigTx
      → List StakeTx
      → List (List Hash)
      → Action Done
  collect_tx_fees open_tx accs fundss configs stakes aggs w = elim (get_account miner w) [
    | none ↦ (err account_missing, w)
    | some _ ↦ collect_loops accs (fundss ++ aggregated_funds open_tx aggs) configs stakes w
  ]
