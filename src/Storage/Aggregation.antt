-- ===== src/Storage/Aggregation.antt =====
-- Which blocks lose their transactions, and what of them stays.
use bazo_miner.Prelude.{◌≡◌, refl, true, false, none, some, List, [], ◌∷◌, Bool-cases, inl, inr}
use bazo_miner.Prelude.Assoc.{lookup-insert_self}
use bazo_miner.Ledger.Types.{Hash, Block, FundsTx, AggTx}
use bazo_miner.Storage.{
  Storage, funds, agg, read_closed_tx, block_ready_to_aggregate, all_closed, funds_aggregated,
  agg_aggregated, empty_block, has_no_tx, has_other_tx, update_blocks_to_blocks_without_tx,
  read_closed_block, read_closed_block_without_tx, write_closed_block_without_tx,
  delete_closed_block,
}
use bazo_miner.Storage.Closed.{lookup-delete_key_self}

-- Every hash is that of a closed fund transaction that an aggregation took up, or of such an
-- aggregation.
abbrev pub FundsDone : List Hash → Storage → Type 0
FundsDone [] s = Unit
FundsDone (h ∷ hs) s =
    ((x : FundsTx) × (read_closed_tx h s ≡ some (funds x)) × (x.aggregated ≡ true)) × FundsDone hs s

abbrev pub AggsDone : List Hash → Storage → Type 0
AggsDone [] s = Unit
AggsDone (h ∷ hs) s =
    ((x : AggTx) × (read_closed_tx h s ≡ some (agg x)) × (x.aggregated ≡ true)) × AggsDone hs s

funds_done :
    (hs : List Hash) (s : Storage) → FundsDone hs s → all_closed funds_aggregated hs s ≡ some true
unfolding all_closed
funds_done [] s h = refl
funds_done (x ∷ hs) s ((t, e, d), h) = rw (e, d, funds_done hs s h)

aggs_done :
    (hs : List Hash) (s : Storage) → AggsDone hs s → all_closed agg_aggregated hs s ≡ some true
unfolding all_closed
aggs_done [] s h = refl
aggs_done (x ∷ hs) s ((t, e, d), h) = rw (e, d, aggs_done hs s h)

emptied : Block → Storage → Storage
emptied b s =
    delete_closed_block b.hash
      (write_closed_block_without_tx (record (empty_block b) { aggregated = true }) s)

-- A block, not without transactions, whose fund transactions and aggregations are closed and
-- aggregated, and that has not stake, account and configuration transactions at once, leaves the
-- closed blocks, and is then found under its hash without transactions, with all lists of
-- transactions but those two. So is a block with transactions of one or two of the three kinds, which
-- the comment in storage/update.go says is never aggregated.
pub update_blocks-emptied :
    (b : Block) (s : Storage)
    → has_no_tx b ≡ false
    → has_other_tx b ≡ false
    → FundsDone b.funds_tx_data s
    → AggsDone b.agg_tx_data s
    → (s' : Storage) × (update_blocks_to_blocks_without_tx b s ≡ some s')
      × ((read_closed_block b.hash s' ≡ none)
          × (read_closed_block_without_tx b.hash_without_tx s'
              ≡ some (record (empty_block b) { aggregated = true })))
unfolding update_blocks_to_blocks_without_tx block_ready_to_aggregate read_closed_block
    read_closed_block_without_tx delete_closed_block write_closed_block_without_tx
update_blocks-emptied b s n o f a =
    let moved = record (empty_block b) { aggregated = true } in
    let ready : all_closed funds_aggregated b.funds_tx_data s ≡ some true =
      funds_done b.funds_tx_data s f in
    let done : all_closed agg_aggregated b.agg_tx_data s ≡ some true =
      aggs_done b.agg_tx_data s a in
    (
      delete_closed_block b.hash (write_closed_block_without_tx moved s),
      rw (n, o, ready, done),
      (
        lookup-delete_key_self b.hash s.closed_blocks,
        lookup-insert_self b.hash_without_tx moved s.closed_blocks_without_tx,
      ),
    )

-- A block of account, stake or configuration transactions alone is taken for aggregated too, unless
-- it has all three kinds.
block_ready-other_tx :
    (b : Block) (s : Storage)
    → has_other_tx b ≡ false
    → b.funds_tx_data ≡ []
    → b.agg_tx_data ≡ []
    → (b' : Block) × (block_ready_to_aggregate b s ≡ some (true, b'))
      × (b'.acc_tx_data ≡ b.acc_tx_data)
unfolding block_ready_to_aggregate all_closed
block_ready-other_tx b s o f a = elim (Bool-cases (has_no_tx b)) [
  | inl e ↦ (b, rw e, refl)
  | inr e ↦ (empty_block b, rw (e, o, f, a), refl)
]
