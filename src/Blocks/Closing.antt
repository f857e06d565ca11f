-- ===== src/Blocks/Closing.antt =====
-- postValidate (miner/block_validation.go) and postValidateRollback (miner/blockrollback.go) on the
-- storage: the transactions of a block become closed, and open again. Parameters and statistics, which
-- they change too, are config_state_change and collect_statistics; the broadcast is left out.
use bazo_miner.Prelude.{
  ℕ, ◌+◌, Bool, true, false, not, ◌&&◌, Option, none, some, List, [], ◌∷◌, ltb, ◌==◌, if◌then◌else◌,
}
use bazo_miner.Ledger.Types.{Hash, Block, FundsTx, AggTx}
use bazo_miner.Storage.{
  Storage, Transaction, funds, acc, update, config, stake, agg, read_closed_tx, read_open_tx,
  read_closed_block, write_closed_tx, write_open_tx, delete_open_tx, delete_invalid_open_tx,
  delete_closed_tx, delete_open_block, write_closed_block, delete_closed_block,
  read_all_closed_blocks, update_blocks_to_blocks_without_tx, delete_all_last_closed_block,
  write_last_closed_block, write_to_received_stash, Checked,
}
use bazo_miner.Blocks.{BlockData}

abbrev pub each : {A : Type 0} → (A → Storage → Storage) → List A → Storage → Storage
each f [] s = s
each f (x ∷ xs) s = each f xs (f x s)

-- The blocks more than NO_EMPTYING_LENGTH below the new one.
abbrev pub is_old : ℕ → Block → Bool
is_old height b = not b.aggregated && ltb 0 b.height && ltb (b.height + 100) height

-- The loop over the closed blocks; a failed type assertion ends it.
abbrev pub empty_old : ℕ → List Block → Checked Storage → Checked Storage
empty_old height bs none = none
empty_old height [] (some s) = some s
empty_old height (b ∷ bs) (some s) =
    empty_old height bs (if is_old height b then update_blocks_to_blocks_without_tx b s else some s)

-- `trx.Aggregated = true`, with the block for a fund transaction that was open.
abbrev pub mark_closed : Transaction → Transaction
mark_closed (funds x) = funds (record x { aggregated = true })
mark_closed (agg x) = agg (record x { aggregated = true })
mark_closed t = t

abbrev pub mark_open : Hash → Transaction → Transaction
mark_open h (funds x) = funds (record x { aggregated = true; block = h })
mark_open h (agg x) = agg (record x { aggregated = true })
mark_open h t = t

module _ (hash : Transaction → Hash) (sort : List Block → List Block) where
  abbrev pub close_tx : Transaction → Storage → Storage
  close_tx t s = delete_open_tx hash t (write_closed_tx hash t s)

  abbrev pub open_tx_again : Transaction → Storage → Storage
  open_tx_again t s = delete_closed_tx hash t (write_open_tx hash t s)

  -- The block is set on the transaction after it was written.
  abbrev pub close_funds_tx : Hash → FundsTx → Storage → Storage
  close_funds_tx h x s =
      let later = funds (record x { block = h }) in
      delete_invalid_open_tx hash later
        (delete_open_tx hash later (write_closed_tx hash (funds x) s))

  -- The last fund transaction with the hash.
  abbrev pub find_funds : Hash → List FundsTx → Option Transaction → Option Transaction
  find_funds k [] o = o
  find_funds k (x ∷ xs) o = find_funds k xs (if hash (funds x) == k then some (funds x) else o)

  abbrev pub open_or_fetched : Hash → BlockData → Option Transaction → Option Transaction
  open_or_fetched k d (some t) = some (mark_open d.block.hash_without_tx t)
  open_or_fetched k d none = elim (find_funds k d.aggregated_funds_tx_slice none) [
    | none ↦ none
    | some t ↦ some (mark_open d.block.hash_without_tx t)
  ]

  abbrev pub aggregated_tx : Hash → BlockData → Option Transaction → Storage → Option Transaction
  aggregated_tx k d (some t) s = some (mark_closed t)
  aggregated_tx k d none s = open_or_fetched k d (read_open_tx k s)

  -- `break` when the transaction is found nowhere.
  abbrev pub close_found : AggTx → Option Transaction → Storage → (Storage → Storage) → Storage
  close_found x none s next = s
  close_found x (some t) s next = next (delete_invalid_open_tx hash (agg x) (close_tx t s))

  abbrev pub close_aggregated : AggTx → BlockData → List Hash → Storage → Storage
  close_aggregated x d [] s = s
  close_aggregated x d (k ∷ ks) s =
      close_found x (aggregated_tx k d (read_closed_tx k s) s) s (close_aggregated x d ks)

  abbrev pub close_agg_tx : BlockData → AggTx → Storage → Storage
  close_agg_tx d x s =
      let t = agg (record x { block = d.block.hash_without_tx; aggregated = false }) in
      delete_invalid_open_tx hash t (close_tx t (close_aggregated x d x.aggregated_tx_slice s))

  abbrev pub close_txs : (initial : Bool) → BlockData → Storage → Storage
  close_txs initial d s =
      let accs = each (λ x. close_tx (acc x)) d.acc_tx_slice s in
      let payments = each (close_funds_tx d.block.hash_without_tx) d.funds_tx_slice accs in
      let configs = each (λ x. close_tx (config x)) d.config_tx_slice payments in
      let stakes = each (λ x. close_tx (stake x)) d.stake_tx_slice configs in
      let updates = each (λ x. close_tx (update x)) d.update_tx_slice stakes in
      let fetched =
        if initial
        then each (λ x. close_tx (funds (record x { aggregated = true })))
            d.aggregated_funds_tx_slice updates
        else updates in
      each (close_agg_tx d) d.agg_tx_slice fetched

  -- A bootstrapping miner in the initial setup writes nothing.
  abbrev pub post_validate : (bootstrap initial : Bool) → BlockData → Storage → Checked Storage
  post_validate bootstrap initial d s =
      if bootstrap && initial
      then some s
      else let closed =
          write_closed_block d.block (delete_open_block d.block.hash (close_txs initial d s)) in
        elim (empty_old d.block.height (read_all_closed_blocks sort closed) (some closed)) [
          | none ↦ none
          | some s' ↦ some (write_last_closed_block d.block (delete_all_last_closed_block s'))
        ]

  -- "Only move transactions which are validated the first time in this block to the Mempool."
  abbrev pub reopen_if : Hash → Option Transaction → Storage → Storage
  reopen_if h (some (funds x)) s = if x.block == h then open_tx_again (funds x) s else s
  reopen_if h (some (agg x)) s = if x.block == h then open_tx_again (agg x) s else s
  reopen_if h _ s = s

  abbrev pub reopen_aggregated : Hash → List Hash → Storage → Storage
  reopen_aggregated h [] s = s
  reopen_aggregated h (k ∷ ks) s = reopen_aggregated h ks (reopen_if h (read_closed_tx k s) s)

  abbrev pub reopen_agg_tx : Hash → AggTx → Storage → Storage
  reopen_agg_tx h x s = open_tx_again (agg x) (reopen_aggregated h x.aggregated_tx_slice s)

  abbrev pub reopen_txs : BlockData → Storage → Storage
  reopen_txs d s =
      let accs = each (λ x. open_tx_again (acc x)) d.acc_tx_slice s in
      let payments = each (λ x. open_tx_again (funds x)) d.funds_tx_slice accs in
      let configs = each (λ x. open_tx_again (config x)) d.config_tx_slice payments in
      let stakes = each (λ x. open_tx_again (stake x)) d.stake_tx_slice configs in
      each (reopen_agg_tx d.block.hash_without_tx) d.agg_tx_slice stakes

  -- Both lookups are in the bucket of closed blocks with transactions.
  abbrev pub previous_block : Block → Storage → Option Block
  previous_block b s = elim (read_closed_block b.prev_hash s) [
    | none ↦ read_closed_block b.prev_hash_without_tx s
    | some p ↦ some p
  ]

  abbrev pub set_last_closed : Option Block → Storage → Storage
  set_last_closed none s = s
  set_last_closed (some p) s = write_last_closed_block p s

  abbrev pub post_validate_rollback : BlockData → Storage → Storage
  post_validate_rollback d s =
      let left =
        delete_all_last_closed_block
          (write_to_received_stash d.block (delete_closed_block d.block.hash (reopen_txs d s))) in
      set_last_closed (previous_block d.block left) left
