-- ===== src/Updates.antt =====
-- miner/block_updatetx.go: a verified update transaction changes the data of another transaction and
-- counts the update in the block of that transaction. The broadcast is left out. Only fund, account
-- and update transactions have data and a check string here.
pub mod Hashes
pub mod Rewrite
mod Tests
use bazo_miner.Prelude.{ℕ, ◌+◌, ◌%◌, Bool, true, false, Option, none, some, List, [], ◌∷◌, ◌++◌}
use bazo_miner.Prelude.Assoc.{lookup, insert}
use bazo_miner.Prelude.Words.{u16_mod}
use bazo_miner.Ledger.Types.{Hash, Bytes, CheckString, Block, UpdateTx}
use bazo_miner.Storage.{
  Storage, Transaction, funds, acc, update, config, stake, agg, read_open_tx, read_closed_tx,
  write_open_tx, write_closed_tx, read_block_by_tx_hash, delete_open_block, write_closed_block,
}

-- `SetData` and `SetCheckString`
abbrev pub set_data : Bytes → Transaction → Transaction
set_data d (funds x) = funds (record x { payload = d })
set_data d (acc x) = acc (record x { payload = d })
set_data d (update x) = update (record x { payload = d })
set_data d t = t

abbrev pub set_check_string : CheckString → Transaction → Transaction
set_check_string c (funds x) = funds (record x { check_string = c })
set_check_string c (acc x) = acc (record x { check_string = c })
set_check_string c (update x) = update (record x { check_string = c })
set_check_string c t = t

abbrev pub rewrite_tx : CheckString → Bytes → Transaction → Transaction
rewrite_tx c d t = set_check_string c (set_data d t)

module _ (hash : Transaction → Hash) where
  -- An open transaction is the object of the pool, which changes in place before it is written.
  abbrev pub update_open_tx : Hash → CheckString → Bytes → Transaction → Storage → Storage
  update_open_tx h c d t s =
      let t' = rewrite_tx c d t in
      write_open_tx hash t' (record s { tx_mem_pool = insert h t' s.tx_mem_pool })

  abbrev pub update_closed_or_fail :
      CheckString → Bytes → Option Transaction → Storage → Option Storage
  update_closed_or_fail c d none s = none
  update_closed_or_fail c d (some t) s = some (write_closed_tx hash (rewrite_tx c d t) s)

  abbrev pub update_read :
      Hash → CheckString → Bytes → (opened closed : Option Transaction) → Storage → Option Storage
  update_read h c d (some t) closed s = some (update_open_tx h c d t s)
  update_read h c d none closed s = update_closed_or_fail c d closed s

  -- `none` is the error: there is no such transaction.
  unfoldable pub update_local_tx : Hash → CheckString → Bytes → Storage → Option Storage
  update_local_tx h c d s = update_read h c d (read_open_tx h s) (read_closed_tx h s) s

  abbrev pub or_same : Option Storage → Storage → Storage
  or_same none s = s
  or_same (some s') s = s'

  -- NrUpdates is a uint16.
  abbrev pub count_update : Option Block → Storage → Storage × Bool
  count_update none s = (s, false)
  count_update (some b) s = (
    write_closed_block (record b { nr_updates = (b.nr_updates + 1) % u16_mod })
        (delete_open_block b.hash s),
    true,
  )

  -- `false` is the error: the block is not found. The error of updateLocalTx is dropped.
  unfoldable pub handle_tx_update : UpdateTx → Storage → Storage × Bool
  handle_tx_update x s =
      let h = x.tx_to_update_hash in
      let s' = or_same (update_local_tx h x.tx_to_update_check_string x.tx_to_update_data s) s in
      count_update (read_block_by_tx_hash h s') s'

  -- The error of handleTxUpdate is dropped too.
  unfoldable pub add_update_tx : Block → UpdateTx → Storage → Block × Storage
  add_update_tx b x s = (
    record b { update_tx_data = b.update_tx_data ++ hash (update x) ∷ [] },
    (handle_tx_update x s).0,
  )
