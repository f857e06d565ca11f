-- ===== src/Storage/Tests.antt =====
-- The theorems of the storage at a small one.
use bazo_miner.Prelude.{◌+◌, ◌≡◌, refl, true, none, some, [], ◌∷◌, arith}
use bazo_miner.Prelude.Assoc.{lookup}
use bazo_miner.Ledger.Types.{Hash, Block, FundsTx, new_block}
use bazo_miner.Storage.{
  Storage, Transaction, funds, acc, update, config, stake, agg, read_closed_tx, write_closed_tx,
  delete_closed_tx, write_to_received_stash, block_already_in_stash,
  update_blocks_to_blocks_without_tx, read_closed_block, read_closed_block_without_tx, empty_block,
}
use bazo_miner.Storage.Closed.{closed_map, put, drop_key, write_closed_tx-refines}
use bazo_miner.Storage.Stash.{IsStash, write_to_received_stash-IsStash}
use bazo_miner.Storage.Aggregation.{update_blocks-emptied}

abbrev payment : FundsTx
payment = record {
  amount = 5;
  fee = 1;
  tx_cnt = 0;
  from = 1;
  to = 2;
  aggregated = true;
  block = 40;
  sig1 = 0;
  sig2 = 0;
  check_string = record { r = []; s = [] };
  payload = [];
}

abbrev paid_block : Block
paid_block = record (new_block 8 3) {
  hash = 9;
  hash_without_tx = 10;
  nr_funds_tx = 1;
  funds_tx_data = 77 ∷ [];
}

abbrev account_block : Block
account_block = record (new_block 9 4) { hash = 11; nr_acc_tx = 1; acc_tx_data = 55 ∷ [] }

abbrev small_storage : Storage
small_storage = record {
  open_blocks = [];
  closed_blocks = (9, paid_block) ∷ [];
  closed_blocks_without_tx = [];
  last_closed_block = (9, paid_block) ∷ [];
  received_block_stash = paid_block ∷ [];
  tx_mem_pool = [];
  tx_invalid_mem_pool = [];
  txcnt_to_tx_map = [];
  closed_funds = (77, payment) ∷ [];
  closed_accs = [];
  closed_deletes = [];
  closed_configs = [];
  closed_stakes = [];
  closed_aggregations = [];
  blocks_by_tx_hash = [];
  funds_tx_before_aggregation = [];
  bootstrap_received = [];
}

-- A hash for the examples: one number for each type.
abbrev kind_hash : Transaction → Hash
kind_hash (funds x) = 70 + x.amount
kind_hash (acc x) = 50
kind_hash (update x) = 51
kind_hash (config x) = 52
kind_hash (stake x) = 53
kind_hash (agg x) = 54

write_closed_tx-refines_example :
    (closed_map (write_closed_tx kind_hash (funds payment) small_storage) 77
      ≡ put 75 (funds payment) (closed_map small_storage) 77)
    × (closed_map (delete_closed_tx kind_hash (funds payment) small_storage) 77
        ≡ drop_key 75 (closed_map small_storage) 77)
unfolding lookup
write_closed_tx-refines_example =
    write_closed_tx-refines kind_hash (funds payment) small_storage
      (refl, (refl, (refl, (refl, refl)))) 77

write_to_received_stash-IsStash_example :
    IsStash (write_to_received_stash account_block small_storage).received_block_stash
    × (block_already_in_stash
          (write_to_received_stash account_block small_storage).received_block_stash
          11
        ≡ true)
write_to_received_stash-IsStash_example =
    write_to_received_stash-IsStash account_block small_storage (omega arith, (refl, tt))

update_blocks-emptied_example :
    (s' : Storage) × (update_blocks_to_blocks_without_tx paid_block small_storage ≡ some s')
    × ((read_closed_block 9 s' ≡ none)
        × (read_closed_block_without_tx 10 s'
            ≡ some (record (empty_block paid_block) { aggregated = true })))
unfolding read_closed_tx lookup
update_blocks-emptied_example =
    update_blocks-emptied paid_block small_storage refl refl ((payment, refl, refl), tt) tt
