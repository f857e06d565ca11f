-- ===== src/Storage.antt =====
-- storage/read.go, storage/write.go, storage/delete.go and storage/update.go on the buckets and pools
-- of storage/storage.go. A bucket of the database and a Go map are association lists by hash, and the
-- database gives back the value that was encoded. The counters of transaction sizes are left out.
pub mod Closed
pub mod Stash
pub mod Aggregation
mod Tests
use bazo_miner.Prelude.{
  ℕ, zero, suc, ◌+◌, Bool, true, false, not, ◌&&◌, ◌||◌, Option, none, some, List, [], ◌∷◌, ◌++◌,
  length, map, ltb, ◌==◌, if◌then◌else◌,
}
use bazo_miner.Prelude.Assoc.{Assoc, lookup, insert}
use bazo_miner.Ledger.Types.{Hash, Block, FundsTx, AccTx, ConfigTx, StakeTx, AggTx, UpdateTx}

-- `protocol.Transaction` with the types that the switches tell apart.
pub data Transaction : Type 0 where
  funds : FundsTx → Transaction
  acc : AccTx → Transaction
  update : UpdateTx → Transaction
  config : ConfigTx → Transaction
  stake : StakeTx → Transaction
  agg : AggTx → Transaction

pub record Storage : Type 0 where
  pub open_blocks : Assoc Block
  pub closed_blocks : Assoc Block
  pub closed_blocks_without_tx : Assoc Block
  pub last_closed_block : Assoc Block
  pub received_block_stash : List Block
  pub tx_mem_pool : Assoc Transaction
  pub tx_invalid_mem_pool : Assoc Transaction
  pub txcnt_to_tx_map : Assoc (List Hash)
  pub closed_funds : Assoc FundsTx
  pub closed_accs : Assoc AccTx
  pub closed_deletes : Assoc UpdateTx
  pub closed_configs : Assoc ConfigTx
  pub closed_stakes : Assoc StakeTx
  pub closed_aggregations : Assoc AggTx
  pub blocks_by_tx_hash : Assoc Hash
  pub funds_tx_before_aggregation : List FundsTx
  pub bootstrap_received : Assoc Transaction

-- `AccTx.Encode` leaves out the contract and its variables.
abbrev pub encoded_acc : AccTx → AccTx
encoded_acc x = record x { contract = []; contract_variables = [] }

abbrev pub encoded : Transaction → Transaction
encoded (acc x) = acc (encoded_acc x)
encoded t = t

-- `b.Delete(k)`
unfoldable pub delete_key {ℓ} : {V : Type ℓ} → ℕ → Assoc V → Assoc V
delete_key k [] = []
delete_key k ((j, u) ∷ s) = let rest = delete_key k s in if k == j then rest else (j, u) ∷ rest

unfoldable pub read_open_block : Hash → Storage → Option Block
read_open_block h s = lookup h s.open_blocks

unfoldable pub read_closed_block : Hash → Storage → Option Block
read_closed_block h s = lookup h s.closed_blocks

unfoldable pub read_closed_block_without_tx : Hash → Storage → Option Block
read_closed_block_without_tx h s = lookup h s.closed_blocks_without_tx

-- `b.Cursor().First()`: the entry with the least key.
abbrev pub first_from : ℕ × Block → Assoc Block → Block
first_from (k, b) [] = b
first_from (k, b) ((j, c) ∷ s) = first_from (if ltb j k then (j, c) else (k, b)) s

abbrev pub read_last_closed_block : Storage → Option Block
read_last_closed_block s = elim s.last_closed_block [
  | [] ↦ none
  | (k, b) ∷ rest ↦ some (first_from (k, b) rest)
]

abbrev pub blocks_of : Assoc Block → List Block
blocks_of [] = []
blocks_of ((_, b) ∷ s) = b ∷ blocks_of s

-- `sort` orders by height.
abbrev pub read_all_closed_blocks_with_transactions :
    (List Block → List Block) → Storage → List Block
read_all_closed_blocks_with_transactions sort s = elim (read_last_closed_block s) [
  | none ↦ sort []
  | some _ ↦ sort (blocks_of s.closed_blocks)
]

abbrev pub read_all_closed_blocks : (List Block → List Block) → Storage → List Block
read_all_closed_blocks sort s = elim (read_last_closed_block s) [
  | none ↦ sort []
  | some _ ↦ sort (blocks_of s.closed_blocks ++ blocks_of s.closed_blocks_without_tx)
]

abbrev pub read_open_tx : Hash → Storage → Option Transaction
read_open_tx h s = lookup h s.tx_mem_pool

abbrev pub read_invalid_open_tx : Hash → Storage → Option Transaction
read_invalid_open_tx h s = lookup h s.tx_invalid_mem_pool

abbrev pub read_txcnt_to_tx : ℕ → Storage → List Hash
read_txcnt_to_tx n s = elim (lookup n s.txcnt_to_tx_map) [ none ↦ [] | some hs ↦ hs ]

abbrev pub transactions_of : Assoc Transaction → List Transaction
transactions_of [] = []
transactions_of ((_, t) ∷ s) = t ∷ transactions_of s

-- A Go map is read in the order of the association list.
abbrev pub read_all_open_txs : Storage → List Transaction
read_all_open_txs s = transactions_of s.tx_mem_pool

abbrev pub read_all_invalid_open_tx : Storage → List Transaction
read_all_invalid_open_tx s = transactions_of s.tx_invalid_mem_pool

abbrev pub write_funds_tx_before_aggregation : FundsTx → Storage → Storage
write_funds_tx_before_aggregation tx s = record s {
  funds_tx_before_aggregation = s.funds_tx_before_aggregation ++ tx ∷ [];
}

abbrev pub delete_all_funds_tx_before_aggregation : Storage → Storage
delete_all_funds_tx_before_aggregation s = record s { funds_tx_before_aggregation = [] }

abbrev pub write_block_hash_by_tx_hash : (tx_hash block_hash : Hash) → Storage → Storage
write_block_hash_by_tx_hash tx_hash block_hash s = record s {
  blocks_by_tx_hash = insert tx_hash block_hash s.blocks_by_tx_hash;
}

-- `copy` of nothing leaves the zero hash.
abbrev pub block_hash_of : Option Hash → Hash
block_hash_of none = 0
block_hash_of (some h) = h

abbrev pub first_found {ℓ} : {A : Type ℓ} → Option A → Option A → Option A
first_found none other = other
first_found (some a) other = some a

abbrev pub read_block_by_tx_hash : Hash → Storage → Option Block
read_block_by_tx_hash tx_hash s =
    let h = block_hash_of (lookup tx_hash s.blocks_by_tx_hash) in
    first_found (lookup h s.open_blocks) (lookup h s.closed_blocks)

-- One bucket, and the next ones when it has no entry.
abbrev pub found_or :
    {V : Type 0} → (V → Transaction) → Option V → Option Transaction → Option Transaction
found_or f none rest = rest
found_or f (some v) rest = some (f v)

unfoldable pub read_closed_tx : Hash → Storage → Option Transaction
read_closed_tx h s = found_or funds (lookup h s.closed_funds) (
    found_or acc (lookup h s.closed_accs) (
      found_or update (lookup h s.closed_deletes) (
        found_or config (lookup h s.closed_configs) (
          found_or stake (lookup h s.closed_stakes)
            (found_or agg (lookup h s.closed_aggregations) none)))))

unfoldable pub write_open_block : Block → Storage → Storage
write_open_block b s = record s { open_blocks = insert b.hash b s.open_blocks }

unfoldable pub write_closed_block : Block → Storage → Storage
write_closed_block b s = record s { closed_blocks = insert b.hash b s.closed_blocks }

unfoldable pub write_closed_block_without_tx : Block → Storage → Storage
write_closed_block_without_tx b s = record s {
  closed_blocks_without_tx = insert b.hash_without_tx b s.closed_blocks_without_tx;
}

abbrev pub write_last_closed_block : Block → Storage → Storage
write_last_closed_block b s = record s { last_closed_block = insert b.hash b s.last_closed_block }

abbrev pub delete_open_block : Hash → Storage → Storage
delete_open_block h s = record s { open_blocks = delete_key h s.open_blocks }

unfoldable pub delete_closed_block : Hash → Storage → Storage
delete_closed_block h s = record s { closed_blocks = delete_key h s.closed_blocks }

unfoldable pub delete_closed_block_without_tx : Hash → Storage → Storage
delete_closed_block_without_tx h s = record s {
  closed_blocks_without_tx = delete_key h s.closed_blocks_without_tx;
}

abbrev pub delete_last_closed_block : Hash → Storage → Storage
delete_last_closed_block h s = record s { last_closed_block = delete_key h s.last_closed_block }

abbrev pub delete_all_last_closed_block : Storage → Storage
delete_all_last_closed_block s = record s { last_closed_block = [] }

abbrev pub block_already_in_stash : List Block → Hash → Bool
block_already_in_stash [] h = false
block_already_in_stash (b ∷ bs) h = b.hash == h || block_already_in_stash bs h

-- `ReceivedBlockStash[1:]`, when there are more than 100 blocks.
abbrev pub trim_stash : List Block → List Block
trim_stash [] = []
trim_stash (b ∷ bs) = if ltb 100 (length (b ∷ bs)) then bs else b ∷ bs

unfoldable pub write_to_received_stash : Block → Storage → Storage
write_to_received_stash b s =
    if block_already_in_stash s.received_block_stash b.hash
    then s
    else record s { received_block_stash = trim_stash (s.received_block_stash ++ b ∷ []) }

-- `hash` is `Transaction.Hash()`.
module _ (hash : Transaction → Hash) where
  abbrev pub write_txcnt_to_tx : FundsTx → Storage → Storage
  write_txcnt_to_tx tx s = record s {
    txcnt_to_tx_map =
        insert tx.tx_cnt (read_txcnt_to_tx tx.tx_cnt s ++ hash (funds tx) ∷ []) s.txcnt_to_tx_map;
  }

  abbrev pub count_tx : Transaction → Storage → Storage
  count_tx (funds tx) s = write_txcnt_to_tx tx s
  count_tx _ s = s

  abbrev pub write_open_tx : Transaction → Storage → Storage
  write_open_tx t s = count_tx t (record s { tx_mem_pool = insert (hash t) t s.tx_mem_pool })

  abbrev pub write_invalid_open_tx : Transaction → Storage → Storage
  write_invalid_open_tx t s = record s {
    tx_invalid_mem_pool = insert (hash t) t s.tx_invalid_mem_pool;
  }

  abbrev pub write_bootstrap_tx_received : Transaction → Storage → Storage
  write_bootstrap_tx_received t s = record s {
    bootstrap_received = insert (hash t) t s.bootstrap_received;
  }

  abbrev pub delete_open_tx : Transaction → Storage → Storage
  delete_open_tx t s = record s { tx_mem_pool = delete_key (hash t) s.tx_mem_pool }

  abbrev pub delete_invalid_open_tx : Transaction → Storage → Storage
  delete_invalid_open_tx t s = record s {
    tx_invalid_mem_pool = delete_key (hash t) s.tx_invalid_mem_pool;
  }

  unfoldable pub write_closed_tx : Transaction → Storage → Storage
  write_closed_tx (funds x) s = record s { closed_funds = insert (hash (funds x)) x s.closed_funds }
  write_closed_tx (acc x) s = record s {
    closed_accs = insert (hash (acc x)) (encoded_acc x) s.closed_accs;
  }
  write_closed_tx (update x) s = record s {
    closed_deletes = insert (hash (update x)) x s.closed_deletes;
  }
  write_closed_tx (config x) s = record s {
    closed_configs = insert (hash (config x)) x s.closed_configs;
  }
  write_closed_tx (stake x) s = record s {
    closed_stakes = insert (hash (stake x)) x s.closed_stakes;
  }
  write_closed_tx (agg x) s = record s {
    closed_aggregations = insert (hash (agg x)) x s.closed_aggregations;
  }

  unfoldable pub delete_closed_tx : Transaction → Storage → Storage
  delete_closed_tx (funds x) s = record s {
    closed_funds = delete_key (hash (funds x)) s.closed_funds;
  }
  delete_closed_tx (acc x) s = record s { closed_accs = delete_key (hash (acc x)) s.closed_accs }
  delete_closed_tx (update x) s = record s {
    closed_deletes = delete_key (hash (update x)) s.closed_deletes;
  }
  delete_closed_tx (config x) s = record s {
    closed_configs = delete_key (hash (config x)) s.closed_configs;
  }
  delete_closed_tx (stake x) s = record s {
    closed_stakes = delete_key (hash (stake x)) s.closed_stakes;
  }
  delete_closed_tx (agg x) s = record s {
    closed_aggregations = delete_key (hash (agg x)) s.closed_aggregations;
  }

-- A result, or the panic of a failed type assertion.
abbrev pub Checked : Type 0 → Type 0
Checked A = Option A

-- The loops of `BlockReadyToAggregate`. `tx.(*protocol.FundsTx)` panics on another type: none.
abbrev pub funds_aggregated : Option Transaction → Checked Bool
funds_aggregated none = some false
funds_aggregated (some (funds x)) = some x.aggregated
funds_aggregated (some _) = none

abbrev pub agg_aggregated : Option Transaction → Checked Bool
agg_aggregated none = some false
agg_aggregated (some (agg x)) = some x.aggregated
agg_aggregated (some _) = none

abbrev pub and_then : Checked Bool → Checked Bool → Checked Bool
and_then none rest = none
and_then (some false) rest = some false
and_then (some true) rest = rest

unfoldable pub all_closed : (Option Transaction → Checked Bool) → List Hash → Storage → Checked Bool
all_closed f [] s = some true
all_closed f (h ∷ hs) s = and_then (f (read_closed_tx h s)) (all_closed f hs s)

abbrev pub has_no_tx : Block → Bool
has_no_tx b =
    b.nr_agg_tx == 0
    && (b.nr_stake_tx == 0 && (b.nr_funds_tx == 0 && (b.nr_acc_tx == 0 && b.nr_config_tx == 0)))

abbrev pub has_other_tx : Block → Bool
has_other_tx b = ltb 0 b.nr_stake_tx && (ltb 0 b.nr_acc_tx && ltb 0 b.nr_config_tx)

abbrev pub empty_block : Block → Block
empty_block b = record b { funds_tx_data = []; nr_funds_tx = 0; agg_tx_data = []; nr_agg_tx = 0 }

abbrev pub empty_if : Checked Bool → Block → Checked (Bool × Block)
empty_if none b = none
empty_if (some false) b = some (false, b)
empty_if (some true) b = some (true, empty_block b)

-- The answer, and the block as the call leaves it.
unfoldable pub block_ready_to_aggregate : Block → Storage → Checked (Bool × Block)
block_ready_to_aggregate b s =
    if has_no_tx b
    then some (true, b)
    else if has_other_tx b
    then some (false, b)
    else empty_if
        (and_then (all_closed funds_aggregated b.funds_tx_data s)
          (all_closed agg_aggregated b.agg_tx_data s))
        b

abbrev pub store_emptied : Checked (Bool × Block) → Storage → Checked Storage
store_emptied none s = none
store_emptied (some (false, b)) s = some s
store_emptied (some (true, b)) s =
    some (
      delete_closed_block b.hash (write_closed_block_without_tx (record b { aggregated = true }) s))

unfoldable pub update_blocks_to_blocks_without_tx : Block → Storage → Checked Storage
update_blocks_to_blocks_without_tx b s = store_emptied (block_ready_to_aggregate b s) s
