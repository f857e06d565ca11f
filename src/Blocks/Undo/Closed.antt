-- ===== src/Blocks/Undo/Closed.antt =====
-- A block of payments that postValidate has closed is read back by preValidateRollback.
use bazo_miner.Prelude.{◌≡◌, refl, ap, ◌∙◌, false, some, List, [], ◌∷◌, map, ◌==◌}
use bazo_miner.Prelude.Assoc.{lookup, insert, lookup-insert_self}
use bazo_miner.Ledger.Types.{Hash, Block, FundsTx}
use bazo_miner.Storage.{Storage, Transaction, funds, read_closed_tx, write_closed_tx}
use bazo_miner.Storage.Closed.{lookup-insert_ne}
use bazo_miner.Blocks.{BlockData}
use bazo_miner.Blocks.Closing.{each, close_funds_tx, close_txs}
use bazo_miner.Blocks.Undo.{found, pre_validate_rollback}
use bazo_miner.Blocks.Undo.Read.{read_data, AreClosed, pre_validate_rollback-IsReadBack}

abbrev pub data_of : Block → List FundsTx → BlockData
data_of b xs = read_data b [] xs [] [] []

abbrev pub IsNotIn : Hash → List Hash → Type 0
IsNotIn h [] = Unit
IsNotIn h (k ∷ ks) = ((h == k) ≡ false) × IsNotIn h ks

abbrev pub AreDistinct : List Hash → Type 0
AreDistinct [] = Unit
AreDistinct (h ∷ hs) = IsNotIn h hs × AreDistinct hs

module _ (hash : Transaction → Hash) (sort : List Block → List Block) where
  abbrev pub hashes : List FundsTx → List Hash
  hashes xs = map (λ x. hash (funds x)) xs

  close-funds :
      (h : Hash) (x : FundsTx) (s : Storage)
      → (close_funds_tx hash sort h x s).closed_funds ≡ insert (hash (funds x)) x s.closed_funds
  unfolding write_closed_tx
  close-funds h x s = refl

  each-kept :
      (h j : Hash) (xs : List FundsTx) (s : Storage)
      → IsNotIn j (hashes xs)
      → lookup j (each (close_funds_tx hash sort h) xs s).closed_funds ≡ lookup j s.closed_funds
  each-kept h j [] s n = refl
  each-kept h j (x ∷ xs) s (ne, n) =
      each-kept h j xs (close_funds_tx hash sort h x s) n
      ∙ ap (lookup j) (close-funds h x s)
      ∙ lookup-insert_ne j (hash (funds x)) x s.closed_funds ne

  read-funds :
      (h : Hash) (x : FundsTx) (s : Storage)
      → lookup h s.closed_funds ≡ some x
      → read_closed_tx h s ≡ some (funds x)
  unfolding read_closed_tx
  read-funds h x s e = rw e refl

  each-AreClosed :
      (h : Hash) (xs : List FundsTx) (s : Storage)
      → AreDistinct (hashes xs)
      → AreClosed funds (each (close_funds_tx hash sort h) xs s) (hashes xs) xs
  each-AreClosed h [] s d = tt
  each-AreClosed h (x ∷ xs) s (n, d) =
      let s' = close_funds_tx hash sort h x s in
      let k = hash (funds x) in
      (
        read-funds k x (each (close_funds_tx hash sort h) xs s') (
            each-kept h k xs s' n
            ∙ ap (lookup k) (close-funds h x s)
            ∙ lookup-insert_self k x s.closed_funds),
        each-AreClosed h xs s' d,
      )

  -- A block that lists the hashes of payments, all different, and nothing else: once postValidate has
  -- closed the payments, preValidateRollback finds them, unchanged and in their order, whatever else
  -- is stored.
  pub close_txs-pre_validate_rollback :
      (b : Block) (xs : List FundsTx) (s : Storage)
      → AreDistinct (hashes xs)
      → b.funds_tx_data ≡ hashes xs
      → (b.acc_tx_data ≡ [])
        × (b.config_tx_data ≡ [])
        × (b.stake_tx_data ≡ [])
        × (b.agg_tx_data ≡ [])
      → pre_validate_rollback b (close_txs hash sort false (data_of b xs) s) ≡ found (data_of b xs)
  close_txs-pre_validate_rollback b xs s distinct listed (no_accs, no_configs, no_stakes, no_aggs) =
      let s' = close_txs hash sort false (data_of b xs) s in
      (pre_validate_rollback-IsReadBack b s' (data_of b xs)).1 (record {
        accs = rw no_accs tt;
        payments = rw listed (each-AreClosed b.hash_without_tx xs s distinct);
        configs = rw no_configs tt;
        stakes = rw no_stakes tt;
        aggs = rw no_aggs tt;
        not_read = (refl, refl);
        same_block = refl;
      })
