-- ===== src/Updates/Rewrite.antt =====
-- What an update changes.
use bazo_miner.Prelude.{ℕ, ◌<◌, ◌≡◌, refl, ap, ◌∙◌, Option, none, some}
use bazo_miner.Ledger.Types.{Hash, Bytes, CheckString, FundsTx}
use bazo_miner.Vm.Encoding.{set_bytes}
use bazo_miner.Storage.{
  Storage, Transaction, funds, acc, update, config, stake, agg, read_open_tx, read_closed_tx,
  write_closed_tx, encoded,
}
use bazo_miner.Storage.Closed.{IsAlone, closed_map, put, write_closed_tx-refines}
use bazo_miner.Chameleon.{
  ChameleonHashParameters, chameleon_hash, generate_ch_collision, set_string,
}
use bazo_miner.Chameleon.Collision.{IsKeyed, generate_ch_collision-chameleon_hash}
use bazo_miner.Updates.{update_local_tx, rewrite_tx}
use bazo_miner.Updates.Hashes.{Contents, tx_hash, sha3_funds, number_of, hash_with}

rewrite-IsAlone :
    (c : CheckString) (d : Bytes) (t : Transaction) (h : Hash) (s : Storage)
    → IsAlone t h s
    → IsAlone (rewrite_tx c d t) h s
rewrite-IsAlone c d (funds x) h s alone = alone
rewrite-IsAlone c d (acc x) h s alone = alone
rewrite-IsAlone c d (update x) h s alone = alone
rewrite-IsAlone c d (config x) h s alone = alone
rewrite-IsAlone c d (stake x) h s alone = alone
rewrite-IsAlone c d (agg x) h s alone = alone

module _ (hash : Transaction → Hash) where
  -- A closed transaction whose new content keeps its hash is replaced under that hash.
  update_local_tx-closed :
      (t : Transaction) (c : CheckString) (d : Bytes) (h : Hash) (s : Storage)
      → hash (rewrite_tx c d t) ≡ h
      → IsAlone t h s
      → read_open_tx h s ≡ none
      → read_closed_tx h s ≡ some t
      → (s' : Storage) × (update_local_tx hash h c d s ≡ some s')
        × ((k : Hash) → closed_map s' k ≡ put h (encoded (rewrite_tx c d t)) (closed_map s) k)
  unfolding update_local_tx
  update_local_tx-closed t c d h s same alone not_open closed =
      let t' = rewrite_tx c d t in
      let alone' : IsAlone t' (hash t') s = rw same (rewrite-IsAlone c d t h s alone) in
      (
        write_closed_tx hash t' s,
        rw (not_open, closed) refl,
        λ k.
            (write_closed_tx-refines hash t' s alone' k).0
            ∙ ap (λ (j : Hash). put j (encoded t') (closed_map s) k) same,
      )

module _ (contents : Contents) where
  open contents use {sha256, parameters_of}

  -- A closed payment under its chameleon hash, with the parameters of its sender: when that hash
  -- spells a number below Q, the check string that GenerateChCollision finds for new data makes
  -- updateLocalTx store the payment with the new data under the same hash, and leave every other
  -- closed transaction as it is.
  pub update_local_tx-keeps_hash :
      (x : FundsTx) (parameters : ChameleonHashParameters) (p q g tk r z k : ℕ)
      (bytes new_data : Bytes) (s : Storage)
      → parameters_of x.from ≡ some parameters
      → IsKeyed parameters p q g tk
      → set_string x.check_string.r ≡ some r
      → set_string x.check_string.s ≡ some z
      → chameleon_hash sha256 parameters x.check_string (sha3_funds contents x) ≡ some bytes
      → set_bytes bytes < q
      → IsAlone (funds x) (set_bytes bytes) s
      → read_open_tx (set_bytes bytes) s ≡ none
      → read_closed_tx (set_bytes bytes) s ≡ some (funds x)
      → (found : CheckString) × (s' : Storage) × (generate_ch_collision sha256 k parameters
            x.check_string
            (sha3_funds contents x)
            (sha3_funds contents (record x { payload = new_data }))
          ≡ some found)
        × (update_local_tx (tx_hash contents) (set_bytes bytes) found new_data s ≡ some s')
        × ((j : Hash)
            → closed_map s' j
              ≡ put
                  (set_bytes bytes)
                  (funds (record x { payload = new_data; check_string = found }))
                  (closed_map s)
                  j)
  update_local_tx-keeps_hash x parameters p q g tk r z k bytes new_data s own keyed hr hz hashed
        below alone not_open closed =
      let (found, made, again) =
        generate_ch_collision-chameleon_hash sha256 parameters p q g tk r z x.check_string
          (sha3_funds contents x) (sha3_funds contents (record x { payload = new_data })) bytes k
          keyed hr hz hashed below in
      let x' = record x { payload = new_data; check_string = found } in
      let same : tx_hash contents (funds x') ≡ set_bytes bytes =
        ap
          (λ (o : Option ChameleonHashParameters).
            hash_with contents o found (sha3_funds contents x'))
          own
        ∙ ap (λ (o : Option Bytes). number_of contents o) again in
      let (s', done, all) =
        update_local_tx-closed (tx_hash contents) (funds x) found new_data (set_bytes bytes) s same
          alone not_open closed in
      (found, s', made, done, all)
