-- ===== src/Storage/Closed.antt =====
-- The six buckets of closed transactions as one map from hashes to transactions.
use bazo_miner.Prelude.{
  ℕ, ◌≡◌, refl, false, Option, none, some, [], ◌∷◌, arith, ◌==◌, if◌then◌else◌, Bool-cases, inl,
  inr, ==_refl,
}
use bazo_miner.Prelude.Assoc.{Assoc, lookup, insert, lookup-insert_self}
use bazo_miner.Ledger.Types.{Hash}
use bazo_miner.Storage.{
  Storage, Transaction, funds, acc, update, config, stake, agg, read_closed_tx, write_closed_tx,
  delete_closed_tx, delete_key, encoded, encoded_acc, write_open_tx,
}

module _ {V : Type 0} where
  pub lookup-insert_ne :
      (j k : ℕ) (v : V) (s : Assoc V) → (j == k) ≡ false → lookup j (insert k v s) ≡ lookup j s
  unfolding lookup insert
  lookup-insert_ne j k v [] h = ground arith
  lookup-insert_ne j k v ((i, u) ∷ s) h = ground (arith, lookup-insert_ne j k v s h)

  pub lookup-delete_key_self : (k : ℕ) (s : Assoc V) → lookup k (delete_key k s) ≡ none
  unfolding lookup delete_key
  lookup-delete_key_self k [] = refl
  lookup-delete_key_self k ((i, u) ∷ s) = ground (arith, lookup-delete_key_self k s)

  pub lookup-delete_key_ne :
      (j k : ℕ) (s : Assoc V) → (j == k) ≡ false → lookup j (delete_key k s) ≡ lookup j s
  unfolding lookup delete_key
  lookup-delete_key_ne j k [] h = refl
  lookup-delete_key_ne j k ((i, u) ∷ s) h = ground (arith, lookup-delete_key_ne j k s h)

-- The abstract map: `m[h] = t` and `delete(m, h)`.
abbrev pub put : Hash → Transaction → (Hash → Option Transaction) → Hash → Option Transaction
put h t m k = if k == h then some t else m k

abbrev pub drop_key : Hash → (Hash → Option Transaction) → Hash → Option Transaction
drop_key h m k = if k == h then none else m k

abbrev pub closed_map : Storage → Hash → Option Transaction
closed_map s h = read_closed_tx h s

-- The hash is in no bucket of another type.
abbrev pub NoFunds : Hash → Storage → Type 0
NoFunds h s = lookup h s.closed_funds ≡ none

abbrev pub NoAccs : Hash → Storage → Type 0
NoAccs h s = lookup h s.closed_accs ≡ none

abbrev pub NoDeletes : Hash → Storage → Type 0
NoDeletes h s = lookup h s.closed_deletes ≡ none

abbrev pub NoConfigs : Hash → Storage → Type 0
NoConfigs h s = lookup h s.closed_configs ≡ none

abbrev pub NoStakes : Hash → Storage → Type 0
NoStakes h s = lookup h s.closed_stakes ≡ none

abbrev pub NoAggs : Hash → Storage → Type 0
NoAggs h s = lookup h s.closed_aggregations ≡ none

abbrev pub IsAlone : Transaction → Hash → Storage → Type 0
IsAlone (funds _) h s = NoAccs h s × (NoDeletes h s × (NoConfigs h s × (NoStakes h s × NoAggs h s)))
IsAlone (acc _) h s = NoFunds h s × (NoDeletes h s × (NoConfigs h s × (NoStakes h s × NoAggs h s)))
IsAlone (update _) h s = NoFunds h s × (NoAccs h s × (NoConfigs h s × (NoStakes h s × NoAggs h s)))
IsAlone (config _) h s = NoFunds h s × (NoAccs h s × (NoDeletes h s × (NoStakes h s × NoAggs h s)))
IsAlone (stake _) h s = NoFunds h s × (NoAccs h s × (NoDeletes h s × (NoConfigs h s × NoAggs h s)))
IsAlone (agg _) h s = NoFunds h s × (NoAccs h s × (NoDeletes h s × (NoConfigs h s × NoStakes h s)))

module _ (hash : Transaction → Hash) where
  read_written :
      (t : Transaction) (s : Storage)
      → IsAlone t (hash t) s
      → read_closed_tx (hash t) (write_closed_tx hash t s) ≡ some (encoded t)
  unfolding read_closed_tx write_closed_tx
  read_written (funds x) s h = rw (lookup-insert_self (hash (funds x)) x s.closed_funds)
  read_written (acc x) s (a, _) =
      rw (a, lookup-insert_self (hash (acc x)) (encoded_acc x) s.closed_accs)
  read_written (update x) s (a, (b, _)) =
      rw (a, b, lookup-insert_self (hash (update x)) x s.closed_deletes)
  read_written (config x) s (a, (b, (c, _))) =
      rw (a, b, c, lookup-insert_self (hash (config x)) x s.closed_configs)
  read_written (stake x) s (a, (b, (c, (d, _)))) =
      rw (a, b, c, d, lookup-insert_self (hash (stake x)) x s.closed_stakes)
  read_written (agg x) s (a, (b, (c, (d, e)))) =
      rw (a, b, c, d, e, lookup-insert_self (hash (agg x)) x s.closed_aggregations)

  read_other :
      (t : Transaction) (s : Storage) (k : Hash)
      → (k == hash t) ≡ false
      → read_closed_tx k (write_closed_tx hash t s) ≡ read_closed_tx k s
  unfolding read_closed_tx write_closed_tx
  read_other (funds x) s k n = rw (lookup-insert_ne k (hash (funds x)) x s.closed_funds n)
  read_other (acc x) s k n = rw (lookup-insert_ne k (hash (acc x)) (encoded_acc x) s.closed_accs n)
  read_other (update x) s k n = rw (lookup-insert_ne k (hash (update x)) x s.closed_deletes n)
  read_other (config x) s k n = rw (lookup-insert_ne k (hash (config x)) x s.closed_configs n)
  read_other (stake x) s k n = rw (lookup-insert_ne k (hash (stake x)) x s.closed_stakes n)
  read_other (agg x) s k n = rw (lookup-insert_ne k (hash (agg x)) x s.closed_aggregations n)

  read_deleted :
      (t : Transaction) (s : Storage)
      → IsAlone t (hash t) s
      → read_closed_tx (hash t) (delete_closed_tx hash t s) ≡ none
  unfolding read_closed_tx delete_closed_tx
  read_deleted (funds x) s (a, (b, (c, (d, e)))) =
      rw (lookup-delete_key_self (hash (funds x)) s.closed_funds, a, b, c, d, e)
  read_deleted (acc x) s (a, (b, (c, (d, e)))) =
      rw (lookup-delete_key_self (hash (acc x)) s.closed_accs, a, b, c, d, e)
  read_deleted (update x) s (a, (b, (c, (d, e)))) =
      rw (lookup-delete_key_self (hash (update x)) s.closed_deletes, a, b, c, d, e)
  read_deleted (config x) s (a, (b, (c, (d, e)))) =
      rw (lookup-delete_key_self (hash (config x)) s.closed_configs, a, b, c, d, e)
  read_deleted (stake x) s (a, (b, (c, (d, e)))) =
      rw (lookup-delete_key_self (hash (stake x)) s.closed_stakes, a, b, c, d, e)
  read_deleted (agg x) s (a, (b, (c, (d, e)))) =
      rw (lookup-delete_key_self (hash (agg x)) s.closed_aggregations, a, b, c, d, e)

  kept_other :
      (t : Transaction) (s : Storage) (k : Hash)
      → (k == hash t) ≡ false
      → read_closed_tx k (delete_closed_tx hash t s) ≡ read_closed_tx k s
  unfolding read_closed_tx delete_closed_tx
  kept_other (funds x) s k n = rw (lookup-delete_key_ne k (hash (funds x)) s.closed_funds n)
  kept_other (acc x) s k n = rw (lookup-delete_key_ne k (hash (acc x)) s.closed_accs n)
  kept_other (update x) s k n = rw (lookup-delete_key_ne k (hash (update x)) s.closed_deletes n)
  kept_other (config x) s k n = rw (lookup-delete_key_ne k (hash (config x)) s.closed_configs n)
  kept_other (stake x) s k n = rw (lookup-delete_key_ne k (hash (stake x)) s.closed_stakes n)
  kept_other (agg x) s k n = rw (lookup-delete_key_ne k (hash (agg x)) s.closed_aggregations n)

  -- An open transaction is in no bucket of closed ones.
  pub closed-write_open_tx :
      (t : Transaction) (s : Storage) (k : Hash)
      → read_closed_tx k (write_open_tx hash t s) ≡ read_closed_tx k s
  unfolding read_closed_tx
  closed-write_open_tx (funds x) s k = refl
  closed-write_open_tx (acc x) s k = refl
  closed-write_open_tx (update x) s k = refl
  closed-write_open_tx (config x) s k = refl
  closed-write_open_tx (stake x) s k = refl
  closed-write_open_tx (agg x) s k = refl

  -- For a transaction whose hash is in no bucket of another type, `WriteClosedTx` is `m[hash] = tx`,
  -- with tx as it is encoded, and `DeleteClosedTx` is `delete(m, hash)` on the map that `ReadClosedTx` reads, at every hash.
  pub write_closed_tx-refines :
      (t : Transaction) (s : Storage)
      → IsAlone t (hash t) s
      → (k : Hash)
      → (closed_map (write_closed_tx hash t s) k ≡ put (hash t) (encoded t) (closed_map s) k)
        × (closed_map (delete_closed_tx hash t s) k ≡ drop_key (hash t) (closed_map s) k)
  write_closed_tx-refines t s h k = elim (Bool-cases (k == hash t)) [
    | inl e ↦
        let same : k ≡ hash t = ground arith in
        (
          rw (same, ==_refl (hash t), read_written t s h),
          rw (same, ==_refl (hash t), read_deleted t s h),
        )
    | inr e ↦ (rw (e, read_other t s k e), rw (e, kept_other t s k e))
  ]
