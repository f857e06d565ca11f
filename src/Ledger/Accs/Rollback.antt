-- ===== src/Ledger/Accs/Rollback.antt =====
-- `accStateChangeRollback` after `accStateChange`.
use bazo_miner.Prelude.{ℕ, ◌≤◌, ◌≡◌, none, some, [], ◌∷◌, arith, inl, inr, Bool-cases, ◌==◌}
use bazo_miner.Prelude.Assoc.{Assoc, lookup, insert, erase, lookup-insert_self}
use bazo_miner.Ledger.Types.{Account, World, AccTx, Hash}
use bazo_miner.Ledger.Monad.{ok}
use bazo_miner.Ledger.Accs.{acc_step, acc_rollback_step, account_of, add_account}

erase-insert {ℓ} :
    {V : Type ℓ} (k : ℕ) (v : V) (s : Assoc V) → lookup k s ≡ none → erase k (insert k v s) ≡ s
unfolding erase insert lookup
erase-insert k v [] h = ground arith
erase-insert k v ((j, u) ∷ s) h = ground (arith, erase-insert k v s)

module _ (hash : ℕ → Hash) (tx : AccTx) (w : World) where
  -- An account that is new, and a new root account whose key is new too, is taken out again: the
  -- state and the root keys are what they were.
  pub acc_step-rollback :
      tx.header ≤ 1
      → lookup (hash tx.pub_key) w.state ≡ none
      → lookup (hash tx.pub_key) w.root_keys ≡ none
      → (w' : World) × (acc_step hash tx w ≡ (ok tt, w'))
        × ((acc_rollback_step hash tx w').0 ≡ ok tt)
        × ((acc_rollback_step hash tx w').1.state ≡ w.state)
        × ((acc_rollback_step hash tx w').1.root_keys ≡ w.root_keys)
  unfolding acc_step acc_rollback_step
  acc_step-rollback h e k =
      let w₁ = add_account (hash tx.pub_key) tx w in
      let found : lookup (hash tx.pub_key) w₁.state ≡ some (account_of tx) =
        lookup-insert_self (hash tx.pub_key) (account_of tx) w.state in
      let back : erase (hash tx.pub_key) w₁.state ≡ w.state =
        erase-insert (hash tx.pub_key) (account_of tx) w.state e in
      let keys : erase (hash tx.pub_key) (insert (hash tx.pub_key) (hash tx.pub_key) w.root_keys)
          ≡ w.root_keys =
        erase-insert (hash tx.pub_key) (hash tx.pub_key) w.root_keys k in
      elim (Bool-cases (tx.header == 1)) [
        | inl one ↦ (
          record w₁ { root_keys = insert (hash tx.pub_key) (hash tx.pub_key) w₁.root_keys },
          ground arith,
          ground arith,
          ground arith,
          ground arith,
        )
        | inr other ↦ (w₁, ground arith, ground arith, ground arith, ground arith)
      ]

  -- A transaction that takes a root key away (header 2) keeps the account, and its rollback deletes
  -- the account from the state.
  pub root_removal_rollback_deletes :
      {a : Account}
      → tx.header ≡ 2
      → lookup (hash tx.pub_key) w.state ≡ some a
      → (w' : World) × (acc_step hash tx w ≡ (ok tt, w'))
        × (lookup (hash tx.pub_key) w'.state ≡ some a)
        × ((acc_rollback_step hash tx w').0 ≡ ok tt)
        × ((acc_rollback_step hash tx w').1.state ≡ erase (hash tx.pub_key) w.state)
  unfolding acc_step acc_rollback_step
  root_removal_rollback_deletes {a} h e = (
    record w { root_keys = erase (hash tx.pub_key) w.root_keys },
    ground arith,
    e,
    ground arith,
    ground arith,
  )
