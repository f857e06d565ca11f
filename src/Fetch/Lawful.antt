-- ===== src/Fetch/Lawful.antt =====
-- The five functions as instances of the loop.
use bazo_miner.Prelude.{
  ℕ, ◌≡◌, inl, inr, refl, sym, ap, ◌∙◌, Bool, true, false, Option, none, some, List, [], ◌∷◌, arith,
  ◌==◌, Bool-cases,
}
use bazo_miner.Prelude.Assoc.{lookup, insert, lookup-insert_self}
use bazo_miner.Ledger.Types.{Hash, FundsTx, AccTx, ConfigTx, StakeTx, UpdateTx}
use bazo_miner.Storage.{
  Storage, Transaction, funds, acc, update, config, stake, agg, read_closed_tx,
  read_invalid_open_tx, write_open_tx,
}
use bazo_miner.Storage.Closed.{lookup-insert_ne, closed-write_open_tx}
use bazo_miner.Fetch.Kinds.{
  Network, from_stash, acc_kind, update_kind, config_kind, stake_kind, funds_kind,
  find_funds_in_stash, if_verified, cast_acc, cast_funds, cast_config, cast_stake, cast_update,
  write_received,
}
use bazo_miner.Fetch.Found.{IsFiled, IsLawful}

pub cast_acc_same : (t : Transaction) (x : AccTx) → cast_acc t ≡ some x → acc x ≡ t
cast_acc_same (funds y) x e = cc
cast_acc_same (acc y) x e = cc
cast_acc_same (update y) x e = cc
cast_acc_same (config y) x e = cc
cast_acc_same (stake y) x e = cc
cast_acc_same (agg y) x e = cc

pub cast_config_same : (t : Transaction) (x : ConfigTx) → cast_config t ≡ some x → config x ≡ t
cast_config_same (funds y) x e = cc
cast_config_same (acc y) x e = cc
cast_config_same (update y) x e = cc
cast_config_same (config y) x e = cc
cast_config_same (stake y) x e = cc
cast_config_same (agg y) x e = cc

pub cast_stake_same : (t : Transaction) (x : StakeTx) → cast_stake t ≡ some x → stake x ≡ t
cast_stake_same (funds y) x e = cc
cast_stake_same (acc y) x e = cc
cast_stake_same (update y) x e = cc
cast_stake_same (config y) x e = cc
cast_stake_same (stake y) x e = cc
cast_stake_same (agg y) x e = cc

cast_update_same : (t : Transaction) (x : UpdateTx) → cast_update t ≡ some x → update x ≡ t
cast_update_same (funds y) x e = cc
cast_update_same (acc y) x e = cc
cast_update_same (update y) x e = cc
cast_update_same (config y) x e = cc
cast_update_same (stake y) x e = cc
cast_update_same (agg y) x e = cc

pub cast_funds_same : (t : Transaction) (x : FundsTx) → cast_funds t ≡ some x → funds x ≡ t
cast_funds_same (funds y) x e = cc
cast_funds_same (acc y) x e = cc
cast_funds_same (update y) x e = cc
cast_funds_same (config y) x e = cc
cast_funds_same (stake y) x e = cc
cast_funds_same (agg y) x e = cc

module _ (hash : Transaction → Hash) where
  open_write :
      (t : Transaction) (s : Storage)
      → ((write_open_tx hash t s).tx_mem_pool ≡ insert (hash t) t s.tx_mem_pool)
        × ((write_open_tx hash t s).tx_invalid_mem_pool ≡ s.tx_invalid_mem_pool)
  open_write (funds x) s = (refl, refl)
  open_write (acc x) s = (refl, refl)
  open_write (update x) s = (refl, refl)
  open_write (config x) s = (refl, refl)
  open_write (stake x) s = (refl, refl)
  open_write (agg x) s = (refl, refl)

  write_open_tx-IsFiled :
      (t : Transaction) (s : Storage) → IsFiled hash s → IsFiled hash (write_open_tx hash t s)
  write_open_tx-IsFiled t s filed =
      let (pool, invalid) = open_write t s in
      record {
        open_filed = λ h u e.
            let e' : lookup h (insert (hash t) t s.tx_mem_pool) ≡ some u =
              ap (lookup h) (sym pool) ∙ e in
            elim (Bool-cases (h == hash t)) [
              | inl z ↦
                  let k : h ≡ hash t = ground arith in
                  let same : some t ≡ some u =
                    sym (lookup-insert_self (hash t) t s.tx_mem_pool)
                    ∙ ap (λ (j : ℕ). lookup j (insert (hash t) t s.tx_mem_pool)) (sym k)
                    ∙ e' in
                  cc
              | inr z ↦
                  filed.open_filed h u (sym (lookup-insert_ne h (hash t) t s.tx_mem_pool z) ∙ e')
            ];
        invalid_filed = λ h u e. filed.invalid_filed h u (ap (lookup h) (sym invalid) ∙ e);
        closed_filed = λ h u e. filed.closed_filed h u (sym (closed-write_open_tx hash t s h) ∙ e);
      }

  module _ (network : Network) where
    pub acc-IsLawful : IsLawful hash (acc_kind hash network)
    acc-IsLawful = record {
      cast_same = cast_acc_same;
      receive_filed = λ x s f. f;
      stash_found = λ h xs x e. absurd (cc);
      invalid_read = λ h s t e. absurd (cc);
    }

    pub config-IsLawful : IsLawful hash (config_kind hash network)
    config-IsLawful = record {
      cast_same = cast_config_same;
      receive_filed = λ x s f. f;
      stash_found = λ h xs x e. absurd (cc);
      invalid_read = λ h s t e. absurd (cc);
    }

    pub stake-IsLawful : IsLawful hash (stake_kind hash network)
    stake-IsLawful = record {
      cast_same = cast_stake_same;
      receive_filed = λ x s f. f;
      stash_found = λ h xs x e. absurd (cc);
      invalid_read = λ h s t e. absurd (cc);
    }

    pub update-IsLawful : IsLawful hash (update_kind hash network)
    update-IsLawful = record {
      cast_same = cast_update_same;
      receive_filed = λ x s f. f;
      stash_found = λ h xs x e. absurd (cc);
      invalid_read = λ h s t e. absurd (cc);
    }

    in_stash :
        (h : Hash) (xs : List FundsTx) (x : FundsTx)
        → find_funds_in_stash hash network h xs ≡ from_stash x
        → hash (funds x) ≡ h
    in_stash h [] x e = absurd (cc)
    in_stash h (y ∷ ys) x e = elim (Bool-cases (hash (funds y) == h)) [
      | inl z ↦ let e' = rw z at e in let s : y ≡ x = cc in rw (← s) (ground arith)
      | inr z ↦ in_stash h ys x (rw z at e)
    ]

    was_invalid :
        (verified : Transaction → Bool) (o : Option Transaction) (t : Transaction)
        → if_verified hash network verified o ≡ some t
        → o ≡ some t
    was_invalid verified none t e = absurd (cc)
    was_invalid verified (some u) t e = elim (Bool-cases (verified u)) [
      | inl z ↦ rw z at e
      | inr z ↦ absurd (let e' = rw z at e in cc)
    ]

    write_received-IsFiled :
        (initial : Bool) (x : FundsTx) (s : Storage)
        → IsFiled hash s
        → IsFiled hash (write_received hash network initial x s)
    write_received-IsFiled true x s f =
        let f' = write_open_tx-IsFiled (funds x) s f in
        record {
          open_filed = f'.open_filed;
          invalid_filed = f'.invalid_filed;
          closed_filed = unfold read_closed_tx in f'.closed_filed;
        }
    write_received-IsFiled false x s f = write_open_tx-IsFiled (funds x) s f

    pub funds-IsLawful :
        (initial : Bool) (verified : Transaction → Bool)
        → IsLawful hash (funds_kind hash network initial verified)
    funds-IsLawful initial verified = record {
      cast_same = cast_funds_same;
      receive_filed = write_received-IsFiled initial;
      stash_found = in_stash;
      invalid_read = λ h s t e. was_invalid verified (read_invalid_open_tx h s) t e;
    }
