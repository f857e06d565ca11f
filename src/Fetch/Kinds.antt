-- ===== src/Fetch/Kinds.antt =====
-- The loop that fetchAccTxData, fetchFundsTxData, fetchConfigTxData, fetchStakeTxData and
-- fetchUpdateTxData share, and where they differ.
use bazo_miner.Prelude.{
  ℕ, zero, suc, Bool, true, false, not, ◌||◌, Option, none, some, List, [], ◌∷◌, replicate, ◌==◌,
  if◌then◌else◌,
}
use bazo_miner.Ledger.Types.{Hash, FundsTx, AccTx, ConfigTx, StakeTx, AggTx, UpdateTx}
use bazo_miner.Storage.{
  Storage, Transaction, funds, acc, update, config, stake, read_closed_tx, read_open_tx,
  read_invalid_open_tx, write_open_tx, write_bootstrap_tx_received,
}
use bazo_miner.Chain.{Net}

-- What `p2p.TxReq` and the wait for its channel come to: an error, a transaction, or the timeout,
-- with the stash of transactions of the kind.
pub data TxAnswer (T : Type 0) : Type 0 where
  no_request : TxAnswer T
  received : T → TxAnswer T
  timed_out : List T → TxAnswer T

-- The answer to the n-th request, for a hash. A request of unknown type brings a fund or aggregation
-- transaction.
pub record Network : Type 0 where
  pub ask_acc : ℕ → Hash → TxAnswer AccTx
  pub ask_funds : ℕ → Hash → TxAnswer FundsTx
  pub ask_config : ℕ → Hash → TxAnswer ConfigTx
  pub ask_stake : ℕ → Hash → TxAnswer StakeTx
  pub ask_update : ℕ → Hash → TxAnswer UpdateTx
  pub ask_agg : ℕ → Hash → TxAnswer AggTx
  pub ask_unknown : ℕ → Hash → TxAnswer Transaction

-- After the timeout: a transaction of the stash, an error that is sent while the loop goes on with a
-- nil pointer, or an error that ends the loop.
pub data Timeout (T : Type 0) : Type 0 where
  from_stash : T → Timeout T
  go_on : Timeout T
  give_up : Timeout T

-- What one of the five functions does in its own way.
pub record Kind (T : Type 0) : Type 0 where
  pub cast : Transaction → Option T
  pub as_tx : T → Transaction
  pub ask : ℕ → Hash → TxAnswer T
  pub on_timeout : Hash → List T → Timeout T
  pub on_receive : T → Storage → Storage
  pub invalid_too : Hash → Storage → Option Transaction

-- The slice with nil pointers, whether an error was sent on the way, and what was requested; an error
-- that ends the loop; a failed type assertion.
pub data Loop (T : Type 0) : Type 0 where
  finished : List (Option T) → (noted : Bool) → Net → Loop T
  stopped : Net → Loop T
  crashed : Loop T

-- The rest of the loop, after the write to the slice: `accTxSlice[cnt] = accTx`.
abbrev pub Next : Type 0 → Type 0
Next T = Option T → Bool → Net → Loop T

module _ {T : Type 0} where
  abbrev pub then_rest : Option T → (noted : Bool) → Loop T → Loop T
  then_rest o noted (finished xs later net) = finished (o ∷ xs) (noted || later) net
  then_rest o noted (stopped net) = stopped net
  then_rest o noted crashed = crashed

  -- `tx.(*protocol.AccTx)`
  abbrev pub assert_kind : Option T → Net → Next T → Loop T
  assert_kind none net rest = crashed
  assert_kind (some x) net rest = rest (some x) false net

  module _ (hash : Transaction → Hash) (kind : Kind T) where
    -- `if accTx.Hash() != txHash`: an error is sent, and the transaction is kept.
    abbrev pub with_received : Hash → T → Net → Next T → Loop T
    with_received h x net rest = rest (some x) (not (hash (kind.as_tx x) == h)) net

    abbrev pub with_timeout : Hash → Timeout T → Net → Next T → Loop T
    with_timeout h (from_stash x) net rest = with_received h x net rest
    with_timeout h go_on net rest = rest none true net
    with_timeout h give_up net rest = stopped net

    abbrev pub with_answer : Hash → TxAnswer T → Net → Next T → Loop T
    with_answer h no_request net rest = stopped net
    with_answer h (received x) net rest =
        with_received h x (record net { storage = kind.on_receive x net.storage }) rest
    with_answer h (timed_out xs) net rest = with_timeout h (kind.on_timeout h xs) net rest

    abbrev pub from_network : Hash → Net → Next T → Loop T
    from_network h net rest =
        with_answer h (kind.ask net.requests h) (record net { requests = suc net.requests }) rest

    abbrev pub from_pools : Hash → (opened invalid : Option Transaction) → Net → Next T → Loop T
    from_pools h (some t) invalid net rest = assert_kind (kind.cast t) net rest
    from_pools h none (some t) net rest = assert_kind (kind.cast t) net rest
    from_pools h none none net rest = from_network h net rest

    -- "Reject blocks that have txs which have already been validated."
    abbrev pub from_closed : (initial : Bool) → Hash → Option Transaction → Net → Next T → Loop T
    from_closed true h (some t) net rest = assert_kind (kind.cast t) net rest
    from_closed false h (some t) net rest = stopped net
    from_closed initial h none net rest =
        from_pools h (read_open_tx h net.storage) (kind.invalid_too h net.storage) net rest

    -- The slice has `room` places, as many as the block's count says: a write behind them panics.
    unfoldable pub fetch_data : (initial : Bool) → (room : ℕ) → List Hash → Net → Loop T
    fetch_data initial room [] net = finished (replicate room none) false net
    fetch_data initial zero (h ∷ hs) net =
        from_closed initial h (read_closed_tx h net.storage) net (λ o noted net'. crashed)
    fetch_data initial (suc room) (h ∷ hs) net =
        from_closed initial h (read_closed_tx h net.storage) net
          (λ o noted net'. then_rest o noted (fetch_data initial room hs net'))

abbrev pub nothing_invalid : Hash → Storage → Option Transaction
nothing_invalid h s = none

abbrev pub keep {ℓ} : {T : Type ℓ} → T → Storage → Storage
keep x s = s

abbrev pub cast_acc : Transaction → Option AccTx
cast_acc (acc x) = some x
cast_acc _ = none

abbrev pub cast_funds : Transaction → Option FundsTx
cast_funds (funds x) = some x
cast_funds _ = none

abbrev pub cast_config : Transaction → Option ConfigTx
cast_config (config x) = some x
cast_config _ = none

abbrev pub cast_stake : Transaction → Option StakeTx
cast_stake (stake x) = some x
cast_stake _ = none

abbrev pub cast_update : Transaction → Option UpdateTx
cast_update (update x) = some x
cast_update _ = none

-- `hash` is Transaction.Hash, and `verified` is verify on the state of the time.
module _ (hash : Transaction → Hash) (network : Network) where
  -- The timeout sends an error and the loop goes on.
  abbrev pub acc_kind : Kind AccTx
  acc_kind = record {
    cast = cast_acc;
    as_tx = acc;
    ask = network.ask_acc;
    on_timeout = λ h xs. go_on;
    on_receive = keep;
    invalid_too = nothing_invalid;
  }

  abbrev pub update_kind : Kind UpdateTx
  update_kind = record {
    cast = cast_update;
    as_tx = update;
    ask = network.ask_update;
    on_timeout = λ h xs. go_on;
    on_receive = keep;
    invalid_too = nothing_invalid;
  }

  abbrev pub config_kind : Kind ConfigTx
  config_kind = record {
    cast = cast_config;
    as_tx = config;
    ask = network.ask_config;
    on_timeout = λ h xs. give_up;
    on_receive = keep;
    invalid_too = nothing_invalid;
  }

  abbrev pub stake_kind : Kind StakeTx
  stake_kind = record {
    cast = cast_stake;
    as_tx = stake;
    ask = network.ask_stake;
    on_timeout = λ h xs. give_up;
    on_receive = keep;
    invalid_too = nothing_invalid;
  }

  -- FundsTxAlreadyInStash and the loop over the stash.
  abbrev pub find_funds_in_stash : Hash → List FundsTx → Timeout FundsTx
  find_funds_in_stash h [] = give_up
  find_funds_in_stash h (x ∷ xs) =
      if hash (funds x) == h then from_stash x else find_funds_in_stash h xs

  abbrev pub write_received : (initial : Bool) → FundsTx → Storage → Storage
  write_received true x s =
      write_bootstrap_tx_received hash (funds x) (write_open_tx hash (funds x) s)
  write_received false x s = write_open_tx hash (funds x) s

  abbrev pub if_verified : (Transaction → Bool) → Option Transaction → Option Transaction
  if_verified verified none = none
  if_verified verified (some t) = if verified t then some t else none

  abbrev pub funds_kind : (initial : Bool) → (verified : Transaction → Bool) → Kind FundsTx
  funds_kind initial verified = record {
    cast = cast_funds;
    as_tx = funds;
    ask = network.ask_funds;
    on_timeout = find_funds_in_stash;
    on_receive = write_received initial;
    invalid_too = λ h s. if_verified verified (read_invalid_open_tx h s);
  }

  abbrev pub fetch_acc_tx_data : (initial : Bool) → (room : ℕ) → List Hash → Net → Loop AccTx
  fetch_acc_tx_data = fetch_data hash acc_kind

  abbrev pub fetch_config_tx_data : (initial : Bool) → (room : ℕ) → List Hash → Net → Loop ConfigTx
  fetch_config_tx_data = fetch_data hash config_kind

  abbrev pub fetch_stake_tx_data : (initial : Bool) → (room : ℕ) → List Hash → Net → Loop StakeTx
  fetch_stake_tx_data = fetch_data hash stake_kind

  abbrev pub fetch_update_tx_data : (initial : Bool) → (room : ℕ) → List Hash → Net → Loop UpdateTx
  fetch_update_tx_data = fetch_data hash update_kind

  abbrev pub fetch_funds_tx_data :
      (verified : Transaction → Bool) (initial : Bool) → (room : ℕ) → List Hash → Net → Loop FundsTx
  fetch_funds_tx_data verified initial = fetch_data hash (funds_kind initial verified) initial
