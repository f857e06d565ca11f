-- ===== src/Ledger/Tests.antt =====
-- A small state, and the theorems of the ledger at it.
use bazo_miner.Prelude.{
  ℕ, ◌+◌, ◌%◌, ◌≤◌, ◌↔◌, ◌≡◌, refl, Bool, true, false, List, [], ◌∷◌, arith, ◌⊎◌, none, some,
  Option, ◌++◌,
}
use bazo_miner.Prelude.Assoc.{lookup, adjust}
use bazo_miner.Prelude.Words.{u64_mod, add64}
use bazo_miner.Ledger.Types.{Account, World, AccTx, FundsTx, ConfigTx, StakeTx, Hash, max_money}
use bazo_miner.Ledger.Monad.{ok, err, Error, Post, miner_overflow}
use bazo_miner.Ledger.Accounts.{credit, write, get_root_account, is_root_key}
use bazo_miner.Ledger.Accounts.Total.{total}
use bazo_miner.Ledger.Funds.{
  funds_state_change, funds_state_change_rollback, funds_error, funds_step, issue, settle, move,
}
use bazo_miner.Ledger.Funds.Bounds.{IsSound}
use bazo_miner.Ledger.Funds.Batch.{Gains, all_minted, funds_state_change_bounds}
use bazo_miner.Ledger.Funds.Rollback.{funds_state_change-rollback}
use bazo_miner.Ledger.Funds.Counter.{IsAcceptable, funds_error-none_iff}
use bazo_miner.Ledger.Fees.{OpenTx, collect_tx_fees, aggregated_funds}
use OpenTx.{funds}
use bazo_miner.Ledger.Fees.Atomic.{AllOrNone, collect_tx_fees-AllOrNone}
use bazo_miner.Ledger.Fees.Conservation.{minted_fees, collect_tx_fees-total}
use bazo_miner.Ledger.Params.{
  new_default_parameters, config_state_change, config_state_change_rollback,
}
use bazo_miner.Ledger.Params.Bounds.{InBounds, default-InBounds, config_state_change-InBounds}
use bazo_miner.Ledger.Params.Rollback.{config_state_change-rollback}
use bazo_miner.Ledger.Stake.{stake_step, stake_rollback_step}
use bazo_miner.Ledger.Stake.Rollback.{Restored, stake_step-rollback}
use bazo_miner.Ledger.Accs.{acc_step, acc_rollback_step}
use bazo_miner.Ledger.Accs.Rollback.{acc_step-rollback}
use bazo_miner.Ledger.Types.{Block, new_block}
use bazo_miner.Ledger.Rewards.{
  collect_slash_reward, collect_slash_reward_rollback, collect_block_reward,
  collect_block_reward_rollback,
}
use bazo_miner.Ledger.Funds.Progress.{Runs, Keeps, funds_state_change-Runs}
use bazo_miner.Ledger.Rewards.Slash.{collect_slash_reward-rollback}
use bazo_miner.Ledger.Rewards.Rollback.{collect_block_reward-rollback}

abbrev account : ℕ → ℕ → Account
account address balance = record {
  address = address;
  issuer = 0;
  balance = balance;
  tx_cnt = 0;
  is_staking = false;
  commitment_key = 0;
  staking_block_height = 0;
  contract = [];
  contract_variables = [];
  parameters = 0;
}

-- A root account, a miner and a customer.
abbrev small_world : World
small_world = record {
  state = (1, account 1 1000) ∷ (2, account 2 50) ∷ (3, account 3 200) ∷ [];
  root_keys = (1, 1) ∷ [];
  chameleon_parameters = [];
  parameter_slice = new_default_parameters ∷ [];
  active_parameters = new_default_parameters;
}

abbrev payment : (from to amount fee tx_cnt : ℕ) → FundsTx
payment from to amount fee tx_cnt = record {
  amount = amount;
  fee = fee;
  tx_cnt = tx_cnt;
  from = from;
  to = to;
  aggregated = false;
  block = 0;
  sig1 = 0;
  sig2 = 0;
  check_string = record { r = []; s = [] };
  payload = [];
}

abbrev payments : List FundsTx
payments = payment 1 3 40 2 0 ∷ payment 3 2 100 1 0 ∷ []

abbrev nothing_closed : FundsTx → Bool
nothing_closed tx = false

-- The hash of an address, in the examples.
abbrev same_hash : ℕ → Hash
same_hash n = n

abbrev new_account_tx : ℕ → ℕ → AccTx
new_account_tx header pub_key = record {
  header = header;
  fee = 3;
  issuer = 1;
  pub_key = pub_key;
  contract = [];
  contract_variables = [];
  parameters = 0;
  sig = 0;
  check_string = record { r = []; s = [] };
  payload = [];
}

abbrev block_size_tx : ConfigTx
block_size_tx = record { id = 1; payload = 6000; fee = 4; sig = 0 }

abbrev stake_tx : StakeTx
stake_tx = record { fee = 1; is_staking = true; account = 1; commitment_key = 9; sig = 0 }

-- An aggregation of one payment.
abbrev one_open : Hash → Option OpenTx
one_open h = some (funds (payment 3 1 5 2 1))

abbrev small_sound : IsSound small_world
small_sound = record {
  bounded = (omega arith, (omega arith, (omega arith, tt)));
  words = (
    record { balance_fits = omega arith; tx_cnt_fits = omega arith },
    (
      record { balance_fits = omega arith; tx_cnt_fits = omega arith },
      (record { balance_fits = omega arith; tx_cnt_fits = omega arith }, tt),
    ),
  );
}

funds_state_change_bounds_example :
    Post
      (Gains (all_minted nothing_closed small_world.root_keys payments) small_world)
      IsSound
      (funds_state_change nothing_closed false payments small_world)
funds_state_change_bounds_example =
    funds_state_change_bounds nothing_closed payments small_world (omega arith, (omega arith, tt))
      small_sound

abbrev after_payments : World
after_payments = (funds_state_change nothing_closed false payments small_world).1

payments_go_through :
    funds_state_change nothing_closed false payments small_world ≡ (ok tt, after_payments)
unfolding funds_state_change funds_step get_root_account is_root_key lookup issue add64 settle
    adjust funds_error move
payments_go_through = refl

funds_state_change-rollback_example :
    funds_state_change_rollback payments after_payments ≡ (ok tt, small_world)
funds_state_change-rollback_example =
    funds_state_change-rollback nothing_closed false payments small_world (refl, (refl, tt))
      small_sound.words payments_go_through

funds_error-none_iff_example :
    (funds_error false (payment 1 3 40 2 0) (account 1 1000) (account 3 200) ≡ none)
    ↔ IsAcceptable (payment 1 3 40 2 0) (account 1 1000) (account 3 200)
funds_error-none_iff_example =
    funds_error-none_iff (payment 1 3 40 2 0) (account 1 1000) (account 3 200)

collect_tx_fees-AllOrNone_example :
    AllOrNone 2
      (collect_tx_fees 2 one_open
        (new_account_tx 0 7 ∷ [])
        payments
        (block_size_tx ∷ [])
        (stake_tx ∷ [])
        ((5 ∷ []) ∷ [])
        small_world)
      (new_account_tx 0 7 ∷ [])
      (payments ++ aggregated_funds one_open ((5 ∷ []) ∷ []))
      (block_size_tx ∷ [])
      (stake_tx ∷ [])
      small_world
unfolding lookup
collect_tx_fees-AllOrNone_example =
    collect_tx_fees-AllOrNone 2 one_open (new_account_tx 0 7 ∷ []) payments (block_size_tx ∷ [])
      (stake_tx ∷ []) ((5 ∷ []) ∷ []) small_world small_sound.words (account 2 50, refl)

collect_tx_fees-total_example :
    ((e : Error) × (collect_tx_fees 2 one_open
          (new_account_tx 0 7 ∷ [])
          payments
          (block_size_tx ∷ [])
          (stake_tx ∷ [])
          []
          small_world
        ≡ (err e, small_world)))
    ⊎ ((v : World) × (collect_tx_fees 2 one_open
            (new_account_tx 0 7 ∷ [])
            payments
            (block_size_tx ∷ [])
            (stake_tx ∷ [])
            []
            small_world
          ≡ (ok tt, v))
        × (total v.state % u64_mod
            ≡ (total small_world.state
                + minted_fees 2 (new_account_tx 0 7 ∷ []) (block_size_tx ∷ []))
              % u64_mod))
unfolding lookup
collect_tx_fees-total_example =
    collect_tx_fees-total 2 one_open (new_account_tx 0 7 ∷ []) payments (block_size_tx ∷ [])
      (stake_tx ∷ []) [] small_world small_sound.words (account 2 50, refl)

config_state_change-InBounds_example :
    InBounds (config_state_change (block_size_tx ∷ []) 77 small_world).active_parameters
config_state_change-InBounds_example =
    config_state_change-InBounds (block_size_tx ∷ []) 77 small_world default-InBounds

default_hash : ¬ (new_default_parameters.block_hash ≡ 77)
unfolding new_default_parameters
default_hash = ground arith

config_state_change-rollback_example :
    config_state_change_rollback
      (block_size_tx ∷ [])
      77
      (config_state_change (block_size_tx ∷ []) 77 small_world)
    ≡ (
      ok tt,
      record small_world {
        state = (config_state_change (block_size_tx ∷ []) 77 small_world).state;
      },
    )
config_state_change-rollback_example =
    config_state_change-rollback (block_size_tx ∷ []) 77 small_world refl refl default_hash

stake_step-rollback_example :
    ((x : Error) × (stake_step 10 false stake_tx small_world ≡ (err x, small_world)))
    ⊎ ((w' : World) × (stake_step 10 false stake_tx small_world ≡ (ok tt, w'))
        × Restored 1 (account 1 1000) (stake_rollback_step stake_tx w'))
unfolding lookup
stake_step-rollback_example = stake_step-rollback 10 false stake_tx small_world refl

acc_step-rollback_example :
    (w' : World) × (acc_step same_hash (new_account_tx 1 7) small_world ≡ (ok tt, w'))
    × ((acc_rollback_step same_hash (new_account_tx 1 7) w').0 ≡ ok tt)
    × ((acc_rollback_step same_hash (new_account_tx 1 7) w').1.state ≡ small_world.state)
    × ((acc_rollback_step same_hash (new_account_tx 1 7) w').1.root_keys ≡ small_world.root_keys)
unfolding lookup
acc_step-rollback_example =
    acc_step-rollback same_hash (new_account_tx 1 7) small_world (omega arith) refl refl

collect_block_reward-rollback_example :
    ((add64 50 7 ≤ max_money)
      × ((collect_block_reward 7 2 false small_world ≡ (ok tt, write 2 (credit 7) small_world))
          × (collect_block_reward_rollback 7 2 (write 2 (credit 7) small_world)
              ≡ (ok tt, small_world))))
    ⊎ ((max_money + 1 ≤ add64 50 7)
        × (collect_block_reward 7 2 false small_world ≡ (err miner_overflow, small_world)))
unfolding lookup
collect_block_reward-rollback_example =
    collect_block_reward-rollback 7 2 small_world refl small_sound.words

funds_state_change-Runs_example :
    Runs (Keeps small_world) (funds_state_change nothing_closed false payments small_world)
unfolding lookup
funds_state_change-Runs_example =
    funds_state_change-Runs nothing_closed false payments small_world (
      ((account 1 1000, refl), (account 3 200, refl)),
      (((account 3 200, refl), (account 2 50, refl)), tt),
    )

-- A staking account, and a block that proves its fault.
abbrev staking_world : World
staking_world = record small_world {
  state = (2, account 2 50) ∷ (4, record (account 4 1500) { is_staking = true }) ∷ [];
}

abbrev slashing_block : Block
slashing_block = record (new_block 89 12) {
  hash = 90;
  beneficiary = 2;
  slashed_address = 4;
  conflicting_block_hash1 = 91;
  conflicting_block_hash2 = 92;
  conflicting_block_hash_without_tx1 = 93;
  conflicting_block_hash_without_tx2 = 94;
}

collect_slash_reward-rollback_example :
    (w' : World) × (collect_slash_reward 2 slashing_block staking_world ≡ (ok tt, w'))
    × (collect_slash_reward_rollback 2 slashing_block w' ≡ (ok tt, staking_world))
unfolding lookup add64
collect_slash_reward-rollback_example =
    collect_slash_reward-rollback 2 slashing_block staking_world refl refl refl refl (omega arith) (
      record { balance_fits = omega arith; tx_cnt_fits = omega arith },
      (record { balance_fits = omega arith; tx_cnt_fits = omega arith }, tt),
    )
