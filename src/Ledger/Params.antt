-- ===== src/Ledger/Params.antt =====
-- The system parameters: `NewDefaultParameters` (miner/blockchainparam.go), `parameterBoundsChecking`
-- (miner/tx_verification.go), `CheckAndChangeParameters`, `configStateChange` (miner/state.go) and
-- `configStateChangeRollback` (miner/staterollback.go).
pub mod Bounds
pub mod Rollback
use bazo_miner.Prelude.{
  ℕ, ◌+◌, Bool, true, false, not, ◌&&◌, ◌||◌, List, [], ◌∷◌, map, leb, ltb, ◌==◌, if◌then◌else◌,
}
use bazo_miner.Ledger.Types.{World, Account, ConfigTx, Parameters, Hash}
use bazo_miner.Ledger.Monad.{Action, Outcome, ok, err, panic, Done}
use bazo_miner.Prelude.Assoc.{Assoc}

unfoldable pub new_default_parameters : Parameters
new_default_parameters = record {
  block_hash = 0;
  fee_minimum = 1;
  block_size = 5000;
  diff_interval = 25;
  block_interval = 15;
  block_reward = 0;
  staking_minimum = 1000;
  waiting_minimum = 0;
  accepted_time_diff = 60;
  slashing_window_size = 100;
  slash_reward = 2;
  num_included_prev_proofs = 5;
  fixed_space = 650;
  bloom_filter_size = 8;
}

abbrev pub between : ℕ → ℕ → ℕ → Bool
between lo hi x = leb lo x && leb x hi

-- The identifiers of protocol/configtx.go.
pub data ParameterId : Type 0 where
  block_size diff_interval fee_minimum block_interval block_reward : ParameterId
  staking_minimum waiting_minimum acceptance_time_diff slashing_window_size : ParameterId
  slashing_reward unknown : ParameterId

-- What the `switch` on `tx.Id` makes of a number.
unfoldable pub parameter_id : ℕ → ParameterId
parameter_id n =
    if n == 1
    then block_size
    else if n == 2
    then diff_interval
    else if n == 3
    then fee_minimum
    else if n == 4
    then block_interval
    else if n == 5
    then block_reward
    else if n == 6
    then staking_minimum
    else if n == 7
    then waiting_minimum
    else if n == 8
    then acceptance_time_diff
    else if n == 9
    then slashing_window_size
    else if n == 10
    then slashing_reward
    else unknown

unfoldable pub parameter_bounds_checking : ParameterId → ℕ → Bool
parameter_bounds_checking block_size x = between 1000 100000000 x
parameter_bounds_checking diff_interval x = between 3 9223372036854775807 x
parameter_bounds_checking fee_minimum x = between 0 9223372036854775807 x
parameter_bounds_checking block_interval x = between 3 86400 x
parameter_bounds_checking block_reward x = between 0 1152921504606846976 x
parameter_bounds_checking staking_minimum x = between 5 9223372036854775807 x
parameter_bounds_checking waiting_minimum x = between 0 100000 x
parameter_bounds_checking acceptance_time_diff x = between 0 60 x
parameter_bounds_checking slashing_window_size x = between 0 10000 x
parameter_bounds_checking slashing_reward x = between 0 1152921504606846976 x
parameter_bounds_checking unknown x = false

-- `parameters.X = tx.Payload`
unfoldable pub set_parameter : ParameterId → ℕ → Parameters → Parameters
set_parameter block_size x p = record p { block_size = x }
set_parameter diff_interval x p = record p { diff_interval = x }
set_parameter fee_minimum x p = record p { fee_minimum = x }
set_parameter block_interval x p = record p { block_interval = x }
set_parameter block_reward x p = record p { block_reward = x }
set_parameter staking_minimum x p = record p { staking_minimum = x }
set_parameter waiting_minimum x p = record p { waiting_minimum = x }
set_parameter acceptance_time_diff x p = record p { accepted_time_diff = x }
set_parameter slashing_window_size x p = record p { slashing_window_size = x }
set_parameter slashing_reward x p = record p { slash_reward = x }
set_parameter unknown x p = p

-- "Remove all validators that no longer fulfill the minimum staking amount".
abbrev pub keep_validator : ℕ → Account → Account
keep_validator minimum a =
    if a.is_staking && ltb a.balance minimum then record a { is_staking = false } else a

unfoldable pub drop_validators : ℕ → Assoc Account → Assoc Account
drop_validators minimum [] = []
drop_validators minimum ((k, a) ∷ s) = (k, keep_validator minimum a) ∷ drop_validators minimum s

-- The change of the state that a new parameter brings: only the staking minimum has one.
unfoldable pub enforce_parameter : ParameterId → ℕ → Assoc Account → Assoc Account
enforce_parameter staking_minimum x s = drop_validators x s
enforce_parameter _ x s = s

-- The loop: the parameters, the accounts, and whether anything changed.
unfoldable pub check_and_change_parameters :
    List ConfigTx → Parameters → Assoc Account → Bool → Parameters × Assoc Account × Bool
check_and_change_parameters [] p s change = (p, s, change)
check_and_change_parameters (tx ∷ txs) p s change =
    let id = parameter_id tx.id in
    let fits = parameter_bounds_checking id tx.payload in
    check_and_change_parameters txs (if fits then set_parameter id tx.payload p else p)
      (if fits then enforce_parameter id tx.payload s else s) (change || fits)

-- The new entry goes to the end of `parameterSlice`, which is the head of the list here.
unfoldable pub adopt : Hash → Parameters × Assoc Account × Bool → World → World
adopt h (p, s, true) w =
    let p' = record p { block_hash = h } in
    record w { state = s; parameter_slice = p' ∷ w.parameter_slice; active_parameters = p' }
adopt h (p, s, false) w = record w { state = s }

unfoldable pub config_state_change : List ConfigTx → Hash → World → World
unfolding adopt
config_state_change [] h w = w
config_state_change (tx ∷ txs) h w =
    adopt h (check_and_change_parameters (tx ∷ txs) w.active_parameters w.state false) w

-- Reading the last entry of an empty slice panics, the new last entry after the removal too.
unfoldable pub config_state_change_rollback : List ConfigTx → Hash → Action Done
config_state_change_rollback [] h w = (ok tt, w)
config_state_change_rollback (tx ∷ txs) h w = elim w.parameter_slice [
  | [] ↦ (panic, w)
  | newest ∷ older ↦
      if newest.block_hash == h
      then elim older [
        | [] ↦ (panic, record w { parameter_slice = [] })
        | p ∷ ps ↦ (ok tt, record w { parameter_slice = p ∷ ps; active_parameters = p })
      ]
      else (ok tt, w)
]
