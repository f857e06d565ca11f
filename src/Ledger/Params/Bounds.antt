-- ===== src/Ledger/Params/Bounds.antt =====
-- The system parameters stay within the bounds of protocol/configtx.go.
use bazo_miner.Prelude.{
  ℕ, ◌≤◌, ◌≡◌, Bool, true, false, List, [], ◌∷◌, arith, Bool-cases, inl, inr, if◌then◌else◌,
}
use bazo_miner.Prelude.Assoc.{Assoc}
use bazo_miner.Ledger.Types.{Account, World, ConfigTx, Parameters, Hash}
use bazo_miner.Ledger.Params.{
  ParameterId, block_size, parameter_id, parameter_bounds_checking, set_parameter,
  check_and_change_parameters, adopt, config_state_change, new_default_parameters,
}

-- Every parameter lies between its minimum and its maximum.
pub record InBounds (p : Parameters) : Type 0 where
  pub block_size_in : (1000 ≤ p.block_size) × (p.block_size ≤ 100000000)
  pub diff_interval_in : (3 ≤ p.diff_interval) × (p.diff_interval ≤ 9223372036854775807)
  pub fee_minimum_in : p.fee_minimum ≤ 9223372036854775807
  pub block_interval_in : (3 ≤ p.block_interval) × (p.block_interval ≤ 86400)
  pub block_reward_in : p.block_reward ≤ 1152921504606846976
  pub staking_minimum_in : (5 ≤ p.staking_minimum) × (p.staking_minimum ≤ 9223372036854775807)
  pub waiting_minimum_in : p.waiting_minimum ≤ 100000
  pub accepted_time_diff_in : p.accepted_time_diff ≤ 60
  pub slashing_window_size_in : p.slashing_window_size ≤ 10000
  pub slash_reward_in : p.slash_reward ≤ 1152921504606846976

pub default-InBounds : InBounds new_default_parameters
unfolding new_default_parameters
default-InBounds = omega arith

set_parameter-InBounds :
    (id : ParameterId) (x : ℕ) (p : Parameters)
    → parameter_bounds_checking id x ≡ true
    → InBounds p
    → InBounds (set_parameter id x p)
unfolding set_parameter parameter_bounds_checking
set_parameter-InBounds block_size x p h b = ground arith
set_parameter-InBounds _ x p h b = ground arith

set_or_keep-InBounds :
    (id : ParameterId) (x : ℕ) (p : Parameters)
    → InBounds p
    → InBounds (if parameter_bounds_checking id x then set_parameter id x p else p)
set_or_keep-InBounds id x p b = elim (Bool-cases (parameter_bounds_checking id x)) [
  | inl e ↦ rw e (set_parameter-InBounds id x p e b)
  | inr e ↦ rw e b
]

check_and_change-InBounds :
    (txs : List ConfigTx) (p : Parameters) (s : Assoc Account) (change : Bool)
    → InBounds p
    → InBounds (check_and_change_parameters txs p s change).0
unfolding check_and_change_parameters
check_and_change-InBounds [] p s change b = b
check_and_change-InBounds (tx ∷ txs) p s change b =
    check_and_change-InBounds txs _ _ _ (set_or_keep-InBounds (parameter_id tx.id) tx.payload p b)

adopt-InBounds :
    (h : Hash) (r : Parameters × Assoc Account × Bool) (w : World)
    → InBounds r.0
    → InBounds w.active_parameters
    → InBounds (adopt h r w).active_parameters
unfolding adopt
adopt-InBounds h (p, s, true) w b a = omega arith
adopt-InBounds h (p, s, false) w b a = a

-- Whatever configuration transactions a block holds, active parameters in bounds stay in bounds.
pub config_state_change-InBounds :
    (txs : List ConfigTx) (h : Hash) (w : World)
    → InBounds w.active_parameters
    → InBounds (config_state_change txs h w).active_parameters
unfolding config_state_change
config_state_change-InBounds [] h w b = b
config_state_change-InBounds (tx ∷ txs) h w b =
    adopt-InBounds h (check_and_change_parameters (tx ∷ txs) w.active_parameters w.state false) w
      (check_and_change-InBounds (tx ∷ txs) w.active_parameters w.state false b) b
