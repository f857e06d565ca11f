-- ===== src/Ledger/Params/Rollback.antt =====
-- `configStateChangeRollback` after `configStateChange`.
use bazo_miner.Prelude.{◌≡◌, refl, Bool, true, false, List, [], ◌∷◌, ap, sym, ==_refl, ==_false}
use bazo_miner.Prelude.Assoc.{Assoc}
use bazo_miner.Ledger.Types.{Account, World, ConfigTx, Parameters, Hash}
use bazo_miner.Ledger.Monad.{ok}
use bazo_miner.Ledger.Params.{
  check_and_change_parameters, adopt, config_state_change, config_state_change_rollback,
}

-- The parameters of two worlds agree.
abbrev pub SameParameters : World → World → Type 0
SameParameters v w =
    (v.parameter_slice ≡ w.parameter_slice) × (v.active_parameters ≡ w.active_parameters)

module _ (tx : ConfigTx) (txs : List ConfigTx) (h : Hash) (w : World) {newest : Parameters}
    {older : List Parameters} (e : w.parameter_slice ≡ newest ∷ older)
    (a : w.active_parameters ≡ newest) (n : ¬ (newest.block_hash ≡ h)) where
  adopt-rollback :
      (r : Parameters × Assoc Account × Bool)
      → config_state_change_rollback (tx ∷ txs) h (adopt h r w)
        ≡ (ok tt, record w { state = (adopt h r w).state })
  unfolding adopt config_state_change_rollback
  adopt-rollback (p, s, true) =
      rw (==_refl h, e)
        (ap
          (λ q. (
            ok tt,
            record w { state = s; parameter_slice = newest ∷ older; active_parameters = q },
          ))
          (sym a))
  adopt-rollback (p, s, false) = rw (e, ==_false n) refl

-- When the newest parameters of the history are the active ones and come from another block, taking
-- back a block's configuration transactions restores the history and the active parameters, and
-- leaves the accounts as the transactions made them.
pub config_state_change-rollback :
    (txs : List ConfigTx) (h : Hash) (w : World) {newest : Parameters} {older : List Parameters}
    → w.parameter_slice ≡ newest ∷ older
    → w.active_parameters ≡ newest
    → ¬ (newest.block_hash ≡ h)
    → config_state_change_rollback txs h (config_state_change txs h w)
      ≡ (ok tt, record w { state = (config_state_change txs h w).state })
unfolding config_state_change config_state_change_rollback
config_state_change-rollback [] h w e a n = refl
config_state_change-rollback (tx ∷ txs) h w e a n =
    adopt-rollback tx txs h w e a n
      (check_and_change_parameters (tx ∷ txs) w.active_parameters w.state false)
