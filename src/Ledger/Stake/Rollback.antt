-- ===== src/Ledger/Stake/Rollback.antt =====
-- `stakeStateChangeRollback` after `stakeStateChange`.
use bazo_miner.Prelude.{
  ℕ, ◌≡◌, refl, Bool, true, false, not, none, some, arith, ap, ◌∙◌, ◌⊎◌, inl, inr, Option-cases,
}
use bazo_miner.Prelude.Assoc.{lookup, adjust, lookup-adjust_self}
use bazo_miner.Ledger.Types.{Account, World, StakeTx, Hash}
use bazo_miner.Ledger.Monad.{Outcome, ok, err, Done, Error}
use bazo_miner.Ledger.Accounts.{write}
use bazo_miner.Ledger.Stake.{stake_error, set_stake, stake_step, flip_stake, stake_rollback_step}

-- Accepting a stake transaction means that it changes the sender's staking flag.
pub stake_error-none :
    (initial : Bool) (minimum : ℕ) (tx : StakeTx) (sender : Account)
    → stake_error initial minimum tx sender ≡ none
    → tx.is_staking ≡ not sender.is_staking
unfolding stake_error
stake_error-none initial minimum tx sender h = ground arith

-- `stakeStateChangeRollback` does not restore the commitment key and the staking height.
abbrev pub SameStake : Account → Account → Type 0
SameStake a b = (a.is_staking ≡ b.is_staking) × (a.balance ≡ b.balance) × (a.tx_cnt ≡ b.tx_cnt)

-- The step by the outcome of its checks.
module _ (height : ℕ) (initial : Bool) (tx : StakeTx) (w : World) {a : Account}
    (e : lookup tx.account w.state ≡ some a) where
  stake_step_pass :
      stake_error initial w.active_parameters.staking_minimum tx a ≡ none
      → stake_step height initial tx w ≡ (ok tt, write tx.account (set_stake tx height) w)
  unfolding stake_step
  stake_step_pass q = rw (e, q, stake_step)

  stake_step_refused :
      {x : Error}
      → stake_error initial w.active_parameters.staking_minimum tx a ≡ some x
      → stake_step height initial tx w ≡ (err x, w)
  unfolding stake_step
  stake_step_refused q = rw (e, q, stake_step)

rollback_step_lem :
    (tx : StakeTx) (w : World) {a : Account}
    → lookup tx.account w.state ≡ some a
    → stake_rollback_step tx w ≡ (ok tt, write tx.account flip_stake w)
unfolding stake_rollback_step
rollback_step_lem tx w e = rw (e, stake_rollback_step)

not-not : (b : Bool) → not (not b) ≡ b
not-not true = refl
not-not false = refl

-- What the rollback finds again: the staking flag, the balance and the counter.
abbrev pub Restored : Hash → Account → Outcome Done × World → Type 0
Restored k a (r, w) = (b : Account) × (r ≡ ok tt) × (lookup k w.state ≡ some b) × SameStake b a

-- A stake transaction either is refused and changes nothing, or its rollback succeeds and finds the
-- sender's staking flag, balance and counter as they were.
pub stake_step-rollback :
    (height : ℕ) (initial : Bool) (tx : StakeTx) (w : World) {a : Account}
    → lookup tx.account w.state ≡ some a
    → ((x : Error) × (stake_step height initial tx w ≡ (err x, w)))
      ⊎ ((w' : World) × (stake_step height initial tx w ≡ (ok tt, w'))
          × Restored tx.account a (stake_rollback_step tx w'))
stake_step-rollback height initial tx w {a} e =
    let w' = write tx.account (set_stake tx height) w in
    let e' = lookup-adjust_self tx.account (set_stake tx height) w.state e in
    let e'' =
      lookup-adjust_self tx.account flip_stake (adjust tx.account (set_stake tx height) w.state)
        e' in
    elim (Option-cases (stake_error initial w.active_parameters.staking_minimum tx a)) [
      | inr (x, q) ↦ inl (x, stake_step_refused height initial tx w e q)
      | inl q ↦
          let flag = stake_error-none initial w.active_parameters.staking_minimum tx a q in
          inr (
            w',
            stake_step_pass height initial tx w e q,
            rw (rollback_step_lem tx w' e') (
              flip_stake (set_stake tx height a),
              refl,
              e'',
              (ap not flag ∙ not-not a.is_staking, refl, refl),
            ),
          )
    ]
