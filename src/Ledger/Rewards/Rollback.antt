-- ===== src/Ledger/Rewards/Rollback.antt =====
-- The rewards and their rollbacks.
use bazo_miner.Prelude.{
  ℕ, ◌+◌, ◌≤◌, ◌≡◌, true, false, some, arith, ap, ◌∙◌, ◌⊎◌, inl, inr, Bool-cases, ltb,
}
use bazo_miner.Prelude.Words.{add64}
use bazo_miner.Prelude.Assoc.{lookup, lookup-adjust_self}
use bazo_miner.Ledger.Types.{Account, World, Hash, max_money}
use bazo_miner.Ledger.Monad.{ok, err, miner_overflow}
use bazo_miner.Ledger.Accounts.{credit, debit, write}
use bazo_miner.Ledger.Accounts.Laws.{Words, debit-credit}
use bazo_miner.Ledger.Rewards.{collect_block_reward, collect_block_reward_rollback}

module _ (reward : ℕ) (miner : Hash) (w : World) {a : Account}
    (e : lookup miner w.state ≡ some a) where
  reward_paid :
      (ltb max_money (add64 a.balance reward) ≡ false)
      → collect_block_reward reward miner false w ≡ (ok tt, write miner (credit reward) w)
  unfolding collect_block_reward
  reward_paid q = rw (e, q, collect_block_reward)

  reward_refused :
      (ltb max_money (add64 a.balance reward) ≡ true)
      → collect_block_reward reward miner false w ≡ (err miner_overflow, w)
  unfolding collect_block_reward
  reward_refused q = rw (e, q, collect_block_reward)

  reward_taken_back :
      collect_block_reward_rollback reward miner w ≡ (ok tt, write miner (debit reward) w)
  unfolding collect_block_reward_rollback
  reward_taken_back = rw (e, collect_block_reward_rollback)

-- After the initial setup, with balances and counters that are words, a miner in the state either gets the reward, with a sum that is at most the maximum, and the
-- rollback restores the state; or the sum is above the maximum and nothing changes.
pub collect_block_reward-rollback :
    (reward : ℕ) (miner : Hash) (w : World) {a : Account}
    → lookup miner w.state ≡ some a
    → Words w.state
    → ((add64 a.balance reward ≤ max_money)
        × ((collect_block_reward reward miner false w ≡ (ok tt, write miner (credit reward) w))
            × (collect_block_reward_rollback reward miner (write miner (credit reward) w)
                ≡ (ok tt, w))))
      ⊎ ((max_money + 1 ≤ add64 a.balance reward)
          × (collect_block_reward reward miner false w ≡ (err miner_overflow, w)))
collect_block_reward-rollback reward miner w {a} e h =
    elim (Bool-cases (ltb max_money (add64 a.balance reward))) [
      | inl q ↦ inr (ground arith, reward_refused reward miner w e q)
      | inr q ↦ inl (
        ground arith,
        (
          reward_paid reward miner w e q,
          reward_taken_back reward miner (write miner (credit reward) w)
                (lookup-adjust_self miner (credit reward) w.state e)
              ∙ ap (λ s. (ok tt, record w { state = s })) (debit-credit miner reward w.state h),
        ),
      )
    ]
