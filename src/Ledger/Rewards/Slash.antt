-- ===== src/Ledger/Rewards/Slash.antt =====
-- `collectSlashReward` and its rollback.
use bazo_miner.Prelude.{ℕ, ◌≤◌, ◌≡◌, refl, true, false, some, arith, ap, ◌∙◌, sym, ltb}
use bazo_miner.Prelude.Words.{add64}
use bazo_miner.Prelude.Assoc.{
  Assoc, lookup, adjust, adjust_comm, adjust-adjust_undo_at, lookup-adjust-some,
}
use bazo_miner.Ledger.Types.{Account, World, Block, Hash, max_money}
use bazo_miner.Ledger.Monad.{ok}
use bazo_miner.Ledger.Accounts.{credit, debit}
use bazo_miner.Ledger.Accounts.Laws.{Words, debit-credit, credit-debit, debit-debit_comm}
use bazo_miner.Ledger.Rewards.{
  has_slashing_proof, stop_staking, start_staking, collect_slash_reward,
  collect_slash_reward_rollback,
}

start-stop : (a : Account) → a.is_staking ≡ true → start_staking (stop_staking a) ≡ a
start-stop a h i = record a { is_staking = sym h i }

-- What the reward writes, with the miner's account at `m` and the slashed one at `s`.
abbrev slash : (m s reward minimum : ℕ) → Assoc Account → Assoc Account
slash m s reward minimum t =
    adjust s stop_staking (adjust s (debit minimum) (adjust m (credit reward) t))

abbrev unslash : (m s reward minimum : ℕ) → Assoc Account → Assoc Account
unslash m s reward minimum t =
    adjust s start_staking (adjust s (credit minimum) (adjust m (debit reward) t))

unslash-slash :
    (m s reward minimum : ℕ) (t : Assoc Account) {b : Account}
    → Words t
    → lookup s t ≡ some b
    → b.is_staking ≡ true
    → unslash m s reward minimum (slash m s reward minimum t) ≡ t
unslash-slash m s reward minimum t {b} h e staking =
    ap (λ u. adjust s start_staking (adjust s (credit minimum) u))
      (adjust_comm m s (debit reward) stop_staking
          (adjust s (debit minimum) (adjust m (credit reward) t)) (λ a. refl)
        ∙ ap (adjust s stop_staking) (
            debit-debit_comm m s reward minimum (adjust m (credit reward) t)
            ∙ ap (adjust s (debit minimum)) (debit-credit m reward t h)))
    ∙ ap (adjust s start_staking) (
        adjust_comm s s (credit minimum) stop_staking (adjust s (debit minimum) t) (λ a. refl)
        ∙ ap (adjust s stop_staking) (credit-debit s minimum t h))
    ∙ adjust-adjust_undo_at s start_staking stop_staking t e (start-stop b staking)

kept :
    (j k : Hash) (f : Account → Account) (t : Assoc Account)
    → ((a : Account) × (lookup k t ≡ some a))
    → (a : Account) × (lookup k (adjust j f t) ≡ some a)
kept j k f t (a, h) = let (u, e, _) = lookup-adjust-some j k f t h in (u, e)

slash-kept :
    (m s reward minimum k : ℕ) (t : Assoc Account)
    → ((a : Account) × (lookup k t ≡ some a))
    → (a : Account) × (lookup k (slash m s reward minimum t) ≡ some a)
slash-kept m s reward minimum k t h =
    let t₁ = adjust m (credit reward) t in
    kept s k stop_staking (adjust s (debit minimum) t₁)
      (kept s k (debit minimum) t₁ (kept m k (credit reward) t h))

taken_back :
    (reward : ℕ) (block : Block) (w : World) {x y : Account}
    → has_slashing_proof block ≡ true
    → lookup block.beneficiary w.state ≡ some x
    → lookup block.slashed_address (adjust block.beneficiary (debit reward) w.state) ≡ some y
    → collect_slash_reward_rollback reward block w ≡ (
      ok tt,
      record w {
        state =
            unslash block.beneficiary block.slashed_address reward
              w.active_parameters.staking_minimum w.state;
      },
    )
unfolding collect_slash_reward_rollback
taken_back reward block w p ex ey = rw (p, ex, ey, collect_slash_reward_rollback)

-- When a block has a slashing proof, its beneficiary and the slashed account are in the state, the
-- slashed account is staking, the reward fits and balances and counters are words, the reward is paid, and its rollback restores the
-- world.
pub collect_slash_reward-rollback :
    (reward : ℕ) (block : Block) (w : World) {a b : Account}
    → has_slashing_proof block ≡ true
    → lookup block.beneficiary w.state ≡ some a
    → lookup block.slashed_address w.state ≡ some b
    → b.is_staking ≡ true
    → add64 a.balance reward ≤ max_money
    → Words w.state
    → (w' : World) × (collect_slash_reward reward block w ≡ (ok tt, w'))
      × (collect_slash_reward_rollback reward block w' ≡ (ok tt, w))
unfolding collect_slash_reward
collect_slash_reward-rollback reward block w {a} {b} p ea eb staking fits h =
    let m = block.beneficiary in
    let s = block.slashed_address in
    let minimum = w.active_parameters.staking_minimum in
    let low : ltb max_money (add64 a.balance reward) ≡ false = ground arith in
    let w' = record w { state = slash m s reward minimum w.state } in
    let (x, ex) = slash-kept m s reward minimum m w.state (a, ea) in
    let (y, ey) =
      kept m s (debit reward) w'.state (slash-kept m s reward minimum s w.state (b, eb)) in
    (
      w',
      rw (p, ea, low, eb, collect_slash_reward) refl,
      taken_back reward block w' p ex ey
          ∙ ap (λ u. (ok tt, record w { state = u }))
              (unslash-slash m s reward minimum w.state h eb staking),
    )
