-- ===== src/Blocks/Payments.antt =====
-- A block of payments: its state change happens as a whole, or not at all.
use bazo_miner.Prelude.{
  ℕ, ◌≡◌, refl, Bool, false, List, [], ◌∷◌, ◌++◌, ap, subst, sym, ◌∙◌, inl, inr,
}
use mathlib.Core.List.{append-nil}
use bazo_miner.Prelude.Assoc.{lookup-adjust-some}
use bazo_miner.Ledger.Types.{World, Hash, Block, FundsTx, ConfigTx, UpdateTx}
use bazo_miner.Ledger.Monad.{Outcome, ok, Done, miner_overflow}
use bazo_miner.Ledger.Accounts.{credit, write}
use bazo_miner.Ledger.Accounts.Laws.{Words}
use bazo_miner.Ledger.Accs.{acc_state_change, acc_state_change_rollback}
use bazo_miner.Ledger.Funds.{funds_state_change, funds_state_change_rollback, agg_tx_state_change}
use bazo_miner.Ledger.Funds.Rollback.{
  NoneSkipped, funds_state_change-rollback, funds_state_change-Words,
}
use bazo_miner.Ledger.Funds.Progress.{Runs, Keeps, AllKnown, funds_state_change-Runs}
use bazo_miner.Ledger.Stake.{stake_state_change, stake_state_change_rollback, update_staking_height}
use bazo_miner.Ledger.Fees.{collect_tx_fees_rollback, aggregated_funds}
use bazo_miner.Ledger.Fees.Transfers.{Present, make_all-Present, make_all-Words}
use bazo_miner.Ledger.Fees.Loops.{transferred}
use bazo_miner.Ledger.Fees.Undo.{block_fees}
use bazo_miner.Ledger.Fees.Atomic.{collect_tx_fees-AllOrNone}
use bazo_miner.Ledger.Rewards.{has_slashing_proof, collect_slash_reward}
use bazo_miner.Ledger.Rewards.Rollback.{collect_block_reward-rollback}
use bazo_miner.Storage.{Storage, Transaction}
use bazo_miner.Blocks.Steps.{IsAtomic, run_ok, run_err, undone, not_undone}
use bazo_miner.Blocks.{
  BlockData, ChainState, Step, put_world, lift, or_undo, run_all, closed_in, open_in, accs_back,
  funds_back, aggs_back, stakes_back, fees_back, reward_back, slash_back, pay_fees, pay_reward,
  pay_slash, validate_state,
}

-- Fund transactions, configurations and updates.
abbrev pub payments : List FundsTx → List ConfigTx → List UpdateTx → Block → BlockData
payments fs cs us b = record {
  acc_tx_slice = [];
  funds_tx_slice = fs;
  config_tx_slice = cs;
  stake_tx_slice = [];
  agg_tx_slice = [];
  aggregated_funds_tx_slice = [];
  update_tx_slice = us;
  block = b;
}

module _ (hash : Transaction → Hash) (hash_address : ℕ → Hash) (sort : List FundsTx → List FundsTx)
    (sort_hashes : List Hash → List Hash) (fs : List FundsTx) (cs : List ConfigTx)
    (us : List UpdateTx) (b : Block) where
  abbrev data_of : BlockData
  data_of = payments fs cs us b

  abbrev pub known_tx : Storage → FundsTx → Bool
  known_tx st = closed_in hash hash_address sort sort_hashes st

  abbrev having : ChainState → World → ChainState
  having s w = record s { world = w }

  -- The steps on the lists that are empty.
  accs_pass : (s : ChainState) → lift (λ _. acc_state_change hash_address []) s ≡ (ok tt, s)
  unfolding acc_state_change
  accs_pass s = refl

  accs_return :
      (s : ChainState) → accs_back hash hash_address sort sort_hashes data_of s ≡ (ok tt, s)
  unfolding acc_state_change_rollback
  accs_return s = refl

  aggs_pass :
      (s : ChainState)
      → sort [] ≡ []
      → lift (λ st. agg_tx_state_change sort (known_tx st) false []) s ≡ (ok tt, s)
  unfolding agg_tx_state_change funds_state_change
  aggs_pass s h = ap (λ l. put_world s (funds_state_change (known_tx s.storage) false l s.world)) h

  stakes_pass : (s : ChainState) → lift (λ _. stake_state_change [] b.height false) s ≡ (ok tt, s)
  unfolding stake_state_change
  stakes_pass s = refl

  stakes_return :
      (s : ChainState) → stakes_back hash hash_address sort sort_hashes data_of s ≡ (ok tt, s)
  unfolding stake_state_change_rollback
  stakes_return s = refl

  slash_pass :
      (s : ChainState)
      → has_slashing_proof b ≡ false
      → pay_slash hash hash_address sort sort_hashes data_of s ≡ (ok tt, s)
  unfolding collect_slash_reward
  slash_pass s h = rw h refl

  -- The rollbacks on an error, from each step back to the first, and the steps from each to the last.
  abbrev undo_accs : Step
  undo_accs = accs_back hash hash_address sort sort_hashes data_of

  abbrev undo_aggs : Step
  undo_aggs = aggs_back hash hash_address sort sort_hashes data_of

  abbrev undo_funds : Step
  undo_funds = funds_back hash hash_address sort sort_hashes data_of

  abbrev undo_stakes : Step
  undo_stakes = stakes_back hash hash_address sort sort_hashes data_of

  abbrev undo_fees : Step
  undo_fees = fees_back hash hash_address sort sort_hashes data_of

  abbrev undo_reward : Step
  undo_reward = reward_back hash hash_address sort sort_hashes data_of

  abbrev undo_slash : Step
  undo_slash = slash_back hash hash_address sort sort_hashes data_of

  abbrev to_accs : List Step
  to_accs = undo_accs ∷ []

  abbrev to_aggs : List Step
  to_aggs = undo_aggs ∷ to_accs

  abbrev to_funds : List Step
  to_funds = undo_funds ∷ to_aggs

  abbrev to_stakes : List Step
  to_stakes = undo_stakes ∷ to_funds

  abbrev to_fees : List Step
  to_fees = undo_fees ∷ to_stakes

  abbrev to_reward : List Step
  to_reward = undo_reward ∷ to_fees

  abbrev to_slash : List Step
  to_slash = undo_slash ∷ to_reward

  abbrev set_height : Step
  set_height = lift (λ _. update_staking_height b)

  abbrev do_slash : Step
  do_slash = pay_slash hash hash_address sort sort_hashes data_of

  abbrev do_reward : Step
  do_reward = pay_reward hash hash_address sort sort_hashes data_of false

  abbrev do_fees : Step
  do_fees = pay_fees hash hash_address sort sort_hashes data_of false

  abbrev do_stakes : Step
  do_stakes = lift (λ _. stake_state_change [] b.height false)

  abbrev do_aggs : Step
  do_aggs = lift (λ st. agg_tx_state_change sort (known_tx st) false [])

  abbrev do_funds : Step
  do_funds = lift (λ st. funds_state_change (known_tx st) false fs)

  abbrev do_accs : Step
  do_accs = lift (λ _. acc_state_change hash_address [])

  abbrev from_height : List Step
  from_height = or_undo set_height (run_all to_slash) ∷ []

  abbrev from_slash : List Step
  from_slash = or_undo do_slash (run_all to_reward) ∷ from_height

  abbrev from_reward : List Step
  from_reward = or_undo do_reward (run_all to_fees) ∷ from_slash

  abbrev from_fees : List Step
  from_fees = or_undo do_fees (run_all to_stakes) ∷ from_reward

  abbrev undo_stake_error : Step
  undo_stake_error = run_all (undo_funds ∷ undo_accs ∷ undo_aggs ∷ [])

  abbrev undo_agg_error : Step
  undo_agg_error = run_all (undo_funds ∷ undo_accs ∷ [])

  abbrev from_stakes : List Step
  from_stakes = or_undo do_stakes undo_stake_error ∷ from_fees

  abbrev from_aggs : List Step
  from_aggs = or_undo do_aggs undo_agg_error ∷ from_stakes

  abbrev from_funds : List Step
  from_funds = or_undo do_funds undo_accs ∷ from_aggs

  -- After the payments, the rollbacks up to them find the state before.
  back_to_start :
      (s : ChainState) (w₁ : World)
      → funds_state_change_rollback fs w₁ ≡ (ok tt, s.world)
      → run_all to_stakes (having s w₁) ≡ (ok tt, s)
  back_to_start s w₁ h =
      run_ok undo_stakes to_funds (having s w₁) (having s w₁) (stakes_return (having s w₁))
      ∙ (run_ok undo_funds to_aggs (having s w₁) s (ap (put_world (having s w₁)) h)
          ∙ (run_ok undo_aggs to_accs s s refl ∙ run_ok undo_accs [] s s (accs_return s)))

  height_passes :
      (s : ChainState)
      → Present b.beneficiary s.world.state
      → (s' : ChainState) × (run_all from_height s ≡ (ok tt, s'))
  unfolding update_staking_height
  height_passes s (a, e) =
      let w' = write b.beneficiary (λ x. record x { staking_block_height = b.height }) s.world in
      let done : update_staking_height b s.world ≡ (ok tt, w') = rw (e, update_staking_height) in
      (
        having s w',
        run_ok (or_undo set_height (run_all to_slash)) [] s (having s w')
            (not_undone set_height (run_all to_slash) s (having s w') (ap (put_world s) done)),
      )

  -- The reward and what follows, on a world in which the fees were paid.
  reward-IsAtomic :
      (s : ChainState) (w₁ w₂ : World)
      → has_slashing_proof b ≡ false
      → Words w₂.state
      → Present b.beneficiary w₂.state
      → funds_state_change_rollback fs w₁ ≡ (ok tt, s.world)
      → collect_tx_fees_rollback b.beneficiary [] fs cs [] w₂ ≡ (ok tt, w₁)
      → IsAtomic (run_all from_reward (having s w₂)) s
  reward-IsAtomic s w₁ w₂ p d (a, e) back fees =
      let reward = w₂.active_parameters.block_reward in
      elim (collect_block_reward-rollback reward b.beneficiary w₂ e d) [
        | inr (_, q) ↦
            let undo : run_all to_fees (having s w₂) ≡ (ok tt, s) =
              run_ok undo_fees to_stakes (having s w₂) (having s w₁)
                (ap (put_world (having s w₂)) fees)
              ∙ back_to_start s w₁ back in
            inl (
              miner_overflow,
              run_err (or_undo do_reward (run_all to_fees)) from_slash (having s w₂) s
                  miner_overflow
                  (undone do_reward (run_all to_fees) (having s w₂) (having s w₂) s miner_overflow
                    (ap (put_world (having s w₂)) q) undo),
            )
        | inl (_, (q, _)) ↦
            let w₃ = write b.beneficiary (credit reward) w₂ in
            let (a₃, e₃, _) =
              lookup-adjust-some b.beneficiary b.beneficiary (credit reward) w₂.state e in
            let (s', h) = height_passes (having s w₃) (a₃, e₃) in
            inr (
              s',
              run_ok (or_undo do_reward (run_all to_fees)) from_slash (having s w₂) (having s w₃) (
                    not_undone do_reward (run_all to_fees) (having s w₂) (having s w₃)
                      (ap (put_world (having s w₂)) q))
                  ∙ (run_ok (or_undo do_slash (run_all to_reward)) from_height (having s w₃)
                        (having s w₃)
                        (not_undone do_slash (run_all to_reward) (having s w₃) (having s w₃)
                          (slash_pass (having s w₃) p))
                      ∙ h),
            )
      ]

  -- The fees and what follows, on a world in which the payments were made.
  fees-IsAtomic :
      (s : ChainState) (w₁ : World)
      → has_slashing_proof b ≡ false
      → Words w₁.state
      → Present b.beneficiary w₁.state
      → funds_state_change_rollback fs w₁ ≡ (ok tt, s.world)
      → IsAtomic (run_all from_fees (having s w₁)) s
  unfolding aggregated_funds
  fees-IsAtomic s w₁ p d m back =
      elim (collect_tx_fees-AllOrNone b.beneficiary (open_in s.storage) [] fs cs [] [] w₁ d m) [
        | inl (e, q) ↦ inl (
          e,
          run_err (or_undo do_fees (run_all to_stakes)) from_reward (having s w₁) s e (
              undone do_fees (run_all to_stakes) (having s w₁) (having s w₁) s e
                (ap (put_world (having s w₁)) q) (back_to_start s w₁ back)),
        )
        | inr (q, _, r) ↦
            let ts = block_fees b.beneficiary [] (fs ++ []) cs [] in
            let w₂ = transferred ts w₁ in
            let fees : collect_tx_fees_rollback b.beneficiary [] fs cs [] w₂ ≡ (ok tt, w₁) =
              ap (λ l. collect_tx_fees_rollback b.beneficiary [] l cs [] w₂) (sym (append-nil fs))
              ∙ r in
            subst (λ x. IsAtomic x s)
              (sym (
                run_ok (or_undo do_fees (run_all to_stakes)) from_reward (having s w₁) (having s w₂)
                  (not_undone do_fees (run_all to_stakes) (having s w₁) (having s w₂)
                    (ap (put_world (having s w₁)) q))))
              (reward-IsAtomic s w₁ w₂ p (make_all-Words ts w₁.state d)
                (make_all-Present ts b.beneficiary w₁.state m) back fees)
      ]

  -- The steps before the fees.
  reaches_fees :
      (s : ChainState) (w₁ : World)
      → sort [] ≡ []
      → funds_state_change (known_tx s.storage) false fs s.world ≡ (ok tt, w₁)
      → run_all (do_accs ∷ from_funds) s ≡ run_all from_fees (having s w₁)
  reaches_fees s w₁ none_sorted q =
      run_ok do_accs from_funds s s (accs_pass s)
      ∙ (run_ok (or_undo do_funds undo_accs) from_aggs s (having s w₁)
            (not_undone do_funds undo_accs s (having s w₁) (ap (put_world s) q))
          ∙ (run_ok (or_undo do_aggs undo_agg_error) from_stakes (having s w₁) (having s w₁) (
                not_undone do_aggs undo_agg_error (having s w₁) (having s w₁)
                  (aggs_pass (having s w₁) none_sorted))
              ∙ run_ok (or_undo do_stakes undo_stake_error) from_fees (having s w₁) (having s w₁) (
                  not_undone do_stakes undo_stake_error (having s w₁) (having s w₁)
                    (stakes_pass (having s w₁)))))

  still-Present :
      (k : Hash) (w w₁ : World) (r : Outcome Done × World)
      → Runs (Keeps w) r
      → r ≡ (ok tt, w₁)
      → Present k w.state
      → Present k w₁.state
  still-Present k w w₁ r h q m = let kept : Keeps w w₁ = subst (Runs (Keeps w)) q h in kept k m

  -- A block of fund, configuration and update transactions, without a slashing proof. Balances and
  -- counters are words, senders and receivers and the beneficiary are in the state, no payment is
  -- closed already, sorting nothing gives nothing, and the payments go through. Then validateState
  -- ends with an error and leaves ledger and storage as they were, or it succeeds.
  pub validate_state-IsAtomic :
      (s : ChainState) (w₁ : World)
      → sort [] ≡ []
      → has_slashing_proof b ≡ false
      → Words s.world.state
      → AllKnown fs s.world
      → Present b.beneficiary s.world.state
      → NoneSkipped (known_tx s.storage) false fs
      → funds_state_change (known_tx s.storage) false fs s.world ≡ (ok tt, w₁)
      → IsAtomic (validate_state hash hash_address sort sort_hashes data_of false s) s
  validate_state-IsAtomic s w₁ none_sorted p d known m fresh q =
      let back = funds_state_change-rollback (known_tx s.storage) false fs s.world fresh d q in
      let d₁ = funds_state_change-Words (known_tx s.storage) false fs s.world fresh d q in
      let runs = funds_state_change-Runs (known_tx s.storage) false fs s.world known in
      let m₁ = still-Present b.beneficiary s.world w₁ _ runs q m in
      subst (λ x. IsAtomic x s) (sym (reaches_fees s w₁ none_sorted q))
        (fees-IsAtomic s w₁ p d₁ m₁ back)
