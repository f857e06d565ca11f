-- ===== src/Ledger/Funds/Rollback.antt =====
-- `fundsStateChangeRollback` takes back what `fundsStateChange` did.
use mathlib.Core.List.{reverse-cons}
use bazo_miner.Prelude.{
  ℕ, ◌≡◌, refl, Bool, true, false, not, ◌&&◌, Option, none, some, List, [], ◌∷◌, arith, ap, ◌∙◌,
  sym, subst, ◌≢◌, ltb, if◌then◌else◌, inl, inr, Option-cases, reverse,
}
use bazo_miner.Prelude.Words.{add64}
use bazo_miner.Prelude.Assoc.{Assoc, lookup, adjust, lookup-adjust-some}
use bazo_miner.Ledger.Types.{Account, World, FundsTx, Hash, max_money}
use bazo_miner.Ledger.Monad.{
  Outcome, ok, err, Done, ◌>>◌, for_each, >>=-ok, >>-eq-ok, for_each-append, account_missing,
  staking_minimum_violated,
}
use bazo_miner.Ledger.Accounts.{
  credit, debit, count_up, count_down, write, get_root_account-none, get_root_account-some,
}
use bazo_miner.Ledger.Accounts.Laws.{
  Words, credit-Words, debit-Words, count_up-Words, debit-credit, credit-debit, count_down-count_up,
  count_down-credit_comm, count_down-debit_comm, credit-credit_comm,
}
use bazo_miner.Ledger.Funds.{
  issue, revoke, funds_error, breaks_stake, move, settle, funds_step, funds_state_change,
  revert_issue, funds_rollback_step, funds_state_change_rollback,
}
use bazo_miner.Ledger.Funds.Bounds.{
  credits_undone, settle_no_receiver, settle_no_sender, settle_pass, settle_refused,
}
use bazo_miner.Ledger.Funds.Batch.{funds_step_plain, funds_step_lost, funds_step_root}

-- The three writes of the rollback undo the three writes of `move`, in either account.
writes_undone :
    (f t x : ℕ) (s : Assoc Account)
    → Words s
    → adjust t (debit x) (
        adjust f
          (credit x)
          (adjust f count_down (adjust t (credit x) (adjust f (debit x) (adjust f count_up s)))))
      ≡ s
writes_undone f t x s h =
    let s₁ = adjust f count_up s in
    let down : adjust f count_down (adjust t (credit x) (adjust f (debit x) s₁))
        ≡ adjust t (credit x) (adjust f (debit x) s) =
      count_down-credit_comm f t x x (adjust f (debit x) s₁)
      ∙ ap (adjust t (credit x)) (
          count_down-debit_comm f f x x s₁ ∙ ap (adjust f (debit x)) (count_down-count_up f s h)) in
    let paid : adjust f (credit x) (adjust t (credit x) (adjust f (debit x) s))
        ≡ adjust t (credit x) s =
      credit-credit_comm f t x x (adjust f (debit x) s)
      ∙ ap (adjust t (credit x)) (credit-debit f x s h) in
    ap (λ y. adjust t (debit x) (adjust f (credit x) y)) down
    ∙ (ap (adjust t (debit x)) paid ∙ debit-credit t x s h)

-- Without a receiver no transaction is settled: the initial setup reports it.
settle_no_receiver_initial :
    (root : Option Account) (tx : FundsTx) (w : World) {a : Account}
    → lookup tx.from w.state ≡ some a
    → lookup tx.to w.state ≡ none
    → (settle true root tx w).0
      ≡ err (if breaks_stake tx a then staking_minimum_violated else account_missing)
unfolding settle
settle_no_receiver_initial root tx w ea e = rw (ea, e, settle)

settle_no_receiver-fails :
    (initial : Bool) (root : Option Account) (tx : FundsTx) (w : World) {w' : World} {a : Account}
    → lookup tx.from w.state ≡ some a
    → lookup tx.to w.state ≡ none
    → settle initial root tx w ≢ (ok tt, w')
settle_no_receiver-fails true root tx w ea e h =
    cc (sym (settle_no_receiver_initial root tx w ea e) ∙ ap (λ x. x.0) h)
settle_no_receiver-fails false root tx w ea e h = cc (sym (settle_no_receiver root tx w ea e) ∙ h)

-- A settled transaction found both accounts and made the three writes.
settle-ok :
    (initial : Bool) (root : Option Account) (tx : FundsTx) (w : World) {w' : World}
    → settle initial root tx w ≡ (ok tt, w')
    → (a r : Account) × (lookup tx.from w.state ≡ some a)
      × (lookup tx.to w.state ≡ some r)
      × (move tx w ≡ w')
settle-ok initial root tx w h = elim (Option-cases (lookup tx.from w.state)) [
  | inl e ↦ cc (sym (settle_no_sender initial root tx w e) ∙ h)
  | inr (a, ea) ↦ elim (Option-cases (lookup tx.to w.state)) [
    | inl e ↦ absurd (settle_no_receiver-fails initial root tx w ea e h)
    | inr (r, er) ↦ elim (Option-cases (funds_error initial tx a r)) [
      | inr (x, ex) ↦ cc (sym (settle_refused initial root tx w ea er ex) ∙ h)
      | inl en ↦ (a, r, ea, er, ap (λ x. x.1) (sym (settle_pass initial root tx w ea er en) ∙ h))
    ]
  ]
]

issue-ok :
    (root : Option Account) (tx : FundsTx) (w : World) {w' : World}
    → issue root tx w ≡ (ok tt, w')
    → Words w.state
    → Words w'.state × (revoke root tx w' ≡ w) × (w'.root_keys ≡ w.root_keys)
unfolding issue revoke
issue-ok none tx w h d = let q = ap (λ x. x.1) h in rw (← q) (d, refl, refl)
issue-ok (some a) tx w h d =
    let q : ltb max_money (add64 (add64 a.balance tx.amount) tx.fee) ≡ false = ground arith in
    let e = ap (λ x. x.1) (rw q at h) in
    rw (← e) (
      credit-Words tx.from tx.fee (adjust tx.from (credit tx.amount) w.state)
          (credit-Words tx.from tx.amount w.state d),
      (λ i. record w { state = credits_undone tx.from tx.amount tx.fee w.state d i }),
      refl,
    )

-- The sender's entry among the root keys, or none where no root account was found.
abbrev KeyOf : Option Account → FundsTx → World → Type 0
KeyOf none tx w = lookup tx.from w.root_keys ≡ none
KeyOf (some _) tx w = (r : Hash) × (lookup tx.from w.root_keys ≡ some r)

-- With the sender in the state, `revert_issue` revokes what was issued.
revert_issue_lem :
    (root : Option Account) (tx : FundsTx) (w : World) {a : Account}
    → KeyOf root tx w
    → lookup tx.from w.state ≡ some a
    → revert_issue tx w ≡ (ok tt, revoke root tx w)
unfolding revoke revert_issue
revert_issue_lem none tx w k e = rw (get_root_account-none tx.from w k, revert_issue)
revert_issue_lem (some b) tx w (r, k) e = rw (get_root_account-some tx.from w k e, revert_issue)

KeyOf-same :
    (root : Option Account) (tx : FundsTx) (w w' : World)
    → w'.root_keys ≡ w.root_keys
    → KeyOf root tx w
    → KeyOf root tx w'
KeyOf-same none tx w w' q k = rw q k
KeyOf-same (some _) tx w w' q (r, k) = (r, rw q k)

move-Words : (tx : FundsTx) (w : World) → Words w.state → Words (move tx w).state
unfolding move
move-Words tx w d =
    let s₁ = adjust tx.from count_up w.state in
    let d₁ = count_up-Words tx.from w.state d in
    credit-Words tx.to tx.amount (adjust tx.from (debit tx.amount) s₁)
      (debit-Words tx.from tx.amount s₁ d₁)

-- An account that the state holds is still there after `move`.
move-lookup :
    (tx : FundsTx) (w : World) (j : ℕ) {a : Account}
    → lookup j w.state ≡ some a
    → (b : Account) × (lookup j (move tx w).state ≡ some b)
unfolding move
move-lookup tx w j e =
    let s₁ = adjust tx.from count_up w.state in
    let (a₁, e₁, _) = lookup-adjust-some tx.from j count_up w.state e in
    let (a₂, e₂, _) = lookup-adjust-some tx.from j (debit tx.amount) s₁ e₁ in
    let (a₃, e₃, _) =
      lookup-adjust-some tx.to j (credit tx.amount) (adjust tx.from (debit tx.amount) s₁) e₂ in
    (a₃, e₃)

move-undone :
    (tx : FundsTx) (w : World)
    → Words w.state
    → write tx.to
        (debit tx.amount)
        (write tx.from (credit tx.amount) (write tx.from count_down (move tx w)))
      ≡ w
unfolding move
move-undone tx w d = λ i. record w { state = writes_undone tx.from tx.to tx.amount w.state d i }

rollback_step_lem :
    (tx : FundsTx) (w : World) {b c : Account}
    → lookup tx.from w.state ≡ some b
    → lookup tx.to w.state ≡ some c
    → funds_rollback_step tx w
      ≡ revert_issue tx (
          write tx.to
            (debit tx.amount)
            (write tx.from (credit tx.amount) (write tx.from count_down w)))
unfolding funds_rollback_step
rollback_step_lem tx w eb ec = rw (eb, ec, funds_rollback_step)

-- One transaction: whatever root account was found, its rollback restores the state.
issue-settle-undone :
    (initial : Bool) (root : Option Account) (tx : FundsTx) (w : World) {w' : World}
    → KeyOf root tx w
    → Words w.state
    → (issue root tx >> settle initial root tx) w ≡ (ok tt, w')
    → Words w'.state × (funds_rollback_step tx w' ≡ (ok tt, w))
issue-settle-undone initial root tx w {w'} k d h =
    let (w₁, h₁, h₂) = >>-eq-ok (issue root tx) (settle initial root tx) w h in
    let (d₁, back, keys) = issue-ok root tx w h₁ d in
    let (a, r, ea, er, q) = settle-ok initial root tx w₁ h₂ in
    let (b, eb) = move-lookup tx w₁ tx.from ea in
    let (c, ec) = move-lookup tx w₁ tx.to er in
    rw (← q) (
      move-Words tx w₁ d₁,
      rollback_step_lem tx (move tx w₁) eb ec
          ∙ (ap (revert_issue tx) (move-undone tx w₁ d₁)
              ∙ (revert_issue_lem root tx w₁ (KeyOf-same root tx w w₁ keys k) ea
                  ∙ ap {B = Outcome Done × World} (λ x. (ok tt, x)) back)),
    )

module _ (closed : FundsTx → Bool) (initial : Bool) where
  step-undone :
      (tx : FundsTx) (w : World) {w' : World}
      → (closed tx && not initial) ≡ false
      → Words w.state
      → funds_step closed initial tx w ≡ (ok tt, w')
      → Words w'.state × (funds_rollback_step tx w' ≡ (ok tt, w))
  step-undone tx w c d h = elim (Option-cases (lookup tx.from w.root_keys)) [
    | inl k ↦
        issue-settle-undone initial none tx w k d
          (sym (funds_step_plain closed tx w initial c k) ∙ h)
    | inr (r, k) ↦ elim (Option-cases (lookup tx.from w.state)) [
      | inl e ↦ cc (sym (funds_step_lost closed tx w initial c k e) ∙ h)
      | inr (a, e) ↦
          issue-settle-undone initial (some a) tx w (r, k) d
            (sym (funds_step_root closed tx w initial c k e) ∙ h)
    ]
  ]

  -- No transaction of the batch was skipped as one that the state holds already.
  abbrev pub NoneSkipped : List FundsTx → Type 0
  NoneSkipped [] = Unit
  NoneSkipped (tx ∷ txs) = ((closed tx && not initial) ≡ false) × NoneSkipped txs

  pub funds_state_change-Words :
      (txs : List FundsTx) (w : World) {w' : World}
      → NoneSkipped txs
      → Words w.state
      → funds_state_change closed initial txs w ≡ (ok tt, w')
      → Words w'.state
  unfolding funds_state_change
  funds_state_change-Words [] w n d h = subst (λ x. Words x.state) (ap (λ x. x.1) h) d
  funds_state_change-Words (tx ∷ txs) w n d h =
      let (w₁, h₁, h₂) =
        >>-eq-ok (funds_step closed initial tx) (for_each (funds_step closed initial) txs) w h in
      let (d₁, _) = step-undone tx w n.0 d h₁ in funds_state_change-Words txs w₁ n.1 d₁ h₂

  -- In a state whose balances and counters are words, a batch that went through, none of it skipped
  -- as closed already, is taken back by the rollback of the same batch:
  -- every account, the order of the map's entries included, is as it was.
  pub funds_state_change-rollback :
      (txs : List FundsTx) (w : World) {w' : World}
      → NoneSkipped txs
      → Words w.state
      → funds_state_change closed initial txs w ≡ (ok tt, w')
      → funds_state_change_rollback txs w' ≡ (ok tt, w)
  unfolding funds_state_change funds_state_change_rollback
  funds_state_change-rollback [] w n d h =
      ap {B = Outcome Done × World} (λ x. (ok tt, x)) (sym (ap (λ x. x.1) h))
  funds_state_change-rollback (tx ∷ txs) w {w'} n d h =
      let (w₁, h₁, h₂) =
        >>-eq-ok (funds_step closed initial tx) (for_each (funds_step closed initial) txs) w h in
      let (d₁, back) = step-undone tx w n.0 d h₁ in
      let rest = funds_state_change-rollback txs w₁ n.1 d₁ h₂ in
      let last : for_each funds_rollback_step (tx ∷ []) w₁ ≡ (ok tt, w) =
        >>=-ok (funds_rollback_step tx) (λ _. for_each funds_rollback_step []) w₁ back in
      ap (λ l. for_each funds_rollback_step l w') (reverse-cons tx txs)
      ∙ (for_each-append funds_rollback_step (reverse txs) (tx ∷ []) w'
          ∙ (>>=-ok (for_each funds_rollback_step (reverse txs))
                (λ _. for_each funds_rollback_step (tx ∷ [])) w' rest
              ∙ last))
