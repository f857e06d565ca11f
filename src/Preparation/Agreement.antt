-- ===== src/Preparation/Agreement.antt =====
-- What addFundsTx adds, fundsStateChange accepts.
use bazo_miner.Prelude.{
  ℕ, ◌%◌, ◌≤◌, ◌<◌, ◌≡◌, ◌⊎◌, inl, inr, sym, ap, subst, true, false, none, some, arith, ltb,
  Bool-cases,
}
use bazo_miner.Prelude.Words.{add64, u64_mod}
use bazo_miner.Ledger.Types.{Account, FundsTx, max_money, min_staking_minimum}
use bazo_miner.Ledger.Accounts.{is_root_key}
use bazo_miner.Ledger.Funds.{funds_error}
use bazo_miner.Ledger.Funds.Counter.{funds_error-none_iff}
use bazo_miner.Preparation.State.{Building, Adding, Outside, done, seen}
use bazo_miner.Preparation.Funds.{add_funds_tx}
use bazo_miner.Preparation.Payments.{Effect, rejected, stuck, skipped, added}
use bazo_miner.Preparation.Effects.{add_funds_tx-Effect}

add64_comm : (a b : ℕ) → add64 a b ≡ add64 b a
unfolding add64
add64_comm a b = ap (λ (x : ℕ). x % u64_mod) (omega arith)

three_checks :
    (tx : FundsTx) (sender receiver : Account)
    → tx.tx_cnt ≡ sender.tx_cnt
    → add64 tx.amount tx.fee ≤ sender.balance
    → add64 receiver.balance tx.amount ≤ max_money
    → (funds_error false tx sender receiver ≡ none)
      ⊎ ((sender.is_staking ≡ true)
          × (sender.balance < add64 (add64 tx.fee min_staking_minimum) tx.amount))
three_checks tx sender receiver c e f =
    let pass =
      λ (staked : (sender.is_staking ≡ false)
          ⊎ (add64 (add64 tx.fee min_staking_minimum) tx.amount ≤ sender.balance)).
        (funds_error-none_iff tx sender receiver).1 (record {
          counter = inr (omega arith);
          covered = e;
          staked = staked;
          fits = omega (arith, f, add64_comm receiver.balance tx.amount);
        }) in
    elim (Bool-cases sender.is_staking) [
      | inl s ↦
          elim (Bool-cases
            (ltb sender.balance (add64 (add64 tx.fee min_staking_minimum) tx.amount))) [
              | inl z ↦ inr (s, ground arith)
              | inr z ↦ inl (pass (inr (ground arith)))
            ]
      | inr s ↦ inl (pass (inl s))
    ]

module _ (outside : Outside) where
  accepted :
      (fuel : ℕ) (tx : FundsTx) (b b' : Building) (r : Adding) (sender receiver : Account)
      → seen b tx.from ≡ some sender
      → seen b tx.to ≡ some receiver
      → tx.tx_cnt ≡ sender.tx_cnt
      → is_root_key tx.from b.world ≡ false
      → r ≡ done
      → Effect outside fuel tx b b' r
      → (funds_error false tx sender receiver ≡ none)
        ⊎ ((sender.is_staking ≡ true)
            × (sender.balance < add64 (add64 tx.fee min_staking_minimum) tx.amount))
  accepted fuel tx b b' r sender receiver e f c plain q (rejected x q' same) = absurd (cc)
  accepted fuel tx b b' r sender receiver e f c plain q (stuck (inl q')) = absurd (cc)
  accepted fuel tx b b' r sender receiver e f c plain q (stuck (inr q')) = absurd (cc)
  accepted fuel tx b b' r sender receiver e f c plain q (skipped a q' e' lt same) =
      let s : a ≡ sender = cc in
      let lt' : tx.tx_cnt < sender.tx_cnt = rw (← s) lt in absurd (omega arith)
  accepted fuel tx b b' r sender receiver e f c plain q
        (added a d ch q' e' f' c' cover fits run u v) =
      let s : sender ≡ a = cc in
      let s' : receiver ≡ d = cc in
      elim cover [
        | inl root ↦ absurd (cc)
        | inr enough ↦
            three_checks tx sender receiver c
              (subst (λ (x : Account). add64 tx.amount tx.fee ≤ x.balance) (sym s) enough)
              (subst (λ (x : Account). add64 x.balance tx.amount ≤ max_money) (sym s') fits)
      ]

  -- A payment with the sender's counter, from an account that is no root account, for which
  -- addFundsTx returns nil passes, after the initial setup, the checks of fundsStateChange on the
  -- accounts that the block sees, or its sender stakes and would not keep the minimum, which
  -- addFundsTx does not check.
  pub add_funds_tx-funds_error :
      (fuel : ℕ) (tx : FundsTx) (b : Building) (sender receiver : Account)
      → seen b tx.from ≡ some sender
      → seen b tx.to ≡ some receiver
      → tx.tx_cnt ≡ sender.tx_cnt
      → is_root_key tx.from b.world ≡ false
      → (add_funds_tx outside fuel tx b).1 ≡ done
      → (funds_error false tx sender receiver ≡ none)
        ⊎ ((sender.is_staking ≡ true)
            × (sender.balance < add64 (add64 tx.fee min_staking_minimum) tx.amount))
  add_funds_tx-funds_error fuel tx b sender receiver e f c plain q =
      accepted fuel tx b _ _ sender receiver e f c plain q (add_funds_tx-Effect outside fuel tx b)
