-- ===== src/Preparation/Effects.antt =====
-- Every branch of addFundsTx.
use bazo_miner.Prelude.{
  ℕ, ◌≤◌, ◌<◌, ◌≡◌, ◌⊎◌, inl, inr, refl, subst, Bool, true, false, not, ◌&&◌, Option, none, some,
  List, [], ◌∷◌, arith, ltb, ◌==◌, Bool-cases,
}
use bazo_miner.Prelude.Assoc.{Assoc, lookup, adjust}
use bazo_miner.Prelude.Words.{add64}
use bazo_miner.Ledger.Types.{Bytes, Hash, Account, FundsTx, max_money}
use bazo_miner.Ledger.Accounts.{is_root_key}
use bazo_miner.Storage.{Transaction, funds, read_closed_tx}
use bazo_miner.Vm.Context.{persist_changes}
use bazo_miner.Vm.Machine.{Vm, Flow, value, stop, panic, hang}
use bazo_miner.Vm.Exec.{exec, new_vm}
use bazo_miner.Preparation.State.{
  Building, Outside, done, sender_missing, receiver_missing, not_enough_funds, tx_cnt_differs,
  receiver_overflow, contract_failed, seen, copy_account,
}
use bazo_miner.Preparation.Funds.{
  add_funds_tx, pay, persist_and_pay, after_contract, run_contract, counter_error, check_receiver,
  check_sender, with_receiver, with_sender, drop_closed, new_context, is_empty,
}
use bazo_miner.Preparation.Payments.{Effect, Wrote, ContractRan, stuck, skipped, added}
use bazo_miner.Preparation.Copies.{
  copy_account-Filled, Filled-Effect, reject-Effect, seen-pay, set_written, write_both,
}

adjust-id :
    (k : Hash) (f : Account → Account) (s : Assoc Account)
    → ((a : Account) → f a ≡ a)
    → adjust k f s ≡ s
unfolding adjust
adjust-id k f [] h = refl
adjust-id k f ((j, a) ∷ s) h = elim (Bool-cases (k == j)) [
  | inl e ↦ rw (e, h a) refl
  | inr e ↦ rw (e, adjust-id k f s h) refl
]

module _ (outside : Outside) where
  write_both-none : (h : Hash) (b : Building) → write_both none h b ≡ b
  write_both-none h b =
      let copy = adjust-id h (set_written none) b.state_copy (λ a. refl) in
      let state = adjust-id h (set_written none) b.world.state (λ a. refl) in
      λ i. record b { state_copy = copy i; world = record b.world { state = state i } }

  module _ (fuel : ℕ) (tx : FundsTx) (sender receiver : Account) (b : Building)
      (from_copied : lookup tx.from b.state_copy ≡ some sender)
      (to_copied : lookup tx.to b.state_copy ≡ some receiver) (counter : tx.tx_cnt ≡ sender.tx_cnt)
      (cover : (is_root_key tx.from b.world ≡ true) ⊎ (add64 tx.amount tx.fee ≤ sender.balance))
      (fits : add64 receiver.balance tx.amount ≤ max_money) where
    pay-Effect :
        (written : Option (List Bytes))
        → ContractRan outside fuel tx receiver written
        → Effect outside fuel tx b (pay outside tx (write_both written tx.to b)) done
    unfolding pay
    pay-Effect written ran =
        added sender receiver written refl (rw from_copied refl) (rw to_copied refl) counter cover
          fits ran (seen-pay outside tx sender receiver written b from_copied to_copied) refl

    persist_and_pay-Effect :
        (o : Option (List Bytes))
        → ((vars : List Bytes) → o ≡ some vars → ContractRan outside fuel tx receiver (some vars))
        → Effect outside fuel tx b
            (persist_and_pay outside tx o b).0
            (persist_and_pay outside tx o b).1
    persist_and_pay-Effect none ran = stuck (inl refl)
    persist_and_pay-Effect (some vars) ran = pay-Effect (some vars) (ran vars refl)

    after_contract-Effect :
        (r : Flow Bool × Vm)
        → ((vars : List Bytes) → Wrote r vars → ContractRan outside fuel tx receiver (some vars))
        → Effect outside fuel tx b
            (after_contract outside tx r b).0
            (after_contract outside tx r b).1
    after_contract-Effect (value true, vm) ran =
        persist_and_pay-Effect (persist_changes vm.context) ran
    after_contract-Effect (value false, vm) ran = reject-Effect outside fuel tx contract_failed b
    after_contract-Effect (stop true, vm) ran =
        persist_and_pay-Effect (persist_changes vm.context) ran
    after_contract-Effect (stop false, vm) ran = reject-Effect outside fuel tx contract_failed b
    after_contract-Effect (panic, vm) ran = stuck (inl refl)
    after_contract-Effect (hang, vm) ran = stuck (inr refl)

    run_contract-Effect :
        Effect outside fuel tx b
          (run_contract outside fuel tx receiver b).0
          (run_contract outside fuel tx receiver b).1
    run_contract-Effect =
        elim (Bool-cases (not (is_empty tx.payload) && not (is_empty receiver.contract))) [
          | inl e ↦ rw e (
              after_contract-Effect
                (exec outside.sha3 outside.check_sig fuel (new_vm (new_context receiver tx)))
                (λ vars wrote. (e, wrote)))
          | inr e ↦ rw e (
              subst (λ (x : Building). Effect outside fuel tx b (pay outside tx x) done)
                (write_both-none tx.to b) (pay-Effect none e))
        ]

  check_receiver-Effect :
      (fuel : ℕ) (tx : FundsTx) (sender : Account) (o : Option Account) (b : Building)
      → lookup tx.from b.state_copy ≡ some sender
      → lookup tx.to b.state_copy ≡ o
      → tx.tx_cnt ≡ sender.tx_cnt
      → (is_root_key tx.from b.world ≡ true) ⊎ (add64 tx.amount tx.fee ≤ sender.balance)
      → Effect outside fuel tx b
          (check_receiver outside fuel tx o b).0
          (check_receiver outside fuel tx o b).1
  check_receiver-Effect fuel tx sender none b e f cnt cover = stuck (inl refl)
  check_receiver-Effect fuel tx sender (some receiver) b e f cnt cover =
      elim (Bool-cases (ltb max_money (add64 receiver.balance tx.amount))) [
        | inl z ↦ rw z (reject-Effect outside fuel tx receiver_overflow b)
        | inr z ↦ rw z (run_contract-Effect fuel tx sender receiver b e f cnt cover (ground arith))
      ]

  drop_closed-Effect :
      (fuel : ℕ) (tx : FundsTx) (sender : Account) (o : Option Transaction) (b : Building)
      → seen b tx.from ≡ some sender
      → tx.tx_cnt < sender.tx_cnt
      → Effect outside fuel tx b (drop_closed outside tx o b) done
  drop_closed-Effect fuel tx sender none b e lt = skipped sender refl e lt ((λ k. refl), refl)
  drop_closed-Effect fuel tx sender (some t) b e lt = skipped sender refl e lt ((λ k. refl), refl)

  counter_error-Effect :
      (fuel : ℕ) (tx : FundsTx) (sender : Account) (b : Building)
      → lookup tx.from b.state_copy ≡ some sender
      → Effect outside fuel tx b
          (counter_error outside tx sender b).0
          (counter_error outside tx sender b).1
  counter_error-Effect fuel tx sender b e = elim (Bool-cases (ltb tx.tx_cnt sender.tx_cnt)) [
    | inl z ↦ rw z (
        drop_closed-Effect fuel tx sender
          (read_closed_tx (outside.checker.hash (funds tx)) b.storage) b (rw e refl) (ground arith))
    | inr z ↦ rw z (reject-Effect outside fuel tx tx_cnt_differs b)
  ]

  check_sender-Effect :
      (fuel : ℕ) (tx : FundsTx) (o : Option Account) (b : Building)
      → lookup tx.from b.state_copy ≡ o
      → Effect outside fuel tx b
          (check_sender outside fuel tx o b).0
          (check_sender outside fuel tx o b).1
  check_sender-Effect fuel tx none b e = stuck (inl refl)
  check_sender-Effect fuel tx (some sender) b e = elim (Bool-cases (sender.tx_cnt == tx.tx_cnt)) [
    | inl c ↦ elim (Bool-cases (is_root_key tx.from b.world)) [
      | inl root ↦
          rw (root, c)
            (check_receiver-Effect fuel tx sender (lookup tx.to b.state_copy) b e refl
              (ground arith) (inl root))
      | inr plain ↦ elim (Bool-cases (ltb sender.balance (add64 tx.amount tx.fee))) [
        | inl poor ↦ rw (plain, poor) (reject-Effect outside fuel tx not_enough_funds b)
        | inr rich ↦
            rw (plain, rich, c)
              (check_receiver-Effect fuel tx sender (lookup tx.to b.state_copy) b e refl
                (ground arith) (inr (ground arith)))
      ]
    ]
    | inr c ↦
        elim (Bool-cases
          (not (is_root_key tx.from b.world) && ltb sender.balance (add64 tx.amount tx.fee))) [
            | inl poor ↦ rw poor (reject-Effect outside fuel tx not_enough_funds b)
            | inr rich ↦ rw (rich, c) (counter_error-Effect fuel tx sender b e)
          ]
  ]

  with_receiver-Effect :
      (fuel : ℕ) (tx : FundsTx) (b : Building) (o : Option Building)
      → copy_account outside tx.to b ≡ o
      → Effect outside fuel tx b
          (with_receiver outside fuel tx b o).0
          (with_receiver outside fuel tx b o).1
  with_receiver-Effect fuel tx b none e = reject-Effect outside fuel tx receiver_missing b
  with_receiver-Effect fuel tx b (some b') e =
      Filled-Effect outside fuel tx b b' _ _ (copy_account-Filled outside tx.to b b' e)
        (check_sender-Effect fuel tx (lookup tx.from b'.state_copy) b' refl)

  with_sender-Effect :
      (fuel : ℕ) (tx : FundsTx) (b : Building) (o : Option Building)
      → copy_account outside tx.from b ≡ o
      → Effect outside fuel tx b
          (with_sender outside fuel tx b o).0
          (with_sender outside fuel tx b o).1
  with_sender-Effect fuel tx b none e = reject-Effect outside fuel tx sender_missing b
  with_sender-Effect fuel tx b (some b') e =
      Filled-Effect outside fuel tx b b' _ _ (copy_account-Filled outside tx.from b b' e)
        (with_receiver-Effect fuel tx b' (copy_account outside tx.to b') refl)

  -- addFundsTx, whatever the block and the payment: an error leaves the accounts that the block sees
  -- and its payments as they are; nil means that the counter was below the sender's and nothing
  -- happened, or that the payment was added, with the sender's counter, a balance that covers it
  -- unless the sender is a root account, a receiver that stays within MAX_MONEY, and exactly its
  -- effect on every account, the changes of the contract's run included; otherwise it panics or its
  -- contract runs on.
  pub add_funds_tx-Effect :
      (fuel : ℕ) (tx : FundsTx) (b : Building)
      → Effect outside fuel tx b
          (add_funds_tx outside fuel tx b).0
          (add_funds_tx outside fuel tx b).1
  unfolding add_funds_tx
  add_funds_tx-Effect fuel tx b = with_sender-Effect fuel tx b (copy_account outside tx.from b) refl
