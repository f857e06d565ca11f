-- ===== src/Ledger/Accounts/Laws.antt =====
-- The writes through account pointers commute, and each is undone by its opposite on words.
use bazo_miner.Prelude.{ℕ, ◌<◌, ◌≡◌, refl}
use bazo_miner.Prelude.Words.{
  u64_mod, u32_mod, add64-lt, sub64-lt, add32-lt, sub64-add64, add64-sub64, sub32-add32,
  add64-add64, sub64-sub64, sub64-add64_comm,
}
use bazo_miner.Prelude.Assoc.{Assoc, adjust, Each, adjust_comm, adjust-adjust_undo, adjust-Each}
use bazo_miner.Ledger.Types.{Account}
use bazo_miner.Ledger.Accounts.{credit, debit, count_up, count_down}

-- What the types uint64 and uint32 of the fields say.
pub record IsWord (a : Account) : Type 0 where
  pub balance_fits : a.balance < u64_mod
  pub tx_cnt_fits : a.tx_cnt < u32_mod

abbrev pub Words : Assoc Account → Type 0
Words = Each IsWord

module _ (k x : ℕ) (s : Assoc Account) (h : Words s) where
  pub credit-Words : Words (adjust k (credit x) s)
  credit-Words =
      adjust-Each k (credit x) IsWord s h
        (λ a p. record { balance_fits = add64-lt a.balance x; tx_cnt_fits = p.tx_cnt_fits })

  pub debit-Words : Words (adjust k (debit x) s)
  debit-Words =
      adjust-Each k (debit x) IsWord s h
        (λ a p. record { balance_fits = sub64-lt a.balance x; tx_cnt_fits = p.tx_cnt_fits })

  pub debit-credit : adjust k (debit x) (adjust k (credit x) s) ≡ s
  debit-credit =
      adjust-adjust_undo k (debit x) (credit x) IsWord s h
        (λ a p. λ i. record a { balance = sub64-add64 a.balance x p.balance_fits i })

  pub credit-debit : adjust k (credit x) (adjust k (debit x) s) ≡ s
  credit-debit =
      adjust-adjust_undo k (credit x) (debit x) IsWord s h
        (λ a p. λ i. record a { balance = add64-sub64 a.balance x p.balance_fits i })

module _ (k : ℕ) (s : Assoc Account) (h : Words s) where
  pub count_up-Words : Words (adjust k count_up s)
  count_up-Words =
      adjust-Each k count_up IsWord s h
        (λ a p. record { balance_fits = p.balance_fits; tx_cnt_fits = add32-lt a.tx_cnt 1 })

  pub count_down-count_up : adjust k count_down (adjust k count_up s) ≡ s
  count_down-count_up =
      adjust-adjust_undo k count_down count_up IsWord s h
        (λ a p. λ i. record a { tx_cnt = sub32-add32 a.tx_cnt 1 p.tx_cnt_fits i })

module _ (j k x y : ℕ) (s : Assoc Account) where
  pub debit-credit_comm :
      adjust j (debit x) (adjust k (credit y) s) ≡ adjust k (credit y) (adjust j (debit x) s)
  debit-credit_comm =
      adjust_comm j k (debit x) (credit y) s
        (λ a i. record a { balance = sub64-add64_comm a.balance y x i })

  pub debit-debit_comm :
      adjust j (debit x) (adjust k (debit y) s) ≡ adjust k (debit y) (adjust j (debit x) s)
  debit-debit_comm =
      adjust_comm j k (debit x) (debit y) s
        (λ a i. record a { balance = sub64-sub64 a.balance y x i })

  pub count_down-credit_comm :
      adjust j count_down (adjust k (credit y) s) ≡ adjust k (credit y) (adjust j count_down s)
  count_down-credit_comm = adjust_comm j k count_down (credit y) s (λ a. refl)

  pub count_down-debit_comm :
      adjust j count_down (adjust k (debit y) s) ≡ adjust k (debit y) (adjust j count_down s)
  count_down-debit_comm = adjust_comm j k count_down (debit y) s (λ a. refl)

pub credit-credit_comm :
    (j k x y : ℕ) (s : Assoc Account)
    → adjust j (credit x) (adjust k (credit y) s) ≡ adjust k (credit y) (adjust j (credit x) s)
credit-credit_comm j k x y s =
    adjust_comm j k (credit x) (credit y) s
      (λ a i. record a { balance = add64-add64 a.balance y x i })
