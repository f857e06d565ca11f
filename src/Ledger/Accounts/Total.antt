-- ===== src/Ledger/Accounts/Total.antt =====
-- The money in the state, the bound that every balance keeps, and both under one write.
use bazo_miner.Prelude.{ℕ, ◌+◌, ◌≤◌, ◌≡◌, refl, some, [], ◌∷◌, arith}
use bazo_miner.Prelude.Words.{add64_exact, sub64_exact}
use bazo_miner.Prelude.Assoc.{Assoc, lookup, adjust, Each, adjust-Each_at, Each-lookup}
use bazo_miner.Ledger.Types.{Account, max_money}
use bazo_miner.Ledger.Accounts.{credit, debit}

-- The sum of the balances, as a true sum.
unfoldable pub total : Assoc Account → ℕ
total [] = 0
total ((_, a) ∷ s) = a.balance + total s

abbrev pub IsBounded : Assoc Account → Type 0
IsBounded = Each (λ a. a.balance ≤ max_money)

pub total-adjust :
    (k : ℕ) (f : Account → Account) (s : Assoc Account) {a : Account}
    → lookup k s ≡ some a
    → total (adjust k f s) + a.balance ≡ total s + (f a).balance
unfolding total lookup adjust
total-adjust k f [] h = cc
total-adjust k f ((j, u) ∷ s) {a} h = ground (arith, total-adjust k f s {a = a})

-- Money put into an account, where it does not carry over the bound.
pub credit-total :
    (k x : ℕ) (s : Assoc Account) {a : Account}
    → lookup k s ≡ some a
    → a.balance + x ≤ max_money
    → total (adjust k (credit x) s) ≡ total s + x
credit-total k x s {a} h b =
    omega (arith, total-adjust k (credit x) s h, add64_exact a.balance x (omega arith))

pub credit-IsBounded :
    (k x : ℕ) (s : Assoc Account) {a : Account}
    → IsBounded s
    → lookup k s ≡ some a
    → a.balance + x ≤ max_money
    → IsBounded (adjust k (credit x) s)
credit-IsBounded k x s {a} w h b =
    adjust-Each_at k (credit x) (λ v. v.balance ≤ max_money) s w h
      (omega (arith, add64_exact a.balance x (omega arith)))

-- Money taken from an account that holds it.
pub debit-total :
    (k x : ℕ) (s : Assoc Account) {a : Account}
    → IsBounded s
    → lookup k s ≡ some a
    → x ≤ a.balance
    → total (adjust k (debit x) s) + x ≡ total s
debit-total k x s {a} w h b =
    let bound : a.balance ≤ max_money = Each-lookup k (λ v. v.balance ≤ max_money) s w h in
    omega (arith, total-adjust k (debit x) s h, sub64_exact a.balance x b (omega arith))

pub debit-IsBounded :
    (k x : ℕ) (s : Assoc Account) {a : Account}
    → IsBounded s
    → lookup k s ≡ some a
    → x ≤ a.balance
    → IsBounded (adjust k (debit x) s)
debit-IsBounded k x s {a} w h b =
    let bound : a.balance ≤ max_money = Each-lookup k (λ v. v.balance ≤ max_money) s w h in
    adjust-Each_at k (debit x) (λ v. v.balance ≤ max_money) s w h
      (omega (arith, sub64_exact a.balance x b (omega arith)))

-- A write that keeps every balance.
pub adjust-total_same :
    (k : ℕ) (f : Account → Account) (s : Assoc Account)
    → ((a : Account) → (f a).balance ≡ a.balance)
    → total (adjust k f s) ≡ total s
unfolding total adjust
adjust-total_same k f [] h = refl
adjust-total_same k f ((j, u) ∷ s) h = ground (arith, adjust-total_same k f s h, h u)
