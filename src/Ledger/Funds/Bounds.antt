-- ===== src/Ledger/Funds/Bounds.antt =====
-- What a batch of fund transactions does to the money in the state.
use bazo_miner.Prelude.{
  ℕ, ◌+◌, ◌≤◌, ◌≡◌, refl, Bool, false, Option, none, some, arith, ltb, inl, inr, Bool-cases,
  Option-cases,
}
use mathlib.Core.Path.{sym, ◌∙◌, ap}
use mathlib.Core.Option.{some-injective}
use native.Mathlib.Nat.{le_refl}
use bazo_miner.Prelude.Words.{add64, add64_exact, sub64_exact}
use bazo_miner.Prelude.Assoc.{
  Assoc, lookup, adjust, lookup-adjust_self, adjust-Each, lookup-adjust-some, Each-lookup,
}
use bazo_miner.Ledger.Types.{Account, World, FundsTx, max_money}
use bazo_miner.Ledger.Monad.{ok, err, panic, Error, Post}
use bazo_miner.Ledger.Accounts.{credit, debit, count_up}
use bazo_miner.Ledger.Accounts.Total.{
  total, IsBounded, credit-total, credit-IsBounded, debit-total, debit-IsBounded, adjust-total_same,
}
use bazo_miner.Ledger.Accounts.Laws.{
  Words, credit-Words, debit-Words, count_up-Words, debit-credit, debit-credit_comm,
}
use bazo_miner.Ledger.Funds.{issue, revoke, funds_error, move, settle}

-- An amount and a fee that together are an amount of money: no sum of them with a balance carries
-- out of the word.
abbrev pub IsPayable : FundsTx → Type 0
IsPayable tx = tx.amount + tx.fee ≤ max_money

-- After a debit that its account covers no balance is higher than it was.
debit_lower :
    (j k x : ℕ) (s : Assoc Account) {a u v : Account}
    → IsBounded s
    → lookup k s ≡ some a
    → x ≤ a.balance
    → lookup j s ≡ some u
    → lookup j (adjust k (debit x) s) ≡ some v
    → v.balance ≤ u.balance
debit_lower j k x s {a} {u} {v} b ea hx eu ev =
    let (v', e', c) = lookup-adjust-some k j (debit x) s eu in
    let same : v ≡ v' = some-injective v v' (sym ev ∙ e') in
    elim c [
      | inl p ↦ rw (same, p) (le_refl _)
      | inr (q, p) ↦
          let au : u ≡ a = some-injective u a (sym eu ∙ rw q ea) in
          let bound : a.balance ≤ max_money = Each-lookup k (λ y. y.balance ≤ max_money) s b ea in
          rw (same, p, au) (omega (arith, sub64_exact a.balance x hx (omega arith)))
    ]

-- `move` between accounts that exist, covered by the sender and fitting the receiver.
move_bounds :
    (tx : FundsTx) (w : World) {a r : Account}
    → IsBounded w.state
    → lookup tx.from w.state ≡ some a
    → lookup tx.to w.state ≡ some r
    → tx.amount ≤ a.balance
    → tx.amount + r.balance ≤ max_money
    → IsBounded (move tx w).state × (total (move tx w).state ≡ total w.state)
unfolding move
move_bounds tx w {a} {r} b ea er ha hr =
    let s = w.state in
    let s₁ = adjust tx.from count_up s in
    let e₁ : lookup tx.from s₁ ≡ some (count_up a) = lookup-adjust_self tx.from count_up s ea in
    let b₁ : IsBounded s₁ =
      adjust-Each tx.from count_up (λ v. v.balance ≤ max_money) s b (λ v h. h) in
    let b₂ = debit-IsBounded tx.from tx.amount s₁ b₁ e₁ ha in
    let t₂ = debit-total tx.from tx.amount s₁ b₁ e₁ ha in
    let (u, eu, cu) = lookup-adjust-some tx.from tx.to count_up s er in
    let (v, ev, cv) = lookup-adjust-some tx.from tx.to (debit tx.amount) s₁ eu in
    let kept : u.balance ≡ r.balance = elim cu [
      | inl p ↦ ap (λ x. x.balance) p
      | inr (_, p) ↦ ap (λ x. x.balance) p
    ] in
    let small : v.balance ≤ u.balance = debit_lower tx.to tx.from tx.amount s₁ b₁ e₁ ha eu ev in
    let s₂ = adjust tx.from (debit tx.amount) s₁ in
    (
      credit-IsBounded tx.to tx.amount s₂ b₂ ev (omega arith),
      omega (
        arith,
        credit-total tx.to tx.amount s₂ ev (omega arith),
        t₂,
        adjust-total_same tx.from count_up s (λ x. refl),
      ),
    )

-- Every balance is at most MAX_MONEY, and counters are words.
pub record IsSound (w : World) : Type 0 where
  pub bounded : IsBounded w.state
  pub words : Words w.state

funds_error-none :
    (tx : FundsTx) (s r : Account)
    → funds_error false tx s r ≡ none
    → (add64 tx.amount tx.fee ≤ s.balance) × (add64 tx.amount r.balance ≤ max_money)
unfolding funds_error
funds_error-none tx s r h = ground arith

move-root_keys : (tx : FundsTx) (w : World) → (move tx w).root_keys ≡ w.root_keys
unfolding move
move-root_keys tx w = refl

move-IsSound :
    (tx : FundsTx) (w : World) → IsBounded (move tx w).state → IsSound w → IsSound (move tx w)
unfolding move
move-IsSound tx w b h =
    let w₁ = count_up-Words tx.from w.state h.words in
    let w₂ = debit-Words tx.from tx.amount (adjust tx.from count_up w.state) w₁ in
    record {
      bounded = b;
      words =
          credit-Words tx.to tx.amount
            (adjust tx.from (debit tx.amount) (adjust tx.from count_up w.state)) w₂;
    }

module _ (initial : Bool) (root : Option Account) (tx : FundsTx) (w : World) where
  pub settle_no_sender : lookup tx.from w.state ≡ none → settle initial root tx w ≡ (panic, w)
  unfolding settle
  settle_no_sender e = rw (e, settle)

  module _ {a r : Account} (ea : lookup tx.from w.state ≡ some a) where
    pub settle_pass :
        lookup tx.to w.state ≡ some r
        → funds_error initial tx a r ≡ none
        → settle initial root tx w ≡ (ok tt, move tx w)
    unfolding settle
    settle_pass er e = rw (ea, er, e, settle)

    pub settle_refused :
        {x : Error}
        → lookup tx.to w.state ≡ some r
        → funds_error initial tx a r ≡ some x
        → settle initial root tx w ≡ (err x, revoke root tx w)
    unfolding settle
    settle_refused er e = rw (ea, er, e, settle)

pub settle_no_receiver :
    (root : Option Account) (tx : FundsTx) (w : World) {a : Account}
    → lookup tx.from w.state ≡ some a
    → lookup tx.to w.state ≡ none
    → settle false root tx w ≡ (panic, w)
unfolding settle
settle_no_receiver root tx w ea e = rw (ea, e, settle)

-- A settled transaction keeps the money; a refused one leaves what `revoke` makes of the state.
pub settle_bounds :
    (root : Option Account) (tx : FundsTx) (w : World)
    → IsPayable tx
    → IsSound w
    → Post
        (λ w'. IsSound w' × (total w'.state ≡ total w.state) × (w'.root_keys ≡ w.root_keys))
        (λ w'. w' ≡ revoke root tx w)
        (settle false root tx w)
settle_bounds root tx w p h = elim (Option-cases (lookup tx.from w.state)) [
  | inl e ↦ rw (settle_no_sender false root tx w e) tt
  | inr (a, ea) ↦ elim (Option-cases (lookup tx.to w.state)) [
    | inl e ↦ rw (settle_no_receiver root tx w ea e) tt
    | inr (r, er) ↦ elim (Option-cases (funds_error false tx a r)) [
      | inr (x, ex) ↦ rw (settle_refused false root tx w ea er ex) refl
      | inl en ↦
          let (f₁, f₂) = funds_error-none tx a r en in
          let n₁ : tx.amount ≤ a.balance =
            omega (arith, f₁, add64_exact tx.amount tx.fee (omega arith)) in
          let bound : r.balance ≤ max_money =
            Each-lookup tx.to (λ y. y.balance ≤ max_money) w.state h.bounded er in
          let n₂ : tx.amount + r.balance ≤ max_money =
            omega (arith, f₂, add64_exact tx.amount r.balance (omega arith)) in
          let (b, t) = move_bounds tx w h.bounded ea er n₁ n₂ in
          rw (settle_pass false root tx w ea er en) (move-IsSound tx w b h, t, move-root_keys tx w)
    ]
  ]
]

-- The coins that a transaction of a root account brings into the state.
abbrev pub issued : Option Account → FundsTx → ℕ
issued none tx = 0
issued (some _) tx = tx.amount + tx.fee

abbrev pub IsRoot : Option Account → FundsTx → World → Type 0
IsRoot none tx w = Unit
IsRoot (some a) tx w = lookup tx.from w.state ≡ some a

-- Both credits of a root account, where the check of the sum passed.
credits_bounds :
    (k x y : ℕ) (s : Assoc Account) {a : Account}
    → x + y ≤ max_money
    → IsBounded s
    → lookup k s ≡ some a
    → add64 (add64 a.balance x) y ≤ max_money
    → IsBounded (adjust k (credit y) (adjust k (credit x) s))
      × (total (adjust k (credit y) (adjust k (credit x) s)) ≡ total s + (x + y))
credits_bounds k x y s {a} p b e h =
    let bound : a.balance ≤ max_money = Each-lookup k (λ v. v.balance ≤ max_money) s b e in
    let e₁ : add64 a.balance x ≡ a.balance + x = add64_exact a.balance x (omega arith) in
    let e₂ : add64 (a.balance + x) y ≡ a.balance + x + y =
      add64_exact (a.balance + x) y (omega arith) in
    let sum : a.balance + x + y ≤ max_money = rw (← e₂, ← e₁) h in
    let s₁ = adjust k (credit x) s in
    let l₁ = lookup-adjust_self k (credit x) s e in
    let n₁ : a.balance + x ≤ max_money = omega arith in
    let n₂ : add64 a.balance x + y ≤ max_money = omega arith in
    (
      credit-IsBounded k y s₁ (credit-IsBounded k x s b e n₁) l₁ n₂,
      omega (arith, credit-total k y s₁ l₁ n₂, credit-total k x s e n₁),
    )

-- The two debits of `revoke` undo the two credits of `issue`.
pub credits_undone :
    (k x y : ℕ) (s : Assoc Account)
    → Words s
    → adjust k (debit y) (adjust k (debit x) (adjust k (credit y) (adjust k (credit x) s))) ≡ s
credits_undone k x y s h =
    ap (adjust k (debit y)) (debit-credit_comm k k x y (adjust k (credit x) s))
    ∙ (debit-credit k y (adjust k (debit x) (adjust k (credit x) s))
          (debit-Words k x (adjust k (credit x) s) (credit-Words k x s h))
        ∙ debit-credit k x s h)

-- The credit of a root account fits, or the state is left alone.
pub issue_bounds :
    (root : Option Account) (tx : FundsTx) (w : World)
    → IsPayable tx
    → IsSound w
    → IsRoot root tx w
    → Post
        (λ w'.
          IsSound w'
          × (total w'.state ≡ total w.state + issued root tx)
          × (w'.root_keys ≡ w.root_keys)
          × (revoke root tx w' ≡ w))
        (λ w'. w' ≡ w)
        (issue root tx w)
unfolding issue revoke
issue_bounds none tx w p h e = (h, omega arith, refl, refl)
issue_bounds (some a) tx w p h e =
    elim (Bool-cases (ltb max_money (add64 (add64 a.balance tx.amount) tx.fee))) [
      | inl over ↦ rw over refl
      | inr fits ↦
          let (b, t) =
            credits_bounds tx.from tx.amount tx.fee w.state p h.bounded e (ground arith) in
          rw fits (
            record {
              bounded = b;
              words =
                  credit-Words tx.from tx.fee (adjust tx.from (credit tx.amount) w.state)
                    (credit-Words tx.from tx.amount w.state h.words);
            },
            t,
            refl,
            λ i. record w { state = credits_undone tx.from tx.amount tx.fee w.state h.words i },
          )
    ]
