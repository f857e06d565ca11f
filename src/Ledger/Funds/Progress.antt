-- ===== src/Ledger/Funds/Progress.antt =====
-- No nil pointer is read by `fundsStateChange` when senders and receivers are in the state.
use bazo_miner.Prelude.{
  ◌≡◌, Bool, not, ◌&&◌, Option, none, some, List, [], ◌∷◌, inl, inr, Bool-cases, Option-cases, ltb,
}
use bazo_miner.Prelude.Words.{add64}
use bazo_miner.Prelude.Assoc.{lookup, lookup-adjust-some}
use bazo_miner.Ledger.Types.{World, Account, FundsTx, Hash, max_money}
use bazo_miner.Ledger.Monad.{Action, Outcome, ok, err, panic, Done, ◌>>◌, for_each, after}
use bazo_miner.Ledger.Accounts.{credit, debit, count_up, write}
use bazo_miner.Ledger.Funds.{issue, funds_error, move, settle, funds_step, funds_state_change}
use bazo_miner.Ledger.Funds.Bounds.{settle_pass, settle_refused}
use bazo_miner.Ledger.Funds.Batch.{funds_step_plain, funds_step_root}

-- A call that returns or returns an error, with the property of the world behind a return.
abbrev pub Runs : (World → Type 0) → Outcome Done × World → Type 0
Runs P (ok _, w) = P w
Runs P (err _, w) = Unit
Runs P (panic, w) = ⊥

Runs-rest :
    (P Q : World → Type 0) (x : Outcome Done × World) (k : Action Done)
    → Runs P x
    → ((w : World) → P w → Runs Q (k w))
    → Runs Q (after x (λ _. k))
Runs-rest P Q (ok _, w) k h f = f w h
Runs-rest P Q (err _, w) k h f = tt
Runs-rest P Q (panic, w) k h f = elim h [ ]

Runs-then :
    (P Q : World → Type 0) (m k : Action Done) (w : World)
    → Runs P (m w)
    → ((w' : World) → P w' → Runs Q (k w'))
    → Runs Q ((m >> k) w)
Runs-then P Q m k w h f = Runs-rest P Q (m w) k h f

Runs-map :
    (P Q : World → Type 0) (x : Outcome Done × World)
    → Runs P x
    → ((w : World) → P w → Q w)
    → Runs Q x
Runs-map P Q (ok _, w) h f = f w h
Runs-map P Q (err _, w) h f = tt
Runs-map P Q (panic, w) h f = elim h [ ]

-- The account is in the state.
abbrev pub Present : Hash → World → Type 0
Present k w = (a : Account) × (lookup k w.state ≡ some a)

-- Sender and receiver of every transaction are in the state.
abbrev pub AllKnown : List FundsTx → World → Type 0
AllKnown [] w = Unit
AllKnown (tx ∷ txs) w = (Present tx.from w × Present tx.to w) × AllKnown txs w

-- No account is lost on the way.
abbrev pub Keeps : World → World → Type 0
Keeps w w' = (k : Hash) → Present k w → Present k w'

write-Keeps : (j : Hash) (f : Account → Account) (w : World) → Keeps w (write j f w)
write-Keeps j f w k (a, h) = let (u, e, _) = lookup-adjust-some j k f w.state h in (u, e)

Keeps-AllKnown : (txs : List FundsTx) (w w' : World) → Keeps w w' → AllKnown txs w → AllKnown txs w'
Keeps-AllKnown [] w w' k h = tt
Keeps-AllKnown (tx ∷ txs) w w' k ((f, t), h) =
    ((k tx.from f, k tx.to t), Keeps-AllKnown txs w w' k h)

move-Keeps : (tx : FundsTx) (w : World) → Keeps w (move tx w)
unfolding move
move-Keeps tx w k h =
    let w₁ = write tx.from count_up w in
    let w₂ = write tx.from (debit tx.amount) w₁ in
    write-Keeps tx.to (credit tx.amount) w₂ k
      (write-Keeps tx.from (debit tx.amount) w₁ k (write-Keeps tx.from count_up w k h))

issue-Runs : (root : Option Account) (tx : FundsTx) (w : World) → Runs (Keeps w) (issue root tx w)
unfolding issue
issue-Runs none tx w = λ k h. h
issue-Runs (some a) tx w =
    elim (Bool-cases (ltb max_money (add64 (add64 a.balance tx.amount) tx.fee))) [
      | inl q ↦ rw q tt
      | inr q ↦ rw q (λ k h.
          let w₁ = write tx.from (credit tx.amount) w in
          write-Keeps tx.from (credit tx.fee) w₁ k (write-Keeps tx.from (credit tx.amount) w k h))
    ]

settle-Runs :
    (initial : Bool) (root : Option Account) (tx : FundsTx) (w : World)
    → Present tx.from w
    → Present tx.to w
    → Runs (Keeps w) (settle initial root tx w)
settle-Runs initial root tx w (a, ea) (b, eb) = elim (Option-cases (funds_error initial tx a b)) [
  | inl e ↦ rw (settle_pass initial root tx w ea eb e) (move-Keeps tx w)
  | inr (x, e) ↦ rw (settle_refused initial root tx w ea eb e) tt
]

issue-settle-Runs :
    (initial : Bool) (root : Option Account) (tx : FundsTx) (w : World)
    → Present tx.from w
    → Present tx.to w
    → Runs (Keeps w) ((issue root tx >> settle initial root tx) w)
issue-settle-Runs initial root tx w f t =
    Runs-then (Keeps w) (Keeps w) (issue root tx) (settle initial root tx) w (issue-Runs root tx w)
      (λ w₁ k₁.
        Runs-map (Keeps w₁) (Keeps w) (settle initial root tx w₁)
          (settle-Runs initial root tx w₁ (k₁ tx.from f) (k₁ tx.to t)) (λ w₂ k₂ k h. k₂ k (k₁ k h)))

module _ (closed : FundsTx → Bool) (initial : Bool) where
  funds_step-Runs :
      (tx : FundsTx) (w : World)
      → Present tx.from w
      → Present tx.to w
      → Runs (Keeps w) (funds_step closed initial tx w)
  funds_step-Runs tx w f t = elim (Bool-cases (closed tx && not initial)) [
    | inl c ↦ unfold funds_step in rw c (λ k h. h)
    | inr c ↦ elim (Option-cases (lookup tx.from w.root_keys)) [
      | inl k ↦
          rw (funds_step_plain closed tx w initial c k) (issue-settle-Runs initial none tx w f t)
      | inr (r, k) ↦
          rw (funds_step_root closed tx w initial c k f.1)
            (issue-settle-Runs initial (some f.0) tx w f t)
    ]
  ]

  -- When sender and receiver of every transaction are in the state, a batch goes through or returns
  -- an error: it never reads a nil pointer, and when it goes through no account is lost.
  pub funds_state_change-Runs :
      (txs : List FundsTx) (w : World)
      → AllKnown txs w
      → Runs (Keeps w) (funds_state_change closed initial txs w)
  unfolding funds_state_change
  funds_state_change-Runs [] w h = λ k p. p
  funds_state_change-Runs (tx ∷ txs) w ((f, t), h) =
      Runs-then (Keeps w) (Keeps w) (funds_step closed initial tx)
        (for_each (funds_step closed initial) txs) w (funds_step-Runs tx w f t)
        (λ w₁ k₁.
          Runs-map (Keeps w₁) (Keeps w) (for_each (funds_step closed initial) txs w₁)
            (funds_state_change-Runs txs w₁ (Keeps-AllKnown txs w w₁ k₁ h))
            (λ w₂ k₂ k p. k₂ k (k₁ k p)))
