-- ===== src/Ledger/Funds/Batch.antt =====
-- A batch of fund transactions: what `fundsStateChange` does to the money in the state.
use bazo_miner.Prelude.{
  ℕ, ◌+◌, ◌≡◌, refl, Bool, true, false, not, ◌&&◌, Option, none, some, List, [], ◌∷◌, arith, inl,
  inr, Bool-cases, Option-cases, if◌then◌else◌,
}
use mathlib.Core.Path.{◌∙◌, ap}
use bazo_miner.Prelude.Assoc.{Assoc, lookup}
use bazo_miner.Ledger.Types.{Account, World, FundsTx, Hash}
use bazo_miner.Ledger.Monad.{
  ok, err, account_missing, Post, Post-then, Post-map, for_each, >>=-ok, >>=-err, ◌>>◌,
}
use bazo_miner.Ledger.Accounts.{
  get_root_account, get_root_account-none, get_root_account-some, get_root_account-missing,
}
use bazo_miner.Ledger.Accounts.Total.{total}
use bazo_miner.Ledger.Funds.Bounds.{IsPayable, IsSound, issued, IsRoot, issue_bounds, settle_bounds}
use bazo_miner.Ledger.Funds.{issue, settle, funds_step, funds_state_change, for_each}

-- The coins that one transaction brings into the state, from the map of root keys alone.
abbrev pub minted : (FundsTx → Bool) → Assoc Hash → FundsTx → ℕ
minted closed keys tx =
    if closed tx then 0 else elim (lookup tx.from keys) [ none ↦ 0 | some _ ↦ tx.amount + tx.fee ]

abbrev pub all_minted : (FundsTx → Bool) → Assoc Hash → List FundsTx → ℕ
all_minted closed keys [] = 0
all_minted closed keys (tx ∷ txs) = minted closed keys tx + all_minted closed keys txs

abbrev pub AllPayable : List FundsTx → Type 0
AllPayable [] = Unit
AllPayable (tx ∷ txs) = IsPayable tx × AllPayable txs

-- Sound, with `n` more coins than `w`, and the same root keys.
abbrev pub Gains : ℕ → World → World → Type 0
Gains n w w' = IsSound w' × (total w'.state ≡ total w.state + n) × (w'.root_keys ≡ w.root_keys)

-- A transaction whose root account was looked up is issued and settled, or nothing changed.
issue-settle :
    (root : Option Account) (tx : FundsTx) (w : World)
    → IsPayable tx
    → IsSound w
    → IsRoot root tx w
    → Post (Gains (issued root tx) w) (λ w'. w' ≡ w) ((issue root tx >> settle false root tx) w)
issue-settle root tx w p h e =
    Post-then _ _ (Gains (issued root tx) w) (λ w'. w' ≡ w) (issue root tx) (settle false root tx) w
      (issue_bounds root tx w p h e)
      (λ w₁ (h₁, t₁, k₁, back).
        Post-map _ _ (Gains (issued root tx) w) (λ w'. w' ≡ w) (settle false root tx w₁)
          (settle_bounds root tx w₁ p h₁) (λ w₂ (h₂, t₂, k₂). (h₂, t₂ ∙ t₁, k₂ ∙ k₁))
          (λ w₂ q. q ∙ back))
      (λ w₁ q. q)

module _ (closed : FundsTx → Bool) where
  -- The step by the cases of its lookups.
  module _ (tx : FundsTx) (w : World) where
    funds_step_closed : closed tx ≡ true → funds_step closed false tx w ≡ (ok tt, w)
    funds_step_closed c = unfold funds_step in rw c

    module _ (initial : Bool) (c : (closed tx && not initial) ≡ false) where
      pub funds_step_plain :
          lookup tx.from w.root_keys ≡ none
          → funds_step closed initial tx w ≡ (issue none tx >> settle initial none tx) w
      unfolding funds_step
      funds_step_plain k = rw c (
          >>=-ok (get_root_account tx.from) (λ root. issue root tx >> settle initial root tx) w
            (get_root_account-none tx.from w k))

      pub funds_step_lost :
          {r : Hash}
          → lookup tx.from w.root_keys ≡ some r
          → lookup tx.from w.state ≡ none
          → funds_step closed initial tx w ≡ (err account_missing, w)
      unfolding funds_step
      funds_step_lost k e = rw c (
          >>=-err (get_root_account tx.from) (λ root. issue root tx >> settle initial root tx) w
            (get_root_account-missing tx.from w k e))

      pub funds_step_root :
          {r : Hash} {a : Account}
          → lookup tx.from w.root_keys ≡ some r
          → lookup tx.from w.state ≡ some a
          → funds_step closed initial tx w ≡ (issue (some a) tx >> settle initial (some a) tx) w
      unfolding funds_step
      funds_step_root k e = rw c (
          >>=-ok (get_root_account tx.from) (λ root. issue root tx >> settle initial root tx) w
            (get_root_account-some tx.from w k e))

  -- One transaction: the state gains the coins it mints, or is left exactly as it was.
  pub funds_step_bounds :
      (tx : FundsTx) (w : World)
      → IsPayable tx
      → IsSound w
      → Post (Gains (minted closed w.root_keys tx) w) (λ w'. w' ≡ w) (funds_step closed false tx w)
  funds_step_bounds tx w p h = elim (Bool-cases (closed tx)) [
    | inl c ↦ rw (c, funds_step_closed tx w c) (h, omega arith, refl)
    | inr c ↦ elim (Option-cases (lookup tx.from w.root_keys)) [
      | inl k ↦
          rw (c, k, funds_step_plain tx w false (ap (λ b. b && true) c) k)
            (issue-settle none tx w p h tt)
      | inr (r, k) ↦ elim (Option-cases (lookup tx.from w.state)) [
        | inl e ↦ rw (funds_step_lost tx w false (ap (λ b. b && true) c) k e) refl
        | inr (a, e) ↦
            rw (c, k, funds_step_root tx w false (ap (λ b. b && true) c) k e)
              (issue-settle (some a) tx w p h e)
      ]
    ]
  ]

  -- After the initial setup, in a state whose balances are within MAX_MONEY and whose counters are
  -- uint32 values, and for transactions whose amount and fee together are at most MAX_MONEY: a batch
  -- that goes through keeps every balance within MAX_MONEY, keeps the root keys and creates exactly
  -- the coins that root accounts issue; a batch that is refused keeps every balance within MAX_MONEY.
  pub funds_state_change_bounds :
      (txs : List FundsTx) (w : World)
      → AllPayable txs
      → IsSound w
      → Post
          (Gains (all_minted closed w.root_keys txs) w)
          IsSound
          (funds_state_change closed false txs w)
  unfolding funds_state_change
  funds_state_change_bounds [] w p h = (h, omega arith, refl)
  funds_state_change_bounds (tx ∷ txs) w (p, ps) h =
      Post-then _ _ (Gains (all_minted closed w.root_keys (tx ∷ txs)) w) IsSound
        (funds_step closed false tx) (for_each (funds_step closed false) txs) w
        (funds_step_bounds tx w p h)
        (λ w₁ (h₁, t₁, k₁).
          Post-map _ _ (Gains (all_minted closed w.root_keys (tx ∷ txs)) w) IsSound
            (for_each (funds_step closed false) txs w₁) (funds_state_change_bounds txs w₁ ps h₁)
            (λ w₂ (h₂, t₂, k₂).
              (h₂, omega (arith, t₁, t₂, ap (λ k. all_minted closed k txs) k₁), k₂ ∙ k₁))
            (λ w₂ q. q))
        (λ w₁ q. rw q h)
