-- ===== src/Ledger/Fees/Loops.antt =====
-- Each loop of `collectTxFees` and of its rollback as a list of transfers.
use bazo_miner.Prelude.{ℕ, ◌≡◌, refl, List, [], ◌∷◌, ◌++◌, map, ap, ◌∙◌, sym, ◌⊎◌, inl, inr}
use bazo_miner.Ledger.Types.{World, Hash}
use bazo_miner.Ledger.Monad.{Action, Outcome, ok, err, panic, Done, Error, >>=-ok, for_each}
use bazo_miner.Ledger.Fees.{fee_loop}
use bazo_miner.Ledger.Fees.Transfers.{
  Transfer, pay_in, pay_out, opposite, make_all, make_all-append, Present, AllPresent,
  make_all-Present, make_all-AllPresent, AllPresent-append, make_all-AllPresent-back,
  AllPresent-left, AllPresent-right,
}

-- A world in which transfers were made.
abbrev pub transferred : List Transfer → World → World
transferred ts w = record w { state = make_all ts w.state }

abbrev pub mint_transfers : Hash → ℕ → List Transfer
mint_transfers miner fee = pay_in miner fee ∷ []

abbrev pub fee_transfers : Hash → Hash → ℕ → List Transfer
fee_transfers miner sender fee = pay_in miner fee ∷ pay_out sender fee ∷ []

abbrev pub all_transfers : {A : Type 0} → (A → List Transfer) → List A → List Transfer
all_transfers f [] = []
all_transfers f (x ∷ xs) = f x ++ all_transfers f xs

module _ (miner : Hash) {A : Type 0} (transfers : A → List Transfer) where
  -- What one round does: an error and no write, or the transfers between accounts that are there.
  abbrev pub Round : Outcome Done × World → A → World → Type 0
  Round r x w =
      ((e : Error) × (r ≡ (err e, w)))
      ⊎ ((r ≡ (ok tt, transferred (transfers x) w)) × AllPresent (transfers x) w.state)

  -- What the loop does: it goes through, or stops with an error behind a part that went through.
  abbrev pub Collected : Outcome Done × List A × World → List A → World → Type 0
  Collected r xs w =
      ((e : Error) × (part : List A) × (r
          ≡ (err e, part, transferred (all_transfers transfers part) w))
        × AllPresent (all_transfers transfers part) w.state)
      ⊎ ((r ≡ (ok tt, xs, transferred (all_transfers transfers xs) w))
          × AllPresent (all_transfers transfers xs) w.state)

abbrev extend :
    {A : Type 0}
    → A
    → World
    → Outcome Done
    → Outcome Done × List A × World
    → Outcome Done × List A × World
extend x w₁ r (r₂, tmp, w₂) = elim r [
  | ok _ ↦ (r₂, x ∷ tmp, w₂)
  | err e ↦ (err e, [], w₁)
  | panic ↦ (panic, [], w₁)
]

fee_loop_cons :
    (miner : Hash) {A : Type 0} (f : A → Action Done) (x : A) (xs : List A) (w : World)
    → fee_loop miner f (x ∷ xs) w ≡ extend x (f x w).1 (f x w).0 (fee_loop miner f xs (f x w).1)
unfolding fee_loop
fee_loop_cons miner f x xs w = refl

pub transferred-transferred :
    (ts us : List Transfer) (w : World)
    → transferred us (transferred ts w) ≡ transferred (ts ++ us) w
transferred-transferred ts us w =
    ap (λ s. record w { state = s }) (sym (make_all-append ts us w.state))

-- A loop whose rounds make transfers, or fail and write nothing.
module _ (miner : Hash) {A : Type 0} (transfers : A → List Transfer) (f : A → Action Done)
    (round : (x : A) (w : World) → Present miner w.state → Round miner transfers (f x w) x w) where
  Collected-cons :
      (x : A) (xs : List A) (w : World)
      → f x w ≡ (ok tt, transferred (transfers x) w)
      → AllPresent (transfers x) w.state
      → Collected miner transfers
          (fee_loop miner f xs (transferred (transfers x) w))
          xs
          (transferred (transfers x) w)
      → Collected miner transfers (fee_loop miner f (x ∷ xs) w) (x ∷ xs) w
  Collected-cons x xs w q p (inl (e, part, r, ps)) = inl (
    e,
    x ∷ part,
    rw (fee_loop_cons miner f x xs w, q, r)
        (ap (λ v. (err e, x ∷ part, v))
          (transferred-transferred (transfers x) (all_transfers transfers part) w)),
    AllPresent-append (transfers x) (all_transfers transfers part) w.state p
        (make_all-AllPresent-back (all_transfers transfers part) (transfers x) w.state ps),
  )
  Collected-cons x xs w q p (inr (r, ps)) = inr (
    rw (fee_loop_cons miner f x xs w, q, r)
        (ap (λ v. (ok tt, x ∷ xs, v))
          (transferred-transferred (transfers x) (all_transfers transfers xs) w)),
    AllPresent-append (transfers x) (all_transfers transfers xs) w.state p
        (make_all-AllPresent-back (all_transfers transfers xs) (transfers x) w.state ps),
  )

  pub fee_loop-Collected :
      (xs : List A) (w : World)
      → Present miner w.state
      → Collected miner transfers (fee_loop miner f xs w) xs w
  unfolding fee_loop
  fee_loop-Collected [] w m = inr (refl, tt)
  fee_loop-Collected (x ∷ xs) w m = elim (round x w m) [
    | inl (e, q) ↦ inl (e, [], rw (fee_loop_cons miner f x xs w, q) refl, tt)
    | inr (q, p) ↦ Collected-cons x xs w q p (
        fee_loop-Collected xs (transferred (transfers x) w)
          (make_all-Present (transfers x) miner w.state m))
  ]

pub map-opposite_append :
    (ts us : List Transfer) → map opposite (ts ++ us) ≡ map opposite ts ++ map opposite us
map-opposite_append [] us = refl
map-opposite_append (t ∷ ts) us = ap (λ r. opposite t ∷ r) (map-opposite_append ts us)

-- A loop of the rollback whose rounds make the opposite transfers.
module _ {A : Type 0} (transfers : A → List Transfer) (g : A → Action Done)
    (undo : (x : A) (w : World)
      → AllPresent (transfers x) w.state
      → g x w ≡ (ok tt, transferred (map opposite (transfers x)) w)) where
  pub for_each-opposite :
      (xs : List A) (w : World)
      → AllPresent (all_transfers transfers xs) w.state
      → for_each g xs w ≡ (ok tt, transferred (map opposite (all_transfers transfers xs)) w)
  for_each-opposite [] w p = refl
  for_each-opposite (x ∷ xs) w p =
      let ts = transfers x in
      let us = all_transfers transfers xs in
      let rest =
        for_each-opposite xs (transferred (map opposite ts) w)
          (make_all-AllPresent us (map opposite ts) w.state (AllPresent-right ts us w.state p)) in
      >>=-ok (g x) (λ _. for_each g xs) w (undo x w (AllPresent-left ts us w.state p))
      ∙ rest
      ∙ ap (λ v. (ok tt, v))
          (transferred-transferred (map opposite ts) (map opposite us) w
            ∙ ap (λ l. transferred l w) (sym (map-opposite_append ts us)))
