-- ===== src/Preparation/Copies.antt =====
-- The effect of the copies, and of the payment, on the accounts that the block sees.
use bazo_miner.Prelude.{
  ℕ, ◌≡◌, inl, inr, refl, sym, ap, ◌∙◌, false, Option, none, some, List, [], ◌∷◌, ◌++◌, arith, ◌==◌,
  Bool-cases,
}
use bazo_miner.Prelude.Assoc.{lookup, insert, adjust, lookup-insert_self}
use bazo_miner.Ledger.Types.{Bytes, Hash, Account, FundsTx}
use bazo_miner.Ledger.Accounts.{is_root_key}
use bazo_miner.Storage.{Storage}
use bazo_miner.Storage.Closed.{lookup-insert_ne}
use bazo_miner.Preparation.State.{Building, AddError, Adding, Outside, seen, fill, copy_account}
use bazo_miner.Preparation.Funds.{pay, pay_in, pay_out, reject}
use bazo_miner.Preparation.Payments.{
  Effect, or_kept, applied, paid, rejected, stuck, skipped, added, lookup-adjust,
}

-- The variables after a contract, if one ran, on the copy and in the state.
abbrev pub set_written : Option (List Bytes) → Account → Account
set_written written a = record a { contract_variables = or_kept written a.contract_variables }

abbrev pub write_both : Option (List Bytes) → Hash → Building → Building
write_both written h b = record b {
  state_copy = adjust h (set_written written) b.state_copy;
  world = record b.world { state = adjust h (set_written written) b.world.state };
}

module _ (outside : Outside) where
  -- Copies are made, and nothing else changes.
  abbrev pub Filled : Building → Building → Type 0
  Filled b b' =
      ((k : Hash) → seen b' k ≡ seen b k) × (b'.world ≡ b.world) × (b'.storage ≡ b.storage)

  inserted :
      (h : Hash) (a : Account) (b : Building)
      → lookup h b.state_copy ≡ none
      → lookup h b.world.state ≡ some a
      → (k : Hash) → seen (record b { state_copy = insert h a b.state_copy }) k ≡ seen b k
  inserted h a b e f k = elim (Bool-cases (k == h)) [
    | inl z ↦ let s : k ≡ h = ground arith in rw (s, lookup-insert_self h a b.state_copy, e, f) refl
    | inr z ↦ rw (lookup-insert_ne k h a b.state_copy z) refl
  ]

  fill-Filled :
      (h : Hash) (copied known : Option Account) (b b' : Building)
      → lookup h b.state_copy ≡ copied
      → lookup h b.world.state ≡ known
      → fill outside h copied known b ≡ some b'
      → Filled b b'
  fill-Filled h (some a) known b b' e f g = let s : b' ≡ b = cc in rw s ((λ k. refl), refl, refl)
  fill-Filled h none none b b' e f g = absurd (cc)
  fill-Filled h none (some a) b b' e f g =
      elim (Bool-cases (outside.checker.address_hash a.address == h)) [
        | inl z ↦
            let g' = rw z at g in
            let s : b' ≡ record b { state_copy = insert h a b.state_copy } = cc in
            rw s (inserted h a b e f, refl, refl)
        | inr z ↦ let g' = rw z at g in let s : b' ≡ b = cc in rw s ((λ k. refl), refl, refl)
      ]

  pub copy_account-Filled :
      (h : Hash) (b b' : Building) → copy_account outside h b ≡ some b' → Filled b b'
  unfolding copy_account
  copy_account-Filled h b b' g =
      fill-Filled h (lookup h b.state_copy) (lookup h b.world.state) b b' refl refl g

  -- The effect on a block whose copies were made.
  pub Filled-Effect :
      (fuel : ℕ) (tx : FundsTx) (b₀ b b' : Building) (r : Adding)
      → Filled b₀ b
      → Effect outside fuel tx b b' r
      → Effect outside fuel tx b₀ b' r
  Filled-Effect fuel tx b₀ b b' r (v, w, s) (rejected e q (u, f)) =
      rejected e q ((λ k. u k ∙ v k), f ∙ ap (λ (x : Storage). x.funds_tx_before_aggregation) s)
  Filled-Effect fuel tx b₀ b b' r (v, w, s) (stuck q) = stuck q
  Filled-Effect fuel tx b₀ b b' r (v, w, s) (skipped a q p lt (u, f)) =
      skipped a q (sym (v tx.from) ∙ p) lt
        ((λ k. u k ∙ v k), f ∙ ap (λ (x : Storage). x.funds_tx_before_aggregation) s)
  Filled-Effect fuel tx b₀ b b' r (v, w, s) (added a c written q p p' cnt cover fits run u f) =
      added a c written q (sym (v tx.from) ∙ p) (sym (v tx.to) ∙ p') cnt
        (elim cover [
          | inl root ↦ inl (ap (is_root_key tx.from) (sym w) ∙ root)
          | inr enough ↦ inr enough
        ])
        fits run (λ k. u k ∙ ap (applied (paid outside tx written k)) (v k))
        (f ∙ ap (λ (x : Storage). x.funds_tx_before_aggregation ++ tx ∷ []) s)

  pub reject-Effect :
      (fuel : ℕ) (tx : FundsTx) (e : AddError) (b : Building)
      → Effect outside fuel tx b (reject outside tx e b).0 (reject outside tx e b).1
  reject-Effect fuel tx e b = rejected e refl ((λ k. refl), refl)

  paid-other :
      (tx : FundsTx) (written : Option (List Bytes)) (k : Hash) (o : Option Account)
      → (k == tx.from) ≡ false
      → (k == tx.to) ≡ false
      → applied (paid outside tx written k) o ≡ o
  paid-other tx written k none f t = refl
  paid-other tx written k (some a) f t = rw (f, t) refl

  -- `pay` after the changes of a contract, as the block sees it.
  pub seen-pay :
      (tx : FundsTx) (sender receiver : Account) (written : Option (List Bytes)) (b : Building)
      → lookup tx.from b.state_copy ≡ some sender
      → lookup tx.to b.state_copy ≡ some receiver
      → (k : Hash)
      → seen (pay outside tx (write_both written tx.to b)) k
        ≡ applied (paid outside tx written k) (seen b k)
  unfolding pay
  seen-pay tx sender receiver written b e f k =
      let copy = b.state_copy in
      let vars = set_written written in
      let in_copy =
        lookup-adjust k tx.to (pay_in outside tx)
          (adjust tx.from (pay_out outside tx) (adjust tx.to vars copy)) in
      let in_copy₁ = lookup-adjust k tx.from (pay_out outside tx) (adjust tx.to vars copy) in
      let in_copy₂ = lookup-adjust k tx.to vars copy in
      let in_state = lookup-adjust k tx.to vars b.world.state in
      elim (Bool-cases (k == tx.to)) [
        | inl z ↦
            let s : k ≡ tx.to = ground arith in
            let here : lookup k copy ≡ some receiver = rw s f in
            elim (Bool-cases (k == tx.from)) [
              | inl y ↦ rw (in_copy, in_copy₁, in_copy₂, here, paid, z, y) refl
              | inr y ↦ rw (in_copy, in_copy₁, in_copy₂, here, paid, z, y) refl
            ]
        | inr z ↦ elim (Bool-cases (k == tx.from)) [
          | inl y ↦
              let s : k ≡ tx.from = ground arith in
              let here : lookup k copy ≡ some sender = rw s e in
              rw (in_copy, in_copy₁, in_copy₂, here, paid, z, y) refl
          | inr y ↦
              rw (in_copy, in_copy₁, in_copy₂, in_state, z, y)
                (sym (paid-other tx written k (seen b k) y z))
        ]
      ]
