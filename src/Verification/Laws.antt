-- ===== src/Verification/Laws.antt =====
-- Which payments and which updates are accepted.
use bazo_miner.Prelude.{
  ℕ, ◌≤◌, ◌<◌, ◌≡◌, ◌↔◌, ◌⊎◌, inl, inr, refl, true, false, ◌||◌, Option, none, some, arith, ltb,
  ◌==◌, Bool-cases, if◌then◌else◌,
}
use bazo_miner.Prelude.Assoc.{lookup}
use bazo_miner.Ledger.Types.{World, Account, FundsTx, UpdateTx, max_money}
use bazo_miner.Storage.{
  Storage, Transaction, funds, update, read_open_tx, read_closed_tx, first_found,
}
use bazo_miner.Verification.{
  Checker, is_signed, verify_funds_tx, verify_parties, verify_update_tx, verify_update,
  updatable_sig, signed_by,
}

module _ (checker : Checker) where
  open checker use {hash, multisig}

  -- What verifyFundsTx asks of a payment between accounts that are in the state.
  pub record IsPayable (tx : FundsTx) (sender : Account) : Type 0 where
    pub amount_pos : 0 < tx.amount
    pub amount_fits : tx.amount ≤ max_money
    pub signed : is_signed checker (hash (funds tx)) tx.sig1 sender.address ≡ true
    pub cosigned : (tx.sig2 ≡ 0) ⊎ (is_signed checker (hash (funds tx)) tx.sig2 multisig ≡ true)

  parties :
      (tx : FundsTx) (sender receiver : Account)
      → verify_parties checker tx (some sender) (some receiver) ≡ true
      → (is_signed checker (hash (funds tx)) tx.sig1 sender.address ≡ true)
        × ((tx.sig2 ≡ 0) ⊎ (is_signed checker (hash (funds tx)) tx.sig2 multisig ≡ true))
  parties tx sender receiver h =
      elim (Bool-cases (is_signed checker (hash (funds tx)) tx.sig1 sender.address)) [
        | inl e ↦ (
          e,
          elim (Bool-cases (tx.sig2 == 0)) [
            | inl z ↦ inl (ground arith)
            | inr z ↦ inr (rw (e, z) at h)
          ],
        )
        | inr e ↦ absurd (let h' = rw e at h in cc)
      ]

  payable :
      (tx : FundsTx) (sender receiver : Account)
      → IsPayable tx sender
      → (if tx.amount == 0 || ltb max_money tx.amount
          then false
          else verify_parties checker tx (some sender) (some receiver))
        ≡ true
  payable tx sender receiver p =
      let low : (tx.amount == 0) ≡ false = ground (arith, p.amount_pos) in
      let high : ltb max_money tx.amount ≡ false = ground (arith, p.amount_fits) in
      rw (low, high, p.signed)
        (elim p.cosigned [
          | inl z ↦ let zero_sig : (tx.sig2 == 0) ≡ true = ground arith in rw zero_sig refl
          | inr c ↦ elim (Bool-cases (tx.sig2 == 0)) [ inl z ↦ rw z refl | inr z ↦ rw (z, c) refl ]
        ])

  -- A payment between accounts of the state, also from an account to itself, is accepted exactly when
  -- its amount is from 1 to MAX_MONEY, the sender signed it, and a second signature, when there is
  -- one, is the multi-signature account's.
  pub verify_funds_tx_iff :
      (tx : FundsTx) (w : World) (sender receiver : Account)
      → lookup tx.from w.state ≡ some sender
      → lookup tx.to w.state ≡ some receiver
      → (verify_funds_tx checker w tx ≡ true) ↔ IsPayable tx sender
  unfolding verify_funds_tx
  verify_funds_tx_iff tx w sender receiver hs hr = (
    λ h.
        let k = rw (hs, hr) at h in
        elim (Bool-cases (tx.amount == 0 || ltb max_money tx.amount)) [
          | inl e ↦ absurd (let k' = rw e at k in cc)
          | inr e ↦
              let (s, c) = parties tx sender receiver (rw e at k) in
              record {
                amount_pos = ground arith;
                amount_fits = ground arith;
                signed = s;
                cosigned = c;
              }
        ],
    λ p. rw (hs, hr) (payable tx sender receiver p),
  )

  -- The issuer, the transaction to update and its signature.
  abbrev pub IsOwn : UpdateTx → World → Storage → Account → Transaction → ℕ → Type 0
  IsOwn tx w s issuer target sig =
      (lookup tx.issuer w.state ≡ some issuer)
      × (first_found (read_open_tx tx.tx_to_update_hash s) (read_closed_tx tx.tx_to_update_hash s)
          ≡ some target)
      × (updatable_sig checker target ≡ some sig)
      × (is_signed checker (hash (update tx)) tx.sig issuer.address ≡ true)
      × (is_signed checker (hash target) sig issuer.address ≡ true)

  is_signed-IsOwn :
      (tx : UpdateTx) (w : World) (s : Storage) (a : Account) (t : Transaction) (o : Option ℕ)
      → lookup tx.issuer w.state ≡ some a
      → first_found (read_open_tx tx.tx_to_update_hash s) (read_closed_tx tx.tx_to_update_hash s)
        ≡ some t
      → is_signed checker (hash (update tx)) tx.sig a.address ≡ true
      → updatable_sig checker t ≡ o
      → signed_by checker a (hash t) o ≡ true
      → (issuer : Account) × (target : Transaction) × (sig : ℕ) × IsOwn tx w s issuer target sig
  is_signed-IsOwn tx w s a t none e f z u h = absurd (cc)
  is_signed-IsOwn tx w s a t (some sig) e f z u h = (a, t, sig, (e, f, u, z, h))

  own :
      (tx : UpdateTx) (w : World) (s : Storage) (found : Option Account) (old : Option Transaction)
      → lookup tx.issuer w.state ≡ found
      → first_found (read_open_tx tx.tx_to_update_hash s) (read_closed_tx tx.tx_to_update_hash s)
        ≡ old
      → verify_update checker tx found old ≡ true
      → (issuer : Account) × (target : Transaction) × (sig : ℕ) × IsOwn tx w s issuer target sig
  own tx w s none old e o h = absurd (cc)
  own tx w s (some a) none e o h = absurd (cc)
  own tx w s (some a) (some t) e o h =
      elim (Bool-cases (is_signed checker (hash (update tx)) tx.sig a.address)) [
        | inl z ↦ is_signed-IsOwn tx w s a t (updatable_sig checker t) e o z refl (rw z at h)
        | inr z ↦ absurd (let h' = rw z at h in cc)
      ]

  -- An update is accepted exactly when its issuer is in the state, the transaction with the hash that
  -- it names is open or, when it is not, closed, and is a payment, an account or an update
  -- transaction, and the issuer has signed both.
  pub verify_update_tx_iff :
      (tx : UpdateTx) (w : World) (s : Storage)
      → (verify_update_tx checker w s tx ≡ true)
        ↔ ((issuer : Account) × (target : Transaction) × (sig : ℕ) × IsOwn tx w s issuer target sig)
  unfolding verify_update_tx
  verify_update_tx_iff tx w s =
      (λ h. own tx w s _ _ refl refl h, λ (issuer, target, sig, (e, o, u, a, b)). rw (e, o, a, u) b)
