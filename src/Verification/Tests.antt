-- ===== src/Verification/Tests.antt =====
-- A signature is valid when it spells the address; every transaction has the hash 110.
use bazo_miner.Prelude.{ℕ, ◌+◌, ◌≡◌, ◌↔◌, refl, true, [], ◌∷◌, ◌==◌}
use bazo_miner.Prelude.Assoc.{lookup}
use bazo_miner.Ledger.Types.{Account}
use bazo_miner.Storage.{Storage, Transaction, funds}
use bazo_miner.Samples.{two_accounts, plain_account, forty, correction, empty_storage}
use bazo_miner.Verification.{Checker, verify_funds_tx, verify_update_tx, is_signed}
use bazo_miner.Verification.Laws.{IsPayable, IsOwn, verify_funds_tx_iff, verify_update_tx_iff}

abbrev checker : Checker
checker = record {
  ecdsa_verify = λ x y hash r s. s == y + 8;
  hash = λ t. 110;
  address_hash = λ a. a;
  multisig = 77;
  root_address = λ h. h;
}

verify_funds_tx_iff_example :
    (verify_funds_tx checker two_accounts forty ≡ true)
    ↔ IsPayable checker forty (plain_account 1 1000)
unfolding lookup
verify_funds_tx_iff_example =
    verify_funds_tx_iff checker forty two_accounts (plain_account 1 1000) (plain_account 2 50) refl
      refl

forty_verified : verify_funds_tx checker two_accounts forty ≡ true
unfolding verify_funds_tx lookup is_signed
forty_verified = refl

abbrev open_payment : Storage
open_payment = record empty_storage { tx_mem_pool = (110, funds forty) ∷ [] }

verify_update_tx_iff_example :
    (verify_update_tx checker two_accounts open_payment correction ≡ true) ↔ (
      (issuer : Account) × (target : Transaction) × (sig : ℕ) × IsOwn checker correction
        two_accounts open_payment issuer target sig)
verify_update_tx_iff_example = verify_update_tx_iff checker correction two_accounts open_payment

correction_verified : verify_update_tx checker two_accounts open_payment correction ≡ true
unfolding verify_update_tx lookup is_signed
correction_verified = refl
