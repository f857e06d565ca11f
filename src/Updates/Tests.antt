-- ===== src/Updates/Tests.antt =====
-- The update of a closed payment, with the parameters of the modulus 23.
use bazo_miner.Prelude.{◌≡◌, refl, arith, none, some, [], ◌∷◌, replicate}
use bazo_miner.Prelude.Assoc.{lookup}
use bazo_miner.Ledger.Types.{Hash, CheckString, FundsTx}
use bazo_miner.Vm.Encoding.{big_endian_from, set_bytes, nat_bytes, bytes_onto}
use bazo_miner.Storage.{Storage, funds, read_closed_tx}
use bazo_miner.Storage.Closed.{closed_map, put}
use bazo_miner.Chameleon.{
  chameleon_hash, generate_ch_collision, keygen, new_check_string, to_hex, set_string, to_result,
  hash_number,
}
use bazo_miner.Chameleon.Digits.{set_string-to_hex}
use bazo_miner.Chameleon.Collision.{keygen-IsKeyed}
use bazo_miner.Samples.{forty, empty_storage}
use bazo_miner.Updates.{update_local_tx}
use bazo_miner.Updates.Hashes.{Contents, tx_hash}
use bazo_miner.Updates.Rewrite.{update_local_tx-keeps_hash}

abbrev contents : Contents
contents = record {
  sha256 = λ message. 5 ∷ [];
  funds_content = λ amount fee tx_cnt from to payload. amount ∷ payload;
  acc_content = λ header issuer fee pub_key contract contract_variables payload. payload;
  update_content = λ fee tx_to_update_hash check tx_data issuer own payload. payload;
  config_hash = λ x. 52;
  stake_hash = λ x. 53;
  agg_hash = λ x. 54;
  parameters_of = λ h. some (keygen 23 2 3);
  pointed_at = λ n. none;
}

abbrev payment : FundsTx
payment = record forty { check_string = new_check_string 2 2; payload = 7 ∷ [] }

abbrev closed_payment : Storage
closed_payment = record empty_storage { closed_funds = (0, payment) ∷ [] }

update_local_tx-keeps_hash_example :
    (found : CheckString) × (s' : Storage) × (generate_ch_collision
        (λ message. 5 ∷ [])
        7
        (keygen 23 2 3)
        (new_check_string 2 2)
        (40 ∷ 7 ∷ [])
        (40 ∷ 9 ∷ [])
      ≡ some found)
    × (update_local_tx (tx_hash contents) 0 found (9 ∷ []) closed_payment ≡ some s')
    × ((j : Hash)
        → closed_map s' j
          ≡ put 0
              (funds (record payment { payload = 9 ∷ []; check_string = found }))
              (closed_map closed_payment)
              j)
unfolding chameleon_hash keygen new_check_string to_hex set_string to_result hash_number
    big_endian_from set_bytes nat_bytes bytes_onto lookup read_closed_tx
update_local_tx-keeps_hash_example =
    update_local_tx-keeps_hash contents payment (keygen 23 2 3) 23 11 4 3 2 2 7 (replicate 32 0)
      (9 ∷ []) closed_payment refl (keygen-IsKeyed 23 2 3 (omega arith) refl (omega arith) refl)
      (set_string-to_hex 2) (set_string-to_hex 2) refl (omega arith)
      (refl, (refl, (refl, (refl, refl)))) refl refl
