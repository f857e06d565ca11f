-- ===== src/Blocks/Undo/Tests.antt =====
-- A block of two payments of the samples.
use bazo_miner.Prelude.{◌+◌, ◌≡◌, ◌↔◌, refl, false, [], ◌∷◌}
use bazo_miner.Ledger.Types.{Hash, Block, FundsTx, new_block}
use bazo_miner.Storage.{Transaction, funds}
use bazo_miner.Samples.{forty, empty_storage}
use bazo_miner.Blocks.Closing.{close_txs}
use bazo_miner.Blocks.Undo.{found, pre_validate_rollback}
use bazo_miner.Blocks.Undo.Read.{IsReadBack, pre_validate_rollback-IsReadBack}
use bazo_miner.Blocks.Undo.Closed.{data_of, close_txs-pre_validate_rollback}

abbrev hash_amount : Transaction → Hash
hash_amount (funds x) = 70 + x.amount
hash_amount _ = 50

abbrev fifty : FundsTx
fifty = record forty { amount = 50; tx_cnt = 1 }

abbrev two_payments : Block
two_payments = record (new_block 8 300) { funds_tx_data = 110 ∷ 120 ∷ []; nr_funds_tx = 2 }

close_txs-pre_validate_rollback_example :
    pre_validate_rollback two_payments (
      close_txs hash_amount
        (λ bs. bs)
        false
        (data_of two_payments (forty ∷ fifty ∷ []))
        empty_storage)
    ≡ found (data_of two_payments (forty ∷ fifty ∷ []))
close_txs-pre_validate_rollback_example =
    close_txs-pre_validate_rollback hash_amount (λ bs. bs) two_payments (forty ∷ fifty ∷ [])
      empty_storage ((refl, tt), (tt, tt)) refl (refl, refl, refl, refl)

pre_validate_rollback-IsReadBack_example :
    (pre_validate_rollback two_payments empty_storage
      ≡ found (data_of two_payments (forty ∷ fifty ∷ [])))
    ↔ IsReadBack two_payments empty_storage (data_of two_payments (forty ∷ fifty ∷ []))
pre_validate_rollback-IsReadBack_example =
    pre_validate_rollback-IsReadBack two_payments empty_storage
      (data_of two_payments (forty ∷ fifty ∷ []))
