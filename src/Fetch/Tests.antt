-- ===== src/Fetch/Tests.antt =====
-- A block of one payment, which the network sends on request.
use bazo_miner.Prelude.{true, false, [], ◌∷◌}
use bazo_miner.Prelude.Assoc.{lookup}
use bazo_miner.Ledger.Types.{Hash, Block, new_block}
use bazo_miner.Storage.{Transaction, read_closed_tx}
use bazo_miner.Chain.{Net}
use bazo_miner.Samples.{forty, empty_storage}
use bazo_miner.Fetch.{fetch_transactions}
use bazo_miner.Fetch.Kinds.{Network, no_request, received, timed_out}
use bazo_miner.Fetch.Found.{IsFiled}
use bazo_miner.Fetch.Filled.{IsGood, fetch_transactions-IsGood}

abbrev hash_of : Transaction → Hash
hash_of t = 110

abbrev sends_forty : Network
sends_forty = record {
  ask_acc = λ n h. timed_out [];
  ask_funds = λ n h. received forty;
  ask_config = λ n h. no_request;
  ask_stake = λ n h. timed_out [];
  ask_update = λ n h. timed_out [];
  ask_agg = λ n h. no_request;
  ask_unknown = λ n h. timed_out [];
}

abbrev with_payment : Block
with_payment = record (new_block 8 300) { funds_tx_data = 110 ∷ []; nr_funds_tx = 1 }

abbrev start : Net
start = record { requests = 0; storage = empty_storage }

start-IsFiled : IsFiled hash_of start.storage
unfolding read_closed_tx lookup
start-IsFiled = record {
  open_filed = λ h t e. absurd (cc);
  invalid_filed = λ h t e. absurd (cc);
  closed_filed = λ h t e. absurd (cc);
}

fetch_transactions-IsGood_example :
    IsGood hash_of sends_forty
      (λ t. true)
      false
      with_payment
      (fetch_transactions hash_of sends_forty (λ t. true) 10 false with_payment start)
fetch_transactions-IsGood_example =
    fetch_transactions-IsGood hash_of sends_forty (λ t. true) false with_payment 10 start
      start-IsFiled
