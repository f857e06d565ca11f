-- ===== src/Validation/Tests.antt =====
-- The theorems of the validation at a block with two transactions.
use bazo_miner.Chain.{Net}
use bazo_miner.Chain.Slashing.{SlashingDict}
use bazo_miner.Prelude.{◌↔◌, arith, ◌+◌, ◌*◌, ◌≡◌, refl, true, some, [], ◌∷◌}
use bazo_miner.Prelude.Int.{pos, ◌-ℤ◌, ◌+ℤ◌}
use bazo_miner.Prelude.Assoc.{lookup}
use bazo_miner.Prelude.Words.{sub32}
use bazo_miner.Ledger.Types.{Block, Account, World, new_block}
use bazo_miner.Ledger.Params.{new_default_parameters}
use bazo_miner.Merkle.{
  build_merkle_tree, new_tree, build_with_content, make_leafs, even_leafs, build_intermediate,
}
use bazo_miner.Storage.{Storage}
use bazo_miner.Chain.{timed_out, Net}
use bazo_miner.Validation.{
  MinerView, Outside, pre_validate, accepted, validate_no_duplicate_tx, see, timestamp_check,
  is_seen,
}
use bazo_miner.Validation.Duplicates.{distinct, block_hashes, validate_no_duplicate_tx-distinct}
use bazo_miner.Validation.Accepted.{IsAcceptable, pre_validate-IsAcceptable}

abbrev validator : Account
validator = record {
  address = 1;
  issuer = 0;
  balance = 5000;
  tx_cnt = 0;
  is_staking = true;
  commitment_key = 12;
  staking_block_height = 0;
  contract = [];
  contract_variables = [];
  parameters = 0;
}

abbrev world : World
world = record {
  state = (1, validator) ∷ [];
  root_keys = [];
  chameleon_parameters = [];
  parameter_slice = new_default_parameters ∷ [];
  active_parameters = new_default_parameters;
}

abbrev outside : Outside
outside = record {
  create_rsa_pub_key = λ k. some k;
  verify_message = λ key height proof. true;
  sha3_pair = λ a b. 1000 * a + b + 7;
  sha3_bytes = λ bs. bs;
  fetch_block = λ n h k. timed_out [];
}

abbrev empty_storage : Storage
empty_storage = record {
  open_blocks = [];
  closed_blocks = [];
  closed_blocks_without_tx = [];
  last_closed_block = [];
  received_block_stash = [];
  tx_mem_pool = [];
  tx_invalid_mem_pool = [];
  txcnt_to_tx_map = [];
  closed_funds = [];
  closed_accs = [];
  closed_deletes = [];
  closed_configs = [];
  closed_stakes = [];
  closed_aggregations = [];
  blocks_by_tx_hash = [];
  funds_tx_before_aggregation = [];
  bootstrap_received = [];
}

abbrev net : Net
net = record { requests = 0; storage = empty_storage }

abbrev view : MinerView
view = record {
  world = world;
  net = net;
  slashing_dict = [];
  uptodate = true;
  system_time = pos 1000;
  now = pos 1000;
  difficulty = 0;
  bloom_size = 0;
}

abbrev paid_block : Block
paid_block = record (new_block 8 300) {
  hash = 9;
  beneficiary = 1;
  timestamp = pos 990;
  nr_funds_tx = 2;
  funds_tx_data = 5 ∷ 6 ∷ [];
  merkle_root = 5013;
}

paid_block_passes : pre_validate outside 3 true paid_block view ≡ accepted ([], net)
unfolding pre_validate lookup timestamp_check validate_no_duplicate_tx see build_merkle_tree
    new_tree build_with_content make_leafs even_leafs build_intermediate sub32 ◌-ℤ◌ ◌+ℤ◌
    new_default_parameters
paid_block_passes = refl

pre_validate-IsAcceptable_example :
    ((t : SlashingDict × Net) × (pre_validate outside 3 true paid_block view ≡ accepted t))
    ↔ IsAcceptable outside 3 true paid_block view
pre_validate-IsAcceptable_example =
    pre_validate-IsAcceptable outside 3 paid_block view true (omega arith, omega arith)
      (omega arith, omega arith)

validate_no_duplicate_tx-distinct_example :
    is_seen (validate_no_duplicate_tx paid_block) ≡ distinct (block_hashes paid_block)
validate_no_duplicate_tx-distinct_example = validate_no_duplicate_tx-distinct paid_block
