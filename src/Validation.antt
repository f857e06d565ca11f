-- ===== src/Validation.antt =====
-- miner/block_validation.go: preValidate with its checks of time, duplicates and slashing proofs.
pub mod Duplicates
pub mod Accepted
pub mod Timely
pub mod Checks
mod Tests
use bazo_miner.Prelude.{
  ℕ, zero, suc, ◌+◌, ◌*◌, ◌%◌, Bool, true, false, not, ◌&&◌, ◌||◌, Option, none, some, List, [],
  ◌∷◌, ltb, ◌==◌, if◌then◌else◌,
}
use bazo_miner.Prelude.Int.{ℤ, pos, ◌+ℤ◌, ◌-ℤ◌, ltb_ℤ}
use bazo_miner.Prelude.Words.{sub32, u32_mod, sub_int64}
use bazo_miner.Ledger.Types.{Hash, Bytes, Block, Account, World}
use bazo_miner.Ledger.Accounts.{get_account}
use bazo_miner.Merkle.{Built, built, panic, hang, build_merkle_tree, merkle_root_of, MerkleTree}
use bazo_miner.Chain.{Answer, Net, Run, done}
use bazo_miner.Chain.Slashing.{SlashingDict, SlashingError, Verdict, valid, invalid, slashing_check}
use bazo_miner.ProofOfStake.{validate_proof_of_stake, get_latest_proofs}

-- The list of transactions of a block that repeats a hash.
pub data TxKind : Type 0 where
  acc_tx funds_tx config_tx stake_tx agg_tx update_tx : TxKind

abbrev pub seen_before : Hash → List Hash → Bool
seen_before h [] = false
seen_before h (x ∷ xs) = h == x || seen_before h xs

-- `seenTxs` after a loop, or the kind of the duplicate.
pub data Seen : Type 0 where
  seen : List Hash → Seen
  duplicate : TxKind → Seen

unfoldable pub see : TxKind → List Hash → List Hash → Seen
see k [] m = seen m
see k (h ∷ hs) m = if seen_before h m then duplicate k else see k hs (h ∷ m)

abbrev pub and_see : Seen → TxKind → List Hash → Seen
and_see (seen m) k hs = see k hs m
and_see (duplicate j) k hs = duplicate j

unfoldable pub validate_no_duplicate_tx : Block → Seen
validate_no_duplicate_tx b =
    and_see
      (and_see
        (and_see
          (and_see (and_see (see acc_tx b.acc_tx_data []) funds_tx b.funds_tx_data) config_tx
            b.config_tx_data)
          stake_tx b.stake_tx_data)
        agg_tx b.agg_tx_data)
      update_tx b.update_tx_data

pub data TimeError : Type 0 where
  too_far_in_future too_far_in_past : TimeError

-- Two hours ahead, ten hours behind; the differences wrap around.
unfoldable pub timestamp_check : (system_time timestamp : ℤ) → Option TimeError
timestamp_check system_time timestamp =
    if ltb_ℤ system_time timestamp
    then if ltb_ℤ (pos 7200) (sub_int64 timestamp system_time) then some too_far_in_future else none
    else if ltb_ℤ (pos 36000) (sub_int64 system_time timestamp)
    then some too_far_in_past
    else none

-- MIN_BLOCKSIZE, and 32 bytes for each transaction; `bloom_size` is the size of the encoded filter.
abbrev pub get_tx_data_size : Block → ℕ
get_tx_data_size b =
    b.nr_acc_tx * 32
    + b.nr_funds_tx * 32
    + b.nr_config_tx * 32
    + b.nr_stake_tx * 32
    + b.nr_agg_tx * 32
    + b.nr_update_tx * 32

abbrev pub get_size : (bloom_size : ℕ) → Block → ℕ
get_size bloom_size b = 650 + get_tx_data_size b + bloom_size

pub data BlockError : Type 0 where
  beneficiary_missing not_validator wrong_time size_too_large duplicate_tx : BlockError
  invalid_key invalid_commitment nonce_incorrect too_early must_wait : BlockError
  slashing_proof merkle_root_incorrect : BlockError

-- A call that accepts the block, refuses it, panics or does not end.
pub data Check (A : Type 0) : Type 0 where
  accepted : A → Check A
  refused : BlockError → Check A
  panicked : Check A
  endless : Check A

abbrev pub demand : {A : Type 0} → Bool → BlockError → Check A → Check A
demand true e k = k
demand false e k = refused e

abbrev pub is_none : {A : Type 0} → Option A → Bool
is_none none = true
is_none (some _) = false

abbrev pub is_seen : Seen → Bool
is_seen (seen _) = true
is_seen (duplicate _) = false

abbrev pub demand_some : {A B : Type 0} → Option A → BlockError → (A → Check B) → Check B
demand_some none e k = refused e
demand_some (some a) e k = k a

-- The answer of the proof of stake, which may be a division by zero.
abbrev pub demand_proof : {A : Type 0} → Option Bool → Check A → Check A
demand_proof none k = panicked
demand_proof (some b) k = demand b nonce_incorrect k

abbrev pub after_slashing :
    {A : Type 0} → Run (Verdict × (SlashingDict × Net)) → (SlashingDict × Net → Check A) → Check A
after_slashing (done (valid, s)) k = k s
after_slashing (done (invalid e, s)) k = refused slashing_proof
after_slashing Run.panic k = panicked
after_slashing Run.hang k = endless

abbrev pub root_check :
    {A : Type 0}
    → Built (Option MerkleTree)
    → Hash
    → (sha3 : Hash → Hash → Hash) → Check A
    → Check A
root_check (built t) root sha3 k = demand (merkle_root_of sha3 t == root) merkle_root_incorrect k
root_check panic root sha3 k = panicked
root_check hang root sha3 k = endless

-- What the validation reads besides the block.
pub record MinerView : Type 0 where
  pub world : World
  pub net : Net
  pub slashing_dict : SlashingDict
  pub uptodate : Bool
  pub system_time : ℤ
  pub now : ℤ
  pub difficulty : ℕ
  pub bloom_size : ℕ

-- RSA keys, the two uses of SHA3, and the network.
pub record Outside : Type 0 where
  pub create_rsa_pub_key : ℕ → Option ℕ
  pub verify_message : (key height proof : ℕ) → Bool
  pub sha3_pair : Hash → Hash → Hash
  pub sha3_bytes : Bytes → Bytes
  pub fetch_block : ℕ → Hash → Hash → Answer

module _ (out : Outside) (fuel : ℕ) where
  abbrev pub check_root : Block → SlashingDict × Net → Check (SlashingDict × Net)
  check_root b s =
      if b.aggregated
      then accepted s
      else root_check (build_merkle_tree out.sha3_pair b) b.merkle_root out.sha3_pair (accepted s)

  abbrev pub check_slashing : Block → MinerView → Check (SlashingDict × Net)
  check_slashing b n =
      if b.slashed_address == 0
      then check_root b (n.slashing_dict, n.net)
      else after_slashing
          (slashing_check out.fetch_block fuel n.world.active_parameters.slashing_window_size
            b.slashed_address b.conflicting_block_hash1 b.conflicting_block_hash2
            b.conflicting_block_hash_without_tx1 b.conflicting_block_hash_without_tx2
            n.slashing_dict n.net)
          (check_root b)

  abbrev pub check_waiting : Block → MinerView → Account → Check (SlashingDict × Net)
  check_waiting b n acc =
      demand (not (ltb_ℤ (n.now +ℤ pos n.world.active_parameters.accepted_time_diff) b.timestamp))
        too_early
        (demand
          (not (
            ltb (sub32 b.height acc.staking_block_height)
              (n.world.active_parameters.waiting_minimum % u32_mod)))
          must_wait (check_slashing b n))

  abbrev pub check_proof : Bool → Block → MinerView → Account → Check (SlashingDict × Net)
  check_proof initial b n acc =
      if initial
      then check_waiting b n acc
      else demand_proof
          (validate_proof_of_stake out.sha3_bytes n.difficulty
            (get_latest_proofs n.world.active_parameters.num_included_prev_proofs b n.net.storage)
            b.height acc.balance b.commitment_proof b.timestamp)
          (check_waiting b n acc)

  abbrev pub check_header : Bool → Block → MinerView → Account → Check (SlashingDict × Net)
  check_header initial b n acc =
      demand (initial || not n.uptodate || is_none (timestamp_check n.system_time b.timestamp))
        wrong_time
        (demand (not (ltb n.world.active_parameters.block_size (get_size n.bloom_size b)))
          size_too_large
          (demand (is_seen (validate_no_duplicate_tx b)) duplicate_tx (
            demand_some (out.create_rsa_pub_key acc.commitment_key) invalid_key (λ key.
              demand (out.verify_message key b.height b.commitment_proof) invalid_commitment
                (check_proof initial b n acc)))))

  unfoldable pub pre_validate : (initial : Bool) → Block → MinerView → Check (SlashingDict × Net)
  pre_validate initial b n =
      demand_some (get_account b.beneficiary n.world) beneficiary_missing
        (λ acc. demand acc.is_staking not_validator (check_header initial b n acc))
