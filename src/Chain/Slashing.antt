-- ===== src/Chain/Slashing.antt =====
-- miner/slashing.go and slashingCheck of miner/block_validation.go, on `slashingDict`, the storage and
-- the network.
use bazo_miner.Prelude.{
  ℕ, ◌%◌, Bool, true, false, not, ◌&&◌, ◌||◌, Option, none, some, List, [], ◌∷◌, ltb, ◌==◌,
  if◌then◌else◌,
}
use bazo_miner.Prelude.Words.{add64, add32, u32_mod}
use bazo_miner.Prelude.Assoc.{Assoc, insert}
use bazo_miner.Ledger.Types.{Hash, Block}
use bazo_miner.Storage.{
  read_closed_block, read_closed_block_without_tx, read_last_closed_block, read_all_closed_blocks,
  delete_key,
}
use bazo_miner.Chain.{Answer, Run, done, panic, hang, Net, or_else, is_in_same_chain}

pub record SlashingProof : Type 0 where
  pub conflicting_block_hash1 : Hash
  pub conflicting_block_hash2 : Hash
  pub conflicting_block_hash_without_tx1 : Hash
  pub conflicting_block_hash_without_tx2 : Hash

pub data SlashingError : Type 0 where
  invalid_hashes same_hashes same_chain outside_window : SlashingError

pub data Verdict : Type 0 where
  valid : Verdict
  invalid : SlashingError → Verdict

abbrev pub SlashingDict : Type 0
SlashingDict = Assoc SlashingProof

abbrev pub is_in_window : ℕ → Block → Block → Bool
is_in_window window prev b =
    ltb prev.height (add64 b.height window) || ltb b.height (add64 prev.height window)

abbrev pub proof_of : Block → Block → SlashingProof
proof_of b prev = record {
  conflicting_block_hash1 = b.hash;
  conflicting_block_hash2 = prev.hash;
  conflicting_block_hash_without_tx1 = b.hash_without_tx;
  conflicting_block_hash_without_tx2 = b.prev_hash_without_tx;
}

abbrev pub note_proof : ℕ → Block → Block → SlashingDict → SlashingDict
note_proof window b prev dict =
    if prev.beneficiary == b.beneficiary && is_in_window window prev b
    then insert b.beneficiary (proof_of b prev) dict
    else dict

abbrev pub unless_same :
    Run (Bool × Net) → SlashingDict → (Net → Run (SlashingDict × Net)) → Run (SlashingDict × Net)
unless_same (done (true, net)) dict next = done (dict, net)
unless_same (done (false, net)) dict next = next net
unless_same panic dict next = panic
unless_same hang dict next = hang

-- The end of `slashingCheck`: the heights, and the proof that is deleted.
abbrev pub check_window :
    ℕ → Hash → Block → Block → SlashingDict → Net → Run (Verdict × (SlashingDict × Net))
check_window window slashed b1 b2 dict net =
    if not (ltb b1.height (add32 (window % u32_mod) b2.height))
    then done (invalid outside_window, (dict, net))
    else done (valid, (delete_key slashed dict, net))

abbrev pub if_apart :
    Run (Bool × Net)
    → SlashingDict
    → (Net → Run (Verdict × (SlashingDict × Net)))
    → Run (Verdict × (SlashingDict × Net))
if_apart (done (true, net)) dict next = done (invalid same_chain, (dict, net))
if_apart (done (false, net)) dict next = next net
if_apart panic dict next = panic
if_apart hang dict next = hang

module _ (fetch : ℕ → Hash → Hash → Answer) where
  unfoldable pub seek_among :
      (fuel window : ℕ) → List Block → Block → SlashingDict → Net → Run (SlashingDict × Net)
  seek_among fuel window [] b dict net = done (dict, net)
  seek_among fuel window (prev ∷ prevs) b dict net =
      unless_same (is_in_same_chain fetch fuel prev b net) dict
        (λ net'. seek_among fuel window prevs b (note_proof window b prev dict) net')

  -- `some` is the return of nil, `none` the error for a missing last block.
  unfoldable pub seek_slashing_proof :
      (sort : List Block → List Block) (fuel window : ℕ)
      → Block
      → SlashingDict
      → Net
      → Run (Option (SlashingDict × Net))
  seek_slashing_proof sort fuel window b dict net = elim (read_last_closed_block net.storage) [
    | none ↦ done none
    | some last ↦
        if last.hash == b.hash || last.hash == b.prev_hash
        then done (some (dict, net))
        else elim (seek_among fuel window (read_all_closed_blocks sort net.storage) b dict net) [
          | done r ↦ done (some r)
          | panic ↦ panic
          | hang ↦ hang
        ]
  ]

  -- `IsInSameChain` reads the heights of both blocks, so it panics on a block that neither bucket
  -- holds, and what the code does for such a block afterwards is not reached.
  unfoldable pub check_conflict :
      (fuel window : ℕ)
      → Hash
      → Option Block
      → Option Block
      → SlashingDict
      → Net
      → Run (Verdict × (SlashingDict × Net))
  check_conflict fuel window slashed (some b1) (some b2) dict net =
      if_apart (is_in_same_chain fetch fuel b1 b2 net) dict (check_window window slashed b1 b2 dict)
  check_conflict fuel window slashed _ _ dict net = panic

  unfoldable pub slashing_check :
      (fuel window : ℕ) (slashed h1 h2 w1 w2 : Hash)
      → SlashingDict
      → Net
      → Run (Verdict × (SlashingDict × Net))
  slashing_check fuel window slashed h1 h2 w1 w2 dict net =
      if h1 == 0 || h2 == 0
      then done (invalid invalid_hashes, (dict, net))
      else if h1 == h2
      then done (invalid same_hashes, (dict, net))
      else check_conflict fuel window slashed
          (or_else (read_closed_block h1 net.storage) (read_closed_block_without_tx w1 net.storage))
          (or_else (read_closed_block h2 net.storage) (read_closed_block_without_tx w2 net.storage))
          dict net
