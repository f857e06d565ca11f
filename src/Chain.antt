-- ===== src/Chain.antt =====
-- miner/longestchain.go, miner/slashing.go and slashingCheck of miner/block_validation.go: the search
-- for the common ancestor, the blocks to roll back, and the proofs of votes on two chains.
pub mod Links
pub mod Search
pub mod Rollback
pub mod Slashing
pub mod SameChain
pub mod Proofs
mod Tests
use bazo_miner.Prelude.{
  ℕ, zero, suc, ◌+◌, ◌%◌, Bool, true, false, not, ◌&&◌, ◌||◌, Option, none, some, List, [], ◌∷◌,
  ◌++◌, length, reverse, ltb, leb, ◌==◌, if◌then◌else◌,
}
use bazo_miner.Prelude.Words.{add64, add32, u32_mod}
use bazo_miner.Prelude.Assoc.{Assoc, insert}
use bazo_miner.Ledger.Types.{Hash, Block}
use bazo_miner.Storage.{
  Storage, read_closed_block, read_closed_block_without_tx, read_open_block, read_last_closed_block,
  read_all_closed_blocks, write_to_received_stash, delete_key,
}

-- A block that answers the request, or the timeout, with the blocks that reached the stash meanwhile.
pub data Answer : Type 0 where
  received : Block → Answer
  timed_out : List Block → Answer

-- A call that returns, reads a nil pointer, or does not leave its loop.
pub data Run (A : Type 0) : Type 0 where
  done : A → Run A
  panic : Run A
  hang : Run A

-- A block and the network: the requests that were made, and the storage.
pub record Net : Type 0 where
  pub requests : ℕ
  pub storage : Storage

abbrev pub or_else : Option Block → Option Block → Option Block
or_else none o = o
or_else (some b) o = some b

-- The closed block before this one, or the one without transactions.
unfoldable pub closed_parent : Block → Storage → Option Block
closed_parent b s =
    or_else (read_closed_block b.prev_hash s)
      (read_closed_block_without_tx b.prev_hash_without_tx s)

abbrev pub find_in_stash : List Block → Hash → Option Block
find_in_stash [] h = none
find_in_stash (b ∷ bs) h = if b.hash == h then some b else find_in_stash bs h

abbrev pub invert_block_array : List Block → List Block
invert_block_array bs = reverse bs

abbrev pub write_all : List Block → Storage → Storage
write_all [] s = s
write_all (b ∷ bs) s = write_all bs (write_to_received_stash b s)

-- What a round of the loop of `getNewChain` comes to.
pub data Move : Type 0 where
  ancestor : Block → Move
  again : Block → Net → Move
  give_up : Net → Move

-- What a request comes to, once the wait is over: a block, or none.
abbrev pub after_wait : Answer → Hash → Net → Option Block × Net
after_wait (received c) h net = (
  some c,
  record { requests = suc net.requests; storage = write_to_received_stash c net.storage },
)
after_wait (timed_out cs) h net =
    let s = write_all cs net.storage in
    (find_in_stash s.received_block_stash h, record { requests = suc net.requests; storage = s })

abbrev pub move_to : Option Block × Net → Move
move_to (none, net) = give_up net
move_to (some c, net) = again c net

-- `getBlockSequences` fails with one of these.
pub data SequenceError : Type 0 where
  no_ancestor no_last_block block_not_found not_longer : SequenceError

pub data Sequences : Type 0 where
  sequences : List Block → List Block → Sequences
  refused : SequenceError → Sequences

abbrev pub is_same_block : Block → Block → Bool
is_same_block b c = b.hash == c.hash || b.hash_without_tx == c.hash_without_tx

-- The walk back from the last block: the blocks before the ancestor, or none for a block that is in
-- neither bucket.
abbrev pub and_before : Block → Run (Option (List Block)) → Run (Option (List Block))
and_before b (done none) = done none
and_before b (done (some bs)) = done (some (b ∷ bs))
and_before b panic = panic
and_before b hang = hang

abbrev pub walk_on : Option Block → (Block → Run (Option (List Block))) → Run (Option (List Block))
walk_on none next = done none
walk_on (some c) next = next c

unfoldable pub blocks_to_rollback : (fuel : ℕ) → Block → Block → Storage → Run (Option (List Block))
blocks_to_rollback zero b a s = hang
blocks_to_rollback (suc fuel) b a s =
    if is_same_block b a
    then done (some [])
    else and_before b (walk_on (closed_parent b s) (λ c. blocks_to_rollback fuel c a s))

abbrev pub compare_lengths : Run (Option (List Block)) → List Block → Run Sequences
compare_lengths (done none) new = done (refused block_not_found)
compare_lengths (done (some old)) new =
    if leb (length new) (length old) then done (refused not_longer) else done (sequences old new)
compare_lengths panic new = panic
compare_lengths hang new = hang

abbrev pub from_last : (fuel : ℕ) → Option Block → Block → List Block → Storage → Run Sequences
from_last fuel none a new s = done (refused no_last_block)
from_last fuel (some b) a new s = compare_lengths (blocks_to_rollback fuel b a s) new

-- `fetch n h k` is what the n-th request brings, for the block with hash h and hash without
-- transactions k.
module _ (fetch : ℕ → Hash → Hash → Answer) where
  abbrev pub request : Block → Net → Option Block × Net
  request b net = after_wait (fetch net.requests b.prev_hash b.prev_hash_without_tx) b.prev_hash net

  abbrev pub search_stash : Option Block → Block → Net → Move
  search_stash (some c) b net = again c net
  search_stash none b net = move_to (request b net)

  -- `openBlock != nil`: the loop goes on with the same block.
  abbrev pub search_open : Option Block → Block → Net → Move
  search_open (some _) b net = again b net
  search_open none b net =
      search_stash (find_in_stash net.storage.received_block_stash b.prev_hash) b net

  abbrev pub search_closed : Option Block → Block → Net → Move
  search_closed (some a) b net = ancestor a
  search_closed none b net = search_open (read_open_block b.prev_hash net.storage) b net

  unfoldable pub search_step : Block → Net → Move
  search_step b net = search_closed (closed_parent b net.storage) b net

  abbrev pub NewChain : Type 0
  NewChain = Option (Block × List Block) × Net

  abbrev pub go_on : Move → List Block → Net → (Block → Net → Run NewChain) → Run NewChain
  go_on (ancestor a) chain net next = done (some (a, invert_block_array chain), net)
  go_on (again c net') chain net next = next c net'
  go_on (give_up net') chain net next = done (none, net')

  unfoldable pub get_new_chain : (fuel : ℕ) → Block → List Block → Net → Run NewChain
  get_new_chain zero b chain net = hang
  get_new_chain (suc fuel) b chain net =
      go_on (search_step b net) (chain ++ b ∷ []) net
        (λ c net'. get_new_chain fuel c (chain ++ b ∷ []) net')

  abbrev pub with_chain : (fuel : ℕ) → Option Block → Run NewChain → Run Sequences
  with_chain fuel last (done (none, net)) = done (refused no_ancestor)
  with_chain fuel last (done (some (a, new), net)) =
      from_last fuel (or_else last (read_last_closed_block net.storage)) a new net.storage
  with_chain fuel last panic = panic
  with_chain fuel last hang = hang

  -- `last` is the global lastBlock.
  unfoldable pub get_block_sequences : (fuel : ℕ) → Option Block → Block → Net → Run Sequences
  get_block_sequences fuel last b net = with_chain fuel last (get_new_chain fuel b [] net)

  abbrev pub parent_or_request : Option Block → Block → Net → Option Block × Net
  parent_or_request (some c) b net = (some c, net)
  parent_or_request none b net = request b net

  -- The test for nil is on the block before, so a parent that is nil is read.
  abbrev pub climb_on :
      Option Block × Net → Block → (Block → Net → Run (Bool × Net)) → Run (Bool × Net)
  climb_on (none, net) low next = panic
  climb_on (some c, net) low next = if c.hash == low.hash then done (true, net) else next c net

  unfoldable pub climb : (fuel : ℕ) → Block → Block → Net → Run (Bool × Net)
  climb zero high low net = hang
  climb (suc fuel) high low net =
      if high.height == 0
      then done (false, net)
      else climb_on (parent_or_request (closed_parent high net.storage) high net) low
          (λ c net'. climb fuel c low net')

  unfoldable pub is_in_same_chain : (fuel : ℕ) → Block → Block → Net → Run (Bool × Net)
  is_in_same_chain fuel b1 b2 net =
      if b1.height == b2.height
      then done (false, net)
      else if ltb b2.height b1.height
      then climb fuel b1 b2 net
      else climb fuel b2 b1 net
