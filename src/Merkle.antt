-- ===== src/Merkle.antt =====
-- protocol/merkletree.go. `sha3 a b` is `sha3.Sum256` on the 64 bytes of two hashes. A node is a value:
-- the pointer to its parent, which only `GetIntermediate` reads, is left out.
pub mod Power
pub mod Total
pub mod Fold
pub mod Verify
pub mod Collision
pub mod Duplicate
mod Tests
use bazo_miner.Prelude.{
  ℕ, zero, suc, ◌+◌, ◌/◌, ◌%◌, Bool, true, false, not, ◌&&◌, ◌||◌, Option, none, some, List, [],
  ◌∷◌, ◌++◌, length, ◌==◌, if◌then◌else◌,
}
use bazo_miner.Ledger.Types.{Hash, Block}

-- `Node`: a leaf with its marks and its hash, or two nodes and the hash over theirs.
pub data Node : Type 0 where
  leaf : (dup : Bool) → Hash → Node
  branch : Node → Node → Hash → Node

abbrev pub node_hash : Node → Hash
node_hash (leaf dup h) = h
node_hash (branch l r h) = h

pub record MerkleTree : Type 0 where
  pub root : Node
  pub merkle_root : Hash
  pub leafs : List Node

-- The hashes of a block's transactions, by their kinds.
abbrev pub tx_hashes : Block → List Hash
tx_hashes b =
    b.funds_tx_data
    ++ (b.acc_tx_data
        ++ (b.config_tx_data ++ (b.stake_tx_data ++ (b.agg_tx_data ++ b.update_tx_data))))

-- A call that returns, reads out of range, or calls itself without end.
pub data Built (A : Type 0) : Type 0 where
  built : A → Built A
  panic : Built A
  hang : Built A

-- `math.Log2` of a length is whole for 0, whose logarithm is infinite, and for the powers of two.
pub halves : (fuel : ℕ) → ℕ → Bool
halves zero n = false
halves (suc fuel) n = n == 1 || (n % 2 == 0 && halves fuel (n / 2))

unfoldable pub check_power2 : ℕ → Bool
unfolding halves
check_power2 n = n == 0 || halves n n

-- `for !checkPower2(l) { l-- }`
unfoldable pub shrink : ℕ → ℕ
shrink zero = zero
shrink (suc l) = if check_power2 (suc l) then suc l else shrink l

-- The leaves: the hashes that are not zero.
unfoldable pub make_leafs : List Hash → List Node
make_leafs [] = []
make_leafs (h ∷ hs) = if h == 0 then make_leafs hs else leaf false h ∷ make_leafs hs

-- The last leaf is appended again; both places hold the one node, which is then marked.
unfoldable pub double_last : List Node → List Node
double_last [] = []
double_last (leaf dup h ∷ []) = leaf true h ∷ leaf true h ∷ []
double_last (branch l r h ∷ []) = branch l r h ∷ branch l r h ∷ []
double_last (n ∷ m ∷ ns) = n ∷ double_last (m ∷ ns)

unfoldable pub even_leafs : List Node → List Node
even_leafs ns = if length ns % 2 == 1 then double_last ns else ns

module _ (sha3 : Hash → Hash → Hash) where
  unfoldable pub verify_node : Node → Hash
  verify_node (leaf dup h) = h
  verify_node (branch l r h) = sha3 (verify_node l) (verify_node r)

  abbrev pub join : Node → Node → Node
  join l r = branch l r (sha3 (node_hash l) (node_hash r))

  -- The loop `for i := 0; i < l; i += 2`, and the nodes behind `l` after it. An index that is not
  -- there is none.
  unfoldable pub pair_up : ℕ → List Node → Option (List Node)
  pair_up zero ns = some ns
  pair_up (suc (suc l)) (x ∷ y ∷ ns) = elim (pair_up l ns) [
    | none ↦ none
    | some ms ↦ some (join x y ∷ ms)
  ]
  pair_up _ _ = none

  abbrev pub after_pairs : Option (List Node) → (List Node → Built Node) → Built Node
  after_pairs none next = panic
  after_pairs (some ms) next = next ms

  -- Two nodes are the end; other lists are paired, and the call repeats.
  unfoldable pub build_intermediate : (fuel : ℕ) → List Node → Built Node
  build_intermediate zero ns = hang
  build_intermediate (suc fuel) (x ∷ y ∷ []) = built (join x y)
  build_intermediate (suc fuel) ns =
      after_pairs (pair_up (shrink (length ns)) ns) (build_intermediate fuel)

  unfoldable pub build_with_content : List Hash → Option (Built Node × List Node)
  build_with_content [] = none
  build_with_content (h ∷ hs) =
      let leafs = even_leafs (make_leafs (h ∷ hs)) in
      some (build_intermediate (length leafs) leafs, leafs)

  abbrev pub tree_of : List Node → Built Node → Built (Option MerkleTree)
  tree_of leafs (built root) =
      built (some (record { root = root; merkle_root = node_hash root; leafs = leafs }))
  tree_of leafs panic = panic
  tree_of leafs hang = hang

  abbrev pub from_content : Option (Built Node × List Node) → Built (Option MerkleTree)
  from_content none = built none
  from_content (some (r, leafs)) = tree_of leafs r

  -- `none` is the nil tree.
  unfoldable pub new_tree : List Hash → Built (Option MerkleTree)
  new_tree hs = from_content (build_with_content hs)

  unfoldable pub build_merkle_tree : Block → Built (Option MerkleTree)
  build_merkle_tree b = new_tree (tx_hashes b)

  abbrev pub merkle_root_of : Option MerkleTree → Hash
  merkle_root_of none = 0
  merkle_root_of (some t) = t.merkle_root

  unfoldable pub verify_tree : MerkleTree → Bool
  verify_tree t = t.merkle_root == verify_node t.root

abbrev pub find_leaf : List Node → Hash → Option Node
find_leaf [] h = none
find_leaf (n ∷ ns) h = if h == node_hash n then some n else find_leaf ns h

unfoldable pub get_leaf : MerkleTree → Hash → Option Node
get_leaf t h = find_leaf t.leafs h
