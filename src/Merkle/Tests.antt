-- ===== src/Merkle/Tests.antt =====
-- The theorems of the tree at small lists of hashes.
use bazo_miner.Prelude.{◌+◌, ◌*◌, ◌≡◌, refl, true, false, List, [], ◌∷◌, arith, some, ◌⊎◌, inl}
use bazo_miner.Ledger.Types.{Hash}
use bazo_miner.Merkle.{
  MerkleTree, built, new_tree, verify_tree, build_intermediate, pair_up, shrink, check_power2,
  halves, Node, leaf, branch,
}
use bazo_miner.Merkle.Verify.{new_tree-verify_tree}
use bazo_miner.Merkle.Fold.{hashes_of}
use bazo_miner.Merkle.Collision.{Collision, build_intermediate-Collision}

abbrev mix : Hash → Hash → Hash
mix a b = 1000 * a + b + 7

abbrev three : List Hash
three = 4 ∷ 0 ∷ 5 ∷ 6 ∷ []

new_tree-verify_tree_example :
    (t : MerkleTree) × (new_tree mix three ≡ built (some t)) × (verify_tree mix t ≡ true)
new_tree-verify_tree_example = new_tree-verify_tree mix three (inl (λ e. omega arith))

abbrev nodes : List Node
nodes = leaf false 4 ∷ leaf false 5 ∷ leaf true 6 ∷ leaf true 6 ∷ []

abbrev other_nodes : List Node
other_nodes = leaf false 4 ∷ leaf false 5 ∷ leaf false 6 ∷ leaf false 6 ∷ []

abbrev root : Node
root =
    branch (branch (leaf false 4) (leaf false 5) 4012) (branch (leaf true 6) (leaf true 6) 6013)
      4018020

abbrev other_root : Node
other_root =
    branch (branch (leaf false 4) (leaf false 5) 4012) (branch (leaf false 6) (leaf false 6) 6013)
      4018020

build_intermediate-Collision_example : (hashes_of nodes ≡ hashes_of other_nodes) ⊎ Collision mix
unfolding build_intermediate pair_up shrink check_power2 halves
build_intermediate-Collision_example =
    build_intermediate-Collision mix 4 nodes other_nodes root other_root refl refl refl refl
