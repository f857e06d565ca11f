-- ===== src/Merkle/Verify.antt =====
-- A tree that was built passes its own verification.
use bazo_miner.Prelude.{
  ℕ, zero, suc, ◌%◌, ◌≡◌, refl, true, Option, none, some, List, [], ◌∷◌, length, arith, Bool-cases,
  inl, inr, ◌==◌, ap, ==_refl, subst,
}
use bazo_miner.Ledger.Types.{Hash}
use bazo_miner.Merkle.{
  Node, leaf, branch, MerkleTree, Built, built, panic, hang, shrink, make_leafs, double_last,
  even_leafs, pair_up, build_intermediate, build_with_content, new_tree, join, node_hash,
  verify_node, verify_tree, after_pairs, tree_of,
}
use bazo_miner.Merkle.Total.{
  HasContent, length-make_leafs, even_leafs-even, build_intermediate-built,
}

module _ (sha3 : Hash → Hash → Hash) where
  -- Every node carries the hash that the verification computes.
  abbrev pub AllHashed : List Node → Type 0
  AllHashed [] = Unit
  AllHashed (n ∷ ns) = (verify_node sha3 n ≡ node_hash n) × AllHashed ns

  make_leafs-AllHashed : (hs : List Hash) → AllHashed (make_leafs hs)
  unfolding make_leafs verify_node
  make_leafs-AllHashed [] = tt
  make_leafs-AllHashed (h ∷ hs) = elim (Bool-cases (h == 0)) [
    | inl z ↦ rw z (make_leafs-AllHashed hs)
    | inr z ↦ rw z (refl, make_leafs-AllHashed hs)
  ]

  double_last-AllHashed : (ns : List Node) → AllHashed ns → AllHashed (double_last ns)
  unfolding double_last
  double_last-AllHashed [] h = h
  double_last-AllHashed (leaf dup x ∷ []) h = unfold verify_node in (refl, (refl, tt))
  double_last-AllHashed (branch l r x ∷ []) (h, _) = (h, (h, tt))
  double_last-AllHashed (n ∷ m ∷ ns) (h, hs) = (h, double_last-AllHashed (m ∷ ns) hs)

  even_leafs-AllHashed : (ns : List Node) → AllHashed ns → AllHashed (even_leafs ns)
  unfolding even_leafs
  even_leafs-AllHashed ns h = elim (Bool-cases (length ns % 2 == 1)) [
    | inl e ↦ rw e (double_last-AllHashed ns h)
    | inr e ↦ rw e h
  ]

  join-hashed :
      (x y : Node)
      → verify_node sha3 x ≡ node_hash x
      → verify_node sha3 y ≡ node_hash y
      → verify_node sha3 (join sha3 x y) ≡ node_hash (join sha3 x y)
  unfolding verify_node
  join-hashed x y h k = rw (h, k)

  abbrev IfHashed : Option (List Node) → Type 0
  IfHashed none = Unit
  IfHashed (some ms) = AllHashed ms

  IfHashed-cons :
      (n : Node) (o : Option (List Node))
      → verify_node sha3 n ≡ node_hash n
      → IfHashed o
      → IfHashed (elim o [ none ↦ none | some ms ↦ some (n ∷ ms) ])
  IfHashed-cons n none h k = tt
  IfHashed-cons n (some ms) h k = (h, k)

  pair_up-IfHashed : (l : ℕ) (ns : List Node) → AllHashed ns → IfHashed (pair_up sha3 l ns)
  unfolding pair_up
  pair_up-IfHashed zero ns h = h
  pair_up-IfHashed (suc zero) ns h = tt
  pair_up-IfHashed (suc (suc l)) [] h = tt
  pair_up-IfHashed (suc (suc l)) (x ∷ []) h = tt
  pair_up-IfHashed (suc (suc l)) (x ∷ y ∷ ns) (hx, (hy, hs)) =
      IfHashed-cons (join sha3 x y) (pair_up sha3 l ns) (join-hashed x y hx hy)
        (pair_up-IfHashed l ns hs)

  -- What was built carries the hash that the verification computes.
  abbrev RootHashed : Built Node → Type 0
  RootHashed (built n) = verify_node sha3 n ≡ node_hash n
  RootHashed panic = Unit
  RootHashed hang = Unit

  after_pairs-RootHashed :
      (o : Option (List Node)) (next : List Node → Built Node)
      → IfHashed o
      → ((ms : List Node) → AllHashed ms → RootHashed (next ms))
      → RootHashed (after_pairs sha3 o next)
  after_pairs-RootHashed none next h k = tt
  after_pairs-RootHashed (some ms) next h k = k ms h

  build_intermediate-RootHashed :
      (fuel : ℕ) (ns : List Node) → AllHashed ns → RootHashed (build_intermediate sha3 fuel ns)
  unfolding build_intermediate
  build_intermediate-RootHashed zero ns h = tt
  build_intermediate-RootHashed (suc fuel) [] h =
      after_pairs-RootHashed (pair_up sha3 (shrink 0) []) _ (pair_up-IfHashed (shrink 0) [] h)
        (build_intermediate-RootHashed fuel)
  build_intermediate-RootHashed (suc fuel) (x ∷ []) h =
      after_pairs-RootHashed (pair_up sha3 (shrink 1) (x ∷ [])) _
        (pair_up-IfHashed (shrink 1) (x ∷ []) h) (build_intermediate-RootHashed fuel)
  build_intermediate-RootHashed (suc fuel) (x ∷ y ∷ []) (hx, (hy, _)) = join-hashed x y hx hy
  build_intermediate-RootHashed (suc fuel) (x ∷ y ∷ z ∷ ns) h =
      let l = shrink (length (x ∷ y ∷ z ∷ ns)) in
      after_pairs-RootHashed (pair_up sha3 l (x ∷ y ∷ z ∷ ns)) _
        (pair_up-IfHashed l (x ∷ y ∷ z ∷ ns) h) (build_intermediate-RootHashed fuel)

  -- For hashes that are not all zero a tree is built: the call ends, it reads no index out of range,
  -- and the tree passes `VerifyTree`.
  pub new_tree-verify_tree :
      (hs : List Hash)
      → HasContent hs
      → (t : MerkleTree) × (new_tree sha3 hs ≡ built (some t)) × (verify_tree sha3 t ≡ true)
  unfolding new_tree build_with_content verify_tree
  new_tree-verify_tree [] h = elim h [ ]
  new_tree-verify_tree (x ∷ hs) h =
      let leafs = even_leafs (make_leafs (x ∷ hs)) in
      let (two, even) = even_leafs-even (make_leafs (x ∷ hs)) (length-make_leafs (x ∷ hs) h) in
      let (root, e) = build_intermediate-built sha3 (length leafs) leafs (omega arith) two even in
      let hashed =
        build_intermediate-RootHashed (length leafs) leafs
          (even_leafs-AllHashed (make_leafs (x ∷ hs)) (make_leafs-AllHashed (x ∷ hs))) in
      let same : RootHashed (built root) = subst RootHashed e hashed in
      (
        record { root = root; merkle_root = node_hash root; leafs = leafs },
        ap (tree_of sha3 leafs) e,
        rw same (==_refl (node_hash root)),
      )
