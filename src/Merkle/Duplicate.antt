-- ===== src/Merkle/Duplicate.antt =====
-- Two blocks with the root hash of one: the last of an odd number of transactions, given twice.
use bazo_miner.Prelude.{
  ◌%◌, ◌≡◌, refl, Bool, true, false, Option, List, [], ◌∷◌, ◌++◌, length, ap, ◌∙◌, arith, sym,
  Bool-cases, inl, inr, ◌==◌, ◌≢◌, length-append,
}
use bazo_miner.Ledger.Types.{Hash}
use bazo_miner.Merkle.{
  Node, leaf, branch, Built, built, panic, hang, make_leafs, even_leafs, double_last, new_tree,
  build_with_content, tree_of, build_intermediate, node_hash, merkle_root_of, MerkleTree,
}
use bazo_miner.Merkle.Fold.{
  hashes_of, hashed, root_hash, build_intermediate-root_hash, length-hashes_of,
}

-- The root hash of a call that ends, 0 for the nil tree.
abbrev no_hash : Hash → Hash → Hash
no_hash a b = 0

abbrev pub built_root : Built (Option MerkleTree) → Built Hash
built_root (built t) = built (merkle_root_of no_hash t)
built_root panic = panic
built_root hang = hang

make_leafs-append :
    (xs : List Hash) (ys : List Hash) → make_leafs (xs ++ ys) ≡ make_leafs xs ++ make_leafs ys
unfolding make_leafs
make_leafs-append [] ys = refl
make_leafs-append (x ∷ xs) ys = elim (Bool-cases (x == 0)) [
  | inl e ↦ rw (e, make_leafs-append xs ys)
  | inr e ↦ rw (e, make_leafs-append xs ys)
]

double_last-hashes_of :
    (ns : List Node) (d e f : Bool) (h : Hash)
    → hashes_of (double_last (ns ++ leaf d h ∷ [])) ≡ hashes_of (ns ++ leaf e h ∷ leaf f h ∷ [])
unfolding double_last
double_last-hashes_of [] d e f h = refl
double_last-hashes_of (leaf a b ∷ []) d e f h = refl
double_last-hashes_of (branch l r b ∷ []) d e f h = refl
double_last-hashes_of (n ∷ m ∷ ns) d e f h =
    ap (λ t. node_hash n ∷ t) (double_last-hashes_of (m ∷ ns) d e f h)

even_leafs-hashes_of :
    (ns : List Node) (h : Hash)
    → length ns % 2 ≡ 0
    → hashes_of (even_leafs (ns ++ leaf false h ∷ []))
      ≡ hashes_of (even_leafs (ns ++ leaf false h ∷ leaf false h ∷ []))
unfolding even_leafs
even_leafs-hashes_of ns h e =
    let n = length-append ns (leaf false h ∷ []) in
    let m = length-append ns (leaf false h ∷ leaf false h ∷ []) in
    let odd : (length (ns ++ leaf false h ∷ []) % 2 == 1) ≡ true = ground arith in
    let even : (length (ns ++ leaf false h ∷ leaf false h ∷ []) % 2 == 1) ≡ false = ground arith in
    rw (odd, even, double_last-hashes_of ns false false false h)

module _ (sha3 : Hash → Hash → Hash) where
  tree_of-hashed :
      (leafs : List Node) (r : Built Node) → built_root (tree_of sha3 leafs r) ≡ hashed r
  tree_of-hashed leafs (built n) = refl
  tree_of-hashed leafs panic = refl
  tree_of-hashed leafs hang = refl

  abbrev tree_root : List Node → Built Hash
  tree_root ns = root_hash sha3 (length (hashes_of ns)) (hashes_of ns)

  new_tree-root_hash :
      (h : Hash) (hs : List Hash)
      → built_root (new_tree sha3 (h ∷ hs)) ≡ tree_root (even_leafs (make_leafs (h ∷ hs)))
  unfolding new_tree build_with_content
  new_tree-root_hash h hs =
      let ns = even_leafs (make_leafs (h ∷ hs)) in
      tree_of-hashed ns (build_intermediate sha3 (length ns) ns)
      ∙ (build_intermediate-root_hash sha3 (length ns) ns
          ∙ ap (λ n. root_hash sha3 n (hashes_of ns)) (sym (length-hashes_of ns)))

  new_tree-append :
      (hs : List Hash) (x : Hash) (ys : List Hash)
      → built_root (new_tree sha3 (hs ++ x ∷ ys))
        ≡ tree_root (even_leafs (make_leafs (hs ++ x ∷ ys)))
  new_tree-append [] x ys = new_tree-root_hash x ys
  new_tree-append (h ∷ hs) x ys = new_tree-root_hash h (hs ++ x ∷ ys)

  make_leafs-one :
      (x : Hash) → x ≢ 0 → (hs : List Hash) → make_leafs (x ∷ hs) ≡ leaf false x ∷ make_leafs hs
  unfolding make_leafs
  make_leafs-one x n hs = elim (Bool-cases (x == 0)) [
    | inl e ↦ absurd (n (ground arith))
    | inr e ↦ rw e refl
  ]

  -- With an even number of hashes that are not zero before it, a last hash that is not zero may be
  -- given once or twice: the root hash is the same.
  pub new_tree-same_root :
      (hs : List Hash) (x : Hash)
      → length (make_leafs hs) % 2 ≡ 0
      → x ≢ 0
      → built_root (new_tree sha3 (hs ++ x ∷ [])) ≡ built_root (new_tree sha3 (hs ++ x ∷ x ∷ []))
  unfolding make_leafs
  new_tree-same_root hs x e n =
      let once : make_leafs (hs ++ x ∷ []) ≡ make_leafs hs ++ leaf false x ∷ [] =
        make_leafs-append hs (x ∷ []) ∙ ap (λ t. make_leafs hs ++ t) (make_leafs-one x n []) in
      let two = make_leafs-one x n (x ∷ []) ∙ ap (λ t. leaf false x ∷ t) (make_leafs-one x n []) in
      let twice : make_leafs (hs ++ x ∷ x ∷ [])
          ≡ make_leafs hs ++ leaf false x ∷ leaf false x ∷ [] =
        make_leafs-append hs (x ∷ x ∷ []) ∙ ap (λ t. make_leafs hs ++ t) two in
      let same = even_leafs-hashes_of (make_leafs hs) x e in
      new_tree-append hs x []
      ∙ (ap (λ t. tree_root (even_leafs t)) once
          ∙ (ap (λ t. root_hash sha3 (length t) t) same
              ∙ (ap (λ t. tree_root (even_leafs t)) (sym twice)
                  ∙ sym (new_tree-append hs x (x ∷ [])))))
