-- ===== src/Merkle/Fold.antt =====
-- The root hash as a fold over the hashes of the leaves, which is what the nodes of the tree compute.
use bazo_miner.Prelude.{
  ℕ, zero, suc, ◌≡◌, refl, Option, none, some, List, [], ◌∷◌, length, ap, ◌∙◌, sym,
}
use bazo_miner.Ledger.Types.{Hash}
use bazo_miner.Merkle.{
  Node, Built, built, panic, hang, shrink, pair_up, build_intermediate, join, node_hash,
  after_pairs,
}

abbrev pub hashes_of : List Node → List Hash
hashes_of [] = []
hashes_of (n ∷ ns) = node_hash n ∷ hashes_of ns

pub length-hashes_of : (ns : List Node) → length (hashes_of ns) ≡ length ns
length-hashes_of [] = refl
length-hashes_of (n ∷ ns) = ap suc (length-hashes_of ns)

abbrev pub hashed : Built Node → Built Hash
hashed (built n) = built (node_hash n)
hashed panic = panic
hashed hang = hang

abbrev all_hashed : Option (List Node) → Option (List Hash)
all_hashed none = none
all_hashed (some ns) = some (hashes_of ns)

abbrev pub then_with : {A : Type 0} → Option A → (A → Built Hash) → Built Hash
then_with none next = panic
then_with (some hs) next = next hs

abbrev pub and_also : Hash → Option (List Hash) → Option (List Hash)
and_also h none = none
and_also h (some hs) = some (h ∷ hs)

module _ (sha3 : Hash → Hash → Hash) where
  unfoldable pub pair_hashes : ℕ → List Hash → Option (List Hash)
  pair_hashes zero hs = some hs
  pair_hashes (suc (suc l)) (x ∷ y ∷ hs) = and_also (sha3 x y) (pair_hashes l hs)
  pair_hashes _ _ = none

  unfoldable pub root_hash : (fuel : ℕ) → List Hash → Built Hash
  root_hash zero hs = hang
  root_hash (suc fuel) (x ∷ y ∷ []) = built (sha3 x y)
  root_hash (suc fuel) hs = then_with (pair_hashes (shrink (length hs)) hs) (root_hash fuel)

  all_hashed-cons :
      (x y : Node) (o : Option (List Node)) (q : Option (List Hash))
      → all_hashed o ≡ q
      → all_hashed (elim o [ none ↦ none | some ms ↦ some (join sha3 x y ∷ ms) ])
        ≡ and_also (sha3 (node_hash x) (node_hash y)) q
  all_hashed-cons x y none q e = ap (and_also (sha3 (node_hash x) (node_hash y))) e
  all_hashed-cons x y (some ms) q e = ap (and_also (sha3 (node_hash x) (node_hash y))) e

  pair_up-pair_hashes :
      (l : ℕ) (ns : List Node) → all_hashed (pair_up sha3 l ns) ≡ pair_hashes l (hashes_of ns)
  unfolding pair_up pair_hashes
  pair_up-pair_hashes zero ns = refl
  pair_up-pair_hashes (suc zero) ns = refl
  pair_up-pair_hashes (suc (suc l)) [] = refl
  pair_up-pair_hashes (suc (suc l)) (x ∷ []) = refl
  pair_up-pair_hashes (suc (suc l)) (x ∷ y ∷ ns) =
      all_hashed-cons x y (pair_up sha3 l ns) (pair_hashes l (hashes_of ns))
        (pair_up-pair_hashes l ns)

  after_pairs-then_with :
      (o : Option (List Node)) (next : List Node → Built Node) (fold : List Hash → Built Hash)
      → ((ms : List Node) → hashed (next ms) ≡ fold (hashes_of ms))
      → hashed (after_pairs sha3 o next) ≡ then_with (all_hashed o) fold
  after_pairs-then_with none next fold h = refl
  after_pairs-then_with (some ms) next fold h = h ms

  round-root_hash :
      (fuel : ℕ) (ns : List Node)
      → ((ms : List Node)
          → hashed (build_intermediate sha3 fuel ms) ≡ root_hash fuel (hashes_of ms))
      → hashed
          (after_pairs sha3 (pair_up sha3 (shrink (length ns)) ns) (build_intermediate sha3 fuel))
        ≡ then_with (pair_hashes (shrink (length (hashes_of ns))) (hashes_of ns)) (root_hash fuel)
  round-root_hash fuel ns h =
      after_pairs-then_with (pair_up sha3 (shrink (length ns)) ns) (build_intermediate sha3 fuel)
        (root_hash fuel) h
      ∙ (ap (λ o. then_with o (root_hash fuel)) (pair_up-pair_hashes (shrink (length ns)) ns)
          ∙ ap (λ n. then_with (pair_hashes (shrink n) (hashes_of ns)) (root_hash fuel))
              (sym (length-hashes_of ns)))

  -- The call on a list of nodes computes what the fold over their hashes does: the same root hash,
  -- the same read out of range, and the same endless call, for every fuel.
  pub build_intermediate-root_hash :
      (fuel : ℕ) (ns : List Node)
      → hashed (build_intermediate sha3 fuel ns) ≡ root_hash fuel (hashes_of ns)
  unfolding build_intermediate root_hash
  build_intermediate-root_hash zero ns = refl
  build_intermediate-root_hash (suc fuel) [] =
      round-root_hash fuel [] (build_intermediate-root_hash fuel)
  build_intermediate-root_hash (suc fuel) (x ∷ []) =
      round-root_hash fuel (x ∷ []) (build_intermediate-root_hash fuel)
  build_intermediate-root_hash (suc fuel) (x ∷ y ∷ []) = refl
  build_intermediate-root_hash (suc fuel) (x ∷ y ∷ z ∷ ns) =
      round-root_hash fuel (x ∷ y ∷ z ∷ ns) (build_intermediate-root_hash fuel)
