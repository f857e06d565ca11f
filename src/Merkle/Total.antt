-- ===== src/Merkle/Total.antt =====
-- Building a tree ends, for hashes that are not all zero.
use bazo_miner.Prelude.{
  ℕ, zero, suc, ◌+◌, ◌/◌, ◌%◌, ◌≤◌, ◌<◌, ◌≡◌, ◌≢◌, refl, some, List, [], ◌∷◌, length, arith,
  Bool-cases, ◌⊎◌, inl, inr, ◌==◌, ap, ◌∙◌,
}
use bazo_miner.Ledger.Types.{Hash}
use bazo_miner.Merkle.{
  Node, leaf, branch, built, hang, shrink, make_leafs, double_last, even_leafs, pair_up,
  build_intermediate, join, after_pairs,
}
use bazo_miner.Merkle.Power.{shrink-le, shrink-quarter}

-- One of the hashes is not zero.
abbrev pub HasContent : List Hash → Type 0
HasContent [] = ⊥
HasContent (h ∷ hs) = (h ≢ 0) ⊎ HasContent hs

pub length-make_leafs : (hs : List Hash) → HasContent hs → 1 ≤ length (make_leafs hs)
unfolding make_leafs
length-make_leafs [] h = elim h [ ]
length-make_leafs (x ∷ hs) h = elim (Bool-cases (x == 0)) [
  | inl z ↦ elim h [ inl n ↦ absurd (n (ground arith)) | inr k ↦ rw z (length-make_leafs hs k) ]
  | inr z ↦ rw z (omega arith)
]

length-double_last : (ns : List Node) → 1 ≤ length ns → length (double_last ns) ≡ suc (length ns)
unfolding double_last
length-double_last [] h = elim h [ ]
length-double_last (leaf dup x ∷ []) h = refl
length-double_last (branch l r x ∷ []) h = refl
length-double_last (n ∷ m ∷ ns) h = ap suc (length-double_last (m ∷ ns) (omega arith))

pub even_leafs-even :
    (ns : List Node)
    → 1 ≤ length ns
    → (2 ≤ length (even_leafs ns)) × (length (even_leafs ns) % 2 ≡ 0)
unfolding even_leafs
even_leafs-even ns h = ground (arith, length-double_last ns)

module _ (sha3 : Hash → Hash → Hash) where
  pub pair_up-length :
      (l : ℕ) (ns : List Node)
      → l ≤ length ns
      → l % 2 ≡ 0
      → (ms : List Node) × (pair_up sha3 l ns ≡ some ms) × (length ms + l / 2 ≡ length ns)
  unfolding pair_up
  pair_up-length zero ns h e = (ns, refl, omega arith)
  pair_up-length (suc zero) ns h e = absurd (omega arith)
  pair_up-length (suc (suc l)) [] h e = absurd (omega arith)
  pair_up-length (suc (suc l)) (x ∷ []) h e = absurd (omega arith)
  pair_up-length (suc (suc l)) (x ∷ y ∷ ns) h e =
      let (ms, q, n) = pair_up-length l ns (omega arith) (omega arith) in
      (join sha3 x y ∷ ms, rw q, omega arith)

  -- What a round makes of four nodes or more: an even number of nodes, and fewer.
  pub round :
      (ns : List Node)
      → 4 ≤ length ns
      → length ns % 2 ≡ 0
      → (ms : List Node) × (pair_up sha3 (shrink (length ns)) ns ≡ some ms)
        × ((2 ≤ length ms) × (length ms % 2 ≡ 0) × (length ms < length ns))
  round ns h e =
      let (big, quarter) = shrink-quarter (length ns) h in
      let small = shrink-le (length ns) in
      let (ms, q, n) = pair_up-length (shrink (length ns)) ns small (omega arith) in
      (ms, q, (omega arith, omega arith, omega arith))

  pub build_intermediate-built :
      (fuel : ℕ) (ns : List Node)
      → length ns ≤ fuel
      → 2 ≤ length ns
      → length ns % 2 ≡ 0
      → (root : Node) × (build_intermediate sha3 fuel ns ≡ built root)
  unfolding build_intermediate
  build_intermediate-built zero ns f h e = absurd (omega arith)
  build_intermediate-built (suc fuel) [] f h e = absurd (omega arith)
  build_intermediate-built (suc fuel) (x ∷ []) f h e = absurd (omega arith)
  build_intermediate-built (suc fuel) (x ∷ y ∷ []) f h e = (join sha3 x y, refl)
  build_intermediate-built (suc fuel) (x ∷ y ∷ z ∷ ns) f h e =
      let (ms, q, (two, even, less)) = round (x ∷ y ∷ z ∷ ns) (omega arith) e in
      let (root, b) = build_intermediate-built fuel ms (omega arith) two even in
      (root, ap (λ o. after_pairs sha3 o (build_intermediate sha3 fuel)) q ∙ b)

  -- Without a node the call repeats itself for ever.
  pub build_intermediate-empty : (fuel : ℕ) → build_intermediate sha3 fuel [] ≡ hang
  unfolding build_intermediate pair_up shrink
  build_intermediate-empty zero = refl
  build_intermediate-empty (suc fuel) = build_intermediate-empty fuel
