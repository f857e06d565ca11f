-- ===== src/Merkle/Collision.antt =====
-- What a root hash says of the leaves.
use bazo_miner.Prelude.{
  ℕ, zero, suc, ◌+◌, ◌/◌, ◌≡◌, refl, false, Option, none, some, List, [], ◌∷◌, length, ap, ◌∙◌,
  arith, sym, Bool-cases, ◌⊎◌, inl, inr, ◌==◌, ◌&&◌,
}
use bazo_miner.Ledger.Types.{Hash}
use bazo_miner.Merkle.{Node, Built, built, panic, hang, shrink, build_intermediate, node_hash}
use bazo_miner.Merkle.Fold.{
  hashes_of, hashed, root_hash, pair_hashes, then_with, and_also, build_intermediate-root_hash,
  length-hashes_of,
}

none-some : {A : Type 0} {x : A} → none ≡ some x → ⊥
none-some e = cc

panic-built : {A : Type 0} {x : A} → panic ≡ built x → ⊥
panic-built e = cc

hang-built : {A : Type 0} {x : A} → hang ≡ built x → ⊥
hang-built e = cc

some_injective : {A : Type 0} {x y : A} → some x ≡ some y → x ≡ y
some_injective e = cc

module _ (sha3 : Hash → Hash → Hash) where
  pub record Collision : Type 0 where
    pub a : Hash
    pub b : Hash
    pub c : Hash
    pub d : Hash
    pub differ : (a == c && b == d) ≡ false
    pub collide : sha3 a b ≡ sha3 c d

  collide_or_equal : (a b c d : Hash) → sha3 a b ≡ sha3 c d → ((a ≡ c) × (b ≡ d)) ⊎ Collision
  collide_or_equal a b c d h = elim (Bool-cases (a == c && b == d)) [
    | inl e ↦ inl (ground arith, ground arith)
    | inr e ↦ inr (record { a = a; b = b; c = c; d = d; differ = e; collide = h })
  ]

  and_also-some :
      (h : Hash) (o : Option (List Hash)) (ms : List Hash)
      → and_also h o ≡ some ms
      → (hs : List Hash) × (o ≡ some hs) × (ms ≡ h ∷ hs)
  and_also-some h none ms e = absurd (none-some e)
  and_also-some h (some hs) ms e = (hs, refl, sym (some_injective e))

  pair_hashes-Collision :
      (l : ℕ) (xs ys ms : List Hash)
      → pair_hashes sha3 l xs ≡ some ms
      → pair_hashes sha3 l ys ≡ some ms
      → (xs ≡ ys) ⊎ Collision
  unfolding pair_hashes
  pair_hashes-Collision zero xs ys ms e f = inl (some_injective (e ∙ sym f))
  pair_hashes-Collision (suc zero) xs ys ms e f = absurd (none-some e)
  pair_hashes-Collision (suc (suc l)) [] ys ms e f = absurd (none-some e)
  pair_hashes-Collision (suc (suc l)) (x ∷ []) ys ms e f = absurd (none-some e)
  pair_hashes-Collision (suc (suc l)) (x ∷ y ∷ xs) [] ms e f = absurd (none-some f)
  pair_hashes-Collision (suc (suc l)) (x ∷ y ∷ xs) (z ∷ []) ms e f = absurd (none-some f)
  pair_hashes-Collision (suc (suc l)) (x ∷ y ∷ xs) (z ∷ w ∷ ys) ms e f =
      let (hs, p, m) = and_also-some (sha3 x y) (pair_hashes sha3 l xs) ms e in
      let (ks, q, n) = and_also-some (sha3 z w) (pair_hashes sha3 l ys) ms f in
      let same : hs ≡ ks = cc in
      let top : sha3 x y ≡ sha3 z w = cc in
      elim (collide_or_equal x y z w top) [
        | inr c ↦ inr c
        | inl (a, b) ↦ elim (pair_hashes-Collision l xs ys hs p (q ∙ ap some (sym same))) [
          | inr c ↦ inr c
          | inl r ↦ inl cc
        ]
      ]

  then_with-built :
      (o : Option (List Hash)) (next : List Hash → Built Hash) (r : Hash)
      → then_with o next ≡ built r
      → (hs : List Hash) × (o ≡ some hs) × (next hs ≡ built r)
  then_with-built none next r e = absurd (panic-built e)
  then_with-built (some hs) next r e = (hs, refl, e)

  length-pair_hashes :
      (l : ℕ) (xs ms : List Hash) → pair_hashes sha3 l xs ≡ some ms → length ms + l / 2 ≡ length xs
  unfolding pair_hashes
  length-pair_hashes zero xs ms e = let same = ap length (some_injective e) in omega arith
  length-pair_hashes (suc zero) xs ms e = absurd (none-some e)
  length-pair_hashes (suc (suc l)) [] ms e = absurd (none-some e)
  length-pair_hashes (suc (suc l)) (x ∷ []) ms e = absurd (none-some e)
  length-pair_hashes (suc (suc l)) (x ∷ y ∷ xs) ms e =
      let (hs, p, m) = and_also-some (sha3 x y) (pair_hashes sha3 l xs) ms e in
      let n = length-pair_hashes l xs hs p in let k = ap length m in omega arith

  abbrev Binding : ℕ → Type 0
  Binding fuel =
      (xs ys : List Hash) (r : Hash)
      → length xs ≡ length ys
      → root_hash sha3 fuel xs ≡ built r
      → root_hash sha3 fuel ys ≡ built r
      → (xs ≡ ys) ⊎ Collision

  abbrev next_round : ℕ → List Hash → Built Hash
  next_round fuel xs = then_with (pair_hashes sha3 (shrink (length xs)) xs) (root_hash sha3 fuel)

  next_round-Collision :
      (fuel : ℕ)
      → Binding fuel
      → (xs ys : List Hash) (r : Hash) → length xs ≡ length ys
      → next_round fuel xs ≡ built r
      → next_round fuel ys ≡ built r
      → (xs ≡ ys) ⊎ Collision
  next_round-Collision fuel h xs ys r n e f =
      let l = shrink (length xs) in
      let f₁ : then_with (pair_hashes sha3 l ys) (root_hash sha3 fuel) ≡ built r = rw (n, f) in
      let (hs, p, p₁) = then_with-built (pair_hashes sha3 l xs) (root_hash sha3 fuel) r e in
      let (ks, q, q₁) = then_with-built (pair_hashes sha3 l ys) (root_hash sha3 fuel) r f₁ in
      let a = length-pair_hashes l xs hs p in
      let b = length-pair_hashes l ys ks q in
      elim (h hs ks r (omega arith) p₁ q₁) [
        | inr c ↦ inr c
        | inl same ↦ pair_hashes-Collision l xs ys hs p (q ∙ ap some (sym same))
      ]

  -- Two lists of hashes of one length with the same root hash are the same list, or they show two
  -- different inputs with the same SHA3.
  root_hash-Collision :
      (fuel : ℕ) (xs ys : List Hash) (r : Hash)
      → length xs ≡ length ys
      → root_hash sha3 fuel xs ≡ built r
      → root_hash sha3 fuel ys ≡ built r
      → (xs ≡ ys) ⊎ Collision
  unfolding root_hash
  root_hash-Collision zero xs ys r n e f = absurd (hang-built e)
  root_hash-Collision (suc fuel) [] [] r n e f = inl refl
  root_hash-Collision (suc fuel) [] (y ∷ ys) r n e f = absurd (omega arith)
  root_hash-Collision (suc fuel) (x ∷ []) [] r n e f = absurd (omega arith)
  root_hash-Collision (suc fuel) (x ∷ []) (y ∷ []) r n e f =
      next_round-Collision fuel (root_hash-Collision fuel) (x ∷ []) (y ∷ []) r n e f
  root_hash-Collision (suc fuel) (x ∷ []) (y ∷ z ∷ ys) r n e f = absurd (omega arith)
  root_hash-Collision (suc fuel) (x ∷ y ∷ []) [] r n e f = absurd (omega arith)
  root_hash-Collision (suc fuel) (x ∷ y ∷ []) (z ∷ []) r n e f = absurd (omega arith)
  root_hash-Collision (suc fuel) (x ∷ y ∷ []) (z ∷ w ∷ []) r n e f =
      let top : sha3 x y ≡ sha3 z w = cc in
      elim (collide_or_equal x y z w top) [ inr c ↦ inr c | inl (a, b) ↦ inl cc ]
  root_hash-Collision (suc fuel) (x ∷ y ∷ []) (z ∷ w ∷ v ∷ ys) r n e f = absurd (omega arith)
  root_hash-Collision (suc fuel) (x ∷ y ∷ u ∷ xs) [] r n e f = absurd (omega arith)
  root_hash-Collision (suc fuel) (x ∷ y ∷ u ∷ xs) (z ∷ []) r n e f = absurd (omega arith)
  root_hash-Collision (suc fuel) (x ∷ y ∷ u ∷ xs) (z ∷ w ∷ []) r n e f = absurd (omega arith)
  root_hash-Collision (suc fuel) (x ∷ y ∷ u ∷ xs) (z ∷ w ∷ v ∷ ys) r n e f =
      next_round-Collision fuel (root_hash-Collision fuel) (x ∷ y ∷ u ∷ xs) (z ∷ w ∷ v ∷ ys) r n e f

  -- Two lists of nodes of one length from which trees with the same root hash are built have the same
  -- hashes, or they show two different pairs of hashes with the same SHA3.
  pub build_intermediate-Collision :
      (fuel : ℕ) (ns ms : List Node) (n m : Node)
      → length ns ≡ length ms
      → build_intermediate sha3 fuel ns ≡ built n
      → build_intermediate sha3 fuel ms ≡ built m
      → node_hash n ≡ node_hash m
      → (hashes_of ns ≡ hashes_of ms) ⊎ Collision
  build_intermediate-Collision fuel ns ms n m l e f h =
      root_hash-Collision fuel (hashes_of ns) (hashes_of ms) (node_hash n)
        (length-hashes_of ns ∙ (l ∙ sym (length-hashes_of ms)))
        (sym (build_intermediate-root_hash sha3 fuel ns) ∙ ap hashed e)
        (sym (build_intermediate-root_hash sha3 fuel ms) ∙ (ap hashed f ∙ ap built (sym h)))
