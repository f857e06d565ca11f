-- ===== src/Chain/Rollback.antt =====
-- Which blocks are rolled back, and which are validated in their place.
use bazo_miner.Prelude.{
  ℕ, zero, suc, ◌<◌, ◌≤◌, ◌≡◌, ◌⊎◌, ◌==◌, refl, true, false, Option, none, some, List, [], ◌∷◌,
  length, arith, sym, subst, inl, inr, Bool-cases, leb,
}
use bazo_miner.Ledger.Types.{Hash, Block}
use bazo_miner.Storage.{Storage, read_closed_block, read_closed_block_without_tx}
use bazo_miner.Chain.{
  Answer, Net, Run, done, closed_parent, blocks_to_rollback, is_same_block, walk_on, and_before,
  get_block_sequences, Sequences, sequences, refused, with_chain, compare_lengths, NewChain,
  not_longer, block_not_found, no_ancestor,
}
use bazo_miner.Chain.Links.{
  IsStored, IsChain, IsKeyed, Descends, closed_parent-IsStored, IsParent, IsLinked, last_of,
  IsReady, IsHonest, closed_parent-IsParent,
}
use bazo_miner.Chain.Search.{Connects, Anchored, search-Finds}

-- The blocks from `t` back to, and without, the ancestor, each the parent of the one before.
abbrev pub RollsBack : Block → List Block → Block → Type 0
RollsBack t [] a = is_same_block t a ≡ true
RollsBack t (b ∷ bs) a =
    (b ≡ t) × ((is_same_block t a ≡ false) × ((c : Block) × IsParent t c × RollsBack c bs a))

abbrev WalksBack : Block → Option (List Block) → Block → Type 0
WalksBack t none a = Unit
WalksBack t (some bs) a = RollsBack t bs a

-- The old blocks lead from the last block back to a block, the new ones from there to the block that
-- is validated, and there are more new ones than old ones.
abbrev pub IsSwitch : Block → Block → Sequences → Type 0
IsSwitch t new (refused e) = Unit
IsSwitch t new (sequences old []) = ⊥
IsSwitch t new (sequences old (c ∷ cs)) =
    (a : Block) × (RollsBack t old a
      × (IsParent c a × (IsLinked c cs × ((last_of c cs ≡ new) × (length old < length (c ∷ cs))))))

abbrev WalkEnds : Block → Block → Run (Option (List Block)) → Type 0
WalkEnds t a r = (o : Option (List Block)) × (r ≡ done o) × WalksBack t o a

step_back :
    (t a c : Block) (o : Option (List Block))
    → is_same_block t a ≡ false
    → IsParent t c
    → WalksBack c o a
    → WalkEnds t a (and_before t (done o))
step_back t a c none e p w = (none, refl, tt)
step_back t a c (some bs) e p w = (some (t ∷ bs), refl, (refl, (e, (c, p, w))))

walk_on-WalkEnds :
    (t a : Block) (o : Option Block) (next : Block → Run (Option (List Block)))
    → is_same_block t a ≡ false
    → ((c : Block) → o ≡ some c → IsParent t c × WalkEnds c a (next c))
    → WalkEnds t a (and_before t (walk_on o next))
walk_on-WalkEnds t a none next e k = (none, refl, tt)
walk_on-WalkEnds t a (some c) next e k =
    let (p, (o, q, w)) = k c refl in
    subst (λ r. WalkEnds t a (and_before t r)) (sym q) (step_back t a c o e p w)

-- Whether two closed blocks are the same shows in their heights, so the walk back from the last block
-- meets every closed block.
module _ (fetch : ℕ → Hash → Hash → Answer) (U : Block → Type 0) (last : Block)
    (descends : Descends U) (honest : (n : ℕ) (h k : Hash) → IsHonest U (fetch n h k) h) where
  stored-in :
      (t : Block) (s : Storage)
      → IsKeyed U s
      → IsStored t s.closed_blocks s.closed_blocks_without_tx
      → U t
  unfolding read_closed_block read_closed_block_without_tx
  stored-in t s (k, l) (h, inl e) = (k h t e).1
  stored-in t s (k, l) (h, inr e) = (l h t e).1

  lower :
      (t a c : Block)
      → a.height ≤ t.height
      → (t.height ≡ a.height → is_same_block t a ≡ true)
      → is_same_block t a ≡ false
      → (suc c.height ≡ t.height) ⊎ (t.height ≡ 0)
      → (a.height ≤ c.height) × (c.height < t.height)
  lower t a c le same other d = elim (Bool-cases (t.height == a.height)) [
    | inl e ↦ let yes = same (ground arith) in absurd (cc)
    | inr e ↦ ground arith
  ]

  blocks_to_rollback-WalkEnds :
      (fuel : ℕ) (t a : Block) (s : Storage)
      → t.height < fuel
      → a.height ≤ t.height
      → IsStored t s.closed_blocks s.closed_blocks_without_tx
      → IsStored a s.closed_blocks s.closed_blocks_without_tx
      → IsReady U (IsChain U last) s
      → WalkEnds t a (blocks_to_rollback fuel t a s)
  unfolding blocks_to_rollback
  blocks_to_rollback-WalkEnds zero t a s f le st sa r = absurd (omega arith)
  blocks_to_rollback-WalkEnds (suc fuel) t a s f le st sa (k, (o, (stash, chain))) =
      elim (Bool-cases (is_same_block t a)) [
        | inl e ↦ (some [], rw e refl, e)
        | inr e ↦ rw e (
            walk_on-WalkEnds t a (closed_parent t s) _ e (λ c q.
              let (p, v) = closed_parent-IsParent U t c s k q in
              let (le', lt) =
                lower t a c le (chain.single t a st sa) e (descends t c (stored-in t s k st) v p) in
              (
                p,
                blocks_to_rollback-WalkEnds fuel c a s (omega arith) le'
                    (closed_parent-IsStored t c s q) sa (k, (o, (stash, chain))),
              )))
      ]

  abbrev Decided : Block → Run Sequences → Type 0
  Decided new r = (q : Sequences) × (r ≡ done q) × IsSwitch last new q

  compared :
      (a new : Block) (o : Option (List Block)) (cs : List Block) (net : Net)
      → WalksBack last o a
      → Connects new (some (a, cs), net)
      → Decided new (compare_lengths (done o) cs)
  compared a new none cs net w p = (refused block_not_found, refl, tt)
  compared a new (some old) [] net w p = elim p [ ]
  compared a new (some old) (c ∷ cs) net w (p, (l, e)) =
      elim (Bool-cases (leb (length (c ∷ cs)) (length old))) [
        | inl q ↦ (refused not_longer, rw q refl, tt)
        | inr q ↦ (sequences old (c ∷ cs), rw q refl, (a, (w, (p, (l, (e, ground arith))))))
      ]

  with_chain-Decided :
      (fuel : ℕ) (new : Block) (p : NewChain fetch)
      → last.height < fuel
      → Connects new p
      → Anchored p
      → IsReady U (IsChain U last) p.1.storage
      → Decided new (with_chain fetch fuel (some last) (done p))
  with_chain-Decided fuel new (none, net) f c st r = (refused no_ancestor, refl, tt)
  with_chain-Decided fuel new (some (a, cs), net) f c st (k, (o, (stash, chain))) =
      let (old, e, w) =
        blocks_to_rollback-WalkEnds fuel last a net.storage f (chain.highest a st) chain.stored st
          (k, (o, (stash, chain))) in
      subst (λ x. Decided new (compare_lengths x cs)) (sym e) (compared a new old cs net w c)

  -- Blocks are taken from a set in which a block is one higher than its parent, unless its height is 0:
  -- the genesis block may be its own parent. The closed blocks are a chain that ends with the last
  -- block, are stored under their hashes and are in the set, with the stash and the answers of the
  -- network, which have the hash that was asked for; no block is in the open storage. For a new block of
  -- the set `getBlockSequences` ends within a number of rounds above its height and the last block's. It
  -- refuses the block, or the blocks to roll back lead from the last block back to an ancestor, those to
  -- validate from the ancestor to the new block, and they are more.
  pub get_block_sequences-IsSwitch :
      (fuel : ℕ) (b : Block) (net : Net)
      → last.height < fuel
      → b.height < fuel
      → U b
      → IsReady U (IsChain U last) net.storage
      → (q : Sequences) × (get_block_sequences fetch fuel (some last) b net ≡ done q)
        × IsSwitch last b q
  unfolding get_block_sequences
  get_block_sequences-IsSwitch fuel b net f g v r =
      let (p, e, (c, (st, r'))) =
        search-Finds fetch U (IsChain U last) descends (λ x cs es chain. chain.rooted x) honest fuel
          b b [] net g v r tt refl in
      subst (λ x. Decided b (with_chain fetch fuel (some last) x)) (sym e)
        (with_chain-Decided fuel b p f c st r')
