-- ===== src/Chain/Search.antt =====
-- The search for the ancestor: it ends, and its blocks are linked.
use bazo_miner.Prelude.{
  ℕ, zero, suc, ◌<◌, ◌≡◌, refl, Option, none, some, List, [], ◌∷◌, ◌++◌, reverse, arith, sym, subst,
  inl, inr, Bool-cases, ◌==◌,
}
use mathlib.Core.List.{reverse-append}
use bazo_miner.Prelude.Assoc.{Assoc, lookup}
use bazo_miner.Ledger.Types.{Hash, Block}
use bazo_miner.Storage.{read_open_block, read_closed_block}
use bazo_miner.Chain.{
  Answer, Net, Run, done, Move, ancestor, again, give_up, closed_parent, find_in_stash, search_step,
  search_closed, search_open, search_stash, go_on, get_new_chain, NewChain, invert_block_array,
  request, move_to,
}
use bazo_miner.Chain.Links.{
  IsParent, IsStored, Descends, closed_parent-IsStored, IsLinked, last_of, IsReady, IsHonest,
  IsFound, closed_parent-IsParent, find_in_stash-AllIn, after_wait-IsFound,
}

-- What the search returns for a block: no ancestor, or an ancestor with the blocks after it, linked,
-- and the block at the end.
abbrev pub Connects : Block → Option (Block × List Block) × Net → Type 0
Connects new (none, net) = Unit
Connects new (some (a, []), net) = ⊥
Connects new (some (a, c ∷ cs), net) = IsParent c a × (IsLinked c cs × (last_of c cs ≡ new))

-- The ancestor is closed.
abbrev pub Anchored : Option (Block × List Block) × Net → Type 0
Anchored (none, net) = Unit
Anchored (some (a, bs), net) =
    IsStored a net.storage.closed_blocks net.storage.closed_blocks_without_tx

module _ (fetch : ℕ → Hash → Hash → Answer) (U : Block → Type 0)
    (P : (closed emptied : Assoc Block) → Type 0) where
  abbrev Moves : Block → Net → Move → Type 0
  Moves b net₀ (ancestor a) =
      IsParent b a × IsStored a net₀.storage.closed_blocks net₀.storage.closed_blocks_without_tx
  Moves b net₀ (again c net) = (U c × (c.hash ≡ b.prev_hash)) × IsReady U P net.storage
  Moves b net₀ (give_up net) = IsReady U P net.storage

  move_to-Moves :
      (b : Block) (net₀ : Net) (p : Option Block × Net)
      → IsFound U P b.prev_hash p
      → Moves b net₀ (move_to p)
  move_to-Moves b net₀ (none, net) h = h
  move_to-Moves b net₀ (some c, net) h = h

  search_stash-Moves :
      (o : Option Block) (b : Block) (net : Net)
      → ((c : Block) → o ≡ some c → U c × (c.hash ≡ b.prev_hash))
      → IsReady U P net.storage
      → ((n : ℕ) (k : Hash) → IsHonest U (fetch n b.prev_hash k) b.prev_hash)
      → Moves b net (search_stash fetch o b net)
  search_stash-Moves (some c) b net f r honest = (f c refl, r)
  search_stash-Moves none b net f r honest = move_to-Moves b net (request fetch b net) (
      after_wait-IsFound U P (fetch net.requests b.prev_hash b.prev_hash_without_tx) b.prev_hash net
        (honest net.requests b.prev_hash_without_tx) r)

  search_open-Moves :
      (o : Option Block) (b : Block) (net : Net)
      → o ≡ none
      → IsReady U P net.storage
      → ((n : ℕ) (k : Hash) → IsHonest U (fetch n b.prev_hash k) b.prev_hash)
      → Moves b net (search_open fetch o b net)
  search_open-Moves (some c) b net e r honest = let bad : ⊥ = cc in absurd bad
  search_open-Moves none b net e (k, (o, (a, p))) honest =
      search_stash-Moves (find_in_stash net.storage.received_block_stash b.prev_hash) b net
        (λ c q. find_in_stash-AllIn U net.storage.received_block_stash b.prev_hash c a q)
        (k, (o, (a, p))) honest

  search_closed-Moves :
      (o : Option Block) (b : Block) (net : Net)
      → ((c : Block)
          → o ≡ some c
          → IsParent b c
            × IsStored c net.storage.closed_blocks net.storage.closed_blocks_without_tx)
      → IsReady U P net.storage
      → ((n : ℕ) (k : Hash) → IsHonest U (fetch n b.prev_hash k) b.prev_hash)
      → Moves b net (search_closed fetch o b net)
  search_closed-Moves (some c) b net f r honest = f c refl
  search_closed-Moves none b net f (k, (o, a)) honest =
      search_open-Moves (read_open_block b.prev_hash net.storage) b net (o b.prev_hash) (k, (o, a))
        honest

  search_step-Moves :
      (b : Block) (net : Net)
      → IsReady U P net.storage
      → ((n : ℕ) (k : Hash) → IsHonest U (fetch n b.prev_hash k) b.prev_hash)
      → Moves b net (search_step fetch b net)
  unfolding search_step
  search_step-Moves b net (k, r) honest =
      search_closed-Moves (closed_parent b net.storage) b net
        (λ c e. (
          (closed_parent-IsParent U b c net.storage k e).0,
          closed_parent-IsStored b c net.storage e,
        ))
        (k, r) honest

  abbrev pub Finds : Block → Run (NewChain fetch) → Type 0
  Finds new r =
      (p : NewChain fetch) × (r ≡ done p)
      × (Connects new p × (Anchored p × IsReady U P p.1.storage))

  connects :
      (a b new : Block) (chain : List Block) (net : Net)
      → IsParent b a
      → IsLinked b (reverse chain)
      → last_of b (reverse chain) ≡ new
      → Connects new (some (a, invert_block_array (chain ++ b ∷ [])), net)
  connects a b new chain net p l e =
      subst (λ bs. Connects new (some (a, bs), net)) (sym (reverse-append chain (b ∷ [])))
        (p, (l, e))

  go_on-Finds :
      (m : Move) (b new : Block) (chain : List Block) (net : Net)
      (next : Block → Net → Run (NewChain fetch))
      → Moves b net m
      → IsReady U P net.storage
      → IsLinked b (reverse chain)
      → last_of b (reverse chain) ≡ new
      → ((c : Block) (net' : Net)
          → U c
          → c.hash ≡ b.prev_hash
          → IsReady U P net'.storage
          → Finds new (next c net'))
      → Finds new (go_on fetch m (chain ++ b ∷ []) net next)
  go_on-Finds (ancestor a) b new chain net next (p, st) r l e k = (
    (some (a, invert_block_array (chain ++ b ∷ [])), net),
    refl,
    (connects a b new chain net p l e, (st, r)),
  )
  go_on-Finds (again c net') b new chain net next ((u, q), r) r₀ l e k = k c net' u q r
  go_on-Finds (give_up net') b new chain net next p r l e k = ((none, net'), refl, (tt, (tt, p)))

  module _ (descends : Descends U)
      (rooted : (b : Block) (closed emptied : Assoc Block)
        → P closed emptied
        → U b
        → b.height ≡ 0
        → (a : Block) × (lookup b.prev_hash closed ≡ some a))
      (honest : (n : ℕ) (h k : Hash) → IsHonest U (fetch n h k) h) where
    -- The search from a block of height 0 is over at once.
    root-closed :
        (b : Block) (net : Net)
        → U b
        → IsReady U P net.storage
        → b.height ≡ 0
        → (a : Block) × (search_step fetch b net ≡ ancestor a)
    unfolding search_step closed_parent read_closed_block
    root-closed b net u (k, (o, (s, p))) z = let (a, e) = rooted b _ _ p u z in (a, rw e refl)

    pub search-Finds :
        (fuel : ℕ) (b new : Block) (chain : List Block) (net : Net)
        → b.height < fuel
        → U b
        → IsReady U P net.storage
        → IsLinked b (reverse chain)
        → last_of b (reverse chain) ≡ new
        → Finds new (get_new_chain fetch fuel b chain net)
    unfolding get_new_chain
    search-Finds zero b new chain net f u r l e = absurd (omega arith)
    search-Finds (suc fuel) b new chain net f u r l e =
        let moves = search_step-Moves b net r (λ n k. honest n b.prev_hash k) in
        elim (Bool-cases (b.height == 0)) [
          | inl z ↦
              let (a, q) = root-closed b net u r (ground arith) in
              let (p, st) = rw q at moves in
              rw q (
                (some (a, invert_block_array (chain ++ b ∷ [])), net),
                refl,
                (connects a b new chain net p l e, (st, r)),
              )
          | inr z ↦
              go_on-Finds (search_step fetch b net) b new chain net _ moves r l e (λ c net' v q r'.
                let lower = descends b c u v (inl q) in
                let turned = reverse-append chain (b ∷ []) in
                search-Finds fuel c new (chain ++ b ∷ []) net' (ground arith) v r'
                  (subst (IsLinked c) (sym turned) (inl q, l))
                  (subst (λ bs. last_of c bs ≡ new) (sym turned) e))
        ]
