-- ===== src/Chain/Links.antt =====
-- Blocks, their parents, and what a storage and a network must be for the search to end.
use bazo_miner.Prelude.{
  suc, ◌≤◌, ◌≡◌, refl, true, Option, none, some, List, [], ◌∷◌, ◌++◌, length, arith, ltb, ◌==◌,
  Bool-cases, ◌⊎◌, inl, inr, subst,
}
use mathlib.Core.Option.{some-injective}
use bazo_miner.Prelude.Assoc.{Assoc, lookup}
use bazo_miner.Ledger.Types.{Hash, Block}
use bazo_miner.Storage.{
  Storage, read_closed_block, read_closed_block_without_tx, read_open_block,
  write_to_received_stash, trim_stash, block_already_in_stash,
}
use bazo_miner.Chain.{
  Answer, received, timed_out, Net, or_else, closed_parent, find_in_stash, write_all, after_wait,
  is_same_block,
}

-- One of the two hashes of `c` is the one that `b` gives for the block before it.
abbrev pub IsParent : Block → Block → Type 0
IsParent b c = (c.hash ≡ b.prev_hash) ⊎ (c.hash_without_tx ≡ b.prev_hash_without_tx)

-- Each block of a list is the parent of the next one; the first stands apart.
abbrev pub IsLinked : Block → List Block → Type 0
IsLinked a [] = Unit
IsLinked a (b ∷ bs) = IsParent b a × IsLinked b bs

abbrev pub last_of : Block → List Block → Block
last_of a [] = a
last_of a (b ∷ bs) = last_of b bs

or_else-cases :
    (o p : Option Block) (c : Block) → or_else o p ≡ some c → (o ≡ some c) ⊎ (p ≡ some c)
or_else-cases none p c h = inr h
or_else-cases (some b) p c h = inl h

-- A block of one of the two buckets of closed blocks.
abbrev pub IsStored : Block → (closed emptied : Assoc Block) → Type 0
IsStored b closed emptied = (h : Hash) × ((lookup h closed ≡ some b) ⊎ (lookup h emptied ≡ some b))

pub closed_parent-IsStored :
    (b c : Block) (s : Storage)
    → closed_parent b s ≡ some c
    → IsStored c s.closed_blocks s.closed_blocks_without_tx
unfolding closed_parent read_closed_block read_closed_block_without_tx
closed_parent-IsStored b c s h =
    elim (or_else-cases (read_closed_block b.prev_hash s)
      (read_closed_block_without_tx b.prev_hash_without_tx s) c h) [
        | inl e ↦ (b.prev_hash, inl e)
        | inr e ↦ (b.prev_hash_without_tx, inr e)
      ]

-- The closed blocks are a chain that ends with the last block: no other one is higher, and two of one
-- height are the same. The block before one of height 0 is closed: the genesis block is its own.
pub record IsChain (U : Block → Type 0) (last : Block) (closed emptied : Assoc Block) : Type 0 where
  pub stored : IsStored last closed emptied
  pub highest : (b : Block) → IsStored b closed emptied → b.height ≤ last.height
  pub single :
      (b c : Block)
      → IsStored b closed emptied
      → IsStored c closed emptied
      → b.height ≡ c.height
      → is_same_block b c ≡ true
  pub rooted : (b : Block) → U b → b.height ≡ 0 → (a : Block) × (lookup b.prev_hash closed ≡ some a)

-- A block is one higher than its parent, unless it is a block of height 0.
abbrev pub Descends : (U : Block → Type 0) → Type 0
Descends U = (b c : Block) → U b → U c → IsParent b c → (suc c.height ≡ b.height) ⊎ (b.height ≡ 0)

-- A set of blocks that the stash and the network stay in.
module _ (U : Block → Type 0) where
  abbrev pub AllIn : List Block → Type 0
  AllIn [] = Unit
  AllIn (b ∷ bs) = U b × AllIn bs

  -- A closed block is stored under its hash, one without transactions under its other hash, and all
  -- are in the set.
  abbrev pub IsKeyed : Storage → Type 0
  IsKeyed s =
      ((h : Hash) (b : Block) → read_closed_block h s ≡ some b → (b.hash ≡ h) × U b)
      × ((h : Hash) (b : Block)
          → read_closed_block_without_tx h s ≡ some b
          → (b.hash_without_tx ≡ h) × U b)

  pub closed_parent-IsParent :
      (b c : Block) (s : Storage) → IsKeyed s → closed_parent b s ≡ some c → IsParent b c × U c
  unfolding closed_parent
  closed_parent-IsParent b c s (k, l) h =
      elim (or_else-cases (read_closed_block b.prev_hash s)
        (read_closed_block_without_tx b.prev_hash_without_tx s) c h) [
          | inl e ↦ let (q, u) = k b.prev_hash c e in (inl q, u)
          | inr e ↦ let (q, u) = l b.prev_hash_without_tx c e in (inr q, u)
        ]

  pub find_in_stash-AllIn :
      (bs : List Block) (h : Hash) (c : Block)
      → AllIn bs
      → find_in_stash bs h ≡ some c
      → U c × (c.hash ≡ h)
  find_in_stash-AllIn [] h c a e = let bad : ⊥ = cc in absurd bad
  find_in_stash-AllIn (b ∷ bs) h c (u, us) e = elim (Bool-cases (b.hash == h)) [
    | inl q ↦
        let same : b ≡ c = some-injective b c (rw q at e) in
        let key : b.hash ≡ h = ground arith in subst (λ x. U x × (x.hash ≡ h)) same (u, key)
    | inr q ↦ find_in_stash-AllIn bs h c us (rw q at e)
  ]

  append-AllIn : (bs : List Block) (c : Block) → AllIn bs → U c → AllIn (bs ++ c ∷ [])
  append-AllIn [] c h u = (u, tt)
  append-AllIn (b ∷ bs) c (h, hs) u = (h, append-AllIn bs c hs u)

  trim_stash-AllIn : (bs : List Block) → AllIn bs → AllIn (trim_stash bs)
  trim_stash-AllIn [] h = h
  trim_stash-AllIn (b ∷ bs) (h, hs) = elim (Bool-cases (ltb 100 (length (b ∷ bs)))) [
    | inl e ↦ rw e hs
    | inr e ↦ rw e (h, hs)
  ]

  -- An answer brings blocks of the set, and the one that was asked for.
  abbrev pub IsHonest : Answer → Hash → Type 0
  IsHonest (received c) h = U c × (c.hash ≡ h)
  IsHonest (timed_out cs) h = AllIn cs

  module _ (P : (closed emptied : Assoc Block) → Type 0) where
    -- No block is open, the stash stays in the set, and `P` holds of the two buckets of closed blocks.
    abbrev pub IsReady : Storage → Type 0
    IsReady s =
        IsKeyed s
        × (((h : Hash) → read_open_block h s ≡ none)
            × (AllIn s.received_block_stash × P s.closed_blocks s.closed_blocks_without_tx))

    pub write_to_received_stash-IsReady :
        (c : Block) (s : Storage) → U c → IsReady s → IsReady (write_to_received_stash c s)
    unfolding write_to_received_stash read_closed_block read_closed_block_without_tx read_open_block
    write_to_received_stash-IsReady c s u (k, (o, (a, p))) =
        elim (Bool-cases (block_already_in_stash s.received_block_stash c.hash)) [
          | inl e ↦ rw e (k, (o, (a, p)))
          | inr e ↦ rw e (
            k,
            (
              o,
              (
                trim_stash-AllIn (s.received_block_stash ++ c ∷ [])
                    (append-AllIn s.received_block_stash c a u),
                p,
              ),
            ),
          )
        ]

    write_all-IsReady :
        (cs : List Block) (s : Storage) → AllIn cs → IsReady s → IsReady (write_all cs s)
    write_all-IsReady [] s u r = r
    write_all-IsReady (c ∷ cs) s (u, us) r =
        write_all-IsReady cs (write_to_received_stash c s) us
          (write_to_received_stash-IsReady c s u r)

    abbrev pub IsFound : Hash → Option Block × Net → Type 0
    IsFound h (none, net) = IsReady net.storage
    IsFound h (some c, net) = (U c × (c.hash ≡ h)) × IsReady net.storage

    IsFound-or_none :
        (o : Option Block) (h : Hash) (net : Net)
        → ((c : Block) → o ≡ some c → U c × (c.hash ≡ h))
        → IsReady net.storage
        → IsFound h (o, net)
    IsFound-or_none none h net f r = r
    IsFound-or_none (some c) h net f r = (f c refl, r)

    pub after_wait-IsFound :
        (answer : Answer) (h : Hash) (net : Net)
        → IsHonest answer h
        → IsReady net.storage
        → IsFound h (after_wait answer h net)
    after_wait-IsFound (received c) h net (u, e) r =
        ((u, e), write_to_received_stash-IsReady c net.storage u r)
    after_wait-IsFound (timed_out cs) h net u r =
        let s = write_all cs net.storage in
        let (k, (o, (a, p))) = write_all-IsReady cs net.storage u r in
        IsFound-or_none (find_in_stash s.received_block_stash h) h
          (record { requests = suc net.requests; storage = s })
          (λ c e. find_in_stash-AllIn s.received_block_stash h c a e) (k, (o, (a, p)))
