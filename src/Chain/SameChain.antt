-- ===== src/Chain/SameChain.antt =====
-- What the answers of `IsInSameChain` rest on, and where it reads a nil pointer.
use bazo_miner.Prelude.{
  ℕ, zero, suc, ◌<◌, ◌≡◌, refl, Bool, true, false, Option, none, some, [], arith, ◌⊎◌, inl, inr,
  Bool-cases, ltb, ◌==◌,
}
use bazo_miner.Prelude.Assoc.{Assoc}
use bazo_miner.Ledger.Types.{Hash, Block}
use bazo_miner.Chain.{
  Answer, timed_out, Net, Run, done, hang, panic, closed_parent, find_in_stash, climb, climb_on,
  parent_or_request, request, is_in_same_chain,
}
use bazo_miner.Chain.Links.{
  Descends, IsParent, IsReady, IsHonest, IsFound, closed_parent-IsParent, after_wait-IsFound,
}

-- A block is reached from another one through parents.
pub data Ancestry : Block → Block → Type 0 where
  parent : {b c : Block} → IsParent b c → Ancestry b c
  beyond : {b c d : Block} → IsParent b c → Ancestry c d → Ancestry b d

abbrev pub HasAncestor : Block → Hash → Type 0
HasAncestor b h = (c : Block) × Ancestry b c × (c.hash ≡ h)

abbrev pub HasAnswer : Type 0 → Run (Bool × Net) → Type 0
HasAnswer P (done (true, net)) = P
HasAnswer P (done (false, net)) = Unit
HasAnswer P panic = Unit
HasAnswer P hang = ⊥

HasAnswer-map : (P Q : Type 0) (r : Run (Bool × Net)) → (P → Q) → HasAnswer P r → HasAnswer Q r
HasAnswer-map P Q (done (true, net)) f h = f h
HasAnswer-map P Q (done (false, net)) f h = tt
HasAnswer-map P Q panic f h = tt
HasAnswer-map P Q hang f h = h

further : (b c : Block) (h : Hash) → IsParent b c → HasAncestor c h → HasAncestor b h
further b c h p (d, a, e) = (d, beyond p a, e)

module _ (fetch : ℕ → Hash → Hash → Answer) (U : Block → Type 0)
    (P : (closed emptied : Assoc Block) → Type 0) (descends : Descends U)
    (honest : (n : ℕ) (h k : Hash) → IsHonest U (fetch n h k) h) where
  abbrev IsNext : Block → Option Block × Net → Type 0
  IsNext b (none, net) = Unit
  IsNext b (some c, net) = (IsParent b c × U c) × IsReady U P net.storage

  found-IsNext : (b : Block) (p : Option Block × Net) → IsFound U P b.prev_hash p → IsNext b p
  found-IsNext b (none, net) r = tt
  found-IsNext b (some c, net) ((u, e), r) = ((inl e, u), r)

  parent_or_request-IsNext :
      (o : Option Block) (b : Block) (net : Net)
      → ((c : Block) → o ≡ some c → IsParent b c × U c)
      → IsReady U P net.storage
      → IsNext b (parent_or_request fetch o b net)
  parent_or_request-IsNext (some c) b net f r = (f c refl, r)
  parent_or_request-IsNext none b net f r = found-IsNext b (request fetch b net) (
      after_wait-IsFound U P (fetch net.requests b.prev_hash b.prev_hash_without_tx) b.prev_hash net
        (honest net.requests b.prev_hash b.prev_hash_without_tx) r)

  climb_on-HasAnswer :
      (p : Option Block × Net) (high low : Block) (next : Block → Net → Run (Bool × Net))
      → IsNext high p
      → ((c : Block) (net : Net)
          → IsParent high c
          → U c
          → IsReady U P net.storage
          → HasAnswer (HasAncestor c low.hash) (next c net))
      → HasAnswer (HasAncestor high low.hash) (climb_on fetch p low next)
  climb_on-HasAnswer (none, net) high low next h k = tt
  climb_on-HasAnswer (some c, net) high low next ((p, u), r) k =
      elim (Bool-cases (c.hash == low.hash)) [
        | inl e ↦ rw e (c, parent p, ground arith)
        | inr e ↦ rw e (
            HasAnswer-map (HasAncestor c low.hash) (HasAncestor high low.hash) (next c net)
              (further high c low.hash p) (k c net p u r))
      ]

  climb-HasAnswer :
      (fuel : ℕ) (high low : Block) (net : Net)
      → high.height < fuel
      → U high
      → IsReady U P net.storage
      → HasAnswer (HasAncestor high low.hash) (climb fetch fuel high low net)
  unfolding climb
  climb-HasAnswer zero high low net f u r = absurd (omega arith)
  climb-HasAnswer (suc fuel) high low net f u (k, r) = elim (Bool-cases (high.height == 0)) [
    | inl e ↦ rw e tt
    | inr e ↦ rw e (
        climb_on-HasAnswer (parent_or_request fetch (closed_parent high net.storage) high net) high
          low _
          (parent_or_request-IsNext (closed_parent high net.storage) high net
            (λ c q. closed_parent-IsParent U high c net.storage k q) (k, r))
          (λ c net' p v r'.
            let lower = descends high c u v p in
            climb-HasAnswer fuel c low net' (ground arith) v r'))
  ]

  -- For two blocks of a set, and a storage and a network with blocks of the set, as in
  -- `get_block_sequences-IsSwitch` but whatever else holds of the closed blocks, `IsInSameChain` leaves its loop within a number of rounds above both heights. When it says yes,
  -- a block with the hash of one of the two is reached through parents from the other.
  pub is_in_same_chain-HasAnswer :
      (fuel : ℕ) (b1 b2 : Block) (net : Net)
      → b1.height < fuel
      → b2.height < fuel
      → U b1
      → U b2
      → IsReady U P net.storage
      → HasAnswer
          (HasAncestor b1 b2.hash ⊎ HasAncestor b2 b1.hash)
          (is_in_same_chain fetch fuel b1 b2 net)
  unfolding is_in_same_chain
  is_in_same_chain-HasAnswer fuel b1 b2 net f g u v r = elim (Bool-cases (b1.height == b2.height)) [
    | inl e ↦ rw e tt
    | inr e ↦ elim (Bool-cases (ltb b2.height b1.height)) [
      | inl l ↦
          rw (e, l)
            (HasAnswer-map (HasAncestor b1 b2.hash)
              (HasAncestor b1 b2.hash ⊎ HasAncestor b2 b1.hash) (climb fetch fuel b1 b2 net) inl
              (climb-HasAnswer fuel b1 b2 net f u r))
      | inr l ↦
          rw (e, l)
            (HasAnswer-map (HasAncestor b2 b1.hash)
              (HasAncestor b1 b2.hash ⊎ HasAncestor b2 b1.hash) (climb fetch fuel b2 b1 net) inr
              (climb-HasAnswer fuel b2 b1 net g v r))
    ]
  ]

-- When the higher block's parent is neither closed nor in the stash, and the request for it times out
-- with nothing new in the stash, a nil pointer is read.
is_in_same_chain-panic :
    (fetch : ℕ → Hash → Hash → Answer) (fuel : ℕ) (b1 b2 : Block) (net : Net)
    → b2.height < b1.height
    → closed_parent b1 net.storage ≡ none
    → find_in_stash net.storage.received_block_stash b1.prev_hash ≡ none
    → fetch net.requests b1.prev_hash b1.prev_hash_without_tx ≡ timed_out []
    → is_in_same_chain fetch (suc fuel) b1 b2 net ≡ panic
unfolding is_in_same_chain climb
is_in_same_chain-panic fetch fuel b1 b2 net h p q e =
    let differ : (b1.height == b2.height) ≡ false = ground arith in
    let higher : ltb b2.height b1.height ≡ true = ground arith in
    let above : (b1.height == 0) ≡ false = ground arith in rw (differ, higher, above, p, e, q)
