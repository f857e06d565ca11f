-- ===== src/Chain/Tests.antt =====
-- The theorems of the chain at a storage with the genesis block and three more, and a network that sends what is asked for.
use bazo_miner.Prelude.{
  ℕ, sym, ap, ◌∙◌, ◌≤◌, zero, suc, ◌+◌, ◌≡◌, refl, some, List, [], ◌∷◌, arith, ◌⊎◌, inl, inr,
  Bool-cases, ◌==◌, subst,
}
use mathlib.Core.Option.{some-injective}
use bazo_miner.Prelude.Assoc.{lookup}
use bazo_miner.Ledger.Types.{Hash, Block, new_block}
use bazo_miner.Storage.{Storage, read_closed_block, read_closed_block_without_tx, read_open_block}
use bazo_miner.Chain.{
  Answer, received, timed_out, Net, done, get_block_sequences, Sequences, is_in_same_chain,
}
use bazo_miner.Chain.Links.{IsParent, IsReady, IsHonest, IsChain, IsStored, Descends}
use bazo_miner.Chain.Rollback.{IsSwitch, get_block_sequences-IsSwitch}
use bazo_miner.Chain.SameChain.{HasAncestor, HasAnswer, is_in_same_chain-HasAnswer}

abbrev genesis : Block
genesis = new_block 0 0

-- The block of height n + 1.
abbrev numbered : ℕ → Block
numbered n = record (new_block n (suc n)) {
  hash = suc n;
  hash_without_tx = 1001 + n;
  prev_hash_without_tx = 1000 + n;
  beneficiary = 6;
}

-- A chain in which the hashes are the heights.
abbrev IsNumbered : Block → Type 0
IsNumbered b =
    (b.height ≡ b.hash)
    × ((b.hash ≡ suc b.prev_hash)
        × ((b.hash_without_tx ≡ 1000 + b.hash) × (b.prev_hash_without_tx ≡ 1000 + b.prev_hash)))

-- The genesis block, whose hashes are all zero and which is its own parent, and those above it.
abbrev IsOurs : Block → Type 0
IsOurs b = (b ≡ genesis) ⊎ IsNumbered b

abbrev send : ℕ → Hash → Hash → Answer
send n zero k = timed_out []
send n (suc h) k = received (numbered h)

abbrev no_reply : ℕ → Hash → Hash → Answer
no_reply n h k = timed_out []

abbrev storage_of : List (ℕ × Block) → List (ℕ × Block) → Storage
storage_of closed open_ones = record {
  open_blocks = open_ones;
  closed_blocks = closed;
  closed_blocks_without_tx = [];
  last_closed_block = closed;
  received_block_stash = [];
  tx_mem_pool = [];
  tx_invalid_mem_pool = [];
  txcnt_to_tx_map = [];
  closed_funds = [];
  closed_accs = [];
  closed_deletes = [];
  closed_configs = [];
  closed_stakes = [];
  closed_aggregations = [];
  blocks_by_tx_hash = [];
  funds_tx_before_aggregation = [];
  bootstrap_received = [];
}

abbrev net_of : List (ℕ × Block) → List (ℕ × Block) → Net
net_of closed open_ones = record { requests = 0; storage = storage_of closed open_ones }

abbrev block_at : ℕ → Block
block_at zero = genesis
block_at (suc n) = numbered n

abbrev three_closed : List (ℕ × Block)
three_closed = (3, block_at 3) ∷ (2, block_at 2) ∷ (1, block_at 1) ∷ (0, block_at 0) ∷ []

genesis-IsParent : IsParent genesis genesis
genesis-IsParent = inl refl

descends : Descends IsOurs
descends b c (inl u) v p = inr (ap (λ (x : Block). x.height) u)
descends b c (inr (x, (y, (z, w)))) (inl v) (inl e) =
    let h : c.height ≡ 0 = ap (λ (x : Block). x.height) v in
    let k : c.hash ≡ 0 = ap (λ (x : Block). x.hash) v in inl (omega arith)
descends b c (inr (x, (y, (z, w)))) (inl v) (inr e) =
    let k : c.hash_without_tx ≡ 0 = ap (λ (x : Block). x.hash_without_tx) v in absurd (omega arith)
descends b c (inr (x, (y, (z, w)))) (inr (p, (q, (r, s)))) (inl e) = inl (omega arith)
descends b c (inr (x, (y, (z, w)))) (inr (p, (q, (r, s)))) (inr e) = inl (omega arith)

honest : (n : ℕ) (h k : Hash) → IsHonest IsOurs (send n h k) h
honest n zero k = tt
honest n (suc h) k = (inr (refl, (refl, (omega arith, omega arith))), refl)

numbered-IsNumbered : (n : ℕ) → IsNumbered (numbered n)
numbered-IsNumbered n = (refl, (refl, (omega arith, refl)))

block_at-IsOurs : (n : ℕ) → IsOurs (block_at n)
block_at-IsOurs zero = inl refl
block_at-IsOurs (suc n) = inr (numbered-IsNumbered n)

-- Every block of the list stands at its height.
abbrev AllAt : List (ℕ × Block) → Type 0
AllAt [] = Unit
AllAt ((k, b) ∷ s) = (b ≡ block_at k) × ((k ≤ 3) × AllAt s)

lookup-AllAt :
    (s : List (ℕ × Block)) (h : Hash) (b : Block)
    → AllAt s
    → lookup h s ≡ some b
    → (b ≡ block_at h) × (h ≤ 3)
unfolding lookup
lookup-AllAt [] h b a e = absurd (cc)
lookup-AllAt ((k, c) ∷ s) h b (q, (le, a)) e = elim (Bool-cases (h == k)) [
  | inl z ↦
      let same : c ≡ b = some-injective c b (rw z at e) in
      let key : h ≡ k = ground arith in (sym same ∙ q ∙ ap block_at (sym key), omega arith)
  | inr z ↦ lookup-AllAt s h b a (rw z at e)
]

three_closed-AllAt : AllAt three_closed
three_closed-AllAt =
    (refl, (omega arith, (refl, (omega arith, (refl, (omega arith, (refl, (omega arith, tt))))))))

block_at-numbered : (n : ℕ) → ((block_at n).hash ≡ n) × ((block_at n).height ≡ n)
block_at-numbered zero = (refl, refl)
block_at-numbered (suc n) = (refl, refl)

stored-at : (b : Block) → IsStored b three_closed [] → (b.hash ≡ b.height) × (b.height ≤ 3)
unfolding lookup
stored-at b (h, inl e) =
    let (q, le) = lookup-AllAt three_closed h b three_closed-AllAt e in
    let (x, y) = block_at-numbered h in
    let x' : b.hash ≡ h = ap (λ (c : Block). c.hash) q ∙ x in
    let y' : b.height ≡ h = ap (λ (c : Block). c.height) q ∙ y in (omega arith, omega arith)
stored-at b (h, inr e) = absurd (cc)

chain : IsChain IsOurs (block_at 3) three_closed []
unfolding lookup
chain = record {
  stored = (3, inl refl);
  highest = λ b st. (stored-at b st).1;
  single =
      λ b c sb sc e. let (x, _) = stored-at b sb in let (y, _) = stored-at c sc in ground arith;
  rooted = λ b u z. root b u z;
}
  where
    root :
        (b : Block)
        → IsOurs b
        → b.height ≡ 0
        → (a : Block) × (lookup b.prev_hash three_closed ≡ some a)
    root b (inl u) z =
        let p : b.prev_hash ≡ 0 = ap (λ (x : Block). x.prev_hash) u in (genesis, rw p refl)
    root b (inr (x, (y, w))) z = absurd (omega arith)

ready : IsReady IsOurs (IsChain IsOurs (block_at 3)) (storage_of three_closed [])
unfolding read_closed_block read_closed_block_without_tx read_open_block lookup
ready = (
  (
    λ h b e.
        let (q, le) = lookup-AllAt three_closed h b three_closed-AllAt e in
        (
          ap (λ (c : Block). c.hash) q ∙ (block_at-numbered h).0,
          subst IsOurs (sym q) (block_at-IsOurs h),
        ),
    λ h b e. absurd (cc),
  ),
  (λ h. refl, (tt, chain)),
)

get_block_sequences-IsSwitch_example :
    (q : Sequences) × (get_block_sequences send 8
        (some (block_at 3))
        (numbered 6)
        (net_of three_closed [])
      ≡ done q)
    × IsSwitch (block_at 3) (numbered 6) q
get_block_sequences-IsSwitch_example =
    get_block_sequences-IsSwitch send IsOurs (block_at 3) descends honest 8 (numbered 6)
      (net_of three_closed []) (omega arith) (omega arith) (inr (numbered-IsNumbered 6)) ready

is_in_same_chain-HasAnswer_example :
    HasAnswer
      (HasAncestor (numbered 6) 3 ⊎ HasAncestor (numbered 2) 7)
      (is_in_same_chain send 8 (numbered 6) (numbered 2) (net_of three_closed []))
is_in_same_chain-HasAnswer_example =
    is_in_same_chain-HasAnswer send IsOurs (IsChain IsOurs (block_at 3)) descends honest 8
      (numbered 6) (numbered 2) (net_of three_closed []) (omega arith) (omega arith)
      (inr (numbered-IsNumbered 6)) (inr (numbered-IsNumbered 2)) ready
