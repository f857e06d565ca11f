-- ===== src/Storage/Stash.antt =====
-- The stash of received blocks: bounded, and no block twice.
use bazo_miner.Prelude.{
  ◌≤◌, ◌≡◌, refl, true, false, ◌||◌, List, [], ◌∷◌, ◌++◌, length, arith, ltb, ◌==◌, Bool-cases, inl,
  inr, length-append, ==_refl, ◌∙◌,
}
use bazo_miner.Ledger.Types.{Hash, Block}
use bazo_miner.Storage.{Storage, block_already_in_stash, trim_stash, write_to_received_stash}

abbrev pub AllDistinct : List Block → Type 0
AllDistinct [] = Unit
AllDistinct (b ∷ bs) = (block_already_in_stash bs b.hash ≡ false) × AllDistinct bs

-- At most 100 blocks, with different hashes.
abbrev pub IsStash : List Block → Type 0
IsStash bs = (length bs ≤ 100) × AllDistinct bs

in_append :
    (bs cs : List Block) (h : Hash)
    → block_already_in_stash (bs ++ cs) h
      ≡ (block_already_in_stash bs h || block_already_in_stash cs h)
in_append [] cs h = refl
in_append (b ∷ bs) cs h = ground (arith, in_append bs cs h)

append-AllDistinct :
    (bs : List Block) (b : Block)
    → AllDistinct bs
    → block_already_in_stash bs b.hash ≡ false
    → AllDistinct (bs ++ b ∷ [])
append-AllDistinct [] b h n = (refl, tt)
append-AllDistinct (c ∷ bs) b (h, hs) n =
    let other : (c.hash == b.hash) ≡ false = ground arith in
    let swapped : (b.hash == c.hash) ≡ false = ground arith in
    let rest : block_already_in_stash bs b.hash ≡ false = ground arith in
    (in_append bs (b ∷ []) c.hash ∙ rw (h, swapped), append-AllDistinct bs b hs rest)

trim_stash-IsStash : (bs : List Block) → length bs ≤ 101 → AllDistinct bs → IsStash (trim_stash bs)
trim_stash-IsStash [] n h = (omega arith, tt)
trim_stash-IsStash (b ∷ bs) n (h, hs) = elim (Bool-cases (ltb 100 (length (b ∷ bs)))) [
  | inl e ↦ rw e (omega arith, hs)
  | inr e ↦ rw e (ground arith, (h, hs))
]

trim_stash-found :
    (bs : List Block) (b : Block) → block_already_in_stash (trim_stash (bs ++ b ∷ [])) b.hash ≡ true
trim_stash-found [] b = rw (==_refl b.hash)
trim_stash-found (c ∷ bs) b =
    let last : block_already_in_stash (bs ++ b ∷ []) b.hash ≡ true =
      in_append bs (b ∷ []) b.hash ∙ rw (==_refl b.hash) (ground arith) in
    elim (Bool-cases (ltb 100 (length (c ∷ bs ++ b ∷ [])))) [
      | inl e ↦ rw e last
      | inr e ↦ rw (e, last) (ground arith)
    ]

-- A stash of at most 100 blocks with different hashes stays one, and holds the block that was
-- written.
pub write_to_received_stash-IsStash :
    (b : Block) (s : Storage)
    → IsStash s.received_block_stash
    → IsStash (write_to_received_stash b s).received_block_stash
      × (block_already_in_stash (write_to_received_stash b s).received_block_stash b.hash ≡ true)
unfolding write_to_received_stash
write_to_received_stash-IsStash b s (n, h) =
    elim (Bool-cases (block_already_in_stash s.received_block_stash b.hash)) [
      | inl e ↦ rw e ((n, h), e)
      | inr e ↦
          let bs = s.received_block_stash in
          let k = length-append bs (b ∷ []) in
          rw e (
            trim_stash-IsStash (bs ++ b ∷ []) (omega arith) (append-AllDistinct bs b h e),
            trim_stash-found bs b,
          )
    ]
