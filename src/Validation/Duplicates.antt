-- ===== src/Validation/Duplicates.antt =====
-- The search for duplicates, against distinctness of all hashes of a block.
use bazo_miner.Prelude.{
  ◌≡◌, refl, Bool, true, false, not, ◌&&◌, List, [], ◌∷◌, ◌++◌, ap, sym, ◌∙◌, ◌⊎◌, inl, inr,
  Bool-cases, arith, ◌==◌,
}
use bazo_miner.Ledger.Types.{Hash, Block}
use bazo_miner.Validation.{
  Seen, seen, duplicate, TxKind, acc_tx, funds_tx, config_tx, stake_tx, agg_tx, update_tx, see,
  and_see, seen_before, is_seen, validate_no_duplicate_tx,
}

-- No hash occurs twice in a list.
abbrev pub distinct : List Hash → Bool
distinct [] = true
distinct (h ∷ hs) = not (seen_before h hs) && distinct hs

abbrev pub block_hashes : Block → List Hash
block_hashes b =
    ((((b.acc_tx_data ++ b.funds_tx_data) ++ b.config_tx_data) ++ b.stake_tx_data) ++ b.agg_tx_data)
    ++ b.update_tx_data

abbrev fresh : List Hash → List Hash → Bool
fresh m [] = true
fresh m (h ∷ hs) = not (seen_before h m) && fresh (h ∷ m) hs

abbrev push_all : List Hash → List Hash → List Hash
push_all [] m = m
push_all (h ∷ hs) m = push_all hs (h ∷ m)

abbrev none_in : List Hash → List Hash → Bool
none_in m [] = true
none_in m (h ∷ hs) = not (seen_before h m) && none_in m hs

fresh-append : (m xs ys : List Hash) → fresh m (xs ++ ys) ≡ (fresh m xs && fresh (push_all xs m) ys)
fresh-append m [] ys = refl
fresh-append m (x ∷ xs) ys = elim (Bool-cases (seen_before x m)) [
  | inl e ↦ rw e refl
  | inr e ↦ rw e (fresh-append (x ∷ m) xs ys)
]

push_all-append : (m xs ys : List Hash) → push_all (xs ++ ys) m ≡ push_all ys (push_all xs m)
push_all-append m [] ys = refl
push_all-append m (x ∷ xs) ys = push_all-append (x ∷ m) xs ys

see-fresh : (k : TxKind) (hs m : List Hash) → fresh m hs ≡ true → see k hs m ≡ seen (push_all hs m)
unfolding see
see-fresh k [] m h = refl
see-fresh k (x ∷ hs) m h = elim (Bool-cases (seen_before x m)) [
  | inl e ↦ let no : ⊥ = let bad : false ≡ true = rw e at h in cc in absurd no
  | inr e ↦ rw e (see-fresh k hs (x ∷ m) (rw e at h))
]

see-stale : (k : TxKind) (hs m : List Hash) → fresh m hs ≡ false → is_seen (see k hs m) ≡ false
unfolding see
see-stale k [] m h = let no : ⊥ = cc in absurd no
see-stale k (x ∷ hs) m h = elim (Bool-cases (seen_before x m)) [
  | inl e ↦ rw e refl
  | inr e ↦ rw e (see-stale k hs (x ∷ m) (rw e at h))
]

-- The map holds a list of fresh hashes, or the list repeats a hash.
abbrev Tracks : Seen → List Hash → Type 0
Tracks o xs =
    ((o ≡ seen (push_all xs [])) × (fresh [] xs ≡ true))
    ⊎ ((is_seen o ≡ false) × (fresh [] xs ≡ false))

duplicate-Tracks :
    (o : Seen) (k : TxKind) (xs hs : List Hash)
    → is_seen o ≡ false
    → fresh [] xs ≡ false
    → Tracks (and_see o k hs) (xs ++ hs)
duplicate-Tracks (seen m) k xs hs e f = let no : ⊥ = cc in absurd no
duplicate-Tracks (duplicate j) k xs hs e f = inr (refl, fresh-append [] xs hs ∙ rw f refl)

and_see-Tracks :
    (o : Seen) (k : TxKind) (xs hs : List Hash) → Tracks o xs → Tracks (and_see o k hs) (xs ++ hs)
and_see-Tracks o k xs hs (inr (e, f)) = duplicate-Tracks o k xs hs e f
and_see-Tracks o k xs hs (inl (e, f)) = elim (Bool-cases (fresh (push_all xs []) hs)) [
  | inl q ↦ inl (
    ap (λ x. and_see x k hs) e
        ∙ (see-fresh k hs (push_all xs []) q ∙ ap seen (sym (push_all-append [] xs hs))),
    fresh-append [] xs hs ∙ rw (f, q) refl,
  )
  | inr q ↦ inr (
    ap (λ x. is_seen (and_see x k hs)) e ∙ see-stale k hs (push_all xs []) q,
    fresh-append [] xs hs ∙ rw (f, q) refl,
  )
]

Tracks-is_seen : (o : Seen) (xs : List Hash) → Tracks o xs → is_seen o ≡ fresh [] xs
Tracks-is_seen o xs (inl (e, f)) = ap is_seen e ∙ sym f
Tracks-is_seen o xs (inr (e, f)) = e ∙ sym f

none_in-cons :
    (h : Hash) (m hs : List Hash) → none_in (h ∷ m) hs ≡ (not (seen_before h hs) && none_in m hs)
none_in-cons h m [] = refl
none_in-cons h m (x ∷ hs) =
    let rest = none_in-cons h m hs in
    elim (Bool-cases (x == h)) [
      | inl e ↦ let e' : (h == x) ≡ true = ground arith in rw (e, e') refl
      | inr e ↦
          let e' : (h == x) ≡ false = ground arith in
          elim (Bool-cases (seen_before x m)) [
            | inl q ↦ rw (e, e', q) (ground arith)
            | inr q ↦ rw (e, e', q) rest
          ]
    ]

fresh-distinct : (m hs : List Hash) → fresh m hs ≡ (none_in m hs && distinct hs)
fresh-distinct m [] = refl
fresh-distinct m (h ∷ hs) = elim (Bool-cases (seen_before h m)) [
  | inl e ↦ rw e refl
  | inr e ↦
      rw (e, fresh-distinct (h ∷ m) hs, none_in-cons h m hs)
        (elim (Bool-cases (seen_before h hs)) [ inl q ↦ rw q (ground arith) | inr q ↦ rw q refl ])
]

none_in-nil : (hs : List Hash) → none_in [] hs ≡ true
none_in-nil [] = refl
none_in-nil (h ∷ hs) = none_in-nil hs

-- A block passes exactly when no hash occurs twice in its six lists of transactions together.
pub validate_no_duplicate_tx-distinct :
    (b : Block) → is_seen (validate_no_duplicate_tx b) ≡ distinct (block_hashes b)
unfolding validate_no_duplicate_tx
validate_no_duplicate_tx-distinct b =
    let l2 : List Hash = b.acc_tx_data ++ b.funds_tx_data in
    let l3 : List Hash = l2 ++ b.config_tx_data in
    let l4 : List Hash = l3 ++ b.stake_tx_data in
    let l5 : List Hash = l4 ++ b.agg_tx_data in
    let t0 : Tracks (seen []) [] = inl (refl, refl) in
    let t1 = and_see-Tracks (seen []) acc_tx [] b.acc_tx_data t0 in
    let t2 = and_see-Tracks _ funds_tx b.acc_tx_data b.funds_tx_data t1 in
    let t3 = and_see-Tracks _ config_tx l2 b.config_tx_data t2 in
    let t4 = and_see-Tracks _ stake_tx l3 b.stake_tx_data t3 in
    let t5 = and_see-Tracks _ agg_tx l4 b.agg_tx_data t4 in
    let t6 = and_see-Tracks _ update_tx l5 b.update_tx_data t5 in
    Tracks-is_seen (validate_no_duplicate_tx b) (block_hashes b) t6
    ∙ (fresh-distinct [] (block_hashes b) ∙ rw (none_in-nil (block_hashes b)) refl)
