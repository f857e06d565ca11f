-- ===== src/Chain/Proofs.antt =====
-- What a slashing proof is accepted for, and what is noted as one.
use bazo_miner.Prelude.{
  ℕ, ◌+◌, ◌%◌, ◌≤◌, ◌<◌, ◌≡◌, ◌≢◌, refl, Bool, true, false, ◌||◌, Option, none, some, arith, inl,
  inr, Bool-cases, ltb, ◌==◌,
}
use bazo_miner.Prelude.Words.{add32, u32_mod, u64_mod, add64_exact}
use bazo_miner.Prelude.Assoc.{lookup, lookup-insert_self}
use bazo_miner.Ledger.Types.{Hash, Block}
use bazo_miner.Storage.{read_closed_block, read_closed_block_without_tx}
use bazo_miner.Chain.{Answer, Net, Run, done, hang, panic, is_in_same_chain}
use bazo_miner.Chain.Slashing.{
  SlashingDict, proof_of, note_proof, is_in_window, Verdict, slashing_check, check_conflict,
  check_window, if_apart,
}

-- With a window of at least 1, heights of 32 bits and a window that does not wrap around, the test of
-- the window holds for every two heights: a proof is noted for every two blocks of one beneficiary.
pub note_proof-always :
    (window : ℕ) (b prev : Block) (dict : SlashingDict)
    → 1 ≤ window
    → b.height < u32_mod
    → prev.height < u32_mod
    → window + u32_mod < u64_mod
    → prev.beneficiary ≡ b.beneficiary
    → lookup b.beneficiary (note_proof window b prev dict) ≡ some (proof_of b prev)
note_proof-always window b prev dict w h k l e =
    let x = add64_exact b.height window (omega arith) in
    let y = add64_exact prev.height window (omega arith) in
    let seen : is_in_window window prev b ≡ true = rw (x, y) (ground arith) in
    let one : (prev.beneficiary == b.beneficiary) ≡ true = ground arith in
    rw (one, seen, lookup-insert_self b.beneficiary (proof_of b prev) dict)

abbrev pub verdict_of : Run (Verdict × (SlashingDict × Net)) → Run Verdict
verdict_of (done (v, _)) = done v
verdict_of panic = panic
verdict_of hang = hang

module _ (fetch : ℕ → Hash → Hash → Answer) where
  check_window-verdict :
      (window : ℕ) (s s' : Hash) (b1 b2 : Block) (dict : SlashingDict) (net : Net)
      → verdict_of (check_window window s b1 b2 dict net)
        ≡ verdict_of (check_window window s' b1 b2 dict net)
  check_window-verdict window s s' b1 b2 dict net =
      elim (Bool-cases (ltb b1.height (add32 (window % u32_mod) b2.height))) [
        | inl e ↦ rw e refl
        | inr e ↦ rw e refl
      ]

  if_apart-verdict :
      (r : Run (Bool × Net)) (dict : SlashingDict)
      (f g : Net → Run (Verdict × (SlashingDict × Net)))
      → ((net : Net) → verdict_of (f net) ≡ verdict_of (g net))
      → verdict_of (if_apart r dict f) ≡ verdict_of (if_apart r dict g)
  if_apart-verdict (done (true, net)) dict f g h = refl
  if_apart-verdict (done (false, net)) dict f g h = h net
  if_apart-verdict panic dict f g h = refl
  if_apart-verdict hang dict f g h = refl

  check_conflict-verdict :
      (fuel window : ℕ) (s s' : Hash) (o p : Option Block) (dict : SlashingDict) (net : Net)
      → verdict_of (check_conflict fetch fuel window s o p dict net)
        ≡ verdict_of (check_conflict fetch fuel window s' o p dict net)
  unfolding check_conflict
  check_conflict-verdict fuel window s s' (some b1) (some b2) dict net =
      if_apart-verdict (is_in_same_chain fetch fuel b1 b2 net) dict
        (check_window window s b1 b2 dict) (check_window window s' b1 b2 dict)
        (check_window-verdict window s s' b1 b2 dict)
  check_conflict-verdict fuel window s s' (some b1) none dict net = refl
  check_conflict-verdict fuel window s s' none p dict net = refl

  -- The verdict on a proof is the same for every slashed address.
  pub slashing_check-any_address :
      (fuel window : ℕ) (s s' h1 h2 w1 w2 : Hash) (dict : SlashingDict) (net : Net)
      → verdict_of (slashing_check fetch fuel window s h1 h2 w1 w2 dict net)
        ≡ verdict_of (slashing_check fetch fuel window s' h1 h2 w1 w2 dict net)
  unfolding slashing_check
  slashing_check-any_address fuel window s s' h1 h2 w1 w2 dict net =
      elim (Bool-cases (h1 == 0 || h2 == 0)) [
        | inl e ↦ rw e refl
        | inr e ↦ elim (Bool-cases (h1 == h2)) [
          | inl q ↦ rw (e, q) refl
          | inr q ↦ rw (e, q) (check_conflict-verdict fuel window s s' _ _ dict net)
        ]
      ]

  -- Different hashes that are not zero, the first of a block that is in neither bucket of closed
  -- blocks: a nil pointer is read.
  slashing_check-unknown :
      (fuel window : ℕ) (s h1 h2 w1 w2 : Hash) (dict : SlashingDict) (net : Net)
      → h1 ≢ 0
      → h2 ≢ 0
      → h1 ≢ h2
      → read_closed_block h1 net.storage ≡ none
      → read_closed_block_without_tx w1 net.storage ≡ none
      → slashing_check fetch fuel window s h1 h2 w1 w2 dict net ≡ panic
  unfolding slashing_check check_conflict
  slashing_check-unknown fuel window s h1 h2 w1 w2 dict net a b c p q =
      let given : (h1 == 0 || h2 == 0) ≡ false = ground arith in
      let differ : (h1 == h2) ≡ false = ground arith in rw (given, differ, p, q)
