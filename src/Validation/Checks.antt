-- ===== src/Validation/Checks.antt =====
-- The checks of preValidate (miner/block_validation.go), one after the other: what a check has
-- tested when those after it accept.
use bazo_miner.Prelude.{◌≡◌, refl, Bool, true, false, Option, none, some, arith, ◌==◌}
use bazo_miner.Ledger.Types.{Hash}
use bazo_miner.Merkle.{Built, built, panic, hang, merkle_root_of, MerkleTree}
use bazo_miner.Chain.{Net, Run, done}
use bazo_miner.Chain.Slashing.{SlashingDict, Verdict, valid, invalid}
use bazo_miner.Validation.{
  Check, accepted, BlockError, demand, demand_some, demand_proof, after_slashing, root_check,
  merkle_root_incorrect,
}

module _ {A : Type 0} where
  pub demand-accepted :
      (c : Bool) (e : BlockError) (k : Check A) (s : A)
      → demand c e k ≡ accepted s
      → (c ≡ true) × (k ≡ accepted s)
  demand-accepted true e k s h = (refl, h)
  demand-accepted false e k s h = let no : ⊥ = cc in absurd no

  pub demand_some-accepted :
      {B : Type 0} (o : Option B) (e : BlockError) (k : B → Check A) (s : A)
      → demand_some o e k ≡ accepted s
      → (b : B) × (o ≡ some b) × (k b ≡ accepted s)
  demand_some-accepted none e k s h = let no : ⊥ = cc in absurd no
  demand_some-accepted (some b) e k s h = (b, refl, h)

  pub demand_proof-accepted :
      (o : Option Bool) (k : Check A) (s : A)
      → demand_proof o k ≡ accepted s
      → (o ≡ some true) × (k ≡ accepted s)
  demand_proof-accepted none k s h = let no : ⊥ = cc in absurd no
  demand_proof-accepted (some true) k s h = (refl, h)
  demand_proof-accepted (some false) k s h = let no : ⊥ = cc in absurd no

  pub after_slashing-accepted :
      (r : Run (Verdict × (SlashingDict × Net))) (k : SlashingDict × Net → Check A) (s : A)
      → after_slashing r k ≡ accepted s
      → (t : SlashingDict × Net) × (r ≡ done (valid, t)) × (k t ≡ accepted s)
  after_slashing-accepted (done (valid, t)) k s h = (t, refl, h)
  after_slashing-accepted (done (invalid e, t)) k s h = let no : ⊥ = cc in absurd no
  after_slashing-accepted Run.panic k s h = let no : ⊥ = cc in absurd no
  after_slashing-accepted Run.hang k s h = let no : ⊥ = cc in absurd no

  pub root_check-accepted :
      (r : Built (Option MerkleTree)) (root : Hash) (sha3 : Hash → Hash → Hash) (k : Check A)
      (s : A)
      → root_check r root sha3 k ≡ accepted s
      → (t : Option MerkleTree) × (r ≡ built t) × (merkle_root_of sha3 t ≡ root)
  root_check-accepted (built t) root sha3 k s h =
      let (e, _) = demand-accepted (merkle_root_of sha3 t == root) merkle_root_incorrect k s h in
      (t, refl, ground arith)
  root_check-accepted panic root sha3 k s h = let no : ⊥ = cc in absurd no
  root_check-accepted hang root sha3 k s h = let no : ⊥ = cc in absurd no
