-- ===== src/ProofOfStake/Tests.antt =====
-- The theorem of the proof of stake with a hash that does not vary.
use bazo_miner.Prelude.{
  ℕ, zero, suc, ◌≤◌, ◌<◌, ◌≡◌, true, false, some, [], ◌∷◌, arith, ◌⊎◌, replicate, length-replicate,
}
use bazo_miner.Prelude.Int.{pos}
use bazo_miner.Ledger.Types.{Bytes}
use bazo_miner.ProofOfStake.{validate_proof_of_stake, byte_value, weighted, hash_args}
use bazo_miner.ProofOfStake.Difficulty.{AllBytes, bound, validate_proof_of_stake-bound}

abbrev fives : Bytes → Bytes
fives args = replicate 32 5

replicate-AllBytes : (n : ℕ) → AllBytes (replicate n 5)
replicate-AllBytes zero = tt
replicate-AllBytes (suc n) = (omega arith, replicate-AllBytes n)

validate_proof_of_stake-bound_example :
    ((validate_proof_of_stake fives 11 (7 ∷ []) 4 90 8 (pos 50) ≡ some true)
      × (byte_value (weighted 90 (fives (hash_args (7 ∷ []) 4 8 (pos 50)))) < bound 3 30))
    ⊎ ((validate_proof_of_stake fives 11 (7 ∷ []) 4 90 8 (pos 50) ≡ some false)
        × (bound 3 30 ≤ byte_value (weighted 90 (fives (hash_args (7 ∷ []) 4 8 (pos 50))))))
validate_proof_of_stake-bound_example =
    validate_proof_of_stake-bound fives 11 (7 ∷ []) 4 90 8 (pos 50)
      (λ args. (replicate-AllBytes 32, length-replicate {A = ℕ} 32 5)) (omega arith) (omega arith)
