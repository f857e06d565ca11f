-- ===== src/ProofOfStake.antt =====
-- miner/proofofstake.go: the check of a proof of stake, and the proofs of the blocks before. The mining
-- loop, which waits for the clock, is left out. `sha3` is `sha3.Sum256` on bytes.
pub mod Difficulty
mod Tests
use bazo_miner.Prelude.{
  ℕ, zero, suc, ◌+◌, ◌*◌, ◌-◌, ◌/◌, ◌%◌, ◌^◌, Bool, true, false, not, ◌&&◌, ◌||◌, Option, none,
  some, List, [], ◌∷◌, ◌++◌, ltb, ◌==◌, if◌then◌else◌, take, drop, length,
}
use bazo_miner.Prelude.Int.{ℤ, pos, negsuc}
use bazo_miner.Prelude.Words.{u64_mod}
use bazo_miner.Ledger.Types.{Bytes, Block}
use bazo_miner.Storage.{Storage}
use bazo_miner.Chain.{closed_parent}

-- COMM_PROOF_LENGTH
abbrev pub proof_length : ℕ
proof_length = 256

-- The big-endian bytes of a number, and their value.
unfoldable pub big_endian : (width : ℕ) → ℕ → Bytes
big_endian zero n = []
big_endian (suc width) n = big_endian width (n / 256) ++ (n % 256) ∷ []

unfoldable pub byte_value : Bytes → ℕ
byte_value [] = 0
byte_value (b ∷ bs) = b * 256 ^ length bs + byte_value bs

-- `uint64(timestamp)`
abbrev pub as_uint64 : ℤ → ℕ
as_uint64 (pos n) = n % u64_mod
as_uint64 (negsuc n) = u64_mod - 1 - n % u64_mod

abbrev pub proof_bytes : List ℕ → Bytes
proof_bytes [] = []
proof_bytes (p ∷ ps) = big_endian proof_length p ++ proof_bytes ps

abbrev pub hash_args : List ℕ → (height commitment_proof : ℕ) → ℤ → Bytes
hash_args prev_proofs height commitment_proof timestamp =
    proof_bytes prev_proofs
    ++ (big_endian proof_length commitment_proof
        ++ (big_endian 4 height ++ big_endian 8 (as_uint64 timestamp)))

-- `pos[byteNr] >= 1<<(8-diff%8)`, with the bits that are left.
abbrev pub bits_check : (bits : ℕ) → Bytes → Option Bool
bits_check bits bs =
    if bits == 0
    then some true
    else elim bs [ [] ↦ none | b ∷ rest ↦ some (ltb b (2 ^ (8 - bits))) ]

-- The loop over the bytes that must be zero. An index out of range is none.
unfoldable pub bytes_check : (count bits : ℕ) → Bytes → Option Bool
bytes_check zero bits bs = bits_check bits bs
bytes_check (suc count) bits [] = none
bytes_check (suc count) bits (b ∷ bs) =
    let rest = bytes_check count bits bs in if b == 0 then rest else some false

-- The hash with its first eight bytes divided by the balance.
abbrev pub weighted : ℕ → Bytes → Bytes
weighted balance hash = big_endian 8 (byte_value (take 8 hash) / balance) ++ drop 8 hash

-- A balance of 0 is a division by zero: none.
unfoldable pub validate_proof_of_stake :
    (Bytes → Bytes) → (diff : ℕ) → List ℕ → (height balance commitment_proof : ℕ) → ℤ → Option Bool
validate_proof_of_stake sha3 diff prev_proofs height balance commitment_proof timestamp =
    if balance == 0
    then none
    else bytes_check (diff / 8) (diff % 8)
        (weighted balance (sha3 (hash_args prev_proofs height commitment_proof timestamp)))

abbrev pub proofs_from : Option Block → (Block → List ℕ) → List ℕ
proofs_from none next = []
proofs_from (some c) next = c.commitment_proof ∷ next c

unfoldable pub get_latest_proofs : ℕ → Block → Storage → List ℕ
get_latest_proofs zero b s = []
get_latest_proofs (suc n) b s =
    if b.height == 0 then [] else proofs_from (closed_parent b s) (λ c. get_latest_proofs n c s)
