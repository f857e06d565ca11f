-- ===== src/ProofOfStake/Difficulty.antt =====
-- The check of the leading bits, against the value of the hash.
use bazo_miner.Prelude.{
  ℕ, zero, suc, ◌+◌, ◌*◌, ◌-◌, ◌/◌, ◌%◌, ◌^◌, ◌≤◌, ◌<◌, ◌≡◌, refl, Bool, true, false, Option, some,
  List, [], ◌∷◌, length, arith, ap, subst, ◌⊎◌, inl, inr, Bool-cases, ◌==◌, ltb, ◌++◌, take, drop,
  length-append, length-drop,
}
use native.Mathlib.Nat.{mul-le-mul_right, pow-le-pow_right, pow-suc}
use bazo_miner.Ledger.Types.{Bytes}
use bazo_miner.ProofOfStake.{
  byte_value, bytes_check, bits_check, big_endian, weighted, hash_args, validate_proof_of_stake,
}
use bazo_miner.Prelude.Int.{ℤ}

abbrev pub AllBytes : Bytes → Type 0
AllBytes [] = Unit
AllBytes (b ∷ bs) = (b < 256) × AllBytes bs

-- A digit below `q` in front of a value below `p`, and one that is not.
digit_lt : (b q p v : ℕ) → v < p → b < q → b * p + v < q * p
digit_lt b q p v h k =
    let m : (b + 1) * p ≤ q * p = mul-le-mul_right p (omega arith) in
    let e : (b + 1) * p ≡ b * p + p = omega arith in omega arith

digit_ge : (b q p v : ℕ) → q ≤ b → q * p ≤ b * p + v
digit_ge b q p v k = let m : q * p ≤ b * p = mul-le-mul_right p k in omega arith

byte_value-lt : (bs : Bytes) → AllBytes bs → byte_value bs < 256 ^ length bs
unfolding byte_value
byte_value-lt [] h = omega arith
byte_value-lt (b ∷ bs) (h, hs) =
    let rest = byte_value-lt bs hs in
    let e = pow-suc 256 (length bs) in
    let d = digit_lt b 256 (256 ^ length bs) (byte_value bs) rest h in omega arith

-- 2 ^ (8 - bits) for the bits that are left, and the bytes behind them.
abbrev pub bound : (bits behind : ℕ) → ℕ
bound bits behind = 2 ^ (8 - bits) * 256 ^ behind

abbrev Decides : Option Bool → ℕ → ℕ → Type 0
Decides o v t = ((o ≡ some true) × (v < t)) ⊎ ((o ≡ some false) × (t ≤ v))

bound-le : (bits m k : ℕ) → bound bits m ≤ 256 ^ suc (k + m)
bound-le bits m k =
    let p : 2 ^ (8 - bits) ≤ 2 ^ 8 =
      pow-le-pow_right {n = 2} (omega arith) {i = 8 - bits} {j = 8} (omega arith) in
    let q : 2 ^ (8 - bits) * 256 ^ m ≤ 256 * 256 ^ m = mul-le-mul_right (256 ^ m) (omega arith) in
    let r : 256 ^ suc m ≤ 256 ^ suc (k + m) = pow-le-pow_right (omega arith) (omega arith) in
    let e = pow-suc 256 m in omega arith

bits_check-Decides :
    (bits b : ℕ) (bs : Bytes)
    → AllBytes (b ∷ bs)
    → Decides (bits_check bits (b ∷ bs)) (byte_value (b ∷ bs)) (bound bits (length bs))
unfolding byte_value
bits_check-Decides bits b bs (h, hs) =
    let rest = byte_value-lt bs hs in
    elim (Bool-cases (bits == 0)) [
      | inl z ↦
          let none_left : bits ≡ 0 = ground arith in
          rw none_left (inl (refl, digit_lt b 256 (256 ^ length bs) (byte_value bs) rest h))
      | inr z ↦ elim (Bool-cases (ltb b (2 ^ (8 - bits)))) [
        | inl l ↦
            rw (z, l)
              (inl (
                refl,
                digit_lt b (2 ^ (8 - bits)) (256 ^ length bs) (byte_value bs) rest (ground arith),
              ))
        | inr l ↦
            rw (z, l)
              (inr (
                refl,
                digit_ge b (2 ^ (8 - bits)) (256 ^ length bs) (byte_value bs) (ground arith),
              ))
      ]
    ]

-- On a hash of bytes with `behind` bytes after the one of the remaining bits, the check ends with an
-- answer, and says yes exactly when the hash, as a number, is below 2 ^ (8 - bits) * 256 ^ behind:
-- when its first 8 * count + bits bits are zero.
bytes_check-bound :
    (count bits behind : ℕ) (bs : Bytes)
    → AllBytes bs
    → length bs ≡ suc (count + behind)
    → ((bytes_check count bits bs ≡ some true) × (byte_value bs < bound bits behind))
      ⊎ ((bytes_check count bits bs ≡ some false) × (bound bits behind ≤ byte_value bs))
unfolding bytes_check byte_value
bytes_check-bound count bits behind [] h e = absurd (omega arith)
bytes_check-bound zero bits behind (b ∷ bs) h e =
    let same : length bs ≡ behind = omega arith in
    subst
      (λ n. Decides (bits_check bits (b ∷ bs)) (b * 256 ^ length bs + byte_value bs) (bound bits n))
      same (bits_check-Decides bits b bs h)
bytes_check-bound (suc count) bits behind (b ∷ bs) (h, hs) e =
    let rest = bytes_check-bound count bits behind bs hs (omega arith) in
    elim (Bool-cases (b == 0)) [
      | inl z ↦
          let none_set : b ≡ 0 = ground arith in
          let gone : byte_value bs ≡ b * 256 ^ length bs + byte_value bs =
            rw none_set (omega arith) in
          rw z (subst (λ v. Decides (bytes_check count bits bs) v (bound bits behind)) gone rest)
      | inr z ↦
          let same : length bs ≡ suc (count + behind) = omega arith in
          let large = digit_ge b 1 (256 ^ length bs) (byte_value bs) (ground arith) in
          let small = bound-le bits behind count in
          let top : 256 ^ length bs ≡ 256 ^ suc (count + behind) = ap (λ n. 256 ^ n) same in
          rw z (inr (refl, omega arith))
    ]

append-AllBytes : (xs ys : Bytes) → AllBytes xs → AllBytes ys → AllBytes (xs ++ ys)
append-AllBytes [] ys h k = k
append-AllBytes (x ∷ xs) ys (h, hs) k = (h, append-AllBytes xs ys hs k)

drop-AllBytes : (n : ℕ) (xs : Bytes) → AllBytes xs → AllBytes (drop n xs)
drop-AllBytes zero xs h = h
drop-AllBytes (suc n) [] h = h
drop-AllBytes (suc n) (x ∷ xs) (h, hs) = drop-AllBytes n xs hs

big_endian-AllBytes : (w n : ℕ) → AllBytes (big_endian w n) × (length (big_endian w n) ≡ w)
unfolding big_endian
big_endian-AllBytes zero n = (tt, refl)
big_endian-AllBytes (suc w) n =
    let (h, e) = big_endian-AllBytes w (n / 256) in
    let l = length-append (big_endian w (n / 256)) (n % 256 ∷ []) in
    (append-AllBytes (big_endian w (n / 256)) (n % 256 ∷ []) h (omega arith, tt), omega arith)

-- When SHA3 gives 32 bytes, the difficulty is a byte and the balance is not 0, the check of a proof of
-- stake answers yes exactly when the weighted hash, as a number, is below
-- 2 ^ (8 - diff % 8) * 256 ^ (31 - diff / 8), and no otherwise.
pub validate_proof_of_stake-bound :
    (sha3 : Bytes → Bytes) (diff : ℕ) (proofs : List ℕ) (height balance proof : ℕ) (timestamp : ℤ)
    → ((args : Bytes) → AllBytes (sha3 args) × (length (sha3 args) ≡ 32))
    → diff < 256
    → 0 < balance
    → ((validate_proof_of_stake sha3 diff proofs height balance proof timestamp ≡ some true)
        × (byte_value (weighted balance (sha3 (hash_args proofs height proof timestamp)))
            < bound (diff % 8) (31 - diff / 8)))
      ⊎ ((validate_proof_of_stake sha3 diff proofs height balance proof timestamp ≡ some false)
          × (bound (diff % 8) (31 - diff / 8)
              ≤ byte_value (weighted balance (sha3 (hash_args proofs height proof timestamp)))))
unfolding validate_proof_of_stake
validate_proof_of_stake-bound sha3 diff proofs height balance proof timestamp hashes d b =
    let hash = sha3 (hash_args proofs height proof timestamp) in
    let (all, size) = hashes (hash_args proofs height proof timestamp) in
    let head = big_endian 8 (byte_value (take 8 hash) / balance) in
    let (all8, size8) = big_endian-AllBytes 8 (byte_value (take 8 hash) / balance) in
    let joined = length-append head (drop 8 hash) in
    let dropped = length-drop 8 hash in
    let solvent : (balance == 0) ≡ false = ground arith in
    rw solvent (
      bytes_check-bound (diff / 8) (diff % 8) (31 - diff / 8) (weighted balance hash)
        (append-AllBytes head (drop 8 hash) all8 (drop-AllBytes 8 hash all)) (omega arith))
