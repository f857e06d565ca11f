-- ===== src/Vm/Encoding/Laws.antt =====
-- The encodings of vm/utils.go are decoded to what was encoded.
use bazo_miner.Prelude.{
  ℕ, zero, suc, ◌/◌, ◌%◌, ◌≤◌, ◌<◌, ◌≡◌, ap, ◌∙◌, [], ◌∷◌, ◌==◌, arith, Bool-cases, inl, inr,
}
use bazo_miner.Prelude.Int.{ℤ, pos, negsuc}
use bazo_miner.Prelude.Words.{u16_mod, u64_mod}
use bazo_miner.Vm.Result.{Bytes, ok}
use bazo_miner.Vm.Encoding.{
  big_endian_from, set_bytes, bytes_onto, nat_bytes, u16_to_byte_array, byte_array_to_u16, negate,
  signed_big_int_conversion, signed_byte_array_conversion, u64_to_byte_array,
}

-- Reading what `bytes_onto` writes, then the rest.
big_endian-bytes_onto :
    (fuel n : ℕ) (rest : Bytes)
    → n ≤ fuel
    → big_endian_from 0 (bytes_onto fuel n rest) ≡ big_endian_from n rest
unfolding bytes_onto big_endian_from
big_endian-bytes_onto zero n rest h = ap (λ x. big_endian_from x rest) (omega arith)
big_endian-bytes_onto (suc fuel) n rest h = elim (Bool-cases (n == 0)) [
  | inl z ↦ rw z (ap (λ x. big_endian_from x rest) (ground arith))
  | inr z ↦ rw z (
      big_endian-bytes_onto fuel (n / 256) ((n % 256) ∷ rest) (ground arith)
      ∙ ap (λ x. big_endian_from x rest) (omega arith))
]

pub set_bytes-nat_bytes : (n : ℕ) → set_bytes (nat_bytes n) ≡ n
unfolding set_bytes nat_bytes
set_bytes-nat_bytes n = big_endian-bytes_onto n n [] (omega arith)

-- A signed integer that an instruction pushes is read back as the same integer.
pub signed_conversion_roundtrip :
    (z : ℤ) → signed_big_int_conversion (signed_byte_array_conversion z) ≡ ok z
unfolding signed_big_int_conversion signed_byte_array_conversion
signed_conversion_roundtrip (pos n) = ap (λ x. ok (pos x)) (set_bytes-nat_bytes n)
signed_conversion_roundtrip (negsuc n) = ap (λ x. ok (negate x)) (set_bytes-nat_bytes (suc n))

-- A size of 16 bits is written as two bytes that are read back as the size.
pub u16_roundtrip : (n : ℕ) → n < u16_mod → byte_array_to_u16 (u16_to_byte_array n) ≡ ok n
unfolding byte_array_to_u16 u16_to_byte_array
u16_roundtrip n h = ap ok (omega arith)

-- The bytes of a number of 64 bits are read back, by the big integer's `SetBytes`, as the number.
pub u64_roundtrip : (n : ℕ) → n < u64_mod → set_bytes (u64_to_byte_array n) ≡ n
unfolding set_bytes u64_to_byte_array
u64_roundtrip n h = omega arith
