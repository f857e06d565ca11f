-- ===== src/Chameleon/Tests.antt =====
-- The modulus 23 with the order 11, and a digest that is always 5.
use bazo_miner.Prelude.{◌≡◌, refl, arith, some, [], ◌∷◌, replicate}
use bazo_miner.Ledger.Types.{Bytes, CheckString}
use bazo_miner.Chameleon.{
  chameleon_hash, generate_ch_collision, keygen, new_check_string, to_hex, set_string, to_result,
  hash_number,
}
use bazo_miner.Chameleon.Collision.{generate_ch_collision-chameleon_hash, keygen-IsKeyed}
use bazo_miner.Chameleon.Digits.{set_string-to_hex}
use bazo_miner.Vm.Encoding.{big_endian_from, set_bytes, nat_bytes, bytes_onto}

abbrev five : Bytes → Bytes
five message = 5 ∷ []

generate_ch_collision-chameleon_hash_example :
    (found : CheckString) × (generate_ch_collision five 7
        (keygen 23 2 3)
        (new_check_string 2 2)
        (1 ∷ [])
        (9 ∷ [])
      ≡ some found)
    × (chameleon_hash five (keygen 23 2 3) found (9 ∷ []) ≡ some (replicate 32 0))
unfolding chameleon_hash keygen new_check_string to_hex set_string to_result hash_number
    big_endian_from set_bytes nat_bytes bytes_onto
generate_ch_collision-chameleon_hash_example =
    generate_ch_collision-chameleon_hash five (keygen 23 2 3) 23 11 4 3 2 2 (new_check_string 2 2)
      (1 ∷ []) (9 ∷ []) (replicate 32 0) 7
      (keygen-IsKeyed 23 2 3 (omega arith) refl (omega arith) refl) (set_string-to_hex 2)
      (set_string-to_hex 2) refl (omega arith)

-- A hash of one byte stands at the front of the 32: the collision misses it.
hash_three :
    chameleon_hash five (keygen 23 2 3) (new_check_string 5 2) (1 ∷ []) ≡ some (3 ∷ replicate 31 0)
unfolding chameleon_hash keygen new_check_string to_hex set_string to_result hash_number
    big_endian_from set_bytes nat_bytes bytes_onto
hash_three = refl

collision_misses :
    (found : CheckString) × (generate_ch_collision five 7
        (keygen 23 2 3)
        (new_check_string 5 2)
        (1 ∷ [])
        (9 ∷ [])
      ≡ some found)
    × (chameleon_hash five (keygen 23 2 3) found (9 ∷ []) ≡ some (9 ∷ replicate 31 0))
unfolding chameleon_hash generate_ch_collision keygen new_check_string to_hex set_string to_result
    hash_number big_endian_from set_bytes nat_bytes bytes_onto
collision_misses = (new_check_string 6 3, refl, refl)
