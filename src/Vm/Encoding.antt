-- ===== src/Vm/Encoding.antt =====
-- vm/utils.go: numbers, Booleans and signed integers as byte strings. A `big.Int` is an integer.
pub mod Laws
use bazo_miner.Prelude.{
  ℕ, zero, suc, ◌+◌, ◌-◌, ◌*◌, ◌/◌, ◌%◌, ◌^◌, Bool, true, false, List, [], ◌∷◌, ◌++◌, length,
  replicate, ◌==◌, leb, ltb, if◌then◌else◌,
}
use bazo_miner.Prelude.Int.{ℤ, pos, negsuc}
use bazo_miner.Vm.Result.{Bytes, Result, ok, err, panic}

-- `SetBytes`: big-endian.
unfoldable pub big_endian_from : ℕ → Bytes → ℕ
big_endian_from acc [] = acc
big_endian_from acc (b ∷ bs) = big_endian_from (acc * 256 + b) bs

unfoldable pub set_bytes : Bytes → ℕ
unfolding big_endian_from
set_bytes bs = big_endian_from 0 bs

-- `Bytes`: big-endian with no leading zero, so 0 is the empty string. `rest` follows.
unfoldable pub bytes_onto : (fuel : ℕ) → ℕ → Bytes → Bytes
bytes_onto zero n rest = rest
bytes_onto (suc fuel) n rest =
    let more = bytes_onto fuel (n / 256) ((n % 256) ∷ rest) in if n == 0 then rest else more

-- The fuel is the number itself: each round divides it by 256.
unfoldable pub nat_bytes : ℕ → Bytes
unfolding bytes_onto
nat_bytes n = bytes_onto n n []

-- `|z|`
abbrev pub magnitude : ℤ → ℕ
magnitude (pos n) = n
magnitude (negsuc n) = suc n

unfoldable pub u64_to_byte_array : ℕ → Bytes
u64_to_byte_array n =
    (n / 2 ^ 56 % 256)
    ∷ (n / 2 ^ 48 % 256)
    ∷ (n / 2 ^ 40 % 256)
    ∷ (n / 2 ^ 32 % 256)
    ∷ (n / 2 ^ 24 % 256)
    ∷ (n / 2 ^ 16 % 256)
    ∷ (n / 2 ^ 8 % 256)
    ∷ (n % 256)
    ∷ []

unfoldable pub u16_to_byte_array : ℕ → Bytes
u16_to_byte_array n = (n % 256) ∷ (n / 256 % 256) ∷ []

unfoldable pub byte_array_to_u16 : Bytes → Result ℕ
byte_array_to_u16 [] = ok 0
byte_array_to_u16 (lo ∷ hi ∷ []) = ok (lo + hi * 256)
byte_array_to_u16 _ = err "byte array to uint16 invalid parameters provided"

-- `make([]byte, 8-len(element))` panics for more than eight bytes.
unfoldable pub byte_array_to_int : Bytes → Result ℕ
byte_array_to_int element =
    if leb (length element) 8
    then ok (set_bytes (replicate (8 - length element) 0 ++ element))
    else panic

unfoldable pub bool_to_byte_array : Bool → Bytes
bool_to_byte_array true = 1 ∷ []
bool_to_byte_array false = 0 ∷ []

unfoldable pub byte_array_to_bool : Bytes → Result Bool
byte_array_to_bool [] = panic
byte_array_to_bool (b ∷ _) = ok (b == 1)

-- `result.Neg(&result)`
abbrev pub negate : ℕ → ℤ
negate zero = pos 0
negate (suc n) = negsuc n

unfoldable pub signed_big_int_conversion : Bytes → Result ℤ
signed_big_int_conversion [] = panic
signed_big_int_conversion (sign ∷ rest) =
    if sign == 0
    then ok (pos (set_bytes rest))
    else (if sign == 1 then ok (negate (set_bytes rest)) else err "Invalid signing bit")

unfoldable pub unsigned_big_int_conversion : Bytes → ℕ
unsigned_big_int_conversion ba = set_bytes ba

unfoldable pub signed_byte_array_conversion : ℤ → Bytes
signed_byte_array_conversion (pos n) = 0 ∷ nat_bytes n
signed_byte_array_conversion (negsuc n) = 1 ∷ nat_bytes (suc n)
