-- ===== src/Vm/Array.antt =====
-- vm/array.go. An array is the byte 2, its size in two bytes, then each element behind its length
-- in two bytes. Positions in it are uint16, so they wrap around.
use bazo_miner.Prelude.{
  ℕ, zero, suc, ◌+◌, ◌-◌, ◌/◌, ◌%◌, [], ◌∷◌, ◌++◌, length, take, drop, set, ltb, ◌==◌,
  if◌then◌else◌,
}
use bazo_miner.Prelude.Words.{u16_mod}
use bazo_miner.Vm.Result.{Bytes, Result, ok, err, panic, hang, ◌>>=◌, slice}
use bazo_miner.Vm.Encoding.{byte_array_to_u16, u16_to_byte_array}

abbrev pub add16 : ℕ → ℕ → ℕ
add16 a b = (a + b) % u16_mod

unfoldable pub new_array : Bytes
new_array = 2 ∷ 0 ∷ 0 ∷ []

unfoldable pub array_from_byte_array : Bytes → Result Bytes
array_from_byte_array [] = err "not a valid array"
array_from_byte_array (b ∷ bs) = if b == 2 then ok (b ∷ bs) else err "not a valid array"

-- The second error replaces the message of the conversion, which two bytes never give.
unfoldable pub get_size : Bytes → Result ℕ
get_size a =
    if ltb (length a) 3
    then err "not a valid array"
    else (slice 1 3 a >>= λ field. elim (byte_array_to_u16 field) [
      | ok n ↦ ok n
      | err e ↦ err "cannot get size of array"
      | panic ↦ panic
      | hang ↦ hang
    ])

-- `(*a)[1] = ba[0]` and `(*a)[2] = ba[1]`, on an array that `getSize` accepted.
unfoldable pub set_size : ℕ → Bytes → Bytes
set_size n a = set (set a 1 (n % 256)) 2 (n / 256 % 256)

unfoldable pub increment_size : Bytes → Result Bytes
increment_size a = elim (get_size a) [
  | ok s ↦ ok (set_size (add16 s 1) a)
  | err e ↦ err "could not increase size"
  | panic ↦ panic
  | hang ↦ hang
]

unfoldable pub decrement_size : Bytes → Result Bytes
decrement_size a = do
  s ← get_size a
  if s == 0 then err "Array size is already 0" else ok (set_size (s - 1) a)

-- The rounds that are left of the loop of `goToIndex`: the position of the current element.
unfoldable pub walk : (rounds : ℕ) → Bytes → ℕ → Result (ℕ × ℕ)
walk zero a position = err "array internals error"
walk (suc rounds) a position =
    if ltb position (length a % u16_mod)
    then (do
      field ← slice position (add16 position 2) a
      element_size ← byte_array_to_u16 field
      let further = walk rounds a (add16 position (add16 2 element_size))
      if rounds == 0 then ok (position, element_size) else further)
    else err "array internals error"

-- Where the element at `index` begins, and its size: what `goToIndex` hands to its action. The
-- element at `index` is met in round `index + 1`.
unfoldable pub go_to_index : ℕ → Bytes → Result (ℕ × ℕ)
go_to_index index a = do
  size ← get_size a
  if ltb size index then err "array index out of bounds" else walk (suc index) a 3

unfoldable pub at : ℕ → Bytes → Result Bytes
at index a = do (i, s) ← go_to_index index a; slice (add16 i 2) (add16 (add16 i 2) s) a

unfoldable pub append : Bytes → Bytes → Result Bytes
append ba a =
    if ltb 65535 (length ba)
    then err "Element Size overflow"
    else increment_size (a ++ (u16_to_byte_array (length ba) ++ ba))

unfoldable pub remove : ℕ → Bytes → Result Bytes
remove index a = do
  (k, s) ← go_to_index index a
  rest ← slice (add16 (add16 k 2) s) (length a) a
  decrement_size (take k a ++ rest)

-- The action drops the error of `tmp.Append`, which leaves `tmp` as it is.
abbrev pub append_or_keep : Bytes → Bytes → Result Bytes
append_or_keep element tmp = elim (append element tmp) [
  | ok b ↦ ok b
  | err e ↦ ok tmp
  | panic ↦ panic
  | hang ↦ hang
]

-- The element at `index` is removed, and the new one put before the element that took its place.
unfoldable pub insert : ℕ → Bytes → Bytes → Result Bytes
insert index element a = do
  b ← remove index a
  (i, s) ← go_to_index index b
  tmp ← append_or_keep element (take i b)
  ok (tmp ++ drop i b)
