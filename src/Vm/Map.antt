-- ===== src/Vm/Map.antt =====
-- vm/map.go. A map is the byte 1, its size in two bytes, then the entries: each key and each value
-- behind its length in two bytes. The loops over the entries run on fuel: an entry is at least four
-- bytes, so a map has fewer entries than bytes, and the fuel is its length.
pub mod Search
use bazo_miner.Prelude.{
  ℕ, zero, suc, ◌+◌, ◌-◌, ◌/◌, ◌%◌, Bool, true, false, [], ◌∷◌, ◌++◌, length, take, set, leb, ltb,
  ◌==◌, if◌then◌else◌,
}
use bazo_miner.Prelude.Words.{u16_mod}
use bazo_miner.Vm.Result.{Bytes, Result, ok, err, panic, hang, ◌>>=◌, slice, bytes_equal}
use bazo_miner.Vm.Encoding.{byte_array_to_u16, u16_to_byte_array}

unfoldable pub new_map : Bytes
new_map = 1 ∷ 0 ∷ 0 ∷ []

unfoldable pub map_from_byte_array : Bytes → Result Bytes
map_from_byte_array [] = err "empty map"
map_from_byte_array (b ∷ bs) = if b == 1 then ok (b ∷ bs) else err "invalid datatype supplied"

unfoldable pub get_size : Bytes → Result ℕ
get_size m = slice 1 3 m >>= λ field. elim (byte_array_to_u16 field) [
  | ok n ↦ ok n
  | err e ↦ err "cannot get size of map"
  | panic ↦ panic
  | hang ↦ hang
]

-- `(*m)[1] = ba[0]` and `(*m)[2] = ba[1]`, on a map whose size was read.
unfoldable pub set_size : ℕ → Bytes → Bytes
set_size n m = set (set m 1 (n % 256)) 2 (n / 256 % 256)

-- `log.Fatal` ends the process.
abbrev pub or_fatal : {A : Type 0} → Result A → Result A
or_fatal (ok a) = ok a
or_fatal (err e) = panic
or_fatal panic = panic
or_fatal hang = hang

unfoldable pub increment_size : Bytes → Result Bytes
increment_size m = do s ← or_fatal (get_size m); ok (set_size ((s + 1) % u16_mod) m)

unfoldable pub decrement_size : Bytes → Result Bytes
decrement_size m = do
  s ← or_fatal (get_size m)
  if s == 0 then err "Map size already 0" else ok (set_size (s - 1) m)

abbrev pub next_element_starts_at : ℕ → ℕ → ℕ
next_element_starts_at index element_size = index + 2 + element_size

unfoldable pub get_element_size : Bytes → ℕ → Result ℕ
get_element_size m index = do field ← slice index (index + 2) m; byte_array_to_u16 field

unfoldable pub get_bytes_of_element : Bytes → ℕ → ℕ → Result Bytes
get_bytes_of_element m starts_at ends_before =
    if leb ends_before starts_at
    then err "can't retrieve element"
    else (if ltb (length m) (starts_at + 2)
        then err "map internals error"
        else (if ltb (length m) ends_before
            then err "map internals error"
            else slice (starts_at + 2) ends_before m))

-- The element and the position behind it.
unfoldable pub get_element : Bytes → ℕ → Result (Bytes × ℕ)
get_element m starts_at = do
  size ← get_element_size m starts_at
  let ends_before = next_element_starts_at starts_at size
  element ← get_bytes_of_element m starts_at ends_before
  ok (element, ends_before)

-- `MapContainsKey` goes on with an empty key and position 0 where `getElement` returned an error.
abbrev pub or_empty : Result (Bytes × ℕ) → Result (Bytes × ℕ)
or_empty (ok p) = ok p
or_empty (err e) = ok ([], 0)
or_empty panic = panic
or_empty hang = hang

unfoldable pub contains_from : (fuel : ℕ) → Bytes → Bytes → ℕ → Result Bool
contains_from zero m key index = hang
contains_from (suc fuel) m key index =
    if ltb index (length m)
    then (do
      (k, key_ends_before) ← or_empty (get_element m index)
      size_of_value ← get_element_size m key_ends_before
      let value_ends_before = next_element_starts_at key_ends_before size_of_value
      let rest = contains_from fuel m key value_ends_before
      if bytes_equal key k
          then ok true
          else (if index == value_ends_before then err "element sizes are 0" else rest))
    else ok false

unfoldable pub map_contains_key : Bytes → Bytes → Result Bool
map_contains_key key m = contains_from (suc (length m)) m key 3

unfoldable pub append : Bytes → Bytes → Bytes → Result Bytes
append key value m =
    if ltb 65535 (length key)
    then err "key or value size overflows uint16"
    else (if ltb 65535 (length value)
        then err "key or value size overflows uint16"
        else increment_size (
            m
            ++ (u16_to_byte_array (length key)
                ++ (key ++ (u16_to_byte_array (length value) ++ value)))))

unfoldable pub get_from : (fuel : ℕ) → Bytes → Bytes → ℕ → Result Bytes
get_from zero m key index = hang
get_from (suc fuel) m key index =
    if ltb index (length m)
    then (do
      (k, value_starts_at) ← get_element m index
      (v, next_element) ← get_element m value_starts_at
      let rest = get_from fuel m key next_element
      if bytes_equal key k
          then ok v
          else (if index == next_element then err "element sizes are 0" else rest))
    else err "key not found"

unfoldable pub get_val : Bytes → Bytes → Result Bytes
get_val key m = get_from (suc (length m)) m key 3

-- The entry is cut out; the error of `DecrementSize` is dropped, and the size then stays.
abbrev pub decrement_or_keep : Bytes → Result Bytes
decrement_or_keep m = elim (decrement_size m) [
  | ok b ↦ ok b
  | err e ↦ ok m
  | panic ↦ panic
  | hang ↦ hang
]

unfoldable pub remove_from : (fuel : ℕ) → Bytes → Bytes → ℕ → Result Bytes
remove_from zero m key index = hang
remove_from (suc fuel) m key index =
    if ltb index (length m)
    then (do
      (k, key_ends_before) ← get_element m index
      size_of_value ← get_element_size m key_ends_before
      let value_ends_before = next_element_starts_at key_ends_before size_of_value
      let rest = remove_from fuel m key value_ends_before
      let cut =
          slice value_ends_before (length m) m >>= λ tail. decrement_or_keep (take index m ++ tail)
      if bytes_equal key k
          then cut
          else (if index == value_ends_before then err "element sizes are 0" else rest))
    else err "key not found"

unfoldable pub remove : Bytes → Bytes → Result Bytes
remove key m = remove_from (suc (length m)) m key 3

-- `err := m.Remove(key)` is looked at after `m.Append`, whose own error is dropped: the error of the
-- removal wins.
unfoldable pub set_val : Bytes → Bytes → Bytes → Result Bytes
set_val key value m = elim (remove key m) [
  | ok b ↦ elim (append key value b) [ ok c ↦ ok c | err e ↦ ok b | panic ↦ panic | hang ↦ hang ]
  | err e ↦ elim (append key value m) [ ok c ↦ err e | err f ↦ err e | panic ↦ panic | hang ↦ hang ]
  | panic ↦ panic
  | hang ↦ hang
]
