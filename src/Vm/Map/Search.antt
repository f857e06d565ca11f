-- ===== src/Vm/Map/Search.antt =====
-- The searches of vm/map.go: which of them end on every byte array.
use bazo_miner.Prelude.{
  ℕ, zero, suc, ◌+◌, ◌≤◌, ◌≡◌, refl, Bool, true, false, [], ◌∷◌, ◌++◌, length, leb, ltb, ◌==◌,
  arith, ap, ◌&&◌, if◌then◌else◌, take,
}
use bazo_miner.Vm.Result.{Bytes, Result, ok, err, panic, hang, ◌>>=◌, slice, bytes_equal}
use bazo_miner.Vm.Encoding.{byte_array_to_u16}
use bazo_miner.Vm.Map.{
  get_element_size, get_bytes_of_element, get_element, contains_from, get_from, get_val,
  decrement_or_keep, decrement_size, get_size, or_fatal, remove_from, remove,
}

-- The search ends: with a result, an error or a panic.
abbrev pub Ends {ℓ} : {A : Type ℓ} → Result A → Type 0
Ends (ok a) = Unit
Ends (err e) = Unit
Ends panic = Unit
Ends hang = ⊥

bind-Ends :
    {A B : Type 0} (r : Result A) (f : A → Result B)
    → Ends r
    → ((a : A) → r ≡ ok a → Ends (f a))
    → Ends (r >>= f)
bind-Ends (ok a) f h k = k a refl
bind-Ends (err e) f h k = tt
bind-Ends panic f h k = tt
bind-Ends hang f h k = elim h [ ]

if-Ends : {A : Type 0} (b : Bool) (x y : Result A) → Ends x → Ends y → Ends (if b then x else y)
if-Ends true x y h k = h
if-Ends false x y h k = k

slice-Ends : (lo hi : ℕ) (s : Bytes) → Ends (slice lo hi s)
unfolding slice
slice-Ends lo hi s = if-Ends (leb lo hi && leb hi (length s)) _ _ tt tt

u16-Ends : (b : Bytes) → Ends (byte_array_to_u16 b)
unfolding byte_array_to_u16
u16-Ends [] = tt
u16-Ends (x ∷ []) = tt
u16-Ends (x ∷ y ∷ []) = tt
u16-Ends (x ∷ y ∷ z ∷ zs) = tt

get_element_size-Ends : (m : Bytes) (i : ℕ) → Ends (get_element_size m i)
unfolding get_element_size
get_element_size-Ends m i =
    bind-Ends (slice i (i + 2) m) byte_array_to_u16 (slice-Ends i (i + 2) m) (λ b _. u16-Ends b)

get_bytes-Ends : (m : Bytes) (i j : ℕ) → Ends (get_bytes_of_element m i j)
unfolding get_bytes_of_element
get_bytes-Ends m i j = if-Ends (leb j i) _ _ tt (
    if-Ends (ltb (length m) (i + 2)) _ _ tt
      (if-Ends (ltb (length m) j) _ _ tt (slice-Ends (i + 2) j m)))

get_element-Ends : (m : Bytes) (i : ℕ) → Ends (get_element m i)
unfolding get_element
get_element-Ends m i = bind-Ends (get_element_size m i) _ (get_element_size-Ends m i) (λ n _.
    bind-Ends (get_bytes_of_element m i (i + 2 + n)) _ (get_bytes-Ends m i (i + 2 + n)) (λ b _. tt))

bind-ok :
    {A B : Type 0} (r : Result A) (f : A → Result B) {b : B}
    → (r >>= f) ≡ ok b
    → (a : A) × (r ≡ ok a) × (f a ≡ ok b)
bind-ok (ok a) f h = (a, refl, h)
bind-ok (err e) f h = cc
bind-ok panic f h = cc
bind-ok hang f h = cc

abbrev position_or : ℕ → Result (Bytes × ℕ) → ℕ
position_or i (ok p) = p.1
position_or i (err e) = i
position_or i panic = i
position_or i hang = i

-- An element takes its two bytes of size at least.
get_element-behind : (m : Bytes) (i : ℕ) {p : Bytes × ℕ} → get_element m i ≡ ok p → i + 2 ≤ p.1
unfolding get_element
get_element-behind m i h =
    let (n, _, h₁) = bind-ok (get_element_size m i) _ h in
    let (b, _, h₂) = bind-ok (get_bytes_of_element m i (i + 2 + n)) _ h₁ in
    omega (arith, ap (position_or i) h₂)

get_from-Ends :
    (fuel : ℕ) (m key : Bytes) (index : ℕ)
    → length m ≤ index + fuel
    → Ends (get_from (suc fuel) m key index)
unfolding get_from
get_from-Ends zero m key index h =
    let out : ltb index (length m) ≡ false = ground arith in rw out tt
get_from-Ends (suc fuel) m key index h =
    if-Ends (ltb index (length m)) _ _
      (bind-Ends (get_element m index) _ (get_element-Ends m index) (λ (k, i) e₁.
        bind-Ends (get_element m i) _ (get_element-Ends m i) (λ (v, j) e₂.
          if-Ends (bytes_equal key k) _ _ tt (
            if-Ends (index == j) _ _ tt (
              get_from-Ends fuel m key j
                (omega (arith, get_element-behind m index e₁, get_element-behind m i e₂)))))))
      tt

rename-Ends :
    (r : Result ℕ)
    → Ends r
    → Ends (elim r [
      | ok n ↦ ok n
      | err e ↦ err "cannot get size of map"
      | panic ↦ panic
      | hang ↦ hang
    ])
rename-Ends (ok n) h = tt
rename-Ends (err e) h = tt
rename-Ends panic h = tt
rename-Ends hang h = h

keep-Ends :
    (r : Result Bytes) (m : Bytes)
    → Ends r
    → Ends (elim r [ ok b ↦ ok b | err e ↦ ok m | panic ↦ panic | hang ↦ hang ])
keep-Ends (ok b) m h = tt
keep-Ends (err e) m h = tt
keep-Ends panic m h = tt
keep-Ends hang m h = h

get_size-Ends : (m : Bytes) → Ends (get_size m)
unfolding get_size
get_size-Ends m =
    bind-Ends (slice 1 3 m) _ (slice-Ends 1 3 m)
      (λ field _. rename-Ends (byte_array_to_u16 field) (u16-Ends field))

or_fatal-Ends : (r : Result ℕ) → Ends r → Ends (or_fatal r)
or_fatal-Ends (ok n) h = tt
or_fatal-Ends (err e) h = tt
or_fatal-Ends panic h = tt
or_fatal-Ends hang h = h

decrement_size-Ends : (m : Bytes) → Ends (decrement_size m)
unfolding decrement_size
decrement_size-Ends m =
    bind-Ends (or_fatal (get_size m)) _ (or_fatal-Ends (get_size m) (get_size-Ends m))
      (λ n _. if-Ends (n == 0) _ _ tt tt)

decrement-Ends : (m : Bytes) → Ends (decrement_or_keep m)
decrement-Ends m = keep-Ends (decrement_size m) m (decrement_size-Ends m)

remove_from-Ends :
    (fuel : ℕ) (m key : Bytes) (index : ℕ)
    → length m ≤ index + fuel
    → Ends (remove_from (suc fuel) m key index)
unfolding remove_from
remove_from-Ends zero m key index h =
    let out : ltb index (length m) ≡ false = ground arith in rw out tt
remove_from-Ends (suc fuel) m key index h =
    if-Ends (ltb index (length m)) _ _
      (bind-Ends (get_element m index) _ (get_element-Ends m index) (λ (k, i) e₁.
        bind-Ends (get_element_size m i) _ (get_element_size-Ends m i) (λ n e₂.
          if-Ends (bytes_equal key k) _ _
            (bind-Ends (slice (i + 2 + n) (length m) m) _ (slice-Ends (i + 2 + n) (length m) m)
              (λ t _. decrement-Ends (take index m ++ t)))
            (if-Ends (index == (i + 2 + n)) _ _ tt (
              remove_from-Ends fuel m key (i + 2 + n)
                (omega (arith, get_element-behind m index e₁)))))))
      tt

-- `GetVal` and `Remove` end on every byte array, well-formed or not.
pub get_val-remove-Ends : (key m : Bytes) → Ends (get_val key m) × Ends (remove key m)
unfolding get_val remove
get_val-remove-Ends key m = (
  get_from-Ends (length m) m key 3 (omega arith),
  remove_from-Ends (length m) m key 3 (omega arith),
)

-- A map of one key of five bytes that are not there.
abbrev pub broken_map : Bytes
broken_map = 1 ∷ 0 ∷ 0 ∷ 0 ∷ 0 ∷ 0 ∷ 0 ∷ 5 ∷ 0 ∷ []

round_trip :
    (fuel : ℕ) (k : ℕ) (key : Bytes)
    → (contains_from fuel broken_map (k ∷ key) 3 ≡ hang)
      × (contains_from fuel broken_map (k ∷ key) 7 ≡ hang)
unfolding contains_from get_element get_element_size get_bytes_of_element slice byte_array_to_u16
    bytes_equal
round_trip zero k key = (refl, refl)
round_trip (suc fuel) k key = let (h₃, h₇) = round_trip fuel k key in (h₇, h₃)

-- `MapContainsKey` searches a malformed map without end for any key that is not empty: with no
-- number of rounds does it have a result.
pub contains_from-broken_map :
    (fuel k : ℕ) (key : Bytes) → contains_from fuel broken_map (k ∷ key) 3 ≡ hang
contains_from-broken_map fuel k key = (round_trip fuel k key).0
