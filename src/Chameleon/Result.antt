-- ===== src/Chameleon/Result.antt =====
-- The 32 bytes of a hash: a number with fewer bytes stands at the front, as if it were a larger one.
use bazo_miner.Prelude.{
  ℕ, zero, suc, ◌+◌, ◌-◌, ◌*◌, ◌/◌, ◌%◌, ◌^◌, ◌≤◌, ◌<◌, ◌≡◌, refl, sym, ap, ◌∙◌, arith, [], ◌∷◌,
  ◌++◌, true, false, take, replicate, length, length-append, ◌==◌, Bool-cases, inl, inr,
}
use mathlib.Core.List.{append_assoc, append-nil}
use native.Mathlib.Nat.{pow-zero, pow-suc, one-le-pow}
use bazo_miner.Ledger.Types.{Bytes}
use bazo_miner.Vm.Encoding.{set_bytes, nat_bytes, big_endian_from, bytes_onto}
use bazo_miner.Vm.Encoding.Laws.{set_bytes-nat_bytes}
use bazo_miner.Chameleon.{to_result}

abbrev zeros : ℕ → Bytes
zeros n = replicate n 0

big_endian-append :
    (acc : ℕ) (bs cs : Bytes)
    → big_endian_from acc (bs ++ cs) ≡ big_endian_from (big_endian_from acc bs) cs
unfolding big_endian_from
big_endian-append acc [] cs = refl
big_endian-append acc (b ∷ bs) cs = big_endian-append (acc * 256 + b) bs cs

big_endian-zeros : (acc j : ℕ) → big_endian_from acc (zeros j) ≡ acc * 256 ^ j
unfolding big_endian_from
big_endian-zeros acc zero = rw (pow-zero 256) (omega arith)
big_endian-zeros acc (suc j) = rw (big_endian-zeros (acc * 256 + 0) j, pow-suc 256 j) (grind arith)

-- Fuel above the number changes nothing.
bytes_onto-fuel :
    (f f' n : ℕ) (rest : Bytes) → n ≤ f → n ≤ f' → bytes_onto f n rest ≡ bytes_onto f' n rest
unfolding bytes_onto
bytes_onto-fuel zero zero n rest h k = refl
bytes_onto-fuel zero (suc f') n rest h k = let e : (n == 0) ≡ true = ground arith in rw e refl
bytes_onto-fuel (suc f) zero n rest h k = let e : (n == 0) ≡ true = ground arith in rw e refl
bytes_onto-fuel (suc f) (suc f') n rest h k = elim (Bool-cases (n == 0)) [
  | inl e ↦ rw e refl
  | inr e ↦ rw e (bytes_onto-fuel f f' (n / 256) ((n % 256) ∷ rest) (ground arith) (ground arith))
]

bytes_onto-append :
    (f n : ℕ) (rest more : Bytes) → bytes_onto f n (rest ++ more) ≡ bytes_onto f n rest ++ more
unfolding bytes_onto
bytes_onto-append zero n rest more = refl
bytes_onto-append (suc f) n rest more = elim (Bool-cases (n == 0)) [
  | inl e ↦ rw e refl
  | inr e ↦ rw e (bytes_onto-append f (n / 256) ((n % 256) ∷ rest) more)
]

-- A byte of zero behind.
nat_bytes-shift : (n : ℕ) → nat_bytes (suc n * 256) ≡ nat_bytes (suc n) ++ 0 ∷ []
unfolding nat_bytes bytes_onto
nat_bytes-shift n =
    let some_left : suc n * 256 ≡ suc (n * 256 + 255) = omega arith in
    let here : suc (n * 256 + 255) / 256 ≡ suc n = omega arith in
    let last : suc (n * 256 + 255) % 256 ≡ 0 = omega arith in
    let not_zero : (suc (n * 256 + 255) == 0) ≡ false = ground arith in
    rw (some_left, not_zero, here, last)
      (bytes_onto-fuel (n * 256 + 255) (suc n) (suc n) (0 ∷ []) (omega arith) (omega arith)
        ∙ bytes_onto-append (suc n) (suc n) [] (0 ∷ []))

length-zeros : (j : ℕ) → length (zeros j) ≡ j
length-zeros zero = refl
length-zeros (suc j) = omega (arith, length-zeros j)

zeros-last : (j : ℕ) → 0 ∷ zeros j ≡ zeros j ++ 0 ∷ []
zeros-last zero = refl
zeros-last (suc j) = ap (λ (bs : Bytes). 0 ∷ bs) (zeros-last j)

nat_bytes-shift_pos : (x : ℕ) → 0 < x → nat_bytes (x * 256) ≡ nat_bytes x ++ 0 ∷ []
nat_bytes-shift_pos zero h = absurd (omega arith)
nat_bytes-shift_pos (suc n) h = nat_bytes-shift n

nat_bytes-shifts : (n j : ℕ) → 0 < n → nat_bytes (n * 256 ^ j) ≡ nat_bytes n ++ zeros j
nat_bytes-shifts n zero h =
    let one : n * 256 ^ 0 ≡ n = rw (pow-zero 256) (omega arith) in
    rw one (sym (append-nil (nat_bytes n)))
nat_bytes-shifts n (suc j) h =
    let more : n * 256 ^ suc j ≡ n * 256 ^ j * 256 = rw (pow-suc 256 j) (grind arith) in
    let some_left : 0 < n * 256 ^ j = grind (arith, one-le-pow j 256 (omega arith)) in
    rw (more, nat_bytes-shift_pos (n * 256 ^ j) some_left, nat_bytes-shifts n j h)
      (append_assoc (nat_bytes n) (zeros j) (0 ∷ [])
        ∙ ap (λ (bs : Bytes). nat_bytes n ++ bs) (sym (zeros-last j)))

length-bytes_onto :
    (k f n : ℕ) (rest : Bytes) → n < 256 ^ k → length (bytes_onto f n rest) ≤ k + length rest
unfolding bytes_onto
length-bytes_onto k zero n rest h = omega arith
length-bytes_onto zero (suc f) n rest h =
    let e : (n == 0) ≡ true = ground (arith, pow-zero 256) in rw e (omega arith)
length-bytes_onto (suc k) (suc f) n rest h = elim (Bool-cases (n == 0)) [
  | inl e ↦ rw e (omega arith)
  | inr e ↦ rw e (
      omega
        (arith, length-bytes_onto k f (n / 256) ((n % 256) ∷ rest) (omega (arith, pow-suc 256 k))))
]

take-zeros :
    (n j m : ℕ) (bs : Bytes) → n ≡ length bs + j → j ≤ m → take n (bs ++ zeros m) ≡ bs ++ zeros j
take-zeros zero zero m [] e h = refl
take-zeros (suc n) (suc j) (suc m) [] e h =
    ap (λ (bs : Bytes). 0 ∷ bs) (take-zeros n j m [] (omega arith) (omega arith))
take-zeros (suc n) j m (b ∷ bs) e h =
    ap (λ (cs : Bytes). b ∷ cs) (take-zeros n j m bs (omega arith) h)
take-zeros zero (suc j) m [] e h = absurd (omega arith)
take-zeros (suc n) zero m [] e h = absurd (omega arith)
take-zeros (suc n) (suc j) zero [] e h = absurd (omega arith)
take-zeros zero j m (b ∷ bs) e h = absurd (omega arith)

length-nat_bytes : (h : ℕ) → h < 256 ^ 32 → length (nat_bytes h) ≤ 32
unfolding nat_bytes
length-nat_bytes h k = omega (arith, length-bytes_onto 32 h h [] k)

to_result-zeros :
    (h : ℕ) → h < 256 ^ 32 → to_result h ≡ nat_bytes h ++ zeros (32 - length (nat_bytes h))
unfolding to_result
to_result-zeros h k =
    let fits = length-nat_bytes h k in
    take-zeros 32 (32 - length (nat_bytes h)) 32 (nat_bytes h) (omega (arith, fits)) (omega arith)

set_bytes-to_result :
    (h : ℕ) → h < 256 ^ 32 → set_bytes (to_result h) ≡ h * 256 ^ (32 - length (nat_bytes h))
set_bytes-to_result h k =
    ap set_bytes (to_result-zeros h k)
    ∙ unfold set_bytes in
      (big_endian-append 0 (nat_bytes h) (zeros (32 - length (nat_bytes h)))
        ∙ big_endian-zeros (big_endian_from 0 (nat_bytes h)) (32 - length (nat_bytes h)))
      ∙ ap (λ (x : ℕ). x * 256 ^ (32 - length (nat_bytes h))) (set_bytes-nat_bytes h)

to_result_lem : (h : ℕ) → to_result h ≡ take 32 (nat_bytes h ++ zeros 32)
unfolding to_result
to_result_lem h = refl

-- The number that a hash spells has the same 32 bytes.
pub to_result-set_bytes : (h : ℕ) → h < 256 ^ 32 → to_result (set_bytes (to_result h)) ≡ to_result h
to_result-set_bytes zero k = unfold to_result set_bytes nat_bytes big_endian_from bytes_onto in refl
to_result-set_bytes (suc n) k =
    let bs = nat_bytes (suc n) in
    let j = 32 - length bs in
    let fits = length-nat_bytes (suc n) k in
    let spelt : nat_bytes (set_bytes (to_result (suc n))) ≡ bs ++ zeros j =
      ap nat_bytes (set_bytes-to_result (suc n) k) ∙ nat_bytes-shifts (suc n) j (omega arith) in
    let whole : 32 ≡ length (bs ++ zeros j) + 0 =
      omega (arith, fits, length-append bs (zeros j), length-zeros j) in
    to_result_lem (set_bytes (to_result (suc n)))
    ∙ ap (λ (cs : Bytes). take 32 (cs ++ zeros 32)) spelt
    ∙ take-zeros 32 0 32 (bs ++ zeros j) whole (omega arith)
    ∙ append-nil (bs ++ zeros j)
    ∙ sym (to_result-zeros (suc n) k)
