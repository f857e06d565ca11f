-- ===== src/Merkle/Power.antt =====
-- The powers of two below a length.
use bazo_miner.Prelude.{
  ℕ, zero, suc, ◌/◌, ◌%◌, ◌≤◌, ◌≡◌, refl, true, arith, Bool-cases, inl, inr, ◌==◌,
}
use bazo_miner.Merkle.{halves, check_power2, shrink}

-- A power of two that is not 1 is even, and half of it is one.
halves-even :
    (fuel n : ℕ) → halves (suc fuel) n ≡ true → 2 ≤ n → (n % 2 ≡ 0) × (halves fuel (n / 2) ≡ true)
unfolding halves
halves-even fuel n h k = ground arith

halves-quarter : (fuel n : ℕ) → halves fuel n ≡ true → 4 ≤ n → n % 4 ≡ 0
halves-quarter zero n h k = unfold halves in cc
halves-quarter (suc zero) n h k =
    let (e, h₁) = halves-even zero n h (omega arith) in unfold halves in cc
halves-quarter (suc (suc fuel)) n h k =
    let (e, h₁) = halves-even (suc fuel) n h (omega arith) in
    let (e₁, _) = halves-even fuel (n / 2) h₁ (omega arith) in omega arith

check_power2-quarter : (n : ℕ) → check_power2 n ≡ true → 4 ≤ n → n % 4 ≡ 0
unfolding check_power2
check_power2-quarter n h k = halves-quarter n n (ground arith) k

pub shrink-le : (n : ℕ) → shrink n ≤ n
unfolding shrink
shrink-le zero = omega arith
shrink-le (suc n) = ground (arith, shrink-le n)

shrink-IsPower : (n : ℕ) → check_power2 (shrink n) ≡ true
unfolding shrink
shrink-IsPower zero = unfold check_power2 in refl
shrink-IsPower (suc n) = elim (Bool-cases (check_power2 (suc n))) [
  | inl e ↦ rw e e
  | inr e ↦ rw e (shrink-IsPower n)
]

-- No power of two that fits is passed over.
shrink-ge : (p n : ℕ) → check_power2 p ≡ true → p ≤ n → p ≤ shrink n
unfolding shrink
shrink-ge p zero h k = k
shrink-ge p (suc n) h k = elim (Bool-cases (check_power2 (suc n))) [
  | inl e ↦ rw e k
  | inr e ↦ elim (Bool-cases (p == suc n)) [
    | inl q ↦ let same : p ≡ suc n = ground arith in cc
    | inr q ↦ rw e (shrink-ge p n h (ground arith))
  ]
]

pub shrink-two : shrink 2 ≡ 2
unfolding shrink check_power2 halves
shrink-two = refl

-- From four nodes on a multiple of four nodes is paired.
pub shrink-quarter : (n : ℕ) → 4 ≤ n → (4 ≤ shrink n) × (shrink n % 4 ≡ 0)
unfolding check_power2 halves
shrink-quarter n h =
    let big = shrink-ge 4 n refl h in (big, check_power2-quarter (shrink n) (shrink-IsPower n) big)
