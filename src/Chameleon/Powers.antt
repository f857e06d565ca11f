-- ===== src/Chameleon/Powers.antt =====
-- Powers modulo a number, and exponents modulo the order of a generator.
use bazo_miner.Prelude.{
  ℕ, zero, suc, ◌+◌, ◌-◌, ◌*◌, ◌/◌, ◌%◌, ◌^◌, ◌<◌, ◌≡◌, refl, sym, ap, ◌∙◌, arith,
}
use native.Mathlib.Nat.{
  pow-zero, pow-suc, mul_assoc, mul_comm, add-mul, div-add-mod, mul-add-mod_self_left, mod-lt,
  add-mod, mod-add-mod, add-mod-mod, add-mod_right,
}
use bazo_miner.Chameleon.{sub_mod}

pow-add : (a m n : ℕ) → a ^ (m + n) ≡ a ^ m * a ^ n
pow-add a m zero = let same : m + 0 ≡ m = omega arith in rw (same, pow-zero a) (omega arith)
pow-add a m (suc n) =
    let step : a ^ (m + suc n) ≡ a ^ (m + n) * a =
      ap (λ (e : ℕ). a ^ e) (omega arith) ∙ pow-suc a (m + n) in
    rw (step, pow-add a m n, pow-suc a n) (mul_assoc (a ^ m) (a ^ n) a)

pub pow-mul : (a m n : ℕ) → a ^ (m * n) ≡ (a ^ m) ^ n
pow-mul a m zero = ap (λ (e : ℕ). a ^ e) (omega arith) ∙ pow-zero a ∙ sym (pow-zero (a ^ m))
pow-mul a m (suc n) =
    let step : m * suc n ≡ m * n + m = grind arith in
    rw (step, pow-add a (m * n) m, pow-mul a m n, pow-suc (a ^ m) n) refl

pub mul-mod_left : (a b p : ℕ) → a % p * b % p ≡ a * b % p
mul-mod_left a b p =
    let split : a * b ≡ p * (a / p * b) + a % p * b =
      ap (λ (x : ℕ). x * b) (sym (div-add-mod a p))
      ∙ add-mul (p * (a / p)) (a % p) b
      ∙ ap (λ (x : ℕ). x + a % p * b) (mul_assoc p (a / p) b) in
    sym (ap (λ (x : ℕ). x % p) split ∙ mul-add-mod_self_left p (a / p * b) (a % p * b))

mul-mod_right : (a b p : ℕ) → a * (b % p) % p ≡ a * b % p
mul-mod_right a b p =
    ap (λ (x : ℕ). x % p) (mul_comm a (b % p))
    ∙ mul-mod_left b a p
    ∙ ap (λ (x : ℕ). x % p) (mul_comm b a)

pub mul-mod : (a b p : ℕ) → a % p * (b % p) % p ≡ a * b % p
mul-mod a b p = mul-mod_left a (b % p) p ∙ mul-mod_right a b p

pub pow-mod : (a n p : ℕ) → (a % p) ^ n % p ≡ a ^ n % p
pow-mod a zero p = rw (pow-zero (a % p), pow-zero a) refl
pow-mod a (suc n) p =
    rw (pow-suc (a % p) n, pow-suc a n)
      (sym (mul-mod ((a % p) ^ n) (a % p) p)
        ∙ ap (λ (x : ℕ). x * (a % p % p) % p) (pow-mod a n p)
        ∙ mul-mod (a ^ n) (a % p) p
        ∙ mul-mod_right (a ^ n) a p)

one-pow : (n : ℕ) → 1 ^ n ≡ 1
one-pow zero = pow-zero 1
one-pow (suc n) = rw (pow-suc 1 n, one-pow n) refl

-- Exponents count modulo `q`, where `g ^ q` is 1.
pub pow-exponent : (g n p q : ℕ) → g ^ q % p ≡ 1 % p → g ^ (n % q) % p ≡ g ^ n % p
pow-exponent g n p q h =
    let split : g ^ n ≡ (g ^ q) ^ (n / q) * g ^ (n % q) =
      ap (λ (e : ℕ). g ^ e) (sym (div-add-mod n q))
      ∙ pow-add g (q * (n / q)) (n % q)
      ∙ ap (λ (x : ℕ). x * g ^ (n % q)) (pow-mul g q (n / q)) in
    let ones : (g ^ q) ^ (n / q) % p ≡ 1 % p =
      sym (pow-mod (g ^ q) (n / q) p)
      ∙ ap (λ (x : ℕ). x ^ (n / q) % p) h
      ∙ pow-mod 1 (n / q) p
      ∙ ap (λ (x : ℕ). x % p) (one-pow (n / q)) in
    sym (
      ap (λ (x : ℕ). x % p) split
      ∙ sym (mul-mod_left ((g ^ q) ^ (n / q)) (g ^ (n % q)) p)
      ∙ ap (λ (x : ℕ). x * g ^ (n % q) % p) ones
      ∙ mul-mod_left 1 (g ^ (n % q)) p
      ∙ ap (λ (x : ℕ). x % p) (omega arith))

pub mod_mod : (a q : ℕ) → a % q % q ≡ a % q
mod_mod a q =
    ap (λ (x : ℕ). x % q) (omega arith) ∙ mod-add-mod a q 0 ∙ ap (λ (x : ℕ). x % q) (omega arith)

-- What was added is taken away again.
pub sub_mod-add : (q h t : ℕ) → 0 < q → sub_mod q ((h + t) % q) t ≡ h % q
sub_mod-add q h t pos =
    let u = mod-lt t pos in
    ap (λ (x : ℕ). (x + (q - t % q)) % q) (mod_mod (h + t) q)
    ∙ mod-add-mod (h + t) q (q - t % q)
    ∙ sym (mod-add-mod (h + t) q (q - t % q))
    ∙ ap (λ (x : ℕ). (x + (q - t % q)) % q) (add-mod h t q)
    ∙ mod-add-mod (h % q + t % q) q (q - t % q)
    ∙ ap (λ (x : ℕ). x % q) (omega (arith, u))
    ∙ add-mod_right (h % q) q
    ∙ mod_mod h q

pub add-sub_mod : (q k x : ℕ) → 0 < q → (x + sub_mod q k x) % q ≡ k % q
add-sub_mod q k x pos =
    let u = mod-lt x pos in
    add-mod-mod x (k % q + (q - x % q)) q
    ∙ sym (mod-add-mod x q (k % q + (q - x % q)))
    ∙ ap (λ (y : ℕ). y % q) (omega (arith, u))
    ∙ add-mod_right (k % q) q
    ∙ mod_mod k q

-- With the trapdoor, the two factors of the hash make the power of the random number.
pub trapdoor :
    (p q g tk e k : ℕ)
    → 0 < q
    → g ^ q % p ≡ 1 % p
    → (g ^ tk % p) ^ e % p * (g ^ sub_mod q k (e * tk % q) % p) % p ≡ g ^ k % p
trapdoor p q g tk e k pos order =
    let s = sub_mod q k (e * tk % q) in
    let left : (g ^ tk % p) ^ e % p ≡ g ^ (e * tk % q) % p =
      pow-mod (g ^ tk) e p
      ∙ ap (λ (x : ℕ). x % p) (sym (pow-mul g tk e) ∙ ap (λ (x : ℕ). g ^ x) (mul_comm tk e))
      ∙ sym (pow-exponent g (e * tk) p q order) in
    ap (λ (x : ℕ). x * (g ^ s % p) % p) left
    ∙ mul-mod (g ^ (e * tk % q)) (g ^ s) p
    ∙ ap (λ (x : ℕ). x % p) (sym (pow-add g (e * tk % q) s))
    ∙ sym (pow-exponent g (e * tk % q + s) p q order)
    ∙ ap (λ (x : ℕ). g ^ x % p) (add-sub_mod q k (e * tk % q) pos)
    ∙ pow-exponent g k p q order
