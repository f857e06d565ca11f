-- ===== src/Chameleon/Digits.antt =====
-- Numbers as hexadecimal text, and as the 32 bytes of a hash.
use bazo_miner.Prelude.{
  ℕ, zero, suc, ◌+◌, ◌*◌, ◌/◌, ◌%◌, ◌≤◌, ◌<◌, ◌≡◌, ◌≢◌, refl, ap, ◌∙◌, arith, [], ◌∷◌, ◌++◌, some,
  false, replicate, ◌==◌, Bool-cases, inl, inr,
}
use bazo_miner.Ledger.Types.{Bytes}
use bazo_miner.Vm.Encoding.{big_endian_from}
use bazo_miner.Chameleon.{hex_digit, hex_onto, to_hex, digit_value, read_hex, set_string}

digit_value-hex_digit : (d : ℕ) → d < 16 → digit_value (hex_digit d) ≡ some d
digit_value-hex_digit d h = ground arith

read-hex_onto :
    (fuel n : ℕ) (rest : Bytes) → n ≤ fuel → read_hex (hex_onto fuel n rest) 0 ≡ read_hex rest n
read-hex_onto zero n rest h = ap (read_hex rest) (omega arith)
read-hex_onto (suc fuel) n rest h = elim (Bool-cases (n == 0)) [
  | inl e ↦ rw e (ap (read_hex rest) (ground arith))
  | inr e ↦ rw e (
      read-hex_onto fuel (n / 16) (hex_digit (n % 16) ∷ rest) (ground arith)
      ∙ rw (digit_value-hex_digit (n % 16) (omega arith)) (ap (read_hex rest) (omega arith)))
]

set_string-cons : (bs : Bytes) → bs ≢ [] → set_string bs ≡ read_hex bs 0
unfolding set_string
set_string-cons [] h = absurd (h refl)
set_string-cons (c ∷ cs) h = refl

hex_onto-ne-nil : (fuel n d : ℕ) (rest : Bytes) → hex_onto fuel n (d ∷ rest) ≢ []
hex_onto-ne-nil zero n d rest = λ h. cc
hex_onto-ne-nil (suc fuel) n d rest = elim (Bool-cases (n == 0)) [
  | inl e ↦ rw e (λ h. cc)
  | inr e ↦ rw e (hex_onto-ne-nil fuel (n / 16) (hex_digit (n % 16)) (d ∷ rest))
]

hex_onto-ne-nil_pos : (n : ℕ) → (n == 0) ≡ false → hex_onto n n [] ≢ []
hex_onto-ne-nil_pos zero e = ground arith
hex_onto-ne-nil_pos (suc n) e = rw e (hex_onto-ne-nil n (suc n / 16) (hex_digit (suc n % 16)) [])

-- What "%x" prints is read as the same number.
pub set_string-to_hex : (n : ℕ) → set_string (to_hex n) ≡ some n
unfolding to_hex
set_string-to_hex n = elim (Bool-cases (n == 0)) [
  | inl e ↦ rw e (set_string-cons (b'0' ∷ []) (λ h. cc) ∙ ap some (ground arith))
  | inr e ↦ rw e (
      set_string-cons (hex_onto n n []) (hex_onto-ne-nil_pos n e)
      ∙ read-hex_onto n n [] (omega arith))
]

abbrev zeros : ℕ → Bytes
zeros n = replicate n 0

big_endian-append :
    (acc : ℕ) (bs cs : Bytes)
    → big_endian_from acc (bs ++ cs) ≡ big_endian_from (big_endian_from acc bs) cs
unfolding big_endian_from
big_endian-append acc [] cs = refl
big_endian-append acc (b ∷ bs) cs = big_endian-append (acc * 256 + b) bs cs
