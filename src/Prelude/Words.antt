-- ===== src/Prelude/Words.antt =====
-- Go's unsigned machine words: a `uint64`, `uint32` or `uint16` is a number below its modulus, and
-- its sums and differences wrap around.
use bazo_miner.Prelude.{ℕ, ◌+◌, ◌-◌, ◌%◌, ◌^◌, ◌<◌, ◌≤◌, ◌≡◌, arith, ltb, if◌then◌else◌}
use bazo_miner.Prelude.Int.{ℤ, pos, negsuc, ◌-ℤ◌, ◌≤ℤ◌}

abbrev pub u64_mod : ℕ
u64_mod = 2 ^ 64

abbrev pub u32_mod : ℕ
u32_mod = 2 ^ 32

abbrev pub u16_mod : ℕ
u16_mod = 2 ^ 16

unfoldable pub add64 : ℕ → ℕ → ℕ
add64 a b = (a + b) % u64_mod

unfoldable pub sub64 : ℕ → ℕ → ℕ
sub64 a b = (a + (u64_mod - b % u64_mod)) % u64_mod

unfoldable pub add32 : ℕ → ℕ → ℕ
add32 a b = (a + b) % u32_mod

unfoldable pub sub32 : ℕ → ℕ → ℕ
sub32 a b = (a + (u32_mod - b % u32_mod)) % u32_mod

pub add64-lt : (a b : ℕ) → add64 a b < u64_mod
unfolding add64
add64-lt a b = omega arith

pub sub64-lt : (a b : ℕ) → sub64 a b < u64_mod
unfolding sub64
sub64-lt a b = omega arith

pub add32-lt : (a b : ℕ) → add32 a b < u32_mod
unfolding add32
add32-lt a b = omega arith

pub sub32-lt : (a b : ℕ) → sub32 a b < u32_mod
unfolding sub32
sub32-lt a b = omega arith

-- With no carry out of the word the sum is the true sum, and with no borrow the difference.
pub add64_exact : (a b : ℕ) → a + b < u64_mod → add64 a b ≡ a + b
unfolding add64
add64_exact a b h = omega arith

pub sub64_exact : (a b : ℕ) → b ≤ a → a < u64_mod → sub64 a b ≡ a - b
unfolding sub64
sub64_exact a b h k = omega arith

pub sub64-add64 : (a b : ℕ) → a < u64_mod → sub64 (add64 a b) b ≡ a
unfolding sub64 add64
sub64-add64 a b h = omega arith

pub add64-sub64 : (a b : ℕ) → a < u64_mod → add64 (sub64 a b) b ≡ a
unfolding sub64 add64
add64-sub64 a b h = omega arith

pub sub32-add32 : (a b : ℕ) → a < u32_mod → sub32 (add32 a b) b ≡ a
unfolding sub32 add32
sub32-add32 a b h = omega arith

-- Additions and subtractions of a word commute, carries included.
pub add64-add64 : (a b c : ℕ) → add64 (add64 a b) c ≡ add64 (add64 a c) b
unfolding add64
add64-add64 a b c = omega arith

pub sub64-sub64 : (a b c : ℕ) → sub64 (sub64 a b) c ≡ sub64 (sub64 a c) b
unfolding sub64
sub64-sub64 a b c = omega arith

pub sub64-add64_comm : (a b c : ℕ) → sub64 (add64 a b) c ≡ add64 (sub64 a c) b
unfolding sub64 add64
sub64-add64_comm a b c = omega arith

-- An int64 is an integer from -2^63 to 2^63 - 1; its word is the remainder modulo 2^64, and a
-- difference is the number that the word of the true difference stands for.
abbrev pub word64 : ℤ → ℕ
word64 (pos n) = n % u64_mod
word64 (negsuc n) = u64_mod - 1 - n % u64_mod

abbrev pub signed64 : ℕ → ℤ
signed64 w = if ltb w (2 ^ 63) then pos w else negsuc (u64_mod - 1 - w)

unfoldable pub sub_int64 : ℤ → ℤ → ℤ
sub_int64 a b = signed64 (word64 (a -ℤ b))

abbrev pub IsInt64 : ℤ → Type 0
IsInt64 a = (negsuc (2 ^ 63 - 1) ≤ℤ a) × (a ≤ℤ pos (2 ^ 63 - 1))
