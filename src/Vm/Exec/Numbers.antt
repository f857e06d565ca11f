-- ===== src/Vm/Exec/Numbers.antt =====
-- The instructions of vm.go on numbers: arithmetic, comparison and shifts. The operations of
-- `math/big` are those of the integers, with `Div` and `Mod` rounding so that the remainder is not
-- negative, and `Rsh` rounding down.
use bazo_miner.Prelude.{ℕ, suc, ◌-◌, ◌*◌, ◌/◌, ◌%◌, ◌^◌, Bool, not, ◌&&◌, ◌||◌, ◌==◌, if◌then◌else◌}
use bazo_miner.Prelude.Int.{ℤ, pos, negsuc, ◌+ℤ◌, ◌-ℤ◌, ◌*ℤ◌, ltb_ℤ}
use bazo_miner.Vm.Encoding.{bool_to_byte_array, signed_byte_array_conversion, magnitude}
use bazo_miner.Vm.OpCodes.{OpCode}
use bazo_miner.Vm.Machine.{
  Exec, Done, ◌>>=◌, fail, require, fetch, pop_signed_big_int, pop_unsigned_big_int, push_checked,
  push_unchecked,
}

-- x / 0 is not asked for.
abbrev pub mod_ℤ : ℤ → ℤ → ℤ
mod_ℤ (pos n) y = pos (n % magnitude y)
mod_ℤ (negsuc n) y = pos (magnitude y - 1 - n % magnitude y)

-- The quotient by |y|, rounded down.
abbrev pub floor_div : ℤ → ℕ → ℤ
floor_div (pos n) m = pos (n / m)
floor_div (negsuc n) m = negsuc (n / m)

abbrev pub div_ℤ : ℤ → ℤ → ℤ
div_ℤ x (pos m) = floor_div x m
div_ℤ x (negsuc m) = pos 0 -ℤ floor_div x (suc m)

-- `Lsh` shifts the magnitude.
abbrev pub shift_left : ℤ → ℕ → ℤ
shift_left (pos n) k = pos (n * 2 ^ k)
shift_left (negsuc n) k = negsuc (suc n * 2 ^ k - 1)

abbrev pub shift_right : ℤ → ℕ → ℤ
shift_right z k = floor_div z (2 ^ k)

abbrev pub is_zero : ℤ → Bool
is_zero z = magnitude z == 0

-- The right operand is on top. Both are popped before either error is looked at.
unfoldable pub binary : OpCode → (ℤ → ℤ → Exec Done) → Exec Done
binary op f = pop_signed_big_int op >>= λ right. pop_signed_big_int op >>= λ left.
    require op.name right >>= λ r. require op.name left >>= λ l. f l r

unfoldable pub arithmetic : OpCode → (ℤ → ℤ → ℤ) → Exec Done
arithmetic op f = binary op (λ l r. push_checked op.name (signed_byte_array_conversion (f l r)))

unfoldable pub exec_add : OpCode → Exec Done
exec_add op = arithmetic op ◌+ℤ◌

unfoldable pub exec_sub : OpCode → Exec Done
exec_sub op = arithmetic op ◌-ℤ◌

unfoldable pub exec_mult : OpCode → Exec Done
exec_mult op = arithmetic op ◌*ℤ◌

-- DIV and MOD refuse a zero on the right.
unfoldable pub division : OpCode → (ℤ → ℤ → ℤ) → Exec Done
division op f = binary op (λ l r.
    if is_zero r
    then fail op.name "Division by Zero"
    else push_checked op.name (signed_byte_array_conversion (f l r)))

unfoldable pub exec_div : OpCode → Exec Done
exec_div op = division op div_ℤ

unfoldable pub exec_mod : OpCode → Exec Done
exec_mod op = division op mod_ℤ

unfoldable pub exec_neg : OpCode → Exec Done
exec_neg op = pop_signed_big_int op >>= λ tos.
    require op.name tos >>= λ z. push_unchecked (signed_byte_array_conversion (pos 0 -ℤ z))

-- EQ and NEQ read both elements as unsigned numbers.
unfoldable pub unsigned_comparison : OpCode → (ℤ → ℤ → Bool) → Exec Done
unsigned_comparison op test = pop_unsigned_big_int op >>= λ right.
    pop_unsigned_big_int op >>= λ left. require op.name right >>= λ r.
    require op.name left >>= λ l. push_unchecked (bool_to_byte_array (test l r))

abbrev pub eq_ℤ : ℤ → ℤ → Bool
eq_ℤ a b = not (ltb_ℤ a b) && not (ltb_ℤ b a)

unfoldable pub exec_eq : OpCode → Exec Done
exec_eq op = unsigned_comparison op eq_ℤ

unfoldable pub exec_neq : OpCode → Exec Done
exec_neq op = unsigned_comparison op (λ l r. not (eq_ℤ l r))

unfoldable pub comparison : OpCode → (ℤ → ℤ → Bool) → Exec Done
comparison op test = binary op (λ l r. push_unchecked (bool_to_byte_array (test l r)))

unfoldable pub exec_lt : OpCode → Exec Done
exec_lt op = comparison op ltb_ℤ

unfoldable pub exec_gt : OpCode → Exec Done
exec_gt op = comparison op (λ l r. ltb_ℤ r l)

unfoldable pub exec_lte : OpCode → Exec Done
exec_lte op = comparison op (λ l r. ltb_ℤ l r || eq_ℤ l r)

unfoldable pub exec_gte : OpCode → Exec Done
exec_gte op = comparison op (λ l r. ltb_ℤ r l || eq_ℤ l r)

-- The argument is fetched and the number popped before either error is looked at.
unfoldable pub shift : OpCode → (ℤ → ℕ → ℤ) → Exec Done
shift op f = fetch >>= λ shifts. pop_signed_big_int op >>= λ tos. require op.name shifts >>= λ n.
    require op.name tos >>= λ z. push_checked op.name (signed_byte_array_conversion (f z n))

unfoldable pub exec_shiftl : OpCode → Exec Done
exec_shiftl op = shift op shift_left

unfoldable pub exec_shiftr : OpCode → Exec Done
exec_shiftr op = shift op shift_right
