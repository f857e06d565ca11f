-- ===== src/Vm/Stack/Memory.antt =====
-- The memory accounting of the evaluation stack.
use bazo_miner.Prelude.{
  ℕ, zero, suc, ◌+◌, ◌-◌, ◌≤◌, ◌<◌, ◌≡◌, refl, ap, some, List, [], ◌∷◌, length, get_elem?, arith,
  Option-cases, inl, inr,
}
use mathlib.Core.Option.{some-injective}
use bazo_miner.Prelude.Words.{add32, sub32}
use bazo_miner.Vm.Result.{Bytes}
use bazo_miner.Vm.Stack.{
  Stack, push, pop, pop_index_at, pop_from, has_enough_memory, remove_at, take_out,
}

-- The bytes that a list of elements holds.
abbrev pub bytes_held : List Bytes → ℕ
bytes_held [] = 0
bytes_held (x ∷ xs) = length x + bytes_held xs

-- The counter is the number of bytes on the stack, and that is within the limit.
pub record IsAccounted (s : Stack) : Type 0 where
  pub counted : s.memory_usage ≡ bytes_held s.elements
  pub within : s.memory_usage ≤ s.memory_max
  pub limit_fits : s.memory_max < 2000000

-- An element short enough that no sum carries out of a uint32 is pushed within the limit, or the
-- stack is left alone.
pub push-IsAccounted :
    (element : Bytes) (s : Stack)
    → length element < 4000000000
    → IsAccounted s
    → IsAccounted (push element s).1
unfolding push has_enough_memory add32
push-IsAccounted element s n h = ground arith

pop_from-IsAccounted :
    (es : List Bytes) (s : Stack) → s.elements ≡ es → IsAccounted s → IsAccounted (pop_from es s).1
unfolding pop_from sub32
pop_from-IsAccounted [] s e h = h
pop_from-IsAccounted (x ∷ xs) s e h =
    let held : bytes_held s.elements ≡ length x + bytes_held xs = ap bytes_held e in
    omega (arith, h.counted, h.within, h.limit_fits)

-- `Pop` keeps the counter equal to the bytes on the stack, and within the limit.
pub pop-IsAccounted : (s : Stack) → IsAccounted s → IsAccounted (pop s).1
unfolding pop
pop-IsAccounted s h = pop_from-IsAccounted s.elements s refl h

bytes_held-remove_at :
    (i : ℕ) (es : List Bytes) {x : Bytes}
    → get_elem? es i ≡ some x
    → bytes_held (remove_at i es) + length x ≡ bytes_held es
bytes_held-remove_at i [] h = cc
bytes_held-remove_at zero (y ∷ es) h = omega (arith, ap length (some-injective _ _ h))
bytes_held-remove_at (suc i) (y ∷ es) h = omega (arith, bytes_held-remove_at i es h)

take_out-IsAccounted : (i : ℕ) (s : Stack) → IsAccounted s → IsAccounted (take_out i s).1
take_out-IsAccounted i s h = elim (Option-cases (get_elem? s.elements i)) [
  | inl e ↦ rw (e, take_out) h
  | inr (x, e) ↦
      rw (e, take_out)
        (unfold sub32 in
          omega (arith, bytes_held-remove_at i s.elements e, h.counted, h.within, h.limit_fits))
]

-- So does `PopIndexAt`, at every index.
pub pop_index_at-IsAccounted :
    (i : ℕ) (s : Stack) → IsAccounted s → IsAccounted (pop_index_at i s).1
unfolding pop_index_at
pop_index_at-IsAccounted i s h =
    ground (arith, take_out-IsAccounted (length s.elements - 1 - i) s h)
