-- ===== src/Vm/Stack.antt =====
-- vm/stack.go and vm/call_stack.go. A stack is the list of its elements, the top one first.
pub mod Memory
use bazo_miner.Prelude.{
  ℕ, zero, suc, ◌+◌, ◌-◌, ◌%◌, Bool, true, false, Option, none, some, List, [], ◌∷◌, length,
  get_elem?, leb, ltb, if◌then◌else◌,
}
use bazo_miner.Prelude.Int.{ℤ}
use bazo_miner.Prelude.Assoc.{Assoc}
use bazo_miner.Prelude.Words.{add32, sub32, u32_mod}
use bazo_miner.Vm.Result.{Bytes, Result, ok, err, panic, Done}

pub record Stack : Type 0 where
  pub elements : List Bytes
  pub memory_usage : ℕ
  pub memory_max : ℕ

abbrev pub new_stack : Stack
new_stack = record { elements = []; memory_usage = 0; memory_max = 1000000 }

-- `uint32(elementSize)+s.memoryUsage` is a sum of words.
unfoldable pub has_enough_memory : ℕ → Stack → Bool
has_enough_memory element_size s = leb (add32 (element_size % u32_mod) s.memory_usage) s.memory_max

unfoldable pub push : Bytes → Stack → Result Done × Stack
push element s =
    if has_enough_memory (length element) s
    then (
      ok tt,
      record s {
        elements = element ∷ s.elements;
        memory_usage = add32 s.memory_usage (length element % u32_mod);
      },
    )
    else (err "Stack out of memory", s)

abbrev pub remove_at : ℕ → List Bytes → List Bytes
remove_at i [] = []
remove_at zero (x ∷ xs) = xs
remove_at (suc i) (x ∷ xs) = x ∷ remove_at i xs

-- The element at a place from the top, taken out.
abbrev pub take_out : ℕ → Stack → Result Bytes × Stack
take_out place s = elim (get_elem? s.elements place) [
  | none ↦ (panic, s)
  | some element ↦ (
    ok element,
    record s {
      elements = remove_at place s.elements;
      memory_usage = sub32 s.memory_usage (length element % u32_mod);
    },
  )
]

-- `index` counts from the bottom. The test lets `index` be the length, where the access panics.
unfoldable pub pop_index_at : ℕ → Stack → Result Bytes × Stack
pop_index_at index s =
    if leb index (length s.elements)
    then (if ltb index (length s.elements)
        then take_out (length s.elements - 1 - index) s
        else (panic, s))
    else (err "index out of bounds", s)

pop_from : List Bytes → Stack → Result Bytes × Stack
pop_from [] s = (err "pop() on empty stack", s)
pop_from (element ∷ rest) s = (
  ok element,
  record s { elements = rest; memory_usage = sub32 s.memory_usage (length element % u32_mod) },
)

unfoldable pub pop : Stack → Result Bytes × Stack
unfolding pop_from
pop s = pop_from s.elements s

peek_from : List Bytes → Result Bytes
peek_from [] = err "peek() on empty Stack"
peek_from (element ∷ _) = ok element

unfoldable pub peek_bytes : Stack → Result Bytes
unfolding peek_from
peek_bytes s = peek_from s.elements

pub record Frame : Type 0 where
  pub variables : Assoc ℤ
  pub return_address : ℕ

-- `CallStack.Peek` and `CallStack.Pop`; the latest frame comes first.
unfoldable pub peek_frame : List Frame → Result Frame
peek_frame [] = err "peek() on empty callStack"
peek_frame (f ∷ _) = ok f

unfoldable pub pop_frame : List Frame → Result Frame × List Frame
pop_frame [] = (err "pop() on empty callStack", [])
pop_frame (f ∷ fs) = (ok f, fs)
