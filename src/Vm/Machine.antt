-- ===== src/Vm/Machine.antt =====
-- The machine of vm/vm.go, calls on it as a monad, and the operations that every instruction is
-- made of. `fee` is the gas that is left, a uint64.
use Prim.Native.String.{String}
use bazo_miner.Prelude.{
  ℕ, ◌+◌, ◌*◌, ◌/◌, ◌^◌, Bool, false, none, some, List, ◌++◌, length, get_elem?, take, drop, leb,
  ltb, if◌then◌else◌,
}
use bazo_miner.Prelude.Int.{ℤ, pos}
use bazo_miner.Prelude.Words.{sub64}
use bazo_miner.Vm.Result.{Bytes, Result, text}
use bazo_miner.Vm.Encoding.{signed_big_int_conversion, unsigned_big_int_conversion}
use bazo_miner.Vm.Stack.{Stack, Frame}
use bazo_miner.Vm.Stack
use bazo_miner.Vm.Context.{Context}
use bazo_miner.Vm.OpCodes.{OpCode}

pub record Vm : Type 0 where
  pub code : Bytes
  pub pc : ℕ
  pub fee : ℕ
  pub stack : Stack
  pub call_stack : List Frame
  pub context : Context

-- An instruction goes on with a value, ends the run with its result, panics, or hangs.
pub data Flow (A : Type 0) : Type 0 where
  value : A → Flow A
  stop : Bool → Flow A
  panic : Flow A
  hang : Flow A

abbrev pub Exec : Type 0 → Type 0
Exec A = Vm → Flow A × Vm

abbrev pub Done : Type 0
Done = Unit {0}

abbrev pub pure : {A : Type 0} → A → Exec A
pure a vm = (value a, vm)

abbrev pub after : {A B : Type 0} → Flow A × Vm → (A → Exec B) → Flow B × Vm
after (value a, vm) f = f a vm
after (stop b, vm) f = (stop b, vm)
after (panic, vm) f = (panic, vm)
after (hang, vm) f = (hang, vm)

infixl 5 ◌>>=◌ ◌>>◌
unfoldable pub ◌>>=◌ : {A B : Type 0} → Exec A → (A → Exec B) → Exec B
◌>>=◌ m f vm = after (m vm) f

unfoldable pub ◌>>◌ : {B : Type 0} → Exec Done → Exec B → Exec B
unfolding ◌>>=◌
m >> k = m >>= λ _. k

-- A part of the machine that is read.
unfoldable pub gets : {A : Type 0} → (Vm → A) → Exec A
gets f vm = (value (f vm), vm)

unfoldable pub set_pc : ℕ → Exec Done
set_pc n vm = (value tt, record vm { pc = n })

unfoldable pub set_frames : List Frame → Exec Done
set_frames fs vm = (value tt, record vm { call_stack = fs })

unfoldable pub set_context : Context → Exec Done
set_context c vm = (value tt, record vm { context = c })

-- `vm.evaluationStack.Push`
unfoldable pub push : Bytes → Exec (Result Done)
push element vm = let (r, s) = Stack.push element vm.stack in (value r, record vm { stack = s })

unfoldable pub pop_index_at : ℕ → Exec (Result Bytes)
pop_index_at index vm =
    let (r, s) = Stack.pop_index_at index vm.stack in (value r, record vm { stack = s })

-- The error exit: the message goes on the stack, as far as it fits, and the run returns false.
unfoldable pub fail_with : {A : Type 0} → Bytes → Exec A
fail_with message vm = (stop false, record vm { stack = (Stack.push message vm.stack).1 })

-- "name: message"
unfoldable pub fail : {A : Type 0} → String → String → Exec A
fail name message = fail_with (text name ++ (text ": " ++ text message))

-- `checkErrors` and `if err != nil`: a value is handed on.
unfoldable pub require : {A : Type 0} → String → Result A → Exec A
require name (Result.ok a) vm = (value a, vm)
require name (Result.err e) vm = fail name e vm
require name Result.panic vm = (panic, vm)
require name Result.hang vm = (hang, vm)

-- A Go panic or a loop without end happens where the call stands; an error is a value.
unfoldable pub settle : {A : Type 0} → Result A → Exec (Result A)
settle (Result.ok a) vm = (value (Result.ok a), vm)
settle (Result.err e) vm = (value (Result.err e), vm)
settle Result.panic vm = (panic, vm)
settle Result.hang vm = (hang, vm)

unfoldable pub fetch : Exec (Result ℕ)
fetch vm = elim (get_elem? vm.code vm.pc) [
  | none ↦ (value (Result.err "Instruction set out of bounds"), vm)
  | some b ↦ (value (Result.ok b), record vm { pc = vm.pc + 1 })
]

-- `len(vm.code)-tempPc > argument`: the last bytes of the code are never an argument.
unfoldable pub fetch_many : ℕ → Exec (Result Bytes)
fetch_many argument vm =
    if ltb (vm.pc + argument) (length vm.code)
    then (
      value (Result.ok (take argument (drop vm.pc vm.code))),
      record vm { pc = vm.pc + argument },
    )
    else (value (Result.err "Instruction set out of bounds"), vm)

abbrev pub gas_cost : ℕ → Bytes → ℕ
gas_cost gas_factor bytes = gas_factor * ((length bytes + 63) / 64)

-- `int64(vm.fee-gasCost) < 0`, then the charge.
unfoldable pub charge : ℕ → Bytes → Exec (Result Bytes)
charge gas_factor bytes vm =
    let left = sub64 vm.fee (gas_cost gas_factor bytes) in
    if leb (2 ^ 63) left
    then (value (Result.err "Out of gas"), vm)
    else (value (Result.ok bytes), record vm { fee = left })

-- `evaluationStack.Pop`
unfoldable pub pop_element : Exec (Result Bytes)
pop_element vm = let (r, s) = Stack.pop vm.stack in (value r, record vm { stack = s })

unfoldable pub on_ok : {A B : Type 0} → Result A → (A → Exec (Result B)) → Exec (Result B)
on_ok (Result.ok a) f vm = f a vm
on_ok (Result.err e) f vm = (value (Result.err e), vm)
on_ok Result.panic f vm = (panic, vm)
on_ok Result.hang f vm = (hang, vm)

-- The element leaves the stack even where the gas does not suffice.
unfoldable pub pop_bytes : OpCode → Exec (Result Bytes)
pop_bytes op = pop_element >>= λ r. on_ok r (charge op.gas_factor)

-- The conversion of an empty element panics.
unfoldable pub pop_signed_big_int : OpCode → Exec (Result ℤ)
pop_signed_big_int op =
    pop_bytes op >>= λ r. on_ok r (λ bytes. settle (signed_big_int_conversion bytes))

unfoldable pub pop_unsigned_big_int : OpCode → Exec (Result ℤ)
pop_unsigned_big_int op = pop_bytes op >>= λ r.
    on_ok r (λ bytes. pure (Result.ok (pos (unsigned_big_int_conversion bytes))))

-- `err = Push(…)` followed by its check, and a push whose error is dropped.
unfoldable pub push_checked : String → Bytes → Exec Done
push_checked name element = push element >>= require name

unfoldable pub push_unchecked : Bytes → Exec Done
push_unchecked element = push element >>= λ _. pure tt
