-- ===== src/Vm/Exec/Control.antt =====
-- The instructions of vm.go that jump, call and return, and those on the variables of a call.
use bazo_miner.Prelude.{
  ℕ, zero, suc, ◌||◌, none, some, List, [], ◌∷◌, length, ltb, ◌==◌, if◌then◌else◌,
}
use bazo_miner.Prelude.Int.{ℤ, pos}
use bazo_miner.Prelude.Assoc.{Assoc, lookup, insert}
use bazo_miner.Vm.Encoding.{
  set_bytes, byte_array_to_int, byte_array_to_bool, signed_byte_array_conversion,
}
use bazo_miner.Vm.Stack.{Frame, peek_frame, pop_frame}
use bazo_miner.Vm.OpCodes.{OpCode}
use bazo_miner.Vm.Machine.{
  Exec, Done, pure, ◌>>=◌, ◌>>◌, gets, set_pc, set_frames, fail, require, settle, fetch, fetch_many,
  pop_bytes, pop_signed_big_int, pop_unsigned_big_int, push_checked,
}

unfoldable pub exec_jmp : OpCode → Exec Done
exec_jmp op = fetch_many 2 >>= λ r. require op.name r >>= λ label. set_pc (set_bytes label)

unfoldable pub exec_jmpif : OpCode → Exec Done
exec_jmpif op = fetch_many 2 >>= λ r. pop_bytes op >>= λ right. require op.name r >>= λ label.
    require op.name right >>= λ element. settle (byte_array_to_bool element) >>= λ b.
    require op.name b >>= λ taken.
    if taken
    then (settle (byte_array_to_int label) >>= λ n. require op.name n >>= λ target. set_pc target)
    else pure tt

-- The loop `for i := argsToLoad - 1; i >= 0; i--`.
unfoldable pub load_args : OpCode → ℕ → Assoc ℤ → Exec (Assoc ℤ)
load_args op zero vars = pure vars
load_args op (suc i) vars =
    pop_unsigned_big_int op >>= λ r. require op.name r >>= λ v. load_args op i (insert i v vars)

-- The common end of CALL and CALLIF.
unfoldable pub enter : OpCode → ℕ → ℕ → Exec Done
enter op address args = gets (λ vm. (address == 0) || ltb (length vm.code) address) >>= λ outside.
    if outside
    then fail op.name "ReturnAddress out of bounds"
    else (gets (λ vm. vm.pc) >>= λ pc. load_args op args [] >>= λ vars.
        gets (λ vm. vm.call_stack) >>= λ frames.
        set_frames (record { variables = vars; return_address = pc } ∷ frames) >> set_pc address)

unfoldable pub exec_call : OpCode → Exec Done
exec_call op = fetch_many 2 >>= λ address. fetch >>= λ args.
    require op.name address >>= λ a. require op.name args >>= λ n. enter op (set_bytes a) n

unfoldable pub exec_callif : OpCode → Exec Done
exec_callif op = fetch_many 2 >>= λ address. fetch >>= λ args. pop_bytes op >>= λ right.
    require op.name address >>= λ a. require op.name args >>= λ n.
    require op.name right >>= λ element. settle (byte_array_to_bool element) >>= λ b.
    require op.name b >>= λ taken. if taken then enter op (set_bytes a) n else pure tt

-- The call itself is not written yet in the source.
unfoldable pub exec_callext : OpCode → Exec Done
exec_callext op = fetch_many 32 >>= λ address. fetch_many 4 >>= λ function. fetch >>= λ args.
    require op.name address >>= λ _.
    require op.name function >>= λ _. require op.name args >>= λ _. pure tt

unfoldable pub exec_ret : OpCode → Exec Done
exec_ret op = gets (λ vm. peek_frame vm.call_stack) >>= λ r. require op.name r >>= λ frame.
    gets (λ vm. (pop_frame vm.call_stack).1) >>= λ frames.
    set_frames frames >> set_pc frame.return_address

-- A write to a variable of the latest frame.
unfoldable pub set_variable : ℕ → ℤ → List Frame → List Frame
set_variable address z [] = []
set_variable address z (f ∷ fs) = record f { variables = insert address z f.variables } ∷ fs

unfoldable pub exec_store : OpCode → Exec Done
exec_store op = fetch >>= λ address. pop_signed_big_int op >>= λ right.
    require op.name address >>= λ a. require op.name right >>= λ z.
    gets (λ vm. peek_frame vm.call_stack) >>= λ r. require op.name r >>= λ _.
    gets (λ vm. vm.call_stack) >>= λ frames. set_frames (set_variable a z frames)

-- A variable that was never written is the zero value of `big.Int`.
abbrev pub variable : ℕ → Frame → ℤ
variable address f = elim (lookup address f.variables) [ none ↦ pos 0 | some z ↦ z ]

unfoldable pub exec_load : OpCode → Exec Done
exec_load op = fetch >>= λ address. gets (λ vm. peek_frame vm.call_stack) >>= λ r.
    require op.name address >>= λ a. require op.name r >>= λ frame.
    push_checked op.name (signed_byte_array_conversion (variable a frame))
