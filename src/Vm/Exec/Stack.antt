-- ===== src/Vm/Exec/Stack.antt =====
-- The instructions of vm.go that move elements on the evaluation stack.
use bazo_miner.Prelude.{ℕ, ◌+◌, ◌-◌, length, leb, ◌==◌, if◌then◌else◌}
use bazo_miner.Vm.Result.{Result}
use bazo_miner.Vm.Encoding.{u64_to_byte_array}
use bazo_miner.Vm.OpCodes.{OpCode}
use bazo_miner.Vm.Machine.{
  Exec, Done, pure, ◌>>=◌, ◌>>◌, gets, pop_index_at, fail, require, fetch, fetch_many, pop_bytes,
  push_checked,
}

-- An argument that could not be fetched is 0.
abbrev pub byte_count : Result ℕ → ℕ
byte_count (Result.ok n) = n + 1
byte_count _ = 1

-- One byte more than the argument is pushed, 256 at most.
unfoldable pub exec_push : OpCode → Exec Done
exec_push op = fetch >>= λ arg. fetch_many (byte_count arg) >>= λ bytes.
    require op.name arg >>= λ _. require op.name bytes >>= λ element. push_checked op.name element

unfoldable pub exec_dup : OpCode → Exec Done
exec_dup op = pop_bytes op >>= λ tos.
    require op.name tos >>= λ element. push_checked op.name element >> push_checked op.name element

-- `index := length - (arg + 2)`. For an argument one below the length nothing moves; above that the
-- index is refused.
unfoldable pub exec_roll : OpCode → Exec Done
exec_roll op = fetch >>= λ arg. require op.name arg >>= λ n.
    gets (λ vm. length vm.stack.elements) >>= λ size.
    if n + 1 == size
    then pure tt
    else (if leb size n
        then fail op.name "index out of bounds"
        else (pop_index_at (size - (n + 2)) >>= λ r.
            require op.name r >>= λ new_tos. push_checked op.name new_tos))

unfoldable pub exec_pop : OpCode → Exec Done
exec_pop op = pop_bytes op >>= λ r. require op.name r >>= λ _. pure tt

-- An argument byte is fetched and dropped.
unfoldable pub exec_nop : OpCode → Exec Done
exec_nop op = fetch >>= λ arg. require op.name arg >>= λ _. pure tt

unfoldable pub exec_size : OpCode → Exec Done
exec_size op = pop_bytes op >>= λ r.
    require op.name r >>= λ element. push_checked op.name (u64_to_byte_array (length element))
