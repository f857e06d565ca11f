-- ===== src/Vm/Exec/Environment.antt =====
-- The instructions of vm.go that read the context or write a contract variable, and the two that
-- call a cryptographic library. `sha3` is `sha3.New256` on a whole input; `verify` is
-- `ecdsa.Verify` over P256 on a public key, a hash and a signature, each as its bytes.
use bazo_miner.Prelude.{
  ℕ, zero, suc, ◌+◌, Bool, not, [], ◌∷◌, length, take, drop, leb, ◌==◌, if◌then◌else◌, reverse,
}
use bazo_miner.Prelude.Int.{pos}
use bazo_miner.Vm.Result.{Bytes}
use bazo_miner.Vm.Encoding.{u64_to_byte_array, bool_to_byte_array}
use bazo_miner.Vm.Context.{Context, get_contract_variable, set_contract_variable}
use bazo_miner.Vm.OpCodes.{OpCode}
use bazo_miner.Vm.Machine.{
  Exec, Done, pure, ◌>>=◌, gets, set_context, fail, require, fetch, pop_bytes, push_checked,
  push_unchecked,
}

unfoldable pub exec_sstore : OpCode → Exec Done
exec_sstore op = fetch >>= λ arg. pop_bytes op >>= λ r. require op.name arg >>= λ i.
    require op.name r >>= λ element. gets (λ vm. vm.context) >>= λ c.
    require op.name (set_contract_variable (pos i) element c).0 >>= λ _.
    set_context (set_contract_variable (pos i) element c).1

unfoldable pub exec_sload : OpCode → Exec Done
exec_sload op = fetch >>= λ arg. require op.name arg >>= λ i.
    gets (λ vm. get_contract_variable (pos i) vm.context) >>= λ r.
    require op.name r >>= λ element. push_checked op.name element

-- ADDRESS, ISSUER and CALLER push a part of the context.
unfoldable pub push_context : OpCode → (Context → Bytes) → Exec Done
push_context op f = gets (λ vm. f vm.context) >>= λ element. push_checked op.name element

unfoldable pub exec_address : OpCode → Exec Done
exec_address op = push_context op (λ c. c.address)

unfoldable pub exec_issuer : OpCode → Exec Done
exec_issuer op = push_context op (λ c. c.issuer)

unfoldable pub exec_caller : OpCode → Exec Done
exec_caller op = push_context op (λ c. c.sender)

-- `binary.LittleEndian.PutUint64`
abbrev pub little_endian : ℕ → Bytes
little_endian n = reverse (u64_to_byte_array n)

unfoldable pub exec_balance : OpCode → Exec Done
exec_balance op = push_context op (λ c. little_endian c.balance)

unfoldable pub exec_callval : OpCode → Exec Done
exec_callval op = push_context op (λ c. little_endian c.amount)

-- The loop of CALLDATA: a parameter is a byte n and n + 1 bytes, which are pushed. A round moves at
-- least two bytes on, so the length of the data is enough fuel.
unfoldable pub push_params : (fuel : ℕ) → OpCode → Bytes → Exec Done
push_params zero op td = pure tt
push_params (suc fuel) op [] = pure tt
push_params (suc fuel) op (n ∷ rest) =
    if leb (length rest) n
    then fail op.name "Index out of bounds"
    else (push_checked op.name (take (n + 1) rest) >>= λ _. push_params fuel op (drop (n + 1) rest))

unfoldable pub exec_calldata : OpCode → Exec Done
exec_calldata op = gets (λ vm. vm.context.transaction_data) >>= λ td. push_params (length td) op td

module _ (sha3 : Bytes → Bytes) where
  unfoldable pub exec_sha3 : OpCode → Exec Done
  exec_sha3 op =
      pop_bytes op >>= λ r. require op.name r >>= λ right. push_checked op.name (sha3 right)

module _ (verify : Bytes → Bytes → Bytes → Bool) where
  unfoldable pub exec_checksig : OpCode → Exec Done
  exec_checksig op = pop_bytes op >>= λ key. pop_bytes op >>= λ digest. require op.name key >>= λ k.
      require op.name digest >>= λ h.
      if not (length k == 64)
      then fail op.name "Not a valid address"
      else (if not (length h == 32)
          then fail op.name "Not a valid hash"
          else (gets (λ vm. vm.context.sig1) >>= λ sig.
              push_unchecked (bool_to_byte_array (verify k h sig))))
