-- ===== src/Vm/Exec.antt =====
-- `Exec` of vm/vm.go: fetch, charge, decode, and the loop.
pub mod Numbers
pub mod Stack
pub mod Control
pub mod Environment
pub mod Containers
pub mod Gas
use bazo_miner.Prelude.{
  ℕ, zero, suc, ◌+◌, ◌-◌, Bool, true, false, Option, none, some, List, [], length, get_elem?, ltb,
  if◌then◌else◌,
}
use bazo_miner.Vm.Result.{Bytes, Result, text}
use bazo_miner.Vm.Stack.{new_stack}
use bazo_miner.Vm.Context.{Context}
use bazo_miner.Vm.OpCodes.{OpCode, Op, op_codes}
use bazo_miner.Vm.Machine.{
  Vm, Exec, Flow, value, stop, panic, hang, Done, pure, ◌>>=◌, ◌>>◌, fail, require, fetch, after,
}
use Numbers.{
  exec_add, exec_sub, exec_mult, exec_div, exec_mod, exec_neg, exec_eq, exec_neq, exec_lt, exec_gt,
  exec_lte, exec_gte, exec_shiftl, exec_shiftr,
}
use Stack.{exec_push, exec_dup, exec_roll, exec_pop, exec_nop, exec_size}
use Control.{
  exec_jmp, exec_jmpif, exec_call, exec_callif, exec_callext, exec_ret, exec_store, exec_load,
}
use Environment.{
  exec_sstore, exec_sload, exec_address, exec_issuer, exec_caller, exec_balance, exec_callval,
  exec_calldata, exec_sha3, exec_checksig,
}
use Containers.{
  exec_newmap, exec_maphaskey, exec_mappush, exec_mapgetval, exec_mapsetval, exec_mapremove,
  exec_newarr, exec_arrappend, exec_arrinsert, exec_arrremove, exec_arrat,
}

abbrev pub new_vm : Context → Vm
new_vm c = record { code = []; pc = 0; fee = 0; stack = new_stack; call_stack = []; context = c }

module _ (sha3 : Bytes → Bytes) (verify : Bytes → Bytes → Bytes → Bool) where
  -- The `switch`.
  unfoldable pub run_op : Op → OpCode → Exec Done
  run_op Op.push op = exec_push op
  run_op Op.dup op = exec_dup op
  run_op Op.roll op = exec_roll op
  run_op Op.pop op = exec_pop op
  run_op Op.add op = exec_add op
  run_op Op.sub op = exec_sub op
  run_op Op.mult op = exec_mult op
  run_op Op.div op = exec_div op
  run_op Op.modulo op = exec_mod op
  run_op Op.neg op = exec_neg op
  run_op Op.eq op = exec_eq op
  run_op Op.neq op = exec_neq op
  run_op Op.lt op = exec_lt op
  run_op Op.gt op = exec_gt op
  run_op Op.lte op = exec_lte op
  run_op Op.gte op = exec_gte op
  run_op Op.shiftl op = exec_shiftl op
  run_op Op.shiftr op = exec_shiftr op
  run_op Op.nop op = exec_nop op
  run_op Op.jmp op = exec_jmp op
  run_op Op.jmpif op = exec_jmpif op
  run_op Op.call op = exec_call op
  run_op Op.callif op = exec_callif op
  run_op Op.callext op = exec_callext op
  run_op Op.ret op = exec_ret op
  run_op Op.size op = exec_size op
  run_op Op.store op = exec_store op
  run_op Op.sstore op = exec_sstore op
  run_op Op.load op = exec_load op
  run_op Op.sload op = exec_sload op
  run_op Op.address op = exec_address op
  run_op Op.issuer op = exec_issuer op
  run_op Op.balance op = exec_balance op
  run_op Op.caller op = exec_caller op
  run_op Op.callval op = exec_callval op
  run_op Op.calldata op = exec_calldata op
  run_op Op.newmap op = exec_newmap op
  run_op Op.maphaskey op = exec_maphaskey op
  run_op Op.mappush op = exec_mappush op
  run_op Op.mapgetval op = exec_mapgetval op
  run_op Op.mapsetval op = exec_mapsetval op
  run_op Op.mapremove op = exec_mapremove op
  run_op Op.newarr op = exec_newarr op
  run_op Op.arrappend op = exec_arrappend op
  run_op Op.arrinsert op = exec_arrinsert op
  run_op Op.arrremove op = exec_arrremove op
  run_op Op.arrat op = exec_arrat op
  run_op Op.sha3 op = exec_sha3 sha3 op
  run_op Op.checksig op = exec_checksig verify op
  run_op Op.errhalt op = λ vm. (stop false, vm)
  run_op Op.halt op = λ vm. (stop true, vm)

  -- `vm.fee -= opCode.gasPrice`, where it suffices.
  unfoldable pub pay_price : OpCode → Exec Done
  pay_price op vm =
      if ltb vm.fee op.gas_price
      then fail "vm.exec()" "out of gas" vm
      else (value tt, record vm { fee = vm.fee - op.gas_price })

  unfoldable pub decode : ℕ → Exec OpCode
  decode byte vm = elim (get_elem? op_codes byte) [
    | none ↦ fail "vm.exec()" "Not a valid opCode" vm
    | some op ↦ (value op, vm)
  ]

  -- One round of the loop.
  unfoldable pub step : Exec Done
  step = fetch >>= λ r.
      require "vm.exec()" r >>= λ byte. decode byte >>= λ op. pay_price op >> run_op op.code op

  -- The loop. `hang` says that it is still running when the fuel is spent.
  unfoldable pub loop : (fuel : ℕ) → Vm → Flow Bool × Vm
  loop zero vm = (hang, vm)
  loop (suc fuel) vm =
      let (r, vm') = step vm in
      let more = loop fuel vm' in
      elim r [
        | value _ ↦ more
        | stop b ↦ (value b, vm')
        | panic ↦ (panic, vm')
        | hang ↦ (hang, vm')
      ]

  -- `Exec(false)`: the code and the fee are taken from the context.
  unfoldable pub exec : (fuel : ℕ) → Vm → Flow Bool × Vm
  exec fuel vm =
      let vm₁ = record vm { code = vm.context.contract; fee = vm.context.fee } in
      if ltb 100000 (length vm₁.code)
      then (let (_, vm₂) = fail {A = Done} "vm.exec()" "Instruction set to big" vm₁ in
          (value false, vm₂))
      else loop fuel vm₁
