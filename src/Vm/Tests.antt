-- ===== src/Vm/Tests.antt =====
-- A program, and the theorems of the machine at it.
use bazo_miner.Prelude.{ℕ, ◌-◌, none, ◌≤◌, ◌<◌, ◌≡◌, ◌⊎◌, refl, Bool, true, false, [], ◌∷◌, arith}
use bazo_miner.Prelude.Int.{pos, negsuc, ◌+ℤ◌}
use bazo_miner.Vm.Result.{Bytes, Result, ok}
use bazo_miner.Vm.Encoding.{
  set_bytes, signed_big_int_conversion, signed_byte_array_conversion, big_endian_from, nat_bytes,
  bytes_onto,
}
use bazo_miner.Vm.Encoding.Laws.{signed_conversion_roundtrip}
use bazo_miner.Vm.Stack.{Stack, new_stack, push, pop, has_enough_memory}
use bazo_miner.Vm.Stack.Memory.{IsAccounted, push-IsAccounted}
use bazo_miner.Vm.Map.{get_val, remove}
use bazo_miner.Vm.Map.Search.{Ends, get_val-remove-Ends}
use bazo_miner.Vm.Context.{Context, set_contract_variable, persist_changes}
use bazo_miner.Vm.Context.Writes.{IsDeferred, set_contract_variable-IsDeferred}
use bazo_miner.Vm.Machine.{Vm, Flow, value, charge, gas_cost}
use bazo_miner.Vm.OpCodes.{op_codes}
use bazo_miner.Vm.Machine
use bazo_miner.Vm.Machine.{
  ◌>>=◌, ◌>>◌, fetch, require, fetch_many, push_checked, pop_signed_big_int, pop_bytes, pop_element,
  on_ok, settle,
}
use bazo_miner.Vm.Exec.{loop, step, decode, pay_price, run_op}
use bazo_miner.Vm.Exec.Stack.{exec_push}
use bazo_miner.Vm.Exec.Numbers.{exec_add, arithmetic, binary}
use bazo_miner.Prelude.Words.{add32, sub32, sub64}
use bazo_miner.Vm.Exec.Gas.{charge_lem}

abbrev no_hash : Bytes → Bytes
no_hash b = b

abbrev no_signature : Bytes → Bytes → Bytes → Bool
no_signature key hash sig = false

signed_conversion_roundtrip_example :
    signed_big_int_conversion (signed_byte_array_conversion (negsuc 299)) ≡ ok (negsuc 299)
signed_conversion_roundtrip_example = signed_conversion_roundtrip (negsuc 299)

abbrev two_elements : Stack
two_elements = record {
  elements = (0 ∷ 5 ∷ []) ∷ (1 ∷ []) ∷ [];
  memory_usage = 3;
  memory_max = 1000000;
}

abbrev two_accounted : IsAccounted two_elements
two_accounted = record { counted = omega arith; within = omega arith; limit_fits = omega arith }

push-IsAccounted_example : IsAccounted (push (0 ∷ 7 ∷ 7 ∷ []) two_elements).1
push-IsAccounted_example =
    push-IsAccounted (0 ∷ 7 ∷ 7 ∷ []) two_elements (omega arith) two_accounted

abbrev no_context : Context
no_context = record {
  contract = [];
  contract_variables = [];
  address = [];
  issuer = [];
  balance = 0;
  sender = [];
  amount = 0;
  transaction_data = [];
  fee = 0;
  sig1 = [];
  changes = [];
}

-- Two numbers are pushed and added.
abbrev adds : Vm
adds = record {
  code = 0 ∷ 1 ∷ 0 ∷ 2 ∷ 0 ∷ 1 ∷ 0 ∷ 3 ∷ 4 ∷ 50 ∷ [];
  pc = 0;
  fee = 100;
  stack = new_stack;
  call_stack = [];
  context = no_context;
}

abbrev added : Vm
added = record {
  code = adds.code;
  pc = 10;
  fee = 93;
  stack = record { elements = (0 ∷ 5 ∷ []) ∷ []; memory_usage = 2; memory_max = 1000000 };
  call_stack = [];
  context = no_context;
}

adds_ends : loop no_hash no_signature 4 adds ≡ (value true, added)
unfolding loop step ◌>>=◌ ◌>>◌ fetch require decode op_codes pay_price run_op exec_push fetch_many
    push_checked Machine.push push has_enough_memory add32 exec_add arithmetic binary
    pop_signed_big_int pop_bytes pop_element on_ok charge sub64 settle pop sub32
    signed_big_int_conversion set_bytes big_endian_from signed_byte_array_conversion nat_bytes
    bytes_onto ◌+ℤ◌
adds_ends = refl

charge_lem_example :
    ((gas_cost 2 (0 ∷ 1 ∷ []) ≤ 100)
      × (charge 2 (0 ∷ 1 ∷ []) adds
          ≡ (value (ok (0 ∷ 1 ∷ [])), record adds { fee = 100 - gas_cost 2 (0 ∷ 1 ∷ []) })))
    ⊎ ((100 < gas_cost 2 (0 ∷ 1 ∷ []))
        × (charge 2 (0 ∷ 1 ∷ []) adds ≡ (value (Result.err "Out of gas"), adds)))
charge_lem_example = charge_lem 2 (0 ∷ 1 ∷ []) adds (omega arith) (omega arith)

-- A key of one byte with a value of two.
abbrev small_map : Bytes
small_map = 1 ∷ 1 ∷ 0 ∷ 1 ∷ 0 ∷ 7 ∷ 2 ∷ 0 ∷ 8 ∷ 9 ∷ []

get_val-remove-Ends_example : Ends (get_val (7 ∷ []) small_map) × Ends (remove (7 ∷ []) small_map)
get_val-remove-Ends_example = get_val-remove-Ends (7 ∷ []) small_map

abbrev two_variables : Context
two_variables = record no_context {
  contract_variables = (1 ∷ []) ∷ (2 ∷ []) ∷ [];
  changes = record { index = pos 0; value = 5 ∷ [] } ∷ [];
}

set_contract_variable-IsDeferred_example :
    ((n : ℕ) × (pos 1 ≡ pos n)
      × (n < 2)
      × ((set_contract_variable (pos 1) (9 ∷ []) two_variables).0 ≡ ok tt)
      × IsDeferred n
          (9 ∷ [])
          two_variables
          (set_contract_variable (pos 1) (9 ∷ []) two_variables).1)
    ⊎ (((n : ℕ) × (pos 1 ≡ pos n)
          × (2 ≤ n)
          × (set_contract_variable (pos 1) (9 ∷ []) two_variables
              ≡ (Result.err "Index out of bounds", two_variables)))
        ⊎ ((n : ℕ) × (pos 1 ≡ negsuc n)
            × ((set_contract_variable (pos 1) (9 ∷ []) two_variables).0 ≡ ok tt)
            × (persist_changes (set_contract_variable (pos 1) (9 ∷ []) two_variables).1 ≡ none)))
set_contract_variable-IsDeferred_example =
    set_contract_variable-IsDeferred (pos 1) (9 ∷ []) two_variables
