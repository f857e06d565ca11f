-- ===== src/Vm/Exec/Containers.antt =====
-- The instructions of vm.go on maps and arrays.
use bazo_miner.Prelude.{length, leb, ltb, if◌then◌else◌}
use bazo_miner.Vm.Result.{Bytes, Result}
use bazo_miner.Vm.Encoding.{byte_array_to_u16, bool_to_byte_array}
use bazo_miner.Vm.OpCodes.{OpCode}
use bazo_miner.Vm.Machine.{
  Exec, Done, ◌>>=◌, fail, require, settle, pop_bytes, push_checked, push_unchecked,
}
use bazo_miner.Vm.Array
use bazo_miner.Vm.Map

-- A result that pops are made of: `if err != nil` behind each.
unfoldable pub pop_required : OpCode → Exec Bytes
pop_required op = pop_bytes op >>= λ r. require op.name r

-- A call of the array or map code whose error ends the run.
unfoldable pub required : {A : Type 0} → OpCode → Result A → Exec A
required op r = settle r >>= λ x. require op.name x

unfoldable pub exec_newmap : OpCode → Exec Done
exec_newmap op = push_checked op.name Map.new_map

unfoldable pub exec_maphaskey : OpCode → Exec Done
exec_maphaskey op = pop_required op >>= λ mba. required op (Map.map_from_byte_array mba) >>= λ m.
    pop_required op >>= λ k.
    required op (Map.map_contains_key k m) >>= λ result. push_unchecked (bool_to_byte_array result)

unfoldable pub exec_mappush : OpCode → Exec Done
exec_mappush op = pop_required op >>= λ mba. pop_required op >>= λ k. pop_required op >>= λ v.
    required op (Map.map_from_byte_array mba) >>= λ m.
    required op (Map.append k v m) >>= λ m'. push_checked op.name m'

unfoldable pub exec_mapgetval : OpCode → Exec Done
exec_mapgetval op = pop_required op >>= λ mba. pop_required op >>= λ k.
    required op (Map.map_from_byte_array mba) >>= λ m.
    required op (Map.get_val k m) >>= λ v. push_checked op.name v

unfoldable pub exec_mapsetval : OpCode → Exec Done
exec_mapsetval op = pop_required op >>= λ mba. required op (Map.map_from_byte_array mba) >>= λ m.
    pop_required op >>= λ k.
    pop_required op >>= λ v. required op (Map.set_val k v m) >>= λ m'. push_checked op.name m'

unfoldable pub exec_mapremove : OpCode → Exec Done
exec_mapremove op = pop_required op >>= λ mba. pop_required op >>= λ k.
    required op (Map.map_from_byte_array mba) >>= λ m.
    required op (Map.remove k m) >>= λ m'. push_checked op.name m'

unfoldable pub exec_newarr : OpCode → Exec Done
exec_newarr op = push_unchecked Array.new_array

-- The error of `Append` gets a message of its own.
abbrev pub invalid_size : Result Bytes → Result Bytes
invalid_size (Result.ok a) = Result.ok a
invalid_size (Result.err e) = Result.err "Invalid argument size of ARRAPPEND"
invalid_size Result.panic = Result.panic
invalid_size Result.hang = Result.hang

unfoldable pub exec_arrappend : OpCode → Exec Done
exec_arrappend op = pop_bytes op >>= λ a. pop_bytes op >>= λ v. require op.name v >>= λ element.
    require op.name a >>= λ ba. required op (Array.array_from_byte_array ba) >>= λ arr.
    required op (invalid_size (Array.append element arr)) >>= λ arr'. push_checked op.name arr'

unfoldable pub exec_arrinsert : OpCode → Exec Done
exec_arrinsert op = pop_required op >>= λ a. pop_required op >>= λ i.
    if ltb 2 (length i)
    then fail op.name "Wrong index size"
    else (pop_required op >>= λ element. required op (Array.array_from_byte_array a) >>= λ arr.
        required op (byte_array_to_u16 i) >>= λ index. required op (Array.get_size arr) >>= λ size.
        if leb size index
        then fail op.name "Index out of bounds"
        else (required op (Array.insert index element arr) >>= λ arr'. push_checked op.name arr'))

unfoldable pub exec_arrremove : OpCode → Exec Done
exec_arrremove op = pop_required op >>= λ a. pop_required op >>= λ i.
    if ltb 2 (length i)
    then fail op.name "Wrong index size"
    else (required op (byte_array_to_u16 i) >>= λ index.
        required op (Array.array_from_byte_array a) >>= λ arr.
        required op (Array.remove index arr) >>= λ arr'. push_checked op.name arr')

unfoldable pub exec_arrat : OpCode → Exec Done
exec_arrat op = pop_required op >>= λ a. pop_required op >>= λ i.
    required op (byte_array_to_u16 i) >>= λ index.
    required op (Array.array_from_byte_array a) >>= λ arr.
    required op (Array.at index arr) >>= λ element. push_checked op.name element
