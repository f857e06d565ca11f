-- ===== src/Vm/OpCodes.antt =====
-- vm/op_codes.go: the instructions, in the order of their codes, with the price of the instruction
-- and the factor for the size of what it pops.
use bazo_miner.Prelude.{ℕ, List, [], ◌∷◌}
use Prim.Native.String.{String}

pub data Op : Type 0 where
  push dup roll pop add sub mult div modulo neg eq neq lt gt lte gte shiftl shiftr nop : Op
  jmp jmpif call callif callext ret size store sstore load sload address issuer balance : Op
  caller callval calldata newmap maphaskey mappush mapgetval mapsetval mapremove newarr : Op
  arrappend arrinsert arrremove arrat sha3 checksig errhalt halt : Op

pub record OpCode : Type 0 where
  pub code : Op
  pub name : String
  pub gas_price : ℕ
  pub gas_factor : ℕ

abbrev entry : Op → String → ℕ → ℕ → OpCode
entry op name price factor = record {
  code = op;
  name = name;
  gas_price = price;
  gas_factor = factor;
}

-- `OpCodes`. The code of an instruction is its place in the table.
unfoldable pub op_codes : List OpCode
op_codes =
    entry push "push" 1 1
    ∷ entry dup "dup" 1 2
    ∷ entry roll "roll" 1 2
    ∷ entry pop "pop" 1 1
    ∷ entry add "add" 1 2
    ∷ entry sub "sub" 1 2
    ∷ entry mult "mult" 1 2
    ∷ entry div "div" 1 2
    ∷ entry modulo "mod" 1 2
    ∷ entry neg "neg" 1 2
    ∷ entry eq "eq" 1 2
    ∷ entry neq "neq" 1 2
    ∷ entry lt "lt" 1 2
    ∷ entry gt "gt" 1 2
    ∷ entry lte "lte" 1 2
    ∷ entry gte "gte" 1 2
    ∷ entry shiftl "shiftl" 1 2
    ∷ entry shiftr "shiftl" 1 2
    ∷ entry nop "nop" 1 1
    ∷ entry jmp "jmp" 1 1
    ∷ entry jmpif "jmpif" 1 1
    ∷ entry call "call" 1 1
    ∷ entry callif "callif" 1 1
    ∷ entry callext "callext" 1000 2
    ∷ entry ret "ret" 1 1
    ∷ entry size "size" 1 1
    ∷ entry store "store" 1 2
    ∷ entry sstore "sstore" 1000 2
    ∷ entry load "load" 1 2
    ∷ entry sload "sload" 10 2
    ∷ entry address "address" 1 1
    ∷ entry issuer "issuer" 1 1
    ∷ entry balance "balance" 1 1
    ∷ entry caller "caller" 1 1
    ∷ entry callval "callval" 1 1
    ∷ entry calldata "calldata" 1 1
    ∷ entry newmap "newmap" 1 2
    ∷ entry maphaskey "maphaskey" 1 2
    ∷ entry mappush "mappush" 1 2
    ∷ entry mapgetval "mapgetval" 1 2
    ∷ entry mapsetval "mapsetval" 1 2
    ∷ entry mapremove "mapremove" 1 2
    ∷ entry newarr "newarr" 1 2
    ∷ entry arrappend "arrappend" 1 2
    ∷ entry arrinsert "arrinsert" 1 2
    ∷ entry arrremove "arrremove" 1 2
    ∷ entry arrat "arrat" 1 2
    ∷ entry sha3 "sha3" 1 2
    ∷ entry checksig "checksig" 1 2
    ∷ entry errhalt "errhalt" 0 1
    ∷ entry halt "halt" 0 1
    ∷ []
