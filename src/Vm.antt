-- ===== src/Vm.antt =====
-- The virtual machine for smart contracts (vm/): its byte encodings, its stacks, its arrays and
-- maps, and the instructions.
pub mod Result
pub mod Encoding
pub mod Stack
pub mod Array
pub mod Map
pub mod OpCodes
pub mod Context
pub mod Machine
pub mod Exec
mod Tests
