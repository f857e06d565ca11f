-- ===== src/Vm/Context.antt =====
-- protocol/vm_context.go: what a contract sees of its account and of the transaction that runs it.
-- Bytes that Go copies are the bytes themselves.
pub mod Writes
use bazo_miner.Prelude.{
  ℕ, Option, none, some, List, [], ◌∷◌, ◌++◌, length, get_elem?, set, ltb, not, if◌then◌else◌,
}
use bazo_miner.Prelude.Int.{ℤ, pos, negsuc, ltb_ℤ}
use bazo_miner.Vm.Result.{Bytes, Result, ok, err, Done}

pub record Change : Type 0 where
  pub index : ℤ
  pub value : Bytes

-- The fields of the account and of the transaction that the getters read; the fixed arrays are
-- their bytes. `changes` has the earliest change first.
pub record Context : Type 0 where
  pub contract : Bytes
  pub contract_variables : List Bytes
  pub address : Bytes
  pub issuer : Bytes
  pub balance : ℕ
  pub sender : Bytes
  pub amount : ℕ
  pub transaction_data : Bytes
  pub fee : ℕ
  pub sig1 : Bytes
  pub changes : List Change

-- The index of the Go functions is an int.
unfoldable pub get_contract_variable : ℤ → Context → Result Bytes
get_contract_variable (negsuc n) c = err "Index out of bounds"
get_contract_variable (pos n) c = elim (get_elem? c.contract_variables n) [
  | none ↦ err "Index out of bounds"
  | some variable ↦ ok variable
]

-- The write is recorded, not made: a later read still sees the old variable. A negative index is not
-- refused.
unfoldable pub set_contract_variable : ℤ → Bytes → Context → Result Done × Context
set_contract_variable index value c =
    if not (ltb_ℤ index (pos (length c.contract_variables)))
    then (err "Index out of bounds", c)
    else (ok tt, record c { changes = c.changes ++ record { index = index; value = value } ∷ [] })

-- `c.ContractVariables[i] = value`, where `none` is the panic of an index out of range.
unfoldable pub write_variable : ℤ → Bytes → List Bytes → Option (List Bytes)
write_variable (negsuc n) value vars = none
write_variable (pos n) value vars = if ltb n (length vars) then some (set vars n value) else none

abbrev pub and_persist :
    Option (List Bytes) → (List Bytes → Option (List Bytes)) → Option (List Bytes)
and_persist none next = none
and_persist (some vars) next = next vars

unfoldable pub persist : List Change → List Bytes → Option (List Bytes)
unfolding write_variable
persist [] vars = some vars
persist (c ∷ cs) vars = and_persist (write_variable c.index c.value vars) (persist cs)

-- PersistChanges writes to the variables: they come back.
unfoldable pub persist_changes : Context → Option (List Bytes)
unfolding persist
persist_changes c = persist c.changes c.contract_variables
