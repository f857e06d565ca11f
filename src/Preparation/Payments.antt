-- ===== src/Preparation/Payments.antt =====
-- What addFundsTx does to the accounts that the block sees, on every branch.
use bazo_miner.Prelude.{
  false, ℕ, ◌≤◌, ◌<◌, ◌≡◌, ◌⊎◌, Bool, true, not, ◌&&◌, Option, none, some, List, [], ◌∷◌, ◌++◌,
  arith, ◌==◌, if◌then◌else◌,
}
use bazo_miner.Prelude.Assoc.{Assoc, lookup, adjust}
use bazo_miner.Prelude.Words.{add32, add64, sub64}
use bazo_miner.Ledger.Types.{Bytes, Hash, Account, FundsTx, max_money}
use bazo_miner.Ledger.Accounts.{is_root_key}
use bazo_miner.Vm.Context.{persist_changes}
use bazo_miner.Vm.Machine.{Vm, Flow, value, stop}
use bazo_miner.Vm.Exec.{exec, new_vm}
use bazo_miner.Preparation.Funds.{new_context, is_empty}
use bazo_miner.Preparation.State.{
  Building, AddError, Adding, Outside, done, failed, panicked, hanging, seen,
}

abbrev pub applied : (Account → Account) → Option Account → Option Account
applied f none = none
applied f (some a) = some (f a)

pub lookup-adjust :
    (j k : ℕ) (f : Account → Account) (s : Assoc Account)
    → lookup j (adjust k f s) ≡ (if j == k then applied f (lookup j s) else lookup j s)
unfolding lookup adjust
lookup-adjust j k f [] = ground arith
lookup-adjust j k f ((i, u) ∷ s) = ground (arith, lookup-adjust j k f s)

-- The blocks see the same accounts, and have the same payments to aggregate.
abbrev pub Same : Building → Building → Type 0
Same b b' =
    ((k : Hash) → seen b' k ≡ seen b k)
    × (b'.storage.funds_tx_before_aggregation ≡ b.storage.funds_tx_before_aggregation)

abbrev pub or_kept : Option (List Bytes) → List Bytes → List Bytes
or_kept none vars = vars
or_kept (some vars) old = vars

-- A run of the machine ended well, and the variables with its changes are these.
abbrev pub Wrote : Flow Bool × Vm → List Bytes → Type 0
Wrote (value true, vm) vars = persist_changes vm.context ≡ some vars
Wrote (stop true, vm) vars = persist_changes vm.context ≡ some vars
Wrote _ vars = ⊥

module _ (outside : Outside) where
  -- What a payment does to the account under `k`, which may be both of its accounts; `written` are the
  -- variables after the contract, if one ran.
  abbrev pub paid : FundsTx → (written : Option (List Bytes)) → Hash → Account → Account
  paid tx written k a =
      let left = if k == tx.from then sub64 a.balance (add64 tx.amount tx.fee) else a.balance in
      record a {
        tx_cnt = if k == tx.from then add32 a.tx_cnt 1 else a.tx_cnt;
        balance = if k == tx.to then add64 left tx.amount else left;
        contract_variables =
            if k == tx.to then or_kept written a.contract_variables else a.contract_variables;
      }

  -- The contract of the receiver runs when there are data and code.
  abbrev pub ContractRan : (fuel : ℕ) → FundsTx → Account → Option (List Bytes) → Type 0
  ContractRan fuel tx receiver none =
      (not (is_empty tx.payload) && not (is_empty receiver.contract)) ≡ false
  ContractRan fuel tx receiver (some vars) =
      ((not (is_empty tx.payload) && not (is_empty receiver.contract)) ≡ true)
      × Wrote (exec outside.sha3 outside.check_sig fuel (new_vm (new_context receiver tx))) vars

  -- The four ends of addFundsTx, with the block before and after.
  pub data Effect (fuel : ℕ) (tx : FundsTx) (b b' : Building) (r : Adding) : Type 0 where
    rejected : (e : AddError) → r ≡ failed e → Same b b' → Effect fuel tx b b' r
    stuck : (r ≡ panicked) ⊎ (r ≡ hanging) → Effect fuel tx b b' r
    skipped :
        (sender : Account)
        → r ≡ done
        → seen b tx.from ≡ some sender
        → tx.tx_cnt < sender.tx_cnt
        → Same b b'
        → Effect fuel tx b b' r
    added :
        (sender receiver : Account) (written : Option (List Bytes))
        → r ≡ done
        → seen b tx.from ≡ some sender
        → seen b tx.to ≡ some receiver
        → tx.tx_cnt ≡ sender.tx_cnt
        → (is_root_key tx.from b.world ≡ true) ⊎ (add64 tx.amount tx.fee ≤ sender.balance)
        → add64 receiver.balance tx.amount ≤ max_money
        → ContractRan fuel tx receiver written
        → ((k : Hash) → seen b' k ≡ applied (paid tx written k) (seen b k))
        → b'.storage.funds_tx_before_aggregation ≡ b.storage.funds_tx_before_aggregation ++ tx ∷ []
        → Effect fuel tx b b' r
