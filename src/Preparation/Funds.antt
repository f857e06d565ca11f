-- ===== src/Preparation/Funds.antt =====
-- addFundsTx (miner/block_fundstx.go). The copy of an account shares its contract variables with the
-- account of the state.
use bazo_miner.Prelude.{
  ℕ, Bool, true, false, not, ◌&&◌, Option, none, some, List, [], ◌∷◌, ◌++◌, ltb, ◌==◌,
  if◌then◌else◌,
}
use bazo_miner.Prelude.Assoc.{lookup, adjust}
use bazo_miner.Prelude.Words.{add32, add64, sub64}
use bazo_miner.Ledger.Types.{Hash, Bytes, Account, Block, FundsTx, max_money}
use bazo_miner.Ledger.Accounts.{is_root_key}
use bazo_miner.Storage.{
  Transaction, funds, read_closed_tx, write_invalid_open_tx, delete_open_tx, delete_invalid_open_tx,
  write_funds_tx_before_aggregation,
}
use bazo_miner.ProofOfStake.{big_endian}
use bazo_miner.Vm.Context.{Context, persist_changes}
use bazo_miner.Vm.Machine.{Vm, Flow, value, stop, panic, hang}
use bazo_miner.Vm.Exec.{exec, new_vm}
use bazo_miner.Preparation.State.{
  Building, AddError, Adding, Outside, done, failed, panicked, hanging, sender_missing,
  receiver_missing, not_enough_funds, tx_cnt_differs, receiver_overflow, contract_failed,
  on_storage, copy_account,
}

-- `NewContext(*account, *tx)`
abbrev pub new_context : Account → FundsTx → Context
new_context a tx = record {
  contract = a.contract;
  contract_variables = a.contract_variables;
  address = big_endian 64 a.address;
  issuer = big_endian 32 a.issuer;
  balance = a.balance;
  sender = big_endian 32 tx.from;
  amount = tx.amount;
  transaction_data = tx.payload;
  fee = tx.fee;
  sig1 = big_endian 64 tx.sig1;
  changes = [];
}

abbrev pub is_empty : Bytes → Bool
is_empty [] = true
is_empty (b ∷ bs) = false

module _ (outside : Outside) where
  open outside use {checker, sha3, check_sig}
  open checker use {hash}

  abbrev pub reject : FundsTx → AddError → Building → Building × Adding
  reject tx e b = (on_storage (write_invalid_open_tx hash (funds tx)) b, failed e)

  -- "Update state copy."
  abbrev pub pay_out : FundsTx → Account → Account
  pay_out tx a = record a {
    tx_cnt = add32 a.tx_cnt 1;
    balance = sub64 a.balance (add64 tx.amount tx.fee);
  }

  abbrev pub pay_in : FundsTx → Account → Account
  pay_in tx a = record a { balance = add64 a.balance tx.amount }

  unfoldable pub pay : FundsTx → Building → Building
  pay tx b = record b {
    state_copy = adjust tx.to (pay_in tx) (adjust tx.from (pay_out tx) b.state_copy);
    storage = write_funds_tx_before_aggregation tx b.storage;
  }

  -- The variables stand in one array, which the copy and the state share.
  abbrev pub set_variables : List Bytes → Account → Account
  set_variables vars a = record a { contract_variables = vars }

  abbrev pub persist_both : Hash → List Bytes → Building → Building
  persist_both h vars b = record b {
    state_copy = adjust h (set_variables vars) b.state_copy;
    world = record b.world { state = adjust h (set_variables vars) b.world.state };
  }

  abbrev pub persist_and_pay : FundsTx → Option (List Bytes) → Building → Building × Adding
  persist_and_pay tx none b = (b, panicked)
  persist_and_pay tx (some vars) b = (pay tx (persist_both tx.to vars b), done)

  abbrev pub after_contract : FundsTx → Flow Bool × Vm → Building → Building × Adding
  after_contract tx (value true, vm) b = persist_and_pay tx (persist_changes vm.context) b
  after_contract tx (value false, vm) b = reject tx contract_failed b
  after_contract tx (stop true, vm) b = persist_and_pay tx (persist_changes vm.context) b
  after_contract tx (stop false, vm) b = reject tx contract_failed b
  after_contract tx (panic, vm) b = (b, panicked)
  after_contract tx (hang, vm) b = (b, hanging)

  abbrev pub run_contract : (fuel : ℕ) → FundsTx → Account → Building → Building × Adding
  run_contract fuel tx receiver b =
      if not (is_empty tx.payload) && not (is_empty receiver.contract)
      then after_contract tx (exec sha3 check_sig fuel (new_vm (new_context receiver tx))) b
      else (pay tx b, done)

  -- A counter below the account's returns nil; a closed transaction is no longer open then.
  abbrev pub drop_closed : FundsTx → Option Transaction → Building → Building
  drop_closed tx none b = b
  drop_closed tx (some t) b =
      on_storage (λ s. delete_invalid_open_tx hash (funds tx) (delete_open_tx hash (funds tx) s)) b

  abbrev pub counter_error : FundsTx → Account → Building → Building × Adding
  counter_error tx sender b =
      if ltb tx.tx_cnt sender.tx_cnt
      then (drop_closed tx (read_closed_tx (hash (funds tx)) b.storage) b, done)
      else reject tx tx_cnt_differs b

  abbrev pub check_receiver :
      (fuel : ℕ) → FundsTx → (receiver : Option Account) → Building → Building × Adding
  check_receiver fuel tx none b = (b, panicked)
  check_receiver fuel tx (some receiver) b =
      if ltb max_money (add64 receiver.balance tx.amount)
      then reject tx receiver_overflow b
      else run_contract fuel tx receiver b

  -- The checks on the copies; a copy that is not there is a nil pointer.
  abbrev pub check_sender :
      (fuel : ℕ) → FundsTx → (sender : Option Account) → Building → Building × Adding
  check_sender fuel tx none b = (b, panicked)
  check_sender fuel tx (some sender) b =
      if not (is_root_key tx.from b.world) && ltb sender.balance (add64 tx.amount tx.fee)
      then reject tx not_enough_funds b
      else if sender.tx_cnt == tx.tx_cnt
      then check_receiver fuel tx (lookup tx.to b.state_copy) b
      else counter_error tx sender b

  abbrev pub with_receiver : (fuel : ℕ) → FundsTx → Building → Option Building → Building × Adding
  with_receiver fuel tx b none = reject tx receiver_missing b
  with_receiver fuel tx b (some b') = check_sender fuel tx (lookup tx.from b'.state_copy) b'

  abbrev pub with_sender : (fuel : ℕ) → FundsTx → Building → Option Building → Building × Adding
  with_sender fuel tx b none = reject tx sender_missing b
  with_sender fuel tx b (some b') = with_receiver fuel tx b' (copy_account outside tx.to b')

  unfoldable pub add_funds_tx : (fuel : ℕ) → FundsTx → Building → Building × Adding
  unfolding copy_account
  add_funds_tx fuel tx b = with_sender fuel tx b (copy_account outside tx.from b)

  abbrev pub add_funds_tx_final : FundsTx → Block → Block
  add_funds_tx_final tx b = record b { funds_tx_data = b.funds_tx_data ++ hash (funds tx) ∷ [] }
