-- ===== src/Ledger.antt =====
-- The miner's state: accounts, transactions, system parameters, and the operations that validation
-- and rollback of a block apply to them (miner/state.go, miner/staterollback.go).
pub mod Types
pub mod Monad
pub mod Accounts
pub mod Params
pub mod Accs
pub mod Funds
pub mod Stake
pub mod Fees
pub mod Rewards
mod Tests
