-- ===== src/Lib.antt =====
-- The Bazo miner. The ledger is the state that a miner keeps and the transitions by which the
-- validation of a block changes it and its rollback restores it. Before a block comes to them, the
-- validation checks its header against the ledger, the storage and the chain: its proof of stake,
-- its Merkle root, its transactions, its slashing proof. The chain says which blocks are rolled
-- back and which are validated; it reads the storage and asks the network for what is missing. The
-- transactions of a block are fetched from storage and network. For a block of its own the miner
-- verifies transactions and applies them to copies of accounts; an update transaction changes the
-- data of a stored one, which keeps its chameleon hash. The statistics count blocks and set the
-- difficulty. The virtual machine runs the contracts of accounts; it meets the ledger in the
-- context of a contract: code and variables of an account, and fee, sender and data of the fund
-- transaction that calls it.
--
-- Ledger (miner/state.go, miner/staterollback.go):
--   Ledger/Types     the structs of protocol/ as far as the state reads them, and World: the globals
--                    storage.State, storage.RootKeys, the chameleon parameters, parameterSlice and
--                    activeParameters
--   Ledger/Monad     a call on these globals: it returns, returns an error or panics, and keeps what it
--                    wrote
--   Ledger/Accounts  GetAccount, GetRootAccount and IsRootKey of storage/utils.go, and the writes
--                    through account pointers
--   Ledger/Params    NewDefaultParameters, parameterBoundsChecking, CheckAndChangeParameters,
--                    configStateChange and its rollback
--   Ledger/Accs      accStateChange and its rollback
--   Ledger/Funds     fundsStateChange, aggTxStateChange and fundsStateChangeRollback
--   Ledger/Stake     stakeStateChange, its rollback and updateStakingHeight
--   Ledger/Fees      collectTxFees, getFundsTxFromAggTx and collectTxFeesRollback
--   Ledger/Rewards   collectBlockReward, collectSlashReward and their rollbacks
--
-- Virtual machine (vm/, protocol/vm_context.go):
--   Vm/Encoding      the conversions of vm/utils.go
--   Vm/Stack         vm/stack.go and vm/call_stack.go
--   Vm/Array, Vm/Map the byte formats of vm/array.go and vm/map.go
--   Vm/OpCodes       the table of vm/op_codes.go
--   Vm/Context       protocol/vm_context.go
--   Vm/Machine       the struct VM, fetch, PopBytes and what else the instructions share
--   Vm/Exec          Exec; the instructions are in Numbers, Stack, Control, Environment, Containers
--
-- Storage (storage/read.go, write.go, delete.go, update.go):
--   Storage          the buckets of the database, the memory pools and the stash of received blocks,
--                    with their reads, writes and deletions, and UpdateBlocksToBlocksWithoutTx
--   Storage/Closed, Storage/Stash, Storage/Aggregation
--                    closed transactions as one map; the stash; blocks that are emptied
--
-- Chain (miner/longestchain.go, miner/slashing.go, slashingCheck of miner/block_validation.go):
--   Chain            getNewChain, getBlockSequences and IsInSameChain; the answers of the network come
--                    one for each request, a block or a timeout with what reached the stash meanwhile
--   Chain/Slashing   seekSlashingProof and slashingCheck on slashingDict
--   Chain/Links, Chain/Search, Chain/Rollback, Chain/SameChain, Chain/Proofs
--                    parents, the search for the ancestor, the switch, and slashing proofs
--
-- State change of a block (miner/block_validation.go, miner/blockrollback.go, miner/staterollback.go):
--   Blocks           validateState, validateStateRollback, aggregatedStateRollback and
--                    reactivateHistoricBlockDueToRollback, on ChainState: the ledger and the storage
--   Blocks/Closing   postValidate and postValidateRollback on the storage
--   Blocks/Undo      preValidateRollback, rollback and its loop in validate, on Miner: chain and statistics;
--                    Blocks/Undo/Read and Blocks/Undo/Closed have the proofs
--   Blocks/Steps, Blocks/Payments
--                    calls with the rollbacks after an error; blocks of payments
--
-- Transactions (miner/block.go, block_*tx.go, fetch_transactions.go, tx_verification.go):
--   Chameleon        crypto/chameleon_hash.go on texts of hexadecimal digits; Chameleon/Powers, Digits
--                    and Result have the arithmetic, Chameleon/Collision the collisions
--   Updates          addUpdateTx, handleTxUpdate, updateLocalTx; Updates/Hashes has the hashes of
--                    transactions (protocol/fundstx.go, acctx.go, updatetx.go), Updates/Rewrite the proofs
--   Verification     verify and what it calls; Verification/Laws says what is accepted
--   Preparation      addTx, addAccTx, addConfigTx, addStakeTx on Building: the block with its copy of the
--                    state, the ledger and the storage (Preparation/State)
--   Preparation/Funds, Preparation/Payments, Preparation/Copies, Preparation/Effects
--                    addFundsTx, what it does to the accounts that the block sees, and the proofs;
--                    Preparation/Agreement compares it with fundsStateChange
--   Fetch            fetchTransactions; Fetch/Kinds has the loop that the functions for five types of
--                    transactions share, Fetch/Aggregated fetchAggTxData and fetchFundsTxRecursively,
--                    Fetch/Found, Fetch/Lawful and Fetch/Filled the proofs
--   Samples          accounts, transactions and a storage for the tests
--
-- Validation of a block's header (miner/block_validation.go, proofofstake.go, blockchainparam.go):
--   Validation       preValidate, validateNoDuplicateTx, timestampCheck, GetSize of protocol/block.go;
--                    MinerView is what they read of the miner, Outside what they call elsewhere
--   ProofOfStake     validateProofOfStake and GetLatestProofs
--   Statistics       collectStatistics, its rollback and calculateNewDifficulty
--   Merkle           the tree of protocol/merkletree.go
--
-- Conventions. A function of the source has its name in snake case; the body of a loop over
-- transactions is a function of its own (funds_step for fundsStateChange, and so on), and an
-- account is looked up by its hash where the source holds a pointer to it. Maps are association
-- lists. A uint64, uint32 or uint16 is a natural number, and its sums and differences are written
-- with their wrap-around (Prelude/Words), as are the differences of int64 timestamps. A fixed byte
-- array in the ledger is the number that it spells; in the machine it is its bytes. A read through
-- a nil pointer, an index out of range and log.Fatal are a panic. Go slices are values: that two
-- slices may share the array behind them is not modelled, except for the contract variables of an
-- account and its copy, and a slice expression that ends behind the length is a panic, where Go
-- allows it up to the capacity.
--
-- Loops over transactions are recursion on the list. The loop of Array.goToIndex takes as many
-- rounds as the index asks for. Those over a map have the length of the map and one more as fuel:
-- an entry takes four bytes at least. The loop of Exec has its fuel as an argument, and so have the
-- searches through the chain, for which a fuel above the heights of the blocks is enough, and
-- fetchFundsTxRecursively, which descends as deep as the network nests aggregations. A request for
-- a transaction is tried as often as the source tries it. The Merkle tree is built with the number
-- of leaves as fuel: each round leaves fewer nodes. Where fuel is spent, the result is hang.
--
-- Parameters of the model: in the ledger the database of closed transactions (closed) and that of
-- open ones (open_tx), which Blocks reads from the storage; everywhere sort.Sort (sort), the hash
-- of an address (hash) and of a transaction, SHA3 (sha3, on bytes or on two hashes) and SHA256, the
-- check of a signature (verify, ecdsa_verify), RSA keys and signatures (Outside), floating point
-- numbers (Floats), and the network (fetch for blocks, Network for transactions). Random numbers
-- are arguments. The clock is in MinerView.
--
-- Not modelled: logging, the trace of the machine, the encoding and printing of structs, the blocks
-- to validate one after another in validate, the choice and order of open transactions in
-- prepareBlock, their aggregation, finalizeBlock, the file of chameleon parameters, the mining
-- loop, which waits for the clock, the Bloom filter but for its size, the pointers to parents in
-- the Merkle tree, the network's messages, bolt, and the command line. Calls run one after another:
-- mutexes have no counterpart, and the goroutines of fetchTransactions follow each other.
pub mod Prelude
pub mod Ledger
pub mod Merkle
pub mod Storage
pub mod Chain
pub mod Statistics
pub mod ProofOfStake
pub mod Validation
pub mod Blocks
pub mod Chameleon
pub mod Updates
pub mod Verification
pub mod Preparation
pub mod Fetch
pub mod Samples
pub mod Vm
