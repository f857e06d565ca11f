-- ===== src/Preparation/State.antt =====
-- The block that is prepared: a copy of the accounts that its transactions touch, filled as needed.
use bazo_miner.Prelude.{ℕ, Bool, Option, none, some, ◌==◌, if◌then◌else◌}
use bazo_miner.Prelude.Assoc.{Assoc, lookup, insert}
use bazo_miner.Ledger.Types.{Hash, Bytes, World, Account, Block}
use bazo_miner.Storage.{Storage, first_found}
use bazo_miner.Verification.{Checker}

pub record Building : Type 0 where
  pub block : Block
  pub state_copy : Assoc Account
  pub world : World
  pub storage : Storage

pub data AddError : Type 0 where
  sender_missing receiver_missing not_enough_funds tx_cnt_differs receiver_overflow : AddError
  contract_failed account_exists already_set fee_too_low not_verified : AddError

-- `done` is `return nil`.
pub data Adding : Type 0 where
  done : Adding
  failed : AddError → Adding
  panicked : Adding
  hanging : Adding

-- What adding calls elsewhere: the checker of transactions, sha3.Sum256 of a public key, and the two
-- functions that contracts use.
pub record Outside : Type 0 where
  pub checker : Checker
  pub key_hash : ℕ → Hash
  pub sha3 : Bytes → Bytes
  pub check_sig : Bytes → Bytes → Bytes → Bool

abbrev pub on_storage : (Storage → Storage) → Building → Building
on_storage f b = record b { storage = f b.storage }

-- The account that the block sees under a hash.
abbrev pub seen : Building → Hash → Option Account
seen b h = first_found (lookup h b.state_copy) (lookup h b.world.state)

module _ (outside : Outside) where
  open outside use {checker}
  open checker use {address_hash}

  -- "Checking if the account is already in the local state copy": `none` when it is in neither.
  abbrev pub fill : Hash → (copied known : Option Account) → Building → Option Building
  fill h (some a) known b = some b
  fill h none none b = none
  fill h none (some a) b =
      some (
        if address_hash a.address == h
        then record b { state_copy = insert h a b.state_copy }
        else b)

  unfoldable pub copy_account : Hash → Building → Option Building
  copy_account h b = fill h (lookup h b.state_copy) (lookup h b.world.state) b
