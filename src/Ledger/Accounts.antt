-- ===== src/Ledger/Accounts.antt =====
-- Lookups in the state (storage/utils.go), and the writes that state.go and staterollback.go make
-- through account pointers: the pointer in `storage.State` is the account, so a write changes the
-- entry at its key.
pub mod Laws
pub mod Total
use bazo_miner.Prelude.{ℕ, Bool, true, false, Option, none, some, ◌≡◌}
use bazo_miner.Prelude.Words.{add64, sub64, add32, sub32}
use bazo_miner.Prelude.Assoc.{lookup, adjust}
use bazo_miner.Ledger.Types.{Account, World, Hash}
use bazo_miner.Ledger.Monad.{Action, Outcome, ok, err, Error, account_missing}

-- `GetAccount`: none stands for the nil pointer with the error "not in the state".
abbrev pub get_account : Hash → World → Option Account
get_account h w = lookup h w.state

unfoldable pub is_root_key : Hash → World → Bool
is_root_key h w = elim (lookup h w.root_keys) [ none ↦ false | some _ ↦ true ]

-- The account of a root key, or nil for any other key.
unfoldable pub get_root_account : Hash → Action (Option Account)
get_root_account h w = elim (is_root_key h w) [
  | true ↦ elim (get_account h w) [
    | none ↦ (err account_missing, w)
    | some acc ↦ (ok (some acc), w)
  ]
  | false ↦ (ok none, w)
]

abbrev pub credit : ℕ → Account → Account
credit x a = record a { balance = add64 a.balance x }

abbrev pub debit : ℕ → Account → Account
debit x a = record a { balance = sub64 a.balance x }

abbrev pub count_up : Account → Account
count_up a = record a { tx_cnt = add32 a.tx_cnt 1 }

abbrev pub count_down : Account → Account
count_down a = record a { tx_cnt = sub32 a.tx_cnt 1 }

abbrev pub write : Hash → (Account → Account) → World → World
write h f w = record w { state = adjust h f w.state }

-- `GetRootAccount` by the cases of its two lookups.
module _ (h : Hash) (w : World) where
  pub get_root_account-none : lookup h w.root_keys ≡ none → get_root_account h w ≡ (ok none, w)
  unfolding is_root_key get_root_account
  get_root_account-none k = rw (k, get_root_account)

  module _ {r : Hash} (k : lookup h w.root_keys ≡ some r) where
    pub get_root_account-missing :
        lookup h w.state ≡ none → get_root_account h w ≡ (err account_missing, w)
    unfolding is_root_key get_root_account
    get_root_account-missing e = rw (k, e, get_root_account)

    pub get_root_account-some :
        {a : Account} → lookup h w.state ≡ some a → get_root_account h w ≡ (ok (some a), w)
    unfolding is_root_key get_root_account
    get_root_account-some e = rw (k, e, get_root_account)
