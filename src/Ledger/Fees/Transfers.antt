-- ===== src/Ledger/Fees/Transfers.antt =====
-- The writes that fees are made of, as a list: each pays into or out of one account. They commute,
-- so a list of them is undone by the opposite writes in the same order, as the rollback makes them.
use bazo_miner.Prelude.{
  ℕ, ◌+◌, ◌%◌, ◌≡◌, refl, some, List, [], ◌∷◌, ◌++◌, map, arith, ap, ◌∙◌, sym, Option-cases, inl,
  inr,
}
use bazo_miner.Prelude.Words.{u64_mod, add64, sub64}
use bazo_miner.Prelude.Assoc.{Assoc, lookup, adjust, lookup-adjust-some, lookup-adjust-none}
use bazo_miner.Ledger.Types.{Account, Hash}
use bazo_miner.Ledger.Accounts.{credit, debit}
use bazo_miner.Ledger.Accounts.Laws.{
  Words, credit-Words, debit-Words, debit-credit, credit-debit, debit-credit_comm, debit-debit_comm,
  credit-credit_comm,
}
use bazo_miner.Ledger.Accounts.Total.{total, total-adjust}

pub data Transfer : Type 0 where
  pay_in pay_out : Hash → ℕ → Transfer

abbrev pub opposite : Transfer → Transfer
opposite (pay_in k x) = pay_out k x
opposite (pay_out k x) = pay_in k x

abbrev pub key : Transfer → Hash
key (pay_in k x) = k
key (pay_out k x) = k

abbrev pub make : Transfer → Assoc Account → Assoc Account
make (pay_in k x) s = adjust k (credit x) s
make (pay_out k x) s = adjust k (debit x) s

abbrev pub make_all : List Transfer → Assoc Account → Assoc Account
make_all [] s = s
make_all (t ∷ ts) s = make_all ts (make t s)

make_comm : (t u : Transfer) (s : Assoc Account) → make t (make u s) ≡ make u (make t s)
make_comm (pay_in j x) (pay_in k y) s = credit-credit_comm j k x y s
make_comm (pay_in j x) (pay_out k y) s = sym (debit-credit_comm k j y x s)
make_comm (pay_out j x) (pay_in k y) s = debit-credit_comm j k x y s
make_comm (pay_out j x) (pay_out k y) s = debit-debit_comm j k x y s

make-make_all :
    (t : Transfer) (us : List Transfer) (s : Assoc Account)
    → make t (make_all us s) ≡ make_all us (make t s)
make-make_all t [] s = refl
make-make_all t (u ∷ us) s = make-make_all t us (make u s) ∙ ap (make_all us) (make_comm t u s)

make-Words : (t : Transfer) (s : Assoc Account) → Words s → Words (make t s)
make-Words (pay_in k x) s h = credit-Words k x s h
make-Words (pay_out k x) s h = debit-Words k x s h

make-opposite : (t : Transfer) (s : Assoc Account) → Words s → make (opposite t) (make t s) ≡ s
make-opposite (pay_in k x) s h = debit-credit k x s h
make-opposite (pay_out k x) s h = credit-debit k x s h

pub make_all-append :
    (ts us : List Transfer) (s : Assoc Account)
    → make_all (ts ++ us) s ≡ make_all us (make_all ts s)
make_all-append [] us s = refl
make_all-append (t ∷ ts) us s = make_all-append ts us (make t s)

pub make_all-opposite :
    (ts : List Transfer) (s : Assoc Account)
    → Words s
    → make_all (map opposite ts) (make_all ts s) ≡ s
make_all-opposite [] s h = refl
make_all-opposite (t ∷ ts) s h =
    ap (make_all (map opposite ts))
      (make-make_all (opposite t) ts (make t s) ∙ ap (make_all ts) (make-opposite t s h))
    ∙ make_all-opposite ts s h

pub make_all-Words : (ts : List Transfer) (s : Assoc Account) → Words s → Words (make_all ts s)
make_all-Words [] s h = h
make_all-Words (t ∷ ts) s h = make_all-Words ts (make t s) (make-Words t s h)

-- The account is in the state.
abbrev pub Present : Hash → Assoc Account → Type 0
Present k s = (a : Account) × (lookup k s ≡ some a)

abbrev pub AllPresent : List Transfer → Assoc Account → Type 0
AllPresent [] s = Unit
AllPresent (t ∷ ts) s = Present (key t) s × AllPresent ts s

adjust-Present-back :
    (j k : Hash) (f : Account → Account) (s : Assoc Account) {a : Account}
    → lookup k (adjust j f s) ≡ some a
    → Present k s
adjust-Present-back j k f s h = elim (Option-cases (lookup k s)) [
  | inl e ↦ let n = lookup-adjust-none j k f s e in cc
  | inr x ↦ x
]

make-Present : (t : Transfer) (k : Hash) (s : Assoc Account) → Present k s → Present k (make t s)
make-Present (pay_in j x) k s (a, h) =
    let (u, e, _) = lookup-adjust-some j k (credit x) s h in (u, e)
make-Present (pay_out j x) k s (a, h) =
    let (u, e, _) = lookup-adjust-some j k (debit x) s h in (u, e)

pub make_all-Present :
    (ts : List Transfer) (k : Hash) (s : Assoc Account) → Present k s → Present k (make_all ts s)
make_all-Present [] k s h = h
make_all-Present (t ∷ ts) k s h = make_all-Present ts k (make t s) (make-Present t k s h)

pub make_all-AllPresent :
    (us ts : List Transfer) (s : Assoc Account) → AllPresent us s → AllPresent us (make_all ts s)
make_all-AllPresent [] ts s h = tt
make_all-AllPresent (u ∷ us) ts s (h, hs) =
    (make_all-Present ts (key u) s h, make_all-AllPresent us ts s hs)

make-Present-back :
    (t : Transfer) (k : Hash) (s : Assoc Account) → Present k (make t s) → Present k s
make-Present-back (pay_in j x) k s (a, h) = adjust-Present-back j k (credit x) s h
make-Present-back (pay_out j x) k s (a, h) = adjust-Present-back j k (debit x) s h

make_all-AllPresent-back_one :
    (us : List Transfer) (t : Transfer) (s : Assoc Account)
    → AllPresent us (make t s)
    → AllPresent us s
make_all-AllPresent-back_one [] t s h = tt
make_all-AllPresent-back_one (u ∷ us) t s (h, hs) =
    (make-Present-back t (key u) s h, make_all-AllPresent-back_one us t s hs)

-- No transfer makes an account.
pub make_all-AllPresent-back :
    (us ts : List Transfer) (s : Assoc Account) → AllPresent us (make_all ts s) → AllPresent us s
make_all-AllPresent-back us [] s h = h
make_all-AllPresent-back us (t ∷ ts) s h =
    make_all-AllPresent-back_one us t s (make_all-AllPresent-back us ts (make t s) h)

pub AllPresent-left :
    (us ts : List Transfer) (s : Assoc Account) → AllPresent (us ++ ts) s → AllPresent us s
AllPresent-left [] ts s h = tt
AllPresent-left (u ∷ us) ts s (h, hs) = (h, AllPresent-left us ts s hs)

pub AllPresent-right :
    (us ts : List Transfer) (s : Assoc Account) → AllPresent (us ++ ts) s → AllPresent ts s
AllPresent-right [] ts s h = h
AllPresent-right (u ∷ us) ts s (h, hs) = AllPresent-right us ts s hs

pub AllPresent-append :
    (us ts : List Transfer) (s : Assoc Account)
    → AllPresent us s
    → AllPresent ts s
    → AllPresent (us ++ ts) s
AllPresent-append [] ts s h k = k
AllPresent-append (u ∷ us) ts s (h, hs) k = (h, AllPresent-append us ts s hs k)

abbrev pub paid_in : List Transfer → ℕ
paid_in [] = 0
paid_in (pay_in k x ∷ ts) = x + paid_in ts
paid_in (pay_out k x ∷ ts) = paid_in ts

abbrev pub paid_out : List Transfer → ℕ
paid_out [] = 0
paid_out (pay_in k x ∷ ts) = paid_out ts
paid_out (pay_out k x ∷ ts) = x + paid_out ts

make-total :
    (t : Transfer) (s : Assoc Account)
    → Present (key t) s
    → (total (make t s) + paid_out (t ∷ [])) % u64_mod ≡ (total s + paid_in (t ∷ [])) % u64_mod
unfolding add64 sub64
make-total (pay_in k x) s (a, h) = omega (arith, total-adjust k (credit x) s h)
make-total (pay_out k x) s (a, h) = omega (arith, total-adjust k (debit x) s h)

-- Up to the carries of the word, the money in the state changes by what is paid in and out.
pub make_all-total :
    (ts : List Transfer) (s : Assoc Account)
    → AllPresent ts s
    → (total (make_all ts s) + paid_out ts) % u64_mod ≡ (total s + paid_in ts) % u64_mod
make_all-total [] s h = refl
make_all-total (pay_in k x ∷ ts) s (h, hs) = omega (
  arith,
  make_all-total ts (make (pay_in k x) s) (make_all-AllPresent ts (pay_in k x ∷ []) s hs),
  make-total (pay_in k x) s h,
)
make_all-total (pay_out k x ∷ ts) s (h, hs) = omega (
  arith,
  make_all-total ts (make (pay_out k x) s) (make_all-AllPresent ts (pay_out k x ∷ []) s hs),
  make-total (pay_out k x) s h,
)
