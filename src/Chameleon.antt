-- ===== src/Chameleon.antt =====
-- crypto/chameleon_hash.go on numbers: hashing, the search for a collision with the trapdoor, and the
-- generation of keys. `sha256` and the random numbers are parameters. Parameters and check strings
-- are kept as hexadecimal text, as in the source; what `SetString` cannot read is no number, and a
-- sign is not read. The file of parameters is not modelled.
mod Powers
pub mod Digits
pub mod Result
pub mod Collision
mod Tests
use bazo_miner.Prelude.{
  ℕ, zero, suc, ◌+◌, ◌-◌, ◌*◌, ◌/◌, ◌%◌, ◌^◌, Bool, true, false, ◌&&◌, Option, none, some, List, [],
  ◌∷◌, ◌++◌, take, replicate, ltb, leb, ◌==◌, if◌then◌else◌,
}
use bazo_miner.Ledger.Types.{Bytes, CheckString}
use bazo_miner.Vm.Encoding.{set_bytes, nat_bytes}

pub record ChameleonHashParameters : Type 0 where
  pub g : Bytes
  pub p : Bytes
  pub q : Bytes
  pub hk : Bytes
  pub tk : Bytes

-- One digit of "%x".
abbrev pub hex_digit : ℕ → ℕ
hex_digit d = if ltb d 10 then 48 + d else 87 + d

abbrev pub hex_onto : (fuel : ℕ) → ℕ → Bytes → Bytes
hex_onto zero n rest = rest
hex_onto (suc fuel) n rest =
    let more = hex_onto fuel (n / 16) (hex_digit (n % 16) ∷ rest) in if n == 0 then rest else more

-- `fmt.Sprintf("%x", n)`. The number itself is fuel enough: each round divides it by 16.
unfoldable pub to_hex : ℕ → Bytes
to_hex n = if n == 0 then b'0' ∷ [] else hex_onto n n []

abbrev pub digit_value : ℕ → Option ℕ
digit_value c =
    if leb 48 c && leb c 57
    then some (c - 48)
    else (if leb 97 c && leb c 102
        then some (c - 87)
        else (if leb 65 c && leb c 70 then some (c - 55) else none))

abbrev pub next_digit : ℕ → Option ℕ → (ℕ → Option ℕ) → Option ℕ
next_digit acc none rest = none
next_digit acc (some d) rest = rest (acc * 16 + d)

abbrev pub read_hex : Bytes → ℕ → Option ℕ
read_hex [] acc = some acc
read_hex (c ∷ cs) acc = next_digit acc (digit_value c) (read_hex cs)

-- `SetString(s, HEX_BASE)`
unfoldable pub set_string : Bytes → Option ℕ
set_string [] = none
set_string (c ∷ cs) = read_hex (c ∷ cs) 0

-- `z.Sub(a, b)` and then `z.Mod(z, q)`, which is never negative.
abbrev pub sub_mod : (q a b : ℕ) → ℕ
sub_mod q a b = (a % q + (q - b % q)) % q

infixl 5 ◌>>=◌
abbrev pub ◌>>=◌ {ℓ κ} : {A : Type ℓ} {B : Type κ} → Option A → (A → Option B) → Option B
none >>= f = none
some a >>= f = f a

-- `Mod` panics at 0.
abbrev pub positive : ℕ → Option ℕ
positive n = if n == 0 then none else some n

-- `copy(result[:], hBig.Bytes())`: the bytes stand at the front of the 32.
unfoldable pub to_result : ℕ → Bytes
to_result h = take 32 (nat_bytes h ++ replicate 32 0)

unfoldable pub hash_number : (p q g hk e r s : ℕ) → ℕ
hash_number p q g hk e r s = sub_mod q r (hk ^ e % p * (g ^ s % p) % p)

-- `result` of keygen: the prime `p`, the random numbers `x` and `tk`.
unfoldable pub keygen : (p x tk : ℕ) → ChameleonHashParameters
keygen p x tk =
    let q = (p - 1) / 2 in
    let g = x ^ 2 % p in
    record { g = to_hex g; p = to_hex p; q = to_hex q; hk = to_hex (g ^ tk % p); tk = to_hex tk }

module _ (sha256 : Bytes → Bytes) where
  abbrev pub digest : Bytes → ℕ → ℕ
  digest message r = set_bytes (sha256 (message ++ to_hex r))

  unfoldable pub chameleon_hash : ChameleonHashParameters → CheckString → Bytes → Option Bytes
  chameleon_hash parameters check_string message = do
    g ← set_string parameters.g
    p ← set_string parameters.p
    q ← set_string parameters.q
    hk ← set_string parameters.hk
    r ← set_string check_string.r
    s ← set_string check_string.s
    p ← positive p
    q ← positive q
    some (to_result (hash_number p q g hk (digest message r) r s))

  -- `k` is the result of `rand.Int(rand.Reader, qBig)`.
  unfoldable pub generate_ch_collision :
      (k : ℕ)
      → ChameleonHashParameters
      → CheckString
      → (old_message new_message : Bytes) → Option CheckString
  generate_ch_collision k parameters check_string old_message new_message = do
    g ← set_string parameters.g
    p ← set_string parameters.p
    q ← set_string parameters.q
    tk ← set_string parameters.tk
    hash ← chameleon_hash parameters check_string old_message
    let r2 = (set_bytes hash + g ^ k % p) % q
    let e = digest new_message r2
    some (record { r = to_hex r2; s = to_hex (sub_mod q k (e * tk % q)) })

-- `NewCheckString` with the two random numbers, which are below Q.
unfoldable pub new_check_string : (r s : ℕ) → CheckString
new_check_string r s = record { r = to_hex r; s = to_hex s }
