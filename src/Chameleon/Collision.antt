-- ===== src/Chameleon/Collision.antt =====
-- With the trapdoor a check string is found that gives another message the same hash.
use bazo_miner.Prelude.{
  ℕ, ◌+◌, ◌-◌, ◌*◌, ◌/◌, ◌%◌, ◌^◌, ◌≤◌, ◌<◌, ◌≡◌, refl, sym, ap, ◌∙◌, arith, some,
}
use native.Mathlib.Nat.{mod-lt, mod-eq_of_lt}
use bazo_miner.Ledger.Types.{Bytes, CheckString}
use bazo_miner.Vm.Encoding.{set_bytes}
use bazo_miner.Chameleon.{
  ChameleonHashParameters, chameleon_hash, generate_ch_collision, keygen, hash_number, sub_mod,
  to_hex, set_string, to_result, digest, positive,
}
use bazo_miner.Chameleon.Powers.{sub_mod-add, trapdoor, pow-mod, pow-mul}
use bazo_miner.Chameleon.Digits.{set_string-to_hex}
use bazo_miner.Chameleon.Result.{to_result-set_bytes}

-- The parameters spell a modulus, the order of a generator, and the power that the trapdoor gives.
pub record IsKeyed (parameters : ChameleonHashParameters) (p q g tk : ℕ) : Type 0 where
  pub g_spelt : set_string parameters.g ≡ some g
  pub p_spelt : set_string parameters.p ≡ some p
  pub q_spelt : set_string parameters.q ≡ some q
  pub hk_spelt : set_string parameters.hk ≡ some (g ^ tk % p)
  pub tk_spelt : set_string parameters.tk ≡ some tk
  pub p_pos : 0 < p
  pub q_pos : 0 < q
  pub q_fits : q ≤ 256 ^ 32
  pub order : g ^ q % p ≡ 1 % p

positive_pos : (n : ℕ) → 0 < n → positive n ≡ some n
positive_pos n h = ground arith

hash_number-lt : (p q g hk e r s : ℕ) → 0 < q → hash_number p q g hk e r s < q
unfolding hash_number
hash_number-lt p q g hk e r s pos = mod-lt (r % q + (q - (hk ^ e % p * (g ^ s % p) % p) % q)) pos

module _ (sha256 : Bytes → Bytes) where
  -- The hash of a message in numbers.
  chameleon_hash_lem :
      (parameters : ChameleonHashParameters) (p q g tk r s : ℕ) (check_string : CheckString)
      (message : Bytes)
      → IsKeyed parameters p q g tk
      → set_string check_string.r ≡ some r
      → set_string check_string.s ≡ some s
      → chameleon_hash sha256 parameters check_string message
        ≡ some (to_result (hash_number p q g (g ^ tk % p) (digest sha256 message r) r s))
  unfolding chameleon_hash
  chameleon_hash_lem parameters p q g tk r s check_string message keyed hr hs =
      rw
        (
          keyed.g_spelt,
          keyed.p_spelt,
          keyed.q_spelt,
          keyed.hk_spelt,
          hr,
          hs,
          positive_pos p keyed.p_pos,
          positive_pos q keyed.q_pos,
        )
        refl

  -- The number that the collision hashes to.
  hash_number-collision :
      (p q g tk k e r2 h : ℕ)
      → 0 < q
      → g ^ q % p ≡ 1 % p
      → r2 ≡ (h + g ^ k % p) % q
      → hash_number p q g (g ^ tk % p) e r2 (sub_mod q k (e * tk % q)) ≡ h % q
  unfolding hash_number
  hash_number-collision p q g tk k e r2 h pos order same =
      ap (λ (x : ℕ). sub_mod q r2 x) (trapdoor p q g tk e k pos order)
      ∙ ap (λ (x : ℕ). sub_mod q x (g ^ k % p)) same
      ∙ sub_mod-add q h (g ^ k % p) pos

  collision :
      (parameters : ChameleonHashParameters) (p q g tk : ℕ) (check_string : CheckString)
      (old_message new_message hash : Bytes) (k : ℕ)
      → IsKeyed parameters p q g tk
      → chameleon_hash sha256 parameters check_string old_message ≡ some hash
      → (found : CheckString) × (generate_ch_collision sha256 k parameters check_string old_message
            new_message
          ≡ some found)
        × (chameleon_hash sha256 parameters found new_message
            ≡ some (to_result (set_bytes hash % q)))
  unfolding generate_ch_collision
  collision parameters p q g tk check_string old_message new_message hash k keyed hashed =
      let r2 = (set_bytes hash + g ^ k % p) % q in
      let e = digest sha256 new_message r2 in
      let s2 = sub_mod q k (e * tk % q) in
      let found : CheckString = record { r = to_hex r2; s = to_hex s2 } in
      (
        found,
        rw (keyed.g_spelt, keyed.p_spelt, keyed.q_spelt, keyed.tk_spelt, hashed) refl,
        chameleon_hash_lem parameters p q g tk r2 s2 found new_message keyed (set_string-to_hex r2)
              (set_string-to_hex s2)
            ∙ ap (λ (x : ℕ). some (to_result x))
                (hash_number-collision p q g tk k e r2 (set_bytes hash) keyed.q_pos keyed.order
                  refl),
      )

  -- For parameters that belong together and a check string whose texts are numbers: when the hash of
  -- the old message spells a number below Q, GenerateChCollision returns a check string, whatever
  -- random number it draws, under which the new message has the same hash.
  pub generate_ch_collision-chameleon_hash :
      (parameters : ChameleonHashParameters) (p q g tk r s : ℕ) (check_string : CheckString)
      (old_message new_message hash : Bytes) (k : ℕ)
      → IsKeyed parameters p q g tk
      → set_string check_string.r ≡ some r
      → set_string check_string.s ≡ some s
      → chameleon_hash sha256 parameters check_string old_message ≡ some hash
      → set_bytes hash < q
      → (found : CheckString) × (generate_ch_collision sha256 k parameters check_string old_message
            new_message
          ≡ some found)
        × (chameleon_hash sha256 parameters found new_message ≡ some hash)
  generate_ch_collision-chameleon_hash parameters p q g tk r s check_string old_message new_message
        hash k keyed hr hs hashed below =
      let number = hash_number p q g (g ^ tk % p) (digest sha256 old_message r) r s in
      let lt : number < q =
        hash_number-lt p q g (g ^ tk % p) (digest sha256 old_message r) r s keyed.q_pos in
      let spelt : hash ≡ to_result number =
        cc (chameleon_hash_lem parameters p q g tk r s check_string old_message keyed hr hs) in
      let same : to_result (set_bytes hash % q) ≡ hash =
        ap to_result (mod-eq_of_lt below)
        ∙ ap (λ (bs : Bytes). to_result (set_bytes bs)) spelt
        ∙ to_result-set_bytes number (omega (arith, lt, keyed.q_fits))
        ∙ sym spelt in
      let (found, made, again) =
        collision parameters p q g tk check_string old_message new_message hash k keyed hashed in
      (found, made, again ∙ ap some same)

-- For an odd modulus above 2 of at most 257 bits and a base whose power by the modulus less one is 1,
-- as it is for a prime and a base that it does not divide, keygen makes parameters that belong
-- together, whatever the trapdoor.
pub keygen-IsKeyed :
    (p x tk : ℕ)
    → 2 < p
    → p % 2 ≡ 1
    → p ≤ 2 * 256 ^ 32
    → x ^ (p - 1) % p ≡ 1
    → IsKeyed (keygen p x tk) p ((p - 1) / 2) (x ^ 2 % p) tk
unfolding keygen
keygen-IsKeyed p x tk big odd fits fermat =
    let q = (p - 1) / 2 in
    let g = x ^ 2 % p in
    let one : 1 % p ≡ 1 = mod-eq_of_lt (omega arith) in
    let double : 2 * q ≡ p - 1 = omega arith in
    record {
      g_spelt = set_string-to_hex g;
      p_spelt = set_string-to_hex p;
      q_spelt = set_string-to_hex q;
      hk_spelt = set_string-to_hex (g ^ tk % p);
      tk_spelt = set_string-to_hex tk;
      p_pos = omega arith;
      q_pos = omega arith;
      q_fits = omega arith;
      order =
          pow-mod (x ^ 2) q p
          ∙ ap (λ (y : ℕ). y % p) (sym (pow-mul x 2 q) ∙ ap (λ (y : ℕ). x ^ y) double)
          ∙ fermat
          ∙ sym one;
    }
