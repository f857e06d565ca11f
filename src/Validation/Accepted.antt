-- ===== src/Validation/Accepted.antt =====
-- What a block that is accepted has been checked for.
use bazo_miner.Prelude.{
  ◌↔◌, ℕ, ◌%◌, ◌≤◌, ◌≡◌, refl, Bool, true, false, not, Option, some, sym, ◌∙◌, ◌⊎◌, inl, inr,
  Bool-cases, arith, ◌==◌, ltb,
}
use bazo_miner.Prelude.Int.{pos, ◌+ℤ◌, ltb_ℤ, ◌≤ℤ◌}
use bazo_miner.Prelude.Words.{sub32, u32_mod, IsInt64}
use bazo_miner.Ledger.Types.{Block, Account}
use bazo_miner.Ledger.Accounts.{get_account}
use bazo_miner.Merkle.{built, build_merkle_tree, merkle_root_of, MerkleTree}
use bazo_miner.Chain.{Net, done}
use bazo_miner.Chain.Slashing.{slashing_check, SlashingDict, valid}
use bazo_miner.ProofOfStake.{validate_proof_of_stake, get_latest_proofs}
use bazo_miner.Validation.{
  Check, accepted, demand, MinerView, Outside, check_root, check_slashing, check_waiting,
  check_proof, check_header, pre_validate, get_size, too_early, must_wait,
}
use bazo_miner.Validation.Duplicates.{distinct, block_hashes, validate_no_duplicate_tx-distinct}
use bazo_miner.Validation.Timely.{IsTimely, when-IsTimely, IsTimely-when}
use bazo_miner.Validation.Checks.{
  demand-accepted, demand_some-accepted, demand_proof-accepted, after_slashing-accepted,
  root_check-accepted,
}

ltb-le : (a b : ℕ) → not (ltb a b) ≡ true → b ≤ a
ltb-le a b h = ground arith

-- The root of its Merkle tree is that of an accepted block, unless it is aggregated.
abbrev pub Rooted : Outside → Block → Type 0
Rooted out b =
    (b.aggregated ≡ true)
    ⊎ ((t : Option MerkleTree) × (build_merkle_tree out.sha3_pair b ≡ built t)
        × (merkle_root_of out.sha3_pair t ≡ b.merkle_root))

-- The slashing proof of an accepted block is valid, when it slashes an account.
abbrev pub Unslashed : Outside → ℕ → Block → MinerView → Type 0
Unslashed out fuel b n =
    (b.slashed_address ≡ 0)
    ⊎ ((s : SlashingDict × Net) × (slashing_check out.fetch_block fuel
            n.world.active_parameters.slashing_window_size b.slashed_address
            b.conflicting_block_hash1 b.conflicting_block_hash2 b.conflicting_block_hash_without_tx1
            b.conflicting_block_hash_without_tx2 n.slashing_dict n.net
          ≡ done (valid, s)))

-- What the header of an accepted block fulfils, for its beneficiary's account.
pub record IsAcceptable (out : Outside) (fuel : ℕ) (initial : Bool) (b : Block) (n : MinerView)
    : Type 0 where
  pub account : Account
  pub found : get_account b.beneficiary n.world ≡ some account
  pub validator : account.is_staking ≡ true
  pub timely : (initial ≡ true) ⊎ ((n.uptodate ≡ false) ⊎ IsTimely n.system_time b.timestamp)
  pub fits : get_size n.bloom_size b ≤ n.world.active_parameters.block_size
  pub no_duplicates : distinct (block_hashes b) ≡ true
  pub key : ℕ
  pub has_key : out.create_rsa_pub_key account.commitment_key ≡ some key
  pub committed : out.verify_message key b.height b.commitment_proof ≡ true
  pub proven :
      (initial ≡ true)
      ⊎ (validate_proof_of_stake out.sha3_bytes n.difficulty
            (get_latest_proofs n.world.active_parameters.num_included_prev_proofs b n.net.storage)
            b.height
            account.balance
            b.commitment_proof
            b.timestamp
          ≡ some true)
  pub not_early : b.timestamp ≤ℤ n.now +ℤ pos n.world.active_parameters.accepted_time_diff
  pub waited :
      n.world.active_parameters.waiting_minimum % u32_mod
      ≤ sub32 b.height account.staking_block_height
  pub unslashed : Unslashed out fuel b n
  pub rooted : Rooted out b

module _ (out : Outside) (fuel : ℕ) (b : Block) (n : MinerView) where
  check_root-Rooted :
      (s t : SlashingDict × Net) → check_root out fuel b s ≡ accepted t → Rooted out b
  unfolding build_merkle_tree
  check_root-Rooted s t h = elim (Bool-cases b.aggregated) [
    | inl e ↦ inl e
    | inr e ↦ inr (
        root_check-accepted (build_merkle_tree out.sha3_pair b) b.merkle_root out.sha3_pair
          (accepted s) t (rw e at h))
  ]

  check_slashing-Rooted :
      (t : SlashingDict × Net)
      → check_slashing out fuel b n ≡ accepted t
      → Unslashed out fuel b n × Rooted out b
  check_slashing-Rooted t h = elim (Bool-cases (b.slashed_address == 0)) [
    | inl e ↦ (inl (ground arith), check_root-Rooted (n.slashing_dict, n.net) t (rw e at h))
    | inr e ↦
        let (s, v, k) = after_slashing-accepted _ (check_root out fuel b) t (rw e at h) in
        (inr (s, v), check_root-Rooted s t k)
  ]

  abbrev pub Accepts : Check (SlashingDict × Net) → Type 0
  Accepts c = (t : SlashingDict × Net) × (c ≡ accepted t)

  Rooted-check_root : (s : SlashingDict × Net) → Rooted out b → Accepts (check_root out fuel b s)
  unfolding build_merkle_tree
  Rooted-check_root s (inl e) = (s, rw e refl)
  Rooted-check_root s (inr (tree, e, m)) = elim (Bool-cases b.aggregated) [
    | inl z ↦ (s, rw z refl)
    | inr z ↦
        let same : (merkle_root_of out.sha3_pair tree == b.merkle_root) ≡ true = ground arith in
        (s, rw (z, e, same) refl)
  ]

  Rooted-check_slashing :
      (Unslashed out fuel b n) → Rooted out b → Accepts (check_slashing out fuel b n)
  Rooted-check_slashing (inl e) r =
      let z : (b.slashed_address == 0) ≡ true = ground arith in
      let (t, k) = Rooted-check_root (n.slashing_dict, n.net) r in (t, rw z k)
  Rooted-check_slashing (inr (s, v)) r = elim (Bool-cases (b.slashed_address == 0)) [
    | inl z ↦ let (t, k) = Rooted-check_root (n.slashing_dict, n.net) r in (t, rw z k)
    | inr z ↦ let (t, k) = Rooted-check_root s r in (t, rw (z, v) k)
  ]

  check_proof-accepted :
      (initial : Bool) (acc : Account) (t : SlashingDict × Net)
      → check_proof out fuel initial b n acc ≡ accepted t
      → ((initial ≡ true)
          ⊎ (validate_proof_of_stake out.sha3_bytes n.difficulty
                (get_latest_proofs n.world.active_parameters.num_included_prev_proofs b
                  n.net.storage)
                b.height
                acc.balance
                b.commitment_proof
                b.timestamp
              ≡ some true))
        × (check_waiting out fuel b n acc ≡ accepted t)
  check_proof-accepted true acc t h = (inl refl, h)
  check_proof-accepted false acc t h =
      let (e, k) = demand_proof-accepted _ (check_waiting out fuel b n acc) t h in (inr e, k)

  check_waiting-accepted :
      (acc : Account) (t : SlashingDict × Net)
      → check_waiting out fuel b n acc ≡ accepted t
      → (b.timestamp ≤ℤ n.now +ℤ pos n.world.active_parameters.accepted_time_diff)
        × ((n.world.active_parameters.waiting_minimum % u32_mod
              ≤ sub32 b.height acc.staking_block_height)
            × (Unslashed out fuel b n × Rooted out b))
  check_waiting-accepted acc t h =
      let early = ltb_ℤ (n.now +ℤ pos n.world.active_parameters.accepted_time_diff) b.timestamp in
      let soon =
        ltb (sub32 b.height acc.staking_block_height)
          (n.world.active_parameters.waiting_minimum % u32_mod) in
      let (e, k) =
        demand-accepted (not early) too_early
          (demand (not soon) must_wait (check_slashing out fuel b n)) t h in
      let (f, l) = demand-accepted (not soon) must_wait (check_slashing out fuel b n) t k in
      (ground arith, (ground arith, check_slashing-Rooted t l))

  accepted-IsAcceptable :
      (initial : Bool) (t : SlashingDict × Net)
      → IsInt64 n.system_time
      → IsInt64 b.timestamp
      → pre_validate out fuel initial b n ≡ accepted t
      → IsAcceptable out fuel initial b n
  unfolding pre_validate
  accepted-IsAcceptable initial t is_time is_stamp h =
      let (acc, found, h1) = demand_some-accepted (get_account b.beneficiary n.world) _ _ t h in
      let (validator, h2) =
        demand-accepted acc.is_staking _ (check_header out fuel initial b n acc) t h1 in
      let (timely, h3) = demand-accepted _ _ _ t h2 in
      let (fits, h4) = demand-accepted _ _ _ t h3 in
      let (new, h5) = demand-accepted _ _ _ t h4 in
      let (key, has_key, h6) =
        demand_some-accepted (out.create_rsa_pub_key acc.commitment_key) _ _ t h5 in
      let (committed, h7) = demand-accepted _ _ _ t h6 in
      let (proven, h8) = check_proof-accepted initial acc t h7 in
      let (not_early, (waited, (unslashed, rooted))) = check_waiting-accepted acc t h8 in
      record {
        account = acc;
        found = found;
        validator = validator;
        timely = when-IsTimely initial n.uptodate n.system_time b.timestamp is_time is_stamp timely;
        fits = ltb-le n.world.active_parameters.block_size (get_size n.bloom_size b) fits;
        no_duplicates = sym (validate_no_duplicate_tx-distinct b) ∙ new;
        key = key;
        has_key = has_key;
        committed = committed;
        proven = proven;
        not_early = not_early;
        waited = waited;
        unslashed = unslashed;
        rooted = rooted;
      }

  IsAcceptable-check_proof :
      (initial : Bool)
      → (r : IsAcceptable out fuel initial b n)
      → Accepts (check_proof out fuel initial b n r.account)
  IsAcceptable-check_proof initial r =
      let (t, k) = Rooted-check_slashing r.unslashed r.rooted in
      let late : ltb_ℤ (n.now +ℤ pos n.world.active_parameters.accepted_time_diff) b.timestamp
          ≡ false =
        let e = r.not_early in ground arith in
      let soon : ltb (sub32 b.height r.account.staking_block_height)
            (n.world.active_parameters.waiting_minimum % u32_mod)
          ≡ false =
        let e = r.waited in ground arith in
      elim (Bool-cases initial) [
        | inl i ↦ (t, rw (i, late, soon) k)
        | inr i ↦ elim r.proven [ inl j ↦ absurd (cc) | inr p ↦ (t, rw (i, p, late, soon) k) ]
      ]

  -- For int64 values of the two times, a block is accepted exactly when it has a beneficiary in the
  -- state that validates; a timestamp at most two hours ahead of and ten hours behind the system time,
  -- or so far away that the difference wraps around, unless this is the initial setup or the miner is
  -- behind; the size and no hash twice; a commitment proof that the beneficiary's key verifies; a proof
  -- of stake unless this is the initial setup; a timestamp that is not too far ahead of the clock; the
  -- waiting time; a valid slashing proof when it slashes an account; and, unless it is aggregated, the
  -- root of its Merkle tree.
  pub pre_validate-IsAcceptable :
      (initial : Bool)
      → IsInt64 n.system_time
      → IsInt64 b.timestamp
      → Accepts (pre_validate out fuel initial b n) ↔ IsAcceptable out fuel initial b n
  unfolding pre_validate
  pre_validate-IsAcceptable initial is_time is_stamp = (
    λ (t, h). accepted-IsAcceptable initial t is_time is_stamp h,
    λ r.
        let (t, k) = IsAcceptable-check_proof initial r in
        let time =
          IsTimely-when initial n.uptodate n.system_time b.timestamp is_time is_stamp r.timely in
        let size : ltb n.world.active_parameters.block_size (get_size n.bloom_size b) ≡ false =
          let e = r.fits in ground arith in
        let new = validate_no_duplicate_tx-distinct b ∙ r.no_duplicates in
        (t, rw (r.found, r.validator, time, size, new, r.has_key, r.committed) k),
  )
