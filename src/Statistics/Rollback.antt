-- ===== src/Statistics/Rollback.antt =====
-- The rollback of the statistics, and what they keep.
use bazo_miner.Prelude.{
  ℕ, suc, ◌+◌, ◌*◌, ◌%◌, ◌<◌, ◌≡◌, refl, true, false, some, List, [], ◌∷◌, length, arith, ap, subst,
  sym, ◌∙◌, ltb, Bool-cases, inl, inr,
}
use bazo_miner.Prelude.Int.{ℤ, pos, ◌+ℤ◌, ◌-ℤ◌, ltb_ℤ, +ℤ_cancel}
use bazo_miner.Prelude.Words.{u64_mod, sub_int64}
use mathlib.Core.Option.{some-injective}
use bazo_miner.Ledger.Types.{Block}
use bazo_miner.Statistics.{
  TimeRange, Statistics, Floats, is_zero_ℤ, get_difficulty, calculate_new_difficulty, new_target,
  start_range, count_block, clamp, round_half, collect_statistics, collect_statistics_rollback,
}

-- After the genesis block: `g + 1` blocks in all and `n` in the range, which is not full, a range that
-- has no end yet, and one target more than ranges.
pub record IsSteady (interval : ℕ) (s : Statistics) : Type 0 where
  pub g : ℕ
  pub n : ℕ
  pub counted : s.global_block_count ≡ pos (suc g)
  pub counted_locally : s.local_block_count ≡ pos n
  pub not_full : n < interval
  pub open_range : s.current_target_time.last ≡ pos 0
  pub one_more : length s.target ≡ suc (length s.target_times)

plus_one : (n : ℕ) → pos n +ℤ pos 1 ≡ pos (suc n)
unfolding ◌+ℤ◌
plus_one n = ground arith

minus_one : (n : ℕ) → pos (suc n) -ℤ pos 1 ≡ pos n
unfolding ◌-ℤ◌
minus_one n = ground arith

some_target : (ts : List ℕ) (k : ℕ) → length ts ≡ suc k → (d : ℕ) × (get_difficulty ts ≡ some d)
some_target [] k e = absurd (omega arith)
some_target (t ∷ ts) k e = (t, refl)

abbrev rebuilt : Statistics → ℤ → ℤ → ℤ → Statistics
rebuilt s g l t = record s {
  global_block_count = g;
  local_block_count = l;
  current_target_time = record s.current_target_time { last = t };
}

rebuilt-same :
    (s : Statistics) (g l t : ℤ)
    → g ≡ s.global_block_count
    → l ≡ s.local_block_count
    → t ≡ s.current_target_time.last
    → rebuilt s g l t ≡ s
rebuilt-same s g l t p q r = rw (p, q, r)

still_counted :
    {interval : ℕ} (s : Statistics)
    → IsSteady interval s
    → is_zero_ℤ (s.global_block_count +ℤ pos 1 -ℤ pos 1) ≡ false
still_counted s i = rw (+ℤ_cancel s.global_block_count (pos 1), i.counted) (ground arith)

range_begun :
    {interval : ℕ} (s : Statistics)
    → IsSteady interval s
    → is_zero_ℤ (s.local_block_count +ℤ pos 1) ≡ false
range_begun s i = rw (i.counted_locally, plus_one i.n) (ground arith)

module _ {F : Type 0} (fl : Floats F) (interval block_interval : ℕ) where
  new_target-some :
      (t : TimeRange) (ts : List ℕ) (k : ℕ)
      → length ts ≡ suc k
      → (d : ℕ) × (new_target fl interval block_interval t ts ≡ some d)
  unfolding calculate_new_difficulty
  new_target-some t [] k e = absurd (omega arith)
  new_target-some t (d ∷ ts) k e = elim (Bool-cases (is_zero_ℤ t.first)) [
    | inl z ↦ (d, rw z refl)
    | inr z ↦
        let ratio =
          fl.divide (fl.of_uint (block_interval * interval % u64_mod))
            (fl.of_int (sub_int64 t.last t.first)) in
        elim (Bool-cases (fl.less ratio (fl.of_uint 0))) [
          | inl l ↦ (d, rw (z, l) refl)
          | inr l ↦
              ((fl.to_uint8 (clamp fl (round_half fl (fl.log2 ratio))) + d) % 256, rw (z, l) refl)
        ]
  ]

  abbrev ended : Block → Statistics → TimeRange
  ended b s = record s.current_target_time { last = b.timestamp }

  -- The two branches of the count.
  collect-inside :
      (b : Block) (s : Statistics)
      → (i : IsSteady interval s) → suc i.n < interval
      → collect_statistics fl interval block_interval b s
        ≡ some (record (count_block s) { last_block = some b })
  unfolding collect_statistics
  collect-inside b s i h =
      let below : ltb_ℤ (pos (suc i.n)) (pos interval) ≡ true = ground arith in
      rw (i.counted_locally, plus_one i.n, below)

  collect-boundary :
      (b : Block) (s : Statistics) (d : ℕ)
      → (i : IsSteady interval s) → suc i.n ≡ interval
      → new_target fl interval block_interval (ended b s) s.target ≡ some d
      → collect_statistics fl interval block_interval b s ≡ some (start_range b (count_block s) d)
  unfolding collect_statistics
  collect-boundary b s d i h e =
      let below : ltb_ℤ (pos (suc i.n)) (pos interval) ≡ false = ground arith in
      rw (i.counted_locally, plus_one i.n, below, e)

  collected_back :
      (b : Block) (s : Statistics)
      → IsSteady interval s
      → (s' : Statistics) × (collect_statistics fl interval block_interval b s ≡ some s')
        × (collect_statistics_rollback fl interval block_interval s.last_block s' ≡ some s)
  unfolding collect_statistics_rollback
  collected_back b s i = elim (Bool-cases (ltb (suc i.n) interval)) [
    | inl l ↦ (
      record (count_block s) { last_block = some b },
      collect-inside b s i (ground arith),
      rw (range_begun s i) (
          ap some (
            rebuilt-same s (s.global_block_count +ℤ pos 1 -ℤ pos 1)
              (s.local_block_count +ℤ pos 1 -ℤ pos 1) s.current_target_time.last
              (+ℤ_cancel s.global_block_count (pos 1)) (+ℤ_cancel s.local_block_count (pos 1))
              refl)),
    )
    | inr l ↦
        let full : suc i.n ≡ interval = let k = i.not_full in ground arith in
        let (d, e) = new_target-some (ended b s) s.target (length s.target_times) i.one_more in
        (
          start_range b (count_block s) d,
          collect-boundary b s d i full e,
          rw (still_counted s i) (
              ap some (
                rebuilt-same s (s.global_block_count +ℤ pos 1 -ℤ pos 1) (pos interval -ℤ pos 1)
                  (pos 0) (+ℤ_cancel s.global_block_count (pos 1))
                  (ap (λ k. pos k -ℤ pos 1) (sym full) ∙ (minus_one i.n ∙ sym i.counted_locally))
                  (sym i.open_range))),
        )
  ]

  stays-IsSteady :
      (b : Block) (s : Statistics)
      → IsSteady interval s
      → (s' : Statistics) × (collect_statistics fl interval block_interval b s ≡ some s')
        × IsSteady interval s'
  stays-IsSteady b s i =
      let more : s.global_block_count +ℤ pos 1 ≡ pos (suc (suc i.g)) =
        rw i.counted (plus_one (suc i.g)) in
      elim (Bool-cases (ltb (suc i.n) interval)) [
        | inl l ↦ (
          record (count_block s) { last_block = some b },
          collect-inside b s i (ground arith),
          record {
            g = suc i.g;
            n = suc i.n;
            counted = more;
            counted_locally = rw i.counted_locally (plus_one i.n);
            not_full = ground arith;
            open_range = i.open_range;
            one_more = i.one_more;
          },
        )
        | inr l ↦
            let full : suc i.n ≡ interval = let k = i.not_full in ground arith in
            let (d, e) = new_target-some (ended b s) s.target (length s.target_times) i.one_more in
            (
              start_range b (count_block s) d,
              collect-boundary b s d i full e,
              record {
                g = suc i.g;
                n = 0;
                counted = more;
                counted_locally = refl;
                not_full = omega arith;
                open_range = refl;
                one_more = ap suc i.one_more;
              },
            )
      ]

  -- After the genesis block, while the range is not full before it, a block that is collected leaves
  -- the statistics as steady as they were, and its rollback finds those before it again, when the
  -- previous block is read back: at the boundary of a range too, where the target and the range come
  -- back.
  pub collect_statistics-rollback :
      (b : Block) (s : Statistics)
      → IsSteady interval s
      → (s' : Statistics) × (collect_statistics fl interval block_interval b s ≡ some s')
        × (IsSteady interval s'
            × (collect_statistics_rollback fl interval block_interval s.last_block s' ≡ some s))
  collect_statistics-rollback b s i =
      let (s', e, k) = stays-IsSteady b s i in
      let (s'', q, r) = collected_back b s i in
      let same : s'' ≡ s' = some-injective s'' s' (sym q ∙ e) in
      (
        s',
        e,
        (
          k,
          subst
              (λ x. collect_statistics_rollback fl interval block_interval s.last_block x ≡ some s)
              same r,
        ),
      )
