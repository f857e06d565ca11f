-- ===== src/Statistics/Tests.antt =====
-- The theorems of the statistics with whole numbers in place of floating point ones.
use bazo_miner.Prelude.{◌≡◌, refl, some, [], ◌∷◌, arith}
use bazo_miner.Prelude.Int.{ℤ, pos, pos_part, ◌+ℤ◌, ◌-ℤ◌, ltb_ℤ}
use bazo_miner.Ledger.Types.{Block, new_block}
use bazo_miner.Statistics.{Statistics, Floats, collect_statistics, collect_statistics_rollback}
use bazo_miner.Statistics.Rollback.{IsSteady, collect_statistics-rollback}

abbrev whole : Floats ℤ
whole = record {
  of_uint = pos;
  of_int = λ z. z;
  half = pos 0;
  divide = λ a b. a -ℤ b;
  add = λ a b. a +ℤ b;
  subtract = λ a b. a -ℤ b;
  log2 = λ a. a;
  less = ltb_ℤ;
  to_uint8 = pos_part;
}

abbrev late_block : Block
late_block = record (new_block 5 10) { hash = 6; timestamp = pos 900 }

-- One block before the boundary of a range of ten.
abbrev nine_counted : Statistics
nine_counted = record {
  global_block_count = pos 9;
  local_block_count = pos 9;
  target = 12 ∷ [];
  target_times = [];
  current_target_time = record { first = pos 40; last = pos 0 };
  last_block = some (new_block 4 9);
}

nine_counted-IsSteady : IsSteady 10 nine_counted
nine_counted-IsSteady = record {
  g = 8;
  n = 9;
  counted = refl;
  counted_locally = refl;
  not_full = omega arith;
  open_range = refl;
  one_more = refl;
}

collect_statistics-rollback_example :
    (s' : Statistics) × (collect_statistics whole 10 60 late_block nine_counted ≡ some s')
    × (IsSteady 10 s'
        × (collect_statistics_rollback whole 10 60 (some (new_block 4 9)) s' ≡ some nine_counted))
collect_statistics-rollback_example =
    collect_statistics-rollback whole 10 60 late_block nine_counted nine_counted-IsSteady
