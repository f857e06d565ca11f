-- ===== src/Statistics.antt =====
-- miner/blockchainparam.go: the counters, the history of targets and the difficulty. The int64
-- counters are integers that do not wrap around; the difference of two timestamps does. The newest
-- target and range are first in their lists.
pub mod Rollback
mod Tests
use bazo_miner.Prelude.{
  ℕ, zero, suc, ◌+◌, ◌*◌, ◌-◌, ◌%◌, Bool, true, false, not, ◌&&◌, Option, none, some, List, [], ◌∷◌,
  ltb, ◌==◌, if◌then◌else◌,
}
use bazo_miner.Prelude.Int.{ℤ, pos, negsuc, ◌+ℤ◌, ◌-ℤ◌, ltb_ℤ}
use bazo_miner.Prelude.Words.{u64_mod, sub_int64}
use bazo_miner.Ledger.Types.{Block}

pub record TimeRange : Type 0 where
  pub first : ℤ
  pub last : ℤ

pub record Statistics : Type 0 where
  pub global_block_count : ℤ
  pub local_block_count : ℤ
  pub target : List ℕ
  pub target_times : List TimeRange
  pub current_target_time : TimeRange
  pub last_block : Option Block

-- The operations on floating point numbers. `to_uint8` is Go's conversion, which for a negative
-- number depends on the implementation.
pub record Floats (F : Type 0) : Type 0 where
  pub of_uint : ℕ → F
  pub of_int : ℤ → F
  pub half : F
  pub divide : F → F → F
  pub add : F → F → F
  pub subtract : F → F → F
  pub log2 : F → F
  pub less : F → F → Bool
  pub to_uint8 : F → ℕ

abbrev pub is_zero_ℤ : ℤ → Bool
is_zero_ℤ (pos n) = n == 0
is_zero_ℤ (negsuc n) = false

-- `target[len(target)-1]`: none is an index out of range.
abbrev pub get_difficulty : List ℕ → Option ℕ
get_difficulty [] = none
get_difficulty (t ∷ ts) = some t

abbrev pub or_panic : {A B : Type 0} → Option A → (A → Option B) → Option B
or_panic none f = none
or_panic (some a) f = f a

module _ {F : Type 0} (fl : Floats F) where
  -- "The +-0.5 is basically the round function."
  abbrev pub round_half : F → F
  round_half x =
      if fl.less (fl.of_uint 0) x
      then fl.add x fl.half
      else if fl.less x (fl.of_uint 0)
      then fl.subtract x fl.half
      else x

  -- "Make it at most 3 times as hard or easy"
  abbrev pub clamp : F → F
  clamp x =
      if fl.less (fl.of_uint 3) x
      then fl.of_uint 3
      else if fl.less x (fl.of_int (negsuc 2))
      then fl.of_int (negsuc 2)
      else x

abbrev pub start_range : Block → Statistics → ℕ → Statistics
start_range b s d =
    let t = record s.current_target_time { last = b.timestamp } in
    record s {
      target = d ∷ s.target;
      target_times = t ∷ s.target_times;
      local_block_count = pos 0;
      current_target_time = record { first = b.timestamp; last = pos 0 };
      last_block = some b;
    }

abbrev pub count_block : Statistics → Statistics
count_block s = record s {
  global_block_count = s.global_block_count +ℤ pos 1;
  local_block_count = s.local_block_count +ℤ pos 1;
}

abbrev pub set_last : Option Block → Statistics → Option Statistics
set_last o s = some (record s { last_block = o })

-- The interval and the block interval are those of the active parameters.
module _ {F : Type 0} (fl : Floats F) (interval block_interval : ℕ) where
  unfoldable pub calculate_new_difficulty : TimeRange → List ℕ → Option ℕ
  calculate_new_difficulty t target =
      let diff_now = sub_int64 t.last t.first in
      let diff_wanted = block_interval * interval % u64_mod in
      let diff_ratio = fl.divide (fl.of_uint diff_wanted) (fl.of_int diff_now) in
      if fl.less diff_ratio (fl.of_uint 0)
      then get_difficulty target
      else or_panic (get_difficulty target)
          (λ d. some ((fl.to_uint8 (clamp fl (round_half fl (fl.log2 diff_ratio))) + d) % 256))

  abbrev pub new_target : TimeRange → List ℕ → Option ℕ
  new_target t target =
      if is_zero_ℤ t.first then get_difficulty target else calculate_new_difficulty t target

  unfoldable pub collect_statistics : Block → Statistics → Option Statistics
  collect_statistics b s =
      let counted = count_block s in
      if not (ltb_ℤ counted.local_block_count (pos interval))
      then or_panic (new_target (record s.current_target_time { last = b.timestamp }) s.target)
          (λ d. some (start_range b counted d))
      else some (record counted { last_block = some b })

  abbrev pub drop_target : List ℕ → List TimeRange → Statistics → Option Statistics
  drop_target [] times s = none
  drop_target (d ∷ ds) [] s = none
  drop_target (d ∷ ds) (t ∷ ts) s = some (record s {
    local_block_count = pos interval -ℤ pos 1;
    target = ds;
    current_target_time = record s.current_target_time { first = t.first };
    target_times = ts;
  })

  -- `previous` is the closed block with the hash before this block's.
  unfoldable pub collect_statistics_rollback : Option Block → Statistics → Option Statistics
  collect_statistics_rollback previous s =
      let back = record s { global_block_count = s.global_block_count -ℤ pos 1 } in
      if is_zero_ℤ s.local_block_count && not (is_zero_ℤ back.global_block_count)
      then or_panic (drop_target s.target s.target_times back) (set_last previous)
      else set_last previous (record back { local_block_count = s.local_block_count -ℤ pos 1 })
