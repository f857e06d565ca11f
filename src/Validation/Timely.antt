-- ===== src/Validation/Timely.antt =====
-- Which timestamps timestampCheck of miner/block_validation.go passes.
use bazo_miner.Prelude.{
  ◌↔◌, ℕ, ◌^◌, ◌≡◌, refl, Bool, true, false, not, ◌||◌, ◌⊎◌, inl, inr, Bool-cases, arith,
}
use bazo_miner.Prelude.Int.{ℤ, pos, ◌-ℤ◌, ltb_ℤ, ◌≤ℤ◌, -ℤ_parts}
use bazo_miner.Prelude.Words.{sub_int64, IsInt64}
use bazo_miner.Validation.{is_none, timestamp_check}

-- At most two hours ahead of the system time and ten hours behind it, or so far away that the
-- difference of the two is no int64.
abbrev pub IsTimely : (system_time timestamp : ℤ) → Type 0
IsTimely system_time timestamp =
    ((timestamp -ℤ system_time ≤ℤ pos 7200) × (system_time -ℤ timestamp ≤ℤ pos 36000))
    ⊎ ((pos (2 ^ 63) ≤ℤ timestamp -ℤ system_time) ⊎ (pos (2 ^ 63) ≤ℤ system_time -ℤ timestamp))

-- Above the other integer, the wrapped difference is small when the true one is, or is no int64.
sub_int64-le :
    (a b : ℤ) (m : ℕ)
    → IsInt64 a
    → IsInt64 b
    → b ≤ℤ a
    → ltb_ℤ (pos m) (sub_int64 a b) ≡ false
    → (a -ℤ b ≤ℤ pos m) ⊎ (pos (2 ^ 63) ≤ℤ a -ℤ b)
unfolding sub_int64 ◌-ℤ◌
sub_int64-le a b m ia ib le h = ground arith

le-sub_int64 :
    (a b : ℤ) (m : ℕ)
    → IsInt64 a
    → IsInt64 b
    → b ≤ℤ a
    → (a -ℤ b ≤ℤ pos m) ⊎ (pos (2 ^ 63) ≤ℤ a -ℤ b)
    → ltb_ℤ (pos m) (sub_int64 a b) ≡ false
unfolding sub_int64 ◌-ℤ◌
le-sub_int64 a b m ia ib le h = ground arith

-- For int64 values timestampCheck passes exactly the timestamps within two hours ahead and ten hours
-- behind the system time, and those so far away that the difference wraps around.
pub timestamp_check_iff :
    (system_time timestamp : ℤ)
    → IsInt64 system_time
    → IsInt64 timestamp
    → (is_none (timestamp_check system_time timestamp) ≡ true) ↔ IsTimely system_time timestamp
unfolding timestamp_check
timestamp_check_iff system_time timestamp i j =
    let p = -ℤ_parts system_time timestamp in
    let q = -ℤ_parts timestamp system_time in
    elim (Bool-cases (ltb_ℤ system_time timestamp)) [
      | inl e ↦ elim (Bool-cases (ltb_ℤ (pos 7200) (sub_int64 timestamp system_time))) [
        | inl f ↦ (
          λ h. absurd (let k = rw (e, f) at h in cc),
          λ t.
              let g : ltb_ℤ (pos 7200) (sub_int64 timestamp system_time) ≡ false =
                le-sub_int64 timestamp system_time 7200 j i (ground arith) (ground arith) in
              absurd (cc),
        )
        | inr f ↦ (
          λ h. let g = sub_int64-le timestamp system_time 7200 j i (ground arith) f in ground arith,
          λ t. rw (e, f) refl,
        )
      ]
      | inr e ↦ elim (Bool-cases (ltb_ℤ (pos 36000) (sub_int64 system_time timestamp))) [
        | inl f ↦ (
          λ h. absurd (let k = rw (e, f) at h in cc),
          λ t.
              let g : ltb_ℤ (pos 36000) (sub_int64 system_time timestamp) ≡ false =
                le-sub_int64 system_time timestamp 36000 i j (ground arith) (ground arith) in
              absurd (cc),
        )
        | inr f ↦ (
          λ h.
              let g = sub_int64-le system_time timestamp 36000 i j (ground arith) f in ground arith,
          λ t. rw (e, f) refl,
        )
      ]
    ]

pub when-IsTimely :
    (initial uptodate : Bool) (system_time timestamp : ℤ)
    → IsInt64 system_time
    → IsInt64 timestamp
    → (initial || not uptodate || is_none (timestamp_check system_time timestamp)) ≡ true
    → (initial ≡ true) ⊎ ((uptodate ≡ false) ⊎ IsTimely system_time timestamp)
when-IsTimely true uptodate st ts i j h = inl refl
when-IsTimely false false st ts i j h = inr (inl refl)
when-IsTimely false true st ts i j h = inr (inr ((timestamp_check_iff st ts i j).0 h))

pub IsTimely-when :
    (initial uptodate : Bool) (system_time timestamp : ℤ)
    → IsInt64 system_time
    → IsInt64 timestamp
    → (initial ≡ true) ⊎ ((uptodate ≡ false) ⊎ IsTimely system_time timestamp)
    → (initial || not uptodate || is_none (timestamp_check system_time timestamp)) ≡ true
IsTimely-when true uptodate st ts i j h = refl
IsTimely-when false false st ts i j h = refl
IsTimely-when false true st ts i j (inl e) = absurd (cc)
IsTimely-when false true st ts i j (inr (inl e)) = absurd (cc)
IsTimely-when false true st ts i j (inr (inr t)) = (timestamp_check_iff st ts i j).1 t
