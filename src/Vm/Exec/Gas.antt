-- ===== src/Vm/Exec/Gas.antt =====
-- What an instruction spends for an element: `charge`.
use bazo_miner.Prelude.{
  ℕ, ◌+◌, ◌-◌, ◌^◌, ◌≤◌, ◌<◌, ◌≡◌, refl, true, leb, arith, ◌⊎◌, inl, inr, le-or-lt, leb-false,
}
use bazo_miner.Prelude.Words.{sub64, u64_mod}
use bazo_miner.Vm.Result.{Bytes, Result}
use bazo_miner.Vm.Machine.{Vm, value, charge, gas_cost}

-- The charge by whether the difference has its top bit set.
module _ (gas_factor : ℕ) (bytes : Bytes) (vm : Vm) where
  charge_out :
      leb (2 ^ 63) (sub64 vm.fee (gas_cost gas_factor bytes)) ≡ true
      → charge gas_factor bytes vm ≡ (value (Result.err "Out of gas"), vm)
  unfolding charge
  charge_out h = rw h refl

  charge_paid :
      {left : ℕ}
      → sub64 vm.fee (gas_cost gas_factor bytes) ≡ left
      → left < 2 ^ 63
      → charge gas_factor bytes vm ≡ (value (Result.ok bytes), record vm { fee = left })
  unfolding charge
  charge_paid e h = rw (e, leb-false h) refl

-- With a fee below 2^63 and a cost below 2^63, an element is paid for exactly when its cost is at
-- most the fee; otherwise the instruction is out of gas and the fee stays.
pub charge_lem :
    (gas_factor : ℕ) (bytes : Bytes) (vm : Vm)
    → vm.fee < 2 ^ 63
    → gas_cost gas_factor bytes < 2 ^ 63
    → ((gas_cost gas_factor bytes ≤ vm.fee)
        × (charge gas_factor bytes vm
            ≡ (value (Result.ok bytes), record vm { fee = vm.fee - gas_cost gas_factor bytes })))
      ⊎ ((vm.fee < gas_cost gas_factor bytes)
          × (charge gas_factor bytes vm ≡ (value (Result.err "Out of gas"), vm)))
charge_lem gas_factor bytes vm f c = elim (le-or-lt (gas_cost gas_factor bytes) vm.fee) [
  | inl h ↦ inl (h, charge_paid gas_factor bytes vm (unfold sub64 in omega arith) (omega arith))
  | inr h ↦ inr (h, charge_out gas_factor bytes vm (unfold sub64 in ground arith))
]

-- A fee that is 2^63 or more above the cost counts as negative: the instruction is out of gas.
charge_negative :
    (gas_factor : ℕ) (bytes : Bytes) (vm : Vm)
    → vm.fee < u64_mod
    → gas_cost gas_factor bytes + 2 ^ 63 ≤ vm.fee
    → charge gas_factor bytes vm ≡ (value (Result.err "Out of gas"), vm)
charge_negative gas_factor bytes vm f c =
    charge_out gas_factor bytes vm (unfold sub64 in ground arith)
