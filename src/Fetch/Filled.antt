-- ===== src/Fetch/Filled.antt =====
-- fetchTransactions fills the slices with what the block names.
use bazo_miner.Prelude.{
  ℕ, ◌≡◌, ◌⊎◌, inl, inr, refl, Bool, true, false, ◌||◌, Option, List, length, arith, if◌then◌else◌,
}
use bazo_miner.Ledger.Types.{Hash, Block, FundsTx, AggTx}
use bazo_miner.Storage.{Transaction}
use bazo_miner.Chain.{Net}
use bazo_miner.Fetch.{
  Payload, Fetching, filled, error, panic, hang, with_loop, with_aggs, fetch_transactions,
}
use bazo_miner.Fetch.Kinds.{
  Network, Kind, Loop, finished, stopped, crashed, acc_kind, update_kind, config_kind, stake_kind,
  funds_kind,
}
use bazo_miner.Fetch.Aggregated.{AggLoop, agg_finished, agg_stopped, agg_crashed, agg_hung}
use bazo_miner.Fetch.Found.{IsFiled, IsFound, Names, fetch_data-IsFound}
use bazo_miner.Fetch.Lawful.{
  acc-IsLawful, config-IsLawful, stake-IsLawful, update-IsLawful, funds-IsLawful,
}

not_noted : {N : Type 0} {e : Bool} → (e ≡ true) ⊎ N → e ≡ false → N
not_noted (inl h) z = absurd (cc)
not_noted (inr n) z = n

none_noted :
    (a b c d e f : Bool)
    → (a || b || c || d || e || f) ≡ false
    → (a ≡ false) × (b ≡ false) × (c ≡ false) × (d ≡ false) × (e ≡ false)
none_noted a b c d e f h = ground arith

module _ (hash : Transaction → Hash) (network : Network) (verified : Transaction → Bool)
    (initial : Bool) (b : Block) where
  -- The slices of a block have the transactions that its hashes name, and as many places as its
  -- counts say.
  pub record IsPayload (p : Payload) : Type 0 where
    pub accs : Names hash (acc_kind hash network) b.acc_tx_data p.acc_tx_slice
    pub payments :
        Names hash (funds_kind hash network initial verified) b.funds_tx_data p.funds_tx_slice
    pub configs : Names hash (config_kind hash network) b.config_tx_data p.config_tx_slice
    pub stakes : Names hash (stake_kind hash network) b.stake_tx_data p.stake_tx_slice
    pub updates : Names hash (update_kind hash network) b.update_tx_data p.update_tx_slice
    pub counts :
        (length p.acc_tx_slice ≡ b.nr_acc_tx)
        × (length p.funds_tx_slice ≡ b.nr_funds_tx)
        × (length p.config_tx_slice ≡ b.nr_config_tx)
        × (length p.stake_tx_slice ≡ b.nr_stake_tx)
        × (length p.update_tx_slice ≡ b.nr_update_tx)

  abbrev pub IsGood : Fetching → Type 0
  IsGood (filled p net) = IsPayload p
  IsGood (error net) = Unit
  IsGood panic = Unit
  IsGood hang = Unit

  with_loop-IsGood :
      {T : Type 0} (kind : Kind T) (hs : List Hash) (room : ℕ) (r : Loop T)
      (next : List (Option T) → Bool → Net → Fetching)
      → IsFound hash kind hs room r
      → ((os : List (Option T)) (noted : Bool) (net : Net)
          → (noted ≡ true) ⊎ Names hash kind hs os
          → length os ≡ room
          → IsFiled hash net.storage
          → IsGood (next os noted net))
      → IsGood (with_loop r next)
  with_loop-IsGood kind hs room (finished os noted net) next (e, len, filed) good =
      good os noted net e len filed
  with_loop-IsGood kind hs room (stopped net) next e good = tt
  with_loop-IsGood kind hs room crashed next e good = tt

  with_aggs-IsGood :
      (r : AggLoop) (next : List (Option AggTx) → List FundsTx → Bool → Net → Fetching)
      → ((os : List (Option AggTx)) (xs : List FundsTx) (noted : Bool) (net : Net)
          → IsGood (next os xs noted net))
      → IsGood (with_aggs r next)
  with_aggs-IsGood (agg_finished os xs noted net) next good = good os xs noted net
  with_aggs-IsGood (agg_stopped net) next good = tt
  with_aggs-IsGood agg_crashed next good = tt
  with_aggs-IsGood agg_hung next good = tt

  unless_noted :
      (c : Bool) (p : Payload) (net : Net)
      → (c ≡ false → IsPayload p)
      → IsGood (if c then error net else filled p net)
  unless_noted true p net k = tt
  unless_noted false p net k = k refl

  -- fetchTransactions on a storage where transactions stand under their hashes: when it ends
  -- without an error, each slice has the transactions whose hashes the block lists, in their
  -- order, and as many places as the block's count says, whatever the network answered.
  pub fetch_transactions-IsGood :
      (fuel : ℕ) (net : Net)
      → IsFiled hash net.storage
      → IsGood (fetch_transactions hash network verified fuel initial b net)
  unfolding fetch_transactions
  fetch_transactions-IsGood fuel net filed =
      with_loop-IsGood (acc_kind hash network) b.acc_tx_data b.nr_acc_tx _ _
        (fetch_data-IsFound hash (acc_kind hash network) (acc-IsLawful hash network) initial
          b.nr_acc_tx b.acc_tx_data net filed)
        (λ o₁ e₁ n₁ f₁ l₁ d₁.
          with_loop-IsGood (funds_kind hash network initial verified) b.funds_tx_data b.nr_funds_tx
            _ _
            (fetch_data-IsFound hash (funds_kind hash network initial verified)
              (funds-IsLawful hash network initial verified) initial b.nr_funds_tx b.funds_tx_data
              n₁ d₁)
            (λ o₂ e₂ n₂ f₂ l₂ d₂.
              with_loop-IsGood (config_kind hash network) b.config_tx_data b.nr_config_tx _ _
                (fetch_data-IsFound hash (config_kind hash network) (config-IsLawful hash network)
                  initial b.nr_config_tx b.config_tx_data n₂ d₂)
                (λ o₃ e₃ n₃ f₃ l₃ d₃.
                  with_loop-IsGood (stake_kind hash network) b.stake_tx_data b.nr_stake_tx _ _
                    (fetch_data-IsFound hash (stake_kind hash network) (stake-IsLawful hash network)
                      initial b.nr_stake_tx b.stake_tx_data n₃ d₃)
                    (λ o₄ e₄ n₄ f₄ l₄ d₄.
                      with_loop-IsGood (update_kind hash network) b.update_tx_data b.nr_update_tx _
                        _
                        (fetch_data-IsFound hash (update_kind hash network)
                          (update-IsLawful hash network) initial b.nr_update_tx b.update_tx_data n₄
                          d₄)
                        (λ o₅ e₅ n₅ f₅ l₅ d₅. with_aggs-IsGood _ _ (λ os xs e₆ n₆.
                          unless_noted (e₁ || e₂ || e₃ || e₄ || e₅ || e₆) _ n₆ (λ z.
                            let (z₁, z₂, z₃, z₄, z₅) = none_noted e₁ e₂ e₃ e₄ e₅ e₆ z in
                            record {
                              accs = not_noted f₁ z₁;
                              payments = not_noted f₂ z₂;
                              configs = not_noted f₃ z₃;
                              stakes = not_noted f₄ z₄;
                              updates = not_noted f₅ z₅;
                              counts = (l₁, l₂, l₃, l₄, l₅);
                            })))))))
