-- ===== src/Blocks/Undo/Read.antt =====
-- What preValidateRollback reads.
use bazo_miner.Prelude.{◌≡◌, ◌↔◌, refl, sym, ap, subst, Option, none, some, List, [], ◌∷◌}
use bazo_miner.Ledger.Types.{Hash, Block, AccTx, FundsTx, ConfigTx, StakeTx, AggTx}
use bazo_miner.Storage.{
  Storage, Transaction, acc, funds, config, stake, agg, update, read_closed_tx,
}
use bazo_miner.Fetch.Kinds.{cast_acc, cast_funds, cast_config, cast_stake}
use bazo_miner.Fetch.Lawful.{cast_acc_same, cast_funds_same, cast_config_same, cast_stake_same}
use bazo_miner.Blocks.{BlockData}
use bazo_miner.Blocks.Undo.{
  Reading, found, not_closed, wrong_type, and_read, cast_agg, cons_read, read_cast, read_one,
  read_each, pre_validate_rollback,
}

cast_agg_same : (t : Transaction) (x : AggTx) → cast_agg t ≡ some x → agg x ≡ t
cast_agg_same (funds y) x e = cc
cast_agg_same (acc y) x e = cc
cast_agg_same (update y) x e = cc
cast_agg_same (config y) x e = cc
cast_agg_same (stake y) x e = cc
cast_agg_same (agg y) x e = cc

and_read-found :
    {A B : Type 0} (r : Reading A) (next : A → Reading B) (b : B)
    → and_read r next ≡ found b
    → (a : A) × (r ≡ found a) × (next a ≡ found b)
and_read-found (found a) next b e = (a, refl, e)
and_read-found not_closed next b e = absurd (cc)
and_read-found wrong_type next b e = absurd (cc)

module _ {T : Type 0} (as_tx : T → Transaction) where
  -- The transactions are those closed under the hashes, in their order.
  abbrev pub AreClosed : Storage → List Hash → List T → Type 0
  AreClosed s [] [] = Unit
  AreClosed s [] (x ∷ xs) = ⊥
  AreClosed s (h ∷ hs) [] = ⊥
  AreClosed s (h ∷ hs) (x ∷ xs) = (read_closed_tx h s ≡ some (as_tx x)) × AreClosed s hs xs

module _ {T : Type 0} (cast : Transaction → Option T) (as_tx : T → Transaction)
    (cast_same : (t : Transaction) (x : T) → cast t ≡ some x → as_tx x ≡ t)
    (cast_as : (x : T) → cast (as_tx x) ≡ some x) where
  cons_read-found :
      (x : T) (r : Reading (List T)) (ys : List T)
      → cons_read x r ≡ found ys
      → (xs : List T) × (r ≡ found xs) × (ys ≡ x ∷ xs)
  cons_read-found x (found xs) ys e = (xs, refl, cc)
  cons_read-found x not_closed ys e = absurd (cc)
  cons_read-found x wrong_type ys e = absurd (cc)

  read_cast-found :
      (t : Transaction) (o : Option T) (r : Reading (List T)) (ys : List T)
      → cast t ≡ o
      → read_cast o r ≡ found ys
      → (x : T) × (xs : List T) × (t ≡ as_tx x) × (r ≡ found xs) × (ys ≡ x ∷ xs)
  read_cast-found t none r ys c e = absurd (cc)
  read_cast-found t (some x) r ys c e =
      let (xs, f, k) = cons_read-found x r ys e in (x, xs, sym (cast_same t x c), f, k)

  read_one-found :
      (o : Option Transaction) (r : Reading (List T)) (ys : List T)
      → read_one cast o r ≡ found ys
      → (x : T) × (xs : List T) × (o ≡ some (as_tx x)) × (r ≡ found xs) × (ys ≡ x ∷ xs)
  read_one-found none r ys e = absurd (cc)
  read_one-found (some t) r ys e =
      let (x, xs, k, f, l) = read_cast-found t (cast t) r ys refl e in (x, xs, ap some k, f, l)

  pub read_each-AreClosed :
      (hs : List Hash) (s : Storage) (ys : List T)
      → read_each cast hs s ≡ found ys
      → AreClosed as_tx s hs ys
  read_each-AreClosed [] s [] e = tt
  read_each-AreClosed [] s (y ∷ ys) e = absurd (cc)
  read_each-AreClosed (h ∷ hs) s ys e =
      let (x, xs, k, f, l) = read_one-found (read_closed_tx h s) (read_each cast hs s) ys e in
      rw l (k, read_each-AreClosed hs s xs f)

  pub AreClosed-read_each :
      (hs : List Hash) (s : Storage) (ys : List T)
      → AreClosed as_tx s hs ys
      → read_each cast hs s ≡ found ys
  AreClosed-read_each [] s [] a = refl
  AreClosed-read_each [] s (y ∷ ys) a = absurd a
  AreClosed-read_each (h ∷ hs) s [] a = absurd a
  AreClosed-read_each (h ∷ hs) s (y ∷ ys) (k, a) =
      rw (k, cast_as y, AreClosed-read_each hs s ys a) refl

-- What a rollback of the block works on.
pub record IsReadBack (b : Block) (s : Storage) (d : BlockData) : Type 0 where
  pub accs : AreClosed acc s b.acc_tx_data d.acc_tx_slice
  pub payments : AreClosed funds s b.funds_tx_data d.funds_tx_slice
  pub configs : AreClosed config s b.config_tx_data d.config_tx_slice
  pub stakes : AreClosed stake s b.stake_tx_data d.stake_tx_slice
  pub aggs : AreClosed agg s b.agg_tx_data d.agg_tx_slice
  pub not_read : (d.aggregated_funds_tx_slice ≡ []) × (d.update_tx_slice ≡ [])
  pub same_block : d.block ≡ b

-- The data of a block with these transactions.
abbrev pub read_data :
    Block → List AccTx → List FundsTx → List ConfigTx → List StakeTx → List AggTx → BlockData
read_data b accs payments configs stakes aggs = record {
  acc_tx_slice = accs;
  funds_tx_slice = payments;
  config_tx_slice = configs;
  stake_tx_slice = stakes;
  agg_tx_slice = aggs;
  aggregated_funds_tx_slice = [];
  update_tx_slice = [];
  block = b;
}

found-injective : {A : Type 0} {x y : A} → found x ≡ found y → x ≡ y
found-injective e = cc

-- preValidateRollback returns data exactly when they are the block, the closed transactions of its
-- five lists of hashes, each of the type of its list, in their order, and nothing else.
pub pre_validate_rollback-IsReadBack :
    (b : Block) (s : Storage) (d : BlockData)
    → (pre_validate_rollback b s ≡ found d) ↔ IsReadBack b s d
unfolding pre_validate_rollback
pre_validate_rollback-IsReadBack b s d = (
  λ e.
      let (accs, f₁, e₁) = and_read-found _ _ d e in
      let (payments, f₂, e₂) = and_read-found _ _ d e₁ in
      let (configs, f₃, e₃) = and_read-found _ _ d e₂ in
      let (stakes, f₄, e₄) = and_read-found _ _ d e₃ in
      let (aggs, f₅, e₅) = and_read-found _ _ d e₄ in
      subst (IsReadBack b s) (found-injective e₅) (record {
        accs = read_each-AreClosed cast_acc acc cast_acc_same (λ x. refl) b.acc_tx_data s accs f₁;
        payments =
            read_each-AreClosed cast_funds funds cast_funds_same (λ x. refl) b.funds_tx_data s
              payments f₂;
        configs =
            read_each-AreClosed cast_config config cast_config_same (λ x. refl) b.config_tx_data s
              configs f₃;
        stakes =
            read_each-AreClosed cast_stake stake cast_stake_same (λ x. refl) b.stake_tx_data s
              stakes f₄;
        aggs = read_each-AreClosed cast_agg agg cast_agg_same (λ x. refl) b.agg_tx_data s aggs f₅;
        not_read = (refl, refl);
        same_block = refl;
      }),
  λ r.
      let f₁ =
        AreClosed-read_each cast_acc acc cast_acc_same (λ x. refl) b.acc_tx_data s d.acc_tx_slice
          r.accs in
      let f₂ =
        AreClosed-read_each cast_funds funds cast_funds_same (λ x. refl) b.funds_tx_data s
          d.funds_tx_slice r.payments in
      let f₃ =
        AreClosed-read_each cast_config config cast_config_same (λ x. refl) b.config_tx_data s
          d.config_tx_slice r.configs in
      let f₄ =
        AreClosed-read_each cast_stake stake cast_stake_same (λ x. refl) b.stake_tx_data s
          d.stake_tx_slice r.stakes in
      let f₅ =
        AreClosed-read_each cast_agg agg cast_agg_same (λ x. refl) b.agg_tx_data s d.agg_tx_slice
          r.aggs in
      let (n₁, n₂) = r.not_read in
      rw (f₁, f₂, f₃, f₄, f₅)
        (λ i. found (record {
          acc_tx_slice = d.acc_tx_slice;
          funds_tx_slice = d.funds_tx_slice;
          config_tx_slice = d.config_tx_slice;
          stake_tx_slice = d.stake_tx_slice;
          agg_tx_slice = d.agg_tx_slice;
          aggregated_funds_tx_slice = sym n₁ i;
          update_tx_slice = sym n₂ i;
          block = sym r.same_block i;
        })),
)
